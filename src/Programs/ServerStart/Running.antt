-- ===== src/Programs/ServerStart/Running.antt =====
-- What a server runs with whose start has returned.
use go_metrics_harvester.Base.{
  ok_inj, inr_inj, inl-ne-inr, lifted-eq-ok, ℕ, ◌+◌, ◌%◌, ◌^◌, String, ◌≡◌, ◌≢◌, ◌⊎◌, inl, inr,
  refl, sym, ap, ◌∙◌, String-cases, Sum-cases, Option, none, some, List, Error, ok, pure, lifted,
  ◌>>=◌, ◌>>◌, >>-eq-ok, >>=-eq-ok,
}
use mathlib.Core.Path.{subst}
use Prim.Native.String
use go_metrics_harvester.Metric.Json.{Json}
use go_metrics_harvester.Service.{Disk}
use go_metrics_harvester.Postgres.Driver.{Database}
use go_metrics_harvester.Middleware.Logging.{Zap, initialize}
use go_metrics_harvester.Middleware.Subnet.{Addresses}
use go_metrics_harvester.Server.Config.{Config, Inputs, new_config}
use go_metrics_harvester.Server.Config.Usable.{IsUsable, NamesFiles, new_config-IsUsable}
use go_metrics_harvester.Server.Routes.{Settings}
use go_metrics_harvester.Programs.ServerStart.{
  Store, Files, Ports, on_left, listen_address, new_server, open_store, make_servers, initialized,
  start,
}
use go_metrics_harvester.Programs.ServerStart.Chosen.{IsChosen, open_store-IsChosen}

-- The private key is the text of the file that is named, if one is.
pub data IsKeyed (read : String → Error ⊎ List ℕ) (cfg : Config) : Option (List ℕ) → Type 0 where
  unnamed : cfg.crypto_key ≡ "" → IsKeyed read cfg none
  named :
      (buf : List ℕ)
      → cfg.crypto_key ≢ ""
      → read cfg.crypto_key ≡ inr buf
      → IsKeyed read cfg (some buf)

-- The address is the configured host with the port after the configured one.
pub record IsNext (p : Ports) (configured address : String) : Type 0 where
  pub host : String
  pub port : String
  pub number : ℕ
  pub parts : p.split_host_port configured ≡ inr (host, port)
  pub parsed : p.atoi port ≡ inr number
  pub next : address ≡ String.◌++◌ host (String.◌++◌ ":" (p.decimal ((number + 1) % 2 ^ 64)))

listen_address-IsNext :
    (p : Ports) (configured address : String)
    → listen_address p configured ≡ inr address
    → IsNext p configured address
unfolding listen_address
listen_address-IsNext p configured address e = elim (Sum-cases (p.split_host_port configured)) [
  | inl (x, t) ↦ absurd (inl-ne-inr (rw (t, listen_address) at e))
  | inr ((host, port), t) ↦ elim (Sum-cases (p.atoi port)) [
    | inl (x, t') ↦ absurd (inl-ne-inr (rw (t, t', listen_address) at e))
    | inr (n, t') ↦ record {
      host = host;
      port = port;
      number = n;
      parts = t;
      parsed = t';
      next = inr_inj (sym (rw (t, t', listen_address) at e));
    }
  ]
]

-- What the HTTP server is made of.
pub record IsServed (read : String → Error ⊎ List ℕ) (cfg : Config) (settings : Settings)
    : Type 0 where
  pub trusted_subnet : settings.trusted_subnet ≡ cfg.trusted_subnet
  pub key : settings.key ≡ cfg.key
  pub store_interval : settings.store_interval ≡ cfg.store_interval
  pub private_key : IsKeyed read cfg settings.private_key

module _ (read : String → Error ⊎ List ℕ) (cfg : Config) {settings : Settings} where
  made-IsServed :
      (buf : Option (List ℕ))
      → IsKeyed read cfg buf
      → ◌≡◌ {A = Error ⊎ Settings}
          (inr (record {
            key = cfg.key;
            trusted_subnet = cfg.trusted_subnet;
            private_key = buf;
            store_interval = cfg.store_interval;
          }))
          (inr settings)
      → IsServed read cfg settings
  made-IsServed buf h e =
      subst (IsServed read cfg) (inr_inj e)
        (record { trusted_subnet = refl; key = refl; store_interval = refl; private_key = h })

  new_server-IsServed : new_server read cfg ≡ inr settings → IsServed read cfg settings
  unfolding new_server
  new_server-IsServed e = elim (String-cases cfg.crypto_key "") [
    | inl (p, t) ↦ made-IsServed none (unnamed p) (rw (t, new_server) at e)
    | inr (ne, t) ↦ elim (Sum-cases (read cfg.crypto_key)) [
      | inl (x, t') ↦ absurd (inl-ne-inr (rw (t, t', new_server) at e))
      | inr (buf, t') ↦ made-IsServed (some buf) (named buf ne t') (rw (t, t', new_server) at e)
    ]
  ]

-- A server that runs: it has a configuration that NewConfig returned, from whatever disk `d` it was
-- called with, the repository that this one asks for, and both servers' settings from it.
pub record IsRunning {F S : Type 0} (a : Addresses) (i : Inputs S) (ports : Ports)
    (read : String → Error ⊎ List ℕ) (d : S) (r : Store F × Settings × String) : Type 0 where
  pub cfg : Config
  pub configured : (new_config a i d).0 ≡ ok cfg
  pub usable : IsUsable a cfg
  pub chosen : IsChosen cfg r.0
  pub served : IsServed read cfg r.1
  pub next : IsNext ports cfg.address r.2

module _ {F : Type 0} (json : Json F) (disk : Disk) (files : Files disk) (db : Database F)
    (a : Addresses) (i : Inputs disk.State) (ports : Ports) (read : String → Error ⊎ List ℕ) where
  make_servers-eq-ok :
      (cfg : Config) (store : Store F) (s : disk.State × db.State) (r : Store F × Settings × String)
      → (make_servers json disk files db ports read cfg store s).0 ≡ ok r
      → (store ≡ r.0) × IsServed read cfg r.1 × IsNext ports cfg.address r.2
  make_servers-eq-ok cfg store s r e =
      let listening = lifted (listen_address ports cfg.address) in
      let served = λ (address : String).
        lifted (new_server read cfg) >>= λ settings. pure (store, settings, address) in
      let (address, l, rest) = >>=-eq-ok served listening s e in
      let (settings, n, made) =
        >>=-eq-ok (λ (settings : Settings). pure (store, settings, address))
          (lifted (new_server read cfg)) (listening s).1 rest in
      let same : (store, settings, address) ≡ r = ok_inj made in
      let address' =
        listen_address-IsNext ports cfg.address address
          (lifted-eq-ok (listen_address ports cfg.address) s l) in
      let settings' =
        new_server-IsServed read cfg (lifted-eq-ok (new_server read cfg) (listening s).1 n) in
      subst
        (λ (q : Store F × Settings × String).
          (store ≡ q.0) × IsServed read cfg q.1 × IsNext ports cfg.address q.2)
        same (refl, settings', address')

  -- If the start of the server returns, then NewConfig has returned a configuration whose trusted
  -- subnet, unless empty, is one in CIDR notation, which names a storage file if it restores, and all
  -- that runs is made from it: the repository
  -- is in memory exactly if no database is named, the HTTP server has the configured key, subnet and
  -- store interval and the text of the private key's file exactly if one is named, and the gRPC
  -- server listens on the port behind the configured one. os.CreateTemp must give no empty name.
  pub start-IsRunning :
      (zap : Zap) (d : disk.State) (b : db.State) (r : Store F × Settings × String)
      → NamesFiles i
      → (start json disk files db a i zap ports read (d, b)).0 ≡ ok r
      → IsRunning a i ports read d r
  unfolding start
  start-IsRunning zap d b r names e =
      let first = on_left {B = db.State} (new_config a i) in
      let opening = λ (cfg : Config).
        open_store json disk files db cfg >>= make_servers json disk files db ports read cfg in
      let logging = λ (cfg : Config).
        initialized json disk files db (initialize zap cfg.log_level zap.new_nop).0 in
      let (cfg, configured, e₁) = >>=-eq-ok (λ cfg. logging cfg >> opening cfg) first (d, b) e in
      let s = (first (d, b)).1 in
      let (_, made) = >>-eq-ok (logging cfg) (opening cfg) s e₁ in
      let s' = (logging cfg s).1 in
      let (store, opened, e₂) =
        >>=-eq-ok (make_servers json disk files db ports read cfg)
          (open_store json disk files db cfg) s' (ap (λ q. q.0) (sym made) ∙ e₁) in
      let (same, served, next) =
        make_servers-eq-ok cfg store (open_store json disk files db cfg s').1 r e₂ in
      record {
        cfg = cfg;
        configured = configured;
        usable = new_config-IsUsable a i names cfg d configured;
        chosen =
            subst (IsChosen cfg) same (open_store-IsChosen json disk files db cfg store s' opened);
        served = served;
        next = next;
      }
