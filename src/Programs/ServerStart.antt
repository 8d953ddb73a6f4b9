-- ===== src/Programs/ServerStart.antt =====
-- cmd/server/main.go up to the two servers, with what NewServer reads and where the gRPC server
-- listens.
pub mod Chosen
pub mod Running
use go_metrics_harvester.Base.{
  ℕ, ◌+◌, ◌%◌, ◌^◌, String, ◌⊎◌, inl, inr, Option, none, some, List, [], ◌==◌, ltb, if◌then◌else◌,
  Error, wrap, ok, err, Action, pure, fail, lifted, and_then, ◌>>=◌, ◌>>◌,
}
use Prim.Native.String
use go_metrics_harvester.Metric.Json.{Json}
use go_metrics_harvester.Memory
use go_metrics_harvester.Memory.{Storage}
use go_metrics_harvester.Service.{Disk}
use go_metrics_harvester.Postgres
use go_metrics_harvester.Postgres.Driver.{Database}
use go_metrics_harvester.Middleware.Logging.{Zap, initialize}
use go_metrics_harvester.Middleware.Subnet.{Addresses}
use go_metrics_harvester.Server.Config.{Config, Inputs, new_config}
use go_metrics_harvester.Server.Routes.{Settings}

-- The repository that main has chosen. The rows of a database are in the state of the database.
pub data Store (F : Type 0) : Type 0 where
  in_memory : Storage F → Store F
  in_database : Store F

-- What main takes from the package os: os.OpenFile with O_RDONLY and O_CREATE, and the size that
-- Stat gives for the file opened.
pub record Files (disk : Disk) : Type 0 where
  pub open_or_create : String → Action disk.State (Unit {0})
  pub size : String → disk.State → Error ⊎ ℕ

-- Where the gRPC server gets its address from: net.SplitHostPort, strconv.Atoi, and a number in
-- decimal. Numbers are bit patterns of 64 bits.
pub record Ports : Type 0 where
  pub split_host_port : String → Error ⊎ (String × String)
  pub atoi : String → Error ⊎ ℕ
  pub decimal : ℕ → String

module _ {A B C : Type 0} where
  abbrev pub on_left : Action A C → Action (A × B) C
  on_left m (a, b) = let (r, a') = m a in (r, (a', b))

  abbrev pub on_right : Action B C → Action (A × B) C
  on_right m (a, b) = let (r, b') = m b in (r, (a, b'))

abbrev pub stored : {F : Type 0} → Error ⊎ Storage F → Error ⊎ Store F
stored (inl e) = inl e
stored (inr s) = inr (in_memory s)

-- The address of the gRPC server: the port behind that of the configuration.
unfoldable pub listen_address : Ports → String → Error ⊎ String
listen_address p address = elim (p.split_host_port address) [
  | inl e ↦ inl (wrap "parse address" e)
  | inr (host, port) ↦ elim (p.atoi port) [
    | inl e ↦ inl (wrap "parse port" e)
    | inr n ↦ inr (String.◌++◌ host (String.◌++◌ ":" (p.decimal ((n + 1) % 2 ^ 64))))
  ]
]

abbrev key_read : Config → Error ⊎ List ℕ → Error ⊎ Option (List ℕ)
key_read cfg (inl e) = inl (wrap "open private key filename" e)
key_read cfg (inr buf) = inr (some buf)

-- NewServer, but for the routes.
unfoldable pub new_server : (String → Error ⊎ List ℕ) → Config → Error ⊎ Settings
new_server read cfg =
    and_then (if cfg.crypto_key == "" then inr none else key_read cfg (read cfg.crypto_key)) λ buf.
      inr (record {
        key = cfg.key;
        trusted_subnet = cfg.trusted_subnet;
        private_key = buf;
        store_interval = cfg.store_interval;
      })

module _ {F : Type 0} (json : Json F) (disk : Disk) (files : Files disk) (db : Database F) where
  unfoldable pub choose : Config → Action (disk.State × db.State) (Store F)
  choose cfg =
      if cfg.database_dsn == ""
      then pure (in_memory (record { storage = [] }))
      else on_right (Postgres.new_storage db cfg.database_dsn >> pure in_database)

  abbrev pub read_back : Config → List ℕ → Action (disk.State × db.State) (Store F)
  read_back cfg text =
      if cfg.database_dsn == ""
      then lifted (stored (Memory.new_from json text))
      else on_right (Postgres.new_from db json text cfg.database_dsn >> pure in_database)

  -- With a file that is not empty, the store is made anew.
  abbrev pub sized : Config → Store F → Error ⊎ ℕ → Action (disk.State × db.State) (Store F)
  sized cfg store (inl e) s = (err e, s)
  sized cfg store (inr n) s =
      if ltb 0 n then read_back cfg (disk.read cfg.file_storage_path s.0) s else (ok store, s)

  unfoldable pub restore : Config → Store F → Action (disk.State × db.State) (Store F)
  restore cfg store =
      if cfg.restore
      then on_left (files.open_or_create cfg.file_storage_path)
        >> (λ s. sized cfg store (files.size cfg.file_storage_path s.0) s)
      else pure store

  unfoldable pub open_store : Config → Action (disk.State × db.State) (Store F)
  unfolding choose restore
  open_store cfg = choose cfg >>= restore cfg

  -- The two servers of a configuration, over the store.
  abbrev pub make_servers :
      Ports
      → (String → Error ⊎ List ℕ)
      → Config
      → Store F
      → Action (disk.State × db.State) (Store F × Settings × String)
  make_servers ports read cfg store = lifted (listen_address ports cfg.address) >>= λ address.
      lifted (new_server read cfg) >>= λ settings. pure (store, settings, address)

  abbrev pub initialized : Option Error → Action (disk.State × db.State) (Unit {0})
  initialized none = pure tt
  initialized (some e) = fail e

  -- main as far as the servers run: the store, what the HTTP server is made of, and the address of
  -- the gRPC server. An error ends the program.
  unfoldable pub start :
      (a : Addresses)
      → Inputs disk.State
      → Zap
      → Ports
      → (String → Error ⊎ List ℕ)
      → Action (disk.State × db.State) (Store F × Settings × String)
  unfolding open_store listen_address new_server
  start a i zap ports read = on_left (new_config a i) >>= λ cfg.
      initialized (initialize zap cfg.log_level zap.new_nop).0
      >> (open_store cfg >>= make_servers ports read cfg)
