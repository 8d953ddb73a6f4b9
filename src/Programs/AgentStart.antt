-- ===== src/Programs/AgentStart.antt =====
-- cmd/agent/main.go: the client that the agent publishes with.
pub mod Clients
use go_metrics_harvester.Base.{
  ℕ, String, ◌≡◌, ◌≢◌, ◌⊎◌, inl, inr, refl, sym, ◌∙◌, false, Bool-cases, Option, none, some, List,
  ◌==◌, if◌then◌else◌, eq_iff, eq-eq_false, arith, Error, wrap, and_then, and_then-eq-inr,
}
use mathlib.Core.Path.{subst}
use go_metrics_harvester.HttpClient.{Client}
use go_metrics_harvester.Middleware.Logging.{Zap, initialize}
use go_metrics_harvester.Agent.Config.{
  Config, Inputs, http_protocol, grpc_protocol, flagged, read_file, addressed, new_config,
}

-- The variable `client` of main where it is not nil.
pub data Publisher : Type 0 where
  http : Client → Publisher
  grpc : (address key : String) → Publisher

-- os.ReadFile, and the error of grpc.NewClient for an address.
module _ (read : String → Error ⊎ List ℕ) (dial : String → Option Error) where
  abbrev pub with_key : Config → Option (List ℕ) → Error ⊎ Client
  with_key cfg buf = inr (record { address = cfg.address; key = cfg.key; public_key = buf })

  abbrev pub key_read : Config → Error ⊎ List ℕ → Error ⊎ Client
  key_read cfg (inl e) = inl (wrap "open public key filename" e)
  key_read cfg (inr buf) = with_key cfg (some buf)

  unfoldable pub new_http_client : Config → Error ⊎ Client
  new_http_client cfg =
      if cfg.crypto_key == "" then with_key cfg none else key_read cfg (read cfg.crypto_key)

  unfoldable pub new_grpc_client : Config → Error ⊎ Publisher
  new_grpc_client cfg = elim (dial cfg.address) [
    | some e ↦ inl e
    | none ↦ inr (grpc cfg.address cfg.key)
  ]

  -- The two ifs of main, in their order.
  abbrev pub try_http : Config → Error ⊎ Option Publisher
  try_http cfg =
      if cfg.protocol == http_protocol
      then and_then (new_http_client cfg) (λ c. inr (some (http c)))
      else inr none

  abbrev pub try_grpc : Config → Option Publisher → Error ⊎ Option Publisher
  try_grpc cfg client =
      if cfg.protocol == grpc_protocol
      then and_then (new_grpc_client cfg) (λ c. inr (some c))
      else inr client

  unfoldable pub client_of : Config → Error ⊎ Option Publisher
  unfolding new_http_client new_grpc_client
  client_of cfg = and_then (try_http cfg) (try_grpc cfg)

  abbrev pub behind_log : Config → Option Error → Error ⊎ (Config × Option Publisher)
  behind_log cfg (some e) = inl e
  behind_log cfg none = and_then (client_of cfg) (λ c. inr (cfg, c))

  -- main up to NewAgent: an error ends the program.
  abbrev pub logged : Zap → Config → Error ⊎ (Config × Option Publisher)
  logged zap cfg = behind_log cfg (initialize zap cfg.log_level zap.new_nop).0

  unfoldable pub start : Zap → Inputs → Error ⊎ (Config × Option Publisher)
  unfolding client_of
  start zap i = and_then (new_config i) (logged zap)

  -- The client of a configuration: it talks the protocol that is asked for, to the configured address
  -- and with the configured key.
  pub data Talks (cfg : Config) : Publisher → Type 0 where
    plain :
        cfg.protocol ≡ http_protocol
        → cfg.crypto_key ≡ ""
        → Talks cfg (http (record { address = cfg.address; key = cfg.key; public_key = none }))
    encrypting :
        (buf : List ℕ)
        → cfg.protocol ≡ http_protocol
        → cfg.crypto_key ≢ ""
        → read cfg.crypto_key ≡ inr buf
        → Talks cfg (http (record { address = cfg.address; key = cfg.key; public_key = some buf }))
    over_grpc : cfg.protocol ≡ grpc_protocol → Talks cfg (grpc cfg.address cfg.key)

  -- A start behind the environment's configuration `c`.
  pub data Starts (c : Config) : Error ⊎ (Config × Option Publisher) → Type 0 where
    fails : (e : Error) → Starts c (inl e)
    starts :
        {cfg : Config} {p : Publisher}
        → cfg.protocol ≡ c.protocol
        → cfg.key ≡ c.key
        → Talks cfg p
        → Starts c (inr (cfg, some p))
