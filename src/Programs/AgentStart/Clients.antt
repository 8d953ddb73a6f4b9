-- ===== src/Programs/AgentStart/Clients.antt =====
-- Which client the agent starts with.
use go_metrics_harvester.Base.{
  ℕ, String, ◌≡◌, ◌≢◌, ◌⊎◌, inl, inr, refl, sym, ◌∙◌, false, Bool-cases, Option, none, some, List,
  ◌==◌, eq_iff, eq-eq_false, arith, Error, wrap, and_then, and_then-eq-inr,
}
use mathlib.Core.Path.{subst}
use go_metrics_harvester.Middleware.Logging.{Zap, initialize}
use go_metrics_harvester.Agent.Config.{
  Config, Inputs, http_protocol, grpc_protocol, flagged, read_file, addressed, new_config,
}
use go_metrics_harvester.Programs.AgentStart.{
  behind_log, Publisher, http, grpc, Talks, plain, encrypting, over_grpc, Starts, fails, starts,
  key_read, new_http_client, new_grpc_client, try_grpc, client_of, logged, start,
}

module _ (read : String → Error ⊎ List ℕ) (dial : String → Option Error) where
  http-ne-grpc : ◌≢◌ {A = String} http_protocol grpc_protocol
  http-ne-grpc p = ground (arith, eq_iff http_protocol grpc_protocol)

  -- The result of client_of that belongs to a configuration.
  data Chosen (cfg : Config) : Error ⊎ Option Publisher → Type 0 where
    refused : (e : Error) → Chosen cfg (inl e)
    talks : {p : Publisher} → Talks read dial cfg p → Chosen cfg (inr (some p))

  keyed-Chosen :
      (cfg : Config) (r : Error ⊎ List ℕ)
      → cfg.protocol ≡ http_protocol
      → cfg.crypto_key ≢ ""
      → read cfg.crypto_key ≡ r
      → Chosen cfg (and_then (key_read read dial cfg r) (λ c. inr (some (http c))))
  keyed-Chosen cfg (inl e) p h q = refused (wrap "open public key filename" e)
  keyed-Chosen cfg (inr buf) p h q = talks (encrypting buf p h q)

  http-Chosen :
      (cfg : Config)
      → cfg.protocol ≡ http_protocol
      → Chosen cfg (and_then (new_http_client read dial cfg) (λ c. inr (some (http c))))
  unfolding new_http_client
  http-Chosen cfg p = elim (Bool-cases (cfg.crypto_key == "")) [
    | inl e ↦ rw (e, new_http_client) (talks (plain p ((eq_iff cfg.crypto_key "").0 e)))
    | inr e ↦
        rw (e, new_http_client)
          (keyed-Chosen cfg (read cfg.crypto_key) p (λ q. cc (e, (eq_iff cfg.crypto_key "").1 q))
            refl)
  ]

  grpc-Chosen :
      (cfg : Config) (o : Option Error)
      → cfg.protocol ≡ grpc_protocol
      → Chosen cfg (
          and_then {B = Option Publisher}
            (elim o [ some e ↦ inl e | none ↦ inr (grpc cfg.address cfg.key) ])
            (λ c. inr (some c)))
  grpc-Chosen cfg (some e) p = refused e
  grpc-Chosen cfg none p = talks (over_grpc p)

  -- Over HTTP the second if does nothing.
  try_grpc-of_other :
      (cfg : Config) (r : Error ⊎ Option Publisher)
      → (cfg.protocol == grpc_protocol) ≡ false
      → and_then r (try_grpc read dial cfg) ≡ r
  try_grpc-of_other cfg (inl e) h = refl
  try_grpc-of_other cfg (inr c) h = rw h refl

  client_of-Chosen :
      (cfg : Config)
      → (cfg.protocol ≡ http_protocol) ⊎ (cfg.protocol ≡ grpc_protocol)
      → Chosen cfg (client_of read dial cfg)
  unfolding client_of new_grpc_client
  client_of-Chosen cfg (inl p) =
      let chosen = (eq_iff cfg.protocol http_protocol).1 p in
      let r = and_then (new_http_client read dial cfg) (λ c. inr (some (http c))) in
      let other = eq-eq_false cfg.protocol grpc_protocol (λ q. http-ne-grpc (sym p ∙ q)) in
      rw (chosen, client_of)
        (subst (Chosen cfg) (sym (try_grpc-of_other cfg r other)) (http-Chosen cfg p))
  client_of-Chosen cfg (inr p) =
      let chosen = (eq_iff cfg.protocol grpc_protocol).1 p in
      let other = eq-eq_false cfg.protocol http_protocol (λ q. http-ne-grpc (sym q ∙ p)) in
      rw (other, chosen, client_of, new_grpc_client) (grpc-Chosen cfg (dial cfg.address) p)

  -- What NewConfig keeps of the configuration behind the environment.
  record Keeps (c cfg : Config) : Type 0 where
    protocol : cfg.protocol ≡ c.protocol
    key : cfg.key ≡ c.key

  read_file-Keeps : (i : Inputs) (c cfg : Config) → read_file i c ≡ inr cfg → Keeps c cfg
  unfolding read_file
  read_file-Keeps i c cfg e = record { protocol = ground arith; key = ground arith }

  addressed-eq-inr :
      (c cfg : Config) (scheme : String)
      → addressed c scheme ≡ inr cfg
      → Keeps c cfg × ((cfg.protocol ≡ http_protocol) ⊎ (cfg.protocol ≡ grpc_protocol))
  unfolding addressed
  addressed-eq-inr c cfg scheme e = (
    record { protocol = ground arith; key = ground arith },
    ground (arith, eq_iff c.protocol http_protocol, eq_iff c.protocol grpc_protocol),
  )

  behind_file :
      (c cfg r : Config) (scheme : String) (i : Inputs)
      → Keeps c r
      → addressed r scheme ≡ inr cfg
      → Keeps c cfg × ((cfg.protocol ≡ http_protocol) ⊎ (cfg.protocol ≡ grpc_protocol))
  behind_file c cfg r scheme i k e =
      let (k', supported) = addressed-eq-inr r cfg scheme e in
      (record { protocol = k'.protocol ∙ k.protocol; key = k'.key ∙ k.key }, supported)

  new_config-eq-inr :
      (i : Inputs) (c cfg : Config)
      → i.env_parse (flagged i) ≡ inr c
      → new_config i ≡ inr cfg
      → Keeps c cfg × ((cfg.protocol ≡ http_protocol) ⊎ (cfg.protocol ≡ grpc_protocol))
  unfolding new_config
  new_config-eq-inr i c cfg e h =
      let h' : and_then (read_file i c) (λ r. and_then (i.scheme r.address) (addressed r))
          ≡ inr cfg =
        rw (e, new_config) at h in
      let (r, read, rest) =
        and_then-eq-inr (λ r. and_then (i.scheme r.address) (addressed r)) (read_file i c) h' in
      let (scheme, _, made) = and_then-eq-inr (addressed r) (i.scheme r.address) rest in
      behind_file c cfg r scheme i (read_file-Keeps i c r read) made

  Chosen-Starts :
      (c cfg : Config) (r : Error ⊎ Option Publisher)
      → Keeps c cfg
      → Chosen cfg r
      → Starts read dial c (and_then r λ p. inr (cfg, p))
  Chosen-Starts c cfg r k (refused e) = fails e
  Chosen-Starts c cfg r k (talks t) = starts k.protocol k.key t

  behind_log-Starts :
      (c cfg : Config) (o : Option Error)
      → Keeps c cfg
      → (cfg.protocol ≡ http_protocol) ⊎ (cfg.protocol ≡ grpc_protocol)
      → Starts read dial c (behind_log read dial cfg o)
  behind_log-Starts c cfg (some e) k supported = fails e
  behind_log-Starts c cfg none k supported =
      Chosen-Starts c cfg (client_of read dial cfg) k (client_of-Chosen cfg supported)

  configured-Starts :
      (zap : Zap) (i : Inputs) (c : Config) (r : Error ⊎ Config)
      → i.env_parse (flagged i) ≡ inr c
      → new_config i ≡ r
      → Starts read dial c (and_then r (logged read dial zap))
  configured-Starts zap i c (inl x) e h = fails x
  configured-Starts zap i c (inr cfg) e h =
      let (k, supported) = new_config-eq-inr i c cfg e h in
      behind_log-Starts c cfg (initialize zap cfg.log_level zap.new_nop).0 k supported

  -- If the environment can be parsed, the start of the agent ends in an error, or it has a client,
  -- never none: for the protocol "http" an HTTP client, which encrypts with the key file's text
  -- exactly where a file is named, for "grpc" a gRPC client, either with the configured address and
  -- key. The protocol and the key are those of the command line and the environment, whatever the
  -- configuration file says.
  pub start-Starts :
      (zap : Zap) (i : Inputs) (c : Config)
      → i.env_parse (flagged i) ≡ inr c
      → Starts read dial c (start read dial zap i)
  unfolding start
  start-Starts zap i c e = configured-Starts zap i c (new_config i) e refl
