-- ===== src/HttpClient/Delivery.antt =====
-- The way of a batch from Publish through the middlewares of the server to its handler.
use go_metrics_harvester.Base.{
  ℕ, String, ◌≡◌, ◌⊎◌, inl, inr, refl, ap, ◌∙◌, true, false, Bool, Bool-cases, none, some, List, [],
  ◌∷◌, ◌==◌, eq_iff, not, if◌then◌else◌,
}
use mathlib.Core.List.{append-nil}
use go_metrics_harvester.Base.Dict.{lookup}
use go_metrics_harvester.Http.{Request, Reply, Handler, Net}
use go_metrics_harvester.Middleware.Hash.{
  Signing, signature, hash_header_key, close, with_hash, with_hash_guards,
}
use go_metrics_harvester.Middleware.Gzip.{
  Gzip, Unpacks, concat, stream, packed, with_gzip, with_gzip_opens,
}
use go_metrics_harvester.Middleware.Logging.{with_logging, log, ResponseData}
use go_metrics_harvester.Middleware.Subnet.{
  Addresses, InSubnet, InSubnet-is_trusted, with_trusted_subnets,
}
use go_metrics_harvester.HttpClient.{Message, compress}

-- Header.Get on what is sent.
abbrev pub header_of : Message → String → String
header_of m name = elim (lookup name m.headers) [ none ↦ "" | some v ↦ v ]

-- A request that arrives with the body and with the headers that the middlewares read.
pub record Delivers (m : Message) (req : Request) : Type 0 where
  pub same_body : req.body ≡ inr m.body
  pub accepts : req.header "Accept-Encoding" ≡ header_of m "Accept-Encoding"
  pub content : req.header "Content-Encoding" ≡ header_of m "Content-Encoding"
  pub sender : req.header "X-Real-IP" ≡ header_of m "X-Real-IP"
  pub sign : req.header hash_header_key ≡ header_of m hash_header_key

-- Two replies that leave the same state, both or neither in a panic.
pub record SameEffect {S : Type 0} (x y : Reply S) : Type 0 where
  pub states : x.state ≡ y.state
  pub panics : x.panicked ≡ y.panicked

pub same : {S : Type 0} {x y : Reply S} → x ≡ y → SameEffect x y
same e = record { states = ap (λ r. r.state) e; panics = ap (λ r. r.panicked) e }

pub then' : {S : Type 0} {x y z : Reply S} → SameEffect x y → SameEffect y z → SameEffect x z
then' p q = record { states = p.states ∙ q.states; panics = p.panics ∙ q.panics }

module _ (net : Net) (g : Signing) where
  pub with_hash_passes :
      {S : Type 0} (key : String) (h : Handler S) (req : Request) (s : S) (body : List ℕ)
      → req.body ≡ inr body
      → req.header hash_header_key ≡ (if not (key == "") then signature net g key body else "")
      → SameEffect (with_hash net g key h req s) (h req s)
  unfolding with_hash close
  with_hash_passes key h req s body b e = elim (Bool-cases (key == "")) [
    | inl off ↦ same (rw (off, with_hash) refl)
    | inr on ↦ elim (with_hash_guards net g key h req s (λ p. cc (on, (eq_iff _ _).1 p))) [
      | inl (_, passed) ↦ then' (same passed) (record { states = refl; panics = refl })
      | inr (_, unsigned, _) ↦
          absurd (unsigned (record { body = body; readable = b; signed = rw on at e }))
    ]
  ]

log_passes : {S : Type 0} (b : Bool) (d : ResponseData) (r : Reply S) → SameEffect (log b d r) r
log_passes true d r = record { states = refl; panics = refl }
log_passes false d r = record { states = refl; panics = refl }

pub with_logging_passes :
    {S : Type 0} (h : Handler S) (req : Request) (s : S)
    → SameEffect (with_logging h req s) (h req s)
unfolding with_logging
with_logging_passes h req s = log_passes (h req s).panicked _ (h req s)

pub with_trusted_subnets_passes :
    {S : Type 0} (a : Addresses) (net : Net) (subnet : String) (h : Handler S) (req : Request)
    (s : S)
    → (subnet ≡ "") ⊎ InSubnet a subnet (req.header "X-Real-IP")
    → with_trusted_subnets a net subnet h req s ≡ h req s
unfolding with_trusted_subnets
with_trusted_subnets_passes a net subnet h req s (inl off) = rw ((eq_iff subnet "").1 off) refl
with_trusted_subnets_passes a net subnet h req s (inr i) = elim (Bool-cases (subnet == "")) [
  | inl off ↦ rw off refl
  | inr on ↦ rw (on, InSubnet-is_trusted a subnet (req.header "X-Real-IP") i) refl
]

pub compress_opens :
    {S : Type 0} (gz : Gzip) (h : Handler S) (req : Request) (s : S) (buf : List ℕ)
    → Unpacks gz
    → gz.contains (req.header "Content-Encoding") "gzip" ≡ true
    → req.body ≡ inr (compress gz buf)
    → SameEffect (with_gzip gz h req s) (h (record req { body = inr buf }) s)
unfolding compress stream concat
compress_opens gz h req s buf u zipped e =
    let packs = gz.contains (req.header "Accept-Encoding") "gzip" in
    let opened = with_gzip_opens gz h req s (buf ∷ []) u zipped e in
    let plain = ap (λ b. packed gz packs h (record req { body = inr b }) s) (append-nil buf) in
    then' (same (opened ∙ plain)) (elim (Bool-cases packs) [
      | inl p ↦
          then' (same (ap (λ b. packed gz b h (record req { body = inr buf }) s) p))
            (record { states = refl; panics = refl })
      | inr p ↦ same (ap (λ b. packed gz b h (record req { body = inr buf }) s) p)
    ])
