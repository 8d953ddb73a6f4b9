-- ===== src/Grpc.antt =====
-- internal/grpc/metrics/metrics.go and errors.go, with the interceptors that internal/grpc/grpc.go
-- puts before them, and Publish of internal/grpclient/grpclient.go.
pub mod Signatures
pub mod Logging
use go_metrics_harvester.Base.{
  ℕ, String, ◌⊎◌, inl, inr, Option, none, some, List, [], ◌∷◌, ◌++◌, ◌==◌, not, map, if◌then◌else◌,
  Error, other, wrap, Outcome, ok, err, panic,
}
use go_metrics_harvester.Metric.{Metric}
use go_metrics_harvester.Service
use go_metrics_harvester.Service.{Repository}
use go_metrics_harvester.Retry.{do_fn}
use go_metrics_harvester.Http.{Net}
use go_metrics_harvester.Middleware.Hash
use go_metrics_harvester.Middleware.Hash.{Signing}
use go_metrics_harvester.Middleware.Subnet
use go_metrics_harvester.Middleware.Subnet.{Addresses}

-- A metric of the generated contract, whose fields the code copies one by one.
pub record ContractMetric (F : Type 0) : Type 0 where
  pub id : String
  pub m_type : String
  pub delta : Option ℕ
  pub value : Option F

-- The status codes that the server's code names.
pub data Code : Type 0 where
  internal invalid_argument permission_denied : Code

-- What a call answers: a response, a status, or none since the method panicked. The reason of a
-- status is the error that it was made of, if it was made of one.
pub data Response (A : Type 0) : Type 0 where
  responded : A → Response A
  failed : Code → Option Error → Response A
  crashed : Response A

-- internalError and argumentError, whose details can be attached.
abbrev pub respond : {A B : Type 0} → Code → (A → B) → Outcome A → Response B
respond code f (ok a) = responded (f a)
respond code f (err e) = failed code (some e)
respond code f panic = crashed

module _ {F : Type 0} where
  abbrev pub to_contract : Metric F → ContractMetric F
  to_contract v = record { id = v.id; m_type = v.mtype; delta = v.delta; value = v.value }

  abbrev pub from_contract : ContractMetric F → Metric F
  from_contract v = record { id = v.id; mtype = v.m_type; delta = v.delta; value = v.value }

  module _ {W : Type 0} (storage : Repository F W) where
    unfoldable pub list : storage.State → Response (List (ContractMetric F)) × storage.State
    list s = let (r, s') = Service.list storage s in (respond internal (map to_contract) r, s')

    unfoldable pub update :
        List (ContractMetric F) → storage.State → Response (Unit {0}) × storage.State
    update req s =
        let (r, s') = Service.update storage (map from_contract req) s in
        (respond internal (λ _. tt) r, s')

    unfoldable pub value :
        String → String → storage.State → Response (ContractMetric F) × storage.State
    value id kind s =
        let (r, s') = Service.get storage id kind s in (respond invalid_argument to_contract r, s')

    -- The method Update behind the two interceptors of NewGrpc: `signs` and `senders` are what the
    -- metadata holds under the names of the signature and of the address.
    unfoldable pub call_update :
        Net
        → Signing
        → Addresses
        → (List (ContractMetric F) → Option (List ℕ))
        → String
        → String
        → List String
        → List String
        → List (ContractMetric F)
        → storage.State
        → Response (Unit {0}) × storage.State
    unfolding update
    call_update net g a marshal key subnet signs senders req =
        Hash.unary_server_interceptor net g key signs (marshal req)
          (λ s. (failed invalid_argument none, s)) (λ s. (failed invalid_argument none, s))
          (Subnet.unary_server_interceptor a subnet senders
            (λ s. (failed permission_denied none, s)) (update req))

-- What the client takes from its libraries: `invoke` is the generated Update with the metadata that
-- the context holds for the signature, `raw` the conversion of bytes to a string, `marshal`
-- proto.Marshal.
pub record Channel (F W : Type 0) : Type 0 where
  pub invoke : List String → List (ContractMetric F) → W → Option Error × W
  pub raw : List ℕ → String
  pub marshal : List (ContractMetric F) → Error ⊎ List ℕ
  pub sleep : ℕ → W → W

module _ {F W : Type 0} (net : Net) (g : Signing) (ch : Channel F W) (key : String) where
  -- The context's metadata grows by one value at each attempt.
  abbrev pub signed : Option (List ℕ) → List String → List String
  signed none signs = signs
  signed (some sign) signs = signs ++ ch.raw sign ∷ []

  abbrev sent : Option Error → Option Error
  sent none = none
  sent (some e) = some (wrap "send request" e)

  unfoldable pub attempt :
      Option (List ℕ) → List (ContractMetric F) → List String × W → Option Error × (List String × W)
  attempt sign req (signs, w) =
      let signs' = signed sign signs in
      let (r, w') = ch.invoke signs' req w in (sent r, (signs', w'))

  abbrev pub sleeping : ℕ → List String × W → List String × W
  sleeping n (signs, w) = (signs, ch.sleep n w)

  abbrev pub tried : Option Error × (List String × W) → Outcome (Unit {0}) × W
  tried (none, (_, w)) = (ok tt, w)
  tried (some e, (_, w)) = (err (wrap "error while publish" e), w)

  abbrev pub repeat : Option (List ℕ) → List (ContractMetric F) → W → Outcome (Unit {0}) × W
  repeat sign req w = tried (do_fn (attempt sign req) sleeping ([], w))

  unfoldable pub publish : List (Metric F) → W → Outcome (Unit {0}) × W
  unfolding attempt
  publish m w =
      let req = map to_contract m in
      if not (key == "")
      then elim (ch.marshal req) [
        | inl e ↦ (err (wrap "marshal message" e), w)
        | inr buf ↦ repeat (some (g.hmac (net.bytes key) buf)) req w
      ]
      else repeat none req w
