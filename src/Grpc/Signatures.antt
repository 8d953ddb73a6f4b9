-- ===== src/Grpc/Signatures.antt =====
-- What becomes of the batches that the gRPC client publishes.
use go_metrics_harvester.Base.{
  ℕ, ◌+◌, Bool, true, false, ◌&&◌, Bool-cases, arith, String, ◌≡◌, ◌≢◌, ◌⊎◌, inl, inr, refl, ap,
  ◌∙◌, Option, none, some, List, [], ◌∷◌, ◌++◌, map, eq-eq_false, Error, other, wrap, ok, err, All,
}
use go_metrics_harvester.Metric.{Metric}
use go_metrics_harvester.Service.{Repository}
use go_metrics_harvester.Retry.Attempts.{do_fn_first, do_fn_fails}
use go_metrics_harvester.Http.{Net}
use go_metrics_harvester.Middleware.Hash
use go_metrics_harvester.Middleware.Hash.{Signing, signature}
use go_metrics_harvester.Middleware.Subnet
use go_metrics_harvester.Middleware.Subnet.{Addresses}
use go_metrics_harvester.Grpc
use go_metrics_harvester.Service.Rules.{IsAccepted, update-of_accepted}
use go_metrics_harvester.Grpc.{
  ContractMetric, to_contract, from_contract, Response, responded, failed, crashed, call_update,
  Channel, attempt, signed, sleeping, tried, publish,
}

-- The error of a call by what was answered.
abbrev pub error_of : {A : Type 0} → Response A → Option Error
error_of (responded _) = none
error_of (failed _ _) = some (other "status")
error_of crashed = some (other "status")

-- The world of the client: the state of the server's repository, the calls of the generated Update so
-- far, and the seconds slept.
pub record World (S : Type 0) : Type 0 where
  pub state : S
  pub invoked : ℕ
  pub slept : ℕ

abbrev pub answered : {A S : Type 0} → World S → Response A × S → Option Error × World S
answered w (r, s) = (error_of r, record w { state = s; invoked = w.invoked + 1 })

-- A call that the library refuses before it sends anything.
abbrev pub refused : {S : Type 0} → World S → Error → Option Error × World S
refused w e = (some e, record w { invoked = w.invoked + 1 })

-- Whether all values of the metadata are ones that the library sends.
abbrev pub passes : (String → Bool) → List String → Bool
passes printable [] = true
passes printable (sign ∷ signs) = printable sign && passes printable signs

abbrev pub marshalled : Error ⊎ List ℕ → Option (List ℕ)
marshalled (inl e) = none
marshalled (inr b) = some b

module _ {F W : Type 0} (net : Net) (g : Signing) (a : Addresses) (storage : Repository F W)
    (ch : Channel F (World storage.State)) (key subnet : String) where
  -- The client's calls arrive at a server with the same key, whose repository is all that they
  -- change; the client names no address. A call whose metadata has a value that is not printable is
  -- refused at the client.
  pub record IsServed : Type 0 where
    pub printable : String → Bool
    pub refusal : Error
    pub serves :
        (signs : List String) (req : List (ContractMetric F)) (w : World storage.State)
        → passes printable signs ≡ true
        → ch.invoke signs req w
          ≡ answered w (
              call_update storage net g a
                (λ r. marshalled (ch.marshal r))
                key
                subnet
                signs
                []
                req
                w.state)
    pub refuses :
        (signs : List String) (req : List (ContractMetric F)) (w : World storage.State)
        → passes printable signs ≡ false
        → ch.invoke signs req w ≡ refused w refusal
    pub sleeps : (n : ℕ) (w : World storage.State) → ch.sleep n w ≡ record w { slept = w.slept + n }

  invoke_refused :
      (req : List (ContractMetric F)) (w : World storage.State) (buf : List ℕ) (sign : String)
      (rest : List String)
      → IsServed
      → key ≢ ""
      → ch.marshal req ≡ inr buf
      → sign ≢ signature net g key buf
      → (e : Error) × (ch.invoke (sign ∷ rest) req w ≡ refused w e)
  unfolding call_update Hash.unary_server_interceptor
  invoke_refused req w buf sign rest served on made differs =
      elim (Bool-cases (passes served.printable (sign ∷ rest))) [
        | inl sendable ↦ (
          other "status",
          served.serves (sign ∷ rest) req w sendable
              ∙ rw (made, eq-eq_false key "" on, eq-eq_false sign (signature net g key buf) differs)
                  refl,
        )
        | inr not_sendable ↦ (served.refusal, served.refuses (sign ∷ rest) req w not_sendable)
      ]

  attempt_refused :
      (m : List (Metric F)) (w : World storage.State) (buf : List ℕ) (signs rest : List String)
      → IsServed
      → key ≢ ""
      → ch.marshal (map to_contract m) ≡ inr buf
      → ch.raw (g.hmac (net.bytes key) buf) ≢ signature net g key buf
      → signs ++ ch.raw (g.hmac (net.bytes key) buf) ∷ []
        ≡ ch.raw (g.hmac (net.bytes key) buf) ∷ rest
      → (e : Error) × (attempt net g ch key
            (some (g.hmac (net.bytes key) buf))
            (map to_contract m)
            (signs, w)
          ≡ (
            some (wrap "send request" e),
            (ch.raw (g.hmac (net.bytes key) buf) ∷ rest, record w { invoked = w.invoked + 1 }),
          ))
  unfolding attempt
  attempt_refused m w buf signs rest served on made differs e =
      let (cause, call) =
        invoke_refused (map to_contract m) w buf (ch.raw (g.hmac (net.bytes key) buf)) rest served
          on made differs in
      (cause, rw (e, call) refl)

  -- With a key no batch arrives: the client sends the bytes of the signature as text where the server
  -- expects them in base64. So if a batch can be marshalled and the two texts of its signature
  -- differ, Publish ends with an error, behind three calls of the generated Update and nine seconds
  -- of sleep, and leaves the repository as it was: the server refuses a text that can be sent, and the
  -- library one that is not printable.
  pub publish_refused :
      (m : List (Metric F)) (w : World storage.State) (buf : List ℕ)
      → IsServed
      → key ≢ ""
      → ch.marshal (map to_contract m) ≡ inr buf
      → ch.raw (g.hmac (net.bytes key) buf) ≢ signature net g key buf
      → (e : Error) × (publish net g ch key m w ≡ (
        err (wrap "error while publish" (wrap "send request" e)),
        record w { invoked = w.invoked + 3; slept = w.slept + 9 },
      ))
  unfolding publish
  publish_refused m w buf served on made differs =
      let raw = ch.raw (g.hmac (net.bytes key) buf) in
      let step =
        λ (v : World storage.State) (signs rest : List String) (e : signs ++ raw ∷ [] ≡ raw ∷ rest).
          attempt_refused m v buf signs rest served on made differs e in
      let fn = attempt net g ch key (some (g.hmac (net.bytes key) buf)) (map to_contract m) in
      let again = λ (n : ℕ) (signs : List String) (v : World storage.State).
        ap {B = List String × World storage.State} (λ u. (signs, u)) (served.sleeps n v) in
      let w₁ = record w { invoked = w.invoked + 1 } in
      let v₁ = record w₁ { slept = w.slept + 1 } in
      let w₂ = record v₁ { invoked = w.invoked + 1 + 1 } in
      let v₂ = record w₂ { slept = w.slept + 1 + 3 } in
      let w₃ = record v₂ { invoked = w.invoked + 1 + 1 + 1 } in
      let (e₁, first) = step w [] [] refl in
      let (e₂, second) = step v₁ (raw ∷ []) (raw ∷ []) refl in
      let (e₃, third) = step v₂ (raw ∷ raw ∷ []) (raw ∷ raw ∷ []) refl in
      let calls : w.invoked + 1 + 1 + 1 ≡ w.invoked + 3 = omega arith in
      let sleep : w.slept + 1 + 3 + 5 ≡ w.slept + 9 = omega arith in
      let last : ch.sleep 5 w₃ ≡ record w { invoked = w.invoked + 3; slept = w.slept + 9 } =
        served.sleeps 5 w₃
        ∙ ap (λ k. record w { invoked = k; slept = w.slept + 1 + 3 + 5 }) calls
        ∙ ap (λ k. record w { invoked = w.invoked + 3; slept = k }) sleep in
      (
        e₃,
        rw (eq-eq_false key "" on, made, publish)
            (ap (tried net g ch key) (
              do_fn_fails fn (sleeping net g ch key) ([], w) _ _ _ _ _ _ first
                (ap fn (again 1 (raw ∷ []) w₁) ∙ second)
                (ap fn (again 3 (raw ∷ raw ∷ []) w₂) ∙ third)
              ∙ ap {B = Option Error × (List String × World storage.State)}
                  (λ u. (some (wrap "send request" e₃), (raw ∷ raw ∷ raw ∷ [], u))) last)),
      )

from_contract-to_contract :
    {F : Type 0} (m : List (Metric F)) → map from_contract (map to_contract m) ≡ m
from_contract-to_contract [] = refl
from_contract-to_contract (x ∷ m) = ap (λ l. x ∷ l) (from_contract-to_contract m)

module _ {F W : Type 0} (net : Net) (g : Signing) (a : Addresses) (storage : Repository F W)
    (ch : Channel F (World storage.State)) (subnet : String) where
  invoke_updates :
      (m : List (Metric F)) (w : World storage.State)
      → IsServed net g a storage ch "" subnet
      → All IsAccepted m
      → (storage.update m w.state).0 ≡ ok tt
      → ch.invoke [] (map to_contract m) w
        ≡ (none, record w { state = (storage.update m w.state).1; invoked = w.invoked + 1 })
  unfolding call_update Hash.unary_server_interceptor Subnet.unary_server_interceptor Grpc.update
  invoke_updates m w served fine e =
      served.serves [] (map to_contract m) w refl
      ∙ rw (from_contract-to_contract m, update-of_accepted storage m w.state fine, e) refl

  -- Without a key a batch of metrics that the rules accept is stored by the repository's Update, from
  -- whatever address, since the client names none: if Update succeeds, it is called once, and Publish
  -- returns no error, at the first call of the generated Update and without a sleep.
  pub publish_unsigned :
      (m : List (Metric F)) (w : World storage.State)
      → IsServed net g a storage ch "" subnet
      → All IsAccepted m
      → (storage.update m w.state).0 ≡ ok tt
      → publish net g ch "" m w
        ≡ (ok tt, record w { state = (storage.update m w.state).1; invoked = w.invoked + 1 })
  unfolding publish attempt
  publish_unsigned m w served fine e =
      let once = record w { state = (storage.update m w.state).1; invoked = w.invoked + 1 } in
      let first : attempt net g ch "" none (map to_contract m) ([], w) ≡ (none, ([], once)) =
        rw (invoke_updates m w served fine e, attempt) refl in
      ap (tried net g ch "") (do_fn_first _ _ ([], w) _ first)
