-- ===== src/Middleware/Hash.antt =====
-- internal/hash/hash.go: the signature of a body under a shared key. Both functions of the file: the
-- middleware and the interceptor of the gRPC server.
use go_metrics_harvester.Base.{
  ℕ, String, ◌≡◌, ◌≢◌, ◌⊎◌, inl, inr, refl, sym, ap, ◌∙◌, false, Bool-cases, Option, none, some,
  List, [], ◌∷◌, ◌++◌, ◌==◌, eq_iff, eq-eq_false, if◌then◌else◌, not, Error,
}
use go_metrics_harvester.Http.{
  set_header, Request, Reply, Handler, Middleware, Net, Body, refuse, written,
}

abbrev pub hash_header_key : String
hash_header_key = "HashSHA256"

-- What the program takes from crypto/hmac with SHA-256, which is Hash, and from encoding/base64.
pub record Signing : Type 0 where
  pub hmac : List ℕ → List ℕ → List ℕ
  pub base64 : List ℕ → String

inl-ne-inr : {e : Error} {b : List ℕ} → ◌≢◌ {A = Body} (inl e) (inr b)
inl-ne-inr p = cc p

module _ (net : Net) (g : Signing) where
  abbrev pub signature : String → List ℕ → String
  signature key body = g.base64 (g.hmac (net.bytes key) body)

  -- The deferred Close: `hashed` is what went through the hashing writer.
  unfoldable pub close : {S : Type 0} → String → List ℕ → Reply S → Reply S
  close key hashed reply = record reply {
    calls = reply.calls ++ set_header hash_header_key (signature key hashed) ∷ [];
  }

  -- The handler on the hashing writer, which passes every call on.
  abbrev pub serve : {S : Type 0} → String → Handler S → Handler S
  serve key h req s = let reply = h req s in close key (written reply.calls) reply

  -- Where the request has a signature: a body that cannot be read, and then the comparison. What
  -- is refused is written past the hashing writer.
  abbrev checked : {S : Type 0} → String → Handler S → Request → S → Body → Reply S
  checked key h req s (inl e) = close key [] (refuse net "can't read body" 400 s)
  checked key h req s (inr body) =
      if not (req.header hash_header_key == signature key body)
      then close key [] (refuse net "wrong signature" 400 s)
      else serve key h (record req { body = inr body }) s

  unfoldable pub with_hash : {S : Type 0} → String → Middleware S
  with_hash key h req s =
      if not (key == "")
      then if not (req.header hash_header_key == "")
        then checked key h req s req.body
        else serve key h req s
      else h req s

  -- UnaryServerInterceptor: `values` is what the metadata holds under the header's name, `marshal`
  -- what proto.Marshal makes of the message.
  unfoldable pub unary_server_interceptor :
      {R : Type 0} → String → List String → Option (List ℕ) → R → R → R → R
  unary_server_interceptor key [] marshal unsupported wrong handler = handler
  unary_server_interceptor key (sign ∷ _) none unsupported wrong handler =
      if not (key == "") then unsupported else handler
  unary_server_interceptor key (sign ∷ _) (some body) unsupported wrong handler =
      if not (key == "")
      then if not (sign == signature key body) then wrong else handler
      else handler

  -- The request's signature is the one of the body that comes with it.
  pub record IsSigned (key : String) (req : Request) : Type 0 where
    pub body : List ℕ
    pub readable : req.body ≡ inr body
    pub signed : req.header hash_header_key ≡ signature key body

  differ_from_IsSigned :
      (key : String) (req : Request) (body : List ℕ)
      → req.body ≡ inr body
      → (req.header hash_header_key == signature key body) ≡ false
      → ¬ IsSigned key req
  differ_from_IsSigned key req body p differs sg =
      let same : body ≡ sg.body = cc (p, sg.readable) in
      cc (differs, (eq_iff _ _).1 (sg.signed ∙ ap (signature key) (sym same)))

  checked_of_body :
      {S : Type 0} (key : String) (h : Handler S) (req : Request) (s : S) (b : Body)
      → req.body ≡ b
      → (IsSigned key req × (checked key h req s b ≡ serve key h req s))
        ⊎ ((¬ IsSigned key req)
            × ((msg : String) × (checked key h req s b ≡ close key [] (refuse net msg 400 s))))
  checked_of_body key h req s (inl e) p =
      inr (λ sg. inl-ne-inr (sym p ∙ sg.readable), ("can't read body", refl))
  checked_of_body key h req s (inr body) p =
      elim (Bool-cases (req.header hash_header_key == signature key body)) [
        | inl same ↦ inl (
          record { body = body; readable = p; signed = (eq_iff _ _).0 same },
          rw same (ap (λ (d : Body). serve key h (record req { body = d }) s) (sym p)),
        )
        | inr differs ↦ inr (
          λ sg. differ_from_IsSigned key req body p differs sg,
          ("wrong signature", rw differs refl),
        )
      ]

  -- With a key, a request that carries a signature reaches the handler exactly if the signature is
  -- that of its body, and is otherwise answered with 400 and leaves the state alone. A request that
  -- carries none reaches the handler unchecked. The reply's own signature, over what the handler
  -- wrote, or over nothing where it was not reached, is set behind all calls of the reply.
  pub with_hash_guards :
      {S : Type 0} (key : String) (h : Handler S) (req : Request) (s : S)
      → key ≢ ""
      → (((req.header hash_header_key ≡ "") ⊎ IsSigned key req)
          × (with_hash key h req s ≡ close key (written (h req s).calls) (h req s)))
        ⊎ ((req.header hash_header_key ≢ "")
            × (¬ IsSigned key req)
            × ((msg : String) × (with_hash key h req s ≡ close key [] (refuse net msg 400 s))))
  unfolding with_hash
  with_hash_guards key h req s ne =
      let on = eq-eq_false key "" ne in
      elim (Bool-cases (req.header hash_header_key == "")) [
        | inl bare ↦ inl (inl ((eq_iff _ _).0 bare), rw (on, bare) refl)
        | inr signed ↦
            let there : req.header hash_header_key ≢ "" = λ p. cc (signed, (eq_iff _ _).1 p) in
            elim (checked_of_body key h req s req.body refl) [
              | inl (fine, same) ↦ inl (inr fine, rw (on, signed) same)
              | inr (bad, (msg, same)) ↦ inr (there, bad, (msg, rw (on, signed) same))
            ]
      ]
