-- ===== src/Middleware/Decrypt.antt =====
-- WithDecrypt of internal/crypto/crypto.go.
use go_metrics_harvester.Base.{
  ℕ, suc, String, ◌≡◌, ◌⊎◌, inl, inr, ap, ◌∙◌, Option, none, some, List, [], length, Outcome, ok,
  err, panic, Error,
}
use go_metrics_harvester.Http.{Request, Reply, Handler, Middleware, Net, Body, refuse, crash}
use go_metrics_harvester.Crypto.{Rsa, decrypt}

-- What the program takes from encoding/pem and crypto/x509, and Error().
pub record Pem (rsa : Rsa) : Type 0 where
  pub decode : List ℕ → Option (List ℕ)
  pub parse_private_key : List ℕ → Error ⊎ rsa.PrivateKey
  pub message : Error → String

module _ (net : Net) (rsa : Rsa) (pem : Pem rsa) where
  abbrev answered :
      {S : Type 0} → Handler S → Request → S → Option (Outcome (List ℕ) × Unit {0}) → Reply S
  answered h req s (some (ok plain, _)) = h (record req { body = inr plain }) s
  answered h req s (some (err e, _)) = refuse net (pem.message e) 403 s
  answered h req s (some (panic, _)) = crash s
  answered h req s none = crash s

  abbrev with_key :
      {S : Type 0} → Handler S → Request → S → List ℕ → Error ⊎ rsa.PrivateKey → Reply S
  with_key h req s body (inl e) = refuse net (pem.message e) 400 s
  with_key h req s body (inr private) =
      answered h req s (decrypt rsa (suc (length body)) private body [])

  -- A key that is no PEM text has no block, and the handler reads through nil.
  abbrev with_block : {S : Type 0} → Handler S → Request → S → List ℕ → Option (List ℕ) → Reply S
  with_block h req s body none = crash s
  with_block h req s body (some block) = with_key h req s body (pem.parse_private_key block)

  abbrev with_body : {S : Type 0} → List ℕ → Handler S → Request → S → Body → Reply S
  with_body key h req s (inl e) = refuse net "can't read body" 400 s
  with_body key h req s (inr body) = with_block h req s body (pem.decode key)

  unfoldable pub with_decrypt : {S : Type 0} → Option (List ℕ) → Middleware S
  with_decrypt none h req s = h req s
  with_decrypt (some key) h req s = with_body key h req s req.body

  -- A body that decrypts under the configured key reaches the handler decrypted.
  pub with_decrypt_opens :
      {S : Type 0} (h : Handler S) (req : Request) (s : S) (key block body plain : List ℕ)
      (private : rsa.PrivateKey)
      → pem.decode key ≡ some block
      → pem.parse_private_key block ≡ inr private
      → req.body ≡ inr body
      → decrypt rsa (suc (length body)) private body [] ≡ some (ok plain, tt)
      → with_decrypt (some key) h req s ≡ h (record req { body = inr plain }) s
  unfolding with_decrypt
  with_decrypt_opens h req s key block body plain private k b e d =
      ap (with_body key h req s) e
      ∙ ap (with_block h req s body) k
      ∙ ap (with_key h req s body) b
      ∙ ap (answered h req s) d
