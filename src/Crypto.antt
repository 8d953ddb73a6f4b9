-- ===== src/Crypto.antt =====
-- internal/crypto/crypto.go: a message in blocks, encrypted and decrypted block by block.
pub mod Loop
pub mod RoundTrip
pub mod Certificate
use go_metrics_harvester.Base.{
  ℕ, zero, suc, ◌+◌, ◌-◌, ◌*◌, true, false, ◌&&◌, Option, none, some, List, [], ◌++◌, ltb, leb,
  if◌then◌else◌, length, take, drop, Outcome, ok, err, panic, Action,
}

-- What the program takes from crypto/rsa, with the hash function fixed. `Random` is the state of the source of randomness.
pub record Rsa : Type 1 where
  pub PublicKey : Type 0
  pub PrivateKey : Type 0
  pub Random : Type 0
  pub hash_size : ℕ
  pub size : PublicKey → ℕ
  pub public_key : PrivateKey → PublicKey
  pub encrypt_oaep : PublicKey → List ℕ → List ℕ → Action Random (List ℕ)
  pub decrypt_oaep : PrivateKey → List ℕ → List ℕ → Outcome (List ℕ)

-- msg[start:finish]
abbrev pub slice : List ℕ → ℕ → ℕ → List ℕ
slice msg start finish = take (finish - start) (drop start msg)

-- A call on a block that fails ends the loop.
abbrev pub after :
    {R : Type 0}
    → (List ℕ → R → Option (Outcome (List ℕ) × R))
    → Outcome (List ℕ) × R
    → Option (Outcome (List ℕ) × R)
after next (ok b, r) = next b r
after next (err e, r) = some (err e, r)
after next (panic, r) = some (panic, r)

-- The loop that both functions are: `block` is the call on one block, `acc` the bytes so far. It
-- runs out of fuel with `none`.
module _ {R : Type 0} (block : List ℕ → Action R (List ℕ)) (step : ℕ) (msg : List ℕ) where
  unfoldable pub loop : ℕ → ℕ → List ℕ → R → Option (Outcome (List ℕ) × R)
  loop zero start acc r = none
  loop (suc fuel) start acc r = elim (ltb start (length msg)) [
    | true ↦
        let finish : ℕ = if ltb (length msg) (start + step) then length msg else start + step in
        after (λ b r'. loop fuel (start + step) (acc ++ b) r') (block (slice msg start finish) r)
    | false ↦ some (ok acc, r)
  ]

module _ (rsa : Rsa) where
  open rsa use {PublicKey, PrivateKey, Random}

  -- EncryptOAEP. A step below zero makes the first slice panic, where there is one.
  unfoldable pub encrypt :
      ℕ → PublicKey → List ℕ → List ℕ → Random → Option (Outcome (List ℕ) × Random)
  unfolding loop
  encrypt fuel public msg label r =
      if ltb (rsa.size public) (2 * rsa.hash_size + 2) && ltb 0 (length msg)
      then some (panic, r)
      else loop (λ b. rsa.encrypt_oaep public b label) (rsa.size public - 2 * rsa.hash_size - 2) msg
          fuel 0 [] r

  -- DecryptOAEP.
  unfoldable pub decrypt : ℕ → PrivateKey → List ℕ → List ℕ → Option (Outcome (List ℕ) × Unit {0})
  unfolding loop
  decrypt fuel private msg label =
      loop (λ b _. (rsa.decrypt_oaep private b label, tt)) (rsa.size (rsa.public_key private)) msg
        fuel 0 [] tt
