-- ===== src/Crypto/RoundTrip.antt =====
-- internal/crypto/crypto.go: EncryptOAEP, and then DecryptOAEP on what it made.
use go_metrics_harvester.Base.{
  ℕ, zero, suc, ◌+◌, ◌-◌, ◌*◌, ◌<◌, ◌≡◌, ◌≢◌, refl, sym, ap, ◌∙◌, Option, none, some, List, [], ◌∷◌,
  ◌++◌, ltb-eq_false, length, length-append, take, drop, take-append, drop-append, take-append-drop,
  Outcome, ok, err, panic, Action, arith,
}
use mathlib.Core.Path.{ap₂}
use mathlib.Core.List.{append-nil, append_assoc}
use go_metrics_harvester.Crypto.{Rsa, after, encrypt, decrypt}
use go_metrics_harvester.Crypto.Loop.{pass, pass_more, pass_ends, loop-eq-pass}

after-eq-ok :
    {R : Type 0} (next : List ℕ → R → Option (Outcome (List ℕ) × R)) (p : Outcome (List ℕ) × R)
    {c : List ℕ} {r' : R}
    → after next p ≡ some (ok c, r')
    → (b : List ℕ) × (r : R) × (p ≡ (ok b, r)) × (next b r ≡ some (ok c, r'))
after-eq-ok next (ok b, r) e = (b, r, refl, e)
after-eq-ok next (err x, r) e = cc e
after-eq-ok next (panic, r) e = cc e

-- Two passes of which the second undoes the first block by block, over blocks of `k` bytes.
module _ {R : Type 0} (e : List ℕ → Action R (List ℕ)) (d : List ℕ → Action (Unit {0}) (List ℕ))
    (p k : ℕ) (k_pos : 0 < k)
    (undoes : (m c : List ℕ) (r r' : R)
      → e m r ≡ (ok c, r')
      → (length c ≡ k) × (d c tt ≡ (ok m, tt))) where
  second_step :
      (f : ℕ) (b c out m : List ℕ)
      → length b ≡ k
      → d b tt ≡ (ok m, tt)
      → pass d k (suc f) (b ++ c) out tt ≡ pass d k f c (out ++ m) tt
  second_step f b c out m h u =
      let nonempty : 0 < length (b ++ c) = omega (arith, length-append b c) in
      pass_more d k f (b ++ c) out tt nonempty
      ∙ ap
          (λ n.
            after (λ m' r'. pass d k f (drop n (b ++ c)) (out ++ m') r') (d (take n (b ++ c)) tt))
          (sym h)
      ∙ ap₂ (λ l l'. after (λ m' r'. pass d k f l (out ++ m') r') (d l' tt)) (drop-append b c)
          (take-append b c)
      ∙ ap (after (λ m' r'. pass d k f c (out ++ m') r')) u

  second_end : (f : ℕ) (out : List ℕ) → 0 < f → pass d k f [] out tt ≡ some (ok (out ++ []), tt)
  unfolding pass
  second_end zero out h = elim h [ ]
  second_end (suc f) out h = ap (λ l. some (ok l, tt)) (sym (append-nil out))

  second_more :
      (f : ℕ) (b c out m rest : List ℕ)
      → length b ≡ k
      → d b tt ≡ (ok m, tt)
      → ((f' : ℕ) (out' : List ℕ)
          → length c < f'
          → pass d k f' c out' tt ≡ some (ok (out' ++ rest), tt))
      → length (b ++ c) < f
      → pass d k f (b ++ c) out tt ≡ some (ok (out ++ (m ++ rest)), tt)
  second_more zero b c out m rest h u tail lt = elim lt [ ]
  second_more (suc f) b c out m rest h u tail lt =
      second_step f b c out m h u
      ∙ tail f (out ++ m) (omega (arith, length-append b c))
      ∙ ap (λ l. some (ok l, tt)) (append_assoc out m rest)

  pub pass_inverts :
      (fuel : ℕ) (rest acc : List ℕ) (r r' : R) (c : List ℕ)
      → pass e p fuel rest acc r ≡ some (ok c, r')
      → (c' : List ℕ) × (c ≡ acc ++ c')
        × ((f : ℕ) (out : List ℕ)
            → length c' < f
            → pass d k f c' out tt ≡ some (ok (out ++ rest), tt))
  unfolding pass
  pass_inverts zero rest acc r r' c q = cc q
  pass_inverts (suc fuel) [] acc r r' c q =
      ([], cc (q, append-nil acc), λ f out h. second_end f out h)
  pass_inverts (suc fuel) (x ∷ rest) acc r r' c q =
      let (b, r1, made, q') = after-eq-ok _ _ q in
      let (size, back) = undoes _ b r r1 made in
      let (c', split, tail) = pass_inverts fuel (drop p (x ∷ rest)) (acc ++ b) r1 r' c q' in
      (
        b ++ c',
        split ∙ append_assoc acc b c',
        λ f out h.
            second_more f b c' out (take p (x ∷ rest)) (drop p (x ∷ rest)) size back tail h
            ∙ ap (λ l. some (ok (out ++ l), tt)) (take-append-drop p (x ∷ rest)),
      )

-- What the two functions rely on: a block that is encrypted under a key is as long as the key, and
-- the private key of the pair decrypts it.
pub record InvertsBlocks (rsa : Rsa) (private : rsa.PrivateKey) : Type 0 where
  pub inverts :
      (msg label c : List ℕ) (r r' : rsa.Random)
      → rsa.encrypt_oaep (rsa.public_key private) msg label r ≡ (ok c, r')
      → (length c ≡ rsa.size (rsa.public_key private)) × (rsa.decrypt_oaep private c label ≡ ok msg)

module _ (rsa : Rsa) (private : rsa.PrivateKey) where
  abbrev key_size : ℕ
  key_size = rsa.size (rsa.public_key private)

  -- The block length that OAEP leaves is one byte at least.
  abbrev pub IsLongKey : Type 0
  IsLongKey = 2 * rsa.hash_size + 2 < key_size

  encrypt-eq-loop :
      (fuel : ℕ) (msg label : List ℕ) (r : rsa.Random)
      → IsLongKey
      → encrypt rsa fuel (rsa.public_key private) msg label r
        ≡ pass
            (λ b. rsa.encrypt_oaep (rsa.public_key private) b label)
            (key_size - 2 * rsa.hash_size - 2)
            fuel
            msg
            []
            r
  unfolding encrypt
  encrypt-eq-loop fuel msg label r h =
      rw (ltb-eq_false key_size (2 * rsa.hash_size + 2) (omega arith))
        (loop-eq-pass _ _ msg fuel 0 [] r)

  -- With a key of more than twice the hash's size and two bytes, EncryptOAEP ends, given more fuel
  -- than the message has bytes.
  pub encrypt_ends :
      (fuel : ℕ) (msg label : List ℕ) (r : rsa.Random)
      → IsLongKey
      → length msg < fuel
      → encrypt rsa fuel (rsa.public_key private) msg label r ≢ none
  encrypt_ends fuel msg label r long lt q =
      pass_ends _ _ fuel msg [] r (omega arith) lt (sym (encrypt-eq-loop fuel msg label r long) ∙ q)

  -- With a key that leaves room in a block, and a cipher that inverts each block, DecryptOAEP ends on what EncryptOAEP has returned and
  -- returns the message, given more fuel than it reads bytes.
  pub decrypt-encrypt :
      (fuel fuel' : ℕ) (msg label c : List ℕ) (r r' : rsa.Random)
      → InvertsBlocks rsa private
      → IsLongKey
      → encrypt rsa fuel (rsa.public_key private) msg label r ≡ some (ok c, r')
      → length c < fuel'
      → decrypt rsa fuel' private c label ≡ some (ok msg, tt)
  unfolding decrypt
  decrypt-encrypt fuel fuel' msg label c r r' inv long q lt =
      let block : List ℕ → Action (Unit {0}) (List ℕ) =
        λ b _. (rsa.decrypt_oaep private b label, tt) in
      let (c', e, back) =
        pass_inverts _ block _ key_size (omega arith)
          (λ m b s s' made.
            let (size, reads) = inv.inverts m label b s s' made in (size, ap (λ o. (o, tt)) reads))
          fuel msg [] r r' c (sym (encrypt-eq-loop fuel msg label r long) ∙ q) in
      loop-eq-pass block key_size c fuel' 0 [] tt
      ∙ ap (λ l. pass block key_size fuel' l [] tt) e
      ∙ back fuel' [] (rw e at lt)
