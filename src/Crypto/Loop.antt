-- ===== src/Crypto/Loop.antt =====
-- The loop of EncryptOAEP and DecryptOAEP over the bytes that are left: how it steps, and that a
-- positive step ends it.
use go_metrics_harvester.Base.{
  ℕ, zero, suc, ◌+◌, ◌-◌, ◌≤◌, ◌<◌, ◌≡◌, ◌≢◌, refl, sym, ap, ◌∙◌, inl, inr, Bool-cases, Option,
  none, some, List, [], ◌∷◌, ◌++◌, ltb, ltb→lt, if◌then◌else◌, length, length-drop, drop-drop, take,
  drop, take_all, drop_all, Outcome, ok, err, panic, Action, arith,
}
use mathlib.Core.Path.{ap₂, fun_ext}
use go_metrics_harvester.Crypto.{slice, after, loop}

-- A pass over the rest of a message, block after block.
module _ {R : Type 0} (block : List ℕ → Action R (List ℕ)) (step : ℕ) where
  unfoldable pub pass : ℕ → List ℕ → List ℕ → R → Option (Outcome (List ℕ) × R)
  pass zero rest acc r = none
  pass (suc fuel) [] acc r = some (ok acc, r)
  pass (suc fuel) (x ∷ rest) acc r =
      after (λ b r'. pass fuel (drop step (x ∷ rest)) (acc ++ b) r')
        (block (take step (x ∷ rest)) r)

  -- A slice at the end of the message may be cut short by its length.
  slice-eq-take :
      (msg : List ℕ) (start : ℕ)
      → start ≤ length msg
      → slice msg start (if ltb (length msg) (start + step) then length msg else start + step)
        ≡ take step (drop start msg)
  slice-eq-take msg start h = elim (Bool-cases (ltb (length msg) (start + step))) [
    | inl short ↦
        let left = length-drop start msg in
        let lt = ltb→lt _ _ short in
        rw short (
          take_all _ (drop start msg) (omega arith)
          ∙ sym (take_all step (drop start msg) (omega arith)))
    | inr long ↦
        let e : start + step - start ≡ step = omega arith in
        rw long (ap (λ n. take n (drop start msg)) e)
  ]

  pub pass_more :
      (fuel : ℕ) (l acc : List ℕ) (r : R)
      → 0 < length l
      → pass (suc fuel) l acc r
        ≡ after (λ b r'. pass fuel (drop step l) (acc ++ b) r') (block (take step l) r)
  unfolding pass
  pass_more fuel [] acc r h = elim h [ ]
  pass_more fuel (x ∷ l) acc r h = refl

  pass_done :
      (fuel : ℕ) (l acc : List ℕ) (r : R) → l ≡ [] → pass (suc fuel) l acc r ≡ some (ok acc, r)
  unfolding pass
  pass_done fuel l acc r e = rw e

  -- The loop over positions is the pass over what is left of the message.
  pub loop-eq-pass :
      (msg : List ℕ) (fuel start : ℕ) (acc : List ℕ) (r : R)
      → loop block step msg fuel start acc r ≡ pass fuel (drop start msg) acc r
  unfolding loop pass
  loop-eq-pass msg zero start acc r = refl
  loop-eq-pass msg (suc fuel) start acc r = elim (Bool-cases (ltb start (length msg))) [
    | inl more ↦
        let lt = ltb→lt _ _ more in
        let left = length-drop start msg in
        let same = fun_ext λ b. fun_ext λ r'.
          loop-eq-pass msg fuel (start + step) (acc ++ b) r'
          ∙ ap (λ l. pass fuel l (acc ++ b) r') (sym (drop-drop step start msg)) in
        rw (more, loop)
          (ap₂ after same (ap (λ b. block b r) (slice-eq-take msg start (omega arith)))
            ∙ sym (pass_more fuel (drop start msg) acc r (omega arith)))
    | inr done ↦
        rw (done, loop)
          (sym (pass_done fuel (drop start msg) acc r (drop_all start msg (ground arith))))
  ]

  after_ends :
      (next : List ℕ → R → Option (Outcome (List ℕ) × R)) (p : Outcome (List ℕ) × R)
      → ((b : List ℕ) (r : R) → next b r ≢ none)
      → after next p ≢ none
  after_ends next (ok b, r) h = h b r
  after_ends next (err e, r) h = λ q. cc q
  after_ends next (panic, r) h = λ q. cc q

  -- With a step of one or more and more fuel than bytes a pass ends.
  pub pass_ends :
      (fuel : ℕ) (rest acc : List ℕ) (r : R)
      → 0 < step
      → length rest < fuel
      → pass fuel rest acc r ≢ none
  unfolding pass
  pass_ends zero rest acc r p h = elim h [ ]
  pass_ends (suc fuel) [] acc r p h = λ q. cc q
  pass_ends (suc fuel) (x ∷ rest) acc r p h =
      after_ends (λ b r'. pass fuel (drop step (x ∷ rest)) (acc ++ b) r') _
        λ b r'.
          pass_ends fuel (drop step (x ∷ rest)) (acc ++ b) r' p
            (omega (arith, length-drop step (x ∷ rest)))
