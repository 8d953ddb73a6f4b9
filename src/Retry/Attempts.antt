-- ===== src/Retry/Attempts.antt =====
-- How often Do calls its function, how long it sleeps, and what it returns.
use go_metrics_harvester.Base.{
  ℕ, zero, suc, ◌+◌, ◌≡◌, ◌≢◌, ◌⊎◌, List, ◌∷◌, [], some, ap, ◌∙◌, Option, none, Error, arith,
}
use go_metrics_harvester.Retry.{do_fn, do_from}

-- A state with the number of calls and the seconds slept so far.
pub record Counted (S : Type 0) : Type 0 where
  pub inner : S
  pub calls : ℕ
  pub slept : ℕ

module _ {S : Type 0} (fn : S → Option Error × S) where
  abbrev pub counted : Counted S → Option Error × Counted S
  counted c = let (r, s) = fn c.inner in (r, record c { inner = s; calls = c.calls + 1 })

  abbrev pub count_sleep : ℕ → Counted S → Counted S
  count_sleep d c = record c { slept = c.slept + d }

  abbrev pub fresh : S → Counted S
  fresh s = record { inner = s; calls = 0; slept = 0 }

  -- The states in which the first, the second and the third call are made.
  abbrev pub nth_state : ℕ → S → S
  nth_state zero s = s
  nth_state (suc n) s = nth_state n (fn s).1

  -- What a call is after `n` failures, and what Do does with it.
  abbrev pub Outcomes : S → Option Error × Counted S → Type 0
  Outcomes s (r, c) =
      ((r ≡ none) × ((fn s).0 ≡ none) × (c.calls ≡ 1) × (c.slept ≡ 0))
      ⊎ (((fn s).0 ≢ none)
          × (((r ≡ none) × ((fn (nth_state 1 s)).0 ≡ none) × (c.calls ≡ 2) × (c.slept ≡ 1))
              ⊎ (((fn (nth_state 1 s)).0 ≢ none)
                  × (r ≡ (fn (nth_state 2 s)).0)
                  × (c.calls ≡ 3)
                  × (((r ≡ none) × (c.slept ≡ 4)) ⊎ ((r ≢ none) × (c.slept ≡ 9))))))

  -- Do stops at the first call that succeeds. It makes three calls at most, with sleeps of one and
  -- of three seconds between them; if all three fail it returns the third one's error, after nine
  -- seconds of sleep.
  pub do_fn-Outcomes : (s : S) → Outcomes s (do_fn counted count_sleep (fresh s))
  unfolding do_fn
  do_fn-Outcomes s = ground arith

module _ {S : Type 0} (fn : S → Option Error × S) (sleep : ℕ → S → S) where
  -- Do returns at once if the first call succeeds.
  pub do_fn_first : (s s' : S) → fn s ≡ (none, s') → do_fn fn sleep s ≡ (none, s')
  unfolding do_fn do_from
  do_fn_first s s' e = rw e (ap (λ p. (none, p.1)) e)

  go_on :
      (n : ℕ) (ds : List ℕ) (last : Option Error) (s s' : S) (e : Error)
      → fn s ≡ (some e, s')
      → do_from fn sleep (n ∷ ds) last s ≡ do_from fn sleep ds (some e) (sleep n s')
  unfolding do_from
  go_on n ds last s s' e h =
      ap
        (λ (p : Option Error × S). elim p.0 [
          | none ↦ (none, p.1)
          | some e' ↦ do_from fn sleep ds (some e') (sleep n p.1)
        ])
        h

  -- Do after three calls that fail.
  pub do_fn_fails :
      (s s₁ s₂ s₃ : S) (e₁ e₂ e₃ : Error)
      → fn s ≡ (some e₁, s₁)
      → fn (sleep 1 s₁) ≡ (some e₂, s₂)
      → fn (sleep 3 s₂) ≡ (some e₃, s₃)
      → do_fn fn sleep s ≡ (some e₃, sleep 5 s₃)
  unfolding do_fn do_from
  do_fn_fails s s₁ s₂ s₃ e₁ e₂ e₃ h₁ h₂ h₃ =
      go_on 1 (3 ∷ 5 ∷ []) none s s₁ e₁ h₁
      ∙ go_on 3 (5 ∷ []) (some e₁) _ s₂ e₂ h₂
      ∙ go_on 5 [] (some e₂) _ s₃ e₃ h₃
