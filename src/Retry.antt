-- ===== src/Retry.antt =====
-- pkg/retry/retry.go: the calls of a function that may fail, with a sleep behind each failure.
pub mod Attempts
use go_metrics_harvester.Base.{ℕ, Option, none, some, List, [], ◌∷◌, Error}

-- In seconds.
abbrev pub delays : List ℕ
delays = 1 ∷ 3 ∷ 5 ∷ []

-- `fn` gives no error or one, and changes the state; `sleep` is time.Sleep on that state.
module _ {S : Type 0} (fn : S → Option Error × S) (sleep : ℕ → S → S) where
  -- The loop of Do over the delays that are left; `last` is the variable err.
  unfoldable pub do_from : List ℕ → Option Error → S → Option Error × S
  do_from [] last s = (last, s)
  do_from (delay ∷ rest) last s =
      let (r, s') = fn s in
      elim r [ none ↦ (none, s') | some e ↦ do_from rest (some e) (sleep delay s') ]

  -- Do.
  unfoldable pub do_fn : S → Option Error × S
  unfolding do_from
  do_fn = do_from delays none
