-- ===== src/Tests/Ciphers.antt =====
-- Inputs for the retries and for the encryption in blocks.
use go_metrics_harvester.Base.{
  ℕ, zero, suc, ◌≡◌, ◌≢◌, refl, Option, none, some, [], ◌∷◌, ok, arith, Error, other,
}
use go_metrics_harvester.Retry.{do_fn}
use go_metrics_harvester.Retry.Attempts.{Outcomes, counted, count_sleep, fresh, do_fn-Outcomes}
use go_metrics_harvester.Crypto.{encrypt}
use go_metrics_harvester.Crypto.RoundTrip.{encrypt_ends}
use go_metrics_harvester.Tests.Samples.{padding}

-- Fails as often as the state says.
abbrev flaky : ℕ → Option Error × ℕ
flaky zero = (none, 0)
flaky (suc n) = (some (other "connection refused"), n)

do_fn-flaky :
    do_fn (counted flaky) (count_sleep flaky) (fresh flaky 2)
    ≡ (none, record { inner = 0; calls = 3; slept = 4 })
unfolding do_fn
do_fn-flaky = refl

do_fn-Outcomes_example :
    Outcomes flaky 7 (do_fn (counted flaky) (count_sleep flaky) (fresh flaky 7))
do_fn-Outcomes_example = do_fn-Outcomes flaky 7

-- Blocks of two bytes under a key of six.
encrypt_three :
    encrypt padding 4 6 (7 ∷ 8 ∷ 9 ∷ []) [] 0
    ≡ some (ok (2 ∷ 7 ∷ 8 ∷ 0 ∷ 0 ∷ 0 ∷ 1 ∷ 9 ∷ 0 ∷ 0 ∷ 0 ∷ 0 ∷ []), 2)
unfolding encrypt
encrypt_three = refl

encrypt_ends_example : encrypt padding 4 6 (7 ∷ 8 ∷ 9 ∷ []) [] 0 ≢ none
encrypt_ends_example = encrypt_ends padding 6 4 (7 ∷ 8 ∷ 9 ∷ []) [] 0 (omega arith) (omega arith)
