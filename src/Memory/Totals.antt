-- ===== src/Memory/Totals.antt =====
-- What a whole batch leaves under one key: an independent account of Update.
use go_metrics_harvester.Base.{
  ℕ, ◌+◌, ◌%◌, ◌<◌, String, ◌≡◌, inl, inr, sym, ap, ◌∙◌, Bool-cases, Option, none, some, List, [],
  ◌∷◌, ◌==◌, ◌&&◌, eq_iff, eq_refl, arith, if◌then◌else◌, Outcome, ok, >>-eq-ok,
}
use mathlib.Core.Path.{subst}
use go_metrics_harvester.Metric.{Metric, gauge, counter, int64_mod, gauge-ne-counter}
use go_metrics_harvester.Memory.{Storage, merge, upsert, get, update}
use go_metrics_harvester.Memory.Steps.{get-upsert_ne, get-upsert_self}

abbrev or_zero : Option ℕ → ℕ
or_zero none = 0
or_zero (some d) = d

module _ {F : Type 0} where
  -- What one metric adds to the counter under `key`, and the gauge that it leaves there.
  abbrev pub amount : String → Metric F → ℕ
  amount key m = if m.id == key && m.mtype == counter then or_zero m.delta else 0

  abbrev pub newest : String → Metric F → Option F → Option F
  newest key m o = if m.id == key && m.mtype == gauge then m.value else o

  -- The plain sum of a batch's deltas for `key`, and the last of its gauges for `key`.
  unfoldable pub total : String → List (Metric F) → ℕ
  total key [] = 0
  total key (m ∷ ms) = amount key m + total key ms

  pub last_value : String → List (Metric F) → Option F → Option F
  last_value key [] o = o
  last_value key (m ∷ ms) o = last_value key ms (newest key m o)

  -- The metric `v` with these two fields.
  abbrev pub with_data : Metric F → ℕ → Option F → Metric F
  with_data v d o = record v { delta = some d; value = o }

  merge-with_data :
      (v m w : Metric F) (d : ℕ) (o : Option F)
      → d < int64_mod
      → merge (with_data v d o) m ≡ ok w
      → w ≡ with_data v ((d + amount m.id m) % int64_mod) (newest m.id m o)
  unfolding merge
  merge-with_data v m w d o h e = ground (arith, eq_refl m.id, gauge-ne-counter m.mtype)

  upsert_self-with_data :
      (m v : Metric F) (d : ℕ) (o : Option F) (s : Storage F)
      → d < int64_mod
      → get m.id s ≡ some (with_data v d o)
      → (upsert m s).0 ≡ ok tt
      → get m.id (upsert m s).1
        ≡ some (with_data v ((d + amount m.id m) % int64_mod) (newest m.id m o))
  upsert_self-with_data m v d o s h e r =
      let (w, p, q) = get-upsert_self m s r in q ∙ ap some (merge-with_data v m w d o h (rw e at p))

  upsert-with_data :
      (m v : Metric F) (d : ℕ) (o : Option F) (key : String) (s : Storage F)
      → d < int64_mod
      → get key s ≡ some (with_data v d o)
      → (upsert m s).0 ≡ ok tt
      → get key (upsert m s).1
        ≡ some (with_data v ((d + amount key m) % int64_mod) (newest key m o))
  upsert-with_data m v d o key s h e r = elim (Bool-cases (m.id == key)) [
    | inl same ↦
        let p : m.id ≡ key = (eq_iff m.id key).0 same in
        subst
          (λ k.
            get k s ≡ some (with_data v d o)
            → get k (upsert m s).1
              ≡ some (with_data v ((d + amount k m) % int64_mod) (newest k m o)))
          p (λ g. upsert_self-with_data m v d o s h g r) e
    | inr other ↦
        get-upsert_ne m s key (λ p. cc (other, (eq_iff m.id key).1 p))
        ∙ e
        ∙ rw other (ap (λ n. some (with_data v n o)) (omega arith))
  ]

  -- If a batch is stored without a panic, then under a key that held the metric `v` with the delta
  -- `d` and the value `o` it holds `v` with `d` raised by the sum of the batch's counter deltas for
  -- the key, modulo 2 ^ 64, and with the last of the batch's gauge values for it.
  pub get-update :
      (ms : List (Metric F)) (v : Metric F) (d : ℕ) (o : Option F) (key : String) (s : Storage F)
      → d < int64_mod
      → get key s ≡ some (with_data v d o)
      → (update ms s).0 ≡ ok tt
      → get key (update ms s).1
        ≡ some (with_data v ((d + total key ms) % int64_mod) (last_value key ms o))
  unfolding update total last_value
  get-update [] v d o key s h e r = e ∙ ap (λ n. some (with_data v n o)) (omega arith)
  get-update (m ∷ ms) v d o key s h e r =
      let (stored, rest) = >>-eq-ok (upsert m) (update ms) s r in
      let d' : ℕ = (d + amount key m) % int64_mod in
      let e' = upsert-with_data m v d o key s h e stored in
      let ih =
        get-update ms v d' (newest key m o) key (upsert m s).1 (omega arith) e'
          (ap (λ (p : Outcome (Unit {0}) × Storage F). p.0) (sym rest) ∙ r) in
      ap (λ (p : Outcome (Unit {0}) × Storage F). get key p.1) rest
      ∙ ih
      ∙ ap (λ n. some (with_data v n (last_value key ms (newest key m o)))) (omega arith)
