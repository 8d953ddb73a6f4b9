-- ===== src/Memory/Safety.antt =====
-- When the storage panics, and the invariant under which it does not.
use go_metrics_harvester.Base.{
  String, ◌≡◌, ◌≢◌, ◌↔◌, inl, inr, sym, ap, ◌∙◌, false, none, some, eq_iff, arith, Outcome, panic,
  Option-cases,
}
use go_metrics_harvester.Metric.{Metric, gauge, counter, gauge-ne-counter}
use go_metrics_harvester.Memory.{Storage, is_malformed, merge, upsert, store, set, get}
use go_metrics_harvester.Memory.Steps.{merged, upsert-eq-store}

module _ {F : Type 0} where
  -- A metric has the field that its type calls for.
  pub record HasField (m : Metric F) : Type 0 where
    pub counts : m.mtype ≡ counter → m.delta ≢ none
    pub measures : m.mtype ≡ gauge → m.value ≢ none

  pub is_malformed_iff : (m : Metric F) → (is_malformed m ≡ false) ↔ HasField m
  unfolding is_malformed
  is_malformed_iff m = (
    λ h. record {
      counts = λ p q. ground (arith, eq_iff m.mtype counter);
      measures = λ p q. ground (arith, eq_iff m.mtype gauge);
    },
    λ h. ground (arith, h.counts, h.measures, eq_iff m.mtype counter, eq_iff m.mtype gauge),
  )

  -- A counter with a delta meets a metric of the same name that has none.
  pub record Clashes (m : Metric F) (s : Storage F) : Type 0 where
    pub counts : m.mtype ≡ counter
    pub has_delta : m.delta ≢ none
    pub held : Metric F
    pub found : get m.id s ≡ some held
    pub no_delta : held.delta ≡ none

  merge_panics :
      (v m : Metric F)
      → HasField m
      → merge v m ≡ panic
      → (m.mtype ≡ counter) × (m.delta ≢ none) × (v.delta ≡ none)
  unfolding merge
  merge_panics v m h e =
      ground (arith, h.counts, h.measures, eq_iff m.mtype gauge, eq_iff m.mtype counter)

  merge_of_counter : (v m : Metric F) → m.mtype ≡ counter → v.delta ≡ none → merge v m ≡ panic
  unfolding merge
  merge_of_counter v m p q =
      ground (arith, eq_iff m.mtype counter, eq_iff m.mtype gauge, gauge-ne-counter m.mtype)

  store-eq-panic :
      (k : String) (r : Outcome (Metric F)) (s : Storage F) → (store k r s).0 ≡ panic → r ≡ panic
  store-eq-panic k r s e = ground arith

  upsert_panics : (m : Metric F) (s : Storage F) → HasField m → (upsert m s).0 ≡ panic → Clashes m s
  upsert_panics m s h e =
      let p = store-eq-panic m.id _ s (rw upsert-eq-store at e) in
      elim (Option-cases (get m.id s)) [
        | inl new ↦ cc (p, ap (merged m) new)
        | inr (v, found) ↦
            let (c, d, n) = merge_panics v m h (ap (merged m) (sym found) ∙ p) in
            record { counts = c; has_delta = d; held = v; found = found; no_delta = n }
      ]

  Clashes-HasField : (m : Metric F) (s : Storage F) → Clashes m s → HasField m
  Clashes-HasField m s c = record {
    counts = λ _. c.has_delta;
    measures = λ p _. ground (arith, c.counts, eq_iff gauge counter);
  }

  clash_panics : (m : Metric F) (s : Storage F) → Clashes m s → upsert m s ≡ (panic, s)
  clash_panics m s c =
      upsert-eq-store m s
      ∙ ap (λ r. store m.id r s)
          (ap (merged m) c.found ∙ merge_of_counter c.held m c.counts c.no_delta)

  pub set_of_HasField : (m : Metric F) (s : Storage F) → HasField m → set m s ≡ upsert m s
  unfolding set
  set_of_HasField m s h = rw ((is_malformed_iff m).1 h)

  set-eq-panic :
      (m : Metric F) (s : Storage F)
      → (set m s).0 ≡ panic
      → (is_malformed m ≡ false) × ((upsert m s).0 ≡ panic)
  unfolding set
  set-eq-panic m s e = ground arith

  -- Set panics exactly when the metric is a counter with a delta and the map holds under its name a
  -- metric without one, such as a gauge; and exactly then it panics and leaves the map as it was.
  pub set_panics_iff :
      (m : Metric F) (s : Storage F)
      → (((set m s).0 ≡ panic) ↔ Clashes m s) × ((set m s ≡ (panic, s)) ↔ Clashes m s)
  set_panics_iff m s =
      let there : (set m s).0 ≡ panic → Clashes m s = λ e.
        let (good, p) = set-eq-panic m s e in upsert_panics m s ((is_malformed_iff m).0 good) p in
      let back : Clashes m s → set m s ≡ (panic, s) =
        λ c. set_of_HasField m s (Clashes-HasField m s c) ∙ clash_panics m s c in
      let result = λ (p : Outcome (Unit {0}) × Storage F). p.0 in
      ((there, λ c. ap result (back c)), (λ e. there (ap result e), back))
