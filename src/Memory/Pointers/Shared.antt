-- ===== src/Memory/Pointers/Shared.antt =====
-- A metric that Get has handed out, and a Set that comes after it.
use go_metrics_harvester.Base.{
  ℕ, ◌+◌, ◌%◌, ◌^◌, ◌≡◌, refl, ap, ◌∙◌, false, some, eq-eq_false, ◌==◌, eq_iff, arith, Outcome, ok,
}
use mathlib.Core.Option
use mathlib.Core.Path.{ap₂}
use go_metrics_harvester.Base.Dict.{lookup, assign, lookup-assign_self}
use go_metrics_harvester.Metric.{gauge, counter, add_int64}
use go_metrics_harvester.Memory.Pointers.{
  Pointing, Heap, write_at, PointerStorage, deref, found_at, store_at, add_delta_at, merge_at,
  upsert_at, is_malformed_at, set_at, get_at,
}
use go_metrics_harvester.Memory.Pointers.Apart.{write_at_self}

module _ {F : Type 0} where
  is_counter : (value : Pointing F) → value.mtype ≡ counter → (value.mtype == gauge) ≡ false
  is_counter value counts =
      eq-eq_false value.mtype gauge (λ r. ground (arith, eq_iff counter gauge))

  merge_at-eq :
      (value v : Pointing F) (p q : ℕ) (h : Heap)
      → v.delta ≡ some p
      → value.mtype ≡ counter
      → value.delta ≡ some q
      → merge_at v value h ≡ ok (v, write_at p (add_int64 (h p) (h q)) h)
  unfolding merge_at
  merge_at-eq value v p q h d counts e =
      rw (is_counter value counts, (eq_iff value.mtype counter).1 counts, merge_at)
        (ap₂ (λ a b. add_delta_at v a b h) d e)

  set_at-eq :
      (value v : Pointing F) (p q : ℕ) (s : PointerStorage F)
      → lookup value.id s.storage ≡ some v
      → v.delta ≡ some p
      → value.mtype ≡ counter
      → value.delta ≡ some q
      → set_at value s ≡ (
        ok tt,
        record {
          storage = assign value.id v s.storage;
          heap = write_at p (add_int64 (s.heap p) (s.heap q)) s.heap;
        },
      )
  unfolding set_at upsert_at is_malformed_at
  set_at-eq value v p q s there d counts e =
      let valid : is_malformed_at value ≡ false =
        rw (e, is_counter value counts, (eq_iff value.mtype counter).1 counts, is_malformed_at)
          refl in
      rw (valid, set_at)
        (ap (λ o. found_at value o s) there
          ∙ ap (λ r. store_at value.id r s) (merge_at-eq value v p q s.heap d counts e))

  -- What Get returns is no snapshot of a counter. Where the storage has a metric with a delta under a
  -- name and Set is called with a counter of that name that has a delta, Set returns no error, the
  -- storage still holds the metric with the same pointer, and whoever read the metric before the Set
  -- now reads the sum of the two deltas, modulo 2 ^ 64, through it.
  pub get_at-set_at :
      (value v : Pointing F) (p q : ℕ) (s : PointerStorage F)
      → get_at value.id s ≡ some v
      → v.delta ≡ some p
      → value.mtype ≡ counter
      → value.delta ≡ some q
      → ((set_at value s).0 ≡ ok tt)
        × (get_at value.id (set_at value s).1 ≡ some v)
        × (deref (set_at value s).1.heap v
            ≡ record (deref s.heap v) { delta = some ((s.heap p + s.heap q) % 2 ^ 64) })
  unfolding get_at
  get_at-set_at value v p q s there d counts e =
      let made = set_at-eq value v p q s there d counts e in
      let h = write_at p (add_int64 (s.heap p) (s.heap q)) s.heap in
      let read =
        ap (λ o. record { id = v.id; mtype = v.mtype; delta = Option.map h o; value = v.value }) d
        ∙ ap (λ n. record { id = v.id; mtype = v.mtype; delta = some n; value = v.value })
            (write_at_self p (add_int64 (s.heap p) (s.heap q)) s.heap) in
      (
        ap (λ r. r.0) made,
        ap (λ (r : Outcome (Unit {0}) × PointerStorage F). lookup value.id r.1.storage) made
            ∙ lookup-assign_self value.id v s.storage,
        ap (λ (r : Outcome (Unit {0}) × PointerStorage F). deref r.1.heap v) made ∙ read,
      )
