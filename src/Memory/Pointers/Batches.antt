-- ===== src/Memory/Pointers/Batches.antt =====
-- Whole batches of pointers.
use go_metrics_harvester.Base.{
  ℕ, String, ◌≡◌, ◌≢◌, inl, inr, refl, ap, ◌∙◌, Bool-cases, Option, none, some, List, [], ◌∷◌, map,
  ◌==◌, Outcome, ok, err, panic, Action, ◌>>◌, All,
}
use mathlib.Core.Option
use mathlib.Core.Path.{subst, ap₂}
use go_metrics_harvester.Base.Dict.{Dict, lookup}
use go_metrics_harvester.Metric.{gauge, counter, add_int64}
use go_metrics_harvester.Memory.{Storage, upsert, update}
use go_metrics_harvester.Memory.Pointers.{
  Pointing, Heap, PointerStorage, deref, seen, set_value_at, add_delta_at, merge_at, store_at,
  found_at, upsert_at, update_at,
}
use go_metrics_harvester.Memory.Pointers.Apart.{
  IsApart, IsSeparate, IsApart-lookup, IsApart-assign, write_at_ne,
}
use go_metrics_harvester.Memory.Pointers.Refines.{Refines, upsert_at-Refines}

module _ {F : Type 0} where
  -- The pointers of a batch are new to the storage, and no two of its metrics share one.
  unfoldable pub IsFreshBatch : List (Pointing F) → Dict (Pointing F) → Type 0
  IsFreshBatch [] l = Unit {0}
  IsFreshBatch (v ∷ m) l =
      ((p : ℕ) → v.delta ≡ some p → IsApart p l × All (λ (w : Pointing F). w.delta ≢ some p) m)
      × IsFreshBatch m l

  -- What a step does to an address that neither the storage nor the metric has.
  record Keeps (q : ℕ) (s : PointerStorage F) (r : Outcome (Unit {0}) × PointerStorage F)
      : Type 0 where
    apart : IsApart q r.1.storage
    same : r.1.heap q ≡ s.heap q

  module _ (q : ℕ) (s : PointerStorage F) (a : IsApart q s.storage) where
    storing-Keeps :
        (key : String) (m : Pointing F)
        → m.delta ≢ some q
        → Keeps q s (store_at key (ok (m, s.heap)) s)
    storing-Keeps key m ne = record { apart = IsApart-assign q key m s.storage ne a; same = refl }

    set_value-Keeps :
        (key : String) (v : Pointing F) (o : Option F)
        → v.delta ≢ some q
        → Keeps q s (store_at key (set_value_at v o s.heap) s)
    set_value-Keeps key v none ne = record { apart = a; same = refl }
    set_value-Keeps key v (some x) ne = storing-Keeps key (record v { value = some x }) ne

    add_delta-Keeps :
        (key : String) (v : Pointing F) (o b : Option ℕ)
        → v.delta ≡ o
        → v.delta ≢ some q
        → Keeps q s (store_at key (add_delta_at v o b s.heap) s)
    add_delta-Keeps key v none b d ne = record { apart = a; same = refl }
    add_delta-Keeps key v (some p) none d ne = record { apart = a; same = refl }
    add_delta-Keeps key v (some p) (some b) d ne = record {
      apart = IsApart-assign q key v s.storage ne a;
      same = write_at_ne p (add_int64 (s.heap p) (s.heap b)) q s.heap (λ e. ne (d ∙ ap some e));
    }

    merge-Keeps :
        (key : String) (v value : Pointing F)
        → v.delta ≢ some q
        → Keeps q s (store_at key (merge_at v value s.heap) s)
    unfolding merge_at
    merge-Keeps key v value ne = elim (Bool-cases (value.mtype == gauge)) [
      | inl t ↦ rw (t, merge_at) (set_value-Keeps key v value.value ne)
      | inr t ↦ elim (Bool-cases (value.mtype == counter)) [
        | inl t' ↦ rw (t, t', merge_at) (add_delta-Keeps key v v.delta value.delta refl ne)
        | inr t' ↦ rw (t, t', merge_at) (storing-Keeps key v ne)
      ]
    ]

    found-Keeps :
        (value : Pointing F) (o : Option (Pointing F))
        → value.delta ≢ some q
        → lookup value.id s.storage ≡ o
        → Keeps q s (found_at value o s)
    found-Keeps value none ne e = storing-Keeps value.id value ne
    found-Keeps value (some v) ne e =
        merge-Keeps value.id v value (IsApart-lookup q value.id v s.storage a e)

    upsert_at-Keeps : (value : Pointing F) → value.delta ≢ some q → Keeps q s (upsert_at value s)
    unfolding upsert_at
    upsert_at-Keeps value ne = found-Keeps value (lookup value.id s.storage) ne refl

  deref-eq :
      (w : Pointing F) (h h' : Heap)
      → ((q : ℕ) → w.delta ≡ some q → h' q ≡ h q)
      → deref h' w ≡ deref h w
  deref-eq w h h' same =
      ap (λ d. record { id = w.id; mtype = w.mtype; delta = d; value = w.value })
        (mapped w.delta same)
    where
      mapped :
          (o : Option ℕ) → ((q : ℕ) → o ≡ some q → h' q ≡ h q) → Option.map h' o ≡ Option.map h o
      mapped none e = refl
      mapped (some q) e = ap some (e q refl)

  -- The rest of a batch behind the step of its first metric.
  module _ (v : Pointing F) (s : PointerStorage F) where
    private_pointers :
        (w : Pointing F) (q : ℕ)
        → ((p : ℕ) → w.delta ≡ some p → IsApart p s.storage)
        → ((p : ℕ) → v.delta ≡ some p → w.delta ≢ some p)
        → w.delta ≡ some q
        → Keeps q s (upsert_at v s)
    private_pointers w q fresh other d = upsert_at-Keeps q s (fresh q d) v (λ e. other q e d)

    rest-IsFreshBatch :
        (m : List (Pointing F))
        → IsFreshBatch m s.storage
        → ((p : ℕ) → v.delta ≡ some p → All (λ (w : Pointing F). w.delta ≢ some p) m)
        → IsFreshBatch m (upsert_at v s).1.storage
    unfolding IsFreshBatch
    rest-IsFreshBatch [] h other = tt
    rest-IsFreshBatch (w ∷ m) (fresh, h) other = (
      λ p d.
          let kept = private_pointers w p (λ q e. (fresh q e).0) (λ q e. (other q e).0) d in
          (kept.apart, (fresh p d).1),
      rest-IsFreshBatch m h (λ p e. (other p e).1),
    )

    rest-eq :
        (m : List (Pointing F))
        → IsFreshBatch m s.storage
        → ((p : ℕ) → v.delta ≡ some p → All (λ (w : Pointing F). w.delta ≢ some p) m)
        → map (deref (upsert_at v s).1.heap) m ≡ map (deref s.heap) m
    unfolding IsFreshBatch
    rest-eq [] h other = refl
    rest-eq (w ∷ m) (fresh, h) other =
        ap₂ (λ r l. r ∷ l)
          (deref-eq w s.heap (upsert_at v s).1.heap
            (λ q d. (private_pointers w q (λ p e. (fresh p e).0) (λ p e. (other p e).0) d).same))
          (rest-eq m h (λ p e. (other p e).1))

  -- One call after the other.
  sequence-Refines :
      (first rest : Action (Storage F) (Unit {0})) (rest_at : Action (PointerStorage F) (Unit {0}))
      (s : PointerStorage F) (c : Outcome (Unit {0}) × PointerStorage F)
      → Refines first s c
      → (c.0 ≡ ok tt → Refines rest c.1 (rest_at c.1))
      → Refines (first >> rest) s (((λ _. c) >> rest_at) s)
  sequence-Refines first rest rest_at s (ok u, s') h next =
      let tail = next refl in
      record {
        agrees =
            ap (λ (r : Outcome (Unit {0}) × Storage F). ((λ _. r) >> rest) (seen s)) h.agrees
            ∙ tail.agrees;
        separate = tail.separate;
      }
  sequence-Refines first rest rest_at s (err e, s') h next = record {
    agrees = ap (λ (r : Outcome (Unit {0}) × Storage F). ((λ _. r) >> rest) (seen s)) h.agrees;
    separate = h.separate;
  }
  sequence-Refines first rest rest_at s (panic, s') h next = record {
    agrees = ap (λ (r : Outcome (Unit {0}) × Storage F). ((λ _. r) >> rest) (seen s)) h.agrees;
    separate = h.separate;
  }

  -- Where no two entries of the storage share the address of a delta, and a batch comes with addresses
  -- of its own, Update through the pointers does what Update on the values does: the same result, also
  -- where it panics half way, and a storage that reads the same. No two entries share an address
  -- afterwards either.
  pub update_at-Refines :
      (m : List (Pointing F)) (s : PointerStorage F)
      → IsSeparate s.storage
      → IsFreshBatch m s.storage
      → Refines (update (map (deref s.heap) m)) s (update_at m s)
  unfolding update update_at IsFreshBatch
  update_at-Refines [] s separate h = record { agrees = refl; separate = separate }
  update_at-Refines (v ∷ m) s separate (fresh, h) =
      let step = upsert_at-Refines s separate v (λ p d. (fresh p d).0) in
      let other : (p : ℕ) → v.delta ≡ some p → All (λ (w : Pointing F). w.delta ≢ some p) m =
        λ p d. (fresh p d).1 in
      sequence-Refines (upsert (deref s.heap v)) (update (map (deref s.heap) m)) (update_at m) s
        (upsert_at v s) step
        (λ _.
          subst (λ l. Refines (update l) (upsert_at v s).1 (update_at m (upsert_at v s).1))
            (rest-eq v s m h other)
            (update_at-Refines m (upsert_at v s).1 step.separate (rest-IsFreshBatch v s m h other)))
