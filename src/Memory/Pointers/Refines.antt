-- ===== src/Memory/Pointers/Refines.antt =====
-- Where no two metrics share a delta, the pointers are the values that they point to.
use go_metrics_harvester.Base.{
  ℕ, String, ◌≡◌, inl, inr, refl, sym, ap, ◌∙◌, Bool-cases, Option, none, some, ◌==◌, Outcome, ok,
  Action,
}
use mathlib.Core.Option
use go_metrics_harvester.Base.Dict.{lookup, assign}
use go_metrics_harvester.Metric.{gauge, counter, add_int64}
use go_metrics_harvester.Memory.{Storage, merge, store, set_value, add_delta, upsert_found, upsert}
use go_metrics_harvester.Memory.Pointers.{
  Pointing, PointerStorage, deref, seen, set_value_at, add_delta_at, merge_at, store_at, found_at,
  upsert_at,
}
use go_metrics_harvester.Memory.Pointers.Apart.{
  IsApart, IsSeparate, lookup-view, view-assign, view-assign-write_at, IsSeparate-assign_found,
  IsSeparate-assign_new,
}

module _ {F : Type 0} where
  -- A call on the pointers does what a call on the values does, and keeps them separate.
  pub record Refines (call : Action (Storage F) (Unit {0})) (s : PointerStorage F)
      (r : Outcome (Unit {0}) × PointerStorage F) : Type 0 where
    pub agrees : call (seen s) ≡ (r.0, seen r.1)
    pub separate : IsSeparate r.1.storage

  module _ (s : PointerStorage F) (separate : IsSeparate s.storage) where
    storing-Refines :
        (key : String) (m : Pointing F)
        → IsSeparate (assign key m s.storage)
        → Refines (store key (ok (deref s.heap m))) s (store_at key (ok (m, s.heap)) s)
    storing-Refines key m kept = record {
      agrees = ap (λ t. (ok tt, record { storage = t })) (sym (view-assign key m s.heap s.storage));
      separate = kept;
    }

    module _ (key : String) (v : Pointing F) (there : lookup key s.storage ≡ some v) where
      set_value-Refines :
          (o : Option F)
          → Refines
              (store key (set_value (deref s.heap v) o))
              s
              (store_at key (set_value_at v o s.heap) s)
      set_value-Refines none = record { agrees = refl; separate = separate }
      set_value-Refines (some x) =
          storing-Refines key (record v { value = some x })
            (IsSeparate-assign_found key v (record v { value = some x }) s.storage there refl
              separate)

      add_delta-Refines :
          (a b : Option ℕ)
          → v.delta ≡ a
          → Refines
              (store key (add_delta (deref s.heap v) (Option.map s.heap a) (Option.map s.heap b)))
              s
              (store_at key (add_delta_at v a b s.heap) s)
      add_delta-Refines none b d = record { agrees = refl; separate = separate }
      add_delta-Refines (some p) none d = record { agrees = refl; separate = separate }
      add_delta-Refines (some p) (some q) d = record {
        agrees =
            ap (λ t. (ok tt, record { storage = t }))
              (sym (
                view-assign-write_at key v p (add_int64 (s.heap p) (s.heap q)) s.heap s.storage d
                  there separate));
        separate = IsSeparate-assign_found key v v s.storage there refl separate;
      }

      merge-Refines :
          (value : Pointing F)
          → Refines
              (store key (merge (deref s.heap v) (deref s.heap value)))
              s
              (store_at key (merge_at v value s.heap) s)
      unfolding merge merge_at
      merge-Refines value = elim (Bool-cases (value.mtype == gauge)) [
        | inl t ↦ rw (t, merge, merge_at) (set_value-Refines value.value)
        | inr t ↦ elim (Bool-cases (value.mtype == counter)) [
          | inl t' ↦ rw (t, t', merge, merge_at) (add_delta-Refines v.delta value.delta refl)
          | inr t' ↦
              rw (t, t', merge, merge_at)
                (storing-Refines key v
                  (IsSeparate-assign_found key v v s.storage there refl separate))
        ]
      ]

    -- The pointer of a metric is not yet in the storage.
    abbrev pub IsFresh : Pointing F → Type 0
    IsFresh m = (p : ℕ) → m.delta ≡ some p → IsApart p s.storage

    found-Refines :
        (value : Pointing F) (o : Option (Pointing F))
        → IsFresh value
        → lookup value.id s.storage ≡ o
        → Refines
            (upsert_found (deref s.heap value) (Option.map (deref s.heap) o))
            s
            (found_at value o s)
    found-Refines value none fresh e =
        storing-Refines value.id value
          (IsSeparate-assign_new value.id value s.storage e fresh separate)
    found-Refines value (some v) fresh e = merge-Refines value.id v e value

    pub upsert_at-Refines :
        (value : Pointing F)
        → IsFresh value
        → Refines (upsert (deref s.heap value)) s (upsert_at value s)
    unfolding upsert upsert_at
    upsert_at-Refines value fresh =
        let o = lookup value.id s.storage in
        let r = found-Refines value o fresh refl in
        record {
          agrees =
              ap (λ found. upsert_found (deref s.heap value) found (seen s))
                (lookup-view value.id s.heap s.storage)
              ∙ r.agrees;
          separate = r.separate;
        }
