-- ===== src/Memory/Typed.antt =====
-- A store in which every name keeps one type, and batches that respect it.
use go_metrics_harvester.Base.{
  String, ◌≡◌, inl, inr, refl, sym, ap, ◌∙◌, true, Bool-cases, some, List, [], ◌∷◌, ◌==◌, eq_iff,
  arith, ok, >>-of_ok, All, Option-cases,
}
use go_metrics_harvester.Base.Dict.{lookup}
use mathlib.Core.Path.{subst}
use go_metrics_harvester.Metric.{Metric, gauge, counter, add_int64, gauge-ne-counter}
use go_metrics_harvester.Memory.{Storage, merge, upsert, new_mem_storage, get, update}
use go_metrics_harvester.Memory.Steps.{merged, upsert-eq-store, get-upsert_ne, get-upsert_self}
use go_metrics_harvester.Memory.Safety.{HasField}

-- `types` gives the type that each name is meant to have.
module _ {F : Type 0} (types : String → String) where
  pub record IsTyped (m : Metric F) : Type 0 where
    pub kind : m.mtype ≡ types m.id
    pub field : HasField m

  pub record IsTypedStore (s : Storage F) : Type 0 where
    pub at : (key : String) (m : Metric F) → get key s ≡ some m → (m.id ≡ key) × IsTyped m

  set_gauge :
      (v m : Metric F)
      → IsTyped v
      → HasField m
      → (m.mtype == gauge) ≡ true
      → (w : Metric F) × (merge v m ≡ ok w) × (w.id ≡ v.id) × IsTyped w
  unfolding merge
  set_gauge v m hv hm g = elim (Option-cases m.value) [
    | inl lacks ↦ absurd (hm.measures ((eq_iff _ _).0 g) lacks)
    | inr (x, has) ↦ (
      record v { value = some x },
      rw (merge, g, has),
      refl,
      record {
        kind = hv.kind;
        field = record { counts = hv.field.counts; measures = λ _ n. cc n };
      },
    )
  ]

  add_counter :
      (v m : Metric F)
      → IsTyped v
      → HasField m
      → v.mtype ≡ m.mtype
      → (m.mtype == counter) ≡ true
      → (w : Metric F) × (merge v m ≡ ok w) × (w.id ≡ v.id) × IsTyped w
  unfolding merge
  add_counter v m hv hm same c = elim (Option-cases m.delta) [
    | inl lacks ↦ absurd (hm.counts ((eq_iff _ _).0 c) lacks)
    | inr (b, has) ↦ elim (Option-cases v.delta) [
      | inl empty ↦ absurd (hv.field.counts (same ∙ (eq_iff _ _).0 c) empty)
      | inr (a, held) ↦ (
        record v { delta = some (add_int64 a b) },
        ground (arith, gauge-ne-counter m.mtype),
        refl,
        record {
          kind = hv.kind;
          field = record { counts = λ _ n. cc n; measures = hv.field.measures };
        },
      )
    ]
  ]

  merge-IsTyped :
      (v m : Metric F)
      → IsTyped v
      → IsTyped m
      → v.id ≡ m.id
      → (w : Metric F) × (merge v m ≡ ok w) × (w.id ≡ v.id) × IsTyped w
  unfolding merge
  merge-IsTyped v m hv hm e = elim (Bool-cases (m.mtype == gauge)) [
    | inl g ↦ set_gauge v m hv hm.field g
    | inr g ↦ elim (Bool-cases (m.mtype == counter)) [
      | inl c ↦ add_counter v m hv hm.field (hv.kind ∙ ap types e ∙ sym hm.kind) c
      | inr c ↦ (v, rw (merge, g, c), refl, hv)
    ]
  ]

  pub merged-IsTyped :
      (m : Metric F) (s : Storage F)
      → IsTypedStore s
      → IsTyped m
      → (w : Metric F) × (merged m (get m.id s) ≡ ok w) × (w.id ≡ m.id) × IsTyped w
  merged-IsTyped m s hs hm = elim (Option-cases (get m.id s)) [
    | inl new ↦ (m, ap (merged m) new, refl, hm)
    | inr (v, found) ↦
        let (p, hv) = hs.at m.id v found in
        let (w, q, r, hw) = merge-IsTyped v m hv hm p in (w, ap (merged m) found ∙ q, r ∙ p, hw)
  ]

  pub upsert_returns :
      (m : Metric F) (s : Storage F) → IsTypedStore s → IsTyped m → (upsert m s).0 ≡ ok tt
  upsert_returns m s hs hm =
      let (w, p, _, _) = merged-IsTyped m s hs hm in rw (upsert-eq-store, p) refl

  upsert-IsTypedStore :
      (m : Metric F) (s : Storage F) → IsTypedStore s → IsTyped m → IsTypedStore (upsert m s).1
  upsert-IsTypedStore m s hs hm = record {
    at = λ key n e. elim (Bool-cases (m.id == key)) [
      | inl same ↦
          let p = (eq_iff m.id key).0 same in
          let (w, q, id, hw) = merged-IsTyped m s hs hm in
          let (x, q', g) = get-upsert_self m s (upsert_returns m s hs hm) in
          let n-eq-w : n ≡ w = cc (e, q, q', g, ap (λ k. get k (upsert m s).1) p) in
          (ap (λ (k : Metric F). k.id) n-eq-w ∙ id ∙ p, subst IsTyped (sym n-eq-w) hw)
      | inr other ↦
          hs.at key n (sym (get-upsert_ne m s key (λ p. cc (other, (eq_iff m.id key).1 p))) ∙ e)
    ];
  }

  -- In a store where every name has its type, a batch whose metrics have the types of their names
  -- and the fields of their types is stored without a panic, and the store stays such a store.
  pub update-IsTypedStore :
      (ms : List (Metric F)) (s : Storage F)
      → IsTypedStore s
      → All IsTyped ms
      → ((update ms s).0 ≡ ok tt) × IsTypedStore (update ms s).1
  unfolding update
  update-IsTypedStore [] s hs _ = (refl, hs)
  update-IsTypedStore (m ∷ ms) s hs (hm, h) =
      rw (>>-of_ok (upsert m) (update ms) s (upsert_returns m s hs hm))
        (update-IsTypedStore ms (upsert m s).1 (upsert-IsTypedStore m s hs hm) h)

  IsTypedStore-new : IsTypedStore new_mem_storage
  unfolding new_mem_storage get lookup
  IsTypedStore-new = record { at = λ key m e. cc e }
