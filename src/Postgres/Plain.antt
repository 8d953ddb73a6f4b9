-- ===== src/Postgres/Plain.antt =====
-- Tables of plain rows, on which insertQuery does what the memory storage does.
use go_metrics_harvester.Base.{
  none-ne-some, some_inj, ℕ, String, ◌≡◌, ◌≢◌, inl, inr, refl, sym, ap, ◌∙◌, Bool-cases,
  Option-cases, none, some, ◌==◌, eq_iff, arith, ok,
}
use mathlib.Core.Path.{subst}
use go_metrics_harvester.Base.Dict.{Dict, lookup, assign, lookup-assign_self, lookup-assign_ne}
use go_metrics_harvester.Metric.{Metric, gauge, counter, add_int64}
use go_metrics_harvester.Memory.{merge, upsert}
use go_metrics_harvester.Postgres.Query.{add_bigint, plus, do_update, insert_query}

-- A metric with the field of its type and no other.
pub data IsPlain {F : Type 0} (m : Metric F) : Type 0 where
  measured : (x : F) → m.mtype ≡ gauge → m.delta ≡ none → m.value ≡ some x → IsPlain m
  counted : (d : ℕ) → m.mtype ≡ counter → m.delta ≡ some d → m.value ≡ none → IsPlain m

-- A sum that is in range is the one that wraps.
add_bigint-eq-some : (a b c : ℕ) → add_bigint a b ≡ some c → c ≡ add_int64 b a
unfolding add_bigint
add_bigint-eq-some a b c e = ground arith

differ : ◌≢◌ {A = String} gauge counter
differ p = ground (arith, eq_iff gauge counter)

module _ {F : Type 0} where
  -- On a plain row the two updates agree.
  do_update-merge :
      (m v w : Metric F)
      → IsPlain m
      → IsPlain v
      → m.mtype ≡ v.mtype
      → do_update m v ≡ some w
      → (merge v m ≡ ok w) × IsPlain w × (w.id ≡ v.id) × (w.mtype ≡ v.mtype)
  unfolding do_update merge plus
  do_update-merge m v w (measured x g d e) (measured y g' d' e') same up =
      let made : w ≡ record v { delta = none; value = m.value } = ground arith in
      (
        ground (arith, eq_iff m.mtype gauge),
        measured x (ap (λ (n : Metric F). n.mtype) made ∙ g') (ap (λ (n : Metric F). n.delta) made)
            (ap (λ (n : Metric F). n.value) made ∙ e),
        ap (λ (n : Metric F). n.id) made,
        ap (λ (n : Metric F). n.mtype) made,
      )
  do_update-merge m v w (measured x g d e) (counted y g' d' e') same up =
      absurd (differ (sym g ∙ same ∙ g'))
  do_update-merge m v w (counted x g d e) (measured y g' d' e') same up =
      absurd (differ (sym g' ∙ sym same ∙ g))
  do_update-merge m v w (counted x g d e) (counted y g' d' e') same up =
      elim (Option-cases (add_bigint x y)) [
        | inl over ↦ absurd (none-ne-some (rw (d, d', over, do_update, plus) at up))
        | inr (c, fits) ↦
            let made : w ≡ record v { delta = some c; value = m.value } = ground arith in
            let wraps = add_bigint-eq-some x y c fits in
            (
              ground (arith, eq_iff m.mtype gauge, eq_iff m.mtype counter, eq_iff gauge counter),
              counted c (ap (λ (n : Metric F). n.mtype) made ∙ g')
                  (ap (λ (n : Metric F). n.delta) made) (ap (λ (n : Metric F). n.value) made ∙ e),
              ap (λ (n : Metric F). n.id) made,
              ap (λ (n : Metric F). n.mtype) made,
            )
      ]

module _ {F : Type 0} (types : String → String) where
  pub record IsPlainRow (m : Metric F) : Type 0 where
    pub kind : m.mtype ≡ types m.id
    pub plain : IsPlain m

  pub record IsPlainTable (t : Dict (Metric F)) : Type 0 where
    pub at : (key : String) (m : Metric F) → lookup key t ≡ some m → (m.id ≡ key) × IsPlainRow m

  assign-IsPlainTable :
      (w : Metric F) (key : String) (t : Dict (Metric F))
      → IsPlainTable t
      → IsPlainRow w
      → w.id ≡ key
      → IsPlainTable (assign key w t)
  assign-IsPlainTable w key t ht hw e = record {
    at = λ k n found. elim (Bool-cases (key == k)) [
      | inl same ↦
          let p = (eq_iff key k).0 same in
          let n-eq-w : n ≡ w =
            cc (found, lookup-assign_self key w t, ap (λ j. lookup j (assign key w t)) p) in
          (ap (λ (m : Metric F). m.id) n-eq-w ∙ e ∙ p, subst IsPlainRow (sym n-eq-w) hw)
      | inr other ↦
          ht.at k n (sym (lookup-assign_ne key k w t (λ p. cc (other, (eq_iff key k).1 p))) ∙ found)
    ];
  }

  -- One statement and one round of the memory storage's loop.
  pub upsert-insert_query :
      (m : Metric F) (t t' : Dict (Metric F))
      → IsPlainTable t
      → IsPlainRow m
      → insert_query m t ≡ some t'
      → (upsert m (record { storage = t }) ≡ (ok tt, record { storage = t' })) × IsPlainTable t'
  unfolding insert_query upsert
  upsert-insert_query m t t' ht hm e = elim (Option-cases (lookup m.id t)) [
    | inl new ↦
        let made : assign m.id m t ≡ t' = some_inj (rw (new, insert_query) at e) in
        (
          rw (new, upsert) (ap (λ d. (ok tt, record { storage = d })) made),
          subst IsPlainTable made (assign-IsPlainTable m m.id t ht hm refl),
        )
    | inr (v, there) ↦ elim (Option-cases (do_update m v)) [
      | inl over ↦ absurd (none-ne-some (rw (there, over, insert_query) at e))
      | inr (w, up) ↦
          let made : assign m.id w t ≡ t' = some_inj (rw (there, up, insert_query) at e) in
          let (id, hv) = ht.at m.id v there in
          let same = hm.kind ∙ ap types (sym id) ∙ sym hv.kind in
          let (merges, plain, id', kind) = do_update-merge m v w hm.plain hv.plain same up in
          let hw : IsPlainRow w = record {
            kind = kind ∙ hv.kind ∙ ap types (sym id');
            plain = plain;
          } in
          (
            rw (there, merges, upsert) (ap (λ d. (ok tt, record { storage = d })) made),
            subst IsPlainTable made (assign-IsPlainTable w m.id t ht hw (id' ∙ id)),
          )
    ]
  ]
