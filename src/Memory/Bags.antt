-- ===== src/Memory/Bags.antt =====
-- internal/storage/memory/memory.go: what List returns, up to the order in which a map is visited.
use go_metrics_harvester.Base.{
  String, ◌≡◌, ◌≢◌, inl, inr, refl, sym, ◌∙◌, Bool-cases, none, some, some_inj, [], ◌∷◌, ◌==◌,
  eq_iff, eq_refl, none-ne-some, if◌then◌else◌, arith,
}
use mathlib.Core.Path.{subst}
use mathlib.Core.List.{Permᴰ}
use mathlib.Core.List.Permᴰ
use go_metrics_harvester.Base.Dict.{Dict, lookup, values}
use go_metrics_harvester.Metric.{Metric}
use go_metrics_harvester.Memory.Keyed.{IsKeyed}

module _ {F : Type 0} where
  -- The map without a name.
  remove : String → Dict (Metric F) → Dict (Metric F)
  remove key [] = []
  remove key ((k, m) ∷ d) = if k == key then d else (k, m) ∷ remove key d

  lookup-remove_ne :
      (key j : String) (d : Dict (Metric F)) → key ≢ j → lookup j (remove key d) ≡ lookup j d
  unfolding lookup remove
  lookup-remove_ne key j [] n = refl
  lookup-remove_ne key j ((k, m) ∷ d) n =
      ground (arith, n, eq_iff k key, eq_iff k j, lookup-remove_ne key j d n)

  lookup-remove_self :
      (key : String) (d : Dict (Metric F)) → IsKeyed d → lookup key (remove key d) ≡ none
  unfolding lookup remove
  lookup-remove_self key [] h = refl
  lookup-remove_self key ((k, m) ∷ d) (e, new, h) =
      ground (arith, eq_iff k key, lookup-remove_self key d h)

  remove-IsKeyed : (key : String) (d : Dict (Metric F)) → IsKeyed d → IsKeyed (remove key d)
  unfolding lookup remove
  remove-IsKeyed key [] h = tt
  remove-IsKeyed key ((k, m) ∷ d) (e, new, h) =
      ground (arith, eq_iff k key, eq_iff key k, remove-IsKeyed key d h, lookup-remove_ne key k d)

  values-remove :
      (key : String) (m : Metric F) (d : Dict (Metric F))
      → lookup key d ≡ some m
      → Permᴰ (values d) (m ∷ values (remove key d))
  unfolding lookup remove values
  values-remove key m [] e = absurd (cc e)
  values-remove key m ((k, n) ∷ d) e = elim (Bool-cases (k == key)) [
    | inl same ↦ rw same (Permᴰ.cons (some_inj (rw same at e)) (Permᴰ.refl (values d)))
    | inr other ↦ rw other (
        Permᴰ.trans (Permᴰ.cons refl (values-remove key m d (rw other at e)))
          (Permᴰ.swap refl refl))
  ]

  lookup-head : (k : String) (m : Metric F) (d : Dict (Metric F)) → lookup k ((k, m) ∷ d) ≡ some m
  unfolding lookup
  lookup-head k m d = rw (eq_refl k) refl

  rest-same :
      (k j : String) (m : Metric F) (d d' : Dict (Metric F))
      → lookup k d ≡ none
      → IsKeyed d'
      → lookup j ((k, m) ∷ d) ≡ lookup j d'
      → lookup j d ≡ lookup j (remove k d')
  unfolding lookup
  rest-same k j m d d' new h same = elim (Bool-cases (k == j)) [
    | inl eq ↦
        let p : k ≡ j = (eq_iff k j).0 eq in
        subst (λ i. lookup i d ≡ lookup i (remove k d')) p (new ∙ sym (lookup-remove_self k d' h))
    | inr ne ↦ (rw ne at same) ∙ sym (lookup-remove_ne k j d' (λ p. cc (ne, (eq_iff k j).1 p)))
  ]

  -- Maps that hold the same have the same values, up to their order.
  pub values-perm :
      (d d' : Dict (Metric F))
      → IsKeyed d
      → IsKeyed d'
      → ((key : String) → lookup key d ≡ lookup key d')
      → Permᴰ (values d) (values d')
  unfolding values lookup
  values-perm [] [] h h' same = Permᴰ.nil
  values-perm [] ((k, m) ∷ d') h h' same = absurd (none-ne-some (same k ∙ lookup-head k m d'))
  values-perm ((k, m) ∷ d) d' (e, new, h) h' same =
      let found : lookup k d' ≡ some m = sym (same k) ∙ lookup-head k m d in
      Permᴰ.trans
        (Permᴰ.cons refl (
          values-perm d (remove k d') h (remove-IsKeyed k d' h')
            (λ j. rest-same k j m d d' new h' (same j))))
        (Permᴰ.symm (values-remove k m d' found))
