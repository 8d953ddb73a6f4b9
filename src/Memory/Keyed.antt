-- ===== src/Memory/Keyed.antt =====
-- internal/storage/memory/memory.go: the names under which the entries of the map stand.
use go_metrics_harvester.Base.{
  ℕ, Sum-cases, inl-ne-inr, inr_inj, String, ◌≡◌, inl, inr, refl, sym, ap, ◌∙◌, none, some, List,
  [], ◌∷◌, eq_iff, arith, Outcome, ok, err, panic, Option-cases,
}
use go_metrics_harvester.Base.Dict.{Dict, lookup, assign, lookup-assign_ne}
use go_metrics_harvester.Metric.{Metric}
use go_metrics_harvester.Memory.{Storage, merge, upsert, store, set, get, update, load, new_from}
use mathlib.Core.Path.{subst}
use go_metrics_harvester.Metric.Json.{Json}
use go_metrics_harvester.Memory.Steps.{merged, upsert-eq-store}

module _ {F : Type 0} where
  abbrev pub IsKeyed : Dict (Metric F) → Type 0
  IsKeyed [] = Unit
  IsKeyed ((key, m) ∷ d) = (m.id ≡ key) × (lookup key d ≡ none) × IsKeyed d

  pub assign-IsKeyed :
      (key : String) (m : Metric F) (d : Dict (Metric F))
      → m.id ≡ key
      → IsKeyed d
      → IsKeyed (assign key m d)
  unfolding assign lookup
  assign-IsKeyed key m [] e h = (e, refl, tt)
  assign-IsKeyed key m ((k, n) ∷ d) e (p, new, h) =
      ground (arith, eq_iff k key, assign-IsKeyed key m d e h, lookup-assign_ne key k m d)

  lookup-IsKeyed :
      (key : String) (m : Metric F) (d : Dict (Metric F))
      → IsKeyed d
      → lookup key d ≡ some m
      → m.id ≡ key
  unfolding lookup
  lookup-IsKeyed key m [] h e = cc
  lookup-IsKeyed key m ((k, n) ∷ d) (p, new, h) e =
      ground (arith, eq_iff k key, lookup-IsKeyed key m d h)

  id-merge : (v m w : Metric F) → merge v m ≡ ok w → w.id ≡ v.id
  unfolding merge
  id-merge v m w e = ground arith

  store-IsKeyed :
      (k : String) (r : Outcome (Metric F)) (s : Storage F)
      → ((w : Metric F) → r ≡ ok w → w.id ≡ k)
      → IsKeyed s.storage
      → IsKeyed (store k r s).1.storage
  store-IsKeyed k (ok w) s e h = assign-IsKeyed k w s.storage (e w refl) h
  store-IsKeyed k (err x) s e h = h
  store-IsKeyed k panic s e h = h

  id-merged :
      (m : Metric F) (s : Storage F) (w : Metric F)
      → IsKeyed s.storage
      → merged m (get m.id s) ≡ ok w
      → w.id ≡ m.id
  unfolding get
  id-merged m s w h e = elim (Option-cases (lookup m.id s.storage)) [
    | inl new ↦ cc (e, new)
    | inr (v, found) ↦
        id-merge v m w (ap (merged m) (sym found) ∙ e) ∙ lookup-IsKeyed m.id v s.storage h found
  ]

  upsert-IsKeyed :
      (m : Metric F) (s : Storage F) → IsKeyed s.storage → IsKeyed (upsert m s).1.storage
  upsert-IsKeyed m s h = rw upsert-eq-store (store-IsKeyed m.id _ s (λ w e. id-merged m s w h e) h)

  pub load-IsKeyed : (l : List (Metric F)) (d : Dict (Metric F)) → IsKeyed d → IsKeyed (load l d)
  unfolding load
  load-IsKeyed [] d h = h
  load-IsKeyed (m ∷ l) d h = load-IsKeyed l (assign m.id m d) (assign-IsKeyed m.id m d refl h)

  pub new_from-IsKeyed :
      (json : Json F) (src : List ℕ) (s : Storage F) → new_from json src ≡ inr s → IsKeyed s.storage
  unfolding new_from
  new_from-IsKeyed json src s e = elim (Sum-cases (json.decode src)) [
    | inl (x, refused) ↦ absurd (inl-ne-inr (rw (refused, new_from) at e))
    | inr (l, decoded) ↦
        let made : record { storage = load l [] } ≡ s = inr_inj (rw (decoded, new_from) at e) in
        subst (λ (t : Storage F). IsKeyed t.storage) made (load-IsKeyed l [] tt)
  ]

  pub set-IsKeyed : (m : Metric F) (s : Storage F) → IsKeyed s.storage → IsKeyed (set m s).1.storage
  unfolding set
  set-IsKeyed m s h = ground (arith, upsert-IsKeyed m s h)

  -- If every entry of the map stands under the name of its metric and no name has two entries, then
  -- the same is so behind Update, whatever the batch, also where Update panics half way.
  pub update-IsKeyed :
      (ms : List (Metric F)) (s : Storage F) → IsKeyed s.storage → IsKeyed (update ms s).1.storage
  unfolding update
  update-IsKeyed [] s h = h
  update-IsKeyed (m ∷ ms) s h =
      ground (arith, upsert-IsKeyed m s h, update-IsKeyed ms (upsert m s).1)
