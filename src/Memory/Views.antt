-- ===== src/Memory/Views.antt =====
-- internal/storage/memory/memory.go: what a call does depends on what the map holds under each name,
-- and not on how its entries lie.
use go_metrics_harvester.Base.{
  String, ◌≡◌, inl, inr, refl, sym, ap, ◌∙◌, Bool-cases, some, List, [], ◌∷◌, ◌==◌, if◌then◌else◌,
  Outcome, ok, err, panic, Action, ◌>>◌,
}
use mathlib.Core.Path.{subst, subst₂}
use go_metrics_harvester.Base.Dict.{lookup-assign}
use go_metrics_harvester.Metric.{Metric}
use go_metrics_harvester.Memory.{Storage, is_malformed, store, upsert, set, get, update}
use go_metrics_harvester.Memory.Steps.{merged, upsert-eq-store}

module _ {F : Type 0} where
  abbrev pub SameView : Storage F → Storage F → Type 0
  SameView s t = (key : String) → get key s ≡ get key t

  -- The same result, and storages that hold the same.
  abbrev pub Agree : Outcome (Unit {0}) × Storage F → Outcome (Unit {0}) × Storage F → Type 0
  Agree p q = (p.0 ≡ q.0) × SameView p.1 q.1

  store-Agree :
      (k : String) (r : Outcome (Metric F)) (s t : Storage F)
      → SameView s t
      → Agree (store k r s) (store k r t)
  unfolding get
  store-Agree k (ok v) s t same = (
    refl,
    λ key.
        lookup-assign k key v s.storage
        ∙ ap (λ o. if k == key then some v else o) (same key)
        ∙ sym (lookup-assign k key v t.storage),
  )
  store-Agree k (err e) s t same = (refl, same)
  store-Agree k panic s t same = (refl, same)

  upsert-Agree : (m : Metric F) (s t : Storage F) → SameView s t → Agree (upsert m s) (upsert m t)
  upsert-Agree m s t same =
      subst₂ Agree (sym (upsert-eq-store m s))
        (ap (λ o. store m.id (merged m o) t) (same m.id) ∙ sym (upsert-eq-store m t))
        (store-Agree m.id (merged m (get m.id s)) s t same)

  pub set-Agree : (m : Metric F) (s t : Storage F) → SameView s t → Agree (set m s) (set m t)
  unfolding set
  set-Agree m s t same = elim (Bool-cases (is_malformed m)) [
    | inl bad ↦ rw (bad, set) (refl, same)
    | inr good ↦ rw (good, set) (upsert-Agree m s t same)
  ]

  then_same :
      (k : Action (Storage F) (Unit {0})) (r : Outcome (Unit {0})) (s t s' t' : Storage F)
      → ((a b : Storage F) → SameView a b → Agree (k a) (k b))
      → SameView s' t'
      → Agree (((λ _. (r, s')) >> k) s) (((λ _. (r, t')) >> k) t)
  then_same k (ok _) s t s' t' h same = h s' t' same
  then_same k (err e) s t s' t' h same = (refl, same)
  then_same k panic s t s' t' h same = (refl, same)

  >>-Agree :
      (m k : Action (Storage F) (Unit {0})) (s t : Storage F)
      → Agree (m s) (m t)
      → ((a b : Storage F) → SameView a b → Agree (k a) (k b))
      → Agree ((m >> k) s) ((m >> k) t)
  >>-Agree m k s t (e, same) h =
      subst (λ r. Agree ((m >> k) s) (((λ (_ : Storage F). (r, (m t).1)) >> k) t)) e
        (then_same k (m s).0 s t (m s).1 (m t).1 h same)

  pub update-Agree :
      (ms : List (Metric F)) (s t : Storage F) → SameView s t → Agree (update ms s) (update ms t)
  unfolding update
  update-Agree [] s t same = (refl, same)
  update-Agree (m ∷ ms) s t same =
      >>-Agree (upsert m) (update ms) s t (upsert-Agree m s t same) (update-Agree ms)
