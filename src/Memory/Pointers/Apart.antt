-- ===== src/Memory/Pointers/Apart.antt =====
-- Which addresses a storage has, and what a write to one of them changes.
use go_metrics_harvester.Base.{
  ℕ, String, ◌≡◌, ◌≢◌, inl, inr, refl, sym, ap, ◌∙◌, Bool-cases, some_inj, none-ne-some, Option,
  none, some, [], ◌∷◌, ◌==◌, arith,
}
use mathlib.Core.Option
use mathlib.Core.Path.{ap₂}
use go_metrics_harvester.Base.Dict.{Dict, lookup, assign}
use go_metrics_harvester.Memory.Pointers.{Pointing, Heap, write_at, deref, view}

pub write_at_ne : (p x q : ℕ) (h : Heap) → p ≢ q → write_at p x h q ≡ h q
write_at_ne p x q h ne = ground arith

pub write_at_self : (p x : ℕ) (h : Heap) → write_at p x h p ≡ x
write_at_self p x h = ground arith

pub map-write_at :
    (o : Option ℕ) (p x : ℕ) (h : Heap)
    → o ≢ some p
    → Option.map (write_at p x h) o ≡ Option.map h o
map-write_at none p x h ne = refl
map-write_at (some q) p x h ne = ap some (write_at_ne p x q h (λ e. ne (ap some (sym e))))

module _ {F : Type 0} where
  -- No entry has the address.
  unfoldable pub IsApart : ℕ → Dict (Pointing F) → Type 0
  IsApart p [] = Unit {0}
  IsApart p ((k, m) ∷ l) = (m.delta ≢ some p) × IsApart p l

  -- No two entries have one address.
  unfoldable pub IsSeparate : Dict (Pointing F) → Type 0
  IsSeparate [] = Unit {0}
  IsSeparate ((k, m) ∷ l) = ((p : ℕ) → m.delta ≡ some p → IsApart p l) × IsSeparate l

  pub deref-write_at :
      (m : Pointing F) (p x : ℕ) (h : Heap)
      → m.delta ≢ some p
      → deref (write_at p x h) m ≡ deref h m
  deref-write_at m p x h ne =
      ap (λ d. record { id = m.id; mtype = m.mtype; delta = d; value = m.value })
        (map-write_at m.delta p x h ne)

  pub view-write_at :
      (l : Dict (Pointing F)) (p x : ℕ) (h : Heap)
      → IsApart p l
      → view (write_at p x h) l ≡ view h l
  unfolding view IsApart
  view-write_at [] p x h a = refl
  view-write_at ((k, m) ∷ l) p x h (ne, a) =
      ap₂ (λ d t. (k, d) ∷ t) (deref-write_at m p x h ne) (view-write_at l p x h a)

  pub lookup-view :
      (key : String) (h : Heap) (l : Dict (Pointing F))
      → lookup key (view h l) ≡ Option.map (deref h) (lookup key l)
  unfolding view lookup
  lookup-view key h [] = refl
  lookup-view key h ((k, m) ∷ l) = elim (Bool-cases (k == key)) [
    | inl e ↦ rw (e) refl
    | inr e ↦ rw (e) (lookup-view key h l)
  ]

  pub view-assign :
      (key : String) (m : Pointing F) (h : Heap) (l : Dict (Pointing F))
      → view h (assign key m l) ≡ assign key (deref h m) (view h l)
  unfolding view assign
  view-assign key m h [] = refl
  view-assign key m h ((k, w) ∷ l) = elim (Bool-cases (k == key)) [
    | inl e ↦ rw (e, view, assign) refl
    | inr e ↦ rw (e, view, assign) (ap (λ t. (k, deref h w) ∷ t) (view-assign key m h l))
  ]

  pub IsApart-lookup :
      (p : ℕ) (key : String) (v : Pointing F) (l : Dict (Pointing F))
      → IsApart p l
      → lookup key l ≡ some v
      → v.delta ≢ some p
  unfolding IsApart lookup
  IsApart-lookup p key v [] a e d = cc e
  IsApart-lookup p key v ((k, m) ∷ l) (ne, a) e d = elim (Bool-cases (k == key)) [
    | inl t ↦ ne (ap (λ (r : Pointing F). r.delta) (some_inj (rw (t, lookup) at e)) ∙ d)
    | inr t ↦ IsApart-lookup p key v l a (rw (t, lookup) at e) d
  ]

  pub IsApart-assign :
      (p : ℕ) (key : String) (m : Pointing F) (l : Dict (Pointing F))
      → m.delta ≢ some p
      → IsApart p l
      → IsApart p (assign key m l)
  unfolding IsApart assign
  IsApart-assign p key m [] ne a = (ne, tt)
  IsApart-assign p key m ((k, w) ∷ l) ne (ne', a) = elim (Bool-cases (k == key)) [
    | inl t ↦ rw (t, assign) (ne, a)
    | inr t ↦ rw (t, assign) (ne', IsApart-assign p key m l ne a)
  ]

  -- A write through the pointer of an entry changes that entry and no other.
  pub view-assign-write_at :
      (key : String) (v : Pointing F) (p x : ℕ) (h : Heap) (l : Dict (Pointing F))
      → v.delta ≡ some p
      → lookup key l ≡ some v
      → IsSeparate l
      → view (write_at p x h) (assign key v l)
        ≡ assign key (record (deref h v) { delta = some x }) (view h l)
  unfolding view assign lookup IsSeparate
  view-assign-write_at key v p x h [] d e s = absurd (none-ne-some e)
  view-assign-write_at key v p x h ((k, m) ∷ l) d e (apart, s) = elim (Bool-cases (k == key)) [
    | inl t ↦
        let same : m ≡ v = some_inj (rw (t, lookup) at e) in
        let others = view-write_at l p x h (apart p (ap (λ (r : Pointing F). r.delta) same ∙ d)) in
        let mine : deref (write_at p x h) v ≡ record (deref h v) { delta = some x } =
          ap (λ o. record { id = v.id; mtype = v.mtype; delta = o; value = v.value })
            (ap (Option.map (write_at p x h)) d ∙ ap some (write_at_self p x h)) in
        rw (t, view, assign) (ap₂ (λ r u. (k, r) ∷ u) mine others)
    | inr t ↦
        let there = rw (t, lookup) at e in
        let other = deref-write_at m p x h (λ q. IsApart-lookup p key v l (apart p q) there d) in
        rw (t, view, assign)
          (ap₂ (λ r u. (k, r) ∷ u) other (view-assign-write_at key v p x h l d there s))
  ]

  pub IsSeparate-assign_found :
      (key : String) (v w : Pointing F) (l : Dict (Pointing F))
      → lookup key l ≡ some v
      → w.delta ≡ v.delta
      → IsSeparate l
      → IsSeparate (assign key w l)
  unfolding IsSeparate assign lookup
  IsSeparate-assign_found key v w [] e d s = absurd (none-ne-some e)
  IsSeparate-assign_found key v w ((k, m) ∷ l) e d (apart, s) = elim (Bool-cases (k == key)) [
    | inl t ↦
        let same : m ≡ v = some_inj (rw (t, lookup) at e) in
        rw (t, assign) (λ p q. apart p (ap (λ (r : Pointing F). r.delta) same ∙ sym d ∙ q), s)
    | inr t ↦
        let there = rw (t, lookup) at e in
        rw (t, assign)
          (
            λ p q.
                IsApart-assign p key w l
                  (λ r. IsApart-lookup p key v l (apart p q) there (sym d ∙ r)) (apart p q),
            IsSeparate-assign_found key v w l there d s,
          )
  ]

  pub IsSeparate-assign_new :
      (key : String) (m : Pointing F) (l : Dict (Pointing F))
      → lookup key l ≡ none
      → ((p : ℕ) → m.delta ≡ some p → IsApart p l)
      → IsSeparate l
      → IsSeparate (assign key m l)
  unfolding IsSeparate IsApart assign lookup
  IsSeparate-assign_new key m [] e fresh s = (λ p q. tt, tt)
  IsSeparate-assign_new key m ((k, w) ∷ l) e fresh (apart, s) = elim (Bool-cases (k == key)) [
    | inl t ↦ absurd (none-ne-some (sym (rw (t, lookup) at e)))
    | inr t ↦
        rw (t, assign)
          (
            λ p q. IsApart-assign p key m l (λ r. (fresh p r).0 q) (apart p q),
            IsSeparate-assign_new key m l (rw (t, lookup) at e) (λ p q. (fresh p q).1) s,
          )
  ]
