-- ===== src/Memory/Restore.antt =====
-- A store that is written with Persist and read back with NewFrom, in whatever order the map was
-- visited.
use go_metrics_harvester.Base.{
  ℕ, String, ◌≡◌, ◌≢◌, inl, inr, refl, sym, ap, ◌∙◌, Option, none, some, List, [], ◌∷◌, ◌++◌, ◌==◌,
  eq_iff, arith, if◌then◌else◌, Outcome, ok, err, Sum-cases, Error, Action,
}
use mathlib.Core.List.{Permᴰ}
use mathlib.Core.Path.{subst₂}
use go_metrics_harvester.Base.Dict.{Dict, lookup, assign, values, lookup-assign}
use go_metrics_harvester.Metric.{Metric}
use go_metrics_harvester.Metric.Json.{Json, ReadsBack}
use go_metrics_harvester.Memory.{Storage, get, load, new_from, persist}
use go_metrics_harvester.Memory.Keyed.{IsKeyed}

module _ {F : Type 0} where
  -- The first metric of a list with a name.
  find : String → List (Metric F) → Option (Metric F)
  find key [] = none
  find key (m ∷ l) = if m.id == key then some m else find key l

  abbrev or_else : Option (Metric F) → Option (Metric F) → Option (Metric F)
  or_else none o = o
  or_else (some m) o = some m

  -- No two metrics of the list share a name.
  abbrev IsDistinct : List (Metric F) → Type 0
  IsDistinct [] = Unit
  IsDistinct (m ∷ l) = (find m.id l ≡ none) × IsDistinct l

  find-values :
      (key : String) (d : Dict (Metric F)) → IsKeyed d → find key (values d) ≡ lookup key d
  unfolding find values lookup
  find-values key [] h = refl
  find-values key ((k, m) ∷ d) (e, _, h) = ground (arith, find-values key d h)

  values-IsDistinct : (d : Dict (Metric F)) → IsKeyed d → IsDistinct (values d)
  unfolding values
  values-IsDistinct [] h = tt
  values-IsDistinct ((k, m) ∷ d) (e, new, h) =
      (find-values m.id d h ∙ ap (λ j. lookup j d) e ∙ new, values-IsDistinct d h)

  find_swap :
      (key : String) (x y : Metric F) (l : List (Metric F))
      → IsDistinct (x ∷ y ∷ l)
      → find key (x ∷ y ∷ l) ≡ find key (y ∷ x ∷ l)
  unfolding find
  find_swap key x y l h = ground (arith, eq_iff y.id x.id, eq_iff x.id key, eq_iff y.id key)

  IsDistinct-swap :
      (x y : Metric F) (l : List (Metric F)) → IsDistinct (x ∷ y ∷ l) → IsDistinct (y ∷ x ∷ l)
  unfolding find
  IsDistinct-swap x y l h = ground (arith, eq_iff y.id x.id, eq_iff x.id y.id)

  -- A rearrangement of distinct names keeps them distinct, and finds the same metrics.
  perm-IsDistinct :
      {l l' : List (Metric F)}
      → Permᴰ l l'
      → IsDistinct l
      → ((key : String) → find key l ≡ find key l') × IsDistinct l'
  unfolding find
  perm-IsDistinct Permᴰ.nil h = (λ key. refl, tt)
  perm-IsDistinct (Permᴰ.cons {a = x} {b = y} {l₁ = l} e p) h =
      let (same, h') = perm-IsDistinct p h.1 in
      (
        λ key. ground (arith, same key),
        (sym (same y.id) ∙ ap (λ (m : Metric F). find m.id l) (sym e) ∙ h.0, h'),
      )
  perm-IsDistinct (Permᴰ.swap {a = x} {b = y} {a' = y'} {b' = x'} {l = l} e f) h = (
    λ key. find_swap key x y l h ∙ (λ i. find key (f i ∷ e i ∷ l)),
    subst₂ (λ a b. IsDistinct (a ∷ b ∷ l)) f e (IsDistinct-swap x y l h),
  )
  perm-IsDistinct (Permᴰ.trans p q) h =
      let (same, h') = perm-IsDistinct p h in
      let (same', h'') = perm-IsDistinct q h' in (λ key. same key ∙ same' key, h'')

  lookup-load :
      (key : String) (l : List (Metric F)) (d : Dict (Metric F))
      → IsDistinct l
      → lookup key (load l d) ≡ or_else (find key l) (lookup key d)
  unfolding load find
  lookup-load key [] d h = refl
  lookup-load key (m ∷ l) d (new, h) =
      ground
        (arith, lookup-load key l (assign m.id m d) h, lookup-assign m.id key m d, eq_iff m.id key)

  or_else-empty : (key : String) (o : Option (Metric F)) → or_else o (lookup key []) ≡ o
  unfolding lookup
  or_else-empty key none = refl
  or_else-empty key (some m) = refl

  lookup-load-values :
      (visit : List (Metric F) → List (Metric F)) (key : String) (d : Dict (Metric F))
      → ((l : List (Metric F)) → Permᴰ l (visit l))
      → IsKeyed d
      → lookup key (load (visit (values d)) []) ≡ lookup key d
  lookup-load-values visit key d shuffles h =
      let (same, distinct) = perm-IsDistinct (shuffles (values d)) (values-IsDistinct d h) in
      lookup-load key (visit (values d)) [] distinct
      ∙ ap (λ o. or_else o (lookup key [])) (sym (same key) ∙ find-values key d h)
      ∙ or_else-empty key (lookup key d)

err-ne-ok : {e : Error} → ◌≢◌ {A = Outcome (Unit {0})} (err e) (ok tt)
err-ne-ok p = cc p

-- From what Persist hands to its writer, and anything behind that, NewFrom makes a storage that
-- holds under every name what the persisted one held.
pub new_from-persist :
    {F W : Type 0} (visit : List (Metric F) → List (Metric F)) (json : Json F)
    (dest : List ℕ → Action W (Unit {0})) (s : Storage F) (w : W)
    → ((l : List (Metric F)) → Permᴰ l (visit l))
    → ReadsBack json
    → IsKeyed s.storage
    → (persist visit json dest s w).0 ≡ ok tt
    → (b : List ℕ) × (s' : Storage F) × (persist visit json dest s w ≡ dest b w)
      × ((rest : List ℕ) → new_from json (b ++ rest) ≡ inr s')
      × ((key : String) → get key s' ≡ get key s)
unfolding persist new_from get
new_from-persist visit json dest s w shuffles reads h r =
    elim (Sum-cases (json.encode (visit (values s.storage)))) [
      | inl (e, refused) ↦ absurd (err-ne-ok (rw (refused, persist) at r))
      | inr (b, wrote) ↦ (
        b,
        record { storage = load (visit (values s.storage)) [] },
        rw (wrote, persist),
        λ rest. rw (reads.decode-encode _ b rest wrote, new_from),
        λ key. lookup-load-values visit key s.storage shuffles h,
      )
    ]
