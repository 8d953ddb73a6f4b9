-- ===== src/Memory/Observed.antt =====
-- internal/storage/memory/memory.go: what a sequence of calls lets its caller see.
use go_metrics_harvester.Base.{String, ◌≡◌, refl, ap, Option, List, [], ◌∷◌, Outcome}
use mathlib.Core.List.{Permᴰ}
use mathlib.Core.List.Permᴰ
use mathlib.Core.Quot
use mathlib.Core.Quot.{Quot}
use mathlib.Core.Path.{ap₂}
use go_metrics_harvester.Base.Dict.{values}
use go_metrics_harvester.Metric.{Metric}
use go_metrics_harvester.Memory.{Storage, set, get, update, list}
use go_metrics_harvester.Memory.Keyed.{IsKeyed, set-IsKeyed, update-IsKeyed}
use go_metrics_harvester.Memory.Views.{SameView, set-Agree, update-Agree}
use go_metrics_harvester.Memory.Bags.{values-perm}

-- A call of the storage.
pub data Call (F : Type 0) : Type 0 where
  setting : Metric F → Call F
  updating : List (Metric F) → Call F
  getting : String → Call F
  listing : Call F

-- Lists up to their order, as a caller of List has to take them.
abbrev pub Bag : Type 0 → Type 0
Bag A = Quot (Permᴰ {A = A})

-- What a call gives back.
pub data Seen (F : Type 0) : Type 0 where
  returned : Outcome (Unit {0}) → Seen F
  found : Option (Metric F) → Seen F
  listed : Bag (Metric F) → Seen F

module _ {F : Type 0} (visit : List (Metric F) → List (Metric F)) where
  abbrev perform : Call F → Storage F → Seen F × Storage F
  perform (setting m) s = let (r, s') = set m s in (returned r, s')
  perform (updating ms) s = let (r, s') = update ms s in (returned r, s')
  perform (getting key) s = (found (get key s), s)
  perform listing s = (listed (Quot.mk (list visit s)), s)

  unfoldable pub observe : List (Call F) → Storage F → List (Seen F)
  observe [] s = []
  observe (call ∷ calls) s = (perform call s).0 ∷ observe calls (perform call s).1

  -- Two storages that a caller cannot tell apart.
  record Alike (s t : Storage F) : Type 0 where
    same : SameView s t
    left : IsKeyed s.storage
    right : IsKeyed t.storage

  perform-Alike :
      (call : Call F) (s t : Storage F)
      → ((l : List (Metric F)) → Permᴰ l (visit l))
      → Alike s t
      → ((perform call s).0 ≡ (perform call t).0) × Alike (perform call s).1 (perform call t).1
  unfolding list get
  perform-Alike (setting m) s t shuffles h =
      let (e, same) = set-Agree m s t h.same in
      (
        ap returned e,
        record { same = same; left = set-IsKeyed m s h.left; right = set-IsKeyed m t h.right },
      )
  perform-Alike (updating ms) s t shuffles h =
      let (e, same) = update-Agree ms s t h.same in
      (
        ap returned e,
        record {
          same = same;
          left = update-IsKeyed ms s h.left;
          right = update-IsKeyed ms t h.right;
        },
      )
  perform-Alike (getting key) s t shuffles h = (ap found (h.same key), h)
  perform-Alike listing s t shuffles h =
      let p = values-perm s.storage t.storage h.left h.right h.same in
      (
        ap listed (
            Quot.sound (
              Permᴰ.trans (Permᴰ.symm (shuffles (values s.storage)))
                (Permᴰ.trans p (shuffles (values t.storage))))),
        h,
      )

  -- Two storages that hold the same under every name, each with every metric under its name and once,
  -- give the same to any sequence of calls of Set, Update, Get and List, panics and errors included,
  -- where a list counts up to its order.
  pub observe-SameView :
      (calls : List (Call F)) (s t : Storage F)
      → ((l : List (Metric F)) → Permᴰ l (visit l))
      → IsKeyed s.storage
      → IsKeyed t.storage
      → SameView s t
      → observe calls s ≡ observe calls t
  unfolding observe
  observe-SameView [] s t shuffles k k' same = refl
  observe-SameView (call ∷ calls) s t shuffles k k' same =
      let (e, h) = perform-Alike call s t shuffles (record { same = same; left = k; right = k' }) in
      ap₂ (λ x l. x ∷ l) e
        (observe-SameView calls (perform call s).1 (perform call t).1 shuffles h.left h.right
          h.same)
