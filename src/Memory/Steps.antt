-- ===== src/Memory/Steps.antt =====
-- One call of Set, and one round of Update's loop.
use go_metrics_harvester.Base.{
  String, ◌≡◌, ◌≢◌, refl, Option, none, some, arith, Outcome, ok, err, panic, Error,
}
use go_metrics_harvester.Base.Dict.{lookup-assign_self, lookup-assign_ne}
use go_metrics_harvester.Metric.{Metric}
use go_metrics_harvester.Memory.{Storage, merge, store, upsert, get}

module _ {F : Type 0} where
  -- What the map holds under a metric's key after a call, given what it held before.
  abbrev pub merged : Metric F → Option (Metric F) → Outcome (Metric F)
  merged value none = ok value
  merged value (some v) = merge v value

  pub upsert-eq-store :
      (value : Metric F) (s : Storage F)
      → upsert value s ≡ store value.id (merged value (get value.id s)) s
  unfolding upsert get
  upsert-eq-store value s = ground arith

  pub merge-ne-err : (v value : Metric F) (e : Error) → merge v value ≢ err e
  unfolding merge
  merge-ne-err v value e = ground arith

  get-store_ne :
      (k key : String) (r : Outcome (Metric F)) (s : Storage F)
      → k ≢ key
      → get key (store k r s).1 ≡ get key s
  unfolding get
  get-store_ne k key (ok v) s h = lookup-assign_ne k key v s.storage h
  get-store_ne k key (err e) s h = refl
  get-store_ne k key panic s h = refl

  -- A call changes no key but the metric's own.
  pub get-upsert_ne :
      (value : Metric F) (s : Storage F) (key : String)
      → value.id ≢ key
      → get key (upsert value s).1 ≡ get key s
  get-upsert_ne value s key h =
      rw upsert-eq-store (get-store_ne value.id key (merged value (get value.id s)) s h)

  get-store_self :
      (k : String) (r : Outcome (Metric F)) (s : Storage F)
      → (store k r s).0 ≡ ok tt
      → (w : Metric F) × (r ≡ ok w) × (get k (store k r s).1 ≡ some w)
  unfolding get
  get-store_self k (ok v) s h = (v, refl, lookup-assign_self k v s.storage)
  get-store_self k (err e) s h = cc
  get-store_self k panic s h = cc

  -- A call that returns leaves the merged metric under the key.
  pub get-upsert_self :
      (value : Metric F) (s : Storage F)
      → (upsert value s).0 ≡ ok tt
      → (w : Metric F) × (merged value (get value.id s) ≡ ok w)
        × (get value.id (upsert value s).1 ≡ some w)
  get-upsert_self value s h =
      rw upsert-eq-store
        (get-store_self value.id (merged value (get value.id s)) s (rw upsert-eq-store at h))
