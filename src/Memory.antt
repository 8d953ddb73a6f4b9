-- ===== src/Memory.antt =====
-- internal/storage/memory/memory.go. Every method holds the mutex from its first statement to its
-- return, so a call is one step of the state; the mutex itself is not in the state. A pointer to a
-- delta or a value is the value that it points to.
pub mod Steps
pub mod Totals
pub mod Safety
pub mod Typed
pub mod Keyed
pub mod Restore
pub mod Views
pub mod Bags
pub mod Observed
pub mod Pointers
use go_metrics_harvester.Base.{
  ℕ, String, ◌⊎◌, inl, inr, Bool, ◌&&◌, ◌||◌, Option, none, some, List, [], ◌∷◌, ◌==◌, is_none,
  if◌then◌else◌, Error, metric_malformed, not_supported, Outcome, ok, err, panic, Action, pure,
  fail, ◌>>=◌, ◌>>◌,
}
use go_metrics_harvester.Base.Dict.{Dict, lookup, assign, values}
use go_metrics_harvester.Metric.Json.{Json}
use go_metrics_harvester.Metric.{Metric, gauge, counter, add_int64}

pub record Storage (F : Type 0) : Type 0 where
  pub storage : Dict (Metric F)

module _ {F : Type 0} where
  -- The two guards of Set.
  unfoldable pub is_malformed : Metric F → Bool
  is_malformed m = (m.mtype == counter && is_none m.delta) || (m.mtype == gauge && is_none m.value)

  -- val := *value.Value; v.Value = &val
  abbrev pub set_value : Metric F → Option F → Outcome (Metric F)
  set_value v none = panic
  set_value v (some x) = ok (record v { value = some x })

  -- *v.Delta += *value.Delta
  abbrev pub add_delta : Metric F → Option ℕ → Option ℕ → Outcome (Metric F)
  add_delta v none _ = panic
  add_delta v (some a) none = panic
  add_delta v (some a) (some b) = ok (record v { delta = some (add_int64 a b) })

  -- The switch on value.MType, which Set and Update share: `v` is what the map holds.
  unfoldable pub merge : Metric F → Metric F → Outcome (Metric F)
  merge v value =
      if value.mtype == gauge
      then set_value v value.value
      else if value.mtype == counter
      then add_delta v v.delta value.delta
      else ok v

  abbrev pub store : String → Outcome (Metric F) → Action (Storage F) (Unit {0})
  store key (ok v) s = (ok tt, record s { storage = assign key v s.storage })
  store key (err e) s = (err e, s)
  store key panic s = (panic, s)

  -- The body of Set and of Update's loop, from the look-up on.
  abbrev pub upsert_found : Metric F → Option (Metric F) → Action (Storage F) (Unit {0})
  upsert_found value none = store value.id (ok value)
  upsert_found value (some v) = store value.id (merge v value)

  unfoldable pub upsert : Metric F → Action (Storage F) (Unit {0})
  upsert value s = upsert_found value (lookup value.id s.storage) s

  unfoldable pub new_mem_storage : Storage F
  new_mem_storage = record { storage = [] }

  unfoldable pub set : Metric F → Action (Storage F) (Unit {0})
  set value = if is_malformed value then fail metric_malformed else upsert value

  unfoldable pub get : String → Storage F → Option (Metric F)
  get key s = lookup key s.storage

  unfoldable pub ping : Action (Storage F) (Unit {0})
  ping = fail not_supported

  unfoldable pub update : List (Metric F) → Action (Storage F) (Unit {0})
  update [] = pure tt
  update (value ∷ m) = upsert value >> update m

  -- The loop of NewFrom.
  unfoldable pub load : List (Metric F) → Dict (Metric F) → Dict (Metric F)
  load [] s = s
  load (m ∷ list) s = load list (assign m.id m s)

  unfoldable pub new_from : Json F → List ℕ → Error ⊎ Storage F
  new_from json src = elim (json.decode src) [
    | inl e ↦ inl e
    | inr list ↦ inr (record { storage = load list [] })
  ]

-- `visit` is the order in which a `range` over the map meets its values, which Go leaves open.
module _ {F : Type 0} (visit : List (Metric F) → List (Metric F)) where
  unfoldable pub list : Storage F → List (Metric F)
  list s = visit (values s.storage)

  -- `dest` writes bytes to the writer, whose state is `W`.
  unfoldable pub persist :
      {W : Type 0} → Json F → (List ℕ → Action W (Unit {0})) → Storage F → Action W (Unit {0})
  unfolding list
  persist json dest s = elim (json.encode (list s)) [ inl e ↦ fail e | inr b ↦ dest b ]
