-- ===== src/Memory/Pointers.antt =====
-- internal/storage/memory/memory.go with its pointers to deltas: Set and Update add through the
-- pointer that the map holds, which is the one that the first Set of the name was given, and which Get
-- hands out. A pointer to a value is never written through, so that it stays the value.
pub mod Apart
pub mod Refines
pub mod Batches
pub mod Shared
use go_metrics_harvester.Base.{
  ℕ, String, Bool, true, false, ◌&&◌, ◌||◌, Option, none, some, List, [], ◌∷◌, ◌==◌, nat_eq,
  is_none, if◌then◌else◌, Error, metric_malformed, Outcome, ok, err, panic, Action, pure, fail,
  ◌>>=◌, ◌>>◌,
}
use mathlib.Core.Option
use go_metrics_harvester.Base.Dict.{Dict, lookup, assign}
use go_metrics_harvester.Metric.{Metric, gauge, counter, add_int64}
use go_metrics_harvester.Memory.{Storage}

-- A metric as the code has it: `delta` is an address.
pub record Pointing (F : Type 0) : Type 0 where
  pub id : String
  pub mtype : String
  pub delta : Option ℕ
  pub value : Option F

-- What is at each address.
abbrev pub Heap : Type 0
Heap = ℕ → ℕ

abbrev pub write_at : ℕ → ℕ → Heap → Heap
write_at p n h q = if nat_eq p q then n else h q

pub record PointerStorage (F : Type 0) : Type 0 where
  pub storage : Dict (Pointing F)
  pub heap : Heap

module _ {F : Type 0} where
  -- What the pointers point to.
  abbrev pub deref : Heap → Pointing F → Metric F
  deref h m = record { id = m.id; mtype = m.mtype; delta = Option.map h m.delta; value = m.value }

  unfoldable pub view : Heap → Dict (Pointing F) → Dict (Metric F)
  view h [] = []
  view h ((k, m) ∷ l) = (k, deref h m) ∷ view h l

  abbrev pub seen : PointerStorage F → Storage F
  seen s = record { storage = view s.heap s.storage }

  abbrev pub set_value_at : Pointing F → Option F → Heap → Outcome (Pointing F × Heap)
  set_value_at v none h = panic
  set_value_at v (some x) h = ok (record v { value = some x }, h)

  -- *v.Delta += *value.Delta
  abbrev pub add_delta_at : Pointing F → Option ℕ → Option ℕ → Heap → Outcome (Pointing F × Heap)
  add_delta_at v none _ h = panic
  add_delta_at v (some p) none h = panic
  add_delta_at v (some p) (some q) h = ok (v, write_at p (add_int64 (h p) (h q)) h)

  unfoldable pub merge_at : Pointing F → Pointing F → Heap → Outcome (Pointing F × Heap)
  merge_at v value h =
      if value.mtype == gauge
      then set_value_at v value.value h
      else if value.mtype == counter
      then add_delta_at v v.delta value.delta h
      else ok (v, h)

  abbrev pub store_at : String → Outcome (Pointing F × Heap) → Action (PointerStorage F) (Unit {0})
  store_at key (ok (v, h)) s = (ok tt, record { storage = assign key v s.storage; heap = h })
  store_at key (err e) s = (err e, s)
  store_at key panic s = (panic, s)

  abbrev pub found_at : Pointing F → Option (Pointing F) → Action (PointerStorage F) (Unit {0})
  found_at value none s = store_at value.id (ok (value, s.heap)) s
  found_at value (some v) s = store_at value.id (merge_at v value s.heap) s

  unfoldable pub upsert_at : Pointing F → Action (PointerStorage F) (Unit {0})
  unfolding merge_at
  upsert_at value s = found_at value (lookup value.id s.storage) s

  unfoldable pub is_malformed_at : Pointing F → Bool
  is_malformed_at m =
      (m.mtype == counter && is_none m.delta) || (m.mtype == gauge && is_none m.value)

  unfoldable pub set_at : Pointing F → Action (PointerStorage F) (Unit {0})
  unfolding upsert_at is_malformed_at
  set_at value = if is_malformed_at value then fail metric_malformed else upsert_at value

  unfoldable pub get_at : String → PointerStorage F → Option (Pointing F)
  get_at key s = lookup key s.storage

  unfoldable pub update_at : List (Pointing F) → Action (PointerStorage F) (Unit {0})
  unfolding upsert_at
  update_at [] = pure tt
  update_at (value ∷ m) = upsert_at value >> update_at m
