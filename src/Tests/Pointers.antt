-- ===== src/Tests/Pointers.antt =====
-- A storage of two metrics with their pointers, and a batch that shares one.
use go_metrics_harvester.Base.{
  ℕ, ◌%◌, ◌^◌, ◌≡◌, ◌≢◌, refl, false, some_inj, none-ne-some, Option, none, some, List, [], ◌∷◌,
  map, nat_eq, if◌then◌else◌, arith, ok,
}
use go_metrics_harvester.Base.Dict.{lookup, assign}
use go_metrics_harvester.Metric.{gauge, counter}
use go_metrics_harvester.Memory.{update}
use go_metrics_harvester.Memory.Pointers.{
  Pointing, PointerStorage, Heap, deref, get_at, set_at, update_at, upsert_at, merge_at,
}
use go_metrics_harvester.Memory.Pointers.Apart.{IsApart, IsSeparate}
use go_metrics_harvester.Memory.Pointers.Refines.{Refines}
use go_metrics_harvester.Memory.Pointers.Batches.{IsFreshBatch, update_at-Refines}
use go_metrics_harvester.Memory.Pointers.Shared.{get_at-set_at}

abbrev count_at : ℕ → Pointing ℕ
count_at p = record { id = "c"; mtype = counter; delta = some p; value = none }

abbrev gauge_at : Pointing ℕ
gauge_at = record { id = "g"; mtype = gauge; delta = none; value = some 7 }

-- 5 at the address 1, and 3 at every other one.
abbrev numbers : Heap
numbers p = if nat_eq p 1 then 5 else 3

abbrev pointers : PointerStorage ℕ
pointers = record { storage = ("c", count_at 1) ∷ ("g", gauge_at) ∷ []; heap = numbers }

abbrev batch : List (Pointing ℕ)
batch = count_at 2 ∷ gauge_at ∷ count_at 4 ∷ []

-- The same pointer three times, in an empty storage: 3, 6 and 12, where the values make 9.
update_at_shares :
    get_at "c"
      (update_at
        (count_at 2 ∷ count_at 2 ∷ count_at 2 ∷ [])
        (record { storage = []; heap = numbers })).1
    ≡ some (count_at 2)
unfolding update_at upsert_at merge_at get_at lookup assign
update_at_shares = refl

update_at_doubles :
    (update_at
        (count_at 2 ∷ count_at 2 ∷ count_at 2 ∷ [])
        (record { storage = []; heap = numbers })).1.heap
      2
    ≡ 12
unfolding update_at upsert_at merge_at lookup assign
update_at_doubles = refl

two_addresses :
    (a b p : ℕ)
    → nat_eq a b ≡ false
    → ◌≡◌ {A = Option ℕ} (some a) (some p)
    → ◌≢◌ {A = Option ℕ} (some b) (some p)
two_addresses a b p e r t = let q = some_inj r in let q' = some_inj t in ground arith

pointers-IsSeparate : IsSeparate pointers.storage
unfolding IsSeparate IsApart
pointers-IsSeparate = (λ p e. (none-ne-some, tt), (λ p e. tt, tt))

batch-IsFreshBatch : IsFreshBatch batch pointers.storage
unfolding IsFreshBatch IsApart
batch-IsFreshBatch = (
  λ p e. (
    (two_addresses 2 1 p refl e, (none-ne-some, tt)),
    (none-ne-some, (two_addresses 2 4 p refl e, tt)),
  ),
  (
    λ p e. absurd (none-ne-some e),
    (λ p e. ((two_addresses 4 1 p refl e, (none-ne-some, tt)), tt), tt),
  ),
)

update_at-Refines_example :
    Refines (update (map (deref numbers) batch)) pointers (update_at batch pointers)
update_at-Refines_example = update_at-Refines batch pointers pointers-IsSeparate batch-IsFreshBatch

get_at-set_at_example :
    ((set_at (count_at 2) pointers).0 ≡ ok tt)
    × (get_at "c" (set_at (count_at 2) pointers).1 ≡ some (count_at 1))
    × (deref (set_at (count_at 2) pointers).1.heap (count_at 1)
        ≡ record (deref numbers (count_at 1)) { delta = some (8 % 2 ^ 64) })
unfolding get_at lookup
get_at-set_at_example = get_at-set_at (count_at 2) (count_at 1) 1 2 pointers refl refl refl refl
