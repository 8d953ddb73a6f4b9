-- ===== src/Tests/Services.antt =====
-- Inputs for the service over the memory storage.
use go_metrics_harvester.Base.{
  ℕ, ◌≡◌, ◌⊎◌, inr, refl, String, List, [], ◌∷◌, ◌++◌, drop, length, ok, err, arith, eq_iff, Error,
  All,
}
use mathlib.Core.List.{reverse}
use go_metrics_harvester.Base.Dict.{lookup, assign, values}
use go_metrics_harvester.Metric.{Metric, gauge, counter}
use go_metrics_harvester.Memory
use go_metrics_harvester.Memory.{Storage, new_from}
use go_metrics_harvester.Memory.Steps.{merged}
use go_metrics_harvester.Service.{get, set, update, save_to_file}
use go_metrics_harvester.Service.InMemory.{memory, get-set}
use go_metrics_harvester.Service.Rules.{IsAccepted, IsRefusal, update_atomic}
use go_metrics_harvester.Service.Saving.{new_from-save_to_file}
use go_metrics_harvester.Tests.Storages.{count_of-IsTyped, both-IsTypedStore}
use go_metrics_harvester.Tests.Samples.{
  count_of, gauge_of, counting, both, types, codec, codec-ReadsBack, reverse-Permᴰ, one_file,
  one_file-Overwrites,
}

-- Opens what a test of the service computes with.
service : Unit {0}
unfolding get set update save_to_file Memory.get Memory.set Memory.update Memory.upsert Memory.merge
    Memory.is_malformed Memory.persist lookup assign values
service = tt

accepts : (m : Metric ℕ) → m.id ≡ "c" → (m.mtype ≡ gauge) ⊎ (m.mtype ≡ counter) → IsAccepted m
accepts m e t = record { named = λ p. ground (arith, eq_iff "c" ""); typed = t }

pub count_of-IsAccepted : (d : ℕ) → IsAccepted (count_of d)
count_of-IsAccepted d = accepts (count_of d) refl (inr refl)

get-set_example :
    (w : Metric ℕ) × (s' : Storage ℕ) × (merged (count_of 3) (Memory.get "c" both) ≡ ok w)
    × (set (memory {W = ℕ} reverse codec) (count_of 3) both ≡ (ok tt, s'))
    × (get (memory {W = ℕ} reverse codec) "c" counter s' ≡ (ok w, s'))
get-set_example =
    get-set ℕ reverse codec types (count_of 3) both both-IsTypedStore (count_of-IsTyped 3)
      (accepts (count_of 3) refl (inr refl))

update_atomic_example :
    (All IsAccepted (gauge_of "" 1 ∷ [])
      × (update (memory {W = ℕ} reverse codec) (gauge_of "" 1 ∷ []) both
          ≡ Memory.update (gauge_of "" 1 ∷ []) both))
    ⊎ ((¬ All IsAccepted (gauge_of "" 1 ∷ []))
        × ((e : Error) × (update (memory {W = ℕ} reverse codec) (gauge_of "" 1 ∷ []) both
              ≡ (err e, both))
            × IsRefusal e))
update_atomic_example = update_atomic (memory {W = ℕ} reverse codec) (gauge_of "" 1 ∷ []) both

-- The old file was longer: its last number stays.
new_from-save_to_file_example :
    let d' =
      (save_to_file one_file (memory reverse codec) "m.json" (counting, 1 ∷ 2 ∷ 3 ∷ [])).1.1 in
    (b : List ℕ) × (s' : Storage ℕ) × (d' ≡ b ++ drop (length b) (1 ∷ 2 ∷ 3 ∷ []))
    × (new_from codec d' ≡ inr s')
    × ((key : String) → Memory.get key s' ≡ Memory.get key counting)
unfolding service
new_from-save_to_file_example =
    new_from-save_to_file reverse codec one_file "m.json" counting (1 ∷ 2 ∷ 3 ∷ []) reverse-Permᴰ
      codec-ReadsBack one_file-Overwrites (refl, refl, tt) refl

save_leaves_the_tail :
    (save_to_file one_file (memory reverse codec) "m.json" (counting, 1 ∷ 2 ∷ 3 ∷ [])).1.1
    ≡ 1 ∷ 5 ∷ 3 ∷ []
unfolding service
save_leaves_the_tail = refl
