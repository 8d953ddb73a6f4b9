-- ===== src/Tests/Storages.antt =====
-- Inputs for the memory storage.
use go_metrics_harvester.Base.{
  sym, ℕ, ◌+◌, ◌%◌, ◌≡◌, ◌↔◌, ◌⊎◌, inl, inr, refl, String, none, some, List, [], ◌∷◌, ok, panic,
  arith, eq_iff,
}
use go_metrics_harvester.Base.Dict.{lookup, assign, values}
use go_metrics_harvester.Metric.{Metric, gauge, counter}
use go_metrics_harvester.Memory.{
  get, set, update, upsert, merge, new_from, persist, load, is_malformed,
}
use go_metrics_harvester.Memory.Totals.{get-update, total, last_value}
use go_metrics_harvester.Memory.Safety.{Clashes, set_panics_iff}
use go_metrics_harvester.Memory.Typed.{IsTyped, IsTypedStore, update-IsTypedStore}
use go_metrics_harvester.Tests.Samples.{count_of, gauge_of, both, types}

-- Opens what a test of the storage computes with.
storage : Unit {0}
unfolding get set update upsert merge is_malformed lookup assign values load persist new_from
storage = tt

abbrev batch : List (Metric ℕ)
batch = count_of 3 ∷ gauge_of "g" 9 ∷ count_of 4 ∷ gauge_of "g" 2 ∷ []

update_batch :
    update batch both
    ≡ (ok tt, record { storage = ("c", count_of 12) ∷ ("g", gauge_of "g" 2) ∷ [] })
unfolding storage
update_batch = refl

abbrev top : ℕ
top = 0xffff_ffff_ffff_ffff

-- -1 and 3 make 2.
update_wraps :
    get "c" (update (count_of 3 ∷ []) (record { storage = ("c", count_of top) ∷ [] })).1
    ≡ some (count_of 2)
unfolding storage
update_wraps = refl

get-update_example :
    get "c" (update batch both).1
    ≡ some (record {
      id = "c";
      mtype = counter;
      delta = some ((5 + total "c" batch) % 0x1_0000_0000_0000_0000);
      value = last_value "c" batch none;
    })
unfolding storage
get-update_example = get-update batch (count_of 0) 5 none "c" both (omega arith) refl refl

pub count_of-IsTyped : (d : ℕ) → IsTyped types (count_of d)
count_of-IsTyped d = record {
  kind = refl;
  field = record { counts = λ _ n. cc n; measures = λ p. ground (arith, eq_iff counter gauge) };
}

gauge_of-IsTyped : (x : ℕ) → IsTyped types (gauge_of "g" x)
gauge_of-IsTyped x = record {
  kind = refl;
  field = record { counts = λ p. ground (arith, eq_iff counter gauge); measures = λ _ n. cc n };
}

get_both :
    (key : String) (m : Metric ℕ)
    → get key both ≡ some m
    → ((m ≡ count_of 5) × (key ≡ "c")) ⊎ ((m ≡ gauge_of "g" 7) × (key ≡ "g"))
unfolding storage
get_both key m e = ground (arith, eq_iff "c" key, eq_iff "g" key)

pub both-IsTypedStore : IsTypedStore types both
both-IsTypedStore = record {
  at = λ key m e. elim (get_both key m e) [
    | inl (p, q) ↦ rw p (sym q, count_of-IsTyped 5)
    | inr (p, q) ↦ rw p (sym q, gauge_of-IsTyped 7)
  ];
}

update-IsTypedStore_example :
    ((update batch both).0 ≡ ok tt) × IsTypedStore types (update batch both).1
update-IsTypedStore_example =
    update-IsTypedStore types batch both both-IsTypedStore
      (count_of-IsTyped 3, (gauge_of-IsTyped 9, (count_of-IsTyped 4, (gauge_of-IsTyped 2, tt))))

set_panics_iff_example :
    (((set (count_of 1) (record { storage = ("c", gauge_of "c" 7) ∷ [] })).0 ≡ panic)
      ↔ Clashes (count_of 1) (record { storage = ("c", gauge_of "c" 7) ∷ [] }))
    × ((set (count_of 1) (record { storage = ("c", gauge_of "c" 7) ∷ [] })
          ≡ (panic, record { storage = ("c", gauge_of "c" 7) ∷ [] }))
        ↔ Clashes (count_of 1) (record { storage = ("c", gauge_of "c" 7) ∷ [] }))
set_panics_iff_example =
    set_panics_iff (count_of 1) (record { storage = ("c", gauge_of "c" 7) ∷ [] })
