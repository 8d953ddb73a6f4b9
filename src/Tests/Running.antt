-- ===== src/Tests/Running.antt =====
-- Runs of the server over the disk of one file.
use go_metrics_harvester.Base.{List, ℕ, ◌≡◌, ◌≢◌, inl, refl, some, [], ◌∷◌, ok, arith, true}
use mathlib.Core.List.{reverse}
use go_metrics_harvester.Base.Dict.{lookup, assign, values}
use go_metrics_harvester.Memory
use go_metrics_harvester.Memory.{Storage}
use go_metrics_harvester.Memory.Observed.{Call, observe}
use go_metrics_harvester.Programs.ServerStart.{in_memory, open_store}
use go_metrics_harvester.Programs.Serving.{
  Which, http, opened, returned, exited, fatal, Process, start, put_at, write, selecting,
  stopping_grpc, update, accept_request, tick, save, Reach, here, next,
}
use go_metrics_harvester.Programs.Serving.SavedFile.{KeepsOnFailure, IsSaved, Reach-IsSaved}
use go_metrics_harvester.Programs.Serving.Restarted.{open_store-Reach}
use go_metrics_harvester.Programs.Serving.Losses.{Ends, comes_to_exit, comes_to_drop}
use go_metrics_harvester.Programs.Serving.Unsaved.{IsUnsaved, disk_state-Reach}
use go_metrics_harvester.Tests.Samples.{
  count_of, counting, codec, codec-ReadsBack, reverse-Permᴰ, one_file, one_file-Overwrites,
}
use go_metrics_harvester.Tests.Databases.{one_table}
use go_metrics_harvester.Tests.Starts.{files, files-Sizes, codec-RefusesEmpty, in_file}

-- Opens what the runs compute with.
serving : Unit {0}
unfolding Memory.update Memory.upsert Memory.merge Memory.persist lookup assign values
serving = tt

one_file-KeepsOnFailure : KeepsOnFailure one_file
one_file-KeepsOnFailure = record { read-open_failed = λ path d n. refl }

abbrev begun : Process ℕ one_file
begun = start 5 counting (1 ∷ 2 ∷ 3 ∷ [])

-- One request, which has added 3 to the counter while a loop had the file open.
abbrev added : Process ℕ one_file
added = record begun {
  requests = 1;
  storage = (Memory.update (count_of 3 ∷ []) counting).1;
  loop = put_at http opened begun.loop;
}

begun-added : Reach reverse codec one_file "m.json" 5 begun added
begun-added =
    next (next (next here (accept_request tt refl)) (tick http tt refl refl))
      (update (count_of 3 ∷ []) tt (inl (omega arith)))

-- The loop has written it.
begun-written :
    Reach reverse codec one_file "m.json" 5 begun
      (record (write reverse codec one_file "m.json" added) {
        loop = put_at http selecting added.loop;
      })
begun-written = next begun-added (save http tt refl)

abbrev eight : Storage ℕ
eight = record { storage = ("c", count_of 8) ∷ [] }

Reach-IsSaved_example :
    IsSaved codec one_file "m.json" (1 ∷ 2 ∷ 3 ∷ []) (1 ∷ 8 ∷ 3 ∷ []) (some eight)
unfolding serving begun-written
Reach-IsSaved_example =
    Reach-IsSaved reverse codec one_file "m.json" 5 reverse-Permᴰ codec-ReadsBack
      one_file-Overwrites one_file-KeepsOnFailure begun-written (refl, refl, tt) refl

open_store-Reach_example :
    (u : Storage ℕ) × (open_store codec one_file files one_table in_file (1 ∷ 8 ∷ 3 ∷ [], [])
      ≡ (ok (in_memory u), (1 ∷ 8 ∷ 3 ∷ [], [])))
    × ((calls : List (Call ℕ)) → observe reverse calls u ≡ observe reverse calls eight)
unfolding serving begun-written
open_store-Reach_example =
    open_store-Reach reverse codec one_file files one_table in_file counting eight (1 ∷ 2 ∷ 3 ∷ [])
      _ [] 3 begun-written reverse-Permᴰ codec-ReadsBack codec-RefusesEmpty one_file-Overwrites
      one_file-KeepsOnFailure files-Sizes (refl, refl, tt) refl refl refl refl refl refl

-- The request is stored, and no loop is at the file.
abbrev unsaved : Process ℕ one_file
unsaved = record begun { requests = 1; storage = (Memory.update (count_of 3 ∷ []) counting).1 }

begun-unsaved : Reach reverse codec one_file "m.json" 5 begun unsaved
begun-unsaved =
    next (next here (accept_request tt refl)) (update (count_of 3 ∷ []) tt (inl (omega arith)))

at_select : (w : Which) → unsaved.loop w ≢ opened
at_select w e = cc e

comes_to_exit_example : Ends (Reach reverse codec one_file "m.json" 5 unsaved) unsaved exited 0
comes_to_exit_example = comes_to_exit counting (1 ∷ 2 ∷ 3 ∷ []) unsaved begun-unsaved tt at_select

comes_to_drop_example :
    Ends (Reach reverse codec one_file "m.json" 5 unsaved) unsaved fatal 1
    × Ends (Reach reverse codec one_file "m.json" 5 unsaved) unsaved exited 1
comes_to_drop_example =
    comes_to_drop counting (1 ∷ 2 ∷ 3 ∷ []) unsaved begun-unsaved tt at_select (omega arith)

-- Both loops have returned behind a signal, and a request is still stored.
abbrev signalled : Process ℕ one_file
signalled = record unsaved { cancelled = true; phase = stopping_grpc; loop = λ _. returned }

abbrev late : Process ℕ one_file
late = record signalled { storage = (Memory.update (count_of 9 ∷ []) signalled.storage).1 }

five_ne : ◌≢◌ {A = ℕ} 5 0
five_ne e = omega arith

disk_state-Reach_example : IsUnsaved late × (late.disk_state ≡ signalled.disk_state)
disk_state-Reach_example =
    disk_state-Reach {visit = reverse} {json = codec} {path = "m.json"} {store_interval = 5}
      (next here (update (count_of 9 ∷ []) tt (inl (omega arith)))) five_ne
      (record { loop-eq = λ w. refl; spawned-eq = refl; saving-eq = refl })
