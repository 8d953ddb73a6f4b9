-- ===== src/Programs/Serving/Restarted.antt =====
-- A server that is started on the file that an earlier server left, however its run went.
use go_metrics_harvester.Base.{
  some_inj, ℕ, String, ◌≡◌, inr, ap, ◌∙◌, false, true, Option, some, List, ok,
}
use mathlib.Core.List.{Permᴰ}
use go_metrics_harvester.Metric.{Metric}
use go_metrics_harvester.Metric.Json.{Json, ReadsBack}
use go_metrics_harvester.Memory
use go_metrics_harvester.Memory.{Storage}
use go_metrics_harvester.Memory.Keyed.{IsKeyed, new_from-IsKeyed}
use go_metrics_harvester.Memory.Observed.{Call, observe, observe-SameView}
use go_metrics_harvester.Service.{Disk}
use go_metrics_harvester.Service.Saving.{Overwrites}
use go_metrics_harvester.Postgres.Driver.{Database}
use go_metrics_harvester.Server.Config.{Config}
use go_metrics_harvester.Programs.ServerStart.{in_memory, Files, open_store}
use go_metrics_harvester.Programs.Restart.{Sizes, RefusesEmpty, open_store-eq}
use go_metrics_harvester.Programs.Serving.{Process, start, Reach}
use go_metrics_harvester.Programs.Serving.SavedFile.{
  KeepsOnFailure, last_write, IsSaved, untouched, saved, Reach-IsSaved,
}

module _ {F : Type 0} (json : Json F) (disk : Disk) (path : String) where
  -- What the file of a written storage is read as.
  restored :
      {d d' : disk.State} {o : Option (Storage F)} {w : Storage F}
      (visit : List (Metric F) → List (Metric F))
      → ((l : List (Metric F)) → Permᴰ l (visit l))
      → IsSaved json disk path d d' o
      → o ≡ some w
      → (u : Storage F) × (Memory.new_from json (disk.read path d') ≡ inr u)
        × ((calls : List (Call F)) → observe visit calls u ≡ observe visit calls w)
  restored visit shuffles (untouched same) e = cc e
  restored visit shuffles (saved {w = w'} u read view keyed) e =
      let p : w' ≡ _ = some_inj e in
      (
        u,
        read,
        λ calls.
            observe-SameView visit calls u w' shuffles (new_from-IsKeyed json _ u read) keyed view
            ∙ ap (observe visit calls) p,
      )

module _ {F : Type 0} (visit : List (Metric F) → List (Metric F)) (json : Json F) (disk : Disk)
    (files : Files disk) (db : Database F) where
  -- A server in memory that is killed or ends behind any step of any run, and is started again on the
  -- disk it left with restoring on and no database named: if some write of the run was made, none of
  -- them failed, and the new start can open the file and ask for its size, then the start returns no
  -- error, and no sequence of calls of Set, Update, Get and List tells its storage from the old one at
  -- the last write, where a list counts up to its order. It does not matter how the two loops and the
  -- handlers shared the file, which stands open in several of them at once. A range over a map has to
  -- visit each value once, the decoder to read back what the encoder wrote and to refuse an empty
  -- text, a write to cover the old text as far as it reaches, an open, failed or not, to keep the
  -- text, Stat to tell its length, and the storage at the start of the run to have each metric under
  -- its name, once.
  pub open_store-Reach :
      (cfg : Config) (storage w : Storage F) (d : disk.State) (t : Process F disk) (s : db.State)
      (n : ℕ)
      (r : Reach visit json disk cfg.file_storage_path cfg.store_interval
        (start cfg.store_interval storage d)
        t)
      → ((l : List (Metric F)) → Permᴰ l (visit l))
      → ReadsBack json
      → RefusesEmpty json
      → Overwrites disk
      → KeepsOnFailure disk
      → Sizes files
      → IsKeyed storage.storage
      → t.torn ≡ false
      → last_write visit json disk cfg.file_storage_path cfg.store_interval r ≡ some w
      → cfg.database_dsn ≡ ""
      → cfg.restore ≡ true
      → (files.open_or_create cfg.file_storage_path t.disk_state).0 ≡ ok tt
      → files.size cfg.file_storage_path (files.open_or_create cfg.file_storage_path t.disk_state).1
        ≡ inr n
      → (u : Storage F) × (open_store json disk files db cfg (t.disk_state, s)
          ≡ (ok (in_memory u), ((files.open_or_create cfg.file_storage_path t.disk_state).1, s)))
        × ((calls : List (Call F)) → observe visit calls u ≡ observe visit calls w)
  open_store-Reach cfg storage w d t s n r shuffles reads refuses over keeps sizes keyed whole last
        dsn on opened stat =
      let path = cfg.file_storage_path in
      let (u, read, view) =
        restored json disk path visit shuffles
          (Reach-IsSaved visit json disk path cfg.store_interval shuffles reads over keeps r keyed
            whole)
          last in
      (
        u,
        open_store-eq json disk files db cfg u t.disk_state s n sizes refuses dsn on opened stat
            read,
        view,
      )
