-- ===== src/Programs/Restart.antt =====
-- A server that is started again on the file that its last run saved.
use go_metrics_harvester.Base.{
  inl-ne-inr, ℕ, ◌<◌, String, ◌≡◌, inl, inr, refl, ap, ◌∙◌, true, List, [], ◌∷◌, ltb, lt→ltb,
  length, eq_iff, if◌then◌else◌, arith, Error, Outcome, ok, pure, ◌>>=◌, ◌>>◌, >>-of_ok, lifted,
}
use mathlib.Core.List.{Permᴰ}
use go_metrics_harvester.Metric.{Metric}
use go_metrics_harvester.Metric.Json.{Json, ReadsBack}
use go_metrics_harvester.Memory
use go_metrics_harvester.Memory.{Storage}
use go_metrics_harvester.Memory.Keyed.{IsKeyed}
use go_metrics_harvester.Service.{Disk, save_to_file}
use go_metrics_harvester.Service.InMemory.{memory}
use go_metrics_harvester.Service.Saving.{Overwrites, new_from-save_to_file}
use go_metrics_harvester.Postgres
use go_metrics_harvester.Postgres.Driver.{Database}
use go_metrics_harvester.Server.Config.{Config}
use go_metrics_harvester.Programs.ServerStart.{
  Store, in_memory, in_database, Files, on_left, on_right, stored, choose, restore, sized,
  read_back, open_store,
}

-- What main relies on: an open leaves the contents as they are, and Stat tells their length.
pub record Sizes {disk : Disk} (files : Files disk) : Type 0 where
  pub read-open_or_create :
      (path : String) (d : disk.State)
      → (files.open_or_create path d).0 ≡ ok tt
      → disk.read path (files.open_or_create path d).1 ≡ disk.read path d
  pub size-length :
      (path : String) (d : disk.State) (n : ℕ)
      → files.size path d ≡ inr n
      → n ≡ length (disk.read path d)

-- A decoder that has no value in an empty text, as encoding/json has none.
pub record RefusesEmpty {F : Type 0} (json : Json F) : Type 0 where
  pub decode_nothing : (e : Error) × (json.decode [] ≡ inl e)

module _ {F : Type 0} (json : Json F) (disk : Disk) (files : Files disk) (db : Database F) where
  -- What NewFrom reads a storage from is not empty.
  length-pos :
      RefusesEmpty json
      → (text : List ℕ) (t : Storage F) → Memory.new_from json text ≡ inr t
      → 0 < length text
  unfolding Memory.new_from
  length-pos refuses [] t e =
      let (x, fails) = refuses.decode_nothing in
      absurd (inl-ne-inr (rw (fails, Memory.new_from) at e))
  length-pos refuses (b ∷ text) t e = omega arith

  -- A file from which a storage is read, with no database named.
  sized-in_memory :
      (cfg : Config) (store : Store F) (t : Storage F) (d : disk.State) (s : db.State) (n : ℕ)
      → RefusesEmpty json
      → cfg.database_dsn ≡ ""
      → n ≡ length (disk.read cfg.file_storage_path d)
      → Memory.new_from json (disk.read cfg.file_storage_path d) ≡ inr t
      → sized json disk files db cfg store (inr n) (d, s) ≡ (ok (in_memory t), (d, s))
  sized-in_memory cfg store t d s n refuses dsn long read =
      let text = disk.read cfg.file_storage_path d in
      let filled = ap (ltb 0) long ∙ lt→ltb 0 (length text) (length-pos refuses text t read) in
      ap (λ b. if b then read_back json disk files db cfg text (d, s) else (ok store, (d, s)))
        filled
      ∙ ap
          (λ b.
            (if b
                then lifted (stored (Memory.new_from json text))
                else on_right (Postgres.new_from db json text cfg.database_dsn >> pure in_database))
              (d, s))
          ((eq_iff cfg.database_dsn "").1 dsn)
      ∙ ap (λ r. lifted (stored r) (d, s)) read

  choose-in_memory :
      (cfg : Config) (s : disk.State × db.State)
      → cfg.database_dsn ≡ ""
      → choose json disk files db cfg s ≡ (ok (in_memory (record { storage = [] })), s)
  unfolding choose
  choose-in_memory cfg s dsn = rw ((eq_iff cfg.database_dsn "").1 dsn, choose) refl

  -- A start in memory on a file from which a storage is read.
  pub open_store-eq :
      (cfg : Config) (t : Storage F) (d : disk.State) (s : db.State) (n : ℕ)
      → Sizes files
      → RefusesEmpty json
      → cfg.database_dsn ≡ ""
      → cfg.restore ≡ true
      → (files.open_or_create cfg.file_storage_path d).0 ≡ ok tt
      → files.size cfg.file_storage_path (files.open_or_create cfg.file_storage_path d).1 ≡ inr n
      → Memory.new_from json (disk.read cfg.file_storage_path d) ≡ inr t
      → open_store json disk files db cfg (d, s)
        ≡ (ok (in_memory t), ((files.open_or_create cfg.file_storage_path d).1, s))
  unfolding open_store restore
  open_store-eq cfg t d s n sizes refuses dsn on opened stat read =
      let path = cfg.file_storage_path in
      let empty = in_memory (record { storage = [] }) in
      let d' = (files.open_or_create path d).1 in
      let back =
        λ (x : disk.State × db.State). sized json disk files db cfg empty (files.size path x.0) x in
      let read' = ap (Memory.new_from json) (sizes.read-open_or_create path d opened) ∙ read in
      ap
        (λ (r : Outcome (Store F) × (disk.State × db.State)).
          ((λ _. r) >>= restore json disk files db cfg) (d, s))
        (choose-in_memory cfg (d, s) dsn)
      ∙ ap (λ b. (if b then on_left (files.open_or_create path) >> back else pure empty) (d, s)) on
      ∙ >>-of_ok (on_left (files.open_or_create path)) back (d, s) opened
      ∙ ap (λ r. sized json disk files db cfg empty r (d', s)) stat
      ∙ sized-in_memory cfg empty t d' s n refuses dsn (sizes.size-length path d' n stat) read'

  -- The disk behind a save, and behind the open of the next start.
  abbrev pub saved_disk :
      (List (Metric F) → List (Metric F)) → Config → Storage F → disk.State → disk.State
  saved_disk visit cfg saved d =
      (save_to_file disk (memory visit json) cfg.file_storage_path (saved, d)).1.1

  abbrev pub reopened :
      (List (Metric F) → List (Metric F))
      → Config
      → Storage F
      → disk.State
      → Outcome (Unit {0}) × disk.State
  reopened visit cfg saved d =
      files.open_or_create cfg.file_storage_path (saved_disk visit cfg saved d)

  -- A server in memory that is started on the file of an earlier save, with restoring on and no
  -- database named, holds under every name what the saved storage held: whenever SaveToFile returned
  -- no error and the new start can open the file and ask for its size, the start returns no error,
  -- whatever the file held before the save. The decoder has to read back what the encoder wrote and
  -- to refuse an empty text, a write to cover the old text as far as it reaches, the open to keep the
  -- text, Stat to tell its length, and the saved map to have each metric under its name, once.
  pub open_store-save_to_file :
      (visit : List (Metric F) → List (Metric F)) (cfg : Config) (saved : Storage F)
      (d : disk.State) (s : db.State) (n : ℕ)
      → ((l : List (Metric F)) → Permᴰ l (visit l))
      → ReadsBack json
      → RefusesEmpty json
      → Overwrites disk
      → Sizes files
      → IsKeyed saved.storage
      → cfg.database_dsn ≡ ""
      → cfg.restore ≡ true
      → (save_to_file disk (memory visit json) cfg.file_storage_path (saved, d)).0 ≡ ok tt
      → (reopened visit cfg saved d).0 ≡ ok tt
      → files.size cfg.file_storage_path (reopened visit cfg saved d).1 ≡ inr n
      → (t : Storage F) × (open_store json disk files db cfg (saved_disk visit cfg saved d, s)
          ≡ (ok (in_memory t), ((reopened visit cfg saved d).1, s)))
        × ((key : String) → Memory.get key t ≡ Memory.get key saved)
  open_store-save_to_file visit cfg saved d s n shuffles reads refuses over sizes h dsn on done
        opened stat =
      let path = cfg.file_storage_path in
      let d' = saved_disk visit cfg saved d in
      let (b, t, contents, restored, view) =
        new_from-save_to_file visit json disk path saved d shuffles reads over h done in
      (t, open_store-eq cfg t d' s n sizes refuses dsn on opened stat restored, view)
