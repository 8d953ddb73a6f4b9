-- ===== src/Service/Saving.antt =====
-- SaveToFile over the memory storage, and the start that reads the file again.
use go_metrics_harvester.Base.{
  ℕ, String, ◌≡◌, inr, sym, ap, ◌∙◌, List, ◌++◌, drop, length, Outcome, ok, arith,
}
use mathlib.Core.List.{Permᴰ}
use go_metrics_harvester.Metric.{Metric}
use go_metrics_harvester.Metric.Json.{Json, ReadsBack}
use go_metrics_harvester.Memory
use go_metrics_harvester.Memory.{Storage, new_from, persist}
use go_metrics_harvester.Memory.Keyed.{IsKeyed}
use go_metrics_harvester.Memory.Restore.{new_from-persist}
use go_metrics_harvester.Service.{Disk, save_to_file}
use go_metrics_harvester.Service.InMemory.{memory}

-- What the flags O_WRONLY and O_CREATE without O_TRUNC mean: an open keeps the old contents, and
-- the first write covers as much of them as it is long.
pub record Overwrites (disk : Disk) : Type 0 where
  pub read-open_file :
      (path : String) (d : disk.State)
      → (disk.open_file path d).0 ≡ ok tt
      → disk.read path (disk.open_file path d).1 ≡ disk.read path d
  pub read-write :
      (path : String) (b : List ℕ) (d : disk.State)
      → (disk.write path b d).0 ≡ ok tt
      → disk.read path (disk.write path b d).1 ≡ b ++ drop (length b) (disk.read path d)

module _ {F : Type 0} (visit : List (Metric F) → List (Metric F)) (json : Json F)
    (disk : Disk) where
  save_to_file-eq-ok :
      (path : String) (s : Storage F) (d : disk.State)
      → (save_to_file disk (memory visit json) path (s, d)).0 ≡ ok tt
      → ((disk.open_file path d).0 ≡ ok tt)
        × ((persist visit json (disk.write path) s (disk.open_file path d).1).0 ≡ ok tt)
        × ((save_to_file disk (memory visit json) path (s, d)).1.1
            ≡ (persist visit json (disk.write path) s (disk.open_file path d).1).1)
  unfolding save_to_file
  save_to_file-eq-ok path s d r = ground arith

  -- After a save that returns, the file holds the new text with the end of the old one behind it,
  -- where the old one was longer; still NewFrom reads from it a storage that holds under every name
  -- what the saved one held.
  pub new_from-save_to_file :
      (path : String) (s : Storage F) (d : disk.State)
      → ((l : List (Metric F)) → Permᴰ l (visit l))
      → ReadsBack json
      → Overwrites disk
      → IsKeyed s.storage
      → (save_to_file disk (memory visit json) path (s, d)).0 ≡ ok tt
      → let d' = (save_to_file disk (memory visit json) path (s, d)).1.1 in
        (b : List ℕ) × (s' : Storage F) × (disk.read path d'
          ≡ b ++ drop (length b) (disk.read path d))
        × (new_from json (disk.read path d') ≡ inr s')
        × ((key : String) → Memory.get key s' ≡ Memory.get key s)
  new_from-save_to_file path s d shuffles reads over h r =
      let (opened, persisted, same) = save_to_file-eq-ok path s d r in
      let d' = (disk.open_file path d).1 in
      let (b, s', wrote, restored, view) =
        new_from-persist visit json (disk.write path) s d' shuffles reads h persisted in
      let written : (disk.write path b d').0 ≡ ok tt =
        ap (λ (p : Outcome (Unit {0}) × disk.State). p.0) (sym wrote) ∙ persisted in
      let contents =
        ap (disk.read path) (same ∙ ap (λ (p : Outcome (Unit {0}) × disk.State). p.1) wrote)
        ∙ over.read-write path b d' written
        ∙ ap (λ old. b ++ drop (length b) old) (over.read-open_file path d opened) in
      (b, s', contents, ap (new_from json) contents ∙ restored _, view)
