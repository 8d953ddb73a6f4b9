-- ===== src/Programs/Serving/SavedFile.antt =====
-- What the file holds while the server runs, and what a server that is started on it restores.
use go_metrics_harvester.Base.{
  ℕ, ◌≡◌, ◌≢◌, inr, refl, sym, ap, ◌∙◌, String, Bool, false, ◌||◌, arith, Option, none, some, List,
  Outcome, ok, err, panic,
}
use mathlib.Core.List.{Permᴰ}
use mathlib.Core.Path.{subst}
use go_metrics_harvester.Metric.{Metric}
use go_metrics_harvester.Metric.Json.{Json, ReadsBack}
use go_metrics_harvester.Memory
use go_metrics_harvester.Memory.{Storage}
use go_metrics_harvester.Memory.Keyed.{IsKeyed, set-IsKeyed, update-IsKeyed}
use go_metrics_harvester.Memory.Restore.{new_from-persist}
use go_metrics_harvester.Service.{Disk}
use go_metrics_harvester.Service.Saving.{Overwrites}
use go_metrics_harvester.Programs.Serving.{
  Process, is_failure, written, Step, update, set, accept_request, answer_request, accept_call,
  answer_call, tick, tick_fails, save, stop_loop, spawn, open_by_handler, fail_by_handler,
  save_by_handler, fail_listener, signal, stop_grpc, stop_http, shutdown_fails, exit, Reach, here,
  next,
}

-- An open that fails leaves the file as it is.
pub record KeepsOnFailure (disk : Disk) : Type 0 where
  pub read-open_failed :
      (path : String) (d : disk.State)
      → (disk.open_file path d).0 ≢ ok tt
      → disk.read path (disk.open_file path d).1 ≡ disk.read path d

returned_ok : (r : Outcome (Unit {0})) → is_failure r ≡ false → r ≡ ok tt
returned_ok (ok tt) e = refl
returned_ok (err x) e = cc e
returned_ok panic e = cc e

or_right : (a b : Bool) → (a || b) ≡ false → b ≡ false
or_right a b e = ground arith

abbrev later : {A : Type 0} → Option A → Option A → Option A
later none old = old
later (some a) old = some a

module _ {F : Type 0} (visit : List (Metric F) → List (Metric F)) (json : Json F) (disk : Disk)
    (path : String) (store_interval : ℕ) where
  -- The storage that a step writes, if it writes one.
  abbrev writes :
      {s t : Process F disk} → Step visit json disk path store_interval s t → Option (Storage F)
  writes {s = s} (save w alive at) = some s.storage
  writes {s = s} (save_by_handler alive some_open) = some s.storage
  writes _ = none

  -- The storage at the last write of a run.
  abbrev pub last_write :
      {s t : Process F disk} → Reach visit json disk path store_interval s t → Option (Storage F)
  last_write here = none
  last_write (next r step) = later (writes step) (last_write r)

module _ {F : Type 0} (json : Json F) (disk : Disk) (path : String) where
  -- What the file holds, when it held that of `d` at first, by the last storage that was written.
  pub data IsSaved (d : disk.State) : disk.State → Option (Storage F) → Type 0 where
    untouched : {d' : disk.State} → disk.read path d' ≡ disk.read path d → IsSaved d d' none
    saved :
        {d' : disk.State} {w : Storage F} (u : Storage F)
        → Memory.new_from json (disk.read path d') ≡ inr u
        → ((key : String) → Memory.get key u ≡ Memory.get key w)
        → IsKeyed w.storage
        → IsSaved d d' (some w)

  -- A state with the same contents.
  IsSaved-same :
      {d a b : disk.State} {w : Option (Storage F)}
      → disk.read path b ≡ disk.read path a
      → IsSaved d a w
      → IsSaved d b w
  IsSaved-same e (untouched same) = untouched (e ∙ same)
  IsSaved-same e (saved u read view keyed) = saved u (ap (Memory.new_from json) e ∙ read) view keyed

module _ {F : Type 0} (visit : List (Metric F) → List (Metric F)) (json : Json F) (disk : Disk)
    (path : String) (store_interval : ℕ) (shuffles : (l : List (Metric F)) → Permᴰ l (visit l))
    (reads : ReadsBack json) (over : Overwrites disk) (keeps : KeepsOnFailure disk) where
  written-IsSaved :
      {d : disk.State} (a : disk.State) (w : Storage F)
      → IsKeyed w.storage
      → (written visit json disk path w a).0 ≡ ok tt
      → IsSaved json disk path d (written visit json disk path w a).1 (some w)
  written-IsSaved a w keyed done =
      let (b, u, wrote, restored, view) =
        new_from-persist visit json (disk.write path) w a shuffles reads keyed done in
      let ended : (disk.write path b a).0 ≡ ok tt =
        ap (λ (p : Outcome (Unit {0}) × disk.State). p.0) (sym wrote) ∙ done in
      saved u
        (ap (λ (p : Outcome (Unit {0}) × disk.State). Memory.new_from json (disk.read path p.1))
            wrote
          ∙ ap (Memory.new_from json) (over.read-write path b a ended)
          ∙ restored _)
        view keyed

  -- What a step does to the map and to the file, by the storage that it writes.
  data Effect (s t : Process F disk) : Option (Storage F) → Type 0 where
    keeps_file :
        (IsKeyed s.storage.storage → IsKeyed t.storage.storage)
        → disk.read path t.disk_state ≡ disk.read path s.disk_state
        → t.torn ≡ s.torn
        → Effect s t none
    writes_file :
        t.storage ≡ s.storage
        → t.disk_state ≡ (written visit json disk path s.storage s.disk_state).1
        → t.torn ≡ (s.torn || is_failure (written visit json disk path s.storage s.disk_state).0)
        → Effect s t (some s.storage)

  step-Effect :
      {s t : Process F disk} (step : Step visit json disk path store_interval s t)
      → Effect s t (writes visit json disk path store_interval step)
  step-Effect {s = s} (update m _ _) = keeps_file (update-IsKeyed m s.storage) refl refl
  step-Effect {s = s} (set m _ _) = keeps_file (set-IsKeyed m s.storage) refl refl
  step-Effect {s = s} (tick _ _ _ o) =
      keeps_file (λ h. h) (over.read-open_file path s.disk_state o) refl
  step-Effect {s = s} (tick_fails _ _ _ o) =
      keeps_file (λ h. h) (keeps.read-open_failed path s.disk_state o) refl
  step-Effect {s = s} (open_by_handler _ _ o) =
      keeps_file (λ h. h) (over.read-open_file path s.disk_state o) refl
  step-Effect {s = s} (fail_by_handler _ _ o) =
      keeps_file (λ h. h) (keeps.read-open_failed path s.disk_state o) refl
  step-Effect (save _ _ _) = writes_file refl refl refl
  step-Effect (save_by_handler _ _) = writes_file refl refl refl
  step-Effect (accept_request _ _) = keeps_file (λ h. h) refl refl
  step-Effect (answer_request _ _) = keeps_file (λ h. h) refl refl
  step-Effect (accept_call _ _) = keeps_file (λ h. h) refl refl
  step-Effect (answer_call _ _) = keeps_file (λ h. h) refl refl
  step-Effect (stop_loop _ _ _ _) = keeps_file (λ h. h) refl refl
  step-Effect (spawn _ _ _) = keeps_file (λ h. h) refl refl
  step-Effect (fail_listener _ _ _) = keeps_file (λ h. h) refl refl
  step-Effect (signal _) = keeps_file (λ h. h) refl refl
  step-Effect (stop_grpc _ _) = keeps_file (λ h. h) refl refl
  step-Effect (stop_http _ _) = keeps_file (λ h. h) refl refl
  step-Effect (shutdown_fails _ _) = keeps_file (λ h. h) refl refl
  step-Effect (exit _ _ _) = keeps_file (λ h. h) refl refl

  Effect-IsKeyed :
      {s t : Process F disk} {w : Option (Storage F)}
      → Effect s t w
      → IsKeyed s.storage.storage
      → IsKeyed t.storage.storage
  Effect-IsKeyed (keeps_file keyed same whole) h = keyed h
  Effect-IsKeyed (writes_file same wrote whole) h =
      subst (λ (a : Storage F). IsKeyed a.storage) (sym same) h

  -- What it makes of the file, when no write has failed behind it.
  Effect-IsSaved :
      {d : disk.State} {s t : Process F disk} {w old : Option (Storage F)}
      → Effect s t w
      → IsKeyed s.storage.storage
      → t.torn ≡ false
      → (s.torn ≡ false → IsSaved json disk path d s.disk_state old)
      → IsSaved json disk path d t.disk_state (later w old)
  Effect-IsSaved (keeps_file keyed same whole) k e h =
      IsSaved-same json disk path same (h (sym whole ∙ e))
  Effect-IsSaved {d} {s} (writes_file same wrote whole) k e h =
      subst (λ a. IsSaved json disk path d a (some s.storage)) (sym wrote)
        (written-IsSaved s.disk_state s.storage k
          (returned_ok _ (or_right s.torn _ (sym whole ∙ e))))

  Reach-IsKeyed :
      {s t : Process F disk}
      → Reach visit json disk path store_interval s t
      → IsKeyed s.storage.storage
      → IsKeyed t.storage.storage
  Reach-IsKeyed here h = h
  Reach-IsKeyed (next r step) h = Effect-IsKeyed (step-Effect step) (Reach-IsKeyed r h)

  -- In every run of a server over the memory storage in which no write of the file has failed, the
  -- file is as it was before the run if nothing was written yet, and otherwise NewFrom reads from it a
  -- storage that holds under every name what the storage held at the last write: in whatever order
  -- the loops and the handlers that have it open write, and whatever is stored in between. The decoder
  -- has to read back what the encoder wrote, a write to cover the old text as far as it reaches, an
  -- open, failed or not, to keep the text, and the storage at the start of the run to have each metric
  -- under its name, once.
  pub Reach-IsSaved :
      {s t : Process F disk} (r : Reach visit json disk path store_interval s t)
      → IsKeyed s.storage.storage
      → t.torn ≡ false
      → IsSaved json disk path s.disk_state t.disk_state
          (last_write visit json disk path store_interval r)
  Reach-IsSaved here k e = untouched refl
  Reach-IsSaved (next {t = u} r step) k e =
      Effect-IsSaved (step-Effect step) (Reach-IsKeyed r k) e (λ e'. Reach-IsSaved r k e')
