-- ===== src/Programs/Serving/Unsaved.antt =====
-- The end of the saves: when nothing is left that would write the file.
use go_metrics_harvester.Base.{ℕ, ◌<◌, ◌≡◌, ◌≢◌, refl, ◌∙◌, String, List, arith}
use go_metrics_harvester.Metric.{Metric}
use go_metrics_harvester.Metric.Json.{Json}
use go_metrics_harvester.Service.{Disk}
use go_metrics_harvester.Programs.Serving.{
  Which, Loop, selecting, opened, returned, Process, Step, update, set, accept_request,
  answer_request, accept_call, answer_call, tick, tick_fails, save, stop_loop, spawn,
  open_by_handler, fail_by_handler, save_by_handler, fail_listener, signal, stop_grpc, stop_http,
  shutdown_fails, exit, Reach, here, next,
}

opened-ne : {l : Loop} → l ≡ returned → l ≢ opened
opened-ne e p = cc (e, p)

none_open : (n : ℕ) → n ≡ 0 → ¬ (0 < n)
none_open n e h = omega arith

selecting-ne : {l : Loop} → l ≡ returned → l ≢ selecting
selecting-ne e p = cc (e, p)

-- No loop runs, and no handler is about to save.
pub record IsUnsaved {F : Type 0} {disk : Disk} (s : Process F disk) : Type 0 where
  pub loop-eq : (w : Which) → s.loop w ≡ returned
  pub spawned-eq : s.spawned ≡ 0
  pub saving-eq : s.saving ≡ 0

module _ {F : Type 0} {visit : List (Metric F) → List (Metric F)} {json : Json F} {disk : Disk}
    {path : String} {store_interval : ℕ} where
  step-IsUnsaved :
      {s t : Process F disk}
      → Step visit json disk path store_interval s t
      → store_interval ≢ 0
      → IsUnsaved s
      → IsUnsaved t × (t.disk_state ≡ s.disk_state)
  step-IsUnsaved (update _ _ _) n h =
      (record { loop-eq = h.loop-eq; spawned-eq = h.spawned-eq; saving-eq = h.saving-eq }, refl)
  step-IsUnsaved (set _ _ _) n h =
      (record { loop-eq = h.loop-eq; spawned-eq = h.spawned-eq; saving-eq = h.saving-eq }, refl)
  step-IsUnsaved (spawn e _ _) n h = absurd (n e)
  step-IsUnsaved (accept_request _ _) n h =
      (record { loop-eq = h.loop-eq; spawned-eq = h.spawned-eq; saving-eq = h.saving-eq }, refl)
  step-IsUnsaved (answer_request _ _) n h =
      (record { loop-eq = h.loop-eq; spawned-eq = h.spawned-eq; saving-eq = h.saving-eq }, refl)
  step-IsUnsaved (accept_call _ _) n h =
      (record { loop-eq = h.loop-eq; spawned-eq = h.spawned-eq; saving-eq = h.saving-eq }, refl)
  step-IsUnsaved (answer_call _ _) n h =
      (record { loop-eq = h.loop-eq; spawned-eq = h.spawned-eq; saving-eq = h.saving-eq }, refl)
  step-IsUnsaved (tick w _ at _) n h = absurd (selecting-ne (h.loop-eq w) at)
  step-IsUnsaved (tick_fails w _ at _) n h = absurd (selecting-ne (h.loop-eq w) at)
  step-IsUnsaved (save w _ at) n h = absurd (opened-ne (h.loop-eq w) at)
  step-IsUnsaved (stop_loop w _ _ at) n h = absurd (selecting-ne (h.loop-eq w) at)
  step-IsUnsaved {s = s} (open_by_handler _ some _) n h =
      absurd (none_open s.spawned h.spawned-eq some)
  step-IsUnsaved {s = s} (fail_by_handler _ some _) n h =
      absurd (none_open s.spawned h.spawned-eq some)
  step-IsUnsaved {s = s} (save_by_handler _ some_open) n h =
      absurd (none_open s.saving h.saving-eq some_open)
  step-IsUnsaved (fail_listener _ _ _) n h =
      (record { loop-eq = h.loop-eq; spawned-eq = h.spawned-eq; saving-eq = h.saving-eq }, refl)
  step-IsUnsaved (signal _) n h =
      (record { loop-eq = h.loop-eq; spawned-eq = h.spawned-eq; saving-eq = h.saving-eq }, refl)
  step-IsUnsaved (stop_grpc _ _) n h =
      (record { loop-eq = h.loop-eq; spawned-eq = h.spawned-eq; saving-eq = h.saving-eq }, refl)
  step-IsUnsaved (stop_http _ _) n h =
      (record { loop-eq = h.loop-eq; spawned-eq = h.spawned-eq; saving-eq = h.saving-eq }, refl)
  step-IsUnsaved (shutdown_fails _ _) n h =
      (record { loop-eq = h.loop-eq; spawned-eq = h.spawned-eq; saving-eq = h.saving-eq }, refl)
  step-IsUnsaved (exit _ _ _) n h =
      (record { loop-eq = h.loop-eq; spawned-eq = h.spawned-eq; saving-eq = h.saving-eq }, refl)

  -- Once both loops have returned, no goroutine that a handler started for a save is left and the
  -- store interval is not 0, no further step changes the disk, whatever the requests that the servers
  -- still answer store.
  pub disk_state-Reach :
      {s t : Process F disk}
      → Reach visit json disk path store_interval s t
      → store_interval ≢ 0
      → IsUnsaved s
      → IsUnsaved t × (t.disk_state ≡ s.disk_state)
  disk_state-Reach here n h = (h, refl)
  disk_state-Reach (next r step) n h =
      let (h', e) = disk_state-Reach r n h in
      let (h'', e') = step-IsUnsaved step n h' in (h'', e' ∙ e)
