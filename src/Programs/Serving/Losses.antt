-- ===== src/Programs/Serving/Losses.antt =====
-- What the server loses when it ends: no save is made on the way out.
use go_metrics_harvester.Base.{ℕ, ◌<◌, ◌≡◌, ◌≢◌, refl, sym, ◌∙◌, String, true, false, List}
use mathlib.Core.Path.{subst}
use go_metrics_harvester.Metric.{Metric}
use go_metrics_harvester.Metric.Json.{Json}
use go_metrics_harvester.Memory.{Storage}
use go_metrics_harvester.Service.{Disk}
use go_metrics_harvester.Programs.Serving.{
  Which, http, grpc, opened, returned, Phase, running, stopping_grpc, stopping_http, stopped, fatal,
  exited, Process, put_at, IsAlive, IsOpen, start, signal, stop_grpc, stop_http, shutdown_fails,
  exit, Reach, here, next,
}
use go_metrics_harvester.Programs.Serving.Runs.{
  OrderedAt, IsOrdered, Reach-IsOrdered, put_at-grpc-put_at-http, answer_calls, answer_requests,
  stop_one,
}

-- An end of the process that is `Reached`, with the storage and the disk as they are in `s`, and with
-- so many requests left unanswered.
pub record Ends {F : Type 0} {disk : Disk} (Reached : Process F disk → Type 0) (s : Process F disk)
    (last : Phase) (left : ℕ) : Type 0 where
  pub end : Process F disk
  pub run : Reached end
  pub phase-end : end.phase ≡ last
  pub storage-end : end.storage ≡ s.storage
  pub disk_state-end : end.disk_state ≡ s.disk_state
  pub requests-end : end.requests ≡ left

module _ {F : Type 0} {visit : List (Metric F) → List (Metric F)} {json : Json F} {disk : Disk}
    {path : String} {store_interval : ℕ} where
  -- The end of the goroutines behind Shutdown.
  leave :
      {p : Process F disk} (s : Process F disk)
      → ((w : Which) → s.loop w ≢ opened)
      → IsAlive s.phase
      → s.cancelled ≡ true
      → ((w : Which) → s.listening w ≡ false)
      → Reach visit json disk path store_interval p s
      → Reach visit json disk path store_interval p
          (record s { loop = put_at grpc returned (put_at http returned s.loop); phase = exited })
  leave s ready alive off silent r =
      next
        (stop_one grpc (s.loop grpc) (record s { loop = put_at http returned s.loop }) refl
          (ready grpc) alive off (stop_one http (s.loop http) s refl (ready http) alive off r))
        (exit alive (put_at-grpc-put_at-http returned s.loop) silent)

  -- An end from a state with the same storage and disk.
  same :
      {p s t : Process F disk} {last : Phase} {left : ℕ}
      → t.storage ≡ s.storage
      → t.disk_state ≡ s.disk_state
      → Ends (Reach visit json disk path store_interval p) t last left
      → Ends (Reach visit json disk path store_interval p) s last left
  same e f ends = record {
    end = ends.end;
    run = ends.run;
    phase-end = ends.phase-end;
    storage-end = ends.storage-end ∙ e;
    disk_state-end = ends.disk_state-end ∙ f;
    requests-end = ends.requests-end;
  }

  leave_now :
      {p : Process F disk} (s : Process F disk)
      → ((w : Which) → s.loop w ≢ opened)
      → IsAlive s.phase
      → s.cancelled ≡ true
      → ((w : Which) → s.listening w ≡ false)
      → Reach visit json disk path store_interval p s
      → Ends (Reach visit json disk path store_interval p) s exited s.requests
  leave_now s ready alive off silent r = record {
    end = _;
    run = leave s ready alive off silent r;
    phase-end = refl;
    storage-end = refl;
    disk_state-end = refl;
    requests-end = refl;
  }

  from_stopped :
      {p : Process F disk} (s : Process F disk)
      → ((w : Which) → s.loop w ≢ opened)
      → s.phase ≡ stopped
      → IsOrdered s
      → Reach visit json disk path store_interval p s
      → Ends (Reach visit json disk path store_interval p) s exited 0
  from_stopped s ready at h r =
      let (off, silent) = subst (λ q. OrderedAt q s.cancelled s.listening) at h in
      let alive : IsAlive s.phase = subst IsAlive (sym at) tt in
      same {t = record s { requests = 0 }} refl refl (
        leave_now (record s { requests = 0 }) ready alive off silent
          (answer_requests s.requests s refl alive r))

  from_stopping_http :
      {p : Process F disk} (s : Process F disk)
      → ((w : Which) → s.loop w ≢ opened)
      → s.phase ≡ stopping_http
      → IsOrdered s
      → Reach visit json disk path store_interval p s
      → Ends (Reach visit json disk path store_interval p) s exited 0
  from_stopping_http s ready at h r =
      same {t = record s { requests = 0; phase = stopped }} refl refl (
        from_stopped (record s { requests = 0; phase = stopped }) ready refl
          (subst (λ q. OrderedAt q s.cancelled s.listening) at h)
          (next (answer_requests s.requests s refl (subst IsAlive (sym at) tt) r)
            (stop_http at refl)))

  from_stopping_grpc :
      {p : Process F disk} (s : Process F disk)
      → ((w : Which) → s.loop w ≢ opened)
      → s.phase ≡ stopping_grpc
      → IsOrdered s
      → Reach visit json disk path store_interval p s
      → Ends (Reach visit json disk path store_interval p) s exited 0
  from_stopping_grpc s ready at h r =
      let t : Process F disk = record s {
        calls = 0;
        listening = λ _. false;
        phase = stopping_http;
      } in
      same {t = t} refl refl (
        from_stopping_http t ready refl
          (subst (λ q. OrderedAt q s.cancelled s.listening) at h, λ w. refl)
          (next (answer_calls s.calls s refl (subst IsAlive (sym at) tt) r) (stop_grpc at refl)))

  ends :
      {p : Process F disk} (q : Phase) (s : Process F disk)
      → s.phase ≡ q
      → IsAlive q
      → ((w : Which) → s.loop w ≢ opened)
      → IsOrdered s
      → Reach visit json disk path store_interval p s
      → Ends (Reach visit json disk path store_interval p) s exited 0
  ends running s at alive ready h r =
      let t : Process F disk = record s { cancelled = true; phase = stopping_grpc } in
      same {t = t} refl refl (from_stopping_grpc t ready refl refl (next r (signal at)))
  ends stopping_grpc s at alive ready h r = from_stopping_grpc s ready at h r
  ends stopping_http s at alive ready h r = from_stopping_http s ready at h r
  ends stopped s at alive ready h r = from_stopped s ready at h r
  ends fatal s at alive ready h r = elim alive [ ]
  ends exited s at alive ready h r = elim alive [ ]

  -- From every state that a started server reaches and in which the process is alive and no loop is
  -- between the open of the file and its write, there is a run to the return of main, with every
  -- request answered, that leaves the storage and the disk as they are. So an orderly end need not
  -- write what was stored since the last write. That holds with every store interval, also with 0,
  -- where a save that a handler has started need not run before main returns.
  pub comes_to_exit :
      (storage : Storage F) (d : disk.State) (s : Process F disk)
      → Reach visit json disk path store_interval (start store_interval storage d) s
      → IsAlive s.phase
      → ((w : Which) → s.loop w ≢ opened)
      → Ends (Reach visit json disk path store_interval s) s exited 0
  comes_to_exit storage d s r alive ready =
      ends s.phase s refl alive ready (Reach-IsOrdered r tt) here

  -- Behind GracefulStop, with requests left: log.Fatal, or the return of main.
  drops_behind_grpc :
      {p : Process F disk} (s : Process F disk)
      → ((w : Which) → s.loop w ≢ opened)
      → s.phase ≡ stopping_grpc
      → IsOrdered s
      → 0 < s.requests
      → Reach visit json disk path store_interval p s
      → Ends (Reach visit json disk path store_interval p) s fatal s.requests
        × Ends (Reach visit json disk path store_interval p) s exited s.requests
  drops_behind_grpc s ready at h busy r =
      let t : Process F disk = record s {
        calls = 0;
        listening = λ _. false;
        phase = stopping_http;
      } in
      let r' =
        next (answer_calls s.calls s refl (subst IsAlive (sym at) tt) r) (stop_grpc at refl) in
      (
        record {
          end = record t { phase = fatal };
          run = next r' (shutdown_fails refl busy);
          phase-end = refl;
          storage-end = refl;
          disk_state-end = refl;
          requests-end = refl;
        },
        same {t = t} refl refl (
            leave_now t ready tt (subst (λ q. OrderedAt q s.cancelled s.listening) at h) (λ w. refl)
              r'),
      )

  drops :
      {p : Process F disk} (q : Phase) (s : Process F disk)
      → s.phase ≡ q
      → IsOpen q
      → ((w : Which) → s.loop w ≢ opened)
      → IsOrdered s
      → 0 < s.requests
      → Reach visit json disk path store_interval p s
      → Ends (Reach visit json disk path store_interval p) s fatal s.requests
        × Ends (Reach visit json disk path store_interval p) s exited s.requests
  drops running s at free ready h busy r =
      let t : Process F disk = record s { cancelled = true; phase = stopping_grpc } in
      let (failed, left) = drops_behind_grpc t ready refl refl busy (next r (signal at)) in
      (same {t = t} refl refl failed, same {t = t} refl refl left)
  drops stopping_grpc s at free ready h busy r = drops_behind_grpc s ready at h busy r
  drops stopping_http s at free ready h busy r = elim free [ ]
  drops stopped s at free ready h busy r = elim free [ ]
  drops fatal s at free ready h busy r = elim free [ ]
  drops exited s at free ready h busy r = elim free [ ]

  -- From every state that a started server reaches and in which the HTTP server takes connections, a
  -- request of it is unanswered and no loop is between the open of the file and its write, a run leads
  -- to log.Fatal behind Shutdown and another one to the return of main, which does not wait for
  -- Shutdown: with all those requests unanswered, and the storage and the disk as they are.
  pub comes_to_drop :
      (storage : Storage F) (d : disk.State) (s : Process F disk)
      → Reach visit json disk path store_interval (start store_interval storage d) s
      → IsOpen s.phase
      → ((w : Which) → s.loop w ≢ opened)
      → 0 < s.requests
      → Ends (Reach visit json disk path store_interval s) s fatal s.requests
        × Ends (Reach visit json disk path store_interval s) s exited s.requests
  comes_to_drop storage d s r free ready busy =
      drops s.phase s refl free ready (Reach-IsOrdered r tt) busy here
