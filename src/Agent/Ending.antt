-- ===== src/Agent/Ending.antt =====
-- The end of the pool of internal/agent/agent.go behind the signal that cancels its context.
use go_metrics_harvester.Base.{ℕ, zero, suc, ◌+◌, ◌-◌, ◌≤◌, ◌<◌, ◌≡◌, refl, true, arith}
use mathlib.Core.Path.{subst}
use go_metrics_harvester.Agent.Workers.{
  Reporter, selecting, sending, returned, Pool, start, num_jobs, send_job, send_result, cancel,
  stop_worker, stop_reporter, Reach, here, next, Reach-IsCounted,
}

-- Every goroutine of the pool has returned, so that the errgroup's Wait returns too.
pub record IsEnded (p : Pool) : Type 0 where
  pub reporter-eq : p.reporter ≡ returned
  pub idle-eq : p.idle ≡ 0
  pub busy-eq : p.busy ≡ 0

-- The workers at their select see the end of the context.
stop_idle :
    {p : Pool} (n : ℕ) (s : Pool)
    → s.idle ≡ n
    → s.cancelled ≡ true
    → Reach p s
    → Reach p (record s { idle = 0 })
stop_idle {p} zero s e off r = subst (λ n. Reach p (record s { idle = n })) e r
stop_idle (suc n) s e off r =
    stop_idle n (record s { idle = s.idle - 1 }) (omega arith) off
      (next r (stop_worker off (omega arith)))

-- Those that publish find room for their results.
finish_busy :
    {p : Pool} (n : ℕ) (s : Pool)
    → s.busy ≡ n
    → s.busy + s.results ≤ num_jobs
    → Reach p s
    → Reach p (record s { busy = 0; results = s.results + n })
finish_busy {p} zero s e room r =
    let same : s.results ≡ s.results + 0 = omega arith in
    subst (λ k. Reach p (record s { busy = 0; results = k })) same
      (subst (λ n. Reach p (record s { busy = n })) e r)
finish_busy {p} (suc n) s e room r =
    let t : Pool = record s { busy = s.busy - 1; results = s.results + 1 } in
    let sum : s.results + 1 + n ≡ s.results + suc n = omega arith in
    subst (λ k. Reach p (record s { busy = 0; results = k })) sum
      (finish_busy n t (omega arith) (omega arith)
        (next r (send_result (omega arith) (omega arith))))

finish :
    {p : Pool} (s : Pool)
    → s.reporter ≡ returned
    → s.cancelled ≡ true
    → s.busy + s.results ≤ num_jobs
    → Reach p s
    → (q : Pool) × Reach p q × IsEnded q
finish s e off room r = (
  _,
  finish_busy s.busy (record s { idle = 0 }) refl room (stop_idle s.idle s refl off r),
  record { reporter-eq = e; idle-eq = refl; busy-eq = refl },
)

leave :
    {p : Pool} (s : Pool)
    → s.reporter ≡ selecting
    → s.busy + s.results ≤ num_jobs
    → Reach p s
    → (q : Pool) × Reach p q × IsEnded q
leave s e room r =
    finish (record s { cancelled = true; reporter = returned }) refl refl room
      (next (next r cancel) (stop_reporter refl e))

ends_by :
    {p : Pool} (reporter : Reporter) (s : Pool)
    → s.reporter ≡ reporter
    → (s.reporter ≡ sending → s.queue < num_jobs)
    → s.busy + s.results ≤ num_jobs
    → Reach p s
    → (q : Pool) × Reach p q × IsEnded q
ends_by selecting s e free room r = leave s e room r
ends_by sending s e free room r =
    leave (record s { reporter = selecting; queue = s.queue + 1 }) refl room
      (next r (send_job e (free e)))
ends_by returned s e free room r =
    finish (record s { cancelled = true }) e refl room (next r cancel)

-- With a rate limit that the channel of results can hold, the pool can end from every state that it
-- reaches and in which its reporter is not at its send into a full channel: a run that cancels the
-- context leads to a state in which the reporter and every worker have returned.
pub comes_to_end :
    (rate_limit : ℕ) (p : Pool)
    → Reach (start rate_limit) p
    → rate_limit ≤ num_jobs
    → (p.reporter ≡ sending → p.queue < num_jobs)
    → (q : Pool) × Reach p q × IsEnded q
comes_to_end n p r few free =
    let counted = Reach-IsCounted r in ends_by p.reporter p refl free (omega arith) here
