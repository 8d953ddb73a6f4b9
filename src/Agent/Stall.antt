-- ===== src/Agent/Stall.antt =====
-- A run of the pool of internal/agent/agent.go: reports that the workers publish one by one, and then
-- reports that nobody takes.
use go_metrics_harvester.Base.{ℕ, zero, suc, ◌+◌, ◌-◌, ◌≤◌, ◌≡◌, refl, false, arith}
use mathlib.Core.Path.{subst}
use go_metrics_harvester.Agent.Workers.{
  selecting, sending, Pool, start, num_jobs, report_due, send_job, receive_result, take_job,
  send_result, Reach, here, next, IsStuck, Reach-IsStuck,
}

-- A pool at rest between two reports: the reporter selects, no worker is busy.
abbrev pub rest : ℕ → ℕ → ℕ → Pool
rest queue idle published = record {
  reporter = selecting;
  queue = queue;
  results = 0;
  idle = idle;
  busy = 0;
  published = published;
  cancelled = false;
}

-- One report that one worker publishes.
publish_one : {p : Pool} (n m : ℕ) → Reach p (rest 0 (suc n) m) → Reach p (rest 0 n (m + 1))
publish_one {p} n m r =
    let one_less : suc n - 1 ≡ n = omega arith in
    subst (λ idle. Reach p (rest 0 idle (m + 1))) one_less
      (next
        (next
          (next (next (next r (report_due refl)) (send_job refl (omega arith)))
            (take_job (omega arith) (omega arith)))
          (send_result (omega arith) (omega arith)))
        (receive_result refl (omega arith)))

publish_all : {p : Pool} (n m : ℕ) → Reach p (rest 0 n m) → Reach p (rest 0 0 (n + m))
publish_all {p} zero m r =
    let sum : m ≡ 0 + m = omega arith in subst (λ k. Reach p (rest 0 0 k)) sum r
publish_all {p} (suc n) m r =
    let sum : n + (m + 1) ≡ suc n + m = omega arith in
    subst (λ k. Reach p (rest 0 0 k)) sum (publish_all n (m + 1) (publish_one n m r))

-- Reports that no worker takes.
fill : {p : Pool} (k m : ℕ) → k ≤ num_jobs → Reach p (rest 0 0 m) → Reach p (rest k 0 m)
fill zero m h r = r
fill {p} (suc k) m h r =
    let sum : k + 1 ≡ suc k = omega arith in
    subst (λ queue. Reach p (rest queue 0 m)) sum
      (next (next (fill k m (omega arith) r) (report_due refl)) (send_job refl (omega arith)))

-- Each worker has published once and returned, 1024 more reports are in the channel, and the reporter
-- is at the send of one more.
abbrev pub stalled : ℕ → Pool
stalled rate_limit = record (rest num_jobs 0 rate_limit) { reporter = sending }

start-stalled : (rate_limit : ℕ) → Reach (start rate_limit) (stalled rate_limit)
start-stalled n =
    let all : n + 0 ≡ n = omega arith in
    subst (λ k. Reach (start n) (stalled k)) all
      (next (fill num_jobs (n + 0) (omega arith) (publish_all n 0 here)) (report_due refl))

-- With any rate limit a run leads to the pool in which each worker has published once, 1024 more
-- reports fill the channel and the reporter is at the send of one more; and in whatever state the
-- pool comes to from there, also behind the end of the context, the reporter is still at that send,
-- the channel is still full, no worker is left to read it, and nothing more has been published.
pub comes_to_stop :
    (rate_limit : ℕ) (q : Pool)
    → Reach (stalled rate_limit) q
    → Reach (start rate_limit) (stalled rate_limit) × IsStuck q × (q.published ≡ rate_limit)
comes_to_stop n q r =
    let (stuck, published) = Reach-IsStuck (record { waits = refl; full = refl; alone = refl }) r in
    (start-stalled n, stuck, published)
