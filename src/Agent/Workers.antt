-- ===== src/Agent/Workers.antt =====
-- The reporter and the workers of Run, as steps of a pool in any order. The channels `jobs` and
-- `results` are bounded by 1024; a worker takes one job, publishes, sends its result and returns.
use go_metrics_harvester.Base.{
  ℕ, ◌+◌, ◌-◌, ◌≤◌, ◌<◌, ◌≡◌, ◌≢◌, refl, sym, ◌∙◌, true, false, Bool, arith,
}

abbrev pub num_jobs : ℕ
num_jobs = 1024

-- Where the reporter's loop stands: at its select, at `jobs <- metrics`, or returned.
pub data Reporter : Type 0 where
  selecting sending returned : Reporter

-- `queue` and `results` count what the channels hold, `idle` the workers at their select, `busy`
-- those that publish or wait to send a result, `published` the calls of publishMetrics so far;
-- `cancelled` is the context.
pub record Pool : Type 0 where
  pub reporter : Reporter
  pub queue : ℕ
  pub results : ℕ
  pub idle : ℕ
  pub busy : ℕ
  pub published : ℕ
  pub cancelled : Bool

abbrev pub start : ℕ → Pool
start rate_limit = record {
  reporter = selecting;
  queue = 0;
  results = 0;
  idle = rate_limit;
  busy = 0;
  published = 0;
  cancelled = false;
}

pub data Step (p : Pool) : Pool → Type 0 where
  -- the report interval has passed
  report_due : p.reporter ≡ selecting → Step p (record p { reporter = sending })
  -- jobs <- metrics, which waits while the channel is full
  send_job :
      p.reporter ≡ sending
      → p.queue < num_jobs
      → Step p (record p { reporter = selecting; queue = p.queue + 1 })
  -- err := <-results
  receive_result :
      p.reporter ≡ selecting → 0 < p.results → Step p (record p { results = p.results - 1 })
  -- job := <-jobs and publishMetrics
  take_job :
      0 < p.idle
      → 0 < p.queue
      → Step p (record p {
        queue = p.queue - 1;
        idle = p.idle - 1;
        busy = p.busy + 1;
        published = p.published + 1;
      })
  -- results <- err, and the worker returns
  send_result :
      0 < p.busy
      → p.results < num_jobs
      → Step p (record p { busy = p.busy - 1; results = p.results + 1 })
  cancel : Step p (record p { cancelled = true })
  -- <-ctx.Done() in a worker and in the reporter, which closes the channel of jobs as it returns
  stop_worker : p.cancelled ≡ true → 0 < p.idle → Step p (record p { idle = p.idle - 1 })
  stop_reporter :
      p.cancelled ≡ true → p.reporter ≡ selecting → Step p (record p { reporter = returned })
  -- a worker finds the channel closed and empty
  drain_worker :
      p.reporter ≡ returned → p.queue ≡ 0 → 0 < p.idle → Step p (record p { idle = p.idle - 1 })

pub data Reach (p : Pool) : Pool → Type 0 where
  here : Reach p p
  next : {q r : Pool} → Reach p q → Step q r → Reach p r

-- The counts of a pool that began with some number of workers.
pub record IsCounted (rate_limit : ℕ) (p : Pool) : Type 0 where
  pub spent : p.idle + p.published ≤ rate_limit
  pub answered : p.busy + p.results ≤ p.published
  pub bounded : p.queue ≤ num_jobs

Step-IsCounted : {n : ℕ} {p q : Pool} → Step p q → IsCounted n p → IsCounted n q
Step-IsCounted (report_due _) h = omega arith
Step-IsCounted (send_job _ lt) h = omega arith
Step-IsCounted (receive_result _ lt) h = omega arith
Step-IsCounted (take_job lt _) h = omega arith
Step-IsCounted (send_result lt _) h = omega arith
Step-IsCounted cancel h = omega arith
Step-IsCounted (stop_worker _ lt) h = omega arith
Step-IsCounted (stop_reporter _ _) h = omega arith
Step-IsCounted (drain_worker _ _ lt) h = omega arith

-- However the steps interleave, the channel of jobs stays within its bound, every result answers a
-- call of publishMetrics, and there are never more such calls than the rate limit in the whole run:
-- a worker that has published once is gone.
pub Reach-IsCounted : {n : ℕ} {p : Pool} → Reach (start n) p → IsCounted n p
Reach-IsCounted here = omega arith
Reach-IsCounted (next r s) = Step-IsCounted s (Reach-IsCounted r)

-- A reporter that waits to send into a full channel that no worker is left to read.
pub record IsStuck (p : Pool) : Type 0 where
  pub waits : p.reporter ≡ sending
  pub full : p.queue ≡ num_jobs
  pub alone : p.idle ≡ 0

sending-ne-selecting : ◌≢◌ {A = Reporter} sending selecting
sending-ne-selecting e = cc e

Step-IsStuck : {p q : Pool} → Step p q → IsStuck p → IsStuck q
Step-IsStuck (report_due e) h = absurd (sending-ne-selecting (sym h.waits ∙ e))
Step-IsStuck (send_job _ lt) h = absurd (omega arith)
Step-IsStuck (receive_result e _) h = absurd (sending-ne-selecting (sym h.waits ∙ e))
Step-IsStuck (take_job lt _) h = absurd (omega arith)
Step-IsStuck (send_result _ _) h = record { waits = h.waits; full = h.full; alone = h.alone }
Step-IsStuck cancel h = record { waits = h.waits; full = h.full; alone = h.alone }
Step-IsStuck (stop_worker _ lt) h = absurd (omega arith)
Step-IsStuck (stop_reporter _ e) h = absurd (sending-ne-selecting (sym h.waits ∙ e))
Step-IsStuck (drain_worker _ _ lt) h = absurd (omega arith)

published_lem : {p q : Pool} → IsStuck p → Step p q → q.published ≡ p.published
published_lem h (report_due _) = refl
published_lem h (send_job _ _) = refl
published_lem h (receive_result _ _) = refl
published_lem h (take_job lt _) = absurd (omega arith)
published_lem h (send_result _ _) = refl
published_lem h cancel = refl
published_lem h (stop_worker _ _) = refl
published_lem h (stop_reporter _ _) = refl
published_lem h (drain_worker _ _ _) = refl

-- Once the workers are spent and the channel of jobs is full under a reporter that sends, the
-- reporter waits for good: no further step, not even the end of the context, lets it return, and
-- nothing is published any more.
pub Reach-IsStuck : {p q : Pool} → IsStuck p → Reach p q → IsStuck q × (q.published ≡ p.published)
Reach-IsStuck h here = (h, refl)
Reach-IsStuck h (next r s) =
    let (h', e) = Reach-IsStuck h r in (Step-IsStuck s h', published_lem h' s ∙ e)
