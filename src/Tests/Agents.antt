-- ===== src/Tests/Agents.antt =====
-- The agent's polls, its workers and its address at work.
use go_metrics_harvester.Base.{
  ℕ, String, ◌≡◌, ◌≢◌, eq_iff, sym, Option, inr, refl, true, false, none, some, List, [], ◌∷◌,
  arith,
}
use mathlib.Core.List.{reverse}
use go_metrics_harvester.Base.Dict.{Dict, lookup, assign}
use go_metrics_harvester.Metric.{Metric, gauge, counter}
use go_metrics_harvester.Memory
use go_metrics_harvester.Memory.{Storage}
use go_metrics_harvester.Memory.Typed.{IsTyped, IsTypedStore}
use go_metrics_harvester.Service.{Repository}
use go_metrics_harvester.Service.InMemory.{memory}
use go_metrics_harvester.Agent.{
  put_stats, put_percents, Readings, count_metric, request_metrics, request_memory_metrics,
}
use go_metrics_harvester.Agent.Polls.{begun, by_metrics, by_memory_metrics}
use go_metrics_harvester.Agent.Counts.{agent_types, IsReport}
use go_metrics_harvester.Agent.Workers.{
  Pool, sending, start, report_due, send_job, take_job, cancel, Reach, here, next, IsCounted,
  Reach-IsCounted, IsStuck,
}
use go_metrics_harvester.Agent.Ending.{IsEnded, comes_to_end}
use go_metrics_harvester.Agent.Stall.{stalled, comes_to_stop}
use go_metrics_harvester.Agent.Address.{Interface, real_ip, scan, first_address}
use go_metrics_harvester.Tests.Samples.{codec}

abbrev readings : Readings ℕ
readings = record {
  stat = λ _. 3;
  random = 4;
  virtual_memory = inr (8, 2);
  percents = inr (50 ∷ 60 ∷ []);
  decimal = λ _. "1";
}

abbrev repository : Repository ℕ ℕ
repository = memory reverse codec

-- A poll of the memory behind one of the run-time metrics.
abbrev pub polled_twice : Dict (Metric ℕ)
polled_twice = (request_memory_metrics readings (request_metrics readings [])).1

-- A server that has counted 41 reports.
abbrev pub counted_41 : Storage ℕ
counted_41 = record { storage = ("PollCount", count_metric "PollCount" 41) ∷ [] }

get-counted_41 :
    (key : String) (m : Metric ℕ)
    → Memory.get key counted_41 ≡ some m
    → (m ≡ count_metric "PollCount" 41) × (key ≡ "PollCount")
unfolding Memory.get lookup
get-counted_41 key m e = ground (arith, eq_iff "PollCount" key)

count_41-IsTyped : IsTyped agent_types (count_metric {F = ℕ} "PollCount" 41)
count_41-IsTyped = record {
  kind = refl;
  field = record { counts = λ _ n. cc n; measures = λ p. ground (arith, eq_iff counter gauge) };
}

pub counted_41-IsTypedStore : IsTypedStore agent_types counted_41
counted_41-IsTypedStore = record {
  at = λ key m e. let (p, q) = get-counted_41 key m e in rw p (sym q, count_41-IsTyped);
}

count-ne-none : {m : Metric ℕ} {o : Option (Metric ℕ)} → o ≡ some m → o ≢ none
count-ne-none p q = cc (p, q)

pub polled_twice-IsReport : IsReport polled_twice
unfolding request_metrics request_memory_metrics put_stats put_percents lookup assign
polled_twice-IsReport = record {
  polled = by_memory_metrics readings (by_metrics readings begun);
  counted = count-ne-none {m = count_metric "PollCount" 1} refl;
}

-- One worker that has taken the first job.
abbrev one_busy : Pool
one_busy = record (start 1) { idle = 0; busy = 1; published = 1 }

one_job : Reach (start 1) one_busy
one_job =
    next (next (next here (report_due refl)) (send_job refl (omega arith)))
      (take_job (omega arith) (omega arith))

Reach-IsCounted_example : IsCounted 1 one_busy
Reach-IsCounted_example = Reach-IsCounted one_job

-- One worker, which has published, and 1025 reports.
abbrev spent : Pool
spent = record (start 1) { reporter = sending; queue = 1024; results = 1; published = 1; idle = 0 }

spent-IsStuck : IsStuck spent
spent-IsStuck = record { waits = refl; full = refl; alone = refl }

-- An interface that is down, and one with an address of each version.
abbrev pub interfaces : List Interface
interfaces =
    record { up = false; loopback = false; addrs = inr [] }
    ∷ record {
      up = true;
      loopback = false;
      addrs = inr (
          record { ip = true; loopback = false; ipv4 = none }
          ∷ record { ip = true; loopback = false; ipv4 = some "10.0.0.1" }
          ∷ []);
    }
    ∷ []

pub real_ip-of_interfaces : real_ip (inr interfaces) ≡ inr "10.0.0.1"
unfolding real_ip scan first_address
real_ip-of_interfaces = refl

-- The context ends at a reporter that waits for good.
abbrev cancelled : Pool
cancelled = record (stalled 2) { cancelled = true }

comes_to_stop_example : Reach (start 2) (stalled 2) × IsStuck cancelled × (cancelled.published ≡ 2)
comes_to_stop_example = comes_to_stop 2 cancelled (next here cancel)

comes_to_end_example : (q : Pool) × Reach one_busy q × IsEnded q
comes_to_end_example = comes_to_end 1 one_busy one_job (omega arith) (λ e. omega arith)
