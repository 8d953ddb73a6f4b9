-- ===== src/Agent.antt =====
-- internal/agent/agent.go: the metrics that the agent polls, the workers that publish them, and the
-- address that a request names.
pub mod Config
pub mod Polls
pub mod Counts
pub mod Workers
pub mod Stall
pub mod Ending
pub mod Address
use go_metrics_harvester.Base.{
  ℕ, suc, String, ◌⊎◌, inl, inr, Option, none, some, List, [], ◌∷◌, ◌++◌, Error, wrap, Outcome, ok,
  err, panic, Action,
}
use Prim.Native.String
use go_metrics_harvester.Base.Dict.{Dict, assign, values}
use go_metrics_harvester.Metric.{Metric, gauge, counter}

-- fmt.Sprintf("CPUutilization%d", i + 1), of the number in decimal.
abbrev pub cpu_name : String → String
cpu_name number = String.◌++◌ "CPUutilization" number

-- What a poll takes from runtime, math/rand and gopsutil, as float64 already: `stat` is a field of
-- MemStats by its name, `decimal` prints a number.
pub record Readings (F : Type 0) : Type 0 where
  pub stat : String → F
  pub random : F
  pub virtual_memory : Error ⊎ (F × F)
  pub percents : Error ⊎ List F
  pub decimal : ℕ → String

-- The gauges of requestMetrics, in the order of the source.
abbrev pub stat_names : List String
stat_names =
    "Alloc" ∷ "BuckHashSys" ∷ "Frees" ∷ "GCCPUFraction" ∷ "GCSys" ∷ "HeapAlloc" ∷ "HeapIdle"
    ∷ "HeapInuse" ∷ "HeapObjects" ∷ "HeapReleased" ∷ "HeapSys" ∷ "LastGC" ∷ "Lookups"
    ∷ "MCacheInuse" ∷ "MCacheSys" ∷ "MSpanInuse" ∷ "MSpanSys" ∷ "Mallocs" ∷ "NextGC" ∷ "NumForcedGC"
    ∷ "NumGC" ∷ "OtherSys" ∷ "PauseTotalNs" ∷ "StackInuse" ∷ "StackSys" ∷ "Sys" ∷ "TotalAlloc" ∷ []

module _ {F : Type 0} where
  -- A gauge with floatPtr, and the counter with intPtr.
  abbrev pub gauge_metric : String → F → Metric F
  gauge_metric id x = record { id = id; mtype = gauge; delta = none; value = some x }

  abbrev pub count_metric : String → ℕ → Metric F
  count_metric id d = record { id = id; mtype = counter; delta = some d; value = none }

  -- NewMetrics; the mutex that it makes is held by every poll and report from its start to its end.
  abbrev pub new_metrics : Dict (Metric F)
  new_metrics = []

  -- m.Metrics[metric.ID] = metric
  abbrev pub put : Metric F → Dict (Metric F) → Dict (Metric F)
  put metric m = assign metric.id metric m

  unfoldable pub put_stats : (String → F) → List String → Dict (Metric F) → Dict (Metric F)
  put_stats stat [] m = m
  put_stats stat (name ∷ names) m = put_stats stat names (put (gauge_metric name (stat name)) m)

  -- requestMetrics, which holds the lock throughout.
  unfoldable pub request_metrics : Readings F → Dict (Metric F) → Dict (Metric F)
  request_metrics r m =
      put (gauge_metric "RandomValue" r.random)
        (put (count_metric "PollCount" 1) (put_stats r.stat stat_names m))

  -- The loop over the processors, `i` the number that the next one has.
  unfoldable pub put_percents : (ℕ → String) → ℕ → List F → Dict (Metric F) → Dict (Metric F)
  put_percents id i [] m = m
  put_percents id i (p ∷ percents) m =
      put_percents id (suc i) percents (put (gauge_metric (id i) p) m)

  -- requestMemoryMetrics: nothing is written unless both readings succeed.
  unfoldable pub request_memory_metrics : Readings F → Action (Dict (Metric F)) (Unit {0})
  request_memory_metrics r m = elim r.virtual_memory [
    | inl e ↦ (err (wrap "memory" e), m)
    | inr (total, free) ↦ elim r.percents [
      | inl e ↦ (err (wrap "cpu" e), m)
      | inr percents ↦ (
        ok tt,
        put_percents (λ i. cpu_name (r.decimal i)) 1 percents
            (put (gauge_metric "FreeMemory" free) (put (gauge_metric "TotalMemory" total) m)),
      )
    ]
  ]

-- publishMetrics: the values in the order that the map is visited in, and the client's Publish on
-- them.
unfoldable pub publish_metrics :
    {F W : Type 0}
    → (List (Metric F) → List (Metric F))
    → (List (Metric F) → Action W (Unit {0}))
    → Dict (Metric F)
    → Action W (Unit {0})
publish_metrics visit publish m w =
    let (r, w') = publish (visit (values m)) w in
    elim r [ ok _ ↦ (ok tt, w') | err e ↦ (err (wrap "client post" e), w') | panic ↦ (panic, w') ]
