-- ===== src/Agent/Polls.antt =====
-- What the polls of internal/agent/agent.go leave in the agent's map.
use go_metrics_harvester.Base.{
  ℕ, suc, String, ◌≡◌, ◌≢◌, ◌⊎◌, inl, inr, refl, ◌∙◌, some, List, [], ◌∷◌, ◌==◌, eq_iff, Bool, true,
  false, not, ◌&&◌, Sum-cases, Bool-cases, arith, All,
}
use text.Mathlib.TextLemmas.{append-eq-nil_iff}
use text.Mathlib.TextPositions.{starts_with-append}
use text.Mathlib.Text.{starts_with}
use mathlib.Core.Bool.{false≢true}
use mathlib.Core.Path.{sym, ap}
use mathlib.Core.Option.{none}
use go_metrics_harvester.Base.Dict.{
  Dict, lookup, assign, values, lookup-assign_self, lookup-assign_ne,
}
use go_metrics_harvester.Metric.{Metric, gauge, counter}
use go_metrics_harvester.Memory.Safety.{HasField}
use go_metrics_harvester.Service
use go_metrics_harvester.Service.{Repository}
use go_metrics_harvester.Service.Rules.{IsAccepted, update-of_accepted}
use go_metrics_harvester.Agent.{
  new_metrics, Readings, cpu_name, stat_names, gauge_metric, count_metric, put, put_stats,
  request_metrics, put_percents, request_memory_metrics,
}

cpu_name_ne : (number : String) → cpu_name number ≢ ""
cpu_name_ne number e = ground (arith, append-eq-nil_iff.0 e, eq_iff "CPUutilization" "")

named : (id : String) → (id == "") ≡ false → id ≢ ""
named id e p = cc (e, (eq_iff id "").1 p)

differ : (s t : String) → (s == t) ≡ false → s ≢ t
differ s t e p = cc (e, (eq_iff s t).1 p)

cpu_name_is_no_count : (number : String) → cpu_name number ≢ "PollCount"
cpu_name_is_no_count number e =
    let begins : starts_with (cpu_name number) "CPUutilization" ≡ true =
      starts_with-append "CPUutilization" number in
    false≢true (ap (λ s. starts_with s "CPUutilization") (sym e) ∙ begins)

-- The name of a gauge: not empty, and not that of the counter.
abbrev IsGaugeName : String → Type 0
IsGaugeName id = (id ≢ "") × (id ≢ "PollCount")

abbrev are_gauge_names : List String → Bool
are_gauge_names [] = true
are_gauge_names (id ∷ ids) = not (id == "") && not (id == "PollCount") && are_gauge_names ids

are_gauge_names-All : (ids : List String) → are_gauge_names ids ≡ true → All IsGaugeName ids
are_gauge_names-All [] e = tt
are_gauge_names-All (id ∷ ids) e = (
  (λ p. ground (arith, eq_iff id ""), λ p. ground (arith, eq_iff id "PollCount")),
  are_gauge_names-All ids (ground arith),
)

gauge_name : (id : String) → (id == "") ≡ false → (id == "PollCount") ≡ false → IsGaugeName id
gauge_name id e f = (named id e, differ id "PollCount" f)

module _ {F : Type 0} where
  -- The map after some polls, each of either kind and with its own readings.
  pub data Polled : Dict (Metric F) → Type 0 where
    begun : Polled new_metrics
    by_metrics : {d : Dict (Metric F)} (r : Readings F) → Polled d → Polled (request_metrics r d)
    by_memory_metrics :
        {d : Dict (Metric F)} (r : Readings F) → Polled d → Polled (request_memory_metrics r d).1

  -- A property of maps that every entry of the polls keeps.
  pub record IsKept (P : Dict (Metric F) → Type 0) : Type 0 where
    pub at_first : P new_metrics
    pub by_gauge :
        (id : String) (x : F) (d : Dict (Metric F))
        → id ≢ ""
        → id ≢ "PollCount"
        → P d
        → P (put (gauge_metric id x) d)
    pub by_count : (d : Dict (Metric F)) → P d → P (put (count_metric "PollCount" 1) d)

  module _ (P : Dict (Metric F) → Type 0) (kept : IsKept P) where
    kept-put :
        (id : String) (x : F) (d : Dict (Metric F))
        → IsGaugeName id
        → P d
        → P (put (gauge_metric id x) d)
    kept-put id x d (n, m) h = kept.by_gauge id x d n m h

    kept-put_stats :
        (stat : String → F) (names : List String) (d : Dict (Metric F))
        → All IsGaugeName names
        → P d
        → P (put_stats stat names d)
    unfolding put_stats
    kept-put_stats stat [] d n h = h
    kept-put_stats stat (name ∷ names) d (n, ns) h =
        kept-put_stats stat names _ ns (kept-put name _ d n h)

    kept-put_percents :
        (id : ℕ → String) (i : ℕ) (percents : List F) (d : Dict (Metric F))
        → ((i : ℕ) → IsGaugeName (id i))
        → P d
        → P (put_percents id i percents d)
    unfolding put_percents
    kept-put_percents id i [] d n h = h
    kept-put_percents id i (p ∷ percents) d n h =
        kept-put_percents id (suc i) percents _ n (kept-put (id i) p d (n i) h)

    kept-request_metrics : (r : Readings F) (d : Dict (Metric F)) → P d → P (request_metrics r d)
    unfolding request_metrics
    kept-request_metrics r d h =
        kept-put "RandomValue" r.random _ (gauge_name "RandomValue" refl refl) (
          kept.by_count _
            (kept-put_stats r.stat stat_names d (are_gauge_names-All stat_names refl) h))

    kept-request_memory_metrics :
        (r : Readings F) (d : Dict (Metric F)) → P d → P (request_memory_metrics r d).1
    unfolding request_memory_metrics
    kept-request_memory_metrics r d h = elim (Sum-cases r.virtual_memory) [
      | inl (e, bad) ↦ rw (bad, request_memory_metrics) h
      | inr (v, good) ↦ elim (Sum-cases r.percents) [
        | inl (e, bad) ↦ rw (good, bad, request_memory_metrics) h
        | inr (percents, fine) ↦
            rw (good, fine, request_memory_metrics)
              (kept-put_percents _ 1 percents _
                (λ i. (cpu_name_ne (r.decimal i), cpu_name_is_no_count (r.decimal i)))
                (kept-put "FreeMemory" v.1 _ (gauge_name "FreeMemory" refl refl)
                  (kept-put "TotalMemory" v.0 _ (gauge_name "TotalMemory" refl refl) h)))
      ]
    ]

    pub kept-Polled : {d : Dict (Metric F)} → Polled d → P d
    kept-Polled begun = kept.at_first
    kept-Polled (by_metrics r p) = kept-request_metrics r _ (kept-Polled p)
    kept-Polled (by_memory_metrics r p) = kept-request_memory_metrics r _ (kept-Polled p)

  -- A metric that the server takes: named, of an allowed type, and with the field of its type.
  pub record IsSendable (m : Metric F) : Type 0 where
    pub accepted : IsAccepted m
    pub field : HasField m

  pub gauge_metric-IsSendable : (id : String) (x : F) → id ≢ "" → IsSendable (gauge_metric id x)
  gauge_metric-IsSendable id x n = record {
    accepted = record { named = n; typed = inl refl };
    field = record { counts = λ p. ground (arith, eq_iff gauge counter); measures = λ _ p. cc p };
  }

  pub count_metric-IsSendable : (id : String) (d : ℕ) → id ≢ "" → IsSendable (count_metric id d)
  count_metric-IsSendable id d n = record {
    accepted = record { named = n; typed = inr refl };
    field = record { counts = λ _ p. cc p; measures = λ p. ground (arith, eq_iff gauge counter) };
  }

  pub values-put :
      (P : Metric F → Type 0) (m : Metric F) (d : Dict (Metric F))
      → P m
      → All P (values d)
      → All P (values (put m d))
  unfolding values assign
  values-put P m [] a h = (a, tt)
  values-put P m ((k, w) ∷ d) a (b, h) = elim (Bool-cases (k == m.id)) [
    | inl same ↦ rw same (a, h)
    | inr other' ↦ rw other' (b, values-put P m d a h)
  ]

  IsKept-IsSendable : IsKept (λ d. All IsSendable (values d))
  unfolding values
  IsKept-IsSendable = record {
    at_first = tt;
    by_gauge = λ id x d n m h. values-put IsSendable _ d (gauge_metric-IsSendable id x n) h;
    by_count =
        λ d h. values-put IsSendable _ d (count_metric-IsSendable "PollCount" 1 (named _ refl)) h;
  }

  IsAccepted-All : (me : List (Metric F)) → All IsSendable me → All IsAccepted me
  IsAccepted-All [] h = tt
  IsAccepted-All (m ∷ me) (a, h) = (a.accepted, IsAccepted-All me h)

  -- After any polls every metric of the agent's map has a name, an allowed type and the field of
  -- that type, so the server's service refuses no batch of them: it goes to the repository whole.
  pub update-Polled :
      {W : Type 0} {d : Dict (Metric F)} (storage : Repository F W) (s : storage.State)
      → Polled d
      → All IsSendable (values d)
        × (Service.update storage (values d) s ≡ storage.update (values d) s)
  update-Polled storage s p =
      let h = kept-Polled (λ d. All IsSendable (values d)) IsKept-IsSendable p in
      (h, update-of_accepted storage _ s (IsAccepted-All _ h))

  -- The entry of PollCount: none, or with the delta 1.
  abbrev Counts : Dict (Metric F) → Type 0
  Counts d =
      (lookup "PollCount" d ≡ none) ⊎ (lookup "PollCount" d ≡ some (count_metric "PollCount" 1))

  IsKept-Counts : IsKept Counts
  unfolding lookup
  IsKept-Counts = record {
    at_first = inl refl;
    by_gauge = λ id x d n m h. rw (lookup-assign_ne id "PollCount" (gauge_metric id x) d m) h;
    by_count = λ d h. inr (lookup-assign_self "PollCount" (count_metric "PollCount" 1) d);
  }

  -- However many polls there were, of whichever kind, the delta of PollCount is 1 if it is in the
  -- map at all: the polls between two reports are not added up.
  pub lookup-Polled :
      {d : Dict (Metric F)}
      → Polled d
      → (lookup "PollCount" d ≡ none) ⊎ (lookup "PollCount" d ≡ some (count_metric "PollCount" 1))
  lookup-Polled p = kept-Polled Counts IsKept-Counts p
