-- ===== src/Agent/Counts.antt =====
-- PollCount from the agent's map to the server's storage.
use go_metrics_harvester.Base.{
  ℕ, ◌+◌, ◌%◌, ◌<◌, String, ◌≡◌, ◌≢◌, inl, inr, refl, sym, ap, ◌∙◌, Option, none, some, List, [],
  ◌∷◌, ◌==◌, eq_iff, if◌then◌else◌, arith, All, Outcome, ok, length, Action, pure, ◌>>◌, >>-of_ok,
}
use mathlib.Core.List.{Permᴰ}
use mathlib.Core.Path.{subst}
use go_metrics_harvester.Base.Dict.{Dict, lookup, values}
use go_metrics_harvester.Metric.{Metric, gauge, counter, int64_mod}
use go_metrics_harvester.Metric.Json.{Json}
use go_metrics_harvester.Memory
use go_metrics_harvester.Memory.{Storage}
use go_metrics_harvester.Memory.Keyed.{IsKeyed, assign-IsKeyed}
use go_metrics_harvester.Memory.Totals.{amount, total, last_value, with_data, get-update}
use go_metrics_harvester.Memory.Typed.{IsTyped, IsTypedStore, update-IsTypedStore}
use go_metrics_harvester.Service
use go_metrics_harvester.Service.InMemory.{memory}
use go_metrics_harvester.Service.{Repository}
use go_metrics_harvester.Service.Rules.{IsAccepted, update-of_accepted}
use go_metrics_harvester.Agent.{publish_metrics, gauge_metric, count_metric}
use go_metrics_harvester.Agent.Polls.{
  Polled, IsKept, IsSendable, kept-Polled, update-Polled, lookup-Polled, values-put,
  gauge_metric-IsSendable, count_metric-IsSendable,
}

-- The types of the agent's metrics: all are gauges but one.
abbrev pub agent_types : String → String
agent_types id = if id == "PollCount" then counter else gauge

module _ {F : Type 0} where
  total-perm : (key : String) {l l' : List (Metric F)} → Permᴰ l l' → total key l ≡ total key l'
  unfolding total
  total-perm key Permᴰ.nil = refl
  total-perm key (Permᴰ.cons {l₁ = l} e p) = λ i. amount key (e i) + total-perm key p i
  total-perm key (Permᴰ.swap {a = x} {b = y} {a' = y'} {b' = x'} {l = l} e f) =
      let swapped : total key (x ∷ y ∷ l) ≡ total key (y ∷ x ∷ l) = omega arith in
      swapped ∙ (λ i. total key (f i ∷ e i ∷ l))
  total-perm key (Permᴰ.trans p q) = total-perm key p ∙ total-perm key q

  All-perm : (P : Metric F → Type 0) {l l' : List (Metric F)} → Permᴰ l l' → All P l → All P l'
  All-perm P Permᴰ.nil h = tt
  All-perm P (Permᴰ.cons e p) (a, h) = (subst P e a, All-perm P p h)
  All-perm P (Permᴰ.swap e f) (a, (b, h)) = (subst P f b, (subst P e a, h))
  All-perm P (Permᴰ.trans p q) h = All-perm P q (All-perm P p h)

  -- What an entry of the map adds to the counter of its name.
  abbrev held : String → Option (Metric F) → ℕ
  held key none = 0
  held key (some m) = amount key m

  total-values :
      (key : String) (d : Dict (Metric F))
      → IsKeyed d
      → total key (values d) ≡ held key (lookup key d)
  unfolding total values lookup
  total-values key [] h = refl
  total-values key ((k, m) ∷ d) (e, new, h) =
      ground (arith, total-values key d h, eq_iff m.id key, eq_iff k key)

  gauge_metric-IsTyped :
      (id : String) (x : F) → id ≢ "" → id ≢ "PollCount" → IsTyped agent_types (gauge_metric id x)
  gauge_metric-IsTyped id x n m = record {
    kind = ground (arith, eq_iff id "PollCount");
    field = (gauge_metric-IsSendable id x n).field;
  }

  count_metric-IsTyped : (d : ℕ) → IsTyped {F = F} agent_types (count_metric "PollCount" d)
  count_metric-IsTyped d = record {
    kind = refl;
    field =
        (count_metric-IsSendable "PollCount" d (λ p. ground (arith, eq_iff "PollCount" ""))).field;
  }

  -- What a map of the agent's has by the polls.
  record IsFit (d : Dict (Metric F)) : Type 0 where
    keyed : IsKeyed d
    typed : All (IsTyped agent_types) (values d)

  IsKept-IsFit : IsKept IsFit
  unfolding values
  IsKept-IsFit = record {
    at_first = record { keyed = tt; typed = tt };
    by_gauge = λ id x d n m h. record {
      keyed = assign-IsKeyed id (gauge_metric id x) d refl h.keyed;
      typed = values-put (IsTyped agent_types) _ d (gauge_metric-IsTyped id x n m) h.typed;
    };
    by_count = λ d h. record {
      keyed = assign-IsKeyed "PollCount" (count_metric "PollCount" 1) d refl h.keyed;
      typed = values-put (IsTyped agent_types) _ d (count_metric-IsTyped 1) h.typed;
    };
  }

  -- A map that some poll of the run-time metrics has filled.
  pub record IsReport (d : Dict (Metric F)) : Type 0 where
    pub polled : Polled d
    pub counted : lookup "PollCount" d ≢ none

  held-of_report : (d : Dict (Metric F)) → IsReport d → held "PollCount" (lookup "PollCount" d) ≡ 1
  held-of_report d h = elim (lookup-Polled h.polled) [
    | inl e ↦ absurd (h.counted e)
    | inr e ↦ ap (held "PollCount") e
  ]

publish_metrics-of_ok :
    {F S : Type 0} (visit : List (Metric F) → List (Metric F))
    (publish : List (Metric F) → Action S (Unit {0})) (d : Dict (Metric F)) (s : S)
    → (publish (visit (values d)) s).0 ≡ ok tt
    → publish_metrics visit publish d s ≡ (ok tt, (publish (visit (values d)) s).1)
unfolding publish_metrics
publish_metrics-of_ok visit publish d s e = rw (e, publish_metrics)

IsAccepted-IsSendable : {F : Type 0} (me : List (Metric F)) → All IsSendable me → All IsAccepted me
IsAccepted-IsSendable [] h = tt
IsAccepted-IsSendable (m ∷ me) (a, h) = (a.accepted, IsAccepted-IsSendable me h)

module _ {F : Type 0} (W : Type 0) (visit stored : List (Metric F) → List (Metric F))
    (json : Json F) where
  abbrev pub repository : Repository F W
  repository = memory {W = W} stored json

  -- The reports of some maps, one behind the other, to the service of one server.
  pub reports : List (Dict (Metric F)) → Action (Storage F) (Unit {0})
  reports [] = pure tt
  reports (d ∷ ds) = publish_metrics visit (Service.update repository) d >> reports ds

  pub batch-IsAccepted :
      (d : Dict (Metric F)) (s : Storage F)
      → ((l : List (Metric F)) → Permᴰ l (visit l))
      → IsReport d
      → All IsAccepted (visit (values d))
  batch-IsAccepted d s shuffles h =
      IsAccepted-IsSendable (visit (values d))
        (All-perm IsSendable (shuffles (values d)) (update-Polled repository s h.polled).0)

  -- One report reaches the storage whole, and adds 1.
  pub publish_metrics-eq :
      (d : Dict (Metric F)) (s : Storage F)
      → ((l : List (Metric F)) → Permᴰ l (visit l))
      → IsReport d
      → IsTypedStore agent_types s
      → (publish_metrics visit (Service.update repository) d s
          ≡ (ok tt, (Memory.update (visit (values d)) s).1))
        × ((Memory.update (visit (values d)) s).0 ≡ ok tt)
        × IsTypedStore agent_types (Memory.update (visit (values d)) s).1
        × (total "PollCount" (visit (values d)) ≡ 1)
  publish_metrics-eq d s shuffles h typed =
      let l : List (Metric F) = visit (values d) in
      let fit = kept-Polled IsFit IsKept-IsFit h.polled in
      let p = shuffles (values d) in
      let (done, typed') =
        update-IsTypedStore agent_types l s typed (All-perm (IsTyped agent_types) p fit.typed) in
      let same : Service.update repository l s ≡ Memory.update l s =
        update-of_accepted repository l s (batch-IsAccepted d s shuffles h) in
      (
        publish_metrics-of_ok visit (Service.update repository) d s
              (ap (λ (r : Outcome (Unit {0}) × Storage F). r.0) same ∙ done)
            ∙ ap (λ (r : Outcome (Unit {0}) × Storage F). (ok tt, r.1)) same,
        done,
        typed',
        sym (total-perm "PollCount" p) ∙ total-values "PollCount" d fit.keyed ∙ held-of_report d h,
      )

  -- Whatever polls the maps come from and in whatever order a report visits them, every report of
  -- agents to a server whose storage keeps one type for each name, the agents' ones, is stored, and
  -- each adds 1 to the counter PollCount, modulo 2 ^ 64: it counts the reports in which some poll had
  -- filled the map, and not the polls between them.
  pub get-reports :
      (ds : List (Dict (Metric F))) (v : Metric F) (n : ℕ) (o : Option F) (s : Storage F)
      → ((l : List (Metric F)) → Permᴰ l (visit l))
      → All IsReport ds
      → IsTypedStore agent_types s
      → n < int64_mod
      → Memory.get "PollCount" s ≡ some (with_data v n o)
      → (o' : Option F) × ((reports ds s).0 ≡ ok tt)
        × (Memory.get "PollCount" (reports ds s).1
            ≡ some (with_data v ((n + length ds) % int64_mod) o'))
  unfolding reports
  get-reports [] v n o s shuffles h typed lt e =
      (o, refl, e ∙ ap (λ k. some (with_data v k o)) (omega arith))
  get-reports (d ∷ ds) v n o s shuffles (hd, h) typed lt e =
      let (step, done, typed', one) = publish_metrics-eq d s shuffles hd typed in
      let l : List (Metric F) = visit (values d) in
      let s' : Storage F = (Memory.update l s).1 in
      let publish : Action (Storage F) (Unit {0}) =
        publish_metrics visit (Service.update repository) d in
      let rest : reports (d ∷ ds) s ≡ reports ds s' =
        >>-of_ok publish (reports ds) s (ap (λ (r : Outcome (Unit {0}) × Storage F). r.0) step)
        ∙ ap (λ (r : Outcome (Unit {0}) × Storage F). reports ds r.1) step in
      let (o', stored', e') =
        get-reports ds v ((n + total "PollCount" l) % int64_mod) (last_value "PollCount" l o) s'
          shuffles h typed' (omega arith) (get-update l v n o "PollCount" s lt e done) in
      (
        o',
        ap (λ (r : Outcome (Unit {0}) × Storage F). r.0) rest ∙ stored',
        ap (λ (r : Outcome (Unit {0}) × Storage F). Memory.get "PollCount" r.1) rest
            ∙ e'
            ∙ ap (λ k. some (with_data v k o')) (omega arith),
      )
