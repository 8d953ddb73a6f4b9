-- ===== src/Programs/Serving/Runs.antt =====
-- Runs of the server put together: how it answers what is in flight and stops its loops.
use go_metrics_harvester.Base.{
  ℕ, zero, suc, ◌-◌, ◌≡◌, ◌≢◌, refl, String, Bool, true, false, List, arith,
}
use mathlib.Core.Path.{subst}
use go_metrics_harvester.Metric.{Metric}
use go_metrics_harvester.Metric.Json.{Json}
use go_metrics_harvester.Service.{Disk}
use go_metrics_harvester.Programs.Serving.{
  Which, http, grpc, Loop, selecting, opened, returned, Phase, running, stopping_grpc,
  stopping_http, stopped, fatal, exited, Process, put_at, IsAlive, Step, update, set,
  accept_request, answer_request, accept_call, answer_call, tick, tick_fails, save, stop_loop,
  spawn, open_by_handler, fail_by_handler, save_by_handler, fail_listener, signal, stop_grpc,
  stop_http, shutdown_fails, exit, Reach, here, next,
}

put_at-eq :
    {A : Type 0} (w : Which) (a : A) (f : Which → A) → f w ≡ a → (v : Which) → f v ≡ put_at w a f v
put_at-eq http a f e http = e
put_at-eq http a f e grpc = refl
put_at-eq grpc a f e http = refl
put_at-eq grpc a f e grpc = e

pub put_at-grpc-put_at-http :
    {A : Type 0} (a : A) (f : Which → A) (w : Which) → put_at grpc a (put_at http a f) w ≡ a
put_at-grpc-put_at-http a f http = refl
put_at-grpc-put_at-http a f grpc = refl

put_at-of_eq :
    {A : Type 0} (w : Which) (a : A) (f : Which → A)
    → ((v : Which) → f v ≡ a)
    → (v : Which) → put_at w a f v ≡ a
put_at-of_eq http a f e http = refl
put_at-of_eq http a f e grpc = e grpc
put_at-of_eq grpc a f e http = e http
put_at-of_eq grpc a f e grpc = refl

-- Once the signal has come the context is cancelled, and behind GracefulStop no goroutine listens.
abbrev pub OrderedAt : Phase → Bool → (Which → Bool) → Type 0
OrderedAt stopping_grpc cancelled listening = cancelled ≡ true
OrderedAt stopping_http cancelled listening =
    (cancelled ≡ true) × ((w : Which) → listening w ≡ false)
OrderedAt stopped cancelled listening = (cancelled ≡ true) × ((w : Which) → listening w ≡ false)
OrderedAt _ _ _ = Unit

abbrev pub IsOrdered : {F : Type 0} {disk : Disk} → Process F disk → Type 0
IsOrdered s = OrderedAt s.phase s.cancelled s.listening

OrderedAt-put_at :
    (p : Phase) (c : Bool) (w : Which) (f : Which → Bool)
    → OrderedAt p c f
    → OrderedAt p true (put_at w false f)
OrderedAt-put_at running c w f h = tt
OrderedAt-put_at stopping_grpc c w f h = refl
OrderedAt-put_at stopping_http c w f h = (refl, put_at-of_eq w false f h.1)
OrderedAt-put_at stopped c w f h = (refl, put_at-of_eq w false f h.1)
OrderedAt-put_at fatal c w f h = tt
OrderedAt-put_at exited c w f h = tt

module _ {F : Type 0} {visit : List (Metric F) → List (Metric F)} {json : Json F} {disk : Disk}
    {path : String} {store_interval : ℕ} where
  step-IsOrdered :
      {s t : Process F disk}
      → Step visit json disk path store_interval s t
      → IsOrdered s
      → IsOrdered t
  step-IsOrdered (update _ _ _) h = h
  step-IsOrdered (set _ _ _) h = h
  step-IsOrdered (spawn _ _ _) h = h
  step-IsOrdered (accept_request _ _) h = h
  step-IsOrdered (answer_request _ _) h = h
  step-IsOrdered (accept_call _ _) h = h
  step-IsOrdered (answer_call _ _) h = h
  step-IsOrdered (tick _ _ _ _) h = h
  step-IsOrdered (tick_fails _ _ _ _) h = h
  step-IsOrdered (save _ _ _) h = h
  step-IsOrdered (stop_loop _ _ _ _) h = h
  step-IsOrdered (open_by_handler _ _ _) h = h
  step-IsOrdered (fail_by_handler _ _ _) h = h
  step-IsOrdered (save_by_handler _ _) h = h
  step-IsOrdered {s = s} (fail_listener w _ _) h =
      OrderedAt-put_at s.phase s.cancelled w s.listening h
  step-IsOrdered (signal _) h = refl
  step-IsOrdered {s = s} (stop_grpc e _) h =
      (subst (λ p. OrderedAt p s.cancelled s.listening) e h, λ w. refl)
  step-IsOrdered {s = s} (stop_http e _) h = subst (λ p. OrderedAt p s.cancelled s.listening) e h
  step-IsOrdered (shutdown_fails _ _) h = tt
  step-IsOrdered (exit _ _ _) h = tt

  pub Reach-IsOrdered :
      {s t : Process F disk}
      → Reach visit json disk path store_interval s t
      → IsOrdered s
      → IsOrdered t
  Reach-IsOrdered here h = h
  Reach-IsOrdered (next r step) h = step-IsOrdered step (Reach-IsOrdered r h)

  -- Every call in flight is answered.
  pub answer_calls :
      {p : Process F disk} (n : ℕ) (s : Process F disk)
      → s.calls ≡ n
      → IsAlive s.phase
      → Reach visit json disk path store_interval p s
      → Reach visit json disk path store_interval p (record s { calls = 0 })
  answer_calls {p} zero s e alive r =
      subst (λ n. Reach visit json disk path store_interval p (record s { calls = n })) e r
  answer_calls (suc n) s e alive r =
      answer_calls n (record s { calls = s.calls - 1 }) (omega arith) alive
        (next r (answer_call alive (omega arith)))

  pub answer_requests :
      {p : Process F disk} (n : ℕ) (s : Process F disk)
      → s.requests ≡ n
      → IsAlive s.phase
      → Reach visit json disk path store_interval p s
      → Reach visit json disk path store_interval p (record s { requests = 0 })
  answer_requests {p} zero s e alive r =
      subst (λ n. Reach visit json disk path store_interval p (record s { requests = n })) e r
  answer_requests (suc n) s e alive r =
      answer_requests n (record s { requests = s.requests - 1 }) (omega arith) alive
        (next r (answer_request alive (omega arith)))

  -- A loop that is not about to write returns.
  pub stop_one :
      {p : Process F disk} (w : Which) (l : Loop) (s : Process F disk)
      → s.loop w ≡ l
      → l ≢ opened
      → IsAlive s.phase
      → s.cancelled ≡ true
      → Reach visit json disk path store_interval p s
      → Reach visit json disk path store_interval p (record s { loop = put_at w returned s.loop })
  stop_one w selecting s e ne alive off r = next r (stop_loop w alive off e)
  stop_one w opened s e ne alive off r = absurd (ne refl)
  stop_one {p} w returned s e ne alive off r =
      subst (λ f. Reach visit json disk path store_interval p (record s { loop = f }))
        (λ i v. put_at-eq w returned s.loop e v i) r
