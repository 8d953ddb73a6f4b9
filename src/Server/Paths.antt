-- ===== src/Server/Paths.antt =====
-- The update that a path carries, /update/{type}/{name}/{value}.
use go_metrics_harvester.Base.{
  String, ◌≡◌, ◌≢◌, ◌⊎◌, inl, inr, refl, sym, ap, ◌∙◌, true, false, Bool, Bool-cases, none, some,
  ◌==◌, eq_iff, arith,
}
use go_metrics_harvester.Metric.{
  Metric, Strconv, gauge, counter, allowed_metric_type, validate_counter, validate_gauge,
}
use go_metrics_harvester.Memory.Safety.{HasField}
use go_metrics_harvester.Service
use go_metrics_harvester.Service.{Repository}
use go_metrics_harvester.Service.Rules.{IsAccepted, set-of_accepted}
use go_metrics_harvester.Http.{Request, Reply, Net, refuse}
use go_metrics_harvester.Server.{Web, update_handler, metric_of, set_done}

module _ {F W : Type 0} (net : Net) (web : Web F) (conv : Strconv F)
    (storage : Repository F W) where
  abbrev pub path_metric : Request → Metric F
  path_metric req =
      metric_of net web conv storage (web.url_param req "name") (web.url_param req "type")
        (web.url_param req "value")

  -- The type is allowed, and the text for the value does not parse as a number of that type.
  abbrev pub Rejects : String → String → Type 0
  Rejects mtype mvalue =
      ((mtype ≡ gauge) × (conv.parse_float mvalue ≡ none))
      ⊎ ((mtype ≡ counter) × (conv.parse_int mvalue ≡ none))

  allowed_of_gauge : allowed_metric_type conv gauge ≡ some (validate_gauge conv)
  unfolding allowed_metric_type
  allowed_of_gauge = refl

  allowed_of_counter : allowed_metric_type conv counter ≡ some (validate_counter conv)
  unfolding allowed_metric_type
  allowed_of_counter = refl

  allowed_cases :
      (mtype : String)
      → (mtype ≡ gauge) ⊎ ((mtype ≡ counter) ⊎ (allowed_metric_type conv mtype ≡ none))
  unfolding allowed_metric_type
  allowed_cases mtype = elim (Bool-cases (mtype == gauge)) [
    | inl g ↦ inl ((eq_iff _ _).0 g)
    | inr g ↦ elim (Bool-cases (mtype == counter)) [
      | inl c ↦ inr (inl ((eq_iff _ _).0 c))
      | inr c ↦ inr (inr (rw (g, c) refl))
    ]
  ]

  allowed_none :
      (mtype : String)
      → allowed_metric_type conv mtype ≡ none
      → ¬ ((mtype ≡ gauge) ⊎ (mtype ≡ counter))
  allowed_none mtype e (inl g) = cc (e, ap (allowed_metric_type conv) g, allowed_of_gauge)
  allowed_none mtype e (inr c) = cc (e, ap (allowed_metric_type conv) c, allowed_of_counter)

  validate_gauge_parses :
      (mvalue : String) → validate_gauge conv mvalue ≡ true → conv.parse_float mvalue ≢ none
  unfolding validate_gauge
  validate_gauge_parses mvalue e = ground arith

  validate_gauge_rejects :
      (mvalue : String) → validate_gauge conv mvalue ≡ false → conv.parse_float mvalue ≡ none
  unfolding validate_gauge
  validate_gauge_rejects mvalue e = ground arith

  validate_counter_parses :
      (mvalue : String) → validate_counter conv mvalue ≡ true → conv.parse_int mvalue ≢ none
  unfolding validate_counter
  validate_counter_parses mvalue e = ground arith

  validate_counter_rejects :
      (mvalue : String) → validate_counter conv mvalue ≡ false → conv.parse_int mvalue ≡ none
  unfolding validate_counter
  validate_counter_rejects mvalue e = ground arith

  gauge_metric-HasField :
      (mname mtype mvalue : String)
      → mtype ≡ gauge
      → conv.parse_float mvalue ≢ none
      → HasField (metric_of net web conv storage mname mtype mvalue)
  unfolding metric_of
  gauge_metric-HasField mname mtype mvalue g h = record {
    counts = λ p. ground (arith, eq_iff mtype counter, eq_iff gauge counter);
    measures = λ p. ground (arith, eq_iff mtype counter, eq_iff gauge counter);
  }

  counter_metric-HasField :
      (mname mtype mvalue : String)
      → mtype ≡ counter
      → conv.parse_int mvalue ≢ none
      → HasField (metric_of net web conv storage mname mtype mvalue)
  unfolding metric_of
  counter_metric-HasField mname mtype mvalue c h = record {
    counts = λ p. ground (arith, eq_iff mtype counter, eq_iff gauge counter);
    measures = λ p. ground (arith, eq_iff mtype counter, eq_iff gauge counter);
  }

  metric_of_fields :
      (mname mtype mvalue : String)
      → ((metric_of net web conv storage mname mtype mvalue).id ≡ mname)
        × ((metric_of net web conv storage mname mtype mvalue).mtype ≡ mtype)
  unfolding metric_of
  metric_of_fields mname mtype mvalue = ground arith

  handled_valid :
      (req : Request) (s : storage.State) (validate : String → Bool)
      → (web.url_param req "name" == "") ≡ false
      → allowed_metric_type conv (web.url_param req "type") ≡ some validate
      → validate (web.url_param req "value") ≡ true
      → update_handler net web conv storage req s
        ≡ set_done net web conv storage (Service.set storage (path_metric req) s)
  unfolding update_handler
  handled_valid req s validate n a v = rw (n, a, v, update_handler) refl

  handled_invalid :
      (req : Request) (s : storage.State) (validate : String → Bool)
      → (web.url_param req "name" == "") ≡ false
      → allowed_metric_type conv (web.url_param req "type") ≡ some validate
      → validate (web.url_param req "value") ≡ false
      → update_handler net web conv storage req s ≡ refuse net "bad request (value)" 400 s
  unfolding update_handler
  handled_invalid req s validate n a v = rw (n, a, v, update_handler) refl

  path_metric-IsAccepted :
      (req : Request)
      → (web.url_param req "name" == "") ≡ false
      → (web.url_param req "type" ≡ gauge) ⊎ (web.url_param req "type" ≡ counter)
      → IsAccepted (path_metric req)
  path_metric-IsAccepted req n t =
      let (id, mtype) =
        metric_of_fields (web.url_param req "name") (web.url_param req "type")
          (web.url_param req "value") in
      record {
        named = λ p. cc (n, (eq_iff _ _).1 (sym id ∙ p));
        typed = elim t [ inl g ↦ inl (mtype ∙ g) | inr c ↦ inr (mtype ∙ c) ];
      }

  -- What the handler makes of a request: the first of these that fits its path.
  pub data Handled (req : Request) (s : storage.State) (reply : Reply storage.State) : Type 0 where
    unnamed :
        web.url_param req "name" ≡ "" → reply ≡ refuse net "not found" 404 s → Handled req s reply
    bad_type :
        web.url_param req "name" ≢ ""
        → ¬ ((web.url_param req "type" ≡ gauge) ⊎ (web.url_param req "type" ≡ counter))
        → reply ≡ refuse net "bad request (type)" 400 s
        → Handled req s reply
    bad_value :
        web.url_param req "name" ≢ ""
        → Rejects (web.url_param req "type") (web.url_param req "value")
        → reply ≡ refuse net "bad request (value)" 400 s
        → Handled req s reply
    stored :
        IsAccepted (path_metric req)
        → HasField (path_metric req)
        → reply ≡ set_done net web conv storage (storage.set (path_metric req) s)
        → Handled req s reply

  gauge-Handled :
      (req : Request) (s : storage.State)
      → (web.url_param req "name" == "") ≡ false
      → web.url_param req "type" ≡ gauge
      → Handled req s (update_handler net web conv storage req s)
  gauge-Handled req s n g =
      let a = ap (allowed_metric_type conv) g ∙ allowed_of_gauge in
      let value = web.url_param req "value" in
      let accepted = path_metric-IsAccepted req n (inl g) in
      elim (Bool-cases (validate_gauge conv value)) [
        | inl v ↦
            stored accepted (gauge_metric-HasField _ _ value g (validate_gauge_parses value v)) (
              handled_valid req s _ n a v
              ∙ ap (set_done net web conv storage) (set-of_accepted storage _ s accepted))
        | inr v ↦
            bad_value (λ p. cc (n, (eq_iff _ _).1 p)) (inl (g, validate_gauge_rejects value v))
              (handled_invalid req s _ n a v)
      ]

  counter-Handled :
      (req : Request) (s : storage.State)
      → (web.url_param req "name" == "") ≡ false
      → web.url_param req "type" ≡ counter
      → Handled req s (update_handler net web conv storage req s)
  counter-Handled req s n c =
      let a = ap (allowed_metric_type conv) c ∙ allowed_of_counter in
      let value = web.url_param req "value" in
      let accepted = path_metric-IsAccepted req n (inr c) in
      elim (Bool-cases (validate_counter conv value)) [
        | inl v ↦
            stored accepted (counter_metric-HasField _ _ value c (validate_counter_parses value v))
              (handled_valid req s _ n a v
                ∙ ap (set_done net web conv storage) (set-of_accepted storage _ s accepted))
        | inr v ↦
            bad_value (λ p. cc (n, (eq_iff _ _).1 p)) (inr (c, validate_counter_rejects value v))
              (handled_invalid req s _ n a v)
      ]

  -- The handler of /update/{type}/{name}/{value} answers a path without a name with 404, one with
  -- another type or with a value that is no number of its type with 400, each time without touching
  -- the storage; every other path it stores as a metric that has a name, an allowed type and the
  -- field of that type.
  pub update_handler-Handled :
      (req : Request) (s : storage.State)
      → Handled req s (update_handler net web conv storage req s)
  unfolding update_handler
  update_handler-Handled req s = elim (Bool-cases (web.url_param req "name" == "")) [
    | inl e ↦ unnamed ((eq_iff _ _).0 e) (rw (e, update_handler) refl)
    | inr n ↦ elim (allowed_cases (web.url_param req "type")) [
      | inl g ↦ gauge-Handled req s n g
      | inr (inl c) ↦ counter-Handled req s n c
      | inr (inr a) ↦
          bad_type (λ p. cc (n, (eq_iff _ _).1 p)) (allowed_none (web.url_param req "type") a)
            (rw (n, a, update_handler) refl)
    ]
  ]
