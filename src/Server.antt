-- ===== src/Server.antt =====
-- internal/server/handlers.go: the seven handlers over the service, and the chain of middlewares of
-- the batch route of internal/server/server.go.
pub mod Replies
pub mod Paths
pub mod Config
pub mod Routes
use go_metrics_harvester.Base.{
  ℕ, String, ◌⊎◌, inl, inr, Bool, true, false, not, Option, none, some, List, [], ◌∷◌, map, ◌==◌,
  nat_eq, if◌then◌else◌, Error, metric_not_found, metric_bad_type, other, wrap, Outcome, ok, err,
  panic,
}
use go_metrics_harvester.Metric.{Metric, Strconv, gauge, counter, is_allowed, allowed_metric_type}
use go_metrics_harvester.Service
use go_metrics_harvester.Service.{Repository}
use go_metrics_harvester.Http.{
  Call, set_header, write_header, write, Body, Request, Reply, Handler, Net, answer, refuse, crash,
}

-- What the handlers take from encoding/json, errors, fmt and chi: `decode` reads a request's body,
-- `encode` writes a metric, or null, `error_json` the object of JSONError, `page` the list of
-- metrics, and `url_param` is chi.URLParam.
pub record Web (F : Type 0) : Type 0 where
  pub decode_metric : Body → Error ⊎ Metric F
  pub decode_list : Body → Error ⊎ List (Metric F)
  pub encode_metric : Option (Metric F) → Error ⊎ List ℕ
  pub error_json : String → List ℕ
  pub page : List (String × String) → List ℕ
  pub url_param : Request → String → String
  pub message : Error → String

-- errors.Is, which looks through errors.Wrap.
abbrev pub is_not_found : Error → Bool
is_not_found metric_not_found = true
is_not_found (wrap _ e) = is_not_found e
is_not_found _ = false

abbrev pub is_bad_type : Error → Bool
is_bad_type metric_bad_type = true
is_bad_type (wrap _ e) = is_bad_type e
is_bad_type _ = false

module _ {F W : Type 0} (net : Net) (web : Web F) (conv : Strconv F)
    (storage : Repository F W) where
  open storage use {State}

  -- JSONError.
  unfoldable pub json_error : String → ℕ → State → Reply State
  json_error msg code = answer (
      set_header "Content-Type" "application/json"
      ∷ write_header code
      ∷ write (web.error_json msg)
      ∷ [])

  abbrev pub plain_ok : List Call
  plain_ok = set_header "Content-Type" "text/plain" ∷ write_header 200 ∷ []

  abbrev pub json_ok : List Call
  json_ok = set_header "Content-Type" "application/json" ∷ write_header 200 ∷ []

  abbrev pinged : Outcome (Unit {0}) × State → Reply State
  pinged (ok _, s) = answer plain_ok s
  pinged (err e, s) = refuse net "" 500 s
  pinged (panic, s) = crash s

  unfoldable pub ping_db_handler : Handler State
  ping_db_handler req s = pinged (Service.ping storage s)

  -- The text of one metric, or a panic where the field of its type is nil.
  unfoldable pub value_text : Metric F → Option String
  value_text m =
      if m.mtype == gauge
      then elim m.value [ none ↦ none | some x ↦ some (conv.format_float x) ]
      else if m.mtype == counter
      then elim m.delta [ none ↦ none | some d ↦ some (conv.format_int d) ]
      else some ""

  -- The loop of listMetricHandler.
  unfoldable pub items : List (Metric F) → Option (List (String × String))
  unfolding value_text
  items [] = some []
  items (m ∷ list) = elim (value_text m) [
    | none ↦ none
    | some text ↦ elim (items list) [ none ↦ none | some rest ↦ some ((m.id, text) ∷ rest) ]
  ]

  abbrev listed : State → Option (List (String × String)) → Reply State
  listed s none = crash s
  listed s (some li) =
      answer (set_header "Content-Type" "text/html; charset=utf-8" ∷ write (web.page li) ∷ []) s

  abbrev list_found : Outcome (List (Metric F)) × State → Reply State
  list_found (ok list, s) = listed s (items list)
  list_found (err e, s) = refuse net "" 500 s
  list_found (panic, s) = crash s

  unfoldable pub list_metric_handler : Handler State
  unfolding items
  list_metric_handler req s = list_found (Service.list storage s)

  -- The status is written before the metric is encoded; a failure then adds an error behind it.
  abbrev pub encoded : Option (Metric F) → State → Reply State
  encoded m s = elim (web.encode_metric m) [
    | inr b ↦
        answer (set_header "Content-Type" "application/json" ∷ write_header 200 ∷ write b ∷ []) s
    | inl e ↦
        answer
          (set_header "Content-Type" "application/json"
            ∷ write_header 200
            ∷ (json_error (web.message e) 400 s).calls)
          s
  ]

  abbrev value_found : Outcome (Metric F) × State → Reply State
  value_found (ok m, s) = encoded (some m) s
  value_found (err e, s) = json_error "not found" 404 s
  value_found (panic, s) = crash s

  unfoldable pub get_metric_handler_json : Handler State
  unfolding json_error
  get_metric_handler_json req s = elim (web.decode_metric req.body) [
    | inl e ↦ json_error (web.message e) 400 s
    | inr m ↦
        if not (is_allowed m.mtype)
        then json_error "not found" 404 s
        else value_found (Service.get storage m.id m.mtype s)
  ]

  -- The switch on the error of Set.
  abbrev set_failed : Error → State → Reply State
  set_failed e =
      if is_not_found e
      then json_error (web.message e) 404
      else if is_bad_type e
      then json_error (web.message e) 400
      else json_error (web.message e) 500

  -- The metric that is read again behind Set: nil if that fails, which is encoded as null.
  -- Either way a save is started if the store interval is 0.
  abbrev saving : ℕ → Reply State → Reply State
  saving store_interval reply = record reply { saves = nat_eq store_interval 0 }

  abbrev read_again : ℕ → Outcome (Metric F) × State → Reply State
  read_again store_interval (ok m, s) = saving store_interval (encoded (some m) s)
  read_again store_interval (err e, s) = saving store_interval (encoded none s)
  read_again store_interval (panic, s) = crash s

  abbrev updated : ℕ → Metric F → Outcome (Unit {0}) × State → Reply State
  updated store_interval m (ok _, s) =
      read_again store_interval (Service.get storage m.id m.mtype s)
  updated store_interval m (err e, s) = set_failed e s
  updated store_interval m (panic, s) = crash s

  unfoldable pub update_handler_json : ℕ → Handler State
  unfolding json_error
  update_handler_json store_interval req s = elim (web.decode_metric req.body) [
    | inl e ↦ json_error (web.message e) 400 s
    | inr m ↦ updated store_interval m (Service.set storage m s)
  ]

  -- The value is written before the header is set.
  abbrev text_of : State → Option String → Reply State
  text_of s none = crash s
  text_of s (some text) = answer (write (net.bytes text) ∷ plain_ok) s

  abbrev text_found : Outcome (Metric F) × State → Reply State
  text_found (ok m, s) = text_of s (value_text m)
  text_found (err e, s) = refuse net "not found" 404 s
  text_found (panic, s) = crash s

  unfoldable pub get_metric_handler : Handler State
  unfolding value_text
  get_metric_handler req s =
      let mtype = web.url_param req "type" in
      if not (is_allowed mtype)
      then refuse net "not found" 404 s
      else text_found (Service.get storage (web.url_param req "name") mtype s)

  -- The metric that the path of an update names, given that its value is valid.
  unfoldable pub metric_of : String → String → String → Metric F
  metric_of mname mtype mvalue =
      if mtype == counter
      then record { id = mname; mtype = mtype; delta = conv.parse_int mvalue; value = none }
      else record { id = mname; mtype = mtype; delta = none; value = conv.parse_float mvalue }

  abbrev pub set_done : Outcome (Unit {0}) × State → Reply State
  set_done (ok _, s) = answer plain_ok s
  set_done (err e, s) = refuse net "" 500 s
  set_done (panic, s) = crash s

  unfoldable pub update_handler : Handler State
  unfolding metric_of
  update_handler req s =
      let mtype = web.url_param req "type" in
      let mname = web.url_param req "name" in
      let mvalue = web.url_param req "value" in
      if mname == "" then refuse net "not found" 404 s else elim (allowed_metric_type conv mtype) [
        | none ↦ refuse net "bad request (type)" 400 s
        | some validate ↦
            if not (validate mvalue)
            then refuse net "bad request (value)" 400 s
            else set_done (Service.set storage (metric_of mname mtype mvalue) s)
      ]

  -- The loop of updatesHandlerJSON over the names and types.
  unfoldable pub first_bad : List (Metric F) → Option (String × ℕ)
  first_bad [] = none
  first_bad (m ∷ me) =
      let rest = first_bad me in
      if m.id == ""
      then some ("not found", 404)
      else if not (is_allowed m.mtype)
      then some ("bad request (type)", 400)
      else rest

  abbrev pub batch_stored : Outcome (Unit {0}) × State → Reply State
  batch_stored (ok _, s) = answer json_ok s
  batch_stored (err e, s) = json_error (web.message e) 400 s
  batch_stored (panic, s) = crash s

  unfoldable pub updates_handler_json : Handler State
  unfolding json_error first_bad
  updates_handler_json req s = elim (web.decode_list req.body) [
    | inl e ↦ json_error (web.message e) 400 s
    | inr me ↦ elim (first_bad me) [
      | some (msg, code) ↦ json_error msg code s
      | none ↦ batch_stored (Service.update storage me s)
    ]
  ]
