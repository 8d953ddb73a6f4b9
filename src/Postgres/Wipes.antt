-- ===== src/Postgres/Wipes.antt =====
-- A gauge under the name of a counter: what the statement leaves, and what a handler then makes of it.
use go_metrics_harvester.Base.{
  String, ◌≡◌, inr, refl, sym, ap, ◌∙◌, true, Option, none, some, eq_iff, arith, checked-eq-ok, ok,
}
use go_metrics_harvester.Base.Dict.{Dict, lookup, assign, lookup-assign_self}
use go_metrics_harvester.Metric.{Metric, Strconv, gauge, counter}
use go_metrics_harvester.Metric.Json.{Json}
use go_metrics_harvester.Memory.Safety.{HasField, is_malformed_iff}
use go_metrics_harvester.Service
use go_metrics_harvester.Service.{Repository}
use go_metrics_harvester.Service.Rules.{get-of_found}
use go_metrics_harvester.Http.{Request, Net}
use go_metrics_harvester.Server.{Web, get_metric_handler, value_text}
use go_metrics_harvester.Postgres.{set, get, repository}
use go_metrics_harvester.Postgres.Driver.{Database}
use go_metrics_harvester.Postgres.Query.{Transacts, insert_query, do_update, plus}

module _ {F : Type 0} where
  abbrev pub wiped : Metric F → Metric F → Metric F
  wiped v m = record v { delta = none; value = m.value }

  lookup-insert_query :
      (m v : Metric F) (t t' : Dict (Metric F))
      → m.delta ≡ none
      → lookup m.id t ≡ some v
      → insert_query m t ≡ some t'
      → lookup m.id t' ≡ some (wiped v m)
  unfolding insert_query do_update plus
  lookup-insert_query m v t t' null there e =
      let made : some (assign m.id (wiped v m) t) ≡ some t' =
        rw (there, null, insert_query, do_update, plus) at e in
      let same : assign m.id (wiped v m) t ≡ t' = cc made in
      ap (lookup m.id) (sym same) ∙ lookup-assign_self m.id (wiped v m) t

module _ {F : Type 0} (db : Database F) (laws : Transacts db) where
  open laws use {table}

  insert_query-set :
      (m : Metric F) (s : db.State)
      → HasField m
      → (set db m s).0 ≡ ok tt
      → insert_query m (table s) ≡ some (table (set db m s).1)
  unfolding set
  insert_query-set m s h e =
      let valid = (is_malformed_iff m).1 h in
      let (fine, same) =
        checked-eq-ok "insert metric" (db.exec_insert m) s (rw (valid, set) at e) in
      rw (valid, set) (laws.exec_insert-table m s fine ∙ ap (λ st. some (table st)) (sym same))

module _ {F : Type 0} (W : Type 0) (db : Database F) (laws : Transacts db) (net : Net) (web : Web F)
    (conv : Strconv F) (json : Json F) where
  open laws use {table}

  abbrev storage : Repository F W
  storage = repository db json

  value_text-null :
      (v : Metric F) → v.mtype ≡ counter → v.delta ≡ none → value_text net web conv storage v ≡ none
  unfolding value_text
  value_text-null v c n =
      ground (arith, eq_iff v.mtype gauge, eq_iff v.mtype counter, eq_iff gauge counter)

  get-lookup :
      (key : String) (s : db.State) (o : Option (Metric F))
      → (db.select_row key s).0 ≡ inr o
      → get db key s ≡ (ok (lookup key (table s)), (db.select_row key s).1)
  unfolding get
  get-lookup key s o e = rw (e, laws.select_row-table key s o e) refl

  get_metric_handler_panics :
      (req : Request) (v : Metric F) (s : db.State) (o : Option (Metric F))
      → web.url_param req "type" ≡ counter
      → v.mtype ≡ counter
      → v.delta ≡ none
      → lookup (web.url_param req "name") (table s) ≡ some v
      → (db.select_row (web.url_param req "name") s).0 ≡ inr o
      → (get_metric_handler net web conv storage req s).panicked ≡ true
  unfolding get_metric_handler
  get_metric_handler_panics req v s o kind counts null there read =
      let name = web.url_param req "name" in
      let s' = (db.select_row name s).1 in
      let row = get-lookup name s o read ∙ ap (λ r. (ok r, s')) there in
      let served : Service.get storage name counter s ≡ (ok v, s') =
        get-of_found storage name counter v s s' (inr refl) row counts in
      rw (kind, served, value_text-null v counts null, get_metric_handler) refl

  -- Over a database that runs insertQuery as it is written: if an accepted metric without a delta, a
  -- gauge for one, is set under the name of a counter and Set returns no error, the counter's delta is
  -- gone: the row is still a counter, its delta is NULL and its value that of the metric set. For a
  -- request for the counter by its name and type the handler of /value/{type}/{name} then panics,
  -- unless the query for the row fails.
  pub set_wipes :
      (m v : Metric F) (s : db.State) (req : Request) (o : Option (Metric F))
      → HasField m
      → m.delta ≡ none
      → v.mtype ≡ counter
      → lookup m.id (table s) ≡ some v
      → (set db m s).0 ≡ ok tt
      → web.url_param req "type" ≡ counter
      → web.url_param req "name" ≡ m.id
      → (db.select_row m.id (set db m s).1).0 ≡ inr o
      → (lookup m.id (table (set db m s).1) ≡ some (wiped v m))
        × ((get_metric_handler net web conv storage req (set db m s).1).panicked ≡ true)
  set_wipes m v s req o h null counts there e kind name read =
      let s' = (set db m s).1 in
      let gone =
        lookup-insert_query m v (table s) (table s') null there
          (insert_query-set db laws m s h e) in
      (
        gone,
        get_metric_handler_panics req (wiped v m) s' o kind counts refl
            (ap (λ k. lookup k (table s')) name ∙ gone)
            (ap (λ k. (db.select_row k s').0) name ∙ read),
      )
