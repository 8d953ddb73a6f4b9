-- ===== src/Postgres.antt =====
-- internal/storage/postgres/postgres.go: the repository over a database. A call of the driver comes
-- back with an error or with none, beside the state of the database or of the transaction.
pub mod Driver
pub mod Query
pub mod Plain
pub mod Refines
pub mod Wipes
pub mod Restore
use go_metrics_harvester.Base.{
  ℕ, ◌+◌, ◌%◌, String, ◌⊎◌, inl, inr, Bool, ◌&&◌, ◌||◌, not, Option, none, some, List, [], ◌∷◌, ltb,
  if◌then◌else◌, Error, wrap, metric_malformed, Outcome, ok, err, panic, Action, pure, fail,
  checked, ◌>>=◌, ◌>>◌,
}
use go_metrics_harvester.Base.Dict.{Dict, lookup, assign}
use go_metrics_harvester.Metric.{Metric}
use go_metrics_harvester.Metric.Json.{Json}
use go_metrics_harvester.Memory.{is_malformed}
use go_metrics_harvester.Retry.{do_fn}
use go_metrics_harvester.Service.{Repository}
use Driver.{Database}

module _ {F : Type 0} (db : Database F) where
  open db use {State, Tx}

  unfoldable pub set : Metric F → Action State (Unit {0})
  set value =
      if is_malformed value
      then fail metric_malformed
      else checked "insert metric" (db.exec_insert value)

  -- A row that is not there and a query that fails are both no metric; the latter is logged.
  abbrev found : Error ⊎ Option (Metric F) → Option (Metric F)
  found (inl e) = none
  found (inr row) = row

  unfoldable pub get : String → Action State (Option (Metric F))
  get key s = let (r, s') = db.select_row key s in (ok (found r), s')

  abbrev selected : Error ⊎ List (Metric F) → Outcome (List (Metric F))
  selected (inl e) = err (wrap "select metric" e)
  selected (inr rows) = ok rows

  unfoldable pub list : Action State (List (Metric F))
  list s = let (r, s') = db.select_rows s in (selected r, s')

  unfoldable pub ping : Action State (Unit {0})
  ping s = let (r, s') = db.ping s in elim r [ none ↦ (ok tt, s') | some e ↦ (err e, s') ]

  module _ {W : Type 0} (json : Json F) (dest : List ℕ → Action W (Unit {0})) where
    abbrev encoded : List ℕ → Action (State × W) (Unit {0})
    encoded b (s, w) =
        let (r, w') = dest b w in
        elim r [
          | ok _ ↦ (ok tt, (s, w'))
          | err e ↦ (err (wrap "encode list" e), (s, w'))
          | panic ↦ (panic, (s, w'))
        ]

    abbrev listed : W → Outcome (List (Metric F)) × State → Outcome (Unit {0}) × (State × W)
    listed w (err e, s) = (err (wrap "persist" e), (s, w))
    listed w (panic, s) = (panic, (s, w))
    listed w (ok rows, s) = elim (json.encode rows) [
      | inl e ↦ (err (wrap "encode list" e), (s, w))
      | inr b ↦ encoded b (s, w)
    ]

    unfoldable pub persist : Action (State × W) (Unit {0})
    unfolding list
    persist (s, w) = listed w (list s)

  -- The loop of Update in its transaction.
  unfoldable pub exec_all : List (Metric F) → Action Tx (Unit {0})
  exec_all [] = pure tt
  exec_all (v ∷ m) = checked "exec item" (db.exec_prepared v) >> exec_all m

  -- The commit, and the deferred Close and Rollback, which follow it as well.
  abbrev pub closed : Tx → State → State
  closed tx s = db.rollback (db.close_statement tx).1 s

  abbrev pub committed : Tx → Option Error × State → Outcome (Unit {0}) × State
  committed tx (none, s) = (ok tt, closed tx s)
  committed tx (some e, s) = (err (wrap "commit" e), closed tx s)

  abbrev pub ended : State → Outcome (Unit {0}) × Tx → Outcome (Unit {0}) × State
  ended s (ok _, tx) = committed tx (db.commit tx s)
  ended s (err e, tx) = (err e, closed tx s)
  ended s (panic, tx) = (panic, closed tx s)

  abbrev pub prepared : List (Metric F) → State → Option Error × Tx → Outcome (Unit {0}) × State
  prepared m s (some e, tx) = (err (wrap "prepare" e), db.rollback tx s)
  prepared m s (none, tx) = ended s (exec_all m tx)

  abbrev pub begun : List (Metric F) → (Error ⊎ Tx) × State → Outcome (Unit {0}) × State
  begun m (inl e, s) = (err (wrap "begin transaction" e), s)
  begun m (inr tx, s) = prepared m s (db.prepare_insert tx)

  unfoldable pub update : List (Metric F) → Action State (Unit {0})
  unfolding exec_all
  update m s = begun m (db.begin s)

  -- The connection that both constructors open, with retries.
  unfoldable pub connect : String → Action State (Unit {0})
  connect dsn = checked "connect to db" (do_fn (db.connect dsn) db.sleep)

  unfoldable pub new_storage : String → Action State (Unit {0})
  unfolding connect
  new_storage dsn = connect dsn >> checked "init db" db.create_table

  -- The loop of NewFrom.
  unfoldable pub copy_all : List (Metric F) → Action Tx (Unit {0})
  copy_all [] = pure tt
  copy_all (m ∷ rows) = checked "exec item" (db.exec_copy m) >> copy_all rows

  abbrev pub copied : State → Outcome (Unit {0}) × Tx → Outcome (Unit {0}) × State
  copied s (ok _, tx) = checked "commit" (db.commit tx) s
  copied s (err e, tx) = (err e, s)
  copied s (panic, tx) = (panic, s)

  abbrev pub copying : List (Metric F) → Action Tx (Unit {0})
  copying rows =
      checked "prepare" db.prepare_copy
      >> copy_all rows
      >> checked "exec all" db.flush
      >> checked "close" db.close_statement

  -- What follows the decoding: a transaction that is not rolled back where it fails.
  abbrev pub restored : List (Metric F) → (Error ⊎ Tx) × State → Outcome (Unit {0}) × State
  restored rows (inl e, s) = (err (wrap "begin transaction" e), s)
  restored rows (inr tx, s) = copied s (copying rows tx)

  abbrev pub decoded : Error ⊎ List (Metric F) → Action State (Unit {0})
  decoded (inl e) s = (err e, s)
  decoded (inr rows) s = restored rows (db.begin s)

  -- What NewFrom does before it reads its source.
  abbrev pub emptied : String → Action State (Unit {0})
  emptied dsn = connect dsn >> checked "init db" db.create_table >> checked "clear db" db.truncate

  unfoldable pub new_from : Json F → List ℕ → String → Action State (Unit {0})
  unfolding connect copy_all
  new_from json src dsn = emptied dsn >> decoded (json.decode src)

  abbrev pub repository : {W : Type 0} → Json F → Repository F W
  repository json = record {
    State = db.State;
    set = set;
    get = get;
    list = list;
    persist = λ dest. persist json dest;
    ping = ping;
    update = update;
  }
