-- ===== src/Postgres/Query.antt =====
-- The statement insertQuery, on the table as a map from the primary key to the row.
use go_metrics_harvester.Base.{
  ℕ, ◌^◌, String, ◌≡◌, ◌≢◌, inr, ◌&&◌, ◌||◌, not, Option, none, some, ltb, if◌then◌else◌,
}
use mathlib.Core.Option
use go_metrics_harvester.Base.Dict.{Dict, lookup, assign}
use go_metrics_harvester.Metric.{Metric, add_int64}
use go_metrics_harvester.Postgres.Driver.{Database}

-- The sum of two values of type BIGINT as bit patterns, or no value where it is out of range: the
-- signs agree, and that of the sum differs.
unfoldable pub add_bigint : ℕ → ℕ → Option ℕ
add_bigint a b =
    let up = ltb a (2 ^ 63) && ltb b (2 ^ 63) && not (ltb (add_int64 a b) (2 ^ 63)) in
    let down = not (ltb a (2 ^ 63)) && not (ltb b (2 ^ 63)) && ltb (add_int64 a b) (2 ^ 63) in
    if up || down then none else some (add_int64 a b)

-- EXCLUDED.delta + metric.delta: NULL where one of them is; outermost, the error of the addition.
unfoldable pub plus : Option ℕ → Option ℕ → Option (Option ℕ)
unfolding add_bigint
plus (some a) (some b) = Option.map some (add_bigint a b)
plus none _ = some none
plus (some _) none = some none

module _ {F : Type 0} where
  -- DO UPDATE SET, on the row `v`.
  unfoldable pub do_update : Metric F → Metric F → Option (Metric F)
  unfolding plus
  do_update excluded v =
      Option.map (λ d. record v { delta = d; value = excluded.value }) (plus excluded.delta v.delta)

  -- INSERT, and ON CONFLICT(id) the update. No value is an error, which changes nothing.
  unfoldable pub insert_query : Metric F → Dict (Metric F) → Option (Dict (Metric F))
  unfolding do_update
  insert_query m t = elim (lookup m.id t) [
    | none ↦ some (assign m.id m t)
    | some v ↦ Option.map (λ w. assign m.id w t) (do_update m v)
  ]

-- What the code relies on of the database: a statement that returns no error has had its effect and
-- any other call leaves the table alone, a transaction sees the table as it was at its begin and
-- takes effect with its commit.
pub record Transacts {F : Type 0} (db : Database F) : Type 0 where
  pub table : db.State → Dict (Metric F)
  pub tx_table : db.Tx → Dict (Metric F)
  pub exec_insert-table :
      (m : Metric F) (s : db.State)
      → (db.exec_insert m s).0 ≡ none
      → insert_query m (table s) ≡ some (table (db.exec_insert m s).1)
  pub exec_insert_fails :
      (m : Metric F) (s : db.State)
      → (db.exec_insert m s).0 ≢ none
      → table (db.exec_insert m s).1 ≡ table s
  pub begin-table : (s : db.State) (tx : db.Tx) → (db.begin s).0 ≡ inr tx → tx_table tx ≡ table s
  pub begin_keeps : (s : db.State) → table (db.begin s).1 ≡ table s
  pub prepare_keeps : (tx : db.Tx) → tx_table (db.prepare_insert tx).1 ≡ tx_table tx
  pub exec_prepared-table :
      (m : Metric F) (tx : db.Tx)
      → (db.exec_prepared m tx).0 ≡ none
      → insert_query m (tx_table tx) ≡ some (tx_table (db.exec_prepared m tx).1)
  pub commit-table :
      (tx : db.Tx) (s : db.State)
      → (db.commit tx s).0 ≡ none
      → table (db.commit tx s).1 ≡ tx_table tx
  pub commit_fails :
      (tx : db.Tx) (s : db.State) → (db.commit tx s).0 ≢ none → table (db.commit tx s).1 ≡ table s
  pub rollback_keeps : (tx : db.Tx) (s : db.State) → table (db.rollback tx s) ≡ table s
  pub select_row-table :
      (key : String) (s : db.State) (o : Option (Metric F))
      → (db.select_row key s).0 ≡ inr o
      → o ≡ lookup key (table s)
  pub select_row_keeps : (key : String) (s : db.State) → table (db.select_row key s).1 ≡ table s
