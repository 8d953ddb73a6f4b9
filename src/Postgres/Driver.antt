-- ===== src/Postgres/Driver.antt =====
-- What internal/storage/postgres/postgres.go takes from database/sql, sqlx and pq.
use go_metrics_harvester.Base.{ℕ, String, ◌⊎◌, Option, List, Error}
use go_metrics_harvester.Metric.{Metric}

-- `Tx` is a transaction with the statement that is prepared in it. `exec_insert` and
-- `exec_prepared` run insertQuery on the values of a metric, the one at once and the other in the
-- transaction; `exec_copy` and `flush` run the statement of pq.CopyIn with values and without any.
-- `select_row` gives no row for sql.ErrNoRows, and `sleep` is time.Sleep.
pub record Database (F : Type 0) : Type 1 where
  pub State : Type 0
  pub Tx : Type 0
  pub connect : String → State → Option Error × State
  pub sleep : ℕ → State → State
  pub create_table : State → Option Error × State
  pub truncate : State → Option Error × State
  pub exec_insert : Metric F → State → Option Error × State
  pub select_row : String → State → (Error ⊎ Option (Metric F)) × State
  pub select_rows : State → (Error ⊎ List (Metric F)) × State
  pub ping : State → Option Error × State
  pub begin : State → (Error ⊎ Tx) × State
  pub prepare_insert : Tx → Option Error × Tx
  pub exec_prepared : Metric F → Tx → Option Error × Tx
  pub prepare_copy : Tx → Option Error × Tx
  pub exec_copy : Metric F → Tx → Option Error × Tx
  pub flush : Tx → Option Error × Tx
  pub close_statement : Tx → Option Error × Tx
  pub commit : Tx → State → Option Error × State
  pub rollback : Tx → State → State
