-- ===== src/Tests/Databases.antt =====
-- A database that is one table, and the repository over it at work.
use go_metrics_harvester.Base.{
  true, ◌==◌, eq_iff, if◌then◌else◌, ℕ, String, ◌≡◌, ◌≢◌, ◌⊎◌, inl, inr, refl, sym, ap, Option,
  none, some, List, [], ◌∷◌, ◌++◌, arith, Error, other,
}
use go_metrics_harvester.Base.Dict.{Dict, lookup, assign}
use go_metrics_harvester.Metric.{Metric, gauge, counter}
use go_metrics_harvester.Memory.{load, is_malformed}
use go_metrics_harvester.Memory.Safety.{HasField}
use go_metrics_harvester.Server.{Web, get_metric_handler}
use go_metrics_harvester.Retry.{do_fn, do_from}
use go_metrics_harvester.Postgres
use go_metrics_harvester.Postgres.{repository, emptied, connect, set, update}
use go_metrics_harvester.Postgres.Driver.{Database}
use go_metrics_harvester.Postgres.Query.{insert_query, do_update, plus, Transacts}
use go_metrics_harvester.Postgres.Plain.{measured, counted, IsPlainRow, IsPlainTable}
use go_metrics_harvester.Postgres.Refines.{Refines, update-Refines}
use go_metrics_harvester.Postgres.Wipes.{wiped, set_wipes}
use go_metrics_harvester.Postgres.Restore.{Copies, Rebuilds, new_from-Rebuilds}
use go_metrics_harvester.Tests.Samples.{count_of, gauge_of, both, types, codec}
use go_metrics_harvester.Tests.Webs.{texts, request}
use go_metrics_harvester.Tests.Handlers.{web, conv}

abbrev pub Table : Type 0
Table = Dict (Metric ℕ)

-- What a statement leaves, given what it makes of the table.
abbrev ran : Option Table → Table → Option Error × Table
ran none t = (some (other "bigint out of range"), t)
ran (some t') t = (none, t')

abbrev ran_in : List (Metric ℕ) → Option Error × Table → Option Error × (Table × List (Metric ℕ))
ran_in held (e, t) = (e, (t, held))

abbrev pub one_table : Database ℕ
one_table = record {
  State = Table;
  Tx = Table × List (Metric ℕ);
  connect = λ dsn t. (none, t);
  sleep = λ n t. t;
  create_table = λ t. (none, t);
  truncate = λ t. (none, []);
  exec_insert = λ m t. ran (insert_query m t) t;
  select_row = λ key t. (inr (lookup key t), t);
  select_rows = λ t. (inr [], t);
  ping = λ t. (none, t);
  begin = λ t. (inr (t, []), t);
  prepare_insert = λ tx. (none, tx);
  exec_prepared = λ m tx. ran_in tx.1 (ran (insert_query m tx.0) tx.0);
  prepare_copy = λ tx. (none, (tx.0, []));
  exec_copy = λ m tx. (none, (tx.0, tx.1 ++ m ∷ []));
  flush = λ tx. (none, (load tx.1 tx.0, []));
  close_statement = λ tx. (none, tx);
  commit = λ tx t. (none, tx.0);
  rollback = λ tx t. t;
}

ran-none : (o : Option Table) (t : Table) → (ran o t).0 ≡ none → o ≡ some (ran o t).1
ran-none none t e = cc e
ran-none (some t') t e = refl

ran_keeps : (o : Option Table) (t : Table) → (ran o t).0 ≢ none → (ran o t).1 ≡ t
ran_keeps none t ne = refl
ran_keeps (some t') t ne = absurd (ne refl)

began :
    {t : Table} {tx : Table × List (Metric ℕ)}
    → ◌≡◌ {A = Error ⊎ (Table × List (Metric ℕ))} (inr (t, [])) (inr tx)
    → tx.0 ≡ t
began {t = t} {tx = tx} e = let p : (t, []) ≡ tx = cc e in ap (λ q. q.0) (sym p)

row : {a o : Option (Metric ℕ)} → ◌≡◌ {A = Error ⊎ Option (Metric ℕ)} (inr a) (inr o) → o ≡ a
row e = cc e

one_table-Transacts : Transacts one_table
one_table-Transacts = record {
  table = λ t. t;
  tx_table = λ tx. tx.0;
  exec_insert-table = λ m t e. ran-none (insert_query m t) t e;
  exec_insert_fails = λ m t ne. ran_keeps (insert_query m t) t ne;
  begin-table = λ t tx e. began e;
  begin_keeps = λ t. refl;
  prepare_keeps = λ tx. refl;
  exec_prepared-table = λ m tx e. ran-none (insert_query m tx.0) tx.0 e;
  commit-table = λ tx t e. refl;
  commit_fails = λ tx t ne. absurd (ne refl);
  rollback_keeps = λ tx t. refl;
  select_row-table = λ key t o e. row e;
  select_row_keeps = λ key t. refl;
}

one_table-Copies : Copies one_table one_table-Transacts
unfolding one_table-Transacts
one_table-Copies = record {
  held = λ tx. tx.1;
  truncate-table = λ t e. refl;
  prepare_copy-held = λ tx. refl;
  prepare_copy_keeps = λ tx. refl;
  exec_copy-held = λ m tx e. refl;
  exec_copy_keeps = λ m tx. refl;
  flush-table = λ tx e. refl;
  close_keeps = λ tx. refl;
}

count_of-IsPlainRow : (d : ℕ) → IsPlainRow types (count_of d)
count_of-IsPlainRow d = record { kind = refl; plain = counted d refl refl refl }

gauge_of-IsPlainRow : (x : ℕ) → IsPlainRow types (gauge_of "g" x)
gauge_of-IsPlainRow x = record { kind = refl; plain = measured x refl refl refl }

lookup_both :
    (key : String) (m : Metric ℕ)
    → lookup key both.storage ≡ some m
    → ((m ≡ count_of 5) × (key ≡ "c")) ⊎ ((m ≡ gauge_of "g" 7) × (key ≡ "g"))
unfolding lookup
lookup_both key m e = ground (arith, eq_iff "c" key, eq_iff "g" key)

both-IsPlainTable : IsPlainTable types both.storage
both-IsPlainTable = record {
  at = λ key m e. elim (lookup_both key m e) [
    | inl (p, q) ↦ rw p (sym q, count_of-IsPlainRow 5)
    | inr (p, q) ↦ rw p (sym q, gauge_of-IsPlainRow 7)
  ];
}

update-Refines_example :
    Refines types one_table one_table-Transacts
      (count_of 3 ∷ gauge_of "g" 9 ∷ [])
      both.storage
      (update one_table (count_of 3 ∷ gauge_of "g" 9 ∷ []) both.storage)
unfolding one_table-Transacts
update-Refines_example =
    update-Refines types one_table one_table-Transacts (count_of 3 ∷ gauge_of "g" 9 ∷ [])
      both.storage (count_of-IsPlainRow 3, (gauge_of-IsPlainRow 9, tt)) both-IsPlainTable

gauge_of-HasField : HasField (gauge_of "c" 9)
gauge_of-HasField = record {
  counts = λ p. ground (arith, eq_iff counter gauge);
  measures = λ p e. cc e;
}

abbrev count_web : Web ℕ
count_web = record web { url_param = λ req key. if key == "type" then counter else "c" }

set_wipes_example :
    (lookup "c" (set one_table (gauge_of "c" 9) both.storage).1
      ≡ some (wiped (count_of 5) (gauge_of "c" 9)))
    × ((get_metric_handler texts count_web conv
          (repository one_table {W = ℕ} codec)
          request
          (set one_table (gauge_of "c" 9) both.storage).1).panicked
        ≡ true)
unfolding lookup assign set insert_query do_update plus one_table-Transacts is_malformed
set_wipes_example =
    set_wipes ℕ one_table one_table-Transacts texts count_web conv codec (gauge_of "c" 9)
      (count_of 5) both.storage request (some (wiped (count_of 5) (gauge_of "c" 9)))
      gauge_of-HasField refl refl refl refl refl refl refl

new_from-Rebuilds_example :
    Rebuilds one_table one_table-Transacts one_table-Copies codec
      (1 ∷ 6 ∷ [])
      (Postgres.new_from one_table codec (1 ∷ 6 ∷ []) "dsn" both.storage)
unfolding connect do_fn do_from one_table-Transacts
new_from-Rebuilds_example =
    new_from-Rebuilds one_table one_table-Transacts one_table-Copies codec (1 ∷ 6 ∷ []) "dsn"
      both.storage refl
