-- ===== src/Postgres/Refines.antt =====
-- The batches of the database against those of the memory storage.
use go_metrics_harvester.Base.{
  String, ◌≡◌, ◌⊎◌, inl, inr, refl, sym, ap, ◌∙◌, Option, none, some, List, [], ◌∷◌, checked, Error,
  wrap, Outcome, ok, err, panic, All, >>-of_ok, ◌>>◌,
}
use mathlib.Core.Path.{subst}
use go_metrics_harvester.Base.Dict.{Dict}
use go_metrics_harvester.Metric.{Metric}
use go_metrics_harvester.Memory
use go_metrics_harvester.Memory.{Storage, upsert}
use go_metrics_harvester.Postgres.{exec_all, committed, ended, prepared, begun, update}
use go_metrics_harvester.Postgres.Driver.{Database}
use go_metrics_harvester.Postgres.Query.{Transacts, insert_query}
use go_metrics_harvester.Postgres.Plain.{IsPlainRow, IsPlainTable, upsert-insert_query}

module _ {F : Type 0} (types : String → String) (db : Database F) (laws : Transacts db) where
  open laws use {table, tx_table}

  -- A call ended with no error and left this table, or it ended with an error and left the table as
  -- it was.
  pub data Ends (t : Dict (Metric F)) (s : db.State) : Outcome (Unit {0}) × db.State → Type 0 where
    done : {s' : db.State} → table s' ≡ t → Ends t s (ok tt, s')
    failed : {s' : db.State} (e : Error) → table s' ≡ table s → Ends t s (err e, s')

  committed-Ends :
      (tx : db.Tx) (s : db.State) (c : Option Error × db.State)
      → db.commit tx s ≡ c
      → Ends (tx_table tx) s (committed db tx c)
  committed-Ends tx s (none, s') e = done (
      laws.rollback_keeps _ s'
      ∙ sym (ap (λ p. table p.1) e)
      ∙ laws.commit-table tx s (ap (λ p. p.0) e))
  committed-Ends tx s (some x, s') e = failed _ (
      laws.rollback_keeps _ s'
      ∙ sym (ap (λ p. table p.1) e)
      ∙ laws.commit_fails tx s (λ p. cc (p, ap (λ q. q.0) e)))

  -- What the loop of Update does to the table in its transaction.
  pub data Runs (m : List (Metric F)) (tx : db.Tx) : Outcome (Unit {0}) × db.Tx → Type 0 where
    ran :
        {tx' : db.Tx}
        → (IsPlainTable types (tx_table tx)
            → All (IsPlainRow types) m
            → Memory.update m (record { storage = tx_table tx })
              ≡ (ok tt, record { storage = tx_table tx' }))
        → Runs m tx (ok tt, tx')
    stopped : {tx' : db.Tx} (e : Error) → Runs m tx (err e, tx')

  prepend :
      (v : Metric F) (m : List (Metric F)) (tx tx' : db.Tx) {r : Outcome (Unit {0}) × db.Tx}
      → insert_query v (tx_table tx) ≡ some (tx_table tx')
      → Runs m tx' r
      → Runs (v ∷ m) tx r
  unfolding Memory.update
  prepend v m tx tx' e (stopped x) = stopped x
  prepend v m tx tx' e (ran f) = ran λ ht h.
      let (stored, ht') = upsert-insert_query types v (tx_table tx) (tx_table tx') ht h.0 e in
      let next = λ (p : Outcome (Unit {0}) × Storage F). p.0 in
      >>-of_ok (upsert v) (Memory.update m) (record { storage = tx_table tx }) (ap next stored)
      ∙ ap (λ (p : Outcome (Unit {0}) × Storage F). Memory.update m p.1) stored
      ∙ f ht' h.1

  executed :
      (v : Metric F) (m : List (Metric F)) (tx : db.Tx) (c : Option Error × db.Tx)
      → db.exec_prepared v tx ≡ c
      → ((tx' : db.Tx) → Runs m tx' (exec_all db m tx'))
      → Runs (v ∷ m) tx ((checked "exec item" (λ _. c) >> exec_all db m) tx)
  executed v m tx (some e, tx') p rest = stopped (wrap "exec item" e)
  executed v m tx (none, tx') p rest =
      let made = laws.exec_prepared-table v tx (ap (λ q. q.0) p) in
      prepend v m tx tx' (made ∙ ap (λ q. some (tx_table q.1)) p) (rest tx')

  exec_all-Runs : (m : List (Metric F)) (tx : db.Tx) → Runs m tx (exec_all db m tx)
  unfolding exec_all Memory.update
  exec_all-Runs [] tx = ran λ _ _. refl
  exec_all-Runs (v ∷ m) tx = executed v m tx (db.exec_prepared v tx) refl (exec_all-Runs m)

  -- Update is the memory storage's Update, or nothing.
  pub data Refines (m : List (Metric F)) (s : db.State)
      : Outcome (Unit {0}) × db.State → Type 0 where
    stores :
        {s' : db.State}
        → Memory.update m (record { storage = table s }) ≡ (ok tt, record { storage = table s' })
        → Refines m s (ok tt, s')
    refuses : {s' : db.State} (e : Error) → table s' ≡ table s → Refines m s (err e, s')

  module _ (m : List (Metric F)) (s : db.State) (h : All (IsPlainRow types) m) where
    Ends-Refines :
        (t : Dict (Metric F)) (s' : db.State) {r : Outcome (Unit {0}) × db.State}
        → Memory.update m (record { storage = table s }) ≡ (ok tt, record { storage = t })
        → table s' ≡ table s
        → Ends t s' r
        → Refines m s r
    Ends-Refines t s' run keeps (done e) =
        stores (run ∙ ap (λ d. (ok tt, record { storage = d })) (sym e))
    Ends-Refines t s' run keeps (failed x e) = refuses x (e ∙ keeps)

    ended-Refines :
        (tx : db.Tx) (s' : db.State) (r : Outcome (Unit {0}) × db.Tx)
        → IsPlainTable types (table s)
        → tx_table tx ≡ table s
        → table s' ≡ table s
        → Runs m tx r
        → Refines m s (ended db s' r)
    ended-Refines tx s' (err x, tx') ht sees keeps (stopped e) =
        refuses x (laws.rollback_keeps _ s' ∙ keeps)
    ended-Refines tx s' (panic, tx') ht sees keeps r = elim r [ ]
    ended-Refines tx s' (ok _, tx') ht sees keeps (ran f) =
        Ends-Refines (tx_table tx') s'
          (ap (λ d. Memory.update m (record { storage = d })) (sym sees)
            ∙ f (subst (IsPlainTable types) (sym sees) ht) h)
          keeps (committed-Ends tx' s' (db.commit tx' s') refl)

    prepared-Refines :
        (tx : db.Tx) (s' : db.State) (c : Option Error × db.Tx)
        → db.prepare_insert tx ≡ c
        → IsPlainTable types (table s)
        → tx_table tx ≡ table s
        → table s' ≡ table s
        → Refines m s (prepared db m s' c)
    prepared-Refines tx s' (some e, tx') p ht sees keeps =
        refuses (wrap "prepare" e) (laws.rollback_keeps tx' s' ∙ keeps)
    prepared-Refines tx s' (none, tx') p ht sees keeps =
        let same =
          sym (ap (λ (q : Option Error × db.Tx). tx_table q.1) p) ∙ laws.prepare_keeps tx in
        ended-Refines tx' s' (exec_all db m tx') ht (same ∙ sees) keeps (exec_all-Runs m tx')

    begun-Refines :
        (c : (Error ⊎ db.Tx) × db.State)
        → db.begin s ≡ c
        → IsPlainTable types (table s)
        → Refines m s (begun db m c)
    begun-Refines (inl e, s') p ht =
        refuses (wrap "begin transaction" e)
          (sym (ap (λ (q : (Error ⊎ db.Tx) × db.State). table q.1) p) ∙ laws.begin_keeps s)
    begun-Refines (inr tx, s') p ht =
        prepared-Refines tx s' (db.prepare_insert tx) refl ht
          (laws.begin-table s tx (ap (λ q. q.0) p))
          (sym (ap (λ (q : (Error ⊎ db.Tx) × db.State). table q.1) p) ∙ laws.begin_keeps s)

    -- Over a database whose calls have had their effect if they return no error and none otherwise,
    -- with a table of plain rows, in which every name has its type, and for a batch of plain metrics of
    -- the types of their names, Update either returns no error and leaves exactly the table that the
    -- memory storage's Update makes of the one before, or returns an error and leaves the table as it
    -- was, however many rows it had written.
    pub update-Refines : IsPlainTable types (table s) → Refines m s (update db m s)
    unfolding update
    update-Refines ht = begun-Refines (db.begin s) refl ht
