-- ===== src/Postgres/Restore.antt =====
-- NewFrom over the database, against the memory storage's, and what it does to the rows that were there.
use go_metrics_harvester.Base.{
  ℕ, String, ◌≡◌, ◌≢◌, ◌⊎◌, inl, inr, refl, sym, ap, ◌∙◌, Option, none, some, List, [], ◌∷◌, ◌++◌,
  checked, checked-eq-ok, checked-ne-panic, >>-ne-panic, Error, Outcome, ok, err, panic, ◌>>◌,
  >>-eq-ok, >>-of_ok,
}
use mathlib.Core.Path.{subst}
use mathlib.Core.List.{append_assoc, append-nil}
use go_metrics_harvester.Metric.{Metric}
use go_metrics_harvester.Metric.Json.{Json}
use go_metrics_harvester.Memory
use go_metrics_harvester.Memory.{load}
use go_metrics_harvester.Postgres.{
  connect, emptied, copy_all, copying, copied, restored, decoded, new_from,
}
use go_metrics_harvester.Postgres.Driver.{Database}
use go_metrics_harvester.Postgres.Query.{Transacts}

-- What the code relies on of TRUNCATE and of COPY: the rows that were given are held back, and a flush
-- that returns no error has appended them, so that no two have one primary key.
pub record Copies {F : Type 0} (db : Database F) (laws : Transacts db) : Type 0 where
  pub held : db.Tx → List (Metric F)
  pub truncate-table : (s : db.State) → (db.truncate s).0 ≡ none → laws.table (db.truncate s).1 ≡ []
  pub prepare_copy-held : (tx : db.Tx) → held (db.prepare_copy tx).1 ≡ []
  pub prepare_copy_keeps : (tx : db.Tx) → laws.tx_table (db.prepare_copy tx).1 ≡ laws.tx_table tx
  pub exec_copy-held :
      (m : Metric F) (tx : db.Tx)
      → (db.exec_copy m tx).0 ≡ none
      → held (db.exec_copy m tx).1 ≡ held tx ++ m ∷ []
  pub exec_copy_keeps :
      (m : Metric F) (tx : db.Tx) → laws.tx_table (db.exec_copy m tx).1 ≡ laws.tx_table tx
  pub flush-table :
      (tx : db.Tx)
      → (db.flush tx).0 ≡ none
      → laws.tx_table (db.flush tx).1 ≡ load (held tx) (laws.tx_table tx)
  pub close_keeps : (tx : db.Tx) → laws.tx_table (db.close_statement tx).1 ≡ laws.tx_table tx

module _ {F : Type 0} (db : Database F) (laws : Transacts db) (copies : Copies db laws) where
  open laws use {table, tx_table}
  open copies use {held}

  copy_all-held :
      (rows : List (Metric F)) (tx : db.Tx)
      → (copy_all db rows tx).0 ≡ ok tt
      → (held (copy_all db rows tx).1 ≡ held tx ++ rows)
        × (tx_table (copy_all db rows tx).1 ≡ tx_table tx)
  unfolding copy_all
  copy_all-held [] tx e = (sym (append-nil (held tx)), refl)
  copy_all-held (m ∷ rows) tx e =
      let step = checked "exec item" (db.exec_copy m) in
      let (fine, rest) = >>-eq-ok step (copy_all db rows) tx e in
      let (none', same) = checked-eq-ok "exec item" (db.exec_copy m) tx fine in
      let next = rest ∙ ap (copy_all db rows) same in
      let (h, t) = copy_all-held rows (db.exec_copy m tx).1 (ap (λ p. p.0) (sym next) ∙ e) in
      (
        ap (λ p. held p.1) next
            ∙ h
            ∙ ap (λ l. l ++ rows) (copies.exec_copy-held m tx none')
            ∙ append_assoc (held tx) (m ∷ []) rows,
        ap (λ p. tx_table p.1) next ∙ t ∙ copies.exec_copy_keeps m tx,
      )

  copying-load :
      (rows : List (Metric F)) (tx : db.Tx)
      → (copying db rows tx).0 ≡ ok tt
      → tx_table (copying db rows tx).1 ≡ load rows (tx_table tx)
  copying-load rows tx e =
      let prepare = checked "prepare" db.prepare_copy in
      let flush = checked "exec all" db.flush in
      let close = checked "close" db.close_statement in
      let (e₃, r₃) = >>-eq-ok (prepare >> copy_all db rows >> flush) close tx e in
      let (e₂, r₂) = >>-eq-ok (prepare >> copy_all db rows) flush tx e₃ in
      let (e₁, r₁) = >>-eq-ok prepare (copy_all db rows) tx e₂ in
      let (_, p₁) = checked-eq-ok "prepare" db.prepare_copy tx e₁ in
      let tx₁ = (db.prepare_copy tx).1 in
      let from = r₁ ∙ ap (copy_all db rows) p₁ in
      let tx₂ = (copy_all db rows tx₁).1 in
      let (h, t) = copy_all-held rows tx₁ (ap (λ p. p.0) (sym from) ∙ e₂) in
      let at₂ = r₂ ∙ ap (λ p. flush p.1) from in
      let (f, p₂) = checked-eq-ok "exec all" db.flush tx₂ (ap (λ p. p.0) (sym at₂) ∙ e₃) in
      let at₃ = r₃ ∙ ap (λ p. close p.1) at₂ ∙ ap close p₂ in
      let tx₃ = (db.flush tx₂).1 in
      let (_, p₃) = checked-eq-ok "close" db.close_statement tx₃ (ap (λ p. p.0) (sym at₃) ∙ e) in
      ap (λ p. tx_table p.1) at₃
      ∙ ap tx_table p₃
      ∙ copies.close_keeps tx₃
      ∙ copies.flush-table tx₂ f
      ∙ ap (λ l. load l (tx_table tx₂)) (h ∙ ap (λ l. l ++ rows) (copies.prepare_copy-held tx))
      ∙ ap (load rows) (t ∙ copies.prepare_copy_keeps tx)

  -- What NewFrom does behind the emptied table `s`.
  pub data Restores (d : Error ⊎ List (Metric F)) (s : db.State)
      : Outcome (Unit {0}) × db.State → Type 0 where
    restores :
        {s' : db.State} (rows : List (Metric F))
        → d ≡ inr rows
        → table s' ≡ load rows (table s)
        → Restores d s (ok tt, s')
    fails : {s' : db.State} (e : Error) → table s' ≡ table s → Restores d s (err e, s')

  committed_cases :
      (rows : List (Metric F)) (tx : db.Tx) (s s' : db.State) (c : Option Error × db.State)
      → db.commit tx s' ≡ c
      → table s' ≡ table s
      → tx_table tx ≡ load rows (table s)
      → Restores (inr rows) s (checked "commit" (λ _. c) s')
  committed_cases rows tx s s' (none, s'') p keeps filled =
      restores rows refl
        (sym (ap (λ q. table q.1) p) ∙ laws.commit-table tx s' (ap (λ q. q.0) p) ∙ filled)
  committed_cases rows tx s s' (some e, s'') p keeps filled =
      fails _ (
        sym (ap (λ q. table q.1) p)
        ∙ laws.commit_fails tx s' (λ q. cc (q, ap (λ r. r.0) p))
        ∙ keeps)

  copied-Restores :
      (rows : List (Metric F)) (s s' : db.State) (r : Outcome (Unit {0}) × db.Tx)
      → (r.0 ≡ ok tt → tx_table r.1 ≡ load rows (table s))
      → r.0 ≢ panic
      → table s' ≡ table s
      → Restores (inr rows) s (copied db s' r)
  copied-Restores rows s s' (ok _, tx) filled calm keeps =
      committed_cases rows tx s s' (db.commit tx s') refl keeps (filled refl)
  copied-Restores rows s s' (err e, tx) filled calm keeps = fails e keeps
  copied-Restores rows s s' (panic, tx) filled calm keeps = absurd (calm refl)

  copy_all-ne-panic : (rows : List (Metric F)) (tx : db.Tx) → (copy_all db rows tx).0 ≢ panic
  unfolding copy_all
  copy_all-ne-panic [] tx e = cc e
  copy_all-ne-panic (m ∷ rows) tx e =
      >>-ne-panic (checked "exec item" (db.exec_copy m)) (copy_all db rows)
        (checked-ne-panic "exec item" (db.exec_copy m)) (copy_all-ne-panic rows) tx e

  copying-ne-panic : (rows : List (Metric F)) (tx : db.Tx) → (copying db rows tx).0 ≢ panic
  copying-ne-panic rows =
      let prepare = checked "prepare" db.prepare_copy in
      let copy = copy_all db rows in
      let flush = checked "exec all" db.flush in
      let close = checked "close" db.close_statement in
      >>-ne-panic (prepare >> copy >> flush) close
        (>>-ne-panic (prepare >> copy) flush
          (>>-ne-panic prepare copy (checked-ne-panic "prepare" db.prepare_copy)
            (copy_all-ne-panic rows))
          (checked-ne-panic "exec all" db.flush))
        (checked-ne-panic "close" db.close_statement)

  restored-Restores :
      (rows : List (Metric F)) (s : db.State) (c : (Error ⊎ db.Tx) × db.State)
      → db.begin s ≡ c
      → Restores (inr rows) s (restored db rows c)
  restored-Restores rows s (inl x, s') p =
      fails _ (sym (ap (λ (q : (Error ⊎ db.Tx) × db.State). table q.1) p) ∙ laws.begin_keeps s)
  restored-Restores rows s (inr tx, s') p =
      let sees = laws.begin-table s tx (ap (λ q. q.0) p) in
      copied-Restores rows s s' (copying db rows tx)
        (λ e. copying-load rows tx e ∙ ap (load rows) sees) (copying-ne-panic rows tx)
        (sym (ap (λ (q : (Error ⊎ db.Tx) × db.State). table q.1) p) ∙ laws.begin_keeps s)

  table-emptied :
      (dsn : String) (s : db.State) → (emptied db dsn s).0 ≡ ok tt → table (emptied db dsn s).1 ≡ []
  table-emptied dsn s e =
      let (_, rest) =
        >>-eq-ok (connect db dsn >> checked "init db" db.create_table)
          (checked "clear db" db.truncate) s e in
      let (fine, same) = checked-eq-ok "clear db" db.truncate _ (ap (λ p. p.0) (sym rest) ∙ e) in
      ap (λ p. table p.1) rest ∙ ap table same ∙ copies.truncate-table _ fine

  decoded-Restores : (d : Error ⊎ List (Metric F)) (s : db.State) → Restores d s (decoded db d s)
  decoded-Restores (inl x) s = fails x refl
  decoded-Restores (inr rows) s = restored-Restores rows s (db.begin s) refl

  -- NewFrom as a whole: the table of the memory storage's NewFrom, or none.
  pub data Rebuilds (json : Json F) (src : List ℕ) : Outcome (Unit {0}) × db.State → Type 0 where
    rebuilds :
        {s' : db.State}
        → Memory.new_from json src ≡ inr (record { storage = table s' })
        → Rebuilds json src (ok tt, s')
    loses : {s' : db.State} (e : Error) → table s' ≡ [] → Rebuilds json src (err e, s')

  Restores-Rebuilds :
      (json : Json F) (src : List ℕ) (s : db.State) {r : Outcome (Unit {0}) × db.State}
      → table s ≡ []
      → Restores (json.decode src) s r
      → Rebuilds json src r
  unfolding Memory.new_from
  Restores-Rebuilds json src s empty (restores rows read e) = rebuilds (
      rw (read, Memory.new_from)
        (ap (λ t. inr (record { storage = t })) (sym (e ∙ ap (load rows) empty))))
  Restores-Rebuilds json src s empty (fails x e) = loses x (e ∙ empty)

  -- Over a database whose calls have had their effect if they return no error and none otherwise: once
  -- NewFrom has emptied the table, it either returns no error and leaves the table that the memory
  -- storage's NewFrom makes of the same text, or it returns an error, of the decoding too, and the
  -- rows that were there before are lost.
  pub new_from-Rebuilds :
      (json : Json F) (src : List ℕ) (dsn : String) (s : db.State)
      → (emptied db dsn s).0 ≡ ok tt
      → Rebuilds json src (new_from db json src dsn s)
  unfolding new_from
  new_from-Rebuilds json src dsn s opened =
      let s' = (emptied db dsn s).1 in
      subst (Rebuilds json src)
        (sym (>>-of_ok (emptied db dsn) (decoded db (json.decode src)) s opened))
        (Restores-Rebuilds json src s' (table-emptied dsn s opened)
          (decoded-Restores (json.decode src) s'))
