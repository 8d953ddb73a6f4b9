-- ===== src/Programs/ServerStart/Chosen.antt =====
-- Which repository the start of the server ends with.
use go_metrics_harvester.Base.{
  ok_inj, ℕ, ◌≡◌, ◌≢◌, ◌⊎◌, inl, inr, sym, ap, ◌∙◌, Bool-cases, String-cases, List, [], ltb, Error,
  ok, Action, pure, lifted, ◌>>◌, >>-eq-ok, >>=-eq-ok,
}
use mathlib.Core.Path.{subst}
use go_metrics_harvester.Metric.Json.{Json}
use go_metrics_harvester.Memory
use go_metrics_harvester.Memory.{Storage}
use go_metrics_harvester.Service.{Disk}
use go_metrics_harvester.Postgres
use go_metrics_harvester.Postgres.Driver.{Database}
use go_metrics_harvester.Server.Config.{Config}
use go_metrics_harvester.Programs.ServerStart.{
  Store, in_memory, in_database, Files, on_left, on_right, stored, choose, read_back, sized,
  restore, open_store,
}

-- The repository is the one that the configuration asks for.
pub data IsChosen {F : Type 0} (cfg : Config) : Store F → Type 0 where
  keeps : (t : Storage F) → cfg.database_dsn ≡ "" → IsChosen cfg (in_memory t)
  connects : cfg.database_dsn ≢ "" → IsChosen cfg in_database

module _ {F : Type 0} (json : Json F) (disk : Disk) (files : Files disk) (db : Database F) where
  in_database-IsChosen :
      (cfg : Config) (m : Action db.State (Unit {0})) (s : disk.State × db.State) (store : Store F)
      → cfg.database_dsn ≢ ""
      → (on_right {A = disk.State} (m >> pure in_database) s).0 ≡ ok store
      → IsChosen cfg store
  in_database-IsChosen cfg m (d, s) store named e =
      let (_, made) = >>-eq-ok m (pure in_database) s e in
      subst (IsChosen cfg) (ok_inj (ap (λ r. r.0) (sym made) ∙ e)) (connects named)

  choose-IsChosen :
      (cfg : Config) (s : disk.State × db.State) (store : Store F)
      → (choose json disk files db cfg s).0 ≡ ok store
      → IsChosen cfg store
  unfolding choose
  choose-IsChosen cfg s store e = elim (String-cases cfg.database_dsn "") [
    | inl (p, t) ↦
        subst (IsChosen cfg) (ok_inj (rw (t, choose) at e)) (keeps (record { storage = [] }) p)
    | inr (ne, t) ↦
        in_database-IsChosen cfg (Postgres.new_storage db cfg.database_dsn) s store ne
          (rw (t, choose) at e)
  ]

  stored-IsChosen :
      (cfg : Config) (r : Error ⊎ Storage F) (s : disk.State × db.State) (store : Store F)
      → cfg.database_dsn ≡ ""
      → (lifted (stored r) s).0 ≡ ok store
      → IsChosen cfg store
  stored-IsChosen cfg (inl x) s store p e = absurd (cc e)
  stored-IsChosen cfg (inr t) s store p e = subst (IsChosen cfg) (ok_inj e) (keeps t p)

  read_back-IsChosen :
      (cfg : Config) (text : List ℕ) (s : disk.State × db.State) (store : Store F)
      → (read_back json disk files db cfg text s).0 ≡ ok store
      → IsChosen cfg store
  read_back-IsChosen cfg text s store e = elim (String-cases cfg.database_dsn "") [
    | inl (p, t) ↦ stored-IsChosen cfg (Memory.new_from json text) s store p (rw t at e)
    | inr (ne, t) ↦
        in_database-IsChosen cfg (Postgres.new_from db json text cfg.database_dsn) s store ne
          (rw t at e)
  ]

  sized-IsChosen :
      (cfg : Config) (old store : Store F) (r : Error ⊎ ℕ) (s : disk.State × db.State)
      → IsChosen cfg old
      → (sized json disk files db cfg old r s).0 ≡ ok store
      → IsChosen cfg store
  sized-IsChosen cfg old store (inl x) s h e = absurd (cc e)
  sized-IsChosen cfg old store (inr n) s h e = elim (Bool-cases (ltb 0 n)) [
    | inl t ↦ read_back-IsChosen cfg (disk.read cfg.file_storage_path s.0) s store (rw t at e)
    | inr t ↦ subst (IsChosen cfg) (ok_inj (rw t at e)) h
  ]

  restore-IsChosen :
      (cfg : Config) (old store : Store F) (s : disk.State × db.State)
      → IsChosen cfg old
      → (restore json disk files db cfg old s).0 ≡ ok store
      → IsChosen cfg store
  unfolding restore
  restore-IsChosen cfg old store s h e = elim (Bool-cases cfg.restore) [
    | inl t ↦
        let opening = on_left (files.open_or_create cfg.file_storage_path) in
        let back = λ (x : disk.State × db.State).
          sized json disk files db cfg old (files.size cfg.file_storage_path x.0) x in
        let e' : ((opening >> back) s).0 ≡ ok store = rw (t, restore) at e in
        let (_, made) = >>-eq-ok opening back s e' in
        let s' = (opening s).1 in
        sized-IsChosen cfg old store (files.size cfg.file_storage_path s'.0) s' h
          (ap (λ r. r.0) (sym made) ∙ e')
    | inr t ↦ subst (IsChosen cfg) (ok_inj (rw (t, restore) at e)) h
  ]

  pub open_store-IsChosen :
      (cfg : Config) (store : Store F) (s : disk.State × db.State)
      → (open_store json disk files db cfg s).0 ≡ ok store
      → IsChosen cfg store
  unfolding open_store
  open_store-IsChosen cfg store s e =
      let first = choose json disk files db cfg in
      let (old, picked, rest) = >>=-eq-ok (restore json disk files db cfg) first s e in
      restore-IsChosen cfg old store (first s).1 (choose-IsChosen cfg s old picked) rest
