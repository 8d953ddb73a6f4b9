-- ===== src/Service.antt =====
-- internal/metric/service/service.go: the rules in front of a repository, and the file that the
-- repository is saved to.
pub mod Rules
pub mod InMemory
pub mod Saving
use go_metrics_harvester.Base.{
  ℕ, String, Option, none, some, List, [], ◌∷◌, ◌==◌, Bool, not, if◌then◌else◌, Error,
  metric_not_found, metric_bad_type, other, Outcome, Action, ok, err, panic, pure, fail, ◌>>=◌,
  ◌>>◌,
}
use go_metrics_harvester.Metric.{Metric, is_allowed}

-- The interface Repository, over a state of its own. `get` may change the state too, since a
-- database is behind one of its implementations. `W` is the state of the writer that Persist
-- writes to.
pub record Repository (F W : Type 0) : Type 1 where
  pub State : Type 0
  pub set : Metric F → Action State (Unit {0})
  pub get : String → Action State (Option (Metric F))
  pub list : Action State (List (Metric F))
  pub persist : (List ℕ → Action W (Unit {0})) → Action (State × W) (Unit {0})
  pub ping : Action State (Unit {0})
  pub update : List (Metric F) → Action State (Unit {0})

-- What SaveToFile takes from the package os. `open_file` is os.OpenFile with O_WRONLY and O_CREATE,
-- `write` writes through the file that was opened last.
pub record Disk : Type 1 where
  pub State : Type 0
  pub open_file : String → Action State (Unit {0})
  pub write : String → List ℕ → Action State (Unit {0})
  pub read : String → State → List ℕ

module _ {F W : Type 0} (storage : Repository F W) where
  open storage use {State}

  unfoldable pub list : Action State (List (Metric F))
  list = storage.list

  -- Behind a look-up that found a metric, or did not.
  abbrev get_found : String → Option (Metric F) → Action State (Metric F)
  get_found mtype none = fail (other "not found")
  get_found mtype (some value) =
      if not (value.mtype == mtype) then fail (other "not found") else pure value

  unfoldable pub get : String → String → Action State (Metric F)
  get id mtype =
      if not (is_allowed mtype)
      then fail (other "type not alowed")
      else (do value ← storage.get id; get_found mtype value)

  -- The checks of a name and of a type, which Set makes once and Update for each metric.
  unfoldable pub check : Metric F → Option Error
  check m =
      if m.id == ""
      then some metric_not_found
      else if not (is_allowed m.mtype)
      then some metric_bad_type
      else none

  unfoldable pub set : Metric F → Action State (Unit {0})
  set m = elim (check m) [ some e ↦ fail e | none ↦ storage.set m ]

  -- The loop of Update: the first refusal ends it.
  unfoldable pub check_all : List (Metric F) → Option Error
  check_all [] = none
  check_all (m ∷ me) = elim (check m) [ some e ↦ some e | none ↦ check_all me ]

  unfoldable pub update : List (Metric F) → Action State (Unit {0})
  update me = elim (check_all me) [ some e ↦ fail e | none ↦ storage.update me ]

  unfoldable pub ping : Action State (Unit {0})
  ping = storage.ping

module _ {F : Type 0} (disk : Disk) (storage : Repository F disk.State) where
  unfoldable pub save_to_file : String → Action (storage.State × disk.State) (Unit {0})
  save_to_file path (s, d) =
      let (opened, d') = disk.open_file path d in
      elim opened [
        | ok _ ↦ storage.persist (disk.write path) (s, d')
        | err e ↦ (err e, (s, d'))
        | panic ↦ (panic, (s, d'))
      ]
