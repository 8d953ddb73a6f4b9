-- ===== src/Service/Rules.antt =====
-- What the service lets through to its repository.
use go_metrics_harvester.Base.{
  String, ◌≡◌, ◌≢◌, ◌↔◌, ◌⊎◌, inl, inr, refl, none, some, List, [], ◌∷◌, eq_iff, arith, All,
  Option-cases, ok, err, metric_not_found, metric_bad_type, Error, other,
}
use go_metrics_harvester.Metric.{Metric, gauge, counter}
use go_metrics_harvester.Service.{Repository, check, check_all, get, set, update}

-- A metric that the rules accept: it has a name, and its type is one of the two.
pub record IsAccepted {F : Type 0} (m : Metric F) : Type 0 where
  pub named : m.id ≢ ""
  pub typed : (m.mtype ≡ gauge) ⊎ (m.mtype ≡ counter)

-- One of the two refusals.
abbrev pub IsRefusal : Error → Type 0
IsRefusal e = (e ≡ metric_not_found) ⊎ (e ≡ metric_bad_type)

module _ {F W : Type 0} (storage : Repository F W) where
  check-none : (m : Metric F) → check storage m ≡ none → IsAccepted m
  unfolding check
  check-none m e = record {
    named = λ p. ground (arith, eq_iff m.id "");
    typed = ground (arith, eq_iff m.mtype gauge, eq_iff m.mtype counter);
  }

  check-of_accepted : (m : Metric F) → IsAccepted m → check storage m ≡ none
  unfolding check
  check-of_accepted m h =
      ground (arith, h.named, h.typed, eq_iff m.id "", eq_iff m.mtype gauge, eq_iff m.mtype counter)

  check-some : (m : Metric F) (e : Error) → check storage m ≡ some e → IsRefusal e
  unfolding check
  check-some m e h = ground arith

  check_all-none : (me : List (Metric F)) → check_all storage me ≡ none → All IsAccepted me
  unfolding check_all
  check_all-none [] e = tt
  check_all-none (m ∷ me) e = ground (arith, check-none m, check_all-none me)

  check_all-of_accepted : (me : List (Metric F)) → All IsAccepted me → check_all storage me ≡ none
  unfolding check_all
  check_all-of_accepted [] h = refl
  check_all-of_accepted (m ∷ me) (a, h) =
      rw (check-of_accepted m a, check_all) (check_all-of_accepted me h)

  check_all-some : (me : List (Metric F)) (e : Error) → check_all storage me ≡ some e → IsRefusal e
  unfolding check_all
  check_all-some [] e h = cc
  check_all-some (m ∷ me) e h = ground (arith, check-some m e, check_all-some me e)

  pub set-of_accepted :
      (m : Metric F) (s : storage.State) → IsAccepted m → set storage m s ≡ storage.set m s
  unfolding set
  set-of_accepted m s h = rw (check-of_accepted m h, set)

  pub get-of_found :
      (id mtype : String) (m : Metric F) (s s' : storage.State)
      → (mtype ≡ gauge) ⊎ (mtype ≡ counter)
      → storage.get id s ≡ (ok (some m), s')
      → m.mtype ≡ mtype
      → get storage id mtype s ≡ (ok m, s')
  unfolding get
  get-of_found id mtype m s s' a e t =
      ground (arith, eq_iff mtype gauge, eq_iff mtype counter, eq_iff m.mtype mtype)

  pub get-of_other_type :
      (id mtype : String) (m : Metric F) (s s' : storage.State)
      → (mtype ≡ gauge) ⊎ (mtype ≡ counter)
      → storage.get id s ≡ (ok (some m), s')
      → m.mtype ≢ mtype
      → get storage id mtype s ≡ (err (other "not found"), s')
  unfolding get
  get-of_other_type id mtype m s s' a e t =
      ground (arith, eq_iff mtype gauge, eq_iff mtype counter, eq_iff m.mtype mtype)

  pub update-of_accepted :
      (me : List (Metric F)) (s : storage.State)
      → All IsAccepted me
      → update storage me s ≡ storage.update me s
  unfolding update
  update-of_accepted me s h = rw (check_all-of_accepted me h, update)

  -- Update hands the whole batch to the repository, and does so if every metric of it is accepted;
  -- otherwise it refuses the batch and leaves the repository alone.
  pub update_atomic :
      (me : List (Metric F)) (s : storage.State)
      → (All IsAccepted me × (update storage me s ≡ storage.update me s))
        ⊎ ((¬ All IsAccepted me) × ((e : Error) × (update storage me s ≡ (err e, s)) × IsRefusal e))
  unfolding update
  update_atomic me s = elim (Option-cases (check_all storage me)) [
    | inl fine ↦ inl (check_all-none me fine, rw (fine, update))
    | inr (e, refused) ↦ inr (
      λ h. cc (refused, check_all-of_accepted me h),
      (e, rw (refused, update), check_all-some me e refused),
    )
  ]

  -- Get returns a metric exactly when the type that was asked for is allowed and the repository
  -- returns, under the name, a metric of that type.
  pub get-eq-ok_iff :
      (id mtype : String) (s : storage.State) (m : Metric F)
      → ((get storage id mtype s).0 ≡ ok m) ↔ (
          ((mtype ≡ gauge) ⊎ (mtype ≡ counter))
          × ((storage.get id s).0 ≡ ok (some m))
          × (m.mtype ≡ mtype))
  unfolding get
  get-eq-ok_iff id mtype s m = (
    λ e. ground (arith, eq_iff mtype gauge, eq_iff mtype counter, eq_iff m.mtype mtype),
    λ h. ground (arith, eq_iff mtype gauge, eq_iff mtype counter, eq_iff m.mtype mtype),
  )
