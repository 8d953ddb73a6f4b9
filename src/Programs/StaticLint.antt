-- ===== src/Programs/StaticLint.antt =====
-- cmd/staticlint/main.go: the analyzers that the program runs. `A` is the type of an analyzer.
use go_metrics_harvester.Base.{
  String, ◌≡◌, ◌≢◌, eq_iff, Bool, true, false, Option, none, some, List, [], ◌∷◌, ◌++◌, All,
  if◌then◌else◌, refl, arith, ap,
}
use go_metrics_harvester.Base.Dict.{Dict, lookup}

-- A map without the key gives false.
abbrev is_set : Option Bool → Bool
is_set none = false
is_set (some b) = b

abbrev pub checks : Dict Bool
checks = ("SA", true) ∷ ("ST1015", true) ∷ []

-- The analyzers of the imported packages: the list of staticcheck, each with its name, and the six
-- that are named one by one.
pub record Passes (A : Type 0) : Type 0 where
  pub staticcheck : List (String × A)
  pub printf : A
  pub shadow : A
  pub structtag : A
  pub bodyclose : A
  pub errname : A
  pub exit_check : A

module _ {A : Type 0} where
  -- The loop over staticcheck.Analyzers.
  unfoldable pub chosen : List (String × A) → List A → List A
  chosen [] mychecks = mychecks
  chosen ((name, v) ∷ analyzers) mychecks =
      chosen analyzers (if is_set (lookup name checks) then mychecks ++ v ∷ [] else mychecks)

  -- What main hands to multichecker.Main.
  unfoldable pub my_checks : Passes A → List A
  unfolding chosen
  my_checks p =
      chosen p.staticcheck []
      ++ p.printf ∷ p.shadow ∷ p.structtag ∷ p.bodyclose ∷ p.errname ∷ p.exit_check ∷ []

  chosen-of_others :
      (analyzers : List (String × A)) (mychecks : List A)
      → All (λ (v : String × A). (v.0 ≢ "SA") × (v.0 ≢ "ST1015")) analyzers
      → chosen analyzers mychecks ≡ mychecks
  unfolding chosen lookup
  chosen-of_others [] mychecks h = refl
  chosen-of_others ((name, v) ∷ analyzers) mychecks (n, h) =
      ground (arith, eq_iff "SA" name, eq_iff "ST1015" name, chosen-of_others analyzers mychecks h)

  -- If no analyzer of staticcheck has SA or ST1015 as its whole name, then none of them is run: the
  -- program runs the six analyzers that are named one by one, in this order, and no other.
  pub my_checks-of_others :
      (p : Passes A)
      → All (λ (v : String × A). (v.0 ≢ "SA") × (v.0 ≢ "ST1015")) p.staticcheck
      → my_checks p
        ≡ p.printf ∷ p.shadow ∷ p.structtag ∷ p.bodyclose ∷ p.errname ∷ p.exit_check ∷ []
  unfolding my_checks
  my_checks-of_others p h =
      let six : List A =
        p.printf ∷ p.shadow ∷ p.structtag ∷ p.bodyclose ∷ p.errname ∷ p.exit_check ∷ [] in
      ap (λ (l : List A). l ++ six) (chosen-of_others p.staticcheck [] h)
