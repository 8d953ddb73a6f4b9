-- ===== src/Server/Config/Usable.antt =====
-- What a configuration that NewConfig returns can be used for.
use go_metrics_harvester.Base.{
  String, ◌≡◌, ◌≢◌, ◌⊎◌, inl, inr, refl, sym, ap, ◌∙◌, true, false, Bool-cases, Option, none, some,
  ◌==◌, ◌&&◌, eq_iff, arith, Error, Outcome, ok, ◌>>=◌, >>-eq-ok, >>=-eq-ok, lifted,
}
use mathlib.Core.Path.{subst}
use go_metrics_harvester.Middleware.Subnet.{Addresses}
use go_metrics_harvester.Server.Config.{
  Config, Inputs, without_scheme, flagged, check_subnet, read_file, with_storage, created, closed,
  completed, new_config,
}

-- The subnet is one, and what is to be restored has a file.
pub record IsUsable (a : Addresses) (cfg : Config) : Type 0 where
  pub covers :
      cfg.trusted_subnet ≢ "" → (net : a.Subnet) × (a.parse_cidr cfg.trusted_subnet ≡ some net)
  pub stores : cfg.restore ≡ true → cfg.file_storage_path ≢ ""

-- os.CreateTemp gives no empty name.
pub record NamesFiles {S : Type 0} (i : Inputs S) : Type 0 where
  pub created :
      (dir pattern name : String) (s : S) → (i.create_temp dir pattern s).0 ≡ inr name → name ≢ ""

module _ {S : Type 0} (a : Addresses) (i : Inputs S) where
  check_subnet-eq-ok :
      (subnet : String) (s : S)
      → (check_subnet a i subnet s).0 ≡ ok tt
      → subnet ≢ ""
      → (net : a.Subnet) × (a.parse_cidr subnet ≡ some net)
  unfolding check_subnet
  check_subnet-eq-ok subnet s e named = ground (arith, eq_iff subnet "")

module _ {S : Type 0} (i : Inputs S) where
  read_file-trusted_subnet :
      (c cfg : Config) (s : S)
      → (read_file i c s).0 ≡ ok cfg
      → cfg.trusted_subnet ≡ c.trusted_subnet
  unfolding read_file
  read_file-trusted_subnet c cfg s e = ground arith

  closed-eq-ok : (c cfg : Config) (r : Option Error × S) → (closed c r).0 ≡ ok cfg → c ≡ cfg
  closed-eq-ok c cfg (none, s) e = cc e
  closed-eq-ok c cfg (some x, s) e = absurd (cc e)

  created-eq-ok :
      (c cfg : Config) (r : (Error ⊎ String) × S)
      → ((name : String) → r.0 ≡ inr name → name ≢ "")
      → (created i c r).0 ≡ ok cfg
      → (cfg.trusted_subnet ≡ c.trusted_subnet) × (cfg.file_storage_path ≢ "")
  created-eq-ok c cfg (inl x, s) names e = absurd (cc e)
  created-eq-ok c cfg (inr name, s) names e =
      let made = closed-eq-ok (record c { file_storage_path = name }) cfg (i.close name s) e in
      (
        ap (λ (r : Config). r.trusted_subnet) (sym made),
        λ p. names name refl (ap (λ (r : Config). r.file_storage_path) made ∙ p),
      )

  stored-eq-ok :
      (c cfg : Config)
      → (c.restore && c.file_storage_path == "") ≡ false
      → ◌≡◌ {A = Outcome Config} (ok c) (ok cfg)
      → (cfg.trusted_subnet ≡ c.trusted_subnet) × (cfg.restore ≡ true → cfg.file_storage_path ≢ "")
  stored-eq-ok c cfg t e =
      let same : c ≡ cfg = cc e in
      subst
        (λ r. (r.trusted_subnet ≡ c.trusted_subnet) × (r.restore ≡ true → r.file_storage_path ≢ ""))
        same (refl, λ p q. ground (arith, eq_iff c.file_storage_path ""))

  with_storage-eq-ok :
      (c cfg : Config) (s : S)
      → NamesFiles i
      → (with_storage i c s).0 ≡ ok cfg
      → (cfg.trusted_subnet ≡ c.trusted_subnet) × (cfg.restore ≡ true → cfg.file_storage_path ≢ "")
  unfolding with_storage
  with_storage-eq-ok c cfg s names e = elim (Bool-cases (c.restore && c.file_storage_path == "")) [
    | inl t ↦
        let r = i.create_temp "" "metric" s in
        let (same, named) =
          created-eq-ok c cfg r (λ name. names.created "" "metric" name s)
            (rw (t, with_storage) at e) in
        (same, λ _. named)
    | inr t ↦ stored-eq-ok c cfg t (rw (t, with_storage) at e)
  ]

module _ {S : Type 0} (a : Addresses) (i : Inputs S) (names : NamesFiles i) where
  completed-IsUsable : (c cfg : Config) (s : S) → (completed a i c s).0 ≡ ok cfg → IsUsable a cfg
  unfolding completed
  completed-IsUsable c cfg s e =
      let check = check_subnet a i c.trusted_subnet in
      let addressed = λ (r : Config). record r { address = without_scheme r.address } in
      let store = λ (r : Config). with_storage i (addressed r) in
      let (valid, left) = >>-eq-ok check (read_file i c >>= store) s e in
      let s' = (check s).1 in
      let (r, read, stored) = >>=-eq-ok store (read_file i c) s' (ap (λ q. q.0) (sym left) ∙ e) in
      let (kept, stores) =
        with_storage-eq-ok i (addressed r) cfg (read_file i c s').1 names stored in
      let same = kept ∙ read_file-trusted_subnet i c r s' read in
      let covered = check_subnet-eq-ok a i c.trusted_subnet s valid in
      record { covers = rw (same) covered; stores = stores }

  -- If NewConfig returns a configuration, then its trusted subnet is empty or a subnet in CIDR
  -- notation, also where a file was read, and with restoring on it names a file, given that
  -- os.CreateTemp gives no empty name.
  pub new_config-IsUsable : (cfg : Config) (s : S) → (new_config a i s).0 ≡ ok cfg → IsUsable a cfg
  unfolding new_config
  new_config-IsUsable cfg s e =
      let (c, _, rest) = >>=-eq-ok (completed a i) (lifted (i.env_parse (flagged i))) s e in
      completed-IsUsable c cfg (lifted (i.env_parse (flagged i)) s).1 rest
