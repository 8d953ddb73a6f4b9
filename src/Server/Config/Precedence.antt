-- ===== src/Server/Config/Precedence.antt =====
-- The file against the command line and the environment.
use go_metrics_harvester.Base.{
  ℕ, String, ◌≡◌, ◌≢◌, ◌⊎◌, inr, refl, sym, ap, ◌∙◌, Bool, Option, eq-eq_false, if◌then◌else◌,
  Error, Action, pure, ◌>>=◌, ◌>>◌, lifted,
}
use mathlib.Core.Path.{fun_ext}
use go_metrics_harvester.Middleware.Subnet.{Addresses}
use go_metrics_harvester.Server.Config.{
  Config, CfgFile, Inputs, without_scheme, flagged, check_subnet, from_file, decode_file, read_file,
  with_storage, completed, new_config,
}

-- Two configurations that name the same file and agree on what no file sets.
pub record NamesSameFile (c c' : Config) : Type 0 where
  pub named : c.config_file ≢ ""
  pub config_file : c.config_file ≡ c'.config_file
  pub log_level : c.log_level ≡ c'.log_level
  pub key : c.key ≡ c'.key
  pub trusted_subnet : c.trusted_subnet ≡ c'.trusted_subnet

-- One program on another command line and in another environment.
abbrev pub with_given :
    {S : Type 0}
    → Inputs S
    → (String → Option String)
    → (String → Option ℕ)
    → (String → Option Bool)
    → (Config → Error ⊎ Config)
    → Inputs S
with_given i strings numbers switches env = record i {
  string_flag = strings;
  int64_flag = numbers;
  bool_flag = switches;
  env_parse = env;
}

read_file-of_named :
    {S : Type 0} (i : Inputs S) (c : Config) (s : S)
    → c.config_file ≢ ""
    → read_file i c s ≡ (decode_file i c.config_file >>= λ r. pure (from_file r.0 c r.1)) s
unfolding read_file
read_file-of_named i c s h =
    ap
      (λ b.
        (if b then pure c else decode_file i c.config_file >>= λ r. pure (from_file r.0 c r.1)) s)
      (eq-eq_false c.config_file "" h)

module _ (c c' : Config) (h : NamesSameFile c c') where
  from_file-eq-from_file : (f : CfgFile) (n : ℕ) → from_file f c n ≡ from_file f c' n
  from_file-eq-from_file f n = rw (h.config_file, h.log_level, h.key, h.trusted_subnet) refl

  module _ {S : Type 0} (i : Inputs S) where
    read_file-eq-read_file : (s : S) → read_file i c s ≡ read_file i c' s
    read_file-eq-read_file s =
        let put : (λ (r : CfgFile × ℕ). from_file r.0 c r.1) ≡ (λ r. from_file r.0 c' r.1) =
          fun_ext (λ r. from_file-eq-from_file r.0 r.1) in
        read_file-of_named i c s h.named
        ∙ ap (λ f. (decode_file i c.config_file >>= λ r. pure (f r)) s) put
        ∙ ap (λ n. (decode_file i n >>= λ r. pure (from_file r.0 c' r.1)) s) h.config_file
        ∙ sym (read_file-of_named i c' s (λ p. h.named (h.config_file ∙ p)))

    completed-eq-completed : (a : Addresses) (s : S) → completed a i c s ≡ completed a i c' s
    unfolding completed
    completed-eq-completed a s =
        let store =
          λ (r : Config). with_storage i (record r { address = without_scheme r.address }) in
        ap (λ (read : Action S Config). (check_subnet a i c.trusted_subnet >> (read >>= store)) s)
          (fun_ext read_file-eq-read_file)
        ∙ ap (λ t. (check_subnet a i t >> (read_file i c' >>= store)) s) h.trusted_subnet

module _ {S : Type 0} (a : Addresses) (i : Inputs S) where
  -- A configuration file beats the command line and the environment: if two starts of the server on
  -- the same files name the same configuration file and agree on the log level, the key and the
  -- trusted subnet, then NewConfig does the same in both, whatever their command lines and
  -- environments say of the address, the restoring, the store interval, the storage path, the
  -- database and the private key.
  pub new_config-eq_of_file :
      (strings : String → Option String) (numbers : String → Option ℕ)
      (switches : String → Option Bool) (env : Config → Error ⊎ Config) (c c' : Config) (s : S)
      → i.env_parse (flagged i) ≡ inr c
      → env (flagged (with_given i strings numbers switches env)) ≡ inr c'
      → NamesSameFile c c'
      → new_config a i s ≡ new_config a (with_given i strings numbers switches env) s
  unfolding new_config completed check_subnet read_file decode_file with_storage
  new_config-eq_of_file strings numbers switches env c c' s e e' h =
      let i' = with_given i strings numbers switches env in
      ap (λ r. (lifted r >>= completed a i) s) e
      ∙ completed-eq-completed c c' h i a s
      ∙ ap (λ r. (lifted r >>= completed a i') s) (sym e')
