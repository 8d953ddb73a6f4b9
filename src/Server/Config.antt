-- ===== src/Server/Config.antt =====
-- internal/server/config.go: the configuration of the server, from the command line, the environment
-- and a file.
pub mod Usable
pub mod Precedence
use go_metrics_harvester.Base.{
  ℕ, suc, zero, ◌-◌, String, ◌⊎◌, inl, inr, Bool, true, not, ◌&&◌, Option, none, some, List, ◌==◌,
  if◌then◌else◌, Error, Action, Outcome, ok, err, pure, fail, ◌>>=◌, ◌>>◌, lifted, or_default,
}
use text.Mathlib.Text.{starts_with}
use Prim.Native.String
use Prim.Native.String.{[], ◌∷◌, count}
use go_metrics_harvester.Middleware.Subnet.{Addresses}

-- `store_interval` and the other numbers are bit patterns of 64 bits.
pub record Config : Type 0 where
  pub address : String
  pub log_level : String
  pub store_interval : ℕ
  pub file_storage_path : String
  pub restore : Bool
  pub database_dsn : String
  pub key : String
  pub crypto_key : String
  pub config_file : String
  pub trusted_subnet : String

pub record CfgFile : Type 0 where
  pub address : String
  pub restore : Bool
  pub store_interval : String
  pub store_file : String
  pub database_dsn : String
  pub crypto_key : String
  pub trusted_subnet : String

-- What NewConfig takes from the libraries. A flag is looked up by its name, and is missing where the
-- command line does not set it; `env_parse` is env.Parse on the configuration so far. `seconds` is
-- time.ParseDuration with int64(d.Seconds()) behind it. `S` is the state of the temporary files.
pub record Inputs (S : Type 0) : Type 0 where
  pub string_flag : String → Option String
  pub int64_flag : String → Option ℕ
  pub bool_flag : String → Option Bool
  pub env_parse : Config → Error ⊎ Config
  pub cidr_error : String → Error
  pub open_file : String → Error ⊎ List ℕ
  pub decode : List ℕ → Error ⊎ CfgFile
  pub seconds : String → Error ⊎ ℕ
  pub create_temp : String → String → S → (Error ⊎ String) × S
  pub close : String → S → Option Error × S

-- strings.Replace of all the places of a text by the empty one; the number is of the characters that
-- still belong to the last place.
unfoldable pub remove_all : String → ℕ → String → String
remove_all old k [] = []
remove_all old (suc k) (c ∷ s) = remove_all old k s
remove_all old zero (c ∷ s) =
    let skipped = remove_all old (count old - 1) s in
    let kept = remove_all old zero s in if starts_with (c ∷ s) old then skipped else c ∷ kept

-- The address of a server has no scheme.
unfoldable pub without_scheme : String → String
unfolding remove_all
without_scheme address =
    if starts_with address "http://" then remove_all "http://" 0 address else address

abbrev pub from_file : CfgFile → Config → ℕ → Config
from_file f cfg n = record cfg {
  address = f.address;
  restore = f.restore;
  store_interval = n;
  file_storage_path = f.store_file;
  database_dsn = f.database_dsn;
  crypto_key = f.crypto_key;
}

module _ {S : Type 0} where
  abbrev pub closed : Config → Option Error × S → Outcome Config × S
  closed cfg (none, s) = (ok cfg, s)
  closed cfg (some e, s) = (err e, s)

module _ {S : Type 0} (i : Inputs S) where
  -- What flag.Parse leaves.
  unfoldable pub flagged : Config
  flagged = record {
    address = or_default (i.string_flag "a") "localhost:8080";
    log_level = or_default (i.string_flag "l") "info";
    store_interval = or_default (i.int64_flag "i") 300;
    file_storage_path = or_default (i.string_flag "f") "";
    restore = or_default (i.bool_flag "r") true;
    database_dsn = or_default (i.string_flag "d") "";
    key = or_default (i.string_flag "k") "";
    crypto_key = or_default (i.string_flag "crypto-key") "";
    config_file = or_default (i.string_flag "c") "";
    trusted_subnet = or_default (i.string_flag "t") "";
  }

  unfoldable pub decode_file : String → Action S (CfgFile × ℕ)
  decode_file name = lifted (i.open_file name) >>= λ text.
      lifted (i.decode text) >>= λ f. lifted (i.seconds f.store_interval) >>= λ n. pure (f, n)

  unfoldable pub read_file : Config → Action S Config
  unfolding decode_file
  read_file cfg =
      if cfg.config_file == ""
      then pure cfg
      else decode_file cfg.config_file >>= λ r. pure (from_file r.0 cfg r.1)

  abbrev pub created : Config → (Error ⊎ String) × S → Outcome Config × S
  created cfg (inl e, s) = (err e, s)
  created cfg (inr name, s) = closed (record cfg { file_storage_path = name }) (i.close name s)

  unfoldable pub with_storage : Config → Action S Config
  with_storage cfg s =
      if cfg.restore && cfg.file_storage_path == ""
      then created cfg (i.create_temp "" "metric" s)
      else (ok cfg, s)

module _ {S : Type 0} (a : Addresses) (i : Inputs S) where
  abbrev pub parsed : String → Option a.Subnet → Action S (Unit {0})
  parsed subnet none = fail (i.cidr_error subnet)
  parsed subnet (some _) = pure tt

  unfoldable pub check_subnet : String → Action S (Unit {0})
  check_subnet subnet = if subnet == "" then pure tt else parsed subnet (a.parse_cidr subnet)

  -- What NewConfig does with a configuration behind the environment.
  unfoldable pub completed : Config → Action S Config
  unfolding check_subnet read_file with_storage without_scheme
  completed cfg =
      check_subnet cfg.trusted_subnet
      >> (read_file i cfg >>= λ c. with_storage i (record c { address = without_scheme c.address }))

  unfoldable pub new_config : Action S Config
  unfolding flagged completed
  new_config = lifted (i.env_parse (flagged i)) >>= completed
