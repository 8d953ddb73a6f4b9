-- ===== src/Agent/Config.antt =====
-- internal/agent/config.go: the configuration of the agent, from the command line, the environment
-- and a file.
use go_metrics_harvester.Base.{
  ℕ, String, ◌⊎◌, inl, inr, not, ◌&&◌, ◌||◌, Option, List, ◌==◌, if◌then◌else◌, Error, other,
  and_then, or_default,
}
use Prim.Native.String

-- The constants of the type Protocol.
abbrev pub http_protocol : String
http_protocol = "http"

abbrev pub grpc_protocol : String
grpc_protocol = "grpc"

-- The numbers are bit patterns of 64 bits.
pub record Config : Type 0 where
  pub address : String
  pub report_interval : ℕ
  pub poll_interval : ℕ
  pub log_level : String
  pub key : String
  pub rate_limit : ℕ
  pub crypto_key : String
  pub config_file : String
  pub protocol : String

pub record CfgFile : Type 0 where
  pub address : String
  pub report_interval : String
  pub poll_interval : String
  pub crypto_key : String
  pub protocol : String

-- What NewConfig takes from the libraries. A flag is looked up by its name, and is missing where the
-- command line does not set it; `env_parse` is env.Parse on the configuration so far, `seconds`
-- time.ParseDuration with int64(d.Seconds()) behind it, `scheme` the Scheme of what url.Parse makes
-- of a text.
pub record Inputs : Type 0 where
  pub string_flag : String → Option String
  pub int64_flag : String → Option ℕ
  pub env_parse : Config → Error ⊎ Config
  pub open_file : String → Error ⊎ List ℕ
  pub decode : List ℕ → Error ⊎ CfgFile
  pub seconds : String → Error ⊎ ℕ
  pub scheme : String → Error ⊎ String

-- The tests behind url.Parse, on the scheme that it found.
unfoldable pub addressed : Config → String → Error ⊎ Config
addressed cfg scheme =
    if not (cfg.protocol == http_protocol) && not (cfg.protocol == grpc_protocol)
    then inl (other (String.◌++◌ "unknown protocol " cfg.protocol))
    else if cfg.protocol == http_protocol && (scheme == "localhost" || scheme == "127.0.0.1")
    then inr (record cfg { address = String.◌++◌ "http://" cfg.address })
    else inr cfg

module _ (i : Inputs) where
  -- What flag.Parse leaves.
  unfoldable pub flagged : Config
  flagged = record {
    address = or_default (i.string_flag "a") "localhost:8080";
    report_interval = or_default (i.int64_flag "r") 10;
    poll_interval = or_default (i.int64_flag "p") 2;
    log_level = "info";
    key = or_default (i.string_flag "k") "";
    rate_limit = or_default (i.int64_flag "l") 1024;
    crypto_key = or_default (i.string_flag "crypto-key") "";
    config_file = or_default (i.string_flag "c") "";
    protocol = or_default (i.string_flag "protocol") http_protocol;
  }

  abbrev pub from_file : CfgFile → Config → ℕ → ℕ → Config
  from_file f cfg ri pi = record cfg {
    address = f.address;
    report_interval = ri;
    poll_interval = pi;
    crypto_key = f.crypto_key;
  }

  abbrev pub decoded : Config → CfgFile → Error ⊎ Config
  decoded cfg f =
      and_then (i.seconds f.report_interval)
        λ ri. and_then (i.seconds f.poll_interval) λ pi. inr (from_file f cfg ri pi)

  unfoldable pub read_file : Config → Error ⊎ Config
  read_file cfg =
      if cfg.config_file == ""
      then inr cfg
      else and_then (i.open_file cfg.config_file) λ text. and_then (i.decode text) (decoded cfg)

  unfoldable pub new_config : Error ⊎ Config
  unfolding flagged read_file addressed
  new_config =
      and_then (i.env_parse flagged)
        λ c. and_then (read_file c) λ cfg. and_then (i.scheme cfg.address) (addressed cfg)
