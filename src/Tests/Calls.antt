-- ===== src/Tests/Calls.antt =====
-- The gRPC client at work, with a counter that is stored over the memory storage.
use go_metrics_harvester.Base.{
  ℕ, ◌+◌, not, Option, String, ◌≡◌, ◌≢◌, ◌⊎◌, ◌==◌, eq_iff, Bool, true, false, inr, refl, List, [],
  ◌∷◌, Error, other, wrap, ok, err,
}
use mathlib.Core.List.{reverse}
use go_metrics_harvester.Base.Dict.{lookup, assign}
use go_metrics_harvester.Memory
use go_metrics_harvester.Service.{Repository}
use go_metrics_harvester.Service.InMemory.{memory}
use go_metrics_harvester.Grpc.{ContractMetric, call_update, Channel, publish}
use go_metrics_harvester.Grpc.Logging.{
  Any, string, int, zap_string, zap_int, Severity, debug, info, warn, error, Levels, Logs,
  interceptor_logger, interceptor_logger-Logs,
}
use go_metrics_harvester.Grpc.Signatures.{
  World, marshalled, answered, refused, passes, IsServed, publish_refused, publish_unsigned,
}
use go_metrics_harvester.Tests.Samples.{count_of, both, codec}
use go_metrics_harvester.Tests.Services.{count_of-IsAccepted}
use go_metrics_harvester.Tests.Webs.{texts, one_address, constant, named}

abbrev repository : Repository ℕ ℕ
repository = memory reverse codec

abbrev encode : List (ContractMetric ℕ) → Error ⊎ List ℕ
encode req = inr (6 ∷ [])

-- Only texts that are not empty can be sent.
abbrev printable : String → Bool
printable v = not (v == "")

abbrev delivered :
    Bool
    → World repository.State
    → Option Error × World repository.State
    → Option Error × World repository.State
delivered true w answer = answer
delivered false w answer = refused w (other "not printable")

-- `raw` is what a signature is as text.
abbrev channel : String → String → Channel ℕ (World repository.State)
channel raw key = record {
  invoke = λ signs req w. delivered (passes printable signs) w (
      answered w (
        call_update repository texts constant one_address (λ r. marshalled (encode r)) key
          "10.0.0.1" signs [] req w.state));
  raw = λ b. raw;
  marshal = encode;
  sleep = λ n w. record w { slept = w.slept + n };
}

channel-IsServed :
    (raw key : String)
    → IsServed {W = ℕ} texts constant one_address repository (channel raw key) key "10.0.0.1"
channel-IsServed raw key = record {
  printable = printable;
  refusal = other "not printable";
  serves = λ signs req w e. rw e refl;
  refuses = λ signs req w e. rw e refl;
  sleeps = λ n w. refl;
}

abbrev at_both : World repository.State
at_both = record { state = both; invoked = 0; slept = 0 }

text_differs : ("raw" == "s") ≡ false
text_differs = refl

raw_differs : ◌≢◌ {A = String} "raw" "s"
raw_differs p = cc (text_differs, (eq_iff "raw" "s").1 p)

publish_refused_example :
    (e : Error) × (publish texts constant (channel "raw" "k") "k" (count_of 5 ∷ []) at_both ≡ (
      err (wrap "error while publish" (wrap "send request" e)),
      record at_both { invoked = 3; slept = 9 },
    ))
publish_refused_example =
    publish_refused texts constant one_address repository (channel "raw" "k") "k" "10.0.0.1"
      (count_of 5 ∷ []) at_both (6 ∷ []) (channel-IsServed "raw" "k") (named "k" refl) refl
      raw_differs

stored : (repository.update (count_of 5 ∷ []) both).0 ≡ ok tt
unfolding Memory.update Memory.upsert Memory.merge lookup assign
stored = refl

publish_unsigned_example :
    publish texts constant (channel "raw" "") "" (count_of 5 ∷ []) at_both
    ≡ (ok tt, record at_both { state = (repository.update (count_of 5 ∷ []) both).1; invoked = 1 })
publish_unsigned_example =
    publish_unsigned texts constant one_address repository (channel "raw" "") "10.0.0.1"
      (count_of 5 ∷ []) at_both (channel-IsServed "raw" "") (count_of-IsAccepted 5, tt) stored

-- The levels of the interceptor's package, as bit patterns of 64 bits.
abbrev levels : Levels
levels = record {
  level_debug = 0xffff_ffff_ffff_fffc;
  level_info = 0;
  level_warn = 4;
  level_error = 8;
}

abbrev call_fields : List (Any ℕ)
call_fields = string "grpc.code" ∷ string "OK" ∷ string "peer.port" ∷ int 8081 ∷ []

-- A logger with the level info.
abbrev from_info : Severity → Bool
from_info debug = false
from_info info = true
from_info warn = true
from_info error = true

debug_is_dropped :
    interceptor_logger from_info levels 0xffff_ffff_ffff_fffc "started call" call_fields []
    ≡ (ok tt, [])
unfolding interceptor_logger
debug_is_dropped = refl

interceptor_logger-Logs_example : Logs from_info levels 0 "finished call" call_fields [] (
  ok tt,
  record {
    severity = info;
    msg = "finished call";
    fields = zap_string "grpc.code" "OK" ∷ zap_int "peer.port" 8081 ∷ [];
  }
      ∷ [],
)
unfolding interceptor_logger
interceptor_logger-Logs_example =
    interceptor_logger-Logs from_info levels 0 "finished call" call_fields []
