-- ===== src/Middleware/Logging.antt =====
-- internal/logger/logger.go: Initialize, and WithLogging, which notes the status and the size of a reply. The start of the
-- clock and the lines of the log are not modelled beyond the two numbers.
use go_metrics_harvester.Base.{
  String, Error, Option, none, some, ◌⊎◌, inl, inr, ℕ, ◌+◌, ◌≡◌, refl, ap, ◌∙◌, true, false, Bool,
  List, [], ◌∷◌, ◌++◌, length, length-append, arith,
}
use mathlib.Core.Path.{ap₂}
use native.Mathlib.Nat.{zero-add}
use go_metrics_harvester.Http.{
  Call, set_header, write_header, write, Request, Reply, Handler, Middleware, written,
}

-- What Initialize takes from zap: NewNop, ParseAtomicLevel, and Build of the development
-- configuration with a level.
pub record Zap : Type 1 where
  pub Level : Type 0
  pub Logger : Type 0
  pub new_nop : Logger
  pub parse_atomic_level : String → Error ⊎ Level
  pub build : Level → Error ⊎ Logger

module _ (zap : Zap) where
  abbrev built : zap.Logger → Error ⊎ zap.Logger → Option Error × zap.Logger
  built log (inl e) = (some e, log)
  built log (inr zl) = (none, zl)

  abbrev with_level : zap.Logger → Error ⊎ zap.Level → Option Error × zap.Logger
  with_level log (inl e) = (some e, log)
  with_level log (inr lvl) = built log (zap.build lvl)

  -- The state is the variable Log, which keeps its logger where an error is returned.
  unfoldable pub initialize : String → zap.Logger → Option Error × zap.Logger
  initialize level log = with_level log (zap.parse_atomic_level level)

-- The field responseData, which starts at 0 and 0.
pub record ResponseData : Type 0 where
  pub status : ℕ
  pub size : ℕ

-- The methods of loggingResponseWriter, each of which calls the writer below it too.
unfoldable pub observe : ResponseData → Call → ResponseData
observe d (set_header _ _) = d
observe d (write_header code) = record d { status = code }
observe d (write b) = record d { size = d.size + length b }

unfoldable pub observe_all : ResponseData → List Call → ResponseData
unfolding observe
observe_all d [] = d
observe_all d (call ∷ calls) = observe_all (observe d call) calls

-- The line is logged behind the handler, and not if it panics.
abbrev pub log : {S : Type 0} → Bool → ResponseData → Reply S → Reply S
log true d reply = reply
log false d reply = record reply { logged = reply.logged ++ (d.status, d.size) ∷ [] }

unfoldable pub with_logging : {S : Type 0} → Middleware S
with_logging h req s =
    let reply = h req s in
    let d = observe_all (record { status = 0; size = 0 }) reply.calls in log reply.panicked d reply

size-observe_all :
    (d : ResponseData) (calls : List Call)
    → (observe_all d calls).size ≡ d.size + length (written calls)
unfolding observe_all written
size-observe_all d [] = omega arith
size-observe_all d (set_header k v ∷ calls) = size-observe_all d calls
size-observe_all d (write_header code ∷ calls) = size-observe_all (record d { status = code }) calls
size-observe_all d (write b ∷ calls) = omega (
  arith,
  size-observe_all (record d { size = d.size + length b }) calls,
  length-append b (written calls),
)

-- The last status that the calls give, if any.
pub last_status : ℕ → List Call → ℕ
last_status n [] = n
last_status n (set_header _ _ ∷ calls) = last_status n calls
last_status n (write_header code ∷ calls) = last_status code calls
last_status n (write _ ∷ calls) = last_status n calls

status-observe_all :
    (d : ResponseData) (calls : List Call)
    → (observe_all d calls).status ≡ last_status d.status calls
unfolding observe_all last_status
status-observe_all d [] = refl
status-observe_all d (set_header k v ∷ calls) = status-observe_all d calls
status-observe_all d (write_header code ∷ calls) =
    status-observe_all (record d { status = code }) calls
status-observe_all d (write b ∷ calls) =
    status-observe_all (record d { size = d.size + length b }) calls

-- Logging leaves the calls and the state as the handler made them. If the handler does not panic it
-- adds one line, with the last status of the calls, 0 where they give none, and with the number of
-- all bytes written.
pub with_logging_observes :
    {S : Type 0} (h : Handler S) (req : Request) (s : S)
    → (h req s).panicked ≡ false
    → with_logging h req s ≡ record (h req s) {
      logged =
          (h req s).logged
          ++ (last_status 0 (h req s).calls, length (written (h req s).calls)) ∷ [];
    }
unfolding with_logging
with_logging_observes h req s fine =
    let calls = (h req s).calls in
    let start : ResponseData = record { status = 0; size = 0 } in
    ap (λ b. log b (observe_all start calls) (h req s)) fine
    ∙ ap₂ (λ st sz. record (h req s) { logged = (h req s).logged ++ (st, sz) ∷ [] })
        (status-observe_all start calls) (size-observe_all start calls ∙ zero-add _)
