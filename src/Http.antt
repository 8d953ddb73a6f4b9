-- ===== src/Http.antt =====
-- Requests, the calls that a handler makes on its ResponseWriter, and handlers as functions.
use go_metrics_harvester.Base.{ℕ, String, ◌≡◌, ◌⊎◌, Bool, false, true, List, [], ◌∷◌, ◌++◌, Error}

-- One call on a ResponseWriter: Header().Set, WriteHeader and Write.
pub data Call : Type 0 where
  set_header : String → String → Call
  write_header : ℕ → Call
  write : List ℕ → Call

-- What reading a body to its end gives.
abbrev pub Body : Type 0
Body = Error ⊎ List ℕ

-- `header` is Header.Get, with "" for a header that is not there.
pub record Request : Type 0 where
  pub header : String → String
  pub body : Body

-- What a handler did: its calls in order, the state that it left, the lines that it logged (a status
-- and a size), whether it panicked, and whether it started a save of
-- the storage that runs beside it.
pub record Reply (S : Type 0) : Type 0 where
  pub calls : List Call
  pub state : S
  pub logged : List (ℕ × ℕ)
  pub panicked : Bool
  pub saves : Bool

abbrev pub Handler : Type 0 → Type 0
Handler S = Request → S → Reply S

abbrev pub Middleware : Type 0 → Type 0
Middleware S = Handler S → Handler S

-- What the program takes from net/http and encoding: the calls of http.Error, and []byte(s).
pub record Net : Type 0 where
  pub error_calls : String → ℕ → List Call
  pub bytes : String → List ℕ

abbrev pub answer : {S : Type 0} → List Call → S → Reply S
answer calls s = record { calls = calls; state = s; logged = []; panicked = false; saves = false }

-- http.Error and a return.
abbrev pub refuse : {S : Type 0} → Net → String → ℕ → S → Reply S
refuse net msg code = answer (net.error_calls msg code)

abbrev pub crash : {S : Type 0} → S → Reply S
crash s = record { calls = []; state = s; logged = []; panicked = true; saves = false }

-- All bytes of the writes.
unfoldable pub written : List Call → List ℕ
written [] = []
written (set_header _ _ ∷ calls) = written calls
written (write_header _ ∷ calls) = written calls
written (write b ∷ calls) = b ++ written calls

-- The status that the client receives: that of the first WriteHeader, and 200 where a Write comes
-- before any, or neither comes.
unfoldable pub status : List Call → ℕ
status [] = 200
status (set_header _ _ ∷ calls) = status calls
status (write_header code ∷ _) = code
status (write _ ∷ _) = 200

-- What http.Error promises of its calls.
pub record SendsStatus (net : Net) : Type 0 where
  pub status-error_calls : (msg : String) (code : ℕ) → status (net.error_calls msg code) ≡ code
