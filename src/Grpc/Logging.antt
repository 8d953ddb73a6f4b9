-- ===== src/Grpc/Logging.antt =====
-- InterceptorLogger of internal/grpc/grpc.go: the lines that the gRPC server logs of its calls.
use go_metrics_harvester.Base.{
  ℕ, String, ◌≡◌, ◌≢◌, refl, sym, ap, Bool, true, false, Bool-cases, inl, inr, Option, none, some,
  List, [], ◌∷◌, ◌++◌, map, nat_eq, if◌then◌else◌, Outcome, ok, err, panic, Action,
}
use mathlib.Core.Path.{subst}
use mathlib.Core.List.{append-nil, append_assoc}

-- A value of the type any, as the type switch tells them apart; `A` is what else there is.
pub data Any (A : Type 0) : Type 0 where
  string : String → Any A
  int : ℕ → Any A
  bool : Bool → Any A
  object : A → Any A

-- A field of zap, by the call that makes it.
pub data Field (A : Type 0) : Type 0 where
  zap_string : String → String → Field A
  zap_int : String → ℕ → Field A
  zap_bool : String → Bool → Field A
  zap_any : String → A → Field A

-- The methods of the logger, and the numbers of the levels in the interceptor's package.
pub data Severity : Type 0 where
  debug info warn error : Severity

pub record Levels : Type 0 where
  pub level_debug : ℕ
  pub level_info : ℕ
  pub level_warn : ℕ
  pub level_error : ℕ

-- A line of the log.
pub record Entry (A : Type 0) : Type 0 where
  pub severity : Severity
  pub msg : String
  pub fields : List (Field A)

-- The method that is called, if the level is a known one.
unfoldable pub method : Levels → ℕ → Option Severity
method l lvl =
    if nat_eq lvl l.level_debug
    then some debug
    else if nat_eq lvl l.level_info
    then some info
    else if nat_eq lvl l.level_warn
    then some warn
    else if nat_eq lvl l.level_error
    then some error
    else none

module _ {A : Type 0} where
  abbrev pub field : String → Any A → Field A
  field key (string v) = zap_string key v
  field key (int v) = zap_int key v
  field key (bool v) = zap_bool key v
  field key (object v) = zap_any key v

  -- key.(string)
  abbrev pub as_string : Any A → Option String
  as_string (string key) = some key
  as_string _ = none

  -- The loop: `f` is what it has made. A key at the end reads past the fields, and a key that is no
  -- string fails its assertion.
  unfoldable pub fields_from : List (Any A) → List (Field A) → Outcome (List (Field A))
  fields_from [] f = ok f
  fields_from (key ∷ []) f = panic
  fields_from (key ∷ value ∷ fields) f = elim (as_string key) [
    | none ↦ panic
    | some k ↦ fields_from fields (f ++ field k value ∷ [])
  ]

  -- `enabled` tells which levels the logger is configured to write: zap drops the others.
  abbrev pub call_method :
      (Severity → Bool)
      → Option Severity
      → String
      → List (Field A)
      → Action (List (Entry A)) (Unit {0})
  call_method enabled none msg f s = (panic, s)
  call_method enabled (some severity) msg f s = (
    ok tt,
    if enabled severity then s ++ record { severity = severity; msg = msg; fields = f } ∷ [] else s,
  )

  abbrev pub log_fields :
      (Severity → Bool)
      → Levels
      → ℕ
      → String
      → Outcome (List (Field A))
      → Action (List (Entry A)) (Unit {0})
  log_fields enabled l lvl msg (ok f) s = call_method enabled (method l lvl) msg f s
  log_fields enabled l lvl msg (err e) s = (err e, s)
  log_fields enabled l lvl msg panic s = (panic, s)

  unfoldable pub interceptor_logger :
      (Severity → Bool) → Levels → ℕ → String → List (Any A) → Action (List (Entry A)) (Unit {0})
  unfolding fields_from method
  interceptor_logger enabled l lvl msg fields s =
      log_fields enabled l lvl msg (fields_from fields []) s

  -- Keys and values one behind the other.
  pub flat : List (String × Any A) → List (Any A)
  flat [] = []
  flat ((key, value) ∷ pairs) = string key ∷ value ∷ flat pairs

  abbrev pub pair_field : String × Any A → Field A
  pair_field (key, value) = field key value

  -- What a call of the logger does with the log.
  pub data Logs (enabled : Severity → Bool) (l : Levels) (lvl : ℕ) (msg : String)
      (fields : List (Any A)) (s : List (Entry A))
      : Outcome (Unit {0}) × List (Entry A) → Type 0 where
    writes :
        (severity : Severity) (pairs : List (String × Any A))
        → method l lvl ≡ some severity
        → enabled severity ≡ true
        → fields ≡ flat pairs
        → Logs enabled l lvl msg fields s (
          ok tt,
          s ++ record { severity = severity; msg = msg; fields = map pair_field pairs } ∷ [],
        )
    drops :
        (severity : Severity) (pairs : List (String × Any A))
        → method l lvl ≡ some severity
        → enabled severity ≡ false
        → fields ≡ flat pairs
        → Logs enabled l lvl msg fields s (ok tt, s)
    misfits :
        ((pairs : List (String × Any A)) → fields ≢ flat pairs)
        → Logs enabled l lvl msg fields s (panic, s)
    unknown :
        (pairs : List (String × Any A))
        → fields ≡ flat pairs
        → method l lvl ≡ none
        → Logs enabled l lvl msg fields s (panic, s)

  -- What the loop reads.
  data Reads (fields : List (Any A)) (f : List (Field A)) : Outcome (List (Field A)) → Type 0 where
    pairs :
        (ps : List (String × Any A))
        → fields ≡ flat ps
        → Reads fields f (ok (f ++ map pair_field ps))
    misfit : ((ps : List (String × Any A)) → fields ≢ flat ps) → Reads fields f panic

  flat-tail :
      (k : String) (v : Any A) (fields : List (Any A)) (ps : List (String × Any A))
      → string k ∷ v ∷ fields ≡ flat ps
      → (ps' : List (String × Any A)) × (fields ≡ flat ps')
  unfolding flat
  flat-tail k v fields [] e = absurd (cc e)
  flat-tail k v fields ((k', v') ∷ ps) e = (ps, cc e)

  flat_single : (key : Any A) (ps : List (String × Any A)) → key ∷ [] ≢ flat ps
  unfolding flat
  flat_single key [] e = cc e
  flat_single key ((k, v) ∷ ps) e = cc e

  flat-as_string :
      (key : Any A) (fields : List (Any A)) (ps : List (String × Any A))
      → as_string key ≡ none
      → key ∷ fields ≢ flat ps
  unfolding flat
  flat-as_string (string k) fields ps e p = absurd (cc e)
  flat-as_string (int n) fields [] e p = cc p
  flat-as_string (int n) fields ((k, v) ∷ ps) e p = cc p
  flat-as_string (bool b) fields [] e p = cc p
  flat-as_string (bool b) fields ((k, v) ∷ ps) e p = cc p
  flat-as_string (object a) fields [] e p = cc p
  flat-as_string (object a) fields ((k, v) ∷ ps) e p = cc p

  Reads-more :
      (k : String) (v : Any A) (fields : List (Any A)) (f : List (Field A))
      {r : Outcome (List (Field A))}
      → Reads fields (f ++ field k v ∷ []) r
      → Reads (string k ∷ v ∷ fields) f r
  unfolding flat
  Reads-more k v fields f (pairs ps e) =
      subst (λ g. Reads (string k ∷ v ∷ fields) f (ok g)) (sym (append_assoc f _ _))
        (pairs ((k, v) ∷ ps) (ap (λ l. string k ∷ v ∷ l) e))
  Reads-more k v fields f (misfit h) =
      misfit λ ps e. let (ps', e') = flat-tail k v fields ps e in h ps' e'

  fields_from-Reads :
      (fields : List (Any A)) (f : List (Field A)) → Reads fields f (fields_from fields f)
  unfolding fields_from flat
  fields_from-Reads [] f = subst (λ g. Reads [] f (ok g)) (append-nil f) (pairs [] refl)
  fields_from-Reads (key ∷ []) f = misfit (flat_single key)
  fields_from-Reads (string k ∷ value ∷ fields) f =
      Reads-more k value fields f (fields_from-Reads fields (f ++ field k value ∷ []))
  fields_from-Reads (int n ∷ value ∷ fields) f =
      misfit λ ps. flat-as_string (int n) (value ∷ fields) ps refl
  fields_from-Reads (bool b ∷ value ∷ fields) f =
      misfit λ ps. flat-as_string (bool b) (value ∷ fields) ps refl
  fields_from-Reads (object a ∷ value ∷ fields) f =
      misfit λ ps. flat-as_string (object a) (value ∷ fields) ps refl

  call_method-Logs :
      (enabled : Severity → Bool) (l : Levels) (lvl : ℕ) (msg : String) (fields : List (Any A))
      (s : List (Entry A)) (ps : List (String × Any A)) (m : Option Severity)
      → method l lvl ≡ m
      → fields ≡ flat ps
      → Logs enabled l lvl msg fields s (call_method enabled m msg (map pair_field ps) s)
  call_method-Logs enabled l lvl msg fields s ps none e p = unknown ps p e
  call_method-Logs enabled l lvl msg fields s ps (some severity) e p =
      elim (Bool-cases (enabled severity)) [
        | inl on ↦ rw on (writes severity ps e on p)
        | inr off ↦ rw off (drops severity ps e off p)
      ]

  log_fields-Logs :
      (enabled : Severity → Bool) (l : Levels) (lvl : ℕ) (msg : String) (fields : List (Any A))
      (s : List (Entry A)) {r : Outcome (List (Field A))}
      → Reads fields [] r
      → Logs enabled l lvl msg fields s (log_fields enabled l lvl msg r s)
  log_fields-Logs enabled l lvl msg fields s (pairs ps e) =
      call_method-Logs enabled l lvl msg fields s ps (method l lvl) refl e
  log_fields-Logs enabled l lvl msg fields s (misfit h) = misfits h

  -- On fields that are keys and values in turn, where every key is a string, a call of the logger at
  -- a known level writes one line, with the message and the fields in their order, if the logger is
  -- configured to write that level, and nothing else. On any other fields, and at any other level, it
  -- panics and leaves the log as it is, also where the logger writes nothing.
  pub interceptor_logger-Logs :
      (enabled : Severity → Bool) (l : Levels) (lvl : ℕ) (msg : String) (fields : List (Any A))
      (s : List (Entry A))
      → Logs enabled l lvl msg fields s (interceptor_logger enabled l lvl msg fields s)
  unfolding interceptor_logger
  interceptor_logger-Logs enabled l lvl msg fields s =
      log_fields-Logs enabled l lvl msg fields s (fields_from-Reads fields [])
