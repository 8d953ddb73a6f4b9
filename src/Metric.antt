-- ===== src/Metric.antt =====
-- internal/metric/metric.go: a metric, its two types, and the table of allowed types.
pub mod Json
use go_metrics_harvester.Base.{
  ◌≡◌, true, false, arith, eq_iff, ℕ, ◌+◌, ◌%◌, ◌^◌, String, Bool, not, ◌||◌, Option, none, some,
  ◌==◌, is_none, if◌then◌else◌,
}

-- The names Gauge and Counter of the source.
abbrev pub gauge : String
gauge = "gauge"

abbrev pub counter : String
counter = "counter"

-- An int64 is its bit pattern, a number below 2 ^ 64, so `+=` is addition modulo 2 ^ 64.
abbrev pub int64_mod : ℕ
int64_mod = 2 ^ 64

abbrev pub add_int64 : ℕ → ℕ → ℕ
add_int64 a b = (a + b) % int64_mod

-- `F` stands for float64, whose values the program only copies, parses and prints.
pub record Metric (F : Type 0) : Type 0 where
  pub id : String
  pub mtype : String
  pub delta : Option ℕ
  pub value : Option F

-- What the program takes from strconv and fmt.
pub record Strconv (F : Type 0) : Type 0 where
  pub parse_int : String → Option ℕ
  pub parse_float : String → Option F
  pub format_int : ℕ → String
  pub format_float : F → String

-- The `ok` of a look-up in AllowedMetricType.
abbrev pub is_allowed : String → Bool
is_allowed t = t == gauge || t == counter

module _ {F : Type 0} (c : Strconv F) where
  unfoldable pub validate_counter : String → Bool
  validate_counter value = not (is_none (c.parse_int value))

  unfoldable pub validate_gauge : String → Bool
  validate_gauge value = not (is_none (c.parse_float value))

  unfoldable pub allowed_metric_type : String → Option (String → Bool)
  allowed_metric_type t =
      if t == gauge
      then some validate_gauge
      else if t == counter
      then some validate_counter
      else none

-- No text is both types.
pub gauge-ne-counter : (t : String) → (t == gauge) ≡ true → (t == counter) ≡ false
gauge-ne-counter t h = ground (arith, eq_iff t gauge, eq_iff t counter, eq_iff gauge counter)
