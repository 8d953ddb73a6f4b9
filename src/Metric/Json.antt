-- ===== src/Metric/Json.antt =====
-- What the program takes from encoding/json: a list of metrics as bytes, and back.
use go_metrics_harvester.Base.{ℕ, ◌≡◌, ◌⊎◌, inr, List, ◌++◌, Error}
use go_metrics_harvester.Metric.{Metric}

-- `encode` is Encoder.Encode and json.Marshal, which refuse what JSON cannot hold; `decode` is
-- Decoder.Decode on a stream of bytes.
pub record Json (F : Type 0) : Type 0 where
  pub encode : List (Metric F) → Error ⊎ List ℕ
  pub decode : List ℕ → Error ⊎ List (Metric F)

-- Decode reads the first value of its stream, whatever comes behind it.
pub record ReadsBack {F : Type 0} (j : Json F) : Type 0 where
  pub decode-encode :
      (l : List (Metric F)) (b rest : List ℕ) → j.encode l ≡ inr b → j.decode (b ++ rest) ≡ inr l
