-- ===== src/Tests/Handlers.antt =====
-- The handlers at work over the memory storage.
use go_metrics_harvester.Base.{
  ℕ, String, ◌≡◌, ◌⊎◌, inl, inr, none, some, List, [], ◌∷◌, ◌==◌, if◌then◌else◌, Error, other, All,
}
use mathlib.Core.List.{reverse}
use go_metrics_harvester.Metric.{Metric, Strconv, counter}
use go_metrics_harvester.Service.{Repository}
use go_metrics_harvester.Service.InMemory.{memory}
use go_metrics_harvester.Service.Rules.{IsAccepted}
use go_metrics_harvester.Http.{Body}
use go_metrics_harvester.Server.{Web, update_handler, updates_handler_json, batch_stored}
use go_metrics_harvester.Server.Replies.{IsRefused, updates_handler_json_cases}
use go_metrics_harvester.Server.Paths.{Handled, update_handler-Handled}
use go_metrics_harvester.Tests.Samples.{count_of, both, codec}
use go_metrics_harvester.Tests.Webs.{texts, request}

abbrev decode_body : Body → Error ⊎ List (Metric ℕ)
decode_body (inl e) = inl e
decode_body (inr []) = inl (other "EOF")
decode_body (inr (d ∷ _)) = inr (count_of d ∷ [])

-- Paths that set the counter c to 2.
abbrev path : String → String
path key = if key == "type" then counter else if key == "name" then "c" else "2"

abbrev pub web : Web ℕ
web = record {
  decode_metric = λ body. inr (count_of 1);
  decode_list = decode_body;
  encode_metric = λ m. inr (1 ∷ []);
  error_json = λ msg. 0 ∷ [];
  page = λ li. [];
  url_param = λ req key. path key;
  message = λ e. "error";
}

abbrev pub conv : Strconv ℕ
conv = record {
  parse_int = λ s. if s == "2" then some 2 else none;
  parse_float = λ s. none;
  format_int = λ n. "2";
  format_float = λ x. "2.5";
}

abbrev repository : Repository ℕ ℕ
repository = memory reverse codec

updates_handler_json_cases_example :
    ((e : Error) × (decode_body request.body ≡ inl e)
      × IsRefused texts web conv repository
          (λ c. c ≡ 400)
          both
          (updates_handler_json texts web conv repository request both))
    ⊎ ((me : List (Metric ℕ)) × (decode_body request.body ≡ inr me)
        × (((¬ All IsAccepted me)
              × IsRefused texts web conv repository
                  (λ c. (c ≡ 404) ⊎ (c ≡ 400))
                  both
                  (updates_handler_json texts web conv repository request both))
            ⊎ (All IsAccepted me
                × (updates_handler_json texts web conv repository request both
                    ≡ batch_stored texts web conv repository (repository.update me both)))))
updates_handler_json_cases_example =
    updates_handler_json_cases texts web conv repository request both

update_handler-Handled_example :
    Handled texts web conv repository request both
      (update_handler texts web conv repository request both)
update_handler-Handled_example = update_handler-Handled texts web conv repository request both
