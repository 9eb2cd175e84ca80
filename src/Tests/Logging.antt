-- ===== src/Tests/Logging.antt =====
-- A log line with attributes that have the names of the formatter's own keys.
use data_nexus.Prelude.{String, Bool, true, false, not, none, some, [], ◌∷◌, ◌≡◌, refl}
use data_nexus.Prelude.Dict.{Dict, insert, lookup}
use data_nexus.Prelude.Text.{is_blank}
use data_nexus.Logging.{
  LogRecord, Values, add_attributes, add_context, add_exception, add_value, context_middleware,
  context_value, correlation_id_of, drop_null, format, has_key, merge, own_attributes,
  set_log_context,
}
use data_nexus.Logging.Correlation.{HasTexts, IsTraced, context_middleware-IsTraced}

-- `None`, a text, and an object that `json.dumps` refuses.
data Value : Type 0 where
  null : Value
  text : String → Value
  object : Value

abbrev is_null : Value → Bool
is_null Value.null = true
is_null (Value.text s) = false
is_null Value.object = false

abbrev is_true : Value → Bool
is_true Value.null = false
is_true (Value.text s) = not (is_blank s)
is_true Value.object = true

abbrev is_json : Value → Bool
is_json Value.object = false
is_json v = true

abbrev str : Value → String
str Value.null = "None"
str (Value.text s) = s
str Value.object = "<object>"

abbrev values : Values Value
values = record {
  text = Value.text;
  is_null = is_null;
  is_true = is_true;
  is_json = is_json;
  str = str;
}

values-HasTexts : HasTexts values
values-HasTexts = record { not_null = λ s. refl; text_true = λ s h. rw h refl }

abbrev line : LogRecord Value
line = record {
  created = "2026-01-01T00:00:00+00:00";
  levelname = "INFO";
  message = "extract created";
  exception = none;
  attributes =
      ("level", Value.text "DEBUG")
      ∷ ("correlation_id", Value.text "corr-forged")
      ∷ ("lineno", Value.text "7")
      ∷ ("client", Value.object)
      ∷ [];
}

-- A line that is logged for the next fund of a run, before the context names that fund.
stale_fund :
    lookup "fund_id" (
      format values "extract-worker" (("fund_id", Value.text "f1") ∷ []) (record {
        created = "2026-01-01T00:00:00+00:00";
        levelname = "INFO";
        message = "cancellation observed mid-run";
        exception = none;
        attributes = ("fund_id", Value.text "f2") ∷ [];
      }))
    ≡ some (Value.text "f1")
unfolding lookup insert format add_attributes add_exception add_context context_value add_value
    own_attributes has_key
stale_fund = refl

abbrev response : Dict String × Dict Value
response =
    context_middleware values (some "") (some "req-1") "00"
      (λ c. ([], format values "extract-api" c line))
      (("app_id", Value.text "app") ∷ ("correlation_id", Value.text "corr-old") ∷ [])

context_middleware_line :
    response.1
    ≡ ("timestamp", Value.text "2026-01-01T00:00:00+00:00")
      ∷ ("level", Value.text "INFO")
      ∷ ("service", Value.text "extract-api")
      ∷ ("message", Value.text "extract created")
      ∷ ("app_id", Value.text "app")
      ∷ ("correlation_id", Value.text "req-1")
      ∷ ("client", Value.text "<object>")
      ∷ []
unfolding context_middleware correlation_id_of set_log_context merge drop_null insert lookup format
    add_attributes add_exception add_context context_value add_value own_attributes has_key
context_middleware_line = refl

context_middleware-IsTraced_example :
    (lookup "X-Correlation-Id" response.0 ≡ some "req-1")
    × IsTraced values "extract-api" "req-1" line response.1
unfolding correlation_id_of
context_middleware-IsTraced_example =
    context_middleware-IsTraced values values-HasTexts "extract-api" (some "") (some "req-1") "00"
      (λ c. []) line (("app_id", Value.text "app") ∷ ("correlation_id", Value.text "corr-old") ∷ [])
