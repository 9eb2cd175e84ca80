-- ===== src/Logging.antt =====
-- extract_service/logging_config.py, and the middleware of extract_service/main.py that sets the
-- correlation identifier. Python's values are a type of their own, `V`.
use data_nexus.Prelude.{
  String, Bool, true, false, ◌||◌, Option, none, some, List, [], ◌∷◌, ◌==◌, string_eq,
  if◌then◌else◌, contains,
}
use data_nexus.Prelude.Dict.{Dict, insert, lookup}
use data_nexus.Prelude.Text.{concat, is_blank}
pub mod Correlation

-- What the module does with a value of any type: `v is None`, its truth, whether `json.dumps`
-- takes it, and `str(v)`.
pub record Values (V : Type 0) : Type 0 where
  pub text : String → V
  pub is_null : V → Bool
  pub is_true : V → Bool
  pub is_json : V → Bool
  pub str : V → String

-- The parts of a `logging.LogRecord` that `format` reads. `attributes` is its `__dict__`.
pub record LogRecord (V : Type 0) : Type 0 where
  pub created : String
  pub levelname : String
  pub message : String
  pub exception : Option String
  pub attributes : Dict V

-- `k in d`
unfoldable pub has_key {ℓ} : {V : Type ℓ} → String → Dict V → Bool
has_key k [] = false
has_key k ((j, v) ∷ d) = j == k || has_key k d

-- The keys that are taken from the context, and the attributes that a record has of its own.
abbrev pub context_keys : List String
context_keys =
    "extract_id" ∷ "run_id" ∷ "app_id" ∷ "correlation_id" ∷ "fund_id" ∷ "duration_ms" ∷ []

unfoldable pub own_attributes : List String
own_attributes =
    "name" ∷ "msg" ∷ "args" ∷ "levelname" ∷ "levelno" ∷ "pathname" ∷ "filename" ∷ "module"
    ∷ "exc_info" ∷ "exc_text" ∷ "stack_info" ∷ "lineno" ∷ "funcName" ∷ "created" ∷ "msecs"
    ∷ "relativeCreated" ∷ "thread" ∷ "threadName" ∷ "processName" ∷ "process" ∷ "message"
    ∷ "taskName" ∷ []

-- `_gen_correlation_id`, from what `secrets.token_hex` draws
unfoldable pub gen_correlation_id : String → String
gen_correlation_id token = concat ("corr-" ∷ token ∷ [])

-- `a or b` on a header that may be missing
abbrev pub or_text : Option String → String → String
or_text none b = b
or_text (some a) b = if is_blank a then b else a

-- What `context_middleware` passes on: the identifier of the request or a new one.
unfoldable pub correlation_id_of : Option String → Option String → String → String
unfolding gen_correlation_id
correlation_id_of correlation request token =
    or_text correlation (or_text request (gen_correlation_id token))

module _ {V : Type 0} (o : Values V) where
  -- `{**ctx, **fields}`
  unfoldable pub merge : Dict V → Dict V → Dict V
  merge ctx [] = ctx
  merge ctx ((k, v) ∷ fields) = merge (insert k v ctx) fields

  -- `{k: v for k, v in merged.items() if v is not None}`
  unfoldable pub drop_null : Dict V → Dict V
  drop_null [] = []
  drop_null ((k, v) ∷ d) = if o.is_null v then drop_null d else (k, v) ∷ drop_null d

  unfoldable pub set_log_context : Dict V → Dict V → Dict V
  unfolding merge drop_null
  set_log_context fields ctx = drop_null (merge ctx fields)

  -- `ctx.get(k) or getattr(record, k, None)`
  unfoldable pub context_value : Dict V → Dict V → String → Option V
  context_value ctx attributes k = elim (lookup k ctx) [
    | none ↦ lookup k attributes
    | some v ↦ if o.is_true v then some v else lookup k attributes
  ]

  unfoldable pub add_value : String → Option V → Dict V → Dict V
  add_value k none payload = payload
  add_value k (some v) payload = if o.is_null v then payload else insert k v payload

  -- The loop over the keys of the context.
  unfoldable pub add_context : Dict V → Dict V → List String → Dict V → Dict V
  unfolding context_value add_value
  add_context ctx attributes [] payload = payload
  add_context ctx attributes (k ∷ keys) payload =
      add_context ctx attributes keys (add_value k (context_value ctx attributes k) payload)

  unfoldable pub add_exception : Option String → Dict V → Dict V
  add_exception none payload = payload
  add_exception (some trace) payload = insert "exc" (o.text trace) payload

  -- The loop over the attributes of the record, which skips its own and those in the payload.
  unfoldable pub add_attributes : Dict V → Dict V → Dict V
  unfolding has_key
  add_attributes [] payload = payload
  add_attributes ((k, v) ∷ rest) payload = add_attributes rest (
      if contains k own_attributes || has_key k payload
      then payload
      else insert k (if o.is_json v then v else o.text (o.str v)) payload)

  abbrev pub base_payload : String → LogRecord V → Dict V
  base_payload service r =
      ("timestamp", o.text r.created)
      ∷ ("level", o.text r.levelname)
      ∷ ("service", o.text service)
      ∷ ("message", o.text r.message)
      ∷ []

  -- `JsonFormatter.format`, up to the printing of the payload
  unfoldable pub format : String → Dict V → LogRecord V → Dict V
  unfolding add_context add_exception add_attributes
  format service ctx r = add_attributes r.attributes (
      add_exception r.exception
        (add_context ctx r.attributes context_keys (base_payload service r)))

  -- `context_middleware`; `call_next` takes the context of the logs and returns the headers of
  -- its response with what it computes
  unfoldable pub context_middleware {ℓ} :
      {A : Type ℓ}
      → Option String
      → Option String
      → String
      → (Dict V → Dict String × A)
      → Dict V
      → Dict String × A
  unfolding correlation_id_of set_log_context
  context_middleware correlation request token call_next ctx =
      let id = correlation_id_of correlation request token in
      let response = call_next (set_log_context (("correlation_id", o.text id) ∷ []) ctx) in
      (insert "X-Correlation-Id" id response.0, response.1)
