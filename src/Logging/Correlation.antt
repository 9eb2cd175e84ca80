-- ===== src/Logging/Correlation.antt =====
-- What every line of the log has, whatever the code that logs adds to it.
use Prim.Native.String
use data_nexus.Prelude.{
  String, true, false, Option, none, some, List, [], ◌∷◌, ◌≡◌, refl, ◌==◌, string_eq, if◌then◌else◌,
  contains, eq_iff, arith, Bool-cases, inl, inr,
}
use text.Mathlib.TextLemmas.{cons-append}
use data_nexus.Prelude.Dict.{Dict, insert, lookup, lookup-insert}
use data_nexus.Prelude.Text.{concat, is_blank}
use data_nexus.Logging.{
  LogRecord, Values, add_attributes, add_context, add_exception, add_value, base_payload,
  context_keys, context_middleware, context_value, correlation_id_of, drop_null, format,
  gen_correlation_id, has_key, merge, set_log_context,
}

-- What the theorem asks of Python's values: a text is not `None`, and it is true unless it is empty.
pub record HasTexts {V : Type 0} (o : Values V) : Type 0 where
  pub not_null : (s : String) → o.is_null (o.text s) ≡ false
  pub text_true : (s : String) → is_blank s ≡ false → o.is_true (o.text s) ≡ true

module _ {V : Type 0} where
  has_key-lookup : (k : String) (d : Dict V) {v : V} → lookup k d ≡ some v → has_key k d ≡ true
  unfolding lookup has_key
  has_key-lookup k [] h = cc
  has_key-lookup k ((j, w) ∷ d) {v} h = ground (arith, has_key-lookup k d {v = v})

module _ {V : Type 0} (o : Values V) where
  -- Attributes never change what the line has already.
  lookup-add_attributes :
      (rest : Dict V) (payload : Dict V) (k : String) {v : V}
      → lookup k payload ≡ some v
      → lookup k (add_attributes o rest payload) ≡ some v
  unfolding add_attributes
  lookup-add_attributes [] payload k h = h
  lookup-add_attributes ((j, w) ∷ rest) payload k {v} h = lookup-add_attributes rest _ k (
      ground (
        arith,
        has_key-lookup k payload h,
        lookup-insert j k (if o.is_json w then w else o.text (o.str w)) payload,
        eq_iff j k,
      ))

  lookup-add_exception :
      (trace : Option String) (payload : Dict V) (k : String)
      → ("exc" == k) ≡ false
      → lookup k (add_exception o trace payload) ≡ lookup k payload
  unfolding add_exception
  lookup-add_exception none payload k h = refl
  lookup-add_exception (some t) payload k h = rw (lookup-insert "exc" k (o.text t) payload, h) refl

  lookup-add_value :
      (k j : String) (w : Option V) (payload : Dict V)
      → (k == j) ≡ false
      → lookup j (add_value o k w payload) ≡ lookup j payload
  unfolding add_value
  lookup-add_value k j none payload h = refl
  lookup-add_value k j (some w) payload h = ground (arith, lookup-insert k j w payload)

  -- A key that is not taken from the context keeps its value.
  lookup-add_context :
      (ctx attributes : Dict V) (keys : List String) (payload : Dict V) (k : String)
      → contains k keys ≡ false
      → lookup k (add_context o ctx attributes keys payload) ≡ lookup k payload
  unfolding add_context
  lookup-add_context ctx attributes [] payload k h = refl
  lookup-add_context ctx attributes (j ∷ keys) payload k h =
      let w : Option V = context_value o ctx attributes j in
      ground (
        arith,
        lookup-add_context ctx attributes keys (add_value o j w payload) k,
        lookup-add_value j k w payload,
        eq_iff j k,
        eq_iff k j,
      )

  add_value_mono :
      (j k : String) (w : Option V) (payload : Dict V) {v : V}
      → ((j == k) ≡ true → w ≡ some v)
      → o.is_null v ≡ false
      → lookup k payload ≡ some v
      → lookup k (add_value o j w payload) ≡ some v
  unfolding add_value
  add_value_mono j k none payload same n h = h
  add_value_mono j k (some u) payload same n h = ground (arith, lookup-insert j k u payload, same)

  -- A key that the context has a true value of gets this value.
  add_context_mono :
      (ctx attributes : Dict V) (keys : List String) (payload : Dict V) (k : String) {v : V}
      → context_value o ctx attributes k ≡ some v
      → o.is_null v ≡ false
      → lookup k payload ≡ some v
      → lookup k (add_context o ctx attributes keys payload) ≡ some v
  unfolding add_context
  add_context_mono ctx attributes [] payload k c n h = h
  add_context_mono ctx attributes (j ∷ keys) payload k {v} c n h =
      add_context_mono ctx attributes keys
        (add_value o j (context_value o ctx attributes j) payload) k c n
        (add_value_mono j k (context_value o ctx attributes j) payload
          (λ e. rw ((eq_iff j k).0 e) c) n h)

  add_context_found :
      (ctx attributes : Dict V) (keys : List String) (payload : Dict V) (k : String) {v : V}
      → contains k keys ≡ true
      → context_value o ctx attributes k ≡ some v
      → o.is_null v ≡ false
      → lookup k (add_context o ctx attributes keys payload) ≡ some v
  unfolding add_context
  add_context_found ctx attributes [] payload k found c n = absurd (ground arith)
  add_context_found ctx attributes (j ∷ keys) payload k {v} found c n = elim (Bool-cases (k == j)) [
    | inl here ↦
        add_context_mono ctx attributes keys
          (add_value o j (context_value o ctx attributes j) payload) k c n
          (rw (← (eq_iff k j).0 here)
            (rw c (ground (arith, lookup-insert k k v payload, eq_iff k k))))
    | inr there ↦
        add_context_found ctx attributes keys
          (add_value o j (context_value o ctx attributes j) payload) k (ground arith) c n
  ]

  lookup-drop_null :
      (d : Dict V) (k : String) {v : V}
      → lookup k d ≡ some v
      → o.is_null v ≡ false
      → lookup k (drop_null o d) ≡ some v
  unfolding lookup drop_null
  lookup-drop_null [] k h n = absurd (ground arith)
  lookup-drop_null ((j, w) ∷ d) k {v} h n = ground (arith, lookup-drop_null d k {v = v})

  lookup-format :
      (service : String) (ctx : Dict V) (r : LogRecord V) (k : String) {v : V}
      → contains k context_keys ≡ false
      → ("exc" == k) ≡ false
      → lookup k (base_payload o service r) ≡ some v
      → lookup k (format o service ctx r) ≡ some v
  unfolding format
  lookup-format service ctx r k {v} out not_exc h = lookup-add_attributes r.attributes _ k (
      cc (
        lookup-add_exception r.exception
            (add_context o ctx r.attributes context_keys (base_payload o service r)) k not_exc,
        lookup-add_context ctx r.attributes context_keys (base_payload o service r) k out,
        h,
      ))

  format_context :
      (service : String) (ctx : Dict V) (r : LogRecord V) (k : String) {v : V}
      → contains k context_keys ≡ true
      → ("exc" == k) ≡ false
      → context_value o ctx r.attributes k ≡ some v
      → o.is_null v ≡ false
      → lookup k (format o service ctx r) ≡ some v
  unfolding format
  format_context service ctx r k {v} found not_exc c n = lookup-add_attributes r.attributes _ k (
      cc (
        lookup-add_exception r.exception
            (add_context o ctx r.attributes context_keys (base_payload o service r)) k not_exc,
        add_context_found ctx r.attributes context_keys (base_payload o service r) k found c n,
      ))

  context_value_found :
      (ctx attributes : Dict V) (k : String) {v : V}
      → lookup k ctx ≡ some v
      → o.is_true v ≡ true
      → context_value o ctx attributes k ≡ some v
  unfolding context_value
  context_value_found ctx attributes k {v} h t = ground arith

  -- A value that was set wins over an attribute of the same name.
  context_value_set :
      (k : String) (v : V) (ctx attributes : Dict V)
      → o.is_null v ≡ false
      → o.is_true v ≡ true
      → context_value o (set_log_context o ((k, v) ∷ []) ctx) attributes k ≡ some v
  unfolding set_log_context merge
  context_value_set k v ctx attributes n t =
      let found : lookup k (insert k v ctx) ≡ some v =
        ground (arith, lookup-insert k k v ctx, eq_iff k k) in
      context_value_found (drop_null o (insert k v ctx)) attributes k
        (lookup-drop_null (insert k v ctx) k found n) t

is_blank-append : (s t : String) → is_blank s ≡ false → is_blank (String.◌++◌ s t) ≡ false
is_blank-append String.[] t h = absurd (ground arith)
is_blank-append (String.◌∷◌ c s) t h = rw (cons-append c s t) refl

-- The correlation identifier of a request is never empty.
correlation_id_of_shown :
    (correlation request : Option String) (token : String)
    → is_blank (correlation_id_of correlation request token) ≡ false
unfolding correlation_id_of gen_correlation_id concat
correlation_id_of_shown none none token = is_blank-append "corr-" _ refl
correlation_id_of_shown none (some b) token =
    ground (arith, is_blank-append "corr-" (concat (token ∷ [])) refl)
correlation_id_of_shown (some a) none token =
    ground (arith, is_blank-append "corr-" (concat (token ∷ [])) refl)
correlation_id_of_shown (some a) (some b) token =
    ground (arith, is_blank-append "corr-" (concat (token ∷ [])) refl)

-- The texts that a line of the log has: its own four, and the correlation identifier.
pub record IsTraced {V : Type 0} (o : Values V) (service id : String) (r : LogRecord V)
    (line : Dict V) : Type 0 where
  pub timestamp : lookup "timestamp" line ≡ some (o.text r.created)
  pub level : lookup "level" line ≡ some (o.text r.levelname)
  pub service_name : lookup "service" line ≡ some (o.text service)
  pub message : lookup "message" line ≡ some (o.text r.message)
  pub correlation_id : lookup "correlation_id" line ≡ some (o.text id)

format-IsTraced :
    {V : Type 0} (o : Values V) (laws : HasTexts o) (service id : String) (ctx : Dict V)
    (r : LogRecord V)
    → is_blank id ≡ false
    → IsTraced o service id r
        (format o service (set_log_context o (("correlation_id", o.text id) ∷ []) ctx) r)
unfolding lookup
format-IsTraced o laws service id ctx r shown =
    let set = set_log_context o (("correlation_id", o.text id) ∷ []) ctx in
    record {
      timestamp = lookup-format o service set r "timestamp" refl refl refl;
      level = lookup-format o service set r "level" refl refl refl;
      service_name = lookup-format o service set r "service" refl refl refl;
      message = lookup-format o service set r "message" refl refl refl;
      correlation_id =
          format_context o service set r "correlation_id" refl refl
            (context_value_set o "correlation_id" (o.text id) ctx r.attributes (laws.not_null id)
              (laws.text_true id shown))
            (laws.not_null id);
    }

-- A request can be traced: the header X-Correlation-Id of its response, and a line that is logged
-- in the context that the middleware hands on, have one identifier, and the line keeps its own
-- timestamp, level, service and message, whatever the context was before and whatever attributes
-- the code that logs adds, under the same names too.
pub context_middleware-IsTraced :
    {V : Type 0} (o : Values V) (laws : HasTexts o) (service : String)
    (correlation request : Option String) (token : String) (headers : Dict V → Dict String)
    (r : LogRecord V) (ctx : Dict V)
    → let id = correlation_id_of correlation request token in
      let response =
        context_middleware o correlation request token
          (λ c. (headers c, format o service c r))
          ctx in
      (lookup "X-Correlation-Id" response.0 ≡ some id) × IsTraced o service id r response.1
unfolding context_middleware
context_middleware-IsTraced o laws service correlation request token headers r ctx =
    let id = correlation_id_of correlation request token in
    (
      rw
          (lookup-insert "X-Correlation-Id" "X-Correlation-Id" id
            (headers (set_log_context o (("correlation_id", o.text id) ∷ []) ctx)))
          refl,
      format-IsTraced o laws service id ctx r (correlation_id_of_shown correlation request token),
    )
