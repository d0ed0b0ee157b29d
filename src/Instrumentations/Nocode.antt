-- ===== src/Instrumentations/Nocode.antt =====
-- The instrumentation of methods named by a file: src/instrumentations/external/nocode/nocode.ts.
-- A value of JavaScript is an object with what `in` says of a key and what a member gives, or anything
-- else. An index is a whole number. What the instrumentation logs is left out, but for the calls of
-- `JSON.stringify` in the messages, which can throw and are an argument, and for the warnings on
-- methods that are missing. The tracer of OpenTelemetry stands as the calls on the span.
pub mod Laws
pub mod Patch
mod Tests
use splunk_otel_js.Common.{
  ℕ, Bool, true, false, Option, none, some, List, [], ◌∷◌, ◌++◌, map, Text, codes, ℤ, pos, negsuc,
  get_elem?, set, length, leb, if◌then◌else◌, or_else, is_empty, split, set_key, nat_eq, list_eq,
}

infixl 5 ◌>>=◌
abbrev ◌>>=◌ {ℓ κ} : {A : Type ℓ} {B : Type κ} → Option A → (A → Option B) → Option B
none >>= f = none
some a >>= f = f a

pub data Value : Type 0 where
  atom : Text → Value
  object : (Text → Bool) → (Text → Value) → Value

pub record AttributeDefinition : Type 0 where
  pub attr_index : ℤ
  pub attr_path : Option Text
  pub key : Text

pub record Method : Type 0 where
  pub method_name : Text
  pub span_name : Option Text
  pub attributes : Option (List AttributeDefinition)

-- What is thrown: an `Error` with its message, or another value.
pub data Thrown : Type 0 where
  error : Text → Thrown
  other : Value → Thrown

-- How a call of the original ends, and a promise of it.
pub data Result : Type 0 where
  returned : Value → Result
  threw : Thrown → Result
  promise : Result

pub data Settled : Type 0 where
  resolved : Value → Settled
  rejected : Thrown → Settled

pub data SpanCall : Type 0 where
  record_exception : Text → SpanCall
  set_status : ℕ → Text → SpanCall
  end_span : SpanCall

pub record Span : Type 0 where
  pub name : Text
  pub attributes : List (Text × Value)
  pub calls : List SpanCall

-- A call of the wrapper: it throws before the original is called, or has a span and a result.
pub data Call : Type 0 where
  refused : Call
  called : Span → Result → Call

abbrev pub undefined : Value
undefined = atom (codes "undefined")

-- The loop over `attrPath.split('.')`.
abbrev pub walk : List Text → Value → Option Value
walk [] current = some current
walk (k ∷ ks) (atom t) = none
walk (k ∷ ks) (object within get) = let rest = walk ks (get k) in if within k then rest else none

abbrev pub argument : ℤ → List Value → Option Value
argument (pos n) args = get_elem? args n
argument (negsuc n) args = some undefined

abbrev pub path_of : Option Text → List Text
path_of none = []
path_of (some p) = if is_empty p then [] else split b'.' p

unfoldable pub get_attribute : AttributeDefinition → List Value → Option (Text × Value)
get_attribute d args = do
  current ← argument d.attr_index args
  found ← walk (path_of d.attr_path) current
  some (d.key, found)

-- The loop over the definitions; none where the text of a message throws.
abbrev pub push :
    Text × Value → Option Text → Option (List (Text × Value)) → Option (List (Text × Value))
push pair message rest = do written ← message; others ← rest; some (pair ∷ others)

module _ (stringify : Value → Option Text) where
  abbrev pub with_attribute :
      Option (Text × Value) → Option (List (Text × Value)) → Option (List (Text × Value))
  with_attribute none rest = rest
  with_attribute (some (k, v)) rest = push (k, v) (stringify v) rest

  unfoldable pub span_attributes :
      List AttributeDefinition → List Value → Option (List (Text × Value))
  span_attributes [] args = some []
  span_attributes (d ∷ ds) args = with_attribute (get_attribute d args) (span_attributes ds args)

-- `Object.assign({}, ...spanAttributes)`.
abbrev pub assign : List (Text × Value) → List (Text × Value) → List (Text × Value)
assign [] o = o
assign ((k, v) ∷ rest) o = assign rest (set_key k v o)

abbrev pub name_of : Method → Text
name_of m = or_else (if is_empty (or_else m.span_name []) then none else m.span_name) m.method_name

abbrev pub fail : Thrown → List SpanCall
fail (error message) = record_exception message ∷ set_status 2 message ∷ end_span ∷ []
fail (other v) = end_span ∷ []

abbrev pub calls_of : Result → List SpanCall
calls_of (returned v) = end_span ∷ []
calls_of (threw e) = fail e
calls_of promise = []

abbrev pub run_original : Method → Result → Option (List (Text × Value)) → Call
run_original m result none = refused
run_original m result (some pairs) =
    called (record { name = name_of m; attributes = assign pairs []; calls = calls_of result })
      result

unfoldable pub wrapped_function :
    (Value → Option Text) → Method → (List Value → Result) → List Value → Call
wrapped_function stringify m original args =
    run_original m (original args) (span_attributes stringify (or_else m.attributes []) args)

-- The callbacks of `then` and `catch`; the promise settles as that of the original.
abbrev pub settled_calls : Settled → List SpanCall
settled_calls (resolved v) = end_span ∷ []
settled_calls (rejected e) = fail e

abbrev pub then_catch : Settled → Span → Span
then_catch x s = record s { calls = s.calls ++ settled_calls x }

-- The spans so far, with whether the promise of the call is pending, and the events.
abbrev pub World : Type 0
World = List (Span × Bool)

abbrev pub is_promise : Result → Bool
is_promise promise = true
is_promise _ = false

abbrev pub enter : Call → World → World
enter refused w = w
enter (called s r) w = w ++ (s, is_promise r) ∷ []

abbrev pub close : ℕ → Settled → Option (Span × Bool) → World → World
close n x (some (s, true)) w = set w n (then_catch x s, false)
close n x _ w = w

unfoldable pub settle : ℕ → Settled → World → World
settle n x w = close n x (get_elem? w n) w
