-- ===== src/Instrumentations/Nocode/Tests.antt =====
-- The theorems on the wrapper and on patching at concrete inputs.
use splunk_otel_js.Common.{
  Bool, true, false, Option, none, some, List, [], ◌∷◌, Text, codes, pos, All, ◌≡◌, refl, ap, sym,
  ◌⊎◌, or_else, ◌===◌, nat_eq, list_eq, if◌then◌else◌, find,
}
use splunk_otel_js.Instrumentations.Nocode.{
  Value, atom, object, Method, error, Result, threw, promise, rejected, Span, World, called,
  refused, wrapped_function, span_attributes, get_attribute, enter, settle,
}
use splunk_otel_js.Instrumentations.Nocode.Laws.{
  here, by_call, by_settle, IsReported, AllWrite, SomeFails, last_found, Reach-IsReported,
  wrapped_function-ends,
}
use splunk_otel_js.Instrumentations.Nocode.Patch.{Wrapping, IsWrapping, Exports, patch, unpatch}
use splunk_otel_js.Instrumentations.Nocode.Patch.Laws.{unpatch-patch}

-- `JSON.stringify` of values none of which is refused but "1n".
abbrev stringify : Value → Option Text
stringify (atom t) = if t === codes "1n" then none else some t
stringify (object within get) = some (codes "{}")

abbrev request : Value
request = object (λ k. k === codes "id") (λ k. atom (codes "7"))

abbrev method : Method
method = record {
  method_name = codes "run";
  span_name = none;
  attributes =
      some (
        record { attr_index = pos 0; attr_path = some (codes "id"); key = codes "request.id" }
        ∷ []);
}

abbrev fails : List Value → Result
fails args = threw (error (codes "no"))

abbrev waits : List Value → Result
waits args = promise

-- A call that throws, and one with a promise that is refused later.
abbrev after : World
after = settle 1 (rejected (error (codes "late"))) (
    enter (wrapped_function stringify method waits [])
      (enter (wrapped_function stringify method fails (request ∷ [])) []))

Reach-IsReported_example : All IsReported after
Reach-IsReported_example = Reach-IsReported stringify after (
    by_call method fails (request ∷ [])
      (by_call method waits [] (by_settle 1 (rejected (error (codes "late"))) here)))

wrapped_function-ends_example :
    (SomeFails stringify (request ∷ []) (or_else method.attributes [])
      × (wrapped_function stringify method fails (request ∷ []) ≡ refused))
    ⊎ (AllWrite stringify (request ∷ []) (or_else method.attributes [])
        × ((s : Span) × (wrapped_function stringify method fails (request ∷ [])
              ≡ called s (fails (request ∷ [])))
            × ((k : Text)
                → find k s.attributes
                  ≡ last_found (request ∷ []) k (or_else method.attributes []))))
wrapped_function-ends_example = wrapped_function-ends stringify method fails (request ∷ [])

-- A value that cannot be written keeps the original from being called.
refused_call :
    wrapped_function stringify
      (record method {
        attributes = some (record { attr_index = pos 0; attr_path = none; key = codes "n" } ∷ []);
      })
      fails
      (atom (codes "1n") ∷ [])
    ≡ refused
unfolding wrapped_function span_attributes get_attribute
refused_call = refl

-- A function with the method that it is wrapped for, if it is.
abbrev is_wrapped : Option Method → Bool
is_wrapped none = false
is_wrapped (some m) = true

abbrev recording : Wrapping (Option Method)
recording = record { wrap = λ m f. some m; unwrap = λ f. none; is_wrapped = is_wrapped }

unwrapped_none : (f : Option Method) → is_wrapped f ≡ false → none ≡ f
unwrapped_none none h = refl
unwrapped_none (some m) h = cc h

recording-IsWrapping : IsWrapping recording
recording-IsWrapping = record {
  wrapped = λ m f. refl;
  unwrapped = λ m f h. unwrapped_none f h;
  rewrapped = λ m f h. refl;
}

abbrev exports : Exports recording
exports n = if n === codes "run" then some none else none

unpatch-patch_example :
    unpatch recording
      (method ∷ method ∷ [])
      (patch recording (method ∷ method ∷ []) exports)
      (codes "run")
    ≡ exports (codes "run")
unpatch-patch_example =
    unpatch-patch recording recording-IsWrapping (method ∷ method ∷ []) exports (codes "run")
      (λ g h. ap (λ (x : Option (Option Method)). is_wrapped (or_else x none)) (sym h))
