-- ===== src/Instrumentations/Nocode/Laws.antt =====
-- What the wrapper of src/instrumentations/external/nocode/nocode.ts leaves of the spans.
use splunk_otel_js.Common.{
  ℕ, zero, suc, Bool, true, false, Option, none, some, List, [], ◌∷◌, ◌++◌, Text, get_elem?, set,
  All, All-append, ◌≡◌, refl, subst, sym, ap, ◌∙◌, arith, or_else, find, find-set_key, set_key,
  if◌then◌else◌, ◌===◌, nat_eq, list_eq, ◌≢◌, ◌⊎◌, inl, inr,
}
use mathlib.Core.Option.{some-injective}
use splunk_otel_js.Instrumentations.Nocode.{
  Value, Method, Thrown, error, other, Result, returned, threw, promise, Settled, resolved,
  rejected, SpanCall, record_exception, set_status, end_span, Span, refused, called, World, enter,
  settle, close, then_catch, settled_calls, fail, wrapped_function, run_original, span_attributes,
  assign, get_attribute, with_attribute, push, AttributeDefinition,
}

-- A span that is ended, once and last, and failed with an error before that or not.
abbrev pub IsFinished : List SpanCall → Type 0
IsFinished calls =
    (calls ≡ end_span ∷ [])
    ⊎ ((m : Text) × (calls ≡ record_exception m ∷ set_status 2 m ∷ end_span ∷ []))

-- No call on the span while the promise is pending.
abbrev pub IsReported : Span × Bool → Type 0
IsReported (s, true) = s.calls ≡ []
IsReported (s, false) = IsFinished s.calls

-- Histories: methods are called, with any original, and promises settle, in any order.
pub data Reach (stringify : Value → Option Text) : World → World → Type 0 where
  here : {w : World} → Reach stringify w w
  by_call :
      {w v : World} (m : Method) (original : List Value → Result) (args : List Value)
      → Reach stringify (enter (wrapped_function stringify m original args) w) v
      → Reach stringify w v
  by_settle :
      {w v : World} (n : ℕ) (x : Settled) → Reach stringify (settle n x w) v → Reach stringify w v

fail-IsFinished : (e : Thrown) → IsFinished (fail e)
fail-IsFinished (error m) = inr (m, refl)
fail-IsFinished (other v) = inl refl

settled-IsFinished : (x : Settled) → IsFinished (settled_calls x)
settled-IsFinished (resolved v) = inl refl
settled-IsFinished (rejected e) = fail-IsFinished e

module _ {A : Type 0} (P : A → Type 0) where
  All-set : (w : List A) (n : ℕ) (a : A) → P a → All P w → All P (set w n a)
  All-set [] n a p h = h
  All-set (b ∷ w) zero a p h = (p, h.1)
  All-set (b ∷ w) (suc n) a p h = (h.0, All-set w n a p h.1)

  All-get : (w : List A) (n : ℕ) (a : A) → get_elem? w n ≡ some a → All P w → P a
  All-get [] n a e h = cc e
  All-get (b ∷ w) zero a e h = subst P (some-injective b a e) h.0
  All-get (b ∷ w) (suc n) a e h = All-get w n a e h.1

calls_of-IsReported :
    (m : Method) (r : Result) (a : Option (List (Text × Value))) (w : World)
    → All IsReported w
    → All IsReported (enter (run_original m r a) w)
calls_of-IsReported m r none w h = h
calls_of-IsReported m (returned v) (some a) w h = All-append IsReported w _ h (inl refl, tt)
calls_of-IsReported m (threw e) (some a) w h = All-append IsReported w _ h (fail-IsFinished e, tt)
calls_of-IsReported m promise (some a) w h = All-append IsReported w _ h (refl, tt)

close-IsReported :
    (n : ℕ) (x : Settled) (w : World) (e : Option (Span × Bool))
    → get_elem? w n ≡ e
    → All IsReported w
    → All IsReported (close n x e w)
close-IsReported n x w none i h = h
close-IsReported n x w (some (s, false)) i h = h
close-IsReported n x w (some (s, true)) i h =
    All-set IsReported w n (then_catch x s, false)
      (subst (λ calls. IsFinished (calls ++ settled_calls x))
        (sym (All-get IsReported w n (s, true) i h)) (settled-IsFinished x))
      h

from-IsReported :
    {stringify : Value → Option Text} {w v : World}
    → Reach stringify w v
    → All IsReported w
    → All IsReported v
unfolding wrapped_function settle
from-IsReported here h = h
from-IsReported {w} (by_call m original args rest) h =
    from-IsReported rest (calls_of-IsReported m (original args) _ w h)
from-IsReported {w} (by_settle n x rest) h = from-IsReported rest (close-IsReported n x w _ refl h)

-- From no spans on, after any history of calls of wrapped methods, whatever they are and however they
-- end, and of promises that settle, in any order: a span whose promise is pending has seen no call,
-- and every other was ended exactly once, as the last call on it, with the exception and the status
-- of one error before that or with nothing.
pub Reach-IsReported :
    (stringify : Value → Option Text) (v : World) → Reach stringify [] v → All IsReported v
Reach-IsReported stringify v reach = from-IsReported reach tt

-- What the last of the definitions with the key finds, if any finds something.
abbrev pub first_of : Option Value → Option Value → Option Value
first_of none b = b
first_of (some v) b = some v

abbrev pub named : Text → Option (Text × Value) → Option Value
named k none = none
named k (some (l, v)) = if k === l then some v else none

abbrev pub last_found : List Value → Text → List AttributeDefinition → Option Value
last_found args k [] = none
last_found args k (d ∷ ds) = first_of (last_found args k ds) (named k (get_attribute d args))

first_of-none : (a : Option Value) → first_of a none ≡ a
first_of-none none = refl
first_of-none (some v) = refl

module _ (stringify : Value → Option Text) (args : List Value) where
  abbrev pub Writes : Option (Text × Value) → Type 0
  Writes none = Unit
  Writes (some (k, v)) = stringify v ≢ none

  abbrev pub Fails : Option (Text × Value) → Type 0
  Fails none = ⊥
  Fails (some (k, v)) = stringify v ≡ none

  abbrev pub AllWrite : List AttributeDefinition → Type 0
  AllWrite [] = Unit
  AllWrite (d ∷ ds) = Writes (get_attribute d args) × AllWrite ds

  abbrev pub SomeFails : List AttributeDefinition → Type 0
  SomeFails [] = ⊥
  SomeFails (d ∷ ds) = Fails (get_attribute d args) ⊎ SomeFails ds

  abbrev pub IsAssigned : (Text → Option Value) → List (Text × Value) → Type 0
  IsAssigned last pairs =
      (o : List (Text × Value)) (k : Text) → find k (assign pairs o) ≡ first_of (last k) (find k o)

  abbrev Outcome : Type 0 → Type 0 → (Text → Option Value) → Option (List (Text × Value)) → Type 0
  Outcome all_write some_fails last none = some_fails
  Outcome all_write some_fails last (some pairs) = all_write × IsAssigned last pairs

  assign-first :
      (k l : Text) (v : Value) (o : List (Text × Value)) (last : Option Value)
      → first_of last (find k (set_key l v o))
        ≡ first_of (first_of last (named k (some (l, v)))) (find k o)
  assign-first k l v o none = ground (arith, find-set_key k l v o)
  assign-first k l v o (some u) = refl

  push-Outcome :
      (W F : Type 0) (last : Text → Option Value) (k : Text) (v : Value) (message : Option Text)
      (rest : Option (List (Text × Value)))
      → stringify v ≡ message
      → Outcome W F last rest
      → Outcome
          (Writes (some (k, v)) × W)
          (Fails (some (k, v)) ⊎ F)
          (λ l. first_of (last l) (named l (some (k, v))))
          (push (k, v) message rest)
  push-Outcome W F last k v none rest e h = inl e
  push-Outcome W F last k v (some t) none e h = inr h
  push-Outcome W F last k v (some t) (some pairs) e h =
      ((λ f. cc (e, f), h.0), λ o l. h.1 (set_key k v o) l ∙ assign-first l k v o (last l))

  with_attribute-Outcome :
      (W F : Type 0) (last : Text → Option Value) (a : Option (Text × Value))
      (rest : Option (List (Text × Value)))
      → Outcome W F last rest
      → Outcome
          (Writes a × W)
          (Fails a ⊎ F)
          (λ l. first_of (last l) (named l a))
          (with_attribute stringify a rest)
  with_attribute-Outcome W F last none none h = inr h
  with_attribute-Outcome W F last none (some pairs) h =
      ((tt, h.0), λ o l. h.1 o l ∙ ap (λ x. first_of x (find l o)) (sym (first_of-none (last l))))
  with_attribute-Outcome W F last (some (k, v)) rest h =
      push-Outcome W F last k v (stringify v) rest refl h

  span_attributes-Outcome :
      (ds : List AttributeDefinition)
      → Outcome
          (AllWrite ds)
          (SomeFails ds)
          (λ k. last_found args k ds)
          (span_attributes stringify ds args)
  unfolding span_attributes
  span_attributes-Outcome [] = (tt, λ o k. refl)
  span_attributes-Outcome (d ∷ ds) =
      with_attribute-Outcome (AllWrite ds) (SomeFails ds) (λ k. last_found args k ds)
        (get_attribute d args) (span_attributes stringify ds args) (span_attributes-Outcome ds)

  run_original-Outcome :
      (m : Method) (r : Result) (W F : Type 0) (last : Text → Option Value)
      (a : Option (List (Text × Value)))
      → Outcome W F last a
      → (F × (run_original m r a ≡ refused))
        ⊎ (W
            × ((s : Span) × (run_original m r a ≡ called s r)
                × ((k : Text) → find k s.attributes ≡ last k)))
  run_original-Outcome m r W F last none h = inl (h, refl)
  run_original-Outcome m r W F last (some pairs) h =
      inr (h.0, (_, refl, λ k. h.1 [] k ∙ first_of-none (last k)))

-- A call of a wrapped method, whatever the original does: either the text of a message throws, for
-- the value of some attribute, and so does the call, without the original; or the call ends as that
-- of the original, and the span has under each key what the last of its definitions finds.
pub wrapped_function-ends :
    (stringify : Value → Option Text) (m : Method) (original : List Value → Result)
    (args : List Value)
    → (SomeFails stringify args (or_else m.attributes [])
        × (wrapped_function stringify m original args ≡ refused))
      ⊎ (AllWrite stringify args (or_else m.attributes [])
          × ((s : Span) × (wrapped_function stringify m original args ≡ called s (original args))
              × ((k : Text) → find k s.attributes ≡ last_found args k (or_else m.attributes []))))
unfolding wrapped_function
wrapped_function-ends stringify m original args =
    run_original-Outcome stringify args m (original args) _ _
      (λ k. last_found args k (or_else m.attributes [])) _
      (span_attributes-Outcome stringify args (or_else m.attributes []))
