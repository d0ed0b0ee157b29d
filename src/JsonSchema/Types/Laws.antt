-- ===== src/JsonSchema/Types/Laws.antt =====
-- What resolveType of packages/jsonschema-to-typescript/src/generate.ts gives.
use mathlib.Core.Option
use splunk_otel_js.Common.{
  ℕ, zero, suc, ◌≤◌, ◌<◌, Bool, true, false, not, ◌&&◌, Option, none, some, List, ◌++◌, Text, codes,
  ◌===◌, nat_eq, list_eq, if◌then◌else◌, ◌≡◌, refl, sym, ap, subst, ◌∙◌, arith, Option-cases,
  Bool-cases, inl, inr,
}
use splunk_otel_js.Common.Json.{
  Json, null, boolean, number, text, array, object, Fields, end, field, find_field, property, size,
  fields_size,
}
use splunk_otel_js.JsonSchema.Order.{has}
use splunk_otel_js.JsonSchema.Types.{
  Shape, plain, around, shape_of, resolve_type, finish, shape_of_many, shape_of_array,
  shape_of_object, shape_of_one, shape_of_type, additional_properties, nothing, anything, each,
  type_of, enum_of, ref_of, TypeField, untyped, one, many, starts_object, without_null, map_shape,
  additional, item_shape, has_min_items, or_null, shape_from, AdditionalProperties, record_of,
  base_type, has_properties,
}

find_field-size :
    (k : Text) (fs : Fields) (v : Json) → find_field k fs ≡ some v → size v ≤ fields_size fs
unfolding find_field size
find_field-size k end v h = cc h
find_field-size k (field j w fs) v h = elim (Bool-cases (j === k)) [
  | inl same ↦ ground (arith, h, same)
  | inr other ↦ ground (arith, find_field-size k fs v (ground (arith, h, other)))
]

property-size : (k : Text) (s v : Json) → property k s ≡ some v → size v < size s
unfolding property size
property-size k (object fs) v h = omega (arith, find_field-size k fs v h)
property-size k null v h = cc h
property-size k (boolean _) v h = cc h
property-size k (number _) v h = cc h
property-size k (text _) v h = cc h
property-size k (array _) v h = cc h

-- A shape goes on only into something smaller.
abbrev IsBelow : ℕ → Shape → Type 0
IsBelow n (plain t) = Unit
IsBelow n (around v wrap) = size v < n

map_shape-IsBelow :
    (wrap : Text → Text) (t : Text) (n : ℕ) (o : Option Json)
    → ((v : Json) → o ≡ some v → size v < n)
    → IsBelow n (map_shape wrap t (additional o))
map_shape-IsBelow wrap t n (some (object fs)) h = h (object fs) refl
map_shape-IsBelow wrap t n (some (boolean true)) h = tt
map_shape-IsBelow wrap t n (some (boolean false)) h = tt
map_shape-IsBelow wrap t n (some null) h = tt
map_shape-IsBelow wrap t n (some (number _)) h = tt
map_shape-IsBelow wrap t n (some (text _)) h = tt
map_shape-IsBelow wrap t n (some (array _)) h = tt
map_shape-IsBelow wrap t n none h = tt

item_shape-IsBelow :
    (b : Bool) (n : ℕ) (o : Option Json)
    → ((v : Json) → o ≡ some v → size v < n)
    → IsBelow n (item_shape b o)
item_shape-IsBelow b n (some (object fs)) h = h (object fs) refl
item_shape-IsBelow b n (some (boolean _)) h = tt
item_shape-IsBelow b n (some null) h = tt
item_shape-IsBelow b n (some (number _)) h = tt
item_shape-IsBelow b n (some (text _)) h = tt
item_shape-IsBelow b n (some (array _)) h = tt
item_shape-IsBelow b n none h = tt

if-IsBelow :
    (n : ℕ) (b : Bool) (x y : Shape) → IsBelow n x → IsBelow n y → IsBelow n (if b then x else y)
if-IsBelow n true x y p q = p
if-IsBelow n false x y p q = q

shape_of_type-IsBelow : (type : TypeField) (s : Json) → IsBelow (size s) (shape_of_type type s)
unfolding shape_of_one shape_of_many
shape_of_type-IsBelow untyped s = tt
shape_of_type-IsBelow (one t) s =
    if-IsBelow (size s) (t === codes "array") (shape_of_array s) _
      (item_shape-IsBelow (has_min_items s) (size s) (property (codes "items") s)
        (property-size (codes "items") s))
      (if-IsBelow (size s) (t === codes "object") (shape_of_object s) _
        (if-IsBelow (size s) (has_properties s) (plain (codes "object")) _ tt (
          map_shape-IsBelow (λ u. u) (codes "object") (size s)
            (property (codes "additionalProperties") s)
            (property-size (codes "additionalProperties") s)))
        tt)
shape_of_type-IsBelow (many ts) s =
    if-IsBelow (size s) (starts_object (without_null ts) && not (has_properties s)) _ _
      (map_shape-IsBelow (or_null (has (codes "null") ts)) (codes "object") (size s)
        (property (codes "additionalProperties") s)
        (property-size (codes "additionalProperties") s))
      tt

shape_of-IsBelow : (s : Json) → IsBelow (size s) (shape_of s)
unfolding shape_of shape_from property
shape_of-IsBelow s = elim (ref_of s) as (λ r. IsBelow (size s) (shape_from r (enum_of s) s)) [
  | some r ↦ tt
  | none ↦ elim (enum_of s) as (λ vs. IsBelow (size s) (shape_from none vs s)) [
    | some vs ↦ tt
    | none ↦ shape_of_type-IsBelow (type_of s) s
  ]
]

size-positive : (s : Json) → 0 < size s
unfolding size
size-positive null = omega arith
size-positive (boolean _) = omega arith
size-positive (number _) = omega arith
size-positive (text _) = omega arith
size-positive (array _) = omega arith
size-positive (object _) = omega arith

finish-returns :
    (n : ℕ) (resolve : Json → Option Text) (shape : Shape)
    → IsBelow n shape
    → ((v : Json) → size v < n → (t : Text) × (resolve v ≡ some t))
    → (t : Text) × (finish resolve shape ≡ some t)
finish-returns n resolve (plain t) h ih = (t, refl)
finish-returns n resolve (around v wrap) h ih =
    let (t, e) = ih v h in (wrap t, ap (Option.map wrap) e)

-- Fuel for the size of a schema is enough to give its type.
pub resolve_type-returns :
    (fuel : ℕ) (s : Json) → size s ≤ fuel → (t : Text) × (resolve_type fuel s ≡ some t)
unfolding resolve_type
resolve_type-returns zero s h = ground (arith, h, size-positive s)
resolve_type-returns (suc fuel) s h =
    finish-returns (size s) (resolve_type fuel) (shape_of s) (shape_of-IsBelow s)
      (λ v l. resolve_type-returns fuel v (omega (arith, h, l)))

-- A shape that gives nothing but types that end with `| null`.
abbrev IsNullable : Text → Type 0
IsNullable t = (u : Text) × (t ≡ u ++ codes " | null")

abbrev GivesNull : Shape → Type 0
GivesNull (plain t) = IsNullable t
GivesNull (around v wrap) = (t : Text) → IsNullable (wrap t)

finish-GivesNull :
    (resolve : Json → Option Text) (shape : Shape)
    → GivesNull shape
    → (t : Text) → finish resolve shape ≡ some t
    → IsNullable t
finish-GivesNull resolve (plain u) h t e = let (w, q) = h in (w, ground (arith, e, q))
finish-GivesNull resolve (around v wrap) h t e = elim (Option-cases (resolve v)) [
  | inl missing ↦ ground (arith, e, missing)
  | inr (u, q) ↦ let (w, p) = h u in (w, ground (arith, e, p, q))
]

map_shape-GivesNull :
    (t : Text) (a : AdditionalProperties) → GivesNull (map_shape (or_null true) t a)
map_shape-GivesNull t nothing = (t, refl)
map_shape-GivesNull t anything = (codes "Record<string, unknown>", refl)
map_shape-GivesNull t (each v) = λ u. (record_of u, refl)

if-GivesNull : (b : Bool) (x y : Shape) → GivesNull x → GivesNull y → GivesNull (if b then x else y)
if-GivesNull true x y p q = p
if-GivesNull false x y p q = q

abbrev shape_with : Bool → List Text → Json → Shape
shape_with b ts s =
    if starts_object (without_null ts) && not (has_properties s)
    then map_shape (or_null b) (codes "object") (additional_properties s)
    else plain (or_null b (base_type (without_null ts)))

shape_of_many-GivesNull :
    (ts : List Text) (s : Json) → has (codes "null") ts ≡ true → GivesNull (shape_of_many ts s)
unfolding shape_of_many
shape_of_many-GivesNull ts s n =
    subst (λ b. GivesNull (shape_with b ts s)) (sym n)
      (if-GivesNull (starts_object (without_null ts) && not (has_properties s)) _ _
        (map_shape-GivesNull (codes "object") (additional_properties s))
        (base_type (without_null ts), refl))

-- Where no reference and no enumeration decides, a list of types with null among them gives a type
-- that ends with `| null`.
pub resolve_type-nullable :
    (fuel : ℕ) (s : Json) (ts : List Text)
    → size s ≤ fuel
    → ref_of s ≡ none
    → enum_of s ≡ none
    → type_of s ≡ many ts
    → has (codes "null") ts ≡ true
    → (t : Text) × (resolve_type fuel s ≡ some (t ++ codes " | null"))
unfolding resolve_type shape_of shape_from
resolve_type-nullable zero s ts h r e t n = ground (arith, h, size-positive s)
resolve_type-nullable (suc fuel) s ts h r e t n =
    let (u, q) = resolve_type-returns (suc fuel) s h in
    let gives : GivesNull (shape_of s) = rw (r, e, t) (shape_of_many-GivesNull ts s n) in
    let (w, p) = finish-GivesNull (resolve_type fuel) (shape_of s) gives u q in
    (w, q ∙ ap (λ x. some x) p)
