-- ===== src/JsonSchema/Order.antt =====
-- topologicalSort and collectRefs of packages/jsonschema-to-typescript/src/generate.ts.
-- The definitions are a record with keys in the order of insertion.
pub mod Graph
pub mod Sorting
use splunk_otel_js.Common.{
  ℕ, zero, suc, Bool, true, false, ◌||◌, Option, none, some, List, [], ◌∷◌, ◌++◌, map, Text, codes,
  ◌===◌, nat_eq, list_eq, if◌then◌else◌, starts_with, find, is_some, drop, length, is_empty,
}
use splunk_otel_js.Common.Json.{
  Json, null, boolean, number, text, array, object, Items, nil, cons, Fields, end, field,
  find_field, as_text,
}

-- `has`, `add` and `delete` of a set.
abbrev pub has : Text → List Text → Bool
has x [] = false
has x (y ∷ ys) = let rest = has x ys in x === y || rest

abbrev pub insert : Text → List Text → List Text
insert x ys = if has x ys then ys else ys ++ x ∷ []

abbrev pub delete : Text → List Text → List Text
delete x [] = []
delete x (y ∷ ys) = let rest = delete x ys in if x === y then rest else y ∷ rest

-- `replace('#/$defs/', '')`: the first occurrence is removed.
unfoldable pub remove_first : Text → Text → Text
remove_first p [] = []
remove_first p (c ∷ s) =
    let rest = remove_first p s in
    if starts_with (c ∷ s) p then drop (length p) (c ∷ s) else c ∷ rest

unfoldable pub ref_name : Text → Text
unfolding remove_first
ref_name r = remove_first (codes "#/$defs/") r

-- The references of one object: its own, if it has one, comes before those of its values.
abbrev pub own_ref : Fields → List Text → List Text
unfolding ref_name
own_ref fs refs = elim (as_text (find_field (codes "$ref") fs)) [
  | none ↦ refs
  | some r ↦ insert (ref_name r) refs
]

-- `collectRefs`, on values, on the elements of an array and on those of an object.
unfoldable mutual
  pub collect_refs : Json → List Text → List Text
  collect_refs (array vs) refs = collect_items vs refs
  collect_refs (object fs) refs = collect_fields fs (own_ref fs refs)
  collect_refs _ refs = refs

  pub collect_items : Items → List Text → List Text
  collect_items nil refs = refs
  collect_items (cons v vs) refs = collect_items vs (collect_refs v refs)

  pub collect_fields : Fields → List Text → List Text
  collect_fields end refs = refs
  collect_fields (field k v fs) refs = collect_fields fs (collect_refs v refs)

-- The variables of `topologicalSort`. A name is added to `visited` where it is pushed onto `sorted`,
-- so that one list is both; the newest name comes first.
pub record Sorted : Type 0 where
  pub sorted : List Text
  pub visiting : List Text

abbrev pub Definitions : Type 0
Definitions = List (Text × Json)

module _ (definitions : Definitions) where
  abbrev pub is_defined : Text → Bool
  is_defined name = is_some (find name definitions)

  unfoldable pub refs_of : Text → List Text
  unfolding collect_refs
  refs_of name = elim (find name definitions) [ none ↦ [] | some def ↦ collect_refs def [] ]

  -- The loop over the references, with `visit` for a definition.
  unfoldable pub visit_refs : (Text → Sorted → Option Sorted) → List Text → Sorted → Option Sorted
  visit_refs visit [] s = some s
  visit_refs visit (ref ∷ refs) s =
      if is_defined ref
      then (elim (visit ref s) [ none ↦ none | some t ↦ visit_refs visit refs t ])
      else visit_refs visit refs s

  abbrev pub leave : Text → Sorted → Sorted
  leave name s = record { sorted = name ∷ s.sorted; visiting = delete name s.visiting }

  -- `visit`; `none` stands for a recursion deeper than the fuel.
  unfoldable pub visit : ℕ → Text → Sorted → Option Sorted
  unfolding refs_of visit_refs
  visit zero name s = none
  visit (suc fuel) name s =
      if has name s.sorted || has name s.visiting
      then some s
      else (elim (visit_refs (visit fuel) (refs_of name)
          (record s { visiting = name ∷ s.visiting })) [
            | none ↦ none
            | some t ↦ some (leave name t)
          ])

  unfoldable pub visit_all : ℕ → List Text → Sorted → Option Sorted
  unfolding visit
  visit_all fuel [] s = some s
  visit_all fuel (name ∷ names) s = elim (visit fuel name s) [
    | none ↦ none
    | some t ↦ visit_all fuel names t
  ]

  abbrev pub names : List Text
  names = map (λ d. d.0) definitions

  -- `topologicalSort`, with the newest name first.
  unfoldable pub topological_sort : Option (List Text)
  unfolding visit_all
  topological_sort =
      elim (visit_all (suc (length definitions)) names (record { sorted = []; visiting = [] })) [
        | none ↦ none
        | some s ↦ some s.sorted
      ]
