-- ===== src/Metrics/Views/Laws.antt =====
-- What the attributes of a view are, for toAttributesProcessor of src/metrics/index.ts.
use splunk_otel_js.Common.{
  not, ◌&&◌, Option, none, some, List, [], ◌∷◌, Text, ◌===◌, ===_iff, nat_eq, list_eq,
  if◌then◌else◌, or_else, is_some, ◌≡◌, refl, arith, find, set_key, delete_key, has, find-set_key,
  find-delete_key, Option-cases, inl, inr,
}
use splunk_otel_js.Metrics.Views.{IncludeExclude, include_all, exclude_all, process}

module _ {ℓ} {V : Type ℓ} where
  abbrev prefer : Option V → Option V → Option V
  prefer none b = b
  prefer (some a) b = some a

  include_one :
      (j k : Text) (attributes : List (Text × V)) (w : Option V)
      → find j (elim w [ none ↦ attributes | some v ↦ set_key k v attributes ])
        ≡ (if j === k then prefer w (find j attributes) else find j attributes)
  include_one j k attributes none = ground arith
  include_one j k attributes (some v) = find-set_key j k v attributes

  find-include_all :
      (j : Text) (ks : List Text) (incoming attributes : List (Text × V))
      → find j (include_all ks incoming attributes)
        ≡ (if has j ks then prefer (find j incoming) (find j attributes) else find j attributes)
  unfolding include_all
  find-include_all j [] incoming attributes = refl
  find-include_all j (k ∷ ks) incoming attributes = elim (Option-cases (find j incoming)) [
    | inl missing ↦ ground (
      arith,
      ===_iff j k,
      include_one j k attributes (find k incoming),
      find-include_all j ks incoming
          (elim (find k incoming) [ none ↦ attributes | some v ↦ set_key k v attributes ]),
    )
    | inr (v, there) ↦ ground (
      arith,
      ===_iff j k,
      include_one j k attributes (find k incoming),
      find-include_all j ks incoming
          (elim (find k incoming) [ none ↦ attributes | some v ↦ set_key k v attributes ]),
    )
  ]

  exclude_one :
      (j k : Text) (attributes : List (Text × V)) (w : Option V)
      → find j (elim w [ none ↦ attributes | some v ↦ delete_key k attributes ])
        ≡ (if j === k && is_some w then none else find j attributes)
  exclude_one j k attributes none = ground arith
  exclude_one j k attributes (some v) = ground (arith, find-delete_key j k attributes)

  find-exclude_all :
      (j : Text) (ks : List Text) (incoming attributes : List (Text × V))
      → (find j incoming ≡ none → find j attributes ≡ none)
      → find j (exclude_all ks incoming attributes) ≡ (if has j ks then none else find j attributes)
  unfolding exclude_all
  find-exclude_all j [] incoming attributes h = refl
  find-exclude_all j (k ∷ ks) incoming attributes h =
      let next : List (Text × V) = elim (find k incoming) [
        | none ↦ attributes
        | some v ↦ delete_key k attributes
      ] in
      let one : find j next
          ≡ (if j === k && is_some (find k incoming) then none else find j attributes) =
        exclude_one j k attributes (find k incoming) in
      let rest = find-exclude_all j ks incoming next (λ e. ground (arith, h e, one)) in
      elim (Option-cases (find j incoming)) [
        | inl missing ↦ ground (arith, h missing, ===_iff j k, one, rest)
        | inr (v, there) ↦ ground (arith, ===_iff j k, one, rest)
      ]

  -- The attributes that `process` leaves: those that the list of included keys names and the list of
  -- excluded keys does not, with the values that they had. A list that is missing counts as empty.
  pub find-process :
      (keys : IncludeExclude) (incoming : List (Text × V)) (j : Text)
      → find j (process keys incoming) ≡ (
          if has j (or_else keys.included []) && not (has j (or_else keys.excluded []))
          then find j incoming
          else none)
  unfolding process
  find-process keys incoming j = ground (arith, included, excluded)
    where
      first : List (Text × V)
      first = include_all (or_else keys.included []) incoming []

      included :
          find j first
          ≡ (if has j (or_else keys.included []) then prefer (find j incoming) none else none)
      included = find-include_all j (or_else keys.included []) incoming []

      excluded :
          find j (exclude_all (or_else keys.excluded []) incoming first)
          ≡ (if has j (or_else keys.excluded []) then none else find j first)
      excluded =
          find-exclude_all j (or_else keys.excluded []) incoming first
            (λ e. ground (arith, e, included))
