-- ===== src/JsonSchema/Order/Sorting.antt =====
-- What topologicalSort of packages/jsonschema-to-typescript/src/generate.ts returns, for any
-- definitions, those that refer to one another in a circle included.
use splunk_otel_js.Common.{
  ℕ, zero, suc, ◌<◌, true, false, ◌||◌, some, List, [], ◌∷◌, Text, nat_eq, list_eq, length, ◌≡◌,
  refl, sym, ap, subst, ◌∙◌, ◌⊎◌, inl, inr, arith, Bool-cases,
}
use splunk_otel_js.JsonSchema.Order.{
  has, delete, Sorted, Definitions, is_defined, refs_of, visit_refs, visit, visit_all, names,
  topological_sort, leave,
}
use splunk_otel_js.JsonSchema.Order.Graph.{
  has_head, has_tail, has-cases, differs, delete_head, IsDistinct, left, left_less, left_all, Leads,
  arrived, follow, IsOrdered,
}

module _ (ds : Definitions) where
  record IsGood (s : Sorted) : Type 0 where
    ordered : IsOrdered ds s.sorted
    distinct_names : IsDistinct s.sorted
    only_defined : (x : Text) → has x s.sorted ≡ true → is_defined ds x ≡ true
    apart : (x : Text) → has x s.visiting ≡ true → has x s.sorted ≡ false

  -- What a visit leaves of the state before it.
  record Extends (s t : Sorted) : Type 0 where
    same_visiting : t.visiting ≡ s.visiting
    good : IsGood t
    kept : (x : Text) → has x s.sorted ≡ true → has x t.sorted ≡ true

  -- A name was pushed, or is being visited.
  abbrev Done : Text → Sorted → Type 0
  Done r t = (has r t.sorted ≡ true) ⊎ (has r t.visiting ≡ true)

  Extends-refl : (s : Sorted) → IsGood s → Extends s s
  Extends-refl s g = record { same_visiting = refl; good = g; kept = λ x h. h }

  Extends-trans : (s t u : Sorted) → Extends s t → Extends t u → Extends s u
  Extends-trans s t u p q = record {
    same_visiting = q.same_visiting ∙ p.same_visiting;
    good = q.good;
    kept = λ x h. q.kept x (p.kept x h);
  }

  Done-Extends : (r : Text) (s t : Sorted) → Extends s t → Done r s → Done r t
  Done-Extends r s t p (inl h) = inl (p.kept r h)
  Done-Extends r s t p (inr h) = inr (subst (λ v. has r v ≡ true) (sym p.same_visiting) h)

  -- Everything that is being visited leads to the name.
  abbrev IsChain : Sorted → Text → Type 0
  IsChain s name = (x : Text) → has x s.visiting ≡ true → Leads ds x name

  -- What `visit` on a fuel does for each definition and each good state.
  abbrev Visits : ℕ → Type 0
  Visits fuel =
      (name : Text) (s : Sorted)
      → is_defined ds name ≡ true
      → IsGood s
      → IsChain s name
      → left ds s.visiting < fuel
      → (t : Sorted) × (visit ds fuel name s ≡ some t) × Extends s t × Done name t

  visit_refs-Visits :
      (fuel : ℕ) (name : Text) (refs : List Text) (s : Sorted)
      → Visits fuel
      → ((r : Text) → has r refs ≡ true → has r (refs_of ds name) ≡ true)
      → IsGood s
      → IsChain s name
      → left ds s.visiting < fuel
      → (t : Sorted) × (visit_refs ds (visit ds fuel) refs s ≡ some t)
        × Extends s t
        × ((r : Text) → has r refs ≡ true → is_defined ds r ≡ true → Done r t)
  unfolding visit_refs
  visit_refs-Visits fuel name [] s ih sub g chain l = (s, refl, Extends-refl s g, λ r h _. cc h)
  visit_refs-Visits fuel name (ref ∷ refs) s ih sub g chain l =
      elim (Bool-cases (is_defined ds ref)) [
        | inl d ↦
            (let (t, e, ext, done) =
                ih ref s d g (λ x h. follow (chain x h) (d, sub ref (has_head ref refs))) l in
              let chain_t : IsChain t name =
                λ x h. chain x (subst (λ v. has x v ≡ true) ext.same_visiting h) in
              let left_t = subst (λ v. left ds v < fuel) (sym ext.same_visiting) l in
              let (u, e', ext', all) =
                visit_refs-Visits fuel name refs t ih (λ r h. sub r (has_tail r ref refs h))
                  ext.good chain_t left_t in
              (
                u,
                ground (arith, d, e, e'),
                Extends-trans s t u ext ext',
                λ r h dr. elim (has-cases r ref refs h) [
                  | inl same ↦ Done-Extends r t u ext' (subst (λ z. Done z t) (sym same) done)
                  | inr later ↦ all r later dr
                ],
              ))
        | inr n ↦
            (let (u, e', ext', all) =
                visit_refs-Visits fuel name refs s ih (λ r h. sub r (has_tail r ref refs h)) g chain
                  l in
              (
                u,
                ground (arith, n, e'),
                ext',
                λ r h dr. elim (has-cases r ref refs h) [
                  | inl same ↦ ground (arith, n, subst (λ z. is_defined ds z ≡ true) same dr)
                  | inr later ↦ all r later dr
                ],
              ))
      ]

  -- The state with which the references of a name are visited.
  abbrev enter : Text → Sorted → Sorted
  enter name s = record s { visiting = name ∷ s.visiting }

  enter-IsGood :
      (name : Text) (s : Sorted) → IsGood s → has name s.sorted ≡ false → IsGood (enter name s)
  enter-IsGood name s g n = record {
    ordered = g.ordered;
    distinct_names = g.distinct_names;
    only_defined = g.only_defined;
    apart = λ x h. elim (has-cases x name s.visiting h) [
      | inl same ↦ subst (λ z. has z s.sorted ≡ false) (sym same) n
      | inr old ↦ g.apart x old
    ];
  }

  leave-Extends :
      (name : Text) (s t : Sorted)
      → is_defined ds name ≡ true
      → has name s.visiting ≡ false
      → Extends (enter name s) t
      → ((r : Text) → has r (refs_of ds name) ≡ true → is_defined ds r ≡ true → Done r t)
      → IsChain s name
      → Extends s (leave ds name t)
  leave-Extends name s t d n ext all chain =
      let restored : (leave ds name t).visiting ≡ s.visiting =
        ap (delete name) ext.same_visiting ∙ delete_head name s.visiting n in
      record {
        same_visiting = restored;
        good = record {
          ordered = (
            λ r refers. elim (all r (refers.1) (refers.0)) [
              | inl old ↦ inl old
              | inr under_way ↦
                  inr
                    (elim (has-cases r name s.visiting
                      (subst (λ v. has r v ≡ true) ext.same_visiting under_way)) [
                        | inl same ↦ subst (λ z. Leads ds z name) (sym same) arrived
                        | inr above ↦ chain r above
                      ])
            ],
            ext.good.ordered,
          );
          distinct_names = (
            ext.good.apart name
                (subst (λ v. has name v ≡ true) (sym ext.same_visiting) (has_head name s.visiting)),
            ext.good.distinct_names,
          );
          only_defined = λ x h. elim (has-cases x name t.sorted h) [
            | inl same ↦ subst (λ z. is_defined ds z ≡ true) (sym same) d
            | inr old ↦ ext.good.only_defined x old
          ];
          apart = λ x h.
              let old = subst (λ v. has x v ≡ true) restored h in
              let under_way =
                subst (λ v. has x v ≡ true) (sym ext.same_visiting)
                  (has_tail x name s.visiting old) in
              ground (arith, differs x name s.visiting old n, ext.good.apart x under_way);
        };
        kept = λ x h. has_tail x name t.sorted (ext.kept x h);
      }

  visit-Visits : (fuel : ℕ) → Visits fuel
  unfolding visit
  visit-Visits zero name s d g chain l = ground (arith, l)
  visit-Visits (suc fuel) name s d g chain l =
      elim (Bool-cases (has name s.sorted || has name s.visiting)) [
        | inl already ↦ (
          s,
          ground (arith, already),
          Extends-refl s g,
          elim (Bool-cases (has name s.sorted)) [
            | inl h ↦ inl h
            | inr h ↦ inr (ground (arith, already, h))
          ],
        )
        | inr fresh ↦
            (let unsorted : has name s.sorted ≡ false = ground (arith, fresh) in
              let unvisited : has name s.visiting ≡ false = ground (arith, fresh) in
              let less = left_less ds name s.visiting d unvisited in
              let chain' : IsChain (enter name s) name = λ x h.
                elim (has-cases x name s.visiting h) [
                  | inl same ↦ subst (λ z. Leads ds z name) (sym same) arrived
                  | inr old ↦ chain x old
                ] in
              let (t, e, ext, all) =
                visit_refs-Visits fuel name (refs_of ds name) (enter name s) (visit-Visits fuel)
                  (λ r h. h) (enter-IsGood name s g unsorted) chain' (omega (arith, less, l)) in
              (
                leave ds name t,
                ground (arith, fresh, e),
                leave-Extends name s t d unvisited ext all chain,
                inl (has_head name t.sorted),
              ))
      ]

  visit_all-Visits :
      (fuel : ℕ) (ns : List Text) (s : Sorted)
      → ((n : Text) → has n ns ≡ true → is_defined ds n ≡ true)
      → IsGood s
      → s.visiting ≡ []
      → left ds [] < fuel
      → (t : Sorted) × (visit_all ds fuel ns s ≡ some t)
        × Extends s t
        × ((n : Text) → has n ns ≡ true → has n t.sorted ≡ true)
  unfolding visit_all
  visit_all-Visits fuel [] s d g none_visited l = (s, refl, Extends-refl s g, λ n h. cc h)
  visit_all-Visits fuel (name ∷ ns) s d g none_visited l =
      let (t, e, ext, done) =
        visit-Visits fuel name s (d name (has_head name ns)) g
          (λ x h. cc (h, subst (λ v. has x v ≡ false) (sym none_visited) refl))
          (subst (λ v. left ds v < fuel) (sym none_visited) l) in
      let none_left = ext.same_visiting ∙ none_visited in
      let pushed : has name t.sorted ≡ true = elim done [
        | inl h ↦ h
        | inr h ↦ cc (subst (λ v. has name v ≡ true) none_left h)
      ] in
      let (u, e', ext', all) =
        visit_all-Visits fuel ns t (λ n h. d n (has_tail n name ns h)) ext.good none_left l in
      (
        u,
        ground (arith, e, e'),
        Extends-trans s t u ext ext',
        λ n h. elim (has-cases n name ns h) [
          | inl same ↦ ext'.kept n (subst (λ z. has z t.sorted ≡ true) (sym same) pushed)
          | inr later ↦ all n later
        ],
      )

has-names : (ds : Definitions) (n : Text) → has n (names ds) ≡ is_defined ds n
has-names [] n = refl
has-names ((m, d) ∷ ds) n = ground (arith, has-names ds n)

-- The sort of any definitions returns. It has each defined name exactly once and no other, and what
-- a definition refers to stands before it, unless that leads back to the definition.
pub topological_sort-IsOrdered :
    (ds : Definitions)
    → (sorted : List Text) × (topological_sort ds ≡ some sorted)
      × IsDistinct sorted
      × ((n : Text) → has n sorted ≡ is_defined ds n)
      × IsOrdered ds sorted
unfolding topological_sort
topological_sort-IsOrdered ds =
    let start : Sorted = record { sorted = []; visiting = [] } in
    let good : IsGood ds start = record {
      ordered = tt;
      distinct_names = tt;
      only_defined = λ x h. cc h;
      apart = λ x h. refl;
    } in
    let (t, e, ext, all) =
      visit_all-Visits ds (suc (length ds)) (names ds) start (λ n h. sym (has-names ds n) ∙ h) good
        refl (omega (arith, left_all ds)) in
    (
      t.sorted,
      ground (arith, e),
      ext.good.distinct_names,
      λ n. elim (Bool-cases (is_defined ds n)) [
        | inl d ↦ all n (has-names ds n ∙ d) ∙ sym d
        | inr u ↦ elim (Bool-cases (has n t.sorted)) [
          | inl h ↦ ground (arith, ext.good.only_defined n h, h)
          | inr h ↦ h ∙ sym u
        ]
      ],
      ext.good.ordered,
    )
