-- ===== src/Instrumentations/Nocode/Patch/Laws.antt =====
-- What unpatching leaves of a module, for generateUnpatchFunction of nocode.ts.
use splunk_otel_js.Common.{
  false, Option, none, some, List, [], ◌∷◌, Text, ◌===◌, ===_iff, ===_refl, nat_eq, list_eq,
  if◌then◌else◌, ◌≡◌, refl, ap, ◌∙◌, arith, Bool-cases, inl, inr, ◌⊎◌, ◌||◌, true, false, Bool,
}
use splunk_otel_js.Instrumentations.Nocode.{Method}
use splunk_otel_js.Instrumentations.Nocode.Patch.{
  Wrapping, IsWrapping, Exports, assign_member, change, unwrap_if_wrapped, patch, unpatch,
}

-- What one name of the exports has, after all the targets.
module _ {F : Type 0} (w : Wrapping F) (n : Text) where
  abbrev patch_at : List Method → Option F → Option F
  patch_at [] f = f
  patch_at (m ∷ ms) f = patch_at ms (if n === m.method_name then change w (w.wrap m) f else f)

  abbrev unpatch_at : List Method → Option F → Option F
  unpatch_at [] f = f
  unpatch_at (m ∷ ms) f =
      unpatch_at ms (if n === m.method_name then change w (unwrap_if_wrapped w) f else f)

  assign_member-same :
      (h : F → F) (e : Exports w) (f : Option F)
      → e n ≡ f
      → assign_member w n (change w h f) e n ≡ change w h f
  assign_member-same h e none i = i
  assign_member-same h e (some f) i = ground (arith, ===_refl n)

  assign_member-other :
      (h : F → F) (k : Text) (e : Exports w) (f : Option F)
      → (n === k) ≡ false
      → assign_member w k (change w h f) e n ≡ e n
  assign_member-other h k e none i = refl
  assign_member-other h k e (some f) i = ground (arith, i)

  assign_member-at :
      (h : F → F) (k : Text) (e : Exports w)
      → assign_member w k (change w h (e k)) e n ≡ (if n === k then change w h (e n) else e n)
  assign_member-at h k e = elim (Bool-cases (n === k)) [
    | inl same ↦ ground (arith, same, assign_member-same h e (e n) refl, ===_iff n k)
    | inr differs ↦ ground (arith, differs, assign_member-other h k e (e k) differs)
  ]

  patch-at : (ms : List Method) (e : Exports w) → patch w ms e n ≡ patch_at ms (e n)
  unfolding patch
  patch-at [] e = refl
  patch-at (m ∷ ms) e =
      patch-at ms _ ∙ ap (patch_at ms) (assign_member-at (w.wrap m) m.method_name e)

  unpatch-at : (ms : List Method) (e : Exports w) → unpatch w ms e n ≡ unpatch_at ms (e n)
  unfolding unpatch
  unpatch-at [] e = refl
  unpatch-at (m ∷ ms) e =
      unpatch-at ms _ ∙ ap (unpatch_at ms) (assign_member-at (unwrap_if_wrapped w) m.method_name e)

  abbrev is_named : List Method → Bool
  is_named [] = false
  is_named (m ∷ ms) = n === m.method_name || is_named ms

  patch_at-unnamed : (ms : List Method) (f : Option F) → is_named ms ≡ false → patch_at ms f ≡ f
  patch_at-unnamed [] f h = refl
  patch_at-unnamed (m ∷ ms) f h = ground (arith, h, patch_at-unnamed ms f)

  unpatch_at-unnamed : (ms : List Method) (f : Option F) → is_named ms ≡ false → unpatch_at ms f ≡ f
  unpatch_at-unnamed [] f h = refl
  unpatch_at-unnamed (m ∷ ms) f h = ground (arith, h, unpatch_at-unnamed ms f)

  patch_at-none : (ms : List Method) → patch_at ms none ≡ none
  patch_at-none [] = refl
  patch_at-none (m ∷ ms) = ground (arith, patch_at-none ms)

  unpatch_at-none : (ms : List Method) → unpatch_at ms none ≡ none
  unpatch_at-none [] = refl
  unpatch_at-none (m ∷ ms) = ground (arith, unpatch_at-none ms)

  -- A function as it was, or with one wrapper.
  abbrev Layer : F → F → Type 0
  Layer g f = (f ≡ g) ⊎ ((m : Method) × (f ≡ w.wrap m g))

  module _ (ok : IsWrapping w) (g : F) (fresh : w.is_wrapped g ≡ false) where
    wrap-Layer : (m : Method) (f : F) → Layer g f → Layer g (w.wrap m f)
    wrap-Layer m f (inl e) = inr (m, ap (w.wrap m) e)
    wrap-Layer m f (inr (k, e)) = inr (
      m,
      ap (w.wrap m) e
          ∙ ok.rewrapped m (w.wrap k g) (ok.wrapped k g)
          ∙ ap (w.wrap m) (ok.unwrapped k g fresh),
    )

    unwrap-Layer : (f : F) → Layer g f → unwrap_if_wrapped w f ≡ g
    unwrap-Layer f (inl e) = ground (arith, e, fresh)
    unwrap-Layer f (inr (k, e)) =
        ap (unwrap_if_wrapped w) e ∙ ground (arith, ok.wrapped k g, ok.unwrapped k g fresh)

    patch_at-Layer :
        (ms : List Method) (f : F)
        → Layer g f
        → (h : F) × (patch_at ms (some f) ≡ some h) × Layer g h
    patch_at-Layer [] f l = (f, refl, l)
    patch_at-Layer (m ∷ ms) f l = elim (Bool-cases (n === m.method_name)) [
      | inl same ↦
          let (h, e, k) = patch_at-Layer ms (w.wrap m f) (wrap-Layer m f l) in
          (h, ground (arith, same, e), k)
      | inr differs ↦ let (h, e, k) = patch_at-Layer ms f l in (h, ground (arith, differs, e), k)
    ]

    unpatch_at-fresh : (ms : List Method) → unpatch_at ms (some g) ≡ some g
    unpatch_at-fresh [] = refl
    unpatch_at-fresh (m ∷ ms) = ground (arith, fresh, unpatch_at-fresh ms)

    unpatch_at-Layer :
        (ms : List Method) (f : F)
        → is_named ms ≡ true
        → Layer g f
        → unpatch_at ms (some f) ≡ some g
    unpatch_at-Layer [] f h l = cc h
    unpatch_at-Layer (m ∷ ms) f h l = elim (Bool-cases (n === m.method_name)) [
      | inl same ↦ ground (arith, same, unwrap-Layer f l, unpatch_at-fresh ms)
      | inr differs ↦ ground (arith, differs, h, unpatch_at-Layer ms f)
    ]

    unpatch_at-patch_at : (ms : List Method) → unpatch_at ms (patch_at ms (some g)) ≡ some g
    unpatch_at-patch_at ms = elim (Bool-cases (is_named ms)) [
      | inl y ↦
          let (h, e, l) = patch_at-Layer ms g (inl refl) in
          ap (unpatch_at ms) e ∙ unpatch_at-Layer ms h y l
      | inr other ↦
          ap (unpatch_at ms) (patch_at-unnamed ms (some g) other)
          ∙ unpatch_at-unnamed ms (some g) other
    ]

  restored :
      IsWrapping w
      → (ms : List Method) (f : Option F) → ((g : F) → f ≡ some g → w.is_wrapped g ≡ false)
      → unpatch_at ms (patch_at ms f) ≡ f
  restored ok ms none fresh = ap (unpatch_at ms) (patch_at-none ms) ∙ unpatch_at-none ms
  restored ok ms (some g) fresh = unpatch_at-patch_at ok g (fresh g refl) ms

-- A module that is patched for any targets, a method named by several of them included, and then
-- unpatched for the same has what it had, under every name under which it has no wrapped function to
-- begin with: where the library takes the wrapper off a function that is wrapped already before it wraps
-- it again, and unwraps what was wrapped.
pub unpatch-patch :
    {F : Type 0} (w : Wrapping F)
    → IsWrapping w
    → (ms : List Method) (e : Exports w) (n : Text)
    → ((g : F) → e n ≡ some g → w.is_wrapped g ≡ false)
    → unpatch w ms (patch w ms e) n ≡ e n
unpatch-patch w ok ms e n fresh =
    unpatch-at w n ms (patch w ms e)
    ∙ ap (unpatch_at w n ms) (patch-at w n ms e)
    ∙ restored w n ok ms (e n) fresh
