-- ===== src/Instrumentations/Nocode/Patch.antt =====
-- How methods are wrapped and unwrapped: generatePatchFunction, generateUnpatchFunction and
-- parseConfig of src/instrumentations/external/nocode/nocode.ts. The wrapping of OpenTelemetry is a
-- parameter (the record Wrapping). The exports of a module are what each of their names has, if it
-- is a function.
pub mod Laws
use splunk_otel_js.Common.{
  Bool, true, false, Option, none, some, List, [], ◌∷◌, ◌++◌, map, Text, codes, ◌===◌, nat_eq,
  list_eq, if◌then◌else◌, or_else, is_empty, ◌≡◌, refl, ap, sym, ◌∙◌, arith, Bool-cases, inl, inr,
}
use splunk_otel_js.Instrumentations.Nocode.{Method, name_of}

-- `_wrap` with the wrapper of a method, as a whole, `_unwrap` and `isWrapped`.
pub record Wrapping (F : Type 0) : Type 0 where
  pub wrap : Method → F → F
  pub unwrap : F → F
  pub is_wrapped : F → Bool

-- As the library documents them: a function that is not wrapped is given back by `_unwrap`, and of one
-- that is wrapped already `_wrap` first takes the wrapper off.
pub record IsWrapping {F : Type 0} (w : Wrapping F) : Type 0 where
  pub wrapped : (m : Method) (f : F) → w.is_wrapped (w.wrap m f) ≡ true
  pub unwrapped : (m : Method) (f : F) → w.is_wrapped f ≡ false → w.unwrap (w.wrap m f) ≡ f
  pub rewrapped : (m : Method) (f : F) → w.is_wrapped f ≡ true → w.wrap m f ≡ w.wrap m (w.unwrap f)

module _ {F : Type 0} (w : Wrapping F) where
  abbrev pub Exports : Type 0
  Exports = Text → Option F

  -- Write to a member.
  abbrev pub assign_member : Text → Option F → Exports → Exports
  assign_member k none e = e
  assign_member k (some f) e = λ n. if n === k then some f else e n

  abbrev pub change : (F → F) → Option F → Option F
  change h none = none
  change h (some f) = some (h f)

  abbrev pub unwrap_if_wrapped : F → F
  unwrap_if_wrapped f = if w.is_wrapped f then w.unwrap f else f

  unfoldable pub patch : List Method → Exports → Exports
  patch [] e = e
  patch (m ∷ ms) e = patch ms (assign_member m.method_name (change (w.wrap m) (e m.method_name)) e)

  unfoldable pub unpatch : List Method → Exports → Exports
  unpatch [] e = e
  unpatch (m ∷ ms) e =
      unpatch ms (assign_member m.method_name (change unwrap_if_wrapped (e m.method_name)) e)

  -- The warnings of the patch: the methods that are not functions.
  abbrev pub missing : List Method → Exports → List Text
  missing [] e = []
  missing (m ∷ ms) e =
      let rest = missing ms e in
      elim (e m.method_name) [ none ↦ m.method_name ∷ rest | some f ↦ rest ]

pub record FileDefinition : Type 0 where
  pub name : Text
  pub method : Method

pub record Definition : Type 0 where
  pub module_name : Option Text
  pub absolute_path : Option Text
  pub supported_versions : Option (List Text)
  pub main_module_methods : Option (List Method)
  pub files : Option (List FileDefinition)

-- A definition for the instrumentation of OpenTelemetry: the methods of the main module, which are
-- patched if there are any functions for it, and those of the files.
pub record ModuleDefinition : Type 0 where
  pub name : Text
  pub supported_versions : List Text
  pub main : Option (List Method)
  pub files : List FileDefinition

abbrev pub given : Option Text → Option Text
given none = none
given (some t) = if is_empty t then none else some t

abbrev pub by_path : Definition → Option Text → List ModuleDefinition → List ModuleDefinition
by_path d none rest = rest
by_path d (some p) rest =
    record {
      name = p;
      supported_versions = codes "*" ∷ [];
      main = none;
      files = or_else d.files [];
    }
    ∷ rest

abbrev pub by_name : Definition → Option Text → List ModuleDefinition → List ModuleDefinition
by_name d none rest = by_path d (given d.absolute_path) rest
by_name d (some n) rest =
    record {
      name = n;
      supported_versions = or_else d.supported_versions (codes "*" ∷ []);
      main = some (or_else d.main_module_methods []);
      files = or_else d.files [];
    }
    ∷ rest

unfoldable pub parse_config : List Definition → List ModuleDefinition
parse_config [] = []
parse_config (d ∷ ds) = by_name d (given d.module_name) (parse_config ds)
