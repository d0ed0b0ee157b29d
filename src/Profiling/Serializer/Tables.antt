-- ===== src/Profiling/Serializer/Tables.antt =====
-- The tables of src/profiling/utils.ts: every id is a position, and stays one.
use splunk_otel_js.Common.{
  decimal, subst, ℕ, ◌+◌, some, List, [], ◌∷◌, ◌++◌, Text, ◌≡◌, sym, ◌∙◌, ap, inl, inr, nat_eq,
  list_eq, length, get_elem?, find, Keeps, append-Keeps, get_elem-last, get_elem-append_one,
  find-get_elem, Option-cases,
}
use splunk_otel_js.Profiling.Serializer.{
  Table, get_index, keys, Function, Location, Serializer, function_key, shown_line,
}

-- Each string has its position for an index.
abbrev pub IsIndexed : Table → Type 0
IsIndexed t = (d : ℕ) (s : Text) (i : ℕ) → get_elem? t d ≡ some (s, i) → i ≡ d

abbrev pub HasString : Table → ℕ → Text → Type 0
HasString t i s = get_elem? t i ≡ some (s, i)

pub keys-HasString :
    (t : Table) (i : ℕ) (s : Text) → HasString t i s → get_elem? (keys t) i ≡ some s
keys-HasString t i s h = go t i i h
  where
    go : (t : Table) (d i : ℕ) → get_elem? t d ≡ some (s, i) → get_elem? (keys t) d ≡ some s
    go [] d i h = cc h
    go ((k, j) ∷ t) ℕ.zero i h = cc h
    go ((k, j) ∷ t) (ℕ.suc d) i h = go t d i h

pub get_index_lem :
    (s : Text) (t : Table)
    → IsIndexed t
    → let (i, after) = get_index s t in IsIndexed after × HasString after i s × Keeps t after
unfolding get_index
get_index_lem s t v = elim (Option-cases (find s t)) [
  | inl e ↦
      rw (e, get_index)
        (
          (λ d k i h. elim (get_elem-append_one t (s, length t) (k, i) d h) [
            | inl old ↦ v d k i old
            | inr (p, q) ↦ cc
          ]),
          get_elem-last t (s, length t),
          append-Keeps t ((s, length t) ∷ []),
        )
  | inr (i, e) ↦
      let (d, h) = find-get_elem s i t e in
      rw (e, get_index)
        (v, subst (λ j. get_elem? t j ≡ some (s, i)) (sym (v d s i h)) h, λ d x h. h)
]

-- A function of the table has its names among the strings, and they make up its key.
pub record IsNamed (t : Table) (key : Text) (f : Function) : Type 0 where
  pub file : Text
  pub fun : Text
  pub has_file : HasString t f.filename file
  pub has_fun : HasString t f.name fun
  pub key_of : function_key file fun ≡ key

-- The functions are numbered from 1 on, and named.
abbrev pub AreNamed : Table → List (Text × Function) → Type 0
AreNamed t fs =
    (d : ℕ) (key : Text) (f : Function)
    → get_elem? fs d ≡ some (key, f)
    → (f.id ≡ d + 1) × IsNamed t key f

-- A location has its function in the table; the function's key and the line make up its key.
pub record IsLocated (fs : List (Text × Function)) (key : Text) (l : Location) : Type 0 where
  pub place : ℕ
  pub function_name : Text
  pub function : Function
  pub line : ℕ
  pub has_function : get_elem? fs place ≡ some (function_name, function)
  pub same_id : l.function_id ≡ function.id
  pub same_line : l.line ≡ shown_line line
  pub key_of : function_name ++ b':' ∷ decimal line ≡ key

abbrev pub AreLocated : List (Text × Function) → List (Text × Location) → Type 0
AreLocated fs ls =
    (d : ℕ) (key : Text) (l : Location)
    → get_elem? ls d ≡ some (key, l)
    → (l.id ≡ d + 1) × IsLocated fs key l

pub record IsSound (w : Serializer) : Type 0 where
  pub strings : IsIndexed w.strings
  pub functions : AreNamed w.strings w.functions
  pub locations : AreLocated w.functions w.locations

pub record KeepsAll (v w : Serializer) : Type 0 where
  pub strings : Keeps v.strings w.strings
  pub functions : Keeps v.functions w.functions
  pub locations : Keeps v.locations w.locations

pub IsNamed-Keeps :
    (t u : Table) (key : Text) (f : Function) → Keeps t u → IsNamed t key f → IsNamed u key f
IsNamed-Keeps t u key f k n = record {
  file = n.file;
  fun = n.fun;
  has_file = k f.filename (n.file, f.filename) n.has_file;
  has_fun = k f.name (n.fun, f.name) n.has_fun;
  key_of = n.key_of;
}

pub AreNamed-Keeps :
    (t u : Table) (fs : List (Text × Function)) → Keeps t u → AreNamed t fs → AreNamed u fs
AreNamed-Keeps t u fs k v d key f h = let (i, n) = v d key f h in (i, IsNamed-Keeps t u key f k n)

pub AreLocated-Keeps :
    (fs gs : List (Text × Function)) (ls : List (Text × Location))
    → Keeps fs gs
    → AreLocated fs ls
    → AreLocated gs ls
AreLocated-Keeps fs gs ls k v d key l h =
    let (i, n) = v d key l h in
    (
      i,
      record {
        place = n.place;
        function_name = n.function_name;
        function = n.function;
        line = n.line;
        has_function = k n.place (n.function_name, n.function) n.has_function;
        same_id = n.same_id;
        same_line = n.same_line;
        key_of = n.key_of;
      },
    )

pub AreNamed-append :
    (t : Table) (fs : List (Text × Function)) (key : Text) (f : Function)
    → AreNamed t fs
    → f.id ≡ length fs + 1
    → IsNamed t key f
    → AreNamed t (fs ++ (key, f) ∷ [])
AreNamed-append t fs key f v i n d k g h = elim (get_elem-append_one fs (key, f) (k, g) d h) [
  | inl old ↦ v d k g old
  | inr (p, q) ↦
      subst (λ (x : Text × Function). (x.1.id ≡ d + 1) × IsNamed t x.0 x.1) (sym q)
        (i ∙ ap (λ m. m + 1) (sym p), n)
]

pub AreLocated-append :
    (fs : List (Text × Function)) (ls : List (Text × Location)) (key : Text) (l : Location)
    → AreLocated fs ls
    → l.id ≡ length ls + 1
    → IsLocated fs key l
    → AreLocated fs (ls ++ (key, l) ∷ [])
AreLocated-append fs ls key l v i n d k g h = elim (get_elem-append_one ls (key, l) (k, g) d h) [
  | inl old ↦ v d k g old
  | inr (p, q) ↦
      subst (λ (x : Text × Location). (x.1.id ≡ d + 1) × IsLocated fs x.0 x.1) (sym q)
        (i ∙ ap (λ m. m + 1) (sym p), n)
]
