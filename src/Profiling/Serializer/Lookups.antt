-- ===== src/Profiling/Serializer/Lookups.antt =====
-- What a lookup in the tables of src/profiling/utils.ts gives and keeps.
use splunk_otel_js.Common.{
  ℕ, ◌+◌, some, [], ◌∷◌, ◌++◌, Text, ◌≡◌, refl, sym, ap, inl, inr, nat_eq, list_eq, length,
  get_elem?, find, Keeps, append-Keeps, get_elem-last, find-get_elem, Option-cases,
}
use splunk_otel_js.Profiling.Serializer.{
  get_index, Function, Location, Serializer, function_key, location_key, get_function, get_location,
  add_function, add_location,
}
use splunk_otel_js.Profiling.Serializer.Tables.{
  get_index_lem, IsSound, KeepsAll, AreNamed-Keeps, AreLocated-Keeps, AreNamed-append,
  AreLocated-append,
}

-- What `getFunction` gives: an entry of the table under the key.
pub record FunctionFound (key : Text) (w : Serializer) (r : Function × Serializer) : Type 0 where
  pub sound : IsSound r.1
  pub keeps : KeepsAll w r.1
  pub same_locations : r.1.locations ≡ w.locations
  pub place : ℕ
  pub has_function : get_elem? r.1.functions place ≡ some (key, r.0)

pub KeepsAll-refl : (w : Serializer) → KeepsAll w w
KeepsAll-refl w = record { strings = λ d x h. h; functions = λ d x h. h; locations = λ d x h. h }

add_function_lem :
    (file fun : Text) (w : Serializer)
    → IsSound w
    → FunctionFound (function_key file fun) w (add_function file fun w)
unfolding add_function
add_function_lem file fun w v =
    let key = function_key file fun in
    let (v1, h1, k1) = get_index_lem fun w.strings v.strings in
    let named = (get_index fun w.strings).1 in
    let (v2, h2, k2) = get_index_lem file named v1 in
    let strings = (get_index file named).1 in
    let kept : Keeps w.strings strings = λ d x h. k2 d x (k1 d x h) in
    let f = (add_function file fun w).0 in
    record {
      sound = record {
        strings = v2;
        functions =
            AreNamed-append strings w.functions key f
              (AreNamed-Keeps w.strings strings w.functions kept v.functions) refl
              (record {
                file = file;
                fun = fun;
                has_file = h2;
                has_fun = k2 _ _ h1;
                key_of = refl;
              });
        locations =
            AreLocated-Keeps w.functions (w.functions ++ (key, f) ∷ []) w.locations
              (append-Keeps w.functions ((key, f) ∷ [])) v.locations;
      };
      keeps = record {
        strings = kept;
        functions = append-Keeps w.functions ((key, f) ∷ []);
        locations = λ d x h. h;
      };
      same_locations = refl;
      place = length w.functions;
      has_function = get_elem-last w.functions (key, f);
    }

pub get_function_lem :
    (file fun : Text) (w : Serializer)
    → IsSound w
    → FunctionFound (function_key file fun) w (get_function file fun w)
unfolding get_function
get_function_lem file fun w v = elim (Option-cases (find (function_key file fun) w.functions)) [
  | inl e ↦ rw (e, get_function) (add_function_lem file fun w v)
  | inr (f, e) ↦
      let (d, h) = find-get_elem (function_key file fun) f w.functions e in
      rw (e, get_function)
        (record {
          sound = v;
          keeps = KeepsAll-refl w;
          same_locations = refl;
          place = d;
          has_function = h;
        })
]

-- What `getLocation` gives.
pub record LocationFound (key : Text) (w : Serializer) (r : Location × Serializer) : Type 0 where
  pub sound : IsSound r.1
  pub keeps : KeepsAll w r.1
  pub place : ℕ
  pub has_location : get_elem? r.1.locations place ≡ some (key, r.0)

add_location_lem :
    (file fun : Text) (line : ℕ) (w : Serializer)
    → IsSound w
    → LocationFound (location_key file fun line) w (add_location file fun line w)
unfolding add_location
add_location_lem file fun line w v =
    let key = location_key file fun line in
    let r = get_function_lem file fun w v in
    let (f, found) = get_function file fun w in
    let l = (add_location file fun line w).0 in
    record {
      sound = record {
        strings = r.sound.strings;
        functions = r.sound.functions;
        locations =
            AreLocated-append found.functions found.locations key l r.sound.locations
              (ap (λ ls. length ls + 1) (sym r.same_locations))
              (record {
                place = r.place;
                function_name = function_key file fun;
                function = f;
                line = line;
                has_function = r.has_function;
                same_id = refl;
                same_line = refl;
                key_of = refl;
              });
      };
      keeps = record {
        strings = r.keeps.strings;
        functions = r.keeps.functions;
        locations =
            λ d x h. append-Keeps found.locations ((key, l) ∷ []) d x (r.keeps.locations d x h);
      };
      place = length found.locations;
      has_location = get_elem-last found.locations (key, l);
    }

pub get_location_lem :
    (file fun : Text) (line : ℕ) (w : Serializer)
    → IsSound w
    → LocationFound (location_key file fun line) w (get_location file fun line w)
unfolding get_location
get_location_lem file fun line w v =
    elim (Option-cases (find (location_key file fun line) w.locations)) [
      | inl e ↦ rw (e, get_location) (add_location_lem file fun line w v)
      | inr (l, e) ↦
          let (d, h) = find-get_elem (location_key file fun line) l w.locations e in
          rw (e, get_location)
            (record { sound = v; keeps = KeepsAll-refl w; place = d; has_location = h })
    ]
