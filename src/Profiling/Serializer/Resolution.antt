-- ===== src/Profiling/Serializer/Resolution.antt =====
-- What the ids in a serialized CPU profile (src/profiling/utils.ts) stand for.
use splunk_otel_js.Common.{
  decimal, ℕ, ◌+◌, some, List, [], ◌∷◌, ◌++◌, Text, ◌≡◌, refl, sym, ◌∙◌, ap, nat_eq, list_eq,
  get_elem?,
}
use splunk_otel_js.Profiling.Serializer.{
  keys, Function, Location, Serializer, location_key, shown_line, get_location, Frame, Stacktrace,
  Sample, location_ids,
}
use splunk_otel_js.Profiling.Serializer.Tables.{keys-HasString, IsSound, KeepsAll}
use splunk_otel_js.Profiling.Serializer.Lookups.{get_location_lem, KeepsAll-refl}

-- An id stands for a location with a function and a line, all in the tables of the profile; its file
-- name and function name are strings of the profile, and written together with the line they are the
-- frame's.
pub record Resolves (w : Serializer) (id : ℕ) (frame : Frame) : Type 0 where
  pub place : ℕ
  pub location_name : Text
  pub location : Location
  pub has_location : get_elem? w.locations place ≡ some (location_name, location)
  pub same_place : id ≡ place + 1
  pub same_location : location.id ≡ id
  pub function_place : ℕ
  pub function_name : Text
  pub function : Function
  pub has_function : get_elem? w.functions function_place ≡ some (function_name, function)
  pub same_function_place : function.id ≡ function_place + 1
  pub same_function : location.function_id ≡ function.id
  pub file : Text
  pub fun : Text
  pub line : ℕ
  pub has_file : get_elem? (keys w.strings) function.filename ≡ some file
  pub has_fun : get_elem? (keys w.strings) function.name ≡ some fun
  pub same_line : location.line ≡ shown_line line
  pub same_key : location_key file fun line ≡ location_key frame.file frame.fun frame.line

abbrev pub AllResolve : Serializer → List ℕ → List Frame → Type 0
AllResolve w [] [] = Unit
AllResolve w (id ∷ ids) (f ∷ fs) = Resolves w id f × AllResolve w ids fs
AllResolve w _ _ = ⊥

abbrev pub SamplesResolve : Serializer → List Sample → List Stacktrace → Type 0
SamplesResolve w [] [] = Unit
SamplesResolve w (m ∷ ms) (s ∷ ss) = AllResolve w m.location_ids s.frames × SamplesResolve w ms ss
SamplesResolve w _ _ = ⊥

-- An id is that of an entry under the key of a frame.
pub record Entered (w : Serializer) (id : ℕ) (frame : Frame) : Type 0 where
  pub place : ℕ
  pub location : Location
  pub has_location :
      get_elem? w.locations place ≡ some (location_key frame.file frame.fun frame.line, location)
  pub same_id : location.id ≡ id

abbrev pub AllEntered : Serializer → List ℕ → List Frame → Type 0
AllEntered w [] [] = Unit
AllEntered w (id ∷ ids) (f ∷ fs) = Entered w id f × AllEntered w ids fs
AllEntered w _ _ = ⊥

abbrev pub SamplesEntered : Serializer → List Sample → List Stacktrace → Type 0
SamplesEntered w [] [] = Unit
SamplesEntered w (m ∷ ms) (s ∷ ss) = AllEntered w m.location_ids s.frames × SamplesEntered w ms ss
SamplesEntered w _ _ = ⊥

Entered-KeepsAll :
    (v w : Serializer) (id : ℕ) (f : Frame) → KeepsAll v w → Entered v id f → Entered w id f
Entered-KeepsAll v w id f k e = record {
  place = e.place;
  location = e.location;
  has_location = k.locations _ _ e.has_location;
  same_id = e.same_id;
}

pub AllEntered-KeepsAll :
    (v w : Serializer) (ids : List ℕ) (fs : List Frame)
    → KeepsAll v w
    → AllEntered v ids fs
    → AllEntered w ids fs
AllEntered-KeepsAll v w [] [] k e = tt
AllEntered-KeepsAll v w (id ∷ ids) (f ∷ fs) k (e, es) =
    (Entered-KeepsAll v w id f k e, AllEntered-KeepsAll v w ids fs k es)
AllEntered-KeepsAll v w [] (f ∷ fs) k e = absurd e
AllEntered-KeepsAll v w (id ∷ ids) [] k e = absurd e

Entered-Resolves :
    (w : Serializer) (id : ℕ) (f : Frame) → IsSound w → Entered w id f → Resolves w id f
Entered-Resolves w id f v e =
    let (i, l) = v.locations e.place _ e.location e.has_location in
    let (j, n) = v.functions l.place l.function_name l.function l.has_function in
    record {
      place = e.place;
      location_name = location_key f.file f.fun f.line;
      location = e.location;
      has_location = e.has_location;
      same_place = sym e.same_id ∙ i;
      same_location = e.same_id;
      function_place = l.place;
      function_name = l.function_name;
      function = l.function;
      has_function = l.has_function;
      same_function_place = j;
      same_function = l.same_id;
      file = n.file;
      fun = n.fun;
      line = l.line;
      has_file = keys-HasString w.strings l.function.filename n.file n.has_file;
      has_fun = keys-HasString w.strings l.function.name n.fun n.has_fun;
      same_line = l.same_line;
      same_key = ap (λ k. k ++ b':' ∷ decimal l.line) n.key_of ∙ l.key_of;
    }

pub AllEntered-Resolve :
    (w : Serializer) (ids : List ℕ) (fs : List Frame)
    → IsSound w
    → AllEntered w ids fs
    → AllResolve w ids fs
AllEntered-Resolve w [] [] v e = tt
AllEntered-Resolve w (id ∷ ids) (f ∷ fs) v (e, es) =
    (Entered-Resolves w id f v e, AllEntered-Resolve w ids fs v es)
AllEntered-Resolve w [] (f ∷ fs) v e = absurd e
AllEntered-Resolve w (id ∷ ids) [] v e = absurd e

pub SamplesEntered-Resolve :
    (w : Serializer) (ms : List Sample) (ss : List Stacktrace)
    → IsSound w
    → SamplesEntered w ms ss
    → SamplesResolve w ms ss
SamplesEntered-Resolve w [] [] v e = tt
SamplesEntered-Resolve w (m ∷ ms) (s ∷ ss) v (e, es) =
    (AllEntered-Resolve w m.location_ids s.frames v e, SamplesEntered-Resolve w ms ss v es)
SamplesEntered-Resolve w [] (s ∷ ss) v e = absurd e
SamplesEntered-Resolve w (m ∷ ms) [] v e = absurd e

pub KeepsAll-trans : (u v w : Serializer) → KeepsAll u v → KeepsAll v w → KeepsAll u w
KeepsAll-trans u v w j k = record {
  strings = λ d x h. k.strings d x (j.strings d x h);
  functions = λ d x h. k.functions d x (j.functions d x h);
  locations = λ d x h. k.locations d x (j.locations d x h);
}

pub location_ids_lem :
    (fs : List Frame) (w : Serializer)
    → IsSound w
    → let (ids, after) = location_ids fs w in
      IsSound after × KeepsAll w after × AllEntered after ids fs
unfolding location_ids
location_ids_lem [] w v = (v, KeepsAll-refl w, tt)
location_ids_lem (f ∷ fs) w v =
    let r = get_location_lem f.file f.fun f.line w v in
    let (l, found) = get_location f.file f.fun f.line w in
    let (sound, keeps, es) = location_ids_lem fs found r.sound in
    (
      sound,
      KeepsAll-trans w found _ r.keeps keeps,
      (
        Entered-KeepsAll found _ l.id f keeps (record {
          place = r.place;
          location = l;
          has_location = r.has_location;
          same_id = refl;
        }),
        es,
      ),
    )
