-- ===== src/Profiling/Serializer.antt =====
-- The serializer of CPU profiles in src/profiling/utils.ts: StringTable, and the tables of functions
-- and locations of Serializer. A text is a list of UTF-16 code units; line numbers and times are
-- not negative. The encoding to pprof bytes is generated code.
pub mod Tables
pub mod Lookups
pub mod Resolution
pub mod Profiles
pub mod Heap
pub mod HeapProfiles
use splunk_otel_js.Common.{
  ℕ, zero, suc, ◌+◌, ◌/◌, ◌%◌, ◌<◌, Option, none, some, List, [], ◌∷◌, ◌++◌, Text, codes, decimal,
  ltb, ◌==◌, if◌then◌else◌, nat_eq, list_eq, length, find, ℤ, pos, negsuc,
}

-- `_stringMap` of StringTable.
abbrev pub Table : Type 0
Table = List (Text × ℕ)

unfoldable pub get_index : Text → Table → ℕ × Table
get_index s t = elim (find s t) [ some i ↦ (i, t) | none ↦ (length t, t ++ (s, length t) ∷ []) ]

-- `serialize` of StringTable.
abbrev pub keys : Table → List Text
keys [] = []
keys ((k, i) ∷ t) = k ∷ keys t

-- The constructor of StringTable.
unfoldable pub new_table : Table
unfolding get_index
new_table = (get_index [] []).1

-- The messages of pprof that the serializer makes. `name` is the system name too.
pub record Function : Type 0 where
  pub id : ℕ
  pub name : ℕ
  pub filename : ℕ

-- A location has one line.
pub record Location : Type 0 where
  pub id : ℕ
  pub function_id : ℕ
  pub line : ℤ

pub record Serializer : Type 0 where
  pub strings : Table
  pub locations : List (Text × Location)
  pub functions : List (Text × Function)

abbrev pub function_key : Text → Text → Text
function_key file fun = file ++ b':' ∷ fun

abbrev pub location_key : Text → Text → ℕ → Text
location_key file fun line = function_key file fun ++ b':' ∷ decimal line

abbrev pub shown_line : ℕ → ℤ
shown_line n = if n == 0 then negsuc 0 else pos n

-- The part of `getFunction` for a function that is not in the table.
unfoldable pub add_function : Text → Text → Serializer → Function × Serializer
add_function file fun w =
    let (name, named) = get_index fun w.strings in
    let (filename, strings) = get_index file named in
    let f : Function = record { id = length w.functions + 1; name = name; filename = filename } in
    (f, record w { strings = strings; functions = w.functions ++ (function_key file fun, f) ∷ [] })

-- `getFunction`.
unfoldable pub get_function : Text → Text → Serializer → Function × Serializer
unfolding add_function
get_function file fun w = elim (find (function_key file fun) w.functions) [
  | some f ↦ (f, w)
  | none ↦ add_function file fun w
]

-- The part of `getLocation` for a location that is not in the table, with `getLine`.
unfoldable pub add_location : Text → Text → ℕ → Serializer → Location × Serializer
add_location file fun line w =
    let (f, found) = get_function file fun w in
    let l : Location = record {
      id = length w.locations + 1;
      function_id = f.id;
      line = shown_line line;
    } in
    (l, record found { locations = found.locations ++ (location_key file fun line, l) ∷ [] })

-- `getLocation`.
unfoldable pub get_location : Text → Text → ℕ → Serializer → Location × Serializer
unfolding add_location
get_location file fun line w = elim (find (location_key file fun line) w.locations) [
  | some l ↦ (l, w)
  | none ↦ add_location file fun line w
]

-- A stack trace: its frames (file, function and line), its time, and the ids in hexadecimal.
pub record Frame : Type 0 where
  pub file : Text
  pub fun : Text
  pub line : ℕ

pub record Stacktrace : Type 0 where
  pub frames : List Frame
  pub timestamp : ℕ
  pub trace_id : Option Text
  pub span_id : Option Text

-- A label has a number or the index of a string.
pub data LabelValue : Type 0 where
  num str : ℕ → LabelValue

pub record Sample : Type 0 where
  pub location_ids : List ℕ
  pub labels : List (ℕ × LabelValue)

-- The ids of the locations of the frames of a stack trace.
unfoldable pub location_ids : List Frame → Serializer → List ℕ × Serializer
location_ids [] w = ([], w)
location_ids (f ∷ fs) w =
    let (l, found) = get_location f.file f.fun f.line w in
    let (ids, rest) = location_ids fs found in (l.id ∷ ids, rest)

-- The label of an id, if there is one.
unfoldable pub id_label : ℕ → Option Text → Serializer → List (ℕ × LabelValue) × Serializer
id_label key none w = ([], w)
id_label key (some id) w =
    let (i, strings) = get_index id w.strings in
    ((key, LabelValue.str i) ∷ [], record w { strings = strings })

-- The keys of the labels, `STR`, and the sampling period.
pub record LabelKeys : Type 0 where
  pub timestamp : ℕ
  pub trace_id : ℕ
  pub span_id : ℕ
  pub source_event_period : ℕ
  pub period : ℕ

unfoldable pub sample : LabelKeys → Stacktrace → Serializer → Sample × Serializer
sample k s w =
    let (trace, traced) = id_label k.trace_id s.trace_id w in
    let (span, spanned) = id_label k.span_id s.span_id traced in
    let (ids, located) = location_ids s.frames spanned in
    (
      record {
        location_ids = ids;
        labels =
            (k.timestamp, LabelValue.num (s.timestamp / 1_000_000))
            ∷ (k.source_event_period, LabelValue.num k.period)
            ∷ (trace ++ span);
      },
      located,
    )

unfoldable pub samples : LabelKeys → List Stacktrace → Serializer → List Sample × Serializer
samples k [] w = ([], w)
samples k (s ∷ ss) w =
    let (made, next) = sample k s w in let (rest, done) = samples k ss next in (made ∷ rest, done)

unfoldable pub label_keys : ℕ → Table → LabelKeys × Table
label_keys period t =
    let (time, t1) = get_index (codes "source.event.time") t in
    let (trace, t2) = get_index (codes "trace_id") t1 in
    let (span, t3) = get_index (codes "span_id") t2 in
    let (event_period, t4) = get_index (codes "source.event.period") t3 in
    (
      record {
        timestamp = time;
        trace_id = trace;
        span_id = span;
        source_event_period = event_period;
        period = period;
      },
      t4,
    )

-- `serializeCpuProfile` on a new serializer: the samples, and the serializer, whose tables are the
-- other parts of the profile.
unfoldable pub serialize_cpu_profile : ℕ → List Stacktrace → List Sample × Serializer
serialize_cpu_profile period stacktraces =
    let (k, strings) = label_keys period new_table in
    samples k stacktraces (record { strings = strings; locations = []; functions = [] })
