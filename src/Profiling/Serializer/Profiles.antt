-- ===== src/Profiling/Serializer/Profiles.antt =====
-- The profile that src/profiling/utils.ts makes of the stack traces of a CPU profile.
use splunk_otel_js.Common.{
  ℕ, Option, none, some, List, [], ◌∷◌, Text, codes, ◌≡◌, refl, subst, inl, inr, nat_eq, list_eq,
  find, find-append_one, Option-cases,
}
use splunk_otel_js.Profiling.Serializer.{
  Table, get_index, new_table, Function, Serializer, function_key, add_function, get_function,
  Stacktrace, LabelKeys, id_label, sample, samples, label_keys, serialize_cpu_profile,
}
use splunk_otel_js.Profiling.Serializer.Tables.{
  IsIndexed, get_index_lem, IsSound, KeepsAll, AreNamed-Keeps,
}
use splunk_otel_js.Profiling.Serializer.Lookups.{KeepsAll-refl}
use splunk_otel_js.Profiling.Serializer.Resolution.{
  SamplesResolve, AllEntered, SamplesEntered, AllEntered-KeepsAll, SamplesEntered-Resolve,
  KeepsAll-trans, location_ids_lem,
}

id_label_lem :
    (key : ℕ) (o : Option Text) (w : Serializer)
    → IsSound w
    → IsSound (id_label key o w).1 × KeepsAll w (id_label key o w).1
unfolding id_label
id_label_lem key none w v = (v, KeepsAll-refl w)
id_label_lem key (some id) w v =
    let (indexed, has, kept) = get_index_lem id w.strings v.strings in
    (
      record {
        strings = indexed;
        functions = AreNamed-Keeps w.strings _ w.functions kept v.functions;
        locations = v.locations;
      },
      record { strings = kept; functions = λ d x h. h; locations = λ d x h. h },
    )

sample_lem :
    (k : LabelKeys) (s : Stacktrace) (w : Serializer)
    → IsSound w
    → let (made, after) = sample k s w in
      IsSound after × KeepsAll w after × AllEntered after made.location_ids s.frames
unfolding sample
sample_lem k s w v =
    let (v1, k1) = id_label_lem k.trace_id s.trace_id w v in
    let traced = (id_label k.trace_id s.trace_id w).1 in
    let (v2, k2) = id_label_lem k.span_id s.span_id traced v1 in
    let spanned = (id_label k.span_id s.span_id traced).1 in
    let (v3, k3, es) = location_ids_lem s.frames spanned v2 in
    (v3, KeepsAll-trans w traced _ k1 (KeepsAll-trans traced spanned _ k2 k3), es)

samples_lem :
    (k : LabelKeys) (ss : List Stacktrace) (w : Serializer)
    → IsSound w
    → let (made, after) = samples k ss w in
      IsSound after × KeepsAll w after × SamplesEntered after made ss
unfolding samples
samples_lem k [] w v = (v, KeepsAll-refl w, tt)
samples_lem k (s ∷ ss) w v =
    let (v1, k1, es) = sample_lem k s w v in
    let (m, next) = sample k s w in
    let (v2, k2, rest) = samples_lem k ss next v1 in
    (
      v2,
      KeepsAll-trans w next _ k1 k2,
      (AllEntered-KeepsAll next _ m.location_ids s.frames k2 es, rest),
    )

pub new_table-IsIndexed : IsIndexed new_table
unfolding new_table get_index
new_table-IsIndexed = (get_index_lem [] [] (λ d s i h. cc h)).0

label_keys-IsIndexed : (period : ℕ) (t : Table) → IsIndexed t → IsIndexed (label_keys period t).1
unfolding label_keys
label_keys-IsIndexed period t v =
    let (v1, _, _) = get_index_lem (codes "source.event.time") t v in
    let t1 = (get_index (codes "source.event.time") t).1 in
    let (v2, _, _) = get_index_lem (codes "trace_id") t1 v1 in
    let t2 = (get_index (codes "trace_id") t1).1 in
    let (v3, _, _) = get_index_lem (codes "span_id") t2 v2 in
    let t3 = (get_index (codes "span_id") t2).1 in
    (get_index_lem (codes "source.event.period") t3 v3).0

-- The profile of any stack traces has a sample for each, in their order, and a location id for each
-- frame, in their order. Each id stands for a location with a line and a function in the tables of
-- the profile, whose names, written out with the line, are the frame's.
pub serialize_cpu_profile-SamplesResolve :
    (period : ℕ) (stacktraces : List Stacktrace)
    → let (made, tables) = serialize_cpu_profile period stacktraces in
      SamplesResolve tables made stacktraces
unfolding serialize_cpu_profile
serialize_cpu_profile-SamplesResolve period stacktraces =
    let (k, strings) = label_keys period new_table in
    let start : Serializer = record { strings = strings; locations = []; functions = [] } in
    let (sound, _, es) = samples_lem k stacktraces start (record {
      strings = label_keys-IsIndexed period new_table new_table-IsIndexed;
      functions = λ d key f h. cc h;
      locations = λ d key l h. cc h;
    }) in
    SamplesEntered-Resolve _ _ stacktraces sound es

get_function_found :
    (file fun : Text) (f : Function) (w : Serializer)
    → find (function_key file fun) w.functions ≡ some f
    → get_function file fun w ≡ (f, w)
unfolding get_function
get_function_found file fun f w e = rw (e, get_function) refl

find-get_function :
    (file fun : Text) (w : Serializer)
    → find (function_key file fun) (get_function file fun w).1.functions
      ≡ some (get_function file fun w).0
unfolding get_function add_function
find-get_function file fun w = elim (Option-cases (find (function_key file fun) w.functions)) [
  | inl e ↦
      rw (e, get_function)
        (find-append_one (function_key file fun) (add_function file fun w).0 w.functions e)
  | inr (f, e) ↦ rw (e, get_function) e
]

-- Two functions whose file and name, written with a colon between, are the same text are one
-- function of the profile: the second is shown under the names of the first.
get_function_same_key :
    (file fun other_file other_fun : Text) (w : Serializer)
    → function_key file fun ≡ function_key other_file other_fun
    → let (f, after) = get_function file fun w in
      get_function other_file other_fun after ≡ (f, after)
get_function_same_key file fun other_file other_fun w same =
    let (f, after) = get_function file fun w in
    get_function_found other_file other_fun f after
      (subst (λ k. find k after.functions ≡ some f) same (find-get_function file fun w))
