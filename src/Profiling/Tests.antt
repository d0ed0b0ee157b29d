-- ===== src/Profiling/Tests.antt =====
-- The theorems on src/profiling at concrete inputs, and tests of the definitions.
use splunk_otel_js.Common.{List, [], ◌∷◌, none, some, codes, decimal, ◌≡◌, refl, map}
use splunk_otel_js.Profiling.Serializer.{
  Stacktrace, Sample, Serializer, get_index, new_table, get_function, add_function, get_location,
  add_location, location_ids, id_label, sample, samples, label_keys, serialize_cpu_profile,
}
use splunk_otel_js.Common.{arith, ==_iff}
use splunk_otel_js.Profiling.Serializer.Heap.{
  AllocationSample, HeapSample, Tree, IsRooted, serialize_heap_profile,
}
use splunk_otel_js.Profiling.Serializer.HeapProfiles.{
  HeapResolves, serialize_heap_profile-HeapResolves,
}
use splunk_otel_js.Profiling.Serializer.Resolution.{SamplesResolve}
use splunk_otel_js.Profiling.Serializer.Profiles.{serialize_cpu_profile-SamplesResolve}

abbrev stacktraces : List Stacktrace
stacktraces =
    record {
      frames =
          record { file = codes "a.js"; fun = codes "f"; line = 12 }
          ∷ record { file = codes "a.js"; fun = codes "g"; line = 0 }
          ∷ [];
      timestamp = 5_000_000;
      trace_id = some (codes "ab");
      span_id = none;
    }
    ∷ record {
      frames = record { file = codes "a.js"; fun = codes "f"; line = 12 } ∷ [];
      timestamp = 6_000_000;
      trace_id = none;
      span_id = none;
    }
    ∷ []

a_number : decimal 1_203 ≡ codes "1203"
a_number = refl

some_ids :
    map (λ (s : Sample). s.location_ids) (serialize_cpu_profile 10 stacktraces).0
    ≡ (1 ∷ 2 ∷ []) ∷ (1 ∷ []) ∷ []
unfolding serialize_cpu_profile samples sample location_ids get_location add_location get_function
    add_function get_index id_label label_keys new_table
some_ids = refl

serialize_cpu_profile-SamplesResolve_example :
    let (made, tables) = serialize_cpu_profile 10 stacktraces in
    SamplesResolve tables made stacktraces
serialize_cpu_profile-SamplesResolve_example = serialize_cpu_profile-SamplesResolve 10 stacktraces

abbrev empty : Serializer
empty = record { strings = new_table; locations = []; functions = [] }

abbrev tree : Tree
tree =
    (1, record { name = codes "root"; script_name = []; line_number = 0; parent_id = 0 })
    ∷ (2, record { name = codes "f"; script_name = codes "a.js"; line_number = 3; parent_id = 1 })
    ∷ []

abbrev allocations : List AllocationSample
allocations = record { node_id = 2; size = 64 } ∷ record { node_id = 1; size = 8 } ∷ []

tree-IsRooted : IsRooted tree (λ id. id)
tree-IsRooted id n e = ground (arith, e, ==_iff id 1, ==_iff id 2)

serialize_heap_profile-HeapResolves_example :
    (made : List HeapSample) × (tables : Serializer) × (serialize_heap_profile 3 7 tree allocations
      ≡ some (made, tables))
    × HeapResolves 3 tree tables made allocations
serialize_heap_profile-HeapResolves_example =
    serialize_heap_profile-HeapResolves 3 7 tree (λ id. id) allocations tree-IsRooted
      (omega arith, (omega arith, tt))
