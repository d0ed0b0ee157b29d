-- ===== src/Profiling/Serializer/HeapProfiles.antt =====
-- The profile that src/profiling/utils.ts makes of a heap profile.
use splunk_otel_js.Common.{ℕ, ◌<◌, some, List, [], ◌∷◌, codes, ◌≡◌, refl, ap, All}
use splunk_otel_js.Profiling.Serializer.{get_index, new_table, Serializer, LabelValue, location_ids}
use splunk_otel_js.Profiling.Serializer.Tables.{IsSound, KeepsAll, get_index_lem}
use splunk_otel_js.Profiling.Serializer.Lookups.{KeepsAll-refl}
use splunk_otel_js.Profiling.Serializer.Resolution.{
  AllResolve, AllEntered, AllEntered-KeepsAll, AllEntered-Resolve, KeepsAll-trans, location_ids_lem,
}
use splunk_otel_js.Profiling.Serializer.Profiles.{new_table-IsIndexed}
use splunk_otel_js.Profiling.Serializer.Heap.{
  Tree, AllocationSample, HeapSample, climb_lem, cons_sample, heap_samples, serialize_heap_profile,
  ancestors, IsRooted,
}

-- The samples are those of the profile in their order, each with its size and, for the frames from
-- its node up, ids that resolve.
abbrev pub HeapResolves : ℕ → Tree → Serializer → List HeapSample → List AllocationSample → Type 0
HeapResolves fuel tree w [] [] = Unit
HeapResolves fuel tree w (m ∷ ms) (s ∷ ss) =
    (m.value ≡ s.size)
    × AllResolve w m.location_ids (ancestors fuel tree s.node_id)
    × HeapResolves fuel tree w ms ss
HeapResolves fuel tree w _ _ = ⊥

abbrev HeapEntered : ℕ → Tree → Serializer → List HeapSample → List AllocationSample → Type 0
HeapEntered fuel tree w [] [] = Unit
HeapEntered fuel tree w (m ∷ ms) (s ∷ ss) =
    (m.value ≡ s.size)
    × AllEntered w m.location_ids (ancestors fuel tree s.node_id)
    × HeapEntered fuel tree w ms ss
HeapEntered fuel tree w _ _ = ⊥

HeapEntered-Resolves :
    (fuel : ℕ) (tree : Tree) (w : Serializer) (ms : List HeapSample) (ss : List AllocationSample)
    → IsSound w
    → HeapEntered fuel tree w ms ss
    → HeapResolves fuel tree w ms ss
HeapEntered-Resolves fuel tree w [] [] v e = tt
HeapEntered-Resolves fuel tree w (m ∷ ms) (s ∷ ss) v (z, e, es) =
    (z, AllEntered-Resolve w _ _ v e, HeapEntered-Resolves fuel tree w ms ss v es)
HeapEntered-Resolves fuel tree w [] (s ∷ ss) v e = absurd e
HeapEntered-Resolves fuel tree w (m ∷ ms) [] v e = absurd e

heap_samples_lem :
    (fuel : ℕ) (label : ℕ × LabelValue) (tree : Tree) (depth : ℕ → ℕ) (ss : List AllocationSample)
    (w : Serializer)
    → IsRooted tree depth
    → All (λ (s : AllocationSample). depth s.node_id < fuel) ss
    → IsSound w
    → (made : List HeapSample) × (after : Serializer) × (heap_samples fuel label tree ss w
        ≡ some (made, after))
      × IsSound after
      × KeepsAll w after
      × HeapEntered fuel tree after made ss
unfolding heap_samples
heap_samples_lem fuel label tree depth [] w r h v = ([], w, refl, v, KeepsAll-refl w, tt)
heap_samples_lem fuel label tree depth (s ∷ ss) w r (h, hs) v =
    let frames = ancestors fuel tree s.node_id in
    let (sound, keeps, es) = location_ids_lem frames w v in
    let (path, next) = location_ids frames w in
    let (made, after, e, v', k', rest) =
      heap_samples_lem fuel label tree depth ss next r hs sound in
    let m : HeapSample = record { location_ids = path; value = s.size; label = label } in
    (
      m ∷ made,
      after,
      rw (climb_lem fuel tree depth s.node_id w r h, heap_samples) (ap (cons_sample m) e),
      v',
      KeepsAll-trans w next after keeps k',
      (refl, AllEntered-KeepsAll next after path frames k' es, rest),
    )

-- If every node is deeper than its parent and there is fuel for the depth of each sample's node, the
-- serializer gives a profile; it has the samples in their order, each with its size and one location
-- id for each node from its own up, and each id resolves in the tables of the profile to names and a
-- line that, written out, are the node's.
pub serialize_heap_profile-HeapResolves :
    (fuel timestamp : ℕ) (tree : Tree) (depth : ℕ → ℕ) (ss : List AllocationSample)
    → IsRooted tree depth
    → All (λ (s : AllocationSample). depth s.node_id < fuel) ss
    → (made : List HeapSample) × (tables : Serializer) × (serialize_heap_profile fuel timestamp tree
          ss
        ≡ some (made, tables))
      × HeapResolves fuel tree tables made ss
unfolding serialize_heap_profile
serialize_heap_profile-HeapResolves fuel timestamp tree depth ss r h =
    let (indexed, _, _) = get_index_lem (codes "source.event.time") new_table new_table-IsIndexed in
    let (time, strings) = get_index (codes "source.event.time") new_table in
    let (made, tables, e, v, _, es) =
      heap_samples_lem fuel (time, LabelValue.num timestamp) tree depth ss
        (record { strings = strings; locations = []; functions = [] }) r h
        (record {
          strings = indexed;
          functions = λ d key f h. cc h;
          locations = λ d key l h. cc h;
        }) in
    (made, tables, e, HeapEntered-Resolves fuel tree tables made ss v es)
