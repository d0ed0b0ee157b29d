-- ===== src/Profiling/Serializer/Heap.antt =====
-- `serializeHeapProfile` of src/profiling/utils.ts. The tree maps the ids of nodes to nodes. The loop
-- that climbs it is on fuel; a climb that runs out of it gives nothing.
use splunk_otel_js.Common.{
  ℕ, zero, suc, ◌<◌, Option, none, some, List, [], ◌∷◌, Text, codes, lookup, ◌≡◌, refl, ap, arith,
  Option-cases, inl, inr,
}
use splunk_otel_js.Profiling.Serializer.{
  get_index, new_table, Serializer, Frame, LabelValue, get_location, location_ids,
}

pub record HeapNode : Type 0 where
  pub name : Text
  pub script_name : Text
  pub line_number : ℕ
  pub parent_id : ℕ

pub record AllocationSample : Type 0 where
  pub node_id : ℕ
  pub size : ℕ

abbrev pub Tree : Type 0
Tree = List (ℕ × HeapNode)

abbrev pub frame : HeapNode → Frame
frame n = record { file = n.script_name; fun = n.name; line = n.line_number }

abbrev pub cons_id : ℕ → Option (List ℕ × Serializer) → Option (List ℕ × Serializer)
cons_id id none = none
cons_id id (some (ids, w)) = some (id ∷ ids, w)

-- The `while` loop for a sample.
unfoldable pub climb : ℕ → Tree → ℕ → Serializer → Option (List ℕ × Serializer)
climb zero tree id w = none
climb (suc fuel) tree id w = elim (lookup id tree) [
  | none ↦ some ([], w)
  | some n ↦
      (let (l, found) = get_location n.script_name n.name n.line_number w in
        cons_id l.id (climb fuel tree n.parent_id found))
]

-- A sample of the profile: the path of its node, its size, and the label with the time.
pub record HeapSample : Type 0 where
  pub location_ids : List ℕ
  pub value : ℕ
  pub label : ℕ × LabelValue

abbrev pub cons_sample :
    HeapSample → Option (List HeapSample × Serializer) → Option (List HeapSample × Serializer)
cons_sample s none = none
cons_sample s (some (ss, w)) = some (s ∷ ss, w)

unfoldable pub heap_samples :
    ℕ
    → (ℕ × LabelValue)
    → Tree
    → List AllocationSample
    → Serializer
    → Option (List HeapSample × Serializer)
unfolding climb
heap_samples fuel label tree [] w = some ([], w)
heap_samples fuel label tree (s ∷ ss) w = elim (climb fuel tree s.node_id w) [
  | none ↦ none
  | some (path, after) ↦
      cons_sample (record { location_ids = path; value = s.size; label = label })
        (heap_samples fuel label tree ss after)
]

unfoldable pub serialize_heap_profile :
    ℕ → ℕ → Tree → List AllocationSample → Option (List HeapSample × Serializer)
unfolding heap_samples
serialize_heap_profile fuel timestamp tree samples =
    let (time, strings) = get_index (codes "source.event.time") new_table in
    heap_samples fuel (time, LabelValue.num timestamp) tree samples
      (record { strings = strings; locations = []; functions = [] })

-- The frames from a node up, as far as there is fuel.
abbrev pub ancestors : ℕ → Tree → ℕ → List Frame
ancestors zero tree id = []
ancestors (suc fuel) tree id = elim (lookup id tree) [
  | none ↦ []
  | some n ↦ frame n ∷ ancestors fuel tree n.parent_id
]

-- Every node of the tree is deeper than its parent.
abbrev pub IsRooted : Tree → (ℕ → ℕ) → Type 0
IsRooted tree depth =
    (id : ℕ) (n : HeapNode) → lookup id tree ≡ some n → depth n.parent_id < depth id

pub climb_lem :
    (fuel : ℕ) (tree : Tree) (depth : ℕ → ℕ) (id : ℕ) (w : Serializer)
    → IsRooted tree depth
    → depth id < fuel
    → climb fuel tree id w ≡ some (location_ids (ancestors fuel tree id) w)
unfolding climb location_ids
climb_lem zero tree depth id w r h = absurd (omega arith)
climb_lem (suc fuel) tree depth id w r h = elim (Option-cases (lookup id tree)) [
  | inl e ↦ rw (e, climb, ancestors) refl
  | inr (n, e) ↦
      rw (e, climb, ancestors)
        (ap (cons_id _) (climb_lem fuel tree depth n.parent_id _ r (omega (arith, r id n e))))
]
