-- ===== src/Tracing/Snapshots/Propagator.antt =====
-- SnapshotPropagator of src/tracing/snapshots/SnapshotPropagator.ts. The contexts and baggage of
-- the OpenTelemetry API are an interface.
use splunk_otel_js.Common.{
  String, Bool, true, false, not, ◌||◌, Option, none, some, ◌≡◌, ◌≢◌, refl, sym, ap, ◌∙◌, arith,
  ◌===◌, string_eq, option_eq, if◌then◌else◌, Bool-cases, inl, inr, ℕ,
}

-- What the propagator calls, with the documented laws that the code relies on. `trace_id` is the
-- trace of the span in a context; `sampled` is the decision of the ratio sampler for a trace.
pub record Api : Type 1 where
  pub Context : Type 0
  pub Baggage : Type 0
  pub trace_id : Context → Option ℕ
  pub get_baggage : Context → Option Baggage
  pub set_baggage : Context → Baggage → Context
  pub create_baggage : String → String → Baggage
  pub get_entry : Baggage → String → Option String
  pub set_entry : Baggage → String → String → Baggage
  pub sampled : ℕ → Bool
  pub get-set : (c : Context) (b : Baggage) → get_baggage (set_baggage c b) ≡ some b
  pub get-create : (k v : String) → get_entry (create_baggage k v) k ≡ some v
  pub get-set_entry : (b : Baggage) (k v : String) → get_entry (set_entry b k v) k ≡ some v
  pub get-create_other : (k l v : String) → l ≢ k → get_entry (create_baggage k v) l ≡ none
  pub get-set_other :
      (b : Baggage) (k l v : String) → l ≢ k → get_entry (set_entry b k v) l ≡ get_entry b l

abbrev pub volume_baggage_key : String
volume_baggage_key = "splunk.trace.snapshot.volume"

module _ (api : Api) where
  open api use {
    Context, Baggage, trace_id, get_baggage, set_baggage, create_baggage, get_entry, set_entry,
    sampled, get-set, get-create, get-create_other, get-set_entry, get-set_other,
  }

  abbrev pub extend_baggage : Option Baggage → String → Baggage
  extend_baggage none value = create_baggage volume_baggage_key value
  extend_baggage (some b) value = set_entry b volume_baggage_key value

  abbrev pub volume_of : Bool → String
  volume_of selected = if selected then "highest" else "off"

  unfoldable pub with_volume_baggage : Context → Bool → Context
  with_volume_baggage c selected =
      set_baggage c (extend_baggage (get_baggage c) (volume_of selected))

  -- Whether a context is selected; `drawn` is whether the random number is below the rate.
  abbrev pub decision : Bool → Option ℕ → Bool
  decision drawn none = drawn
  decision drawn (some t) = sampled t

  -- `attachVolumeBaggage`.
  unfoldable pub attach_volume_baggage : Bool → Context → Context
  unfolding with_volume_baggage
  attach_volume_baggage drawn c = with_volume_baggage c (decision drawn (trace_id c))

  abbrev pub is_decided : Option String → Bool
  is_decided v = v === some "highest" || v === some "off"

  abbrev pub extract_from : Bool → Context → Option Baggage → Context
  unfolding attach_volume_baggage
  extract_from drawn c none = attach_volume_baggage drawn c
  extract_from drawn c (some b) =
      if is_decided (get_entry b volume_baggage_key) then c else attach_volume_baggage drawn c

  -- `extract`, given whether the profiler is active.
  unfoldable pub extract : Bool → Bool → Context → Context
  unfolding extract_from
  extract active drawn c = if not active then c else extract_from drawn c (get_baggage c)

  -- What a context carries for a key.
  abbrev pub entry_in : Option Baggage → String → Option String
  entry_in none k = none
  entry_in (some b) k = get_entry b k

  abbrev pub entry : Context → String → Option String
  entry c k = entry_in (get_baggage c) k

  extend_same :
      (o : Option Baggage) (v : String)
      → entry_in (some (extend_baggage o v)) volume_baggage_key ≡ some v
  extend_same none v = get-create volume_baggage_key v
  extend_same (some b) v = get-set_entry b volume_baggage_key v

  extend_other :
      (o : Option Baggage) (v l : String)
      → l ≢ volume_baggage_key
      → entry_in (some (extend_baggage o v)) l ≡ entry_in o l
  extend_other none v l n = get-create_other volume_baggage_key l v n
  extend_other (some b) v l n = get-set_other b volume_baggage_key l v n

  entry-with_volume :
      (c : Context) (selected : Bool)
      → entry (with_volume_baggage c selected) volume_baggage_key ≡ some (volume_of selected)
  unfolding with_volume_baggage
  entry-with_volume c selected =
      ap (λ o. entry_in o volume_baggage_key) (get-set c _)
      ∙ extend_same (get_baggage c) (volume_of selected)

  entry-with_other :
      (c : Context) (selected : Bool) (l : String)
      → l ≢ volume_baggage_key
      → entry (with_volume_baggage c selected) l ≡ entry c l
  unfolding with_volume_baggage
  entry-with_other c selected l n =
      ap (λ o. entry_in o l) (get-set c _) ∙ extend_other (get_baggage c) (volume_of selected) l n

  extract_from_lem :
      (drawn : Bool) (c : Context) (o : Option Baggage)
      → extract_from drawn c o
        ≡ (if is_decided (entry_in o volume_baggage_key) then c else attach_volume_baggage drawn c)
  unfolding extract_from
  extract_from_lem drawn c none = refl
  extract_from_lem drawn c (some b) = refl

  extract_lem :
      (active drawn : Bool) (c : Context)
      → extract active drawn c ≡ (
          if not active || is_decided (entry c volume_baggage_key)
          then c
          else with_volume_baggage c (decision drawn (trace_id c)))
  unfolding extract attach_volume_baggage
  extract_lem false drawn c = refl
  extract_lem true drawn c = extract_from_lem drawn c (get_baggage c)

  kept_lem :
      (active drawn : Bool) (c : Context)
      → (not active || is_decided (entry c volume_baggage_key)) ≡ true
      → extract active drawn c ≡ c
  kept_lem active drawn c e = extract_lem active drawn c ∙ rw e

  made_lem :
      (active drawn : Bool) (c : Context)
      → (not active || is_decided (entry c volume_baggage_key)) ≡ false
      → extract active drawn c ≡ with_volume_baggage c (decision drawn (trace_id c))
  made_lem active drawn c e = extract_lem active drawn c ∙ rw e

  -- An active propagator keeps a decision that was made upstream, and else makes one, by the trace
  -- if there is one and by the number drawn if not; one that is not active keeps whatever there is.
  entry-extract :
      (active drawn : Bool) (c : Context)
      → entry (extract active drawn c) volume_baggage_key ≡ (
          if not active || is_decided (entry c volume_baggage_key)
          then entry c volume_baggage_key
          else some (volume_of (decision drawn (trace_id c))))
  entry-extract active drawn c =
      elim (Bool-cases (not active || is_decided (entry c volume_baggage_key))) [
        | inl kept ↦ ap (λ d. entry d volume_baggage_key) (kept_lem active drawn c kept) ∙ rw kept
        | inr made ↦
            ap (λ d. entry d volume_baggage_key) (made_lem active drawn c made)
            ∙ (entry-with_volume c (decision drawn (trace_id c)) ∙ rw made)
      ]

  -- The other entries of the baggage are kept.
  pub entry-extract_other :
      (active drawn : Bool) (c : Context) (l : String)
      → l ≢ volume_baggage_key
      → entry (extract active drawn c) l ≡ entry c l
  entry-extract_other active drawn c l n =
      elim (Bool-cases (not active || is_decided (entry c volume_baggage_key))) [
        | inl kept ↦ ap (λ d. entry d l) (kept_lem active drawn c kept)
        | inr made ↦
            ap (λ d. entry d l) (made_lem active drawn c made)
            ∙ entry-with_other c (decision drawn (trace_id c)) l n
      ]

  decided : (selected : Bool) → is_decided (some (volume_of selected)) ≡ true
  decided true = refl
  decided false = refl

  -- To extract once more, with whatever number is drawn, changes nothing.
  extract_idempotent :
      (active drawn again : Bool) (c : Context)
      → extract active again (extract active drawn c) ≡ extract active drawn c
  extract_idempotent active drawn again c =
      elim (Bool-cases (not active || is_decided (entry c volume_baggage_key))) [
        | inl kept ↦
            ap (extract active again) (kept_lem active drawn c kept)
            ∙ (kept_lem active again c kept ∙ sym (kept_lem active drawn c kept))
        | inr made ↦ kept_lem active again (extract active drawn c) (
            ground (
              arith,
              ap is_decided (
                  ap (λ d. entry d volume_baggage_key) (made_lem active drawn c made)
                  ∙ entry-with_volume c (decision drawn (trace_id c))),
              decided (decision drawn (trace_id c)),
            ))
      ]
