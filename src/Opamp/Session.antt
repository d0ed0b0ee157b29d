-- ===== src/Opamp/Session.antt =====
-- The life of an OpAMPClient (src/opamp/OpAMPClient.ts): the steps that the event loop can take, in
-- any order. `start` is called once, on a new client, and `stop` at most once, as `startOpAMP` of
-- src/opamp/index.ts and its handle do.
pub mod Handling
pub mod Invariant
pub mod History
pub mod Dedup
pub mod Progress
use mathlib.Core.List.{tail}
use splunk_otel_js.Common.{ℕ, ◌⊎◌, Bool, true, false, Text, Option, some, List, [], ◌∷◌, ◌≡◌, ◌<◌}
use splunk_otel_js.Opamp.RemoteConfig.{Bytes, Libraries}
use splunk_otel_js.Opamp.Client.{Attributes, Timer, World, TransportResult, ApplyResult}
use splunk_otel_js.Opamp.Client.Methods.{
  Env, new_client, start, finish_start, fire, stop, disconnect_ended, apply_settled,
}
use splunk_otel_js.Opamp.Client.Responses.{poll_response}

-- What can happen next.
pub data Event : Type 0 where
  attributes_ready : Attributes → Env → Event
  timer_fired : Timer → Env → Event
  request_ended : TransportResult → ℕ → Event
  apply_ended : ApplyResult → Option Bytes → Event
  stop_called : Event
  disconnect_answered : Event

abbrev pub Among : Timer → List Timer → Type 0
Among t [] = ⊥
Among t (u ∷ ts) = (t ≡ u) ⊎ Among t ts

-- When an event can happen: what it resumes is suspended, or armed.
abbrev pub IsEnabled : World → Event → Type 0
IsEnabled w (attributes_ready _ _) = w.starting ≡ true
IsEnabled w (timer_fired t _) = Among t w.armed
IsEnabled w (request_ended _ _) = 0 < w.requests
IsEnabled w (apply_ended _ hash) = (rest : List (Option Bytes)) × (w.applies ≡ hash ∷ rest)
IsEnabled w stop_called = w.stopping ≡ false
IsEnabled w disconnect_answered = 0 < w.disconnects

module _ (lib : Libraries) where
  unfoldable pub handle : World → Event → World
  handle w (attributes_ready attributes e) = finish_start attributes e w
  handle w (timer_fired t e) = fire t e w
  handle w (request_ended r jitter) = poll_response lib r jitter w
  handle w (apply_ended r hash) = apply_settled r hash (record w { applies = tail w.applies })
  handle w stop_called = stop w
  handle w disconnect_answered = disconnect_ended w

  -- Histories, the last event outermost.
  pub data Reach (w : World) : World → Type 0 where
    here : Reach w w
    next : {v : World} → Reach w v → (e : Event) → IsEnabled v e → Reach w (handle v e)
