-- ===== src/Opamp/Session/Invariant.antt =====
-- What holds after any history of an OpAMPClient (src/opamp/OpAMPClient.ts).
pub mod Timers
use mathlib.Core.List.{tail}
use splunk_otel_js.Common.{
  ℕ, ◌<◌, ◌≤◌, ◌-◌, ◌⊎◌, inl, inr, Bool, true, false, Option, none, some, List, [], ◌∷◌, ◌≡◌, ◌≢◌,
  refl, ◌∙◌, arith, Bool-cases, Option-cases,
}
use splunk_otel_js.Opamp.Backoff.Bounds.{IsAtRest}
use splunk_otel_js.Opamp.RemoteConfig.{Bytes, Libraries}
use splunk_otel_js.Opamp.Client.{Attributes, Timer, World, TransportResult, ApplyResult}
use splunk_otel_js.Opamp.Client.Methods.{
  clear_timer, settled_status, Env, new_client, start, finish_start, fire, stop, apply_settled,
  trigger_poll, schedule, set_remote_config_status, poll, disarm, finish_poll,
}
use splunk_otel_js.Opamp.Client.Responses.{poll_response, receive}
use splunk_otel_js.Opamp.Session.{
  Event, attributes_ready, timer_fired, request_ended, apply_ended, stop_called,
  disconnect_answered, Among, IsEnabled, handle, Reach, here, next,
}
use splunk_otel_js.Opamp.Session.Handling.{
  SameLoop, InFlight, receive-IsAtRest, receive-SameLoop, receive-InFlight,
}
use splunk_otel_js.Opamp.Session.Invariant.Timers.{
  LoopInv, Inv, finish_poll-LoopInv, trigger_poll-LoopInv, fire-Inv, finish_start-Inv, stop-Inv,
  disconnect_ended-Inv, finish_poll-disconnects,
}

-- The end of a poll, on a world that the response was processed in.
finish_poll-Inv :
    (jitter : ℕ) (w : World)
    → w.polling ≡ true
    → w.requests ≡ 0
    → w.armed ≡ []
    → w.starting ≡ false
    → InFlight w
    → IsAtRest w.backoff
    → (w.stopping ≡ false → w.disconnects ≡ 0)
    → w.disconnects ≤ 1
    → Inv (finish_poll jitter w)
finish_poll-Inv jitter w p q a s f r d b = record {
  loop = finish_poll-LoopInv jitter w p q a s r;
  flight = unfold finish_poll in ground arith;
  rest = unfold finish_poll in ground arith;
  fresh = unfold finish_poll in ground arith;
  farewell = ground (arith, finish_poll-disconnects jitter w);
  one_farewell = ground (arith, finish_poll-disconnects jitter w);
}

poll_response-Inv :
    (lib : Libraries) (r : TransportResult) (jitter : ℕ) (w : World)
    → 0 < w.requests
    → Inv w
    → Inv (poll_response lib r jitter w)
unfolding poll_response
poll_response-Inv lib r jitter w h v =
    finish_poll-Inv jitter (receive lib r ended) (same.polling ∙ polling)
      (same.requests ∙ omega (arith, v.loop.polls polling)) (same.armed ∙ (v.loop.polls polling).1)
      (same.starting ∙ (v.loop.polls polling).2) (receive-InFlight lib r ended polling v.flight)
      (receive-IsAtRest lib r ended v.rest) (ground (arith, v.farewell, same))
      (ground (arith, v.one_farewell, same.disconnects))
  where
    ended : World
    ended = record w { requests = w.requests - 1 }

    polling : w.polling ≡ true
    polling = elim (Bool-cases w.polling) [
      | inl e ↦ e
      | inr e ↦ absurd (omega (arith, v.loop.rests e))
    ]

    same : SameLoop ended (receive lib r ended)
    same = receive-SameLoop lib r ended polling

settled_status-LoopInv :
    (r : ApplyResult) (hash : Option Bytes) (w : World)
    → LoopInv w
    → LoopInv (settled_status r hash w)
unfolding set_remote_config_status
settled_status-LoopInv ApplyResult.resolved hash w v = ground arith
settled_status-LoopInv (ApplyResult.rejected m) hash w v = ground arith

settled_status-same :
    (r : ApplyResult) (hash : Option Bytes) (w : World)
    → ((settled_status r hash w).applies ≡ w.applies)
      × ((settled_status r hash w).backoff ≡ w.backoff)
      × ((settled_status r hash w).starting ≡ w.starting)
      × ((settled_status r hash w).stopping ≡ w.stopping)
      × ((settled_status r hash w).disconnects ≡ w.disconnects)
unfolding set_remote_config_status
settled_status-same ApplyResult.resolved hash w = (refl, refl, refl, refl, refl)
settled_status-same (ApplyResult.rejected m) hash w = (refl, refl, refl, refl, refl)

trigger_poll-same :
    (w : World)
    → ((trigger_poll w).applies ≡ w.applies)
      × ((trigger_poll w).backoff ≡ w.backoff)
      × ((trigger_poll w).starting ≡ w.starting)
      × ((trigger_poll w).stopping ≡ w.stopping)
      × ((trigger_poll w).disconnects ≡ w.disconnects)
unfolding trigger_poll
trigger_poll-same w = ground arith

-- The end of `apply_settled`, on a world in which the status is set.
release-Inv :
    (w : World)
    → LoopInv w
    → w.starting ≡ false
    → w.applies ≡ []
    → IsAtRest w.backoff
    → (w.stopping ≡ false → w.disconnects ≡ 0)
    → w.disconnects ≤ 1
    → let t = trigger_poll w in
      Inv (record t { client = record t.client { apply_in_flight = false } })
release-Inv w v s a r d b = record {
  loop = let l = trigger_poll-LoopInv w s v in ground arith;
  flight = ground (arith, trigger_poll-same w);
  rest = ground (arith, trigger_poll-same w);
  fresh = ground (arith, trigger_poll-same w);
  farewell = ground (arith, trigger_poll-same w);
  one_farewell = ground (arith, trigger_poll-same w);
}

apply_settled-Inv :
    (r : ApplyResult) (hash : Option Bytes) (rest : List (Option Bytes)) (w : World)
    → w.applies ≡ hash ∷ rest
    → Inv w
    → Inv (apply_settled r hash (record w { applies = tail w.applies }))
unfolding apply_settled
apply_settled-Inv r hash rest w e v =
    release-Inv (settled_status r hash popped)
      (settled_status-LoopInv r hash popped (ground (arith, v.loop))) (same.2 ∙ ground arith)
      (same.0 ∙ empty) (rw same.1 v.rest) (ground (arith, same, v.farewell))
      (ground (arith, same, v.one_farewell))
  where
    popped : World
    popped = record w { applies = tail w.applies }

    same :
        ((settled_status r hash popped).applies ≡ popped.applies)
        × ((settled_status r hash popped).backoff ≡ popped.backoff)
        × ((settled_status r hash popped).starting ≡ popped.starting)
        × ((settled_status r hash popped).stopping ≡ popped.stopping)
        × ((settled_status r hash popped).disconnects ≡ popped.disconnects)
    same = settled_status-same r hash popped

    empty : tail w.applies ≡ []
    empty = grind arith

pub start-Inv :
    (interval : ℕ) (remote : Bool) (uid : Bytes) (made now : ℕ)
    → Inv (start (new_client interval remote uid made) now)
unfolding start new_client
start-Inv interval remote uid made now = ground arith

module _ (lib : Libraries) where
  pub handle-Inv : (w : World) (e : Event) → IsEnabled w e → Inv w → Inv (handle lib w e)
  unfolding handle
  handle-Inv w (attributes_ready attributes e) h v = finish_start-Inv attributes e w h v
  handle-Inv w (timer_fired t e) h v = fire-Inv t e w h v
  handle-Inv w (request_ended r jitter) h v = poll_response-Inv lib r jitter w h v
  handle-Inv w (apply_ended r hash) (rest, h) v = apply_settled-Inv r hash rest w h v
  handle-Inv w stop_called h v = stop-Inv w h v
  handle-Inv w disconnect_answered h v = disconnect_ended-Inv w h v

  -- From a world in which it holds, the invariant holds after any history.
  pub Reach-Inv : {v w : World} → Reach lib v w → Inv v → Inv w
  Reach-Inv here i = i
  Reach-Inv (next r e h) i = handle-Inv _ e h (Reach-Inv r i)

-- After any history of a started client: at most one timer is armed, it is the one that the client
-- would clear, and it waits for no time or for the polling interval, whatever the server asked for;
-- none is armed during a poll or once the client stops; a poll is armed or runs as long as the
-- client is not stopping and has started; at most one request of a poll and one apply are under way,
-- and the flags of the client say which; besides those, at most one disconnect message waits for its
-- response, and none before the client stops.
pub Reach-start-Inv :
    (lib : Libraries) (interval : ℕ) (remote : Bool) (uid : Bytes) (made now : ℕ) {w : World}
    → Reach lib (start (new_client interval remote uid made) now) w
    → Inv w
Reach-start-Inv lib interval remote uid made now r =
    Reach-Inv lib r (start-Inv interval remote uid made now)
