-- ===== src/Opamp/Session/Dedup.antt =====
-- How often an OpAMPClient (src/opamp/OpAMPClient.ts) applies a remote configuration.
use mathlib.Core.List.{tail}
use splunk_otel_js.Common.{
  ℕ, ◌-◌, ◌⊎◌, inl, inr, true, Option, none, some, ◌≡◌, ◌≢◌, refl, ◌∙◌, arith, list_eq, nat_eq,
  option_eq,
}
use splunk_otel_js.Opamp.RemoteConfig.{Bytes, Libraries, AgentRemoteConfig}
use splunk_otel_js.Opamp.Client.{World, TransportResult, ApplyResult, ServerToAgent}
use splunk_otel_js.Opamp.Client.Methods.{
  finish_start, fire, stop, apply_settled, settled_status, finish_poll, disconnect_ended,
}
use splunk_otel_js.Opamp.Client.Remote.{handle_remote_config, is_duplicate}
use splunk_otel_js.Opamp.Client.Responses.{
  poll_response, receive, process_server_response, accept_response, process_body, commit_pending,
}
use splunk_otel_js.Opamp.Session.{
  Event, attributes_ready, timer_fired, request_ended, apply_ended, stop_called,
  disconnect_answered, IsEnabled, handle,
}
use splunk_otel_js.Opamp.Client.Duplicates.{
  SameMemory, trigger_poll-SameMemory, handle_remote_config_duplicate, handle_remote_config-cases,
  is_duplicate-SameMemory,
}

-- The events in which the server pushes no configuration, or `cfg` again.
abbrev pub Resends : AgentRemoteConfig → Event → Type 0
Resends cfg (request_ended (TransportResult.response status (some r)) jitter) =
    (r.remote_config ≡ none) ⊎ (r.remote_config ≡ some cfg)
Resends cfg _ = Unit

-- Histories of such events.
pub data ReachResending (lib : Libraries) (cfg : AgentRemoteConfig) (w : World)
    : World → Type 0 where
  here : ReachResending lib cfg w w
  next :
      {v : World}
      → ReachResending lib cfg w v
      → (e : Event) → IsEnabled v e
      → Resends cfg e
      → ReachResending lib cfg w (handle lib v e)

module _ (lib : Libraries) (cfg : AgentRemoteConfig) where
  process_server_response-SameMemory :
      (r : ServerToAgent) (w : World)
      → (r.remote_config ≡ none) ⊎ (r.remote_config ≡ some cfg)
      → is_duplicate lib cfg cfg.config_hash w ≡ true
      → SameMemory w (process_server_response lib r w)
  unfolding process_server_response
  process_server_response-SameMemory r w h d = ground (
    arith,
    accepted,
    handle_remote_config_duplicate lib cfg (accept_response r w)
        (is_duplicate-SameMemory lib cfg cfg.config_hash w (accept_response r w) accepted d),
  )
    where
      accepted : SameMemory w (accept_response r w)
      accepted = unfold accept_response in record { hash = refl; body = refl; applied = refl }

  process_body-SameMemory :
      (r : ServerToAgent) (w : World)
      → (r.remote_config ≡ none) ⊎ (r.remote_config ≡ some cfg)
      → is_duplicate lib cfg cfg.config_hash w ≡ true
      → SameMemory w (process_body lib (some r) w)
  process_body-SameMemory r w h d = ground (arith, process_server_response-SameMemory r w h d)

  commit_pending-SameMemory : (w : World) → SameMemory w (commit_pending w)
  commit_pending-SameMemory w = ground arith

  receive-SameMemory :
      (t : TransportResult) (jitter : ℕ) (w : World)
      → Resends cfg (request_ended t jitter)
      → is_duplicate lib cfg cfg.config_hash w ≡ true
      → SameMemory w (receive lib t w)
  unfolding receive
  receive-SameMemory TransportResult.rejected jitter w h d = ground arith
  receive-SameMemory (TransportResult.response status none) jitter w h d = ground arith
  receive-SameMemory (TransportResult.response status (some r)) jitter w h d = ground (
    arith,
    commit_pending-SameMemory w,
    process_body-SameMemory r (commit_pending w) h (
        is_duplicate-SameMemory lib cfg cfg.config_hash w (commit_pending w)
          (commit_pending-SameMemory w) d),
  )

  finish_poll-SameMemory : (jitter : ℕ) (w : World) → SameMemory w (finish_poll jitter w)
  unfolding finish_poll
  finish_poll-SameMemory jitter w = ground arith

  apply_settled-SameMemory :
      (r : ApplyResult) (hash : Option Bytes) (w : World) → SameMemory w (apply_settled r hash w)
  unfolding apply_settled
  apply_settled-SameMemory ApplyResult.resolved hash w =
      ground (arith, trigger_poll-SameMemory (settled_status ApplyResult.resolved hash w))
  apply_settled-SameMemory (ApplyResult.rejected m) hash w =
      ground (arith, trigger_poll-SameMemory (settled_status (ApplyResult.rejected m) hash w))

  handle-SameMemory :
      (w : World) (e : Event)
      → Resends cfg e
      → is_duplicate lib cfg cfg.config_hash w ≡ true
      → SameMemory w (handle lib w e)
  unfolding handle
  handle-SameMemory w (attributes_ready attributes e) h d = unfold finish_start in ground arith
  handle-SameMemory w (timer_fired t e) h d = unfold fire in ground arith
  handle-SameMemory w (request_ended r jitter) h d =
      unfold poll_response in
      let ended = record w { requests = w.requests - 1 } in
      ground (
        arith,
        receive-SameMemory r jitter ended h (
            is_duplicate-SameMemory lib cfg cfg.config_hash w ended
              (record { hash = refl; body = refl; applied = refl }) d),
        finish_poll-SameMemory jitter (receive lib r ended),
      )
  handle-SameMemory w (apply_ended r hash) h d =
      ground (arith, apply_settled-SameMemory r hash (record w { applies = tail w.applies }))
  handle-SameMemory w stop_called h d = unfold stop in ground arith
  handle-SameMemory w disconnect_answered h d = unfold disconnect_ended in ground arith

  -- Once a configuration counts as attempted, it is never applied again in a history in which the
  -- server pushes nothing else: not by polls, by the end of the apply, nor by pushes of the same.
  pub ReachResending-applied :
      {v w : World}
      → ReachResending lib cfg v w
      → is_duplicate lib cfg cfg.config_hash v ≡ true
      → (w.applied_configs ≡ v.applied_configs) × (is_duplicate lib cfg cfg.config_hash w ≡ true)
  ReachResending-applied here d = (refl, d)
  ReachResending-applied (next {v = u} r e _ h) d =
      let (same, d') = ReachResending-applied r d in
      let m = handle-SameMemory u e h d' in
      (m.applied ∙ same, is_duplicate-SameMemory lib cfg cfg.config_hash u _ m d')

  -- A push that the client acts on, with a valid document or not, is not applied again in a history
  -- from there on in which the server pushes nothing but the same configuration.
  pub ReachResending-attempted :
      {v w : World}
      → handle_remote_config lib cfg v ≢ v
      → ReachResending lib cfg (handle_remote_config lib cfg v) w
      → w.applied_configs ≡ (handle_remote_config lib cfg v).applied_configs
  ReachResending-attempted {v} acted r = elim (handle_remote_config-cases lib cfg v) [
    | inl same ↦ absurd (acted same)
    | inr d ↦ (ReachResending-applied r d).0
  ]
