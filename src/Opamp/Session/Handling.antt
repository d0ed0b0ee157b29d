-- ===== src/Opamp/Session/Handling.antt =====
-- What the processing of a response leaves as it is in an OpAMPClient (src/opamp/OpAMPClient.ts).
use splunk_otel_js.Common.{◌⊎◌, true, false, Text, Option, none, some, [], ◌≡◌, length, arith}
use splunk_otel_js.Opamp.Backoff.Bounds.{IsAtRest, reset-IsAtRest}
use splunk_otel_js.Opamp.RemoteConfig.{Bytes, Libraries, AgentRemoteConfig, HashField}
use splunk_otel_js.Opamp.Client.{World, TransportResult, ServerToAgent}
use splunk_otel_js.Opamp.Client.Remote.{attempt, reject_hash, handle_field, handle_remote_config}
use splunk_otel_js.Opamp.Client.Responses.{
  receive, process_server_response, handle_pushed, commit_pending, process_body, accept_response,
}

-- One apply is suspended exactly while `_applyInFlight` says so.
abbrev pub InFlight : World → Type 0
InFlight w =
    ((w.apply_in_flight ≡ true) × (length w.applies ≡ 1))
    ⊎ ((w.apply_in_flight ≡ false) × (w.applies ≡ []))

-- What a remote configuration that comes with a response leaves as it is.
pub record SameLoop (v w : World) : Type 0 where
  pub armed : w.armed ≡ v.armed
  pub requests : w.requests ≡ v.requests
  pub disconnects : w.disconnects ≡ v.disconnects
  pub starting : w.starting ≡ v.starting
  pub stopping : w.stopping ≡ v.stopping
  pub polling : w.polling ≡ v.polling
  pub polling_timer : w.polling_timer ≡ v.polling_timer
  pub polling_interval : w.polling_interval ≡ v.polling_interval
  pub sent : w.sent ≡ v.sent
  pub sequence_num : w.sequence_num ≡ v.sequence_num

module _ (lib : Libraries) where
  attempt-SameLoop :
      (cfg : AgentRemoteConfig) (hash : Option Bytes) (w : World)
      → w.polling ≡ true
      → SameLoop w (attempt lib cfg hash w)
  unfolding attempt
  attempt-SameLoop cfg hash w p = ground arith

  reject_hash-SameLoop :
      (cfg : AgentRemoteConfig) (m : Text) (w : World)
      → w.polling ≡ true
      → SameLoop w (reject_hash lib cfg m w)
  unfolding reject_hash
  reject_hash-SameLoop cfg m w p = ground arith

  handle_field-SameLoop :
      (cfg : AgentRemoteConfig) (f : HashField) (w : World)
      → w.polling ≡ true
      → SameLoop w (handle_field lib cfg f w)
  unfolding handle_field
  handle_field-SameLoop cfg HashField.absent w p = ground (arith, attempt-SameLoop cfg none w)
  handle_field-SameLoop cfg (HashField.present h) w p =
      ground (arith, attempt-SameLoop cfg (some h) w)
  handle_field-SameLoop cfg (HashField.unreadable m) w p =
      ground (arith, reject_hash-SameLoop cfg m w)

  attempt-InFlight :
      (cfg : AgentRemoteConfig) (hash : Option Bytes) (w : World)
      → w.polling ≡ true
      → w.applies ≡ []
      → InFlight (attempt lib cfg hash w)
  unfolding attempt
  attempt-InFlight cfg hash w p e = ground arith

  handle_remote_config-SameLoop :
      (cfg : AgentRemoteConfig) (w : World)
      → w.polling ≡ true
      → SameLoop w (handle_remote_config lib cfg w)
  unfolding handle_remote_config
  handle_remote_config-SameLoop cfg w p =
      ground (arith, handle_field-SameLoop cfg cfg.config_hash w)

  handle_field-InFlight :
      (cfg : AgentRemoteConfig) (f : HashField) (w : World)
      → w.polling ≡ true
      → InFlight w
      → InFlight (handle_field lib cfg f w)
  unfolding handle_field reject_hash
  handle_field-InFlight cfg HashField.absent w p h = ground (arith, attempt-InFlight cfg none w)
  handle_field-InFlight cfg (HashField.present b) w p h =
      ground (arith, attempt-InFlight cfg (some b) w)
  handle_field-InFlight cfg (HashField.unreadable m) w p h = ground arith

  handle_remote_config-InFlight :
      (cfg : AgentRemoteConfig) (w : World)
      → w.polling ≡ true
      → InFlight w
      → InFlight (handle_remote_config lib cfg w)
  unfolding handle_remote_config
  handle_remote_config-InFlight cfg w p h =
      ground (arith, handle_field-InFlight cfg cfg.config_hash w)

  handle_pushed-SameLoop :
      (o : Option AgentRemoteConfig) (w : World)
      → w.polling ≡ true
      → SameLoop w (handle_pushed lib o w)
  handle_pushed-SameLoop none w p = ground arith
  handle_pushed-SameLoop (some cfg) w p = ground (arith, handle_remote_config-SameLoop cfg w)

  handle_pushed-InFlight :
      (o : Option AgentRemoteConfig) (w : World)
      → w.polling ≡ true
      → InFlight w
      → InFlight (handle_pushed lib o w)
  handle_pushed-InFlight none w p h = h
  handle_pushed-InFlight (some cfg) w p h = ground (arith, handle_remote_config-InFlight cfg w)

  process_server_response-SameLoop :
      (r : ServerToAgent) (w : World)
      → w.polling ≡ true
      → SameLoop w (process_server_response lib r w)
  unfolding process_server_response accept_response
  process_server_response-SameLoop r w p =
      ground (arith, handle_pushed-SameLoop r.remote_config (accept_response r w))

  process_server_response-InFlight :
      (r : ServerToAgent) (w : World)
      → w.polling ≡ true
      → InFlight w
      → InFlight (process_server_response lib r w)
  unfolding process_server_response accept_response
  process_server_response-InFlight r w p h =
      ground (arith, handle_pushed-InFlight r.remote_config (accept_response r w))

  -- The backoff is reset after every response that is processed, so it is never in force.
  process_body-IsAtRest :
      (o : Option ServerToAgent) (w : World)
      → IsAtRest w.backoff
      → IsAtRest (process_body lib o w).backoff
  process_body-IsAtRest none w h = h
  process_body-IsAtRest (some r) w h = reset-IsAtRest _

  pub receive-IsAtRest :
      (r : TransportResult) (w : World) → IsAtRest w.backoff → IsAtRest (receive lib r w).backoff
  unfolding receive
  receive-IsAtRest TransportResult.rejected w h = h
  receive-IsAtRest (TransportResult.response status body) w h =
      ground (arith, process_body-IsAtRest body (commit_pending w))

  process_body-SameLoop :
      (o : Option ServerToAgent) (w : World) → w.polling ≡ true → SameLoop w (process_body lib o w)
  process_body-SameLoop none w p = ground arith
  process_body-SameLoop (some r) w p = ground (arith, process_server_response-SameLoop r w)

  pub receive-SameLoop :
      (r : TransportResult) (w : World) → w.polling ≡ true → SameLoop w (receive lib r w)
  unfolding receive
  receive-SameLoop TransportResult.rejected w p = ground arith
  receive-SameLoop (TransportResult.response status body) w p =
      ground (arith, process_body-SameLoop body (commit_pending w))

  process_body-InFlight :
      (o : Option ServerToAgent) (w : World)
      → w.polling ≡ true
      → InFlight w
      → InFlight (process_body lib o w)
  process_body-InFlight none w p h = h
  process_body-InFlight (some r) w p h = ground (arith, process_server_response-InFlight r w)

  pub receive-InFlight :
      (r : TransportResult) (w : World) → w.polling ≡ true → InFlight w → InFlight (receive lib r w)
  unfolding receive
  receive-InFlight TransportResult.rejected w p h = h
  receive-InFlight (TransportResult.response status body) w p h =
      ground (arith, process_body-InFlight body (commit_pending w))
