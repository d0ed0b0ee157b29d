-- ===== src/Opamp/Client/Responses.antt =====
-- What OpAMPClient of src/opamp/OpAMPClient.ts does when a request ends.
use Prim.Native.Nat.{bit_and}
use splunk_otel_js.Common.{
  ℕ, ◌-◌, Option, none, some, ◌==◌, nat_eq, list_eq, option_eq, if◌then◌else◌, is_empty,
}
use splunk_otel_js.Opamp.Backoff.{set_min_delay, reset}
use splunk_otel_js.Opamp.RemoteConfig.{Libraries, AgentRemoteConfig}
use splunk_otel_js.Opamp.Client.{config_eq, ServerToAgent, TransportResult, World}
use splunk_otel_js.Opamp.Client.Methods.{finish_poll}
use splunk_otel_js.Opamp.Client.Remote.{handle_remote_config}

abbrev pub ask_retry : Option ℕ → World → World
ask_retry none w = w
ask_retry (some nanoseconds) w = record w {
  client = record w.client { backoff = set_min_delay w.backoff nanoseconds };
}

-- The part of `processServerResponse` before the remote configuration, on a response without
-- an error. Bit 0 of the flags is ReportFullState.
unfoldable pub accept_response : ServerToAgent → World → World
unfolding reset
accept_response r w = record w {
  client = record w.client {
    backoff = reset w.backoff;
    last_sent_effective_config =
        if bit_and r.flags 1 == 0 then w.last_sent_effective_config else none;
    instance_uid = if is_empty r.new_instance_uid then w.instance_uid else r.new_instance_uid;
  };
}

abbrev pub commit_pending : World → World
commit_pending w = elim w.pending_effective_config [
  | none ↦ w
  | some config ↦ record w {
    client = record w.client {
      last_sent_effective_config = some config;
      pending_effective_config = none;
    };
  }
]

-- `_resetStates`.
unfoldable pub reset_states : World → World
reset_states w = record w {
  client = record w.client { last_sent_effective_config = none; pending_effective_config = none };
}

module _ (lib : Libraries) where
  abbrev pub handle_pushed : Option AgentRemoteConfig → World → World
  handle_pushed none w = w
  handle_pushed (some cfg) w = if w.accepts_remote_config then handle_remote_config lib cfg w else w

  -- `processServerResponse`.
  unfoldable pub process_server_response : ServerToAgent → World → World
  unfolding set_min_delay
  process_server_response r w = elim r.error_response [
    | some e ↦ ask_retry e.retry_info w
    | none ↦ handle_pushed r.remote_config (accept_response r w)
  ]

  abbrev pub process_body : Option ServerToAgent → World → World
  process_body none w = w
  process_body (some r) w =
      let processed = process_server_response r w in
      record processed { client = record processed.client { backoff = reset processed.backoff } }

  -- The `try` block of `_poll` after the request.
  unfoldable pub receive : TransportResult → World → World
  unfolding process_server_response reset reset_states
  receive TransportResult.rejected w = w
  receive (TransportResult.response status body) w =
      if status == 200
      then process_body body (commit_pending w)
      else if status == 409
      then reset_states w
      else w

  -- `_poll` from the end of the request on.
  unfoldable pub poll_response : TransportResult → ℕ → World → World
  unfolding receive finish_poll
  poll_response r jitter w = finish_poll jitter (receive r (record w { requests = w.requests - 1 }))
