-- ===== src/Opamp/Client/Retry.antt =====
-- What becomes of a delay that the server asks OpAMPClient (src/opamp/OpAMPClient.ts) for, and of
-- a configuration with no hash.
use splunk_otel_js.Common.{
  ℕ, ◌-◌, true, false, Option, none, some, List, [], ◌∷◌, ◌≡◌, ap, ===_iff, arith, list_eq, nat_eq,
  option_eq, ◌∙◌,
}
use splunk_otel_js.Opamp.Backoff.Bounds.{IsAtRest}
use splunk_otel_js.Opamp.RemoteConfig.{Bytes, Libraries, AgentRemoteConfig, ConfigFile, HashField}
use splunk_otel_js.Opamp.Client.{Timer, World, ServerToAgent, TransportResult}
use splunk_otel_js.Opamp.Client.Remote.{handle_remote_config, is_duplicate}
use splunk_otel_js.Opamp.Client.Duplicates.{
  attempt-hash, handle_remote_config_duplicate, duplicate_of_hash,
}
use splunk_otel_js.Opamp.Client.Methods.{finish_poll}
use splunk_otel_js.Opamp.Client.Responses.{poll_response, receive}

abbrev pub first_delay : List Timer → Option ℕ
first_delay [] = none
first_delay (t ∷ ts) = some t.delay

-- The delay after a poll, with the backoff at rest.
finish_poll-interval :
    (jitter : ℕ) (w : World)
    → w.stopping ≡ false
    → w.poll_again_immediately ≡ false
    → IsAtRest w.backoff
    → first_delay (finish_poll jitter w).armed ≡ some w.polling_interval
unfolding finish_poll
finish_poll-interval jitter w s p r = ground arith

record SameRun (v w : World) : Type 0 where
  stopping : w.stopping ≡ v.stopping
  poll_again : w.poll_again_immediately ≡ v.poll_again_immediately
  interval : w.polling_interval ≡ v.polling_interval

receive_error :
    (lib : Libraries) (nanoseconds : Option ℕ) (r : ServerToAgent) (w : World)
    → r.error_response ≡ some (record { retry_info = nanoseconds })
    → SameRun w (receive lib (TransportResult.response 200 (some r)) w)
      × IsAtRest (receive lib (TransportResult.response 200 (some r)) w).backoff
unfolding receive
receive_error lib nanoseconds r w e = ground arith

-- When a poll of a running client ends with an error response, the next poll is armed for the
-- polling interval, whatever delay the response asks for, unless it was asked for at once.
poll_response-retry_ignored :
    (lib : Libraries) (nanoseconds : Option ℕ) (r : ServerToAgent) (jitter : ℕ) (w : World)
    → r.error_response ≡ some (record { retry_info = nanoseconds })
    → w.stopping ≡ false
    → w.poll_again_immediately ≡ false
    → first_delay (poll_response lib (TransportResult.response 200 (some r)) jitter w).armed
      ≡ some w.polling_interval
unfolding poll_response
poll_response-retry_ignored lib nanoseconds r jitter w e s p =
    let ended = record w { requests = w.requests - 1 } in
    let (same, rest) = receive_error lib nanoseconds r ended e in
    let received = receive lib (TransportResult.response 200 (some r)) ended in
    finish_poll-interval jitter received (same.stopping ∙ s) (same.poll_again ∙ p) rest
    ∙ ap some same.interval

-- `AgentRemoteConfig.decode` of the generated src/opamp/proto/opamp.js: a hash that is left out of
-- the message reads as the prototype's empty array, which counts as true.
unfoldable pub decode_hash : Option Bytes → HashField
decode_hash none = HashField.present []
decode_hash (some hash) = HashField.present hash

-- A configuration decoded from a message without a hash.
abbrev pub hashless : Option ConfigFile → AgentRemoteConfig
hashless file = record { config_hash = decode_hash none; file = file }

hashless-hash :
    (lib : Libraries) (file : Option ConfigFile) (w : World)
    → w.accepts_remote_config ≡ true
    → w.stopping ≡ false
    → w.apply_in_flight ≡ false
    → (handle_remote_config lib (hashless file) w).last_remote_config_hash ≡ some []
unfolding handle_remote_config decode_hash is_duplicate
hashless-hash lib file w a s f = ground (
  arith,
  ===_iff (some []) w.last_remote_config_hash,
  attempt-hash lib (hashless file) (some []) w,
)

-- Of two configurations decoded from messages without a hash, the second is ignored, whatever
-- their bodies are, once the first was attempted.
handle_remote_config-hashless :
    (lib : Libraries) (first second : Option ConfigFile) (w : World)
    → w.accepts_remote_config ≡ true
    → w.stopping ≡ false
    → w.apply_in_flight ≡ false
    → handle_remote_config lib (hashless second) (handle_remote_config lib (hashless first) w)
      ≡ handle_remote_config lib (hashless first) w
unfolding decode_hash
handle_remote_config-hashless lib first second w a s f =
    handle_remote_config_duplicate lib (hashless second) _
      (duplicate_of_hash lib (hashless second) [] _ (hashless-hash lib first w a s f))
