-- ===== src/Opamp/Tests.antt =====
-- The theorems on src/opamp at concrete inputs, and tests of the definitions.
use splunk_otel_js.Common.{
  if◌then◌else◌, ◌===◌, ℕ, ◌+◌, ◌*◌, ◌^◌, ◌≤◌, ◌<◌, min, max, codes, true, none, some, List, [],
  ◌∷◌, ◌≡◌, ◌≢◌, refl, ap, arith, length, All, inr,
}
use splunk_otel_js.Opamp.Backoff.{Backoff, next_delay, set_min_delay, ms}
use splunk_otel_js.Opamp.Backoff.Bounds.{next_delay-set_min_delay}
use splunk_otel_js.Opamp.Uuid.{uuid7}
use splunk_otel_js.Opamp.Uuid.Layout.{timestamp, version, variant, uuid7_layout}
use splunk_otel_js.Common.Yaml.{null}
use splunk_otel_js.Opamp.RemoteConfig.{
  Libraries, ParseResult, AgentRemoteConfig, HashField, ConfigFile,
}
use splunk_otel_js.Opamp.Client.{
  config_eq, World, EffectiveConfig, Format, ServerToAgent, TransportResult, ApplyResult,
}
use splunk_otel_js.Opamp.Client.Methods.{
  Env, new_client, start, finish_start, stop, poll, make_entry,
}
use splunk_otel_js.Opamp.Client.Remote.{handle_remote_config, is_duplicate, attempt}
use splunk_otel_js.Opamp.RemoteConfig.{parse_remote_config}
use splunk_otel_js.Opamp.Client.Responses.{poll_response, accept_response}
use splunk_otel_js.Opamp.Client.Duplicates.{handle_remote_config_idempotent}
use splunk_otel_js.Opamp.Client.EffectiveReport.{after_poll-report, next_report, asks_full_state}
use splunk_otel_js.Opamp.Session.{
  Event, attributes_ready, request_ended, apply_ended, stop_called, handle, Reach,
}
use splunk_otel_js.Opamp.Session.Progress.{Awaits, Continues, Reach-start-progress}
use splunk_otel_js.Opamp.Session.Invariant.{Reach-start-Inv}
use splunk_otel_js.Opamp.Session.Invariant.Timers.{Inv}
use splunk_otel_js.Opamp.Session.History.{
  IsNumbered, skipped, Reach-start-IsNumbered, Quiet, Reach-start-Quiet,
}
use splunk_otel_js.Opamp.Session.Dedup.{ReachResending, ReachResending-attempted}

-- A decoder for ASCII, and a parser that reads every document as empty.
abbrev libraries : Libraries
libraries = record { decode_text = λ bytes. bytes; parse_yaml = λ t. ParseResult.parsed null }

abbrev one_poll : Backoff
one_poll = record { base = 1_000; limit = 60_000; failures = 2; min_delay_override = none }

next_delay-set_min_delay_example :
    let (delay, b') = next_delay (set_min_delay one_poll 7) 30 5 in
    (7 ≤ delay)
    × (min (1_000 * 2 ^ 2) 60_000 ≤ delay)
    × (delay < max (60_000 + 1_000 * ms) 8)
    × (b'.failures ≡ 3)
    × (b'.min_delay_override ≡ none)
next_delay-set_min_delay_example = next_delay-set_min_delay one_poll 7 30 5 (omega arith)

abbrev random : List ℕ
random = 255 ∷ 1 ∷ 2 ∷ 3 ∷ 4 ∷ 5 ∷ 255 ∷ 7 ∷ 255 ∷ 9 ∷ 10 ∷ 11 ∷ 12 ∷ 13 ∷ 14 ∷ 15 ∷ []

uuid7_layout_example :
    let u = uuid7 random 1_700_000_000_000 in
    (length u ≡ 16)
    × (timestamp u ≡ 1_700_000_000_000)
    × (version u ≡ 7)
    × (variant u ≡ 2)
    × All (λ b. b < 256) u
uuid7_layout_example =
    uuid7_layout random 1_700_000_000_000 (omega arith) (omega arith) (omega arith)

abbrev fresh_world : World
fresh_world = start (new_client (30_000 * ms) true (1 ∷ []) 0) 1

abbrev quiet_config : EffectiveConfig
quiet_config = record { format = Format.env; name = "environment"; content = "" }

abbrev other_config : EffectiveConfig
other_config = record { format = Format.env; name = "environment"; content = "A=2" }

abbrev first_env : Env
first_env = record { now = 2; effective_config = some quiet_config; encodes = true; jitter = 0 }

abbrev pushed : AgentRemoteConfig
pushed = record { config_hash = HashField.present (9 ∷ []); file = none }

abbrev push : ServerToAgent
push = record {
  error_response = none;
  flags = 0;
  new_instance_uid = [];
  remote_config = some pushed;
}

abbrev refusal : ServerToAgent
refusal = record {
  error_response = some (record { retry_info = some 5_000 });
  flags = 0;
  new_instance_uid = [];
  remote_config = none;
}

abbrev polled : World
polled = handle libraries fresh_world (attributes_ready [] first_env)

abbrev applying : World
applying = handle libraries polled (request_ended (TransportResult.response 200 (some push)) 0)

Reach-polled : Reach libraries fresh_world polled
Reach-polled = Reach.next Reach.here (attributes_ready [] first_env) enabled
  where
    enabled : fresh_world.starting ≡ true
    enabled = unfold start in refl

Reach-applying : Reach libraries fresh_world applying
unfolding handle start new_client finish_start poll
Reach-applying =
    Reach.next Reach-polled (request_ended (TransportResult.response 200 (some push)) 0)
      (omega arith)

Reach-start-Inv_example : Inv applying
Reach-start-Inv_example = Reach-start-Inv libraries (30_000 * ms) true (1 ∷ []) 0 1 Reach-applying

Reach-start-IsNumbered_example :
    IsNumbered applying × (applying.sequence_num ≡ length applying.sent + skipped Reach-applying)
Reach-start-IsNumbered_example =
    Reach-start-IsNumbered libraries (30_000 * ms) true (1 ∷ []) 0 1 Reach-applying

Reach-start-progress_example :
    (v : World) × Awaits libraries [] first_env TransportResult.rejected 0 polled v
    × Continues first_env polled v
unfolding handle finish_start poll start
Reach-start-progress_example =
    Reach-start-progress libraries [] first_env TransportResult.rejected 0 (30_000 * ms) true
      (1 ∷ []) 0 1 Reach-polled refl

abbrev stopped : World
stopped = handle libraries applying stop_called

abbrev settled : Event
settled = apply_ended ApplyResult.resolved (some (9 ∷ []))

Reach-stopped : Reach libraries fresh_world stopped
unfolding handle start new_client finish_start poll poll_response attempt stop accept_response
    handle_remote_config is_duplicate parse_remote_config
Reach-stopped = Reach.next Reach-applying stop_called refl

Reach-start-Quiet_example :
    Quiet stopped (handle libraries stopped settled)
    × ((handle libraries stopped settled).armed ≡ [])
unfolding handle start new_client finish_start poll poll_response attempt stop accept_response
    handle_remote_config is_duplicate parse_remote_config
Reach-start-Quiet_example =
    Reach-start-Quiet libraries (30_000 * ms) true (1 ∷ []) 0 1 Reach-stopped refl
      (Reach.next Reach.here settled ([], refl))

handle_remote_config_idempotent_example :
    handle_remote_config libraries pushed (handle_remote_config libraries pushed polled)
    ≡ handle_remote_config libraries pushed polled
handle_remote_config_idempotent_example = handle_remote_config_idempotent libraries pushed polled

abbrev pushed_world : World
pushed_world = handle_remote_config libraries pushed polled

abbrev pushed_again : World
pushed_again =
    handle libraries pushed_world (request_ended (TransportResult.response 200 (some push)) 0)

acted : pushed_world ≢ polled
unfolding handle start new_client finish_start poll handle_remote_config attempt is_duplicate
    parse_remote_config
acted e = cc (ap (λ (w : World). w.apply_in_flight) e)

ReachResending-attempted_example : pushed_again.applied_configs ≡ pushed_world.applied_configs
unfolding handle start new_client finish_start poll handle_remote_config attempt is_duplicate
    parse_remote_config
ReachResending-attempted_example = ReachResending-attempted libraries pushed acted (
    ReachResending.next ReachResending.here
      (request_ended (TransportResult.response 200 (some push)) 0) (omega arith) (inr refl))

after_poll-report_example :
    let r = TransportResult.response in
    (next_report libraries (r 409 (some push)) 0 first_env fresh_world other_config
      ≡ some (make_entry other_config))
    × (next_report libraries (r 200 (some push)) 0 first_env fresh_world other_config ≡ (
        if asks_full_state (some push)
        then some (make_entry other_config)
        else if other_config === quiet_config
        then none
        else some (make_entry other_config)))
unfolding start new_client
after_poll-report_example =
    after_poll-report libraries (some push) 0 first_env fresh_world quiet_config other_config
      (refl, refl, refl) refl

-- A world whose last poll acknowledged `quiet_config`.
abbrev acknowledged : World
acknowledged = record fresh_world {
  client = record fresh_world.client { last_sent_effective_config = some quiet_config };
}

other-quiet : other_config ≢ quiet_config
other-quiet e = cc (ap (λ (c : EffectiveConfig). c.content) e)

abbrev cpu_on : ConfigFile
cpu_on = record { content_type = none; body = some (codes "distribution: {}") }
