-- ===== src/Opamp/Client/Methods.antt =====
-- The constructor, `start`, the timers and the messages of OpAMPClient in
-- src/opamp/OpAMPClient.ts, as functions on the world.
-- The clock, what the callback for the effective configuration does, whether the message can be
-- encoded, and the random jitter of the backoff are arguments.
use Prim.Native.Nat.{bit_or}
use splunk_otel_js.Common.{
  ℕ, ◌+◌, ◌-◌, ◌*◌, String, Text, Bool, true, false, Option, none, some, List, [], ◌∷◌, ◌==◌, ◌===◌,
  nat_eq, list_eq, option_eq, if◌then◌else◌, or_else,
}
use splunk_otel_js.Opamp.Backoff.{new_backoff, next_delay, ms}
use splunk_otel_js.Opamp.RemoteConfig.{Bytes}
use splunk_otel_js.Opamp.Client.{
  Format, yaml, env, EffectiveConfig, config_eq, RemoteConfigStatuses, Attributes, ConfigEntry,
  AgentToServer, ApplyResult, Timer, Client, World,
}

-- What a poll meets outside: `Date.now()` in nanoseconds; the result of `getEffectiveConfig()`, none
-- where it throws; whether the message can be encoded, or `encode` throws; and the jitter of the delay
-- after a poll that ends at once.
pub record Env : Type 0 where
  pub now : ℕ
  pub effective_config : Option EffectiveConfig
  pub encodes : Bool
  pub jitter : ℕ

abbrev default_capabilities : ℕ
default_capabilities = bit_or (bit_or (bit_or 0x1 0x800) 0x4) 0x2000

abbrev remote_config_capabilities : ℕ
remote_config_capabilities = bit_or 0x2 0x1000

unfoldable pub content_type : Format → String
content_type yaml = "application/yaml; vendor=splunk; v=1.0.0"
content_type env = "text/plain; format=properties; vendor=splunk; v=1.0.0"

unfoldable pub make_entry : EffectiveConfig → ConfigEntry
unfolding content_type
make_entry c = record { name = c.name; content_type = content_type c.format; body = c.content }

-- The constructor. The options are the polling interval, in nanoseconds, and whether an
-- `applyRemoteConfig` is given; `uid` is from `uuid7`.
unfoldable pub new_client : ℕ → Bool → Bytes → ℕ → Client
unfolding new_backoff
new_client interval remote uid now = record {
  polling_interval = interval;
  accepts_remote_config = remote;
  instance_uid = uid;
  sequence_num = 0;
  backoff = new_backoff (1_000 * ms) (60_000 * ms);
  capabilities = bit_or default_capabilities (if remote then remote_config_capabilities else 0);
  polling_timer = none;
  stopping = false;
  polling = false;
  poll_again_immediately = false;
  last_sent_effective_config = none;
  pending_effective_config = none;
  current_health = record {
    healthy = true;
    start_time = now;
    status = "StatusStarting";
    status_time = now;
  };
  agent_description = none;
  last_remote_config_hash = none;
  last_hashless_config = none;
  apply_in_flight = false;
  remote_config_status = none;
}

-- `start`, up to the attributes of the resource.
unfoldable pub start : Client → ℕ → World
start c now = record {
  client = record c {
    stopping = false;
    sequence_num = 0;
    current_health = record c.current_health {
      healthy = true;
      status = "StatusOK";
      status_time = now;
    };
  };
  armed = [];
  next_timer = 0;
  requests = 0;
  disconnects = 0;
  applies = [];
  starting = true;
  sent = [];
  applied_configs = [];
}

-- `clearTimeout`: one that fired or was cleared already is not in the list.
unfoldable pub disarm : ℕ → List Timer → List Timer
disarm id [] = []
disarm id (t ∷ ts) = let rest = disarm id ts in if t.id == id then rest else t ∷ rest

abbrev pub clear_timer : World → World
clear_timer w = elim w.polling_timer [
  | none ↦ w
  | some id ↦ record w {
    client = record w.client { polling_timer = none };
    armed = disarm id w.armed;
  }
]

-- `setTimeout`, kept in `_pollingTimer`.
abbrev pub set_timer : ℕ → World → World
set_timer delay w = record w {
  client = record w.client { polling_timer = some w.next_timer };
  armed = record { id = w.next_timer; delay = delay } ∷ w.armed;
  next_timer = w.next_timer + 1;
}

-- `_scheduleNextPoll(delay)`.
unfoldable pub schedule : ℕ → World → World
unfolding disarm
schedule delay w = if w.stopping then w else set_timer delay (clear_timer w)

-- `_scheduleNextPoll()`, with the delay from the backoff.
unfoldable pub schedule_by_backoff : ℕ → World → World
unfolding disarm next_delay
schedule_by_backoff jitter w =
    if w.stopping
    then w
    else (let (delay, b) = next_delay w.backoff w.polling_interval jitter in
        let cleared = clear_timer w in
        set_timer delay (record cleared { client = record cleared.client { backoff = b } }))

-- `_triggerPoll`.
unfoldable pub trigger_poll : World → World
unfolding schedule
trigger_poll w =
    if w.stopping
    then w
    else if w.polling
    then record w { client = record w.client { poll_again_immediately = true } }
    else schedule 0 w

-- `_setRemoteConfigStatus`.
unfoldable pub set_remote_config_status : RemoteConfigStatuses → Option Bytes → Text → World → World
set_remote_config_status status hash message w = record w {
  client = record w.client {
    remote_config_status = some (record {
      last_remote_config_hash = or_else hash [];
      status = status;
      error_message = message;
    });
  };
}

-- `_reportRemoteConfigFailure`.
abbrev pub report_failure : Option Bytes → Text → World → World
report_failure = set_remote_config_status RemoteConfigStatuses.failed

-- `buildAgentToServerMessage` where `getEffectiveConfig` returns: the message, and the client
-- afterwards.
unfoldable pub message_with : EffectiveConfig → Client → AgentToServer × Client
unfolding make_entry
message_with config c =
    let same = some config === c.last_sent_effective_config in
    (
      record {
        instance_uid = c.instance_uid;
        sequence_num = c.sequence_num;
        capabilities = c.capabilities;
        health = some c.current_health;
        agent_description = c.agent_description;
        remote_config_status = c.remote_config_status;
        effective_config = if same then none else some (make_entry config);
        agent_disconnect = false;
      },
      record c {
        sequence_num = c.sequence_num + 1;
        pending_effective_config = if same then c.pending_effective_config else some config;
      },
    )

-- `buildAgentToServerMessage`. Where the callback throws, the number is taken already.
unfoldable pub build_message : Option EffectiveConfig → Client → Option AgentToServer × Client
unfolding message_with
build_message none c = (none, record c { sequence_num = c.sequence_num + 1 })
build_message (some config) c = let (message, d) = message_with config c in (some message, d)

abbrev pub encoded : Bool → Option AgentToServer → Option AgentToServer
encoded true message = message
encoded false message = none

abbrev pub begin_poll : ℕ → Client → Client
begin_poll now c = record c {
  polling = true;
  poll_again_immediately = false;
  current_health = record c.current_health { status_time = now };
}

-- The rest of `_poll`.
unfoldable pub finish_poll : ℕ → World → World
unfolding schedule schedule_by_backoff
finish_poll jitter w =
    let done = record w { client = record w.client { polling = false } } in
    if w.poll_again_immediately then schedule 0 done else schedule_by_backoff jitter done

-- The request is sent, or the `catch` takes what was thrown and the poll ends.
unfoldable pub send : Option AgentToServer → ℕ → World → World
unfolding finish_poll
send none jitter w = finish_poll jitter w
send (some message) jitter w = record w { requests = w.requests + 1; sent = message ∷ w.sent }

-- `_poll` up to the request, or to its end where no message is sent.
unfoldable pub poll : Env → World → World
unfolding build_message send
poll e w =
    if w.stopping
    then w
    else (let (message, c) = build_message e.effective_config (begin_poll e.now w.client) in
        send (encoded e.encodes message) e.jitter (record w { client = c }))

-- `start` from the attributes on.
unfoldable pub finish_start : Attributes → Env → World → World
unfolding poll
finish_start attributes e w = poll e (record w {
  client = record w.client { agent_description = some attributes };
  starting = false;
})

-- The timer fires, and calls `_poll`.
unfoldable pub fire : Timer → Env → World → World
unfolding poll disarm
fire t e w = poll e (record w { armed = disarm t.id w.armed })

-- `_sendDisconnect` up to the end of the request, and from there on; however it ends is all one. Its
-- message has fields that the polls encode too, and is taken to be encoded.
unfoldable pub send_disconnect : World → World
send_disconnect w = record w {
  client = record w.client { sequence_num = w.sequence_num + 1 };
  disconnects = w.disconnects + 1;
  sent =
      record {
        instance_uid = w.instance_uid;
        sequence_num = w.sequence_num;
        capabilities = w.capabilities;
        health = none;
        agent_description = none;
        remote_config_status = none;
        effective_config = none;
        agent_disconnect = true;
      }
      ∷ w.sent;
}

unfoldable pub disconnect_ended : World → World
disconnect_ended w = record w { disconnects = w.disconnects - 1 }

-- `stop`, up to the end of the request.
unfoldable pub stop : World → World
unfolding send_disconnect disarm
stop w =
    let stopped = clear_timer (record w { client = record w.client { stopping = true } }) in
    send_disconnect
      (record stopped { client = record stopped.client { poll_again_immediately = false } })

abbrev pub settled_status : ApplyResult → Option Bytes → World → World
settled_status ApplyResult.resolved hash =
    set_remote_config_status RemoteConfigStatuses.applied hash []
settled_status (ApplyResult.rejected message) hash = report_failure hash message

-- `_handleRemoteConfig` from the end of `applyRemoteConfig` on.
unfoldable pub apply_settled : ApplyResult → Option Bytes → World → World
unfolding set_remote_config_status trigger_poll
apply_settled result hash w =
    let reported = trigger_poll (settled_status result hash w) in
    record reported { client = record reported.client { apply_in_flight = false } }
