-- ===== src/Opamp/Client.antt =====
-- The class OpAMPClient of src/opamp/OpAMPClient.ts, with the part of the event loop that it uses.
-- A method that awaits is cut at the await: `poll` runs to the request, `poll_response` from there;
-- `handle_remote_config` runs to the call of `applyRemoteConfig`, `apply_settled` from there.
-- What is suspended at an await is counted in the world (`requests`, `disconnects`) or kept there
-- (`applies`).
pub mod Methods
pub mod Remote
pub mod Responses
pub mod Duplicates
pub mod EffectiveReport
pub mod Retry
use splunk_otel_js.Common.{
  ℕ, ◌+◌, ◌&&◌, String, Text, Bool, Eq, ◌===◌, string_eq, Option, List, ◌≡◌, ◌↔◌, arith, true,
}
use splunk_otel_js.Opamp.Backoff.{Backoff}
use splunk_otel_js.Opamp.RemoteConfig.{Bytes, AgentRemoteConfig, RemoteProfilingConfig}

-- src/opamp/types.ts.
pub data Format : Type 0 where
  yaml env : Format

pub record EffectiveConfig : Type 0 where
  pub format : Format
  pub name : String
  pub content : String

abbrev format_beq : Format → Format → Bool
format_beq yaml yaml = true
format_beq env env = true
format_beq _ _ = Bool.false

abbrev config_beq : EffectiveConfig → EffectiveConfig → Bool
config_beq a b = format_beq a.format b.format && a.name === b.name && a.content === b.content

format_beq_iff : (a b : Format) → (format_beq a b ≡ true) ↔ (a ≡ b)
format_beq_iff yaml yaml = ground arith
format_beq_iff yaml env = ground arith
format_beq_iff env yaml = ground arith
format_beq_iff env env = ground arith

pub config_beq_iff : (a b : EffectiveConfig) → (config_beq a b ≡ true) ↔ (a ≡ b)
config_beq_iff a b = ground (
  arith,
  format_beq_iff a.format b.format,
  string_eq.agree_iff a.name b.name,
  string_eq.agree_iff a.content b.content,
)

instance abbrev pub config_eq : Eq EffectiveConfig
config_eq = record { agree = config_beq; agree_iff = config_beq_iff }

pub data RemoteConfigStatuses : Type 0 where
  applied applying failed : RemoteConfigStatuses

pub record RemoteConfigStatus : Type 0 where
  pub last_remote_config_hash : Bytes
  pub status : RemoteConfigStatuses
  pub error_message : Text

pub record ComponentHealth : Type 0 where
  pub healthy : Bool
  pub start_time : ℕ
  pub status : String
  pub status_time : ℕ

-- `IAnyValue`.
pub data AnyValue : Type 0 where
  string_value : String → AnyValue
  bool_value : Bool → AnyValue
  int_value : ℕ → AnyValue

-- What `getResourceAttributes` resolves to.
abbrev pub Attributes : Type 0
Attributes = List (String × AnyValue)

-- An effective configuration as it is put into a message.
pub record ConfigEntry : Type 0 where
  pub name : String
  pub content_type : String
  pub body : String

-- `IAgentToServer`.
pub record AgentToServer : Type 0 where
  pub instance_uid : Bytes
  pub sequence_num : ℕ
  pub capabilities : ℕ
  pub health : Option ComponentHealth
  pub agent_description : Option Attributes
  pub remote_config_status : Option RemoteConfigStatus
  pub effective_config : Option ConfigEntry
  pub agent_disconnect : Bool

-- `retry_info` is `errorResponse.retryInfo?.retryAfterNanoseconds`, where it counts as true.
pub record ErrorResponse : Type 0 where
  pub retry_info : Option ℕ

-- `IServerToAgent`.
pub record ServerToAgent : Type 0 where
  pub error_response : Option ErrorResponse
  pub flags : ℕ
  pub new_instance_uid : Bytes
  pub remote_config : Option AgentRemoteConfig

-- How `send` ends; `body` is `none` where the decoder throws.
pub data TransportResult : Type 0 where
  response : ℕ → Option ServerToAgent → TransportResult
  rejected : TransportResult

-- How the promise of `applyRemoteConfig` ends.
pub data ApplyResult : Type 0 where
  resolved : ApplyResult
  rejected : Text → ApplyResult

pub record Timer : Type 0 where
  pub id : ℕ
  pub delay : ℕ

-- The fields of the class.
pub record Client : Type 0 where
  pub polling_interval : ℕ
  pub accepts_remote_config : Bool
  pub instance_uid : Bytes
  pub sequence_num : ℕ
  pub backoff : Backoff
  pub capabilities : ℕ
  pub polling_timer : Option ℕ
  pub stopping : Bool
  pub polling : Bool
  pub poll_again_immediately : Bool
  pub last_sent_effective_config : Option EffectiveConfig
  pub pending_effective_config : Option EffectiveConfig
  pub current_health : ComponentHealth
  pub agent_description : Option Attributes
  pub last_remote_config_hash : Option Bytes
  pub last_hashless_config : Option Text
  pub apply_in_flight : Bool
  pub remote_config_status : Option RemoteConfigStatus

-- The client and its surroundings: the armed timers, the requests of polls that wait for a response,
-- the disconnect messages that wait for theirs, the hashes of the applies that wait for their end, whether `start` waits for the resource, and what
-- the client sent and applied, newest first.
pub record World : Type 0 where
  pub client : Client
  pub open client use *
  pub armed : List Timer
  pub next_timer : ℕ
  pub requests : ℕ
  pub disconnects : ℕ
  pub applies : List (Option Bytes)
  pub starting : Bool
  pub sent : List AgentToServer
  pub applied_configs : List RemoteProfilingConfig
