-- ===== src/Opamp/RemoteConfig.antt =====
-- The remote configuration of src/opamp/types.ts and the reading of it in src/opamp/OpAMPClient.ts.
-- `TextDecoder.decode` and the YAML parser are libraries: a section's parameter. A YAML number is a
-- whole number here.
use splunk_otel_js.Common.{
  ℕ, ℤ, Text, codes, Bool, true, false, Option, none, some, List, [], ◌++◌, string_eq,
  if◌then◌else◌, or_else, is_some, trim, before, starts_with, is_empty,
}
use splunk_otel_js.Common.Yaml.{Yaml, number, property, is_object}

abbrev pub Bytes : Type 0
Bytes = List ℕ

pub data ParseResult {ℓ} (A : Type ℓ) : Type ℓ where
  parsed : A → ParseResult A
  failed : Text → ParseResult A

infixl 5 ◌>>=◌
abbrev pub ◌>>=◌ {ℓ κ} :
    {A : Type ℓ} {B : Type κ} → ParseResult A → (A → ParseResult B) → ParseResult B
parsed a >>= f = f a
failed e >>= f = failed e

pub record Libraries : Type 0 where
  pub decode_text : Bytes → Text
  pub parse_yaml : Text → ParseResult Yaml

-- `configHash` of the message, as `new Uint8Array` reads it.
pub data HashField : Type 0 where
  absent : HashField
  present : Bytes → HashField
  unreadable : Text → HashField

pub record ConfigFile : Type 0 where
  pub content_type : Option Text
  pub body : Option Bytes

-- `IAgentRemoteConfig`, with the file under the key `splunk.remote.config`.
pub record AgentRemoteConfig : Type 0 where
  pub config_hash : HashField
  pub file : Option ConfigFile

pub record RemoteProfilingConfig : Type 0 where
  pub cpu_enabled : Bool
  pub cpu_interval : Option ℤ
  pub memory_enabled : Bool
  pub callgraphs_enabled : Bool
  pub callgraphs_interval : Option ℤ

abbrev pub all_off : RemoteProfilingConfig
all_off = record {
  cpu_enabled = false;
  cpu_interval = none;
  memory_enabled = false;
  callgraphs_enabled = false;
  callgraphs_interval = none;
}

-- `typeof value?.sampling_interval === 'number' ? … : undefined`.
abbrev pub as_number : Option Yaml → Option ℤ
as_number (some (number n)) = some n
as_number _ = none

unfoldable pub profiling_config : Yaml → RemoteProfilingConfig
unfolding property
profiling_config document =
    let profiling =
      property (property (property (some document) "distribution") "splunk") "profiling" in
    let always_on = property profiling "always_on" in
    let cpu = property always_on "cpu_profiler" in
    let callgraphs = property profiling "callgraphs" in
    if is_object profiling
    then record {
      cpu_enabled = is_some cpu;
      cpu_interval = as_number (property cpu "sampling_interval");
      memory_enabled = is_some (property always_on "memory_profiler");
      callgraphs_enabled = is_some callgraphs;
      callgraphs_interval = as_number (property callgraphs "sampling_interval");
    }
    else all_off

-- A content type is accepted if it is empty, or `application/yaml` begins what stands before `;`.
unfoldable pub is_supported : Text → Bool
is_supported t =
    if is_empty t then true else starts_with (trim (before b';' t)) (codes "application/yaml")

module _ (lib : Libraries) where
  abbrev body_text : Option Bytes → Text
  body_text none = []
  body_text (some bytes) = lib.decode_text bytes

  -- `_remoteConfigBody`.
  unfoldable pub remote_config_body : AgentRemoteConfig → Text
  remote_config_body cfg = elim cfg.file [ none ↦ [] | some f ↦ body_text f.body ]

  parse_file : ConfigFile → ParseResult RemoteProfilingConfig
  parse_file f =
      if is_supported (or_else f.content_type [])
      then if is_empty (trim (body_text f.body))
        then parsed all_off
        else lib.parse_yaml (body_text f.body) >>= (λ document. parsed (profiling_config document))
      else failed (codes "Unsupported remote config content type: " ++ or_else f.content_type [])

  -- `_parseRemoteConfig`.
  unfoldable pub parse_remote_config : AgentRemoteConfig → ParseResult RemoteProfilingConfig
  unfolding parse_file
  parse_remote_config cfg = elim cfg.file [ none ↦ parsed all_off | some f ↦ parse_file f ]
