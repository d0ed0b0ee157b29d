-- ===== src/Opamp/Client/Duplicates.antt =====
-- Which remote configurations an OpAMPClient (src/opamp/OpAMPClient.ts) ignores.
use splunk_otel_js.Common.{
  ◌⊎◌, inl, inr, true, Text, Option, none, some, ◌≡◌, ap, arith, ===_refl, list_eq, nat_eq,
  option_eq,
}
use splunk_otel_js.Opamp.RemoteConfig.{
  Bytes, Libraries, AgentRemoteConfig, HashField, remote_config_body,
}
use splunk_otel_js.Opamp.Client.{World}
use splunk_otel_js.Opamp.Client.Methods.{trigger_poll}
use splunk_otel_js.Opamp.Client.Remote.{
  handle_remote_config, handle_field, is_duplicate, attempt, reject_hash,
}

-- What the client remembers of the attempt before, and what it applied so far.
pub record SameMemory (v w : World) : Type 0 where
  pub hash : w.last_remote_config_hash ≡ v.last_remote_config_hash
  pub body : w.last_hashless_config ≡ v.last_hashless_config
  pub applied : w.applied_configs ≡ v.applied_configs

pub trigger_poll-SameMemory : (w : World) → SameMemory w (trigger_poll w)
unfolding trigger_poll
trigger_poll-SameMemory w = ground arith

module _ (lib : Libraries) where
  -- After an attempt the configuration counts as a duplicate.
  pub attempt-hash :
      (cfg : AgentRemoteConfig) (hash : Option Bytes) (w : World)
      → (attempt lib cfg hash w).last_remote_config_hash ≡ hash
  unfolding attempt
  attempt-hash cfg hash w = ground arith

  attempt-body :
      (cfg : AgentRemoteConfig) (w : World)
      → (attempt lib cfg none w).last_hashless_config ≡ some (remote_config_body lib cfg)
  unfolding attempt
  attempt-body cfg w = ground arith

  reject_hash-body :
      (cfg : AgentRemoteConfig) (m : Text) (w : World)
      → (reject_hash lib cfg m w).last_hashless_config ≡ some (remote_config_body lib cfg)
  unfolding reject_hash
  reject_hash-body cfg m w = ground arith

  pub duplicate_of_hash :
      (cfg : AgentRemoteConfig) (h : Bytes) (w : World)
      → w.last_remote_config_hash ≡ some h
      → is_duplicate lib cfg (HashField.present h) w ≡ true
  unfolding is_duplicate
  duplicate_of_hash cfg h w e = rw e (===_refl (some h))

  duplicate_of_body :
      (cfg : AgentRemoteConfig) (w : World)
      → w.last_hashless_config ≡ some (remote_config_body lib cfg)
      → is_duplicate lib cfg HashField.absent w ≡ true
  unfolding is_duplicate
  duplicate_of_body cfg w e = rw e (===_refl (some (remote_config_body lib cfg)))

  duplicate_of_body_unreadable :
      (cfg : AgentRemoteConfig) (m : Text) (w : World)
      → w.last_hashless_config ≡ some (remote_config_body lib cfg)
      → is_duplicate lib cfg (HashField.unreadable m) w ≡ true
  unfolding is_duplicate
  duplicate_of_body_unreadable cfg m w e = rw e (===_refl (some (remote_config_body lib cfg)))

  -- A push changes nothing, or counts as a duplicate from then on.
  handle_field-cases :
      (cfg : AgentRemoteConfig) (f : HashField) (w : World)
      → (handle_field lib cfg f w ≡ w) ⊎ (is_duplicate lib cfg f (handle_field lib cfg f w) ≡ true)
  unfolding handle_field
  handle_field-cases cfg HashField.absent w =
      ground (arith, duplicate_of_body cfg (attempt lib cfg none w) (attempt-body cfg w))
  handle_field-cases cfg (HashField.present h) w =
      ground
        (arith, duplicate_of_hash cfg h (attempt lib cfg (some h) w) (attempt-hash cfg (some h) w))
  handle_field-cases cfg (HashField.unreadable m) w = ground (
    arith,
    duplicate_of_body_unreadable cfg m (reject_hash lib cfg m w) (reject_hash-body cfg m w),
  )

  handle_field_duplicate :
      (cfg : AgentRemoteConfig) (f : HashField) (w : World)
      → is_duplicate lib cfg f w ≡ true
      → handle_field lib cfg f w ≡ w
  unfolding handle_field
  handle_field_duplicate cfg HashField.absent w d = ground arith
  handle_field_duplicate cfg (HashField.present h) w d = ground arith
  handle_field_duplicate cfg (HashField.unreadable m) w d = ground arith

  -- A configuration that counts as a duplicate is ignored, whatever else it holds.
  pub handle_remote_config_duplicate :
      (cfg : AgentRemoteConfig) (w : World)
      → is_duplicate lib cfg cfg.config_hash w ≡ true
      → handle_remote_config lib cfg w ≡ w
  unfolding handle_remote_config
  handle_remote_config_duplicate cfg w d =
      ground (arith, handle_field_duplicate cfg cfg.config_hash w d)

  pub handle_remote_config-cases :
      (cfg : AgentRemoteConfig) (w : World)
      → (handle_remote_config lib cfg w ≡ w)
        ⊎ (is_duplicate lib cfg cfg.config_hash (handle_remote_config lib cfg w) ≡ true)
  unfolding handle_remote_config
  handle_remote_config-cases cfg w = ground (arith, handle_field-cases cfg cfg.config_hash w)

  -- A second push of the same configuration changes nothing more, in any state: whether the first
  -- one was attempted, failed to parse, had an unreadable hash, or was ignored.
  pub handle_remote_config_idempotent :
      (cfg : AgentRemoteConfig) (w : World)
      → handle_remote_config lib cfg (handle_remote_config lib cfg w)
        ≡ handle_remote_config lib cfg w
  handle_remote_config_idempotent cfg w = elim (handle_remote_config-cases cfg w) [
    | inl same ↦ ap (handle_remote_config lib cfg) same
    | inr d ↦ handle_remote_config_duplicate cfg (handle_remote_config lib cfg w) d
  ]

  pub is_duplicate-SameMemory :
      (cfg : AgentRemoteConfig) (f : HashField) (v w : World)
      → SameMemory v w
      → is_duplicate lib cfg f v ≡ true
      → is_duplicate lib cfg f w ≡ true
  unfolding is_duplicate
  is_duplicate-SameMemory cfg HashField.absent v w m d = rw m.body d
  is_duplicate-SameMemory cfg (HashField.present h) v w m d = rw m.hash d
  is_duplicate-SameMemory cfg (HashField.unreadable e) v w m d = rw m.body d
