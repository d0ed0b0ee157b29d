-- ===== src/Opamp/Client/Remote.antt =====
-- `_handleRemoteConfig` of src/opamp/OpAMPClient.ts, up to its await.
use splunk_otel_js.Common.{
  Text, Bool, true, false, not, Option, none, some, [], ◌∷◌, ◌===◌, nat_eq, list_eq, option_eq,
  if◌then◌else◌, is_some,
}
use splunk_otel_js.Opamp.RemoteConfig.{
  Bytes, Libraries, AgentRemoteConfig, HashField, ParseResult, remote_config_body,
  parse_remote_config,
}
use splunk_otel_js.Opamp.Client.{config_eq, RemoteConfigStatuses, World}
use splunk_otel_js.Opamp.Client.Methods.{trigger_poll, set_remote_config_status, report_failure}

module _ (lib : Libraries) where
  -- `_handleRemoteConfig` from the record of what is attempted up to the call of
  -- `applyRemoteConfig`, or to the end where the document cannot be read.
  unfoldable pub attempt : AgentRemoteConfig → Option Bytes → World → World
  unfolding set_remote_config_status trigger_poll
  attempt cfg hash w =
      let recorded = record w {
        client = record w.client {
          apply_in_flight = true;
          last_remote_config_hash = hash;
          last_hashless_config = if is_some hash then none else some (remote_config_body lib cfg);
        };
      } in
      let begun =
        trigger_poll (set_remote_config_status RemoteConfigStatuses.applying hash [] recorded) in
      elim (parse_remote_config lib cfg) [
        | ParseResult.failed message ↦
            (let reported = trigger_poll (report_failure hash message begun) in
              record reported { client = record reported.client { apply_in_flight = false } })
        | ParseResult.parsed config ↦ record begun {
          applies = hash ∷ begun.applies;
          applied_configs = config ∷ begun.applied_configs;
        }
      ]

  -- The branch for a hash that cannot be read.
  unfoldable pub reject_hash : AgentRemoteConfig → Text → World → World
  unfolding set_remote_config_status trigger_poll
  reject_hash cfg message w = trigger_poll (
      report_failure none message (record w {
        client = record w.client {
          last_hashless_config = some (remote_config_body lib cfg);
          last_remote_config_hash = none;
        };
      }))

  -- Whether the push is the one that was attempted last.
  unfoldable pub is_duplicate : AgentRemoteConfig → HashField → World → Bool
  is_duplicate cfg (HashField.present hash) w = some hash === w.last_remote_config_hash
  is_duplicate cfg _ w = some (remote_config_body lib cfg) === w.last_hashless_config

  unfoldable pub handle_field : AgentRemoteConfig → HashField → World → World
  handle_field cfg (HashField.unreadable message) w =
      if is_duplicate cfg (HashField.unreadable message) w then w else reject_hash cfg message w
  handle_field cfg HashField.absent w =
      if is_duplicate cfg HashField.absent w
      then w
      else if w.apply_in_flight
      then w
      else attempt cfg none w
  handle_field cfg (HashField.present hash) w =
      if is_duplicate cfg (HashField.present hash) w
      then w
      else if w.apply_in_flight
      then w
      else attempt cfg (some hash) w

  -- `_handleRemoteConfig`.
  unfoldable pub handle_remote_config : AgentRemoteConfig → World → World
  unfolding handle_field
  handle_remote_config cfg w =
      if not w.accepts_remote_config
      then w
      else if w.stopping
      then w
      else handle_field cfg cfg.config_hash w
