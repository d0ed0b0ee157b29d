-- ===== src/Opamp/Client/EffectiveReport.antt =====
-- When OpAMPClient (src/opamp/OpAMPClient.ts) reports its effective configuration.
mod Stale
use splunk_otel_js.Common.{
  not, ◌&&◌, is_some, if◌then◌else◌, ℕ, Bool, true, false, Option, none, some, ◌≡◌, ◌≢◌, refl, sym,
  ◌∙◌, arith, ===_iff, option_eq, Bool-cases, inl, inr, ◌===◌, ◌==◌, ◌-◌,
}
use Prim.Native.Nat.{bit_and}
use splunk_otel_js.Opamp.RemoteConfig.{Bytes, HashField, AgentRemoteConfig, Libraries}
use splunk_otel_js.Opamp.Client.Remote.{attempt, handle_field, reject_hash, handle_remote_config}
use splunk_otel_js.Opamp.Client.{
  EffectiveConfig, config_eq, Client, World, ServerToAgent, TransportResult, ConfigEntry,
}
use splunk_otel_js.Opamp.Client.Methods.{
  Env, build_message, message_with, send, make_entry, poll, finish_poll,
}
use splunk_otel_js.Opamp.Client.Responses.{
  handle_pushed, poll_response, receive, accept_response, process_server_response, process_body,
  commit_pending,
}

-- What a remote configuration leaves as it is.
pub record SameReport (v w : World) : Type 0 where
  last_sent : w.last_sent_effective_config ≡ v.last_sent_effective_config
  pending : w.pending_effective_config ≡ v.pending_effective_config

module _ (lib : Libraries) where
  attempt-SameReport :
      (cfg : AgentRemoteConfig) (hash : Option Bytes) (w : World)
      → SameReport w (attempt lib cfg hash w)
  unfolding attempt
  attempt-SameReport cfg hash w = ground arith

  handle_field-SameReport :
      (cfg : AgentRemoteConfig) (f : HashField) (w : World)
      → SameReport w (handle_field lib cfg f w)
  unfolding handle_field reject_hash
  handle_field-SameReport cfg HashField.absent w = ground (arith, attempt-SameReport cfg none w)
  handle_field-SameReport cfg (HashField.present h) w =
      ground (arith, attempt-SameReport cfg (some h) w)
  handle_field-SameReport cfg (HashField.unreadable m) w = ground arith

  handle_pushed-SameReport :
      (o : Option AgentRemoteConfig) (w : World) → SameReport w (handle_pushed lib o w)
  unfolding handle_remote_config
  handle_pushed-SameReport none w = ground arith
  handle_pushed-SameReport (some cfg) w =
      ground (arith, handle_field-SameReport cfg cfg.config_hash w)

-- Whether a decoded response asks for the full state.
abbrev pub asks_full_state : Option ServerToAgent → Bool
asks_full_state none = false
asks_full_state (some r) = not (is_some r.error_response) && not (bit_and r.flags 1 == 0)

process_body-report :
    (lib : Libraries) (o : Option ServerToAgent) (w : World)
    → ((process_body lib o w).last_sent_effective_config
        ≡ (if asks_full_state o then none else w.last_sent_effective_config))
      × ((process_body lib o w).pending_effective_config ≡ w.pending_effective_config)
unfolding process_server_response accept_response
process_body-report lib none w = (refl, refl)
process_body-report lib (some r) w =
    ground (arith, handle_pushed-SameReport lib r.remote_config (accept_response r w))

pub finish_poll-SameReport : (jitter : ℕ) (w : World) → SameReport w (finish_poll jitter w)
unfolding finish_poll
finish_poll-SameReport jitter w = ground arith

pub message_with-reported :
    (config : EffectiveConfig) (c : Client)
    → (c.last_sent_effective_config ≢ some config
        → ((message_with config c).0.effective_config ≡ some (make_entry config))
          × ((message_with config c).1.pending_effective_config ≡ some config))
      × (c.last_sent_effective_config ≡ some config
          → ((message_with config c).0.effective_config ≡ none)
            × ((message_with config c).1.pending_effective_config ≡ c.pending_effective_config))
unfolding message_with
message_with-reported config c = (
  λ h. ground (arith, ===_iff (some config) c.last_sent_effective_config),
  λ h. ground (arith, ===_iff (some config) c.last_sent_effective_config),
)

-- The configuration that counts as acknowledged when the request ends.
abbrev pub latest : World → Option EffectiveConfig
latest w = elim w.pending_effective_config [
  | none ↦ w.last_sent_effective_config
  | some config ↦ some config
]

receive-report :
    (lib : Libraries) (status : ℕ) (body : Option ServerToAgent) (w : World)
    → (receive lib (TransportResult.response status body) w).last_sent_effective_config ≡ (
        if status == 200
        then (if asks_full_state body then none else latest w)
        else if status == 409
        then none
        else w.last_sent_effective_config)
unfolding receive
receive-report lib status body w = ground (arith, process_body-report lib body (commit_pending w))

pub poll_response-report :
    (lib : Libraries) (status : ℕ) (body : Option ServerToAgent) (jitter : ℕ) (w : World)
    → (poll_response lib (TransportResult.response status body) jitter w).last_sent_effective_config
      ≡ (if status == 200
          then (if asks_full_state body then none else latest w)
          else if status == 409
          then none
          else w.last_sent_effective_config)
unfolding poll_response
poll_response-report lib status body jitter w =
    let ended = record w { requests = w.requests - 1 } in
    let r = TransportResult.response status body in
    (finish_poll-SameReport jitter (receive lib r ended)).last_sent
    ∙ receive-report lib status body ended

-- A poll of a running client that sends its message, with the configuration in effect.
abbrev pub IsSent : Env → EffectiveConfig → World → Type 0
IsSent e config w = (w.stopping ≡ false) × (e.effective_config ≡ some config) × (e.encodes ≡ true)

pub poll-report :
    (e : Env) (now_in_effect : EffectiveConfig) (w : World)
    → IsSent e now_in_effect w
    → ((poll e w).last_sent_effective_config ≡ w.last_sent_effective_config)
      × ((poll e w).pending_effective_config
          ≡ (message_with now_in_effect w.client).1.pending_effective_config)
unfolding poll build_message message_with send
poll-report e now_in_effect w h = ground arith

-- A poll of a client that runs, and the end of its request.
abbrev pub after_poll : Libraries → TransportResult → ℕ → Env → World → World
after_poll lib r jitter e w = poll_response lib r jitter (poll e w)

-- What the message after that says of a configuration that is in effect then.
abbrev pub next_report :
    Libraries → TransportResult → ℕ → Env → World → EffectiveConfig → Option ConfigEntry
next_report lib r jitter e w config =
    (message_with config (after_poll lib r jitter e w).client).0.effective_config

reported_anew :
    (config : EffectiveConfig) (c : Client)
    → c.last_sent_effective_config ≡ none
    → (message_with config c).0.effective_config ≡ some (make_entry config)
reported_anew config c h = ((message_with-reported config c).0 (λ e. cc)).0

pub left_out :
    (config : EffectiveConfig) (c : Client)
    → c.last_sent_effective_config ≡ some config
    → (message_with config c).0.effective_config ≡ none
left_out config c h = ((message_with-reported config c).1 h).0

-- With nothing older pending, a poll makes its configuration the one to be acknowledged.
latest-poll :
    (e : Env) (polled : EffectiveConfig) (w : World)
    → IsSent e polled w
    → w.pending_effective_config ≡ none
    → latest (poll e w) ≡ some polled
latest-poll e polled w h p = elim (Bool-cases (some polled === w.last_sent_effective_config)) [
  | inl same ↦
      let known = sym ((===_iff (some polled) w.last_sent_effective_config).0 same) in
      ground (arith, poll-report e polled w h, (message_with-reported polled w.client).1 known)
  | inr other ↦ ground (
    arith,
    poll-report e polled w h,
    (message_with-reported polled w.client).0
        (λ k. ground (arith, ===_iff (some polled) w.last_sent_effective_config)),
  )
]

-- The report for an acknowledged configuration.
reported_unless :
    (config known : EffectiveConfig) (c : Client)
    → c.last_sent_effective_config ≡ some known
    → (message_with config c).0.effective_config
      ≡ (if config === known then none else some (make_entry config))
reported_unless config known c h = elim (Bool-cases (config === known)) [
  | inl same ↦ ground (arith, left_out config c, ===_iff config known)
  | inr other ↦ ground (
    arith,
    ===_iff config known,
    (message_with-reported config c).0 (λ k. ground (arith, ===_iff config known)),
  )
]

-- When no configuration waits for its acknowledgement, and the next poll of a running client sends its
-- message, what the message after that says of the configuration in effect then is settled by how the
-- poll ended. After a conflict (409) it has it in full. After status 200 it has it in full if the
-- response has no error and asks for the full state, and else exactly if it is not the configuration
-- that was in effect at the poll.
pub after_poll-report :
    (lib : Libraries) (body : Option ServerToAgent) (jitter : ℕ) (e : Env) (w : World)
    (polled config : EffectiveConfig)
    → IsSent e polled w
    → w.pending_effective_config ≡ none
    → (next_report lib (TransportResult.response 409 body) jitter e w config
        ≡ some (make_entry config))
      × (next_report lib (TransportResult.response 200 body) jitter e w config ≡ (
          if asks_full_state body
          then some (make_entry config)
          else if config === polled
          then none
          else some (make_entry config)))
after_poll-report lib body jitter e w polled config h p = (
  reported_anew config _ (poll_response-report lib 409 body jitter (poll e w)),
  elim (Bool-cases (asks_full_state body)) [
    | inl asks ↦ rw asks (
        reported_anew config _ (poll_response-report lib 200 body jitter (poll e w) ∙ ground arith))
    | inr quiet ↦ rw quiet (
        reported_unless config polled _ (
          poll_response-report lib 200 body jitter (poll e w)
          ∙ ground (arith, latest-poll e polled w h p)))
  ],
)
