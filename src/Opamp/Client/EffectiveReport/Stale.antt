-- ===== src/Opamp/Client/EffectiveReport/Stale.antt =====
-- A configuration that an OpAMPClient (src/opamp/OpAMPClient.ts) takes as acknowledged too early.
use splunk_otel_js.Common.{
  ℕ, false, Option, none, some, ◌≡◌, ◌≢◌, ◌∙◌, true, refl, arith, option_eq, ◌-◌,
}
use splunk_otel_js.Opamp.RemoteConfig.{Libraries}
use splunk_otel_js.Opamp.Client.{EffectiveConfig, config_eq, World, ServerToAgent, TransportResult}
use splunk_otel_js.Opamp.Client.Methods.{Env, message_with, build_message, send, poll, finish_poll}
use splunk_otel_js.Opamp.Client.Responses.{poll_response, receive}
use splunk_otel_js.Opamp.Client.EffectiveReport.{
  asks_full_state, finish_poll-SameReport, message_with-reported, poll_response-report, poll-report,
  after_poll, IsSent, next_report, left_out,
}

finish_poll-stopping : (jitter : ℕ) (w : World) → (finish_poll jitter w).stopping ≡ w.stopping
unfolding finish_poll
finish_poll-stopping jitter w = ground arith

poll-stopping :
    (e : Env) (polled : EffectiveConfig) (w : World)
    → IsSent e polled w
    → (poll e w).stopping ≡ w.stopping
unfolding poll build_message message_with send
poll-stopping e polled w h = ground arith

-- A poll that sends its message.
abbrev sending : ℕ → EffectiveConfig → Env
sending now config = record {
  now = now;
  effective_config = some config;
  encodes = true;
  jitter = 0;
}

-- After a failed poll nothing new is acknowledged, and its configuration stays pending.
after_poll-rejected :
    (lib : Libraries) (jitter : ℕ) (e : Env) (polled : EffectiveConfig) (w : World)
    → IsSent e polled w
    → let v = after_poll lib TransportResult.rejected jitter e w in
      (v.last_sent_effective_config ≡ w.last_sent_effective_config)
      × (v.pending_effective_config ≡ (message_with polled w.client).1.pending_effective_config)
      × (v.stopping ≡ false)
unfolding poll_response receive
after_poll-rejected lib jitter e polled w h =
    let ended = record (poll e w) { requests = (poll e w).requests - 1 } in
    ground (
      arith,
      finish_poll-SameReport jitter ended,
      finish_poll-stopping jitter ended,
      poll-report e polled w h,
      poll-stopping e polled w h,
    )

-- A configuration that was pending when its poll failed counts as acknowledged after the next poll
-- that succeeds, although that poll does not carry it: with the old configuration `old`
-- acknowledged, let a poll with `new` fail, a poll with `old` succeed without being asked for the
-- full state, and `new` be in effect again. Neither of the last two messages has a configuration.
after_poll-stale_pending :
    (lib : Libraries) (body : Option ServerToAgent) (j k now later : ℕ) (old new : EffectiveConfig)
    (w : World)
    → w.stopping ≡ false
    → w.last_sent_effective_config ≡ some old
    → new ≢ old
    → asks_full_state body ≡ false
    → let failed = after_poll lib TransportResult.rejected j (sending now new) w in
      let back : Env = sending later old in
      ((message_with old failed.client).0.effective_config ≡ none)
      × (next_report lib (TransportResult.response 200 body) k back failed new ≡ none)
after_poll-stale_pending lib body j k now later old new w h s ne q = (
  left_out old failed.client known,
  left_out new _ (
      poll_response-report lib 200 body k (poll back failed)
      ∙ ground (
        arith,
        poll-report back old failed (stays, refl, refl),
        pending,
        (message_with-reported old failed.client).1 known,
      )),
)
  where
    failed : World
    failed = after_poll lib TransportResult.rejected j (sending now new) w

    back : Env
    back = sending later old

    facts :
        (failed.last_sent_effective_config ≡ w.last_sent_effective_config)
        × (failed.pending_effective_config ≡ (message_with new w.client).1.pending_effective_config)
        × (failed.stopping ≡ false)
    facts = after_poll-rejected lib j (sending now new) new w (h, refl, refl)

    known : failed.last_sent_effective_config ≡ some old
    known = facts.0 ∙ s

    stays : failed.stopping ≡ false
    stays = facts.2

    pending : failed.pending_effective_config ≡ some new
    pending = facts.1 ∙ ((message_with-reported new w.client).0 (λ e. ne (cc))).1
