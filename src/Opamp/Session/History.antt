-- ===== src/Opamp/Session/History.antt =====
-- What an OpAMPClient (src/opamp/OpAMPClient.ts) has sent after any history.
use mathlib.Core.List.{tail}
use splunk_otel_js.Common.{
  ℕ, ◌<◌, ◌+◌, ◌-◌, inl, inr, Bool, true, false, not, ◌&&◌, is_some, length, if◌then◌else◌, subst,
  sym, Option, none, some, List, [], ◌∷◌, ◌≡◌, refl, ◌∙◌, arith, Bool-cases,
}
use splunk_otel_js.Opamp.RemoteConfig.{Bytes, Libraries, AgentRemoteConfig}
use splunk_otel_js.Opamp.Client.{
  Client, EffectiveConfig, World, AgentToServer, TransportResult, ApplyResult, ServerToAgent,
}
use splunk_otel_js.Opamp.Client.Methods.{
  new_client, start, finish_start, fire, stop, apply_settled, trigger_poll, settled_status, Env,
  build_message, begin_poll, encoded, send, poll, disarm, disconnect_ended, finish_poll,
}
use splunk_otel_js.Opamp.Client.Remote.{handle_remote_config}
use splunk_otel_js.Opamp.Client.Responses.{
  poll_response, receive, process_server_response, accept_response, handle_pushed, process_body,
  commit_pending,
}
use splunk_otel_js.Opamp.Session.{
  Event, attributes_ready, timer_fired, request_ended, apply_ended, stop_called,
  disconnect_answered, IsEnabled, handle, Reach, here, next,
}
use splunk_otel_js.Opamp.Session.Handling.{receive-SameLoop}
use splunk_otel_js.Opamp.Session.Invariant.{handle-Inv, start-Inv, Reach-Inv}
use splunk_otel_js.Opamp.Session.Invariant.Timers.{Inv, LoopInv, poll_runs, poll_stopping}

-- The numbers of the messages, newest first, go down from below `n`.
abbrev pub Numbered : ℕ → List AgentToServer → Type 0
Numbered n [] = Unit
Numbered n (m ∷ ms) = (m.sequence_num < n) × Numbered m.sequence_num ms

abbrev pub IsNumbered : World → Type 0
IsNumbered w = Numbered w.sequence_num w.sent

-- Whether a poll in these surroundings cannot build its message.
abbrev pub is_unsent : Env → Bool
is_unsent e = not (is_some e.effective_config && e.encodes)

-- The polls of an event that take a number for no message.
abbrev pub skips : World → Event → ℕ
skips w (attributes_ready attributes e) = if w.stopping then 0 else if is_unsent e then 1 else 0
skips w (timer_fired t e) = if w.stopping then 0 else if is_unsent e then 1 else 0
skips w _ = 0

abbrev pub skipped : {lib : Libraries} {v w : World} → Reach lib v w → ℕ
skipped here = 0
skipped (next {v = u} r e h) = skipped r + skips u e

-- What the two later parts of a handler leave as it is.
finish_poll-sent :
    (jitter : ℕ) (w : World)
    → ((finish_poll jitter w).sent ≡ w.sent)
      × ((finish_poll jitter w).sequence_num ≡ w.sequence_num)
      × ((finish_poll jitter w).stopping ≡ w.stopping)
      × ((finish_poll jitter w).applied_configs ≡ w.applied_configs)
unfolding finish_poll
finish_poll-sent jitter w = ground arith

trigger_poll-sent :
    (w : World)
    → ((trigger_poll w).sent ≡ w.sent)
      × ((trigger_poll w).sequence_num ≡ w.sequence_num)
      × ((trigger_poll w).stopping ≡ w.stopping)
      × ((trigger_poll w).applied_configs ≡ w.applied_configs)
unfolding trigger_poll
trigger_poll-sent w = ground arith

apply_settled-sent :
    (r : ApplyResult) (hash : Option Bytes) (w : World)
    → ((apply_settled r hash w).sent ≡ w.sent)
      × ((apply_settled r hash w).sequence_num ≡ w.sequence_num)
      × ((apply_settled r hash w).stopping ≡ w.stopping)
      × ((apply_settled r hash w).applied_configs ≡ w.applied_configs)
unfolding apply_settled
apply_settled-sent ApplyResult.resolved hash w =
    ground (arith, trigger_poll-sent (settled_status ApplyResult.resolved hash w))
apply_settled-sent (ApplyResult.rejected m) hash w =
    ground (arith, trigger_poll-sent (settled_status (ApplyResult.rejected m) hash w))

-- In order, and the numbers that were taken are those of the messages and `k` more.
abbrev Account : ℕ → World → Type 0
Account k w = IsNumbered w × (w.sequence_num ≡ length w.sent + k)

Numbered-suc : (n : ℕ) (ms : List AgentToServer) → Numbered n ms → Numbered (n + 1) ms
Numbered-suc n [] h = h
Numbered-suc n (m ∷ ms) (h, k) = (omega arith, k)

-- A poll that ends without a message.
unsent-Account :
    (jitter k : ℕ) (c : Client) (w : World)
    → c.sequence_num ≡ w.sequence_num + 1
    → Account k w
    → Account (k + 1) (finish_poll jitter (record w { client = c }))
unsent-Account jitter k c w h (n, e) =
    let same = finish_poll-sent jitter (record w { client = c }) in
    (
      rw (same.0, same.1, h) (Numbered-suc w.sequence_num w.sent n),
      rw (same.0, same.1, h) (omega (arith, e)),
    )

send-Account :
    (o : Option EffectiveConfig) (b : Bool) (now jitter k : ℕ) (w : World)
    → Account k w
    → let (m, c) = build_message o (begin_poll now w.client) in
      Account
        (k + (if not (is_some o && b) then 1 else 0))
        (send (encoded b m) jitter (record w { client = c }))
unfolding build_message send
send-Account none true now jitter k w h =
    unsent-Account jitter k (build_message none (begin_poll now w.client)).1 w refl h
send-Account none false now jitter k w h =
    unsent-Account jitter k (build_message none (begin_poll now w.client)).1 w refl h
send-Account (some config) false now jitter k w h =
    unsent-Account jitter k (build_message (some config) (begin_poll now w.client)).1 w refl h
send-Account (some config) true now jitter k w (n, e) = ((omega arith, n), omega (arith, e))

poll-Account :
    (e : Env) (k : ℕ) (w : World)
    → Account k w
    → Account (k + (if w.stopping then 0 else if is_unsent e then 1 else 0)) (poll e w)
poll-Account e k w h = elim (Bool-cases w.stopping) [
  | inl stopped ↦
      subst goal (sym stopped)
        (subst (Account (k + 0)) (sym (poll_stopping e w stopped)) (h.0, omega (arith, h.1)))
  | inr runs ↦ subst goal (sym runs) (
      subst (Account (k + (if is_unsent e then 1 else 0))) (sym (poll_runs e w runs))
        (send-Account e.effective_config e.encodes e.now e.jitter k w h))
]
  where
    goal : Bool → Type 0
    goal b = Account (k + (if b then 0 else if is_unsent e then 1 else 0)) (poll e w)

requests-polling : (w : World) → LoopInv w → 0 < w.requests → w.polling ≡ true
requests-polling w v h = elim (Bool-cases w.polling) [
  | inl e ↦ e
  | inr e ↦ absurd (omega (arith, v.rests e))
]

module _ (lib : Libraries) where
  poll_response-sent :
      (r : TransportResult) (jitter : ℕ) (w : World)
      → w.polling ≡ true
      → ((poll_response lib r jitter w).sent ≡ w.sent)
        × ((poll_response lib r jitter w).sequence_num ≡ w.sequence_num)
        × ((poll_response lib r jitter w).stopping ≡ w.stopping)
  unfolding poll_response
  poll_response-sent r jitter w p =
      let ended = record w { requests = w.requests - 1 } in
      ground (arith, receive-SameLoop lib r ended, finish_poll-sent jitter (receive lib r ended))

  same-Account :
      (k : ℕ) (w v : World)
      → v.sent ≡ w.sent
      → v.sequence_num ≡ w.sequence_num
      → Account k w
      → Account (k + 0) v
  same-Account k w v s n (h, e) = (rw (s, n) h, rw (s, n) (omega (arith, e)))

  handle-Account :
      (k : ℕ) (w : World) (e : Event)
      → IsEnabled w e
      → Inv w
      → Account k w
      → Account (k + skips w e) (handle lib w e)
  unfolding handle
  handle-Account k w (attributes_ready attributes e) h v n =
      unfold finish_start in
      poll-Account e k
        (record w {
          client = record w.client { agent_description = some attributes };
          starting = false;
        })
        n
  handle-Account k w (timer_fired t e) h v n =
      unfold fire in poll-Account e k (record w { armed = disarm t.id w.armed }) n
  handle-Account k w (request_ended r jitter) h v n =
      let same = poll_response-sent r jitter w (requests-polling w v.loop h) in
      same-Account k w (poll_response lib r jitter w) same.0 same.1 n
  handle-Account k w (apply_ended r hash) h v n =
      let same = apply_settled-sent r hash (record w { applies = tail w.applies }) in
      same-Account k w (apply_settled r hash (record w { applies = tail w.applies })) same.0 same.1
        n
  handle-Account k w stop_called h v (n, e) = unfold stop in ground arith
  handle-Account k w disconnect_answered h v n =
      unfold disconnect_ended in
      same-Account k w (record w { disconnects = w.disconnects - 1 }) refl refl n

  Reach-Account : {v w : World} (r : Reach lib v w) → Inv v → Account 0 v → Account (skipped r) w
  Reach-Account here i n = n
  Reach-Account (next r e h) i n =
      handle-Account (skipped r) _ e h (Reach-Inv lib r i) (Reach-Account r i n)

-- In any history of a started client the messages, the disconnect message included, bear numbers
-- that go up strictly in the order in which they are sent; and the numbers that were taken are as many
-- as the messages and, besides, the polls that threw while they built theirs, each of which skips one.
pub Reach-start-IsNumbered :
    (lib : Libraries) (interval : ℕ) (remote : Bool) (uid : Bytes) (made now : ℕ) {w : World}
    (r : Reach lib (start (new_client interval remote uid made) now) w)
    → IsNumbered w × (w.sequence_num ≡ length w.sent + skipped r)
unfolding start new_client
Reach-start-IsNumbered lib interval remote uid made now r =
    Reach-Account lib r (start-Inv interval remote uid made now) (tt, refl)

module _ (lib : Libraries) where
  handle_remote_config_stopping :
      (cfg : AgentRemoteConfig) (w : World) → w.stopping ≡ true → handle_remote_config lib cfg w ≡ w
  unfolding handle_remote_config
  handle_remote_config_stopping cfg w s = ground arith

  handle_pushed_stopping :
      (o : Option AgentRemoteConfig) (w : World) → w.stopping ≡ true → handle_pushed lib o w ≡ w
  handle_pushed_stopping none w s = refl
  handle_pushed_stopping (some cfg) w s = ground (arith, handle_remote_config_stopping cfg w)

  process_body_stopping :
      (o : Option ServerToAgent) (w : World)
      → w.stopping ≡ true
      → (process_body lib o w).applied_configs ≡ w.applied_configs
  unfolding process_server_response accept_response
  process_body_stopping none w s = refl
  process_body_stopping (some r) w s =
      ground (arith, handle_pushed_stopping r.remote_config (accept_response r w))

  receive_stopping :
      (r : TransportResult) (w : World)
      → w.stopping ≡ true
      → (receive lib r w).applied_configs ≡ w.applied_configs
  unfolding receive
  receive_stopping TransportResult.rejected w s = refl
  receive_stopping (TransportResult.response status body) w s =
      ground (arith, process_body_stopping body (commit_pending w))

  poll_response_stopping :
      (r : TransportResult) (jitter : ℕ) (w : World)
      → w.stopping ≡ true
      → (poll_response lib r jitter w).applied_configs ≡ w.applied_configs
  unfolding poll_response
  poll_response_stopping r jitter w s =
      let ended = record w { requests = w.requests - 1 } in
      ground (arith, receive_stopping r ended, finish_poll-sent jitter (receive lib r ended))

-- Still stopping, with the same messages sent and the same configurations applied.
pub record Quiet (v w : World) : Type 0 where
  pub stopping : w.stopping ≡ true
  pub sent : w.sent ≡ v.sent
  pub applied_configs : w.applied_configs ≡ v.applied_configs

module _ (lib : Libraries) where
  handle-Quiet :
      (w : World) (e : Event) → IsEnabled w e → Inv w → w.stopping ≡ true → Quiet w (handle lib w e)
  unfolding handle
  handle-Quiet w (attributes_ready attributes e) h v s =
      unfold finish_start in subst (Quiet w) (sym (poll_stopping e _ s)) (ground arith)
  handle-Quiet w (timer_fired t e) h v s =
      unfold fire in subst (Quiet w) (sym (poll_stopping e _ s)) (ground arith)
  handle-Quiet w (request_ended r jitter) h v s = ground (
    arith,
    poll_response-sent lib r jitter w (requests-polling w v.loop h),
    poll_response_stopping lib r jitter w,
  )
  handle-Quiet w (apply_ended r hash) h v s =
      ground (arith, apply_settled-sent r hash (record w { applies = tail w.applies }))
  handle-Quiet w stop_called h v s = cc
  handle-Quiet w disconnect_answered h v s = unfold disconnect_ended in ground arith

  Reach-Quiet :
      {v w : World} → Inv v → v.stopping ≡ true → Reach lib v w → Quiet v w × (w.armed ≡ [])
  Reach-Quiet i s here =
      (record { stopping = s; sent = refl; applied_configs = refl }, i.loop.stopped s)
  Reach-Quiet i s (next {v = u} r e h) =
      let (q, _) = Reach-Quiet i s r in
      let here = Reach-Inv lib r i in
      let q' = handle-Quiet u e h here q.stopping in
      (
        record {
          stopping = q'.stopping;
          sent = q'.sent ∙ q.sent;
          applied_configs = q'.applied_configs ∙ q.applied_configs;
        },
        (handle-Inv lib u e h here).loop.stopped q'.stopping,
      )

-- Once a started client is stopping, nothing is sent and no configuration is applied any more,
-- however the requests and applies under way end, and no timer is armed.
pub Reach-start-Quiet :
    (lib : Libraries) (interval : ℕ) (remote : Bool) (uid : Bytes) (made now : ℕ) {v w : World}
    → Reach lib (start (new_client interval remote uid made) now) v
    → v.stopping ≡ true
    → Reach lib v w
    → Quiet v w × (w.armed ≡ [])
Reach-start-Quiet lib interval remote uid made now r s q =
    Reach-Quiet lib (Reach-Inv lib r (start-Inv interval remote uid made now)) s q
