-- ===== src/Opamp/Session/Progress.antt =====
-- That an OpAMPClient (src/opamp/OpAMPClient.ts) goes on polling.
use splunk_otel_js.Common.{
  ℕ, ◌<◌, ◌-◌, ◌⊎◌, Option, none, some, inl, inr, Bool, true, false, List, [], ◌∷◌, ◌≡◌, ◌≢◌, refl,
  ap, subst, sym, ◌∙◌, arith, Bool-cases,
}
use splunk_otel_js.Opamp.RemoteConfig.{Bytes, Libraries}
use splunk_otel_js.Opamp.Client.{
  Attributes, Timer, World, TransportResult, AgentToServer, Client, EffectiveConfig,
}
use splunk_otel_js.Opamp.Client.Methods.{
  Env, new_client, start, finish_start, fire, poll, schedule, schedule_by_backoff, build_message,
  begin_poll, encoded, send, disarm, finish_poll,
}
use splunk_otel_js.Opamp.Client.Responses.{poll_response, receive}
use splunk_otel_js.Opamp.Session.{
  attributes_ready, timer_fired, request_ended, Among, handle, Reach,
}
use splunk_otel_js.Opamp.Session.Handling.{receive-SameLoop}
use splunk_otel_js.Opamp.Session.Invariant.{handle-Inv, Reach-start-Inv}
use splunk_otel_js.Opamp.Session.Invariant.Timers.{Inv, poll_runs}

-- One message more was sent.
abbrev pub Sends : World → World → Type 0
Sends w v = (m : AgentToServer) × (v.sent ≡ m ∷ w.sent)

-- The callback throws, or the message cannot be encoded.
abbrev pub IsUnsent : Env → Type 0
IsUnsent e = (e.effective_config ≡ none) ⊎ (e.encodes ≡ false)

-- One message more was sent, or building it threw and a timer for the next poll is armed.
abbrev pub Continues : Env → World → World → Type 0
Continues e w v = Sends w v ⊎ (IsUnsent e × (v.sent ≡ w.sent) × (v.armed ≢ []))

-- What the client waits for: the attributes, an armed timer, or a response and then the timer that is
-- armed behind it.
module _ (lib : Libraries) (attributes : Attributes) (e : Env) (r : TransportResult)
    (jitter : ℕ) where
  pub data Awaits (w : World) : World → Type 0 where
    resource : w.starting ≡ true → Awaits w (handle lib w (attributes_ready attributes e))
    timer : (t : Timer) → Among t w.armed → Awaits w (handle lib w (timer_fired t e))
    response :
        0 < w.requests
        → (t : Timer) → Among t (handle lib w (request_ended r jitter)).armed
        → Awaits w (handle lib (handle lib w (request_ended r jitter)) (timer_fired t e))

finish_poll_leaves :
    (jitter : ℕ) (w : World)
    → ((finish_poll jitter w).stopping ≡ w.stopping)
      × ((finish_poll jitter w).starting ≡ w.starting)
      × ((finish_poll jitter w).polling ≡ false)
      × ((finish_poll jitter w).sent ≡ w.sent)
unfolding finish_poll schedule schedule_by_backoff
finish_poll_leaves jitter w = elim (Bool-cases w.poll_again_immediately) [
  | inl y ↦ elim (Bool-cases w.stopping) [ inl s ↦ ground arith | inr s ↦ ground arith ]
  | inr n ↦ elim (Bool-cases w.stopping) [ inl s ↦ ground arith | inr s ↦ ground arith ]
]

first_armed : (ts : List Timer) → ts ≢ [] → (t : Timer) × Among t ts
first_armed [] h = absurd (h refl)
first_armed (t ∷ ts) h = (t, inl refl)

encoded-IsUnsent :
    (e : Env) (c : Client)
    → encoded e.encodes (build_message e.effective_config c).0 ≡ none
    → IsUnsent e
unfolding build_message
encoded-IsUnsent e c h = ground arith

-- A poll that did not send its message is over.
abbrev Outcome : Env → World → World → Type 0
Outcome e w v =
    Sends w v
    ⊎ (IsUnsent e
        × (v.sent ≡ w.sent)
        × (v.stopping ≡ false)
        × (v.polling ≡ false)
        × (v.starting ≡ w.starting))

send-Outcome :
    (e : Env) (m : Option AgentToServer) (w : World)
    → (m ≡ none → IsUnsent e)
    → w.stopping ≡ false
    → Outcome e w (send m e.jitter w)
unfolding send
send-Outcome e none w u h =
    let left = finish_poll_leaves e.jitter w in inr (u refl, left.3, left.0 ∙ h, left.2, left.1)
send-Outcome e (some m) w u h = inl (m, refl)

build_message-stopping :
    (o : Option EffectiveConfig) (c : Client) → (build_message o c).1.stopping ≡ c.stopping
unfolding build_message
build_message-stopping none c = refl
build_message-stopping (some config) c = refl

poll-Outcome : (e : Env) (w : World) → w.stopping ≡ false → Outcome e w (poll e w)
poll-Outcome e w h =
    let c = begin_poll e.now w.client in
    subst (Outcome e w) (sym (poll_runs e w h)) (
      send-Outcome e (encoded e.encodes (build_message e.effective_config c).0)
        (record w { client = (build_message e.effective_config c).1 }) (encoded-IsUnsent e c)
        (build_message-stopping e.effective_config c ∙ h))

unchanged-Continues :
    (e : Env) (w u v : World) → u.sent ≡ w.sent → Continues e u v → Continues e w v
unchanged-Continues e w u v h (inl (m, sends)) = inl (m, sends ∙ ap (λ ms. m ∷ ms) h)
unchanged-Continues e w u v h (inr (x, sent, armed)) = inr (x, sent ∙ h, armed)

-- After a poll that sent nothing the next one is armed.
Outcome-Continues :
    (e : Env) (w v : World) → w.starting ≡ false → Inv v → Outcome e w v → Continues e w v
Outcome-Continues e w v s i (inl sends) = inl sends
Outcome-Continues e w v s i (inr (u, sent, st, p, same)) =
    inr (u, sent, i.loop.scheduled st p (same ∙ s))

abbrev resumed : Attributes → World → World
resumed attributes w = record w {
  client = record w.client { agent_description = some attributes };
  starting = false;
}

abbrev fired : Timer → World → World
fired t w = record w { armed = disarm t.id w.armed }

module _ (lib : Libraries) (attributes : Attributes) (e : Env) (r : TransportResult)
    (jitter : ℕ) where
  after_response :
      (w : World)
      → w.polling ≡ true
      → ((handle lib w (request_ended r jitter)).stopping ≡ w.stopping)
        × ((handle lib w (request_ended r jitter)).starting ≡ w.starting)
        × ((handle lib w (request_ended r jitter)).polling ≡ false)
        × ((handle lib w (request_ended r jitter)).sent ≡ w.sent)
  unfolding handle poll_response
  after_response w p =
      let v = record w { requests = w.requests - 1 } in
      let same = receive-SameLoop lib r v p in
      let left = finish_poll_leaves jitter (receive lib r v) in
      (left.0 ∙ same.stopping, left.1 ∙ same.starting, left.2, left.3 ∙ same.sent)

  Inv-progress :
      (w : World)
      → Inv w
      → w.stopping ≡ false
      → (v : World) × Awaits lib attributes e r jitter w v × Continues e w v
  unfolding handle finish_start fire
  Inv-progress w i running = elim (Bool-cases w.starting) [
    | inl s ↦ (
      handle lib w (attributes_ready attributes e),
      Awaits.resource s,
      Outcome-Continues e (resumed attributes w) _ refl
          (handle-Inv lib w (attributes_ready attributes e) s i)
          (poll-Outcome e (resumed attributes w) running),
    )
    | inr s ↦ elim (Bool-cases w.polling) [
      | inl p ↦ respond p s
      | inr p ↦
          let (t, among) = first_armed w.armed (i.loop.scheduled running p s) in
          (
            handle lib w (timer_fired t e),
            Awaits.timer t among,
            Outcome-Continues e (fired t w) _ s (handle-Inv lib w (timer_fired t e) among i)
                (poll-Outcome e (fired t w) running),
          )
    ]
  ]
    where
      respond :
          w.polling ≡ true
          → w.starting ≡ false
          → (v : World) × Awaits lib attributes e r jitter w v × Continues e w v
      respond p s =
          let u = handle lib w (request_ended r jitter) in
          let pending : 0 < w.requests = ground (arith, (i.loop.polls p).0) in
          let after = after_response w p in
          let j = handle-Inv lib w (request_ended r jitter) pending i in
          let (t, among) =
            first_armed u.armed (j.loop.scheduled (after.0 ∙ running) after.2 (after.1 ∙ s)) in
          (
            handle lib u (timer_fired t e),
            Awaits.response pending t among,
            unchanged-Continues e w u (handle lib u (timer_fired t e)) after.3 (
                Outcome-Continues e (fired t u) _ (after.1 ∙ s)
                  (handle-Inv lib u (timer_fired t e) among j)
                  (poll-Outcome e (fired t u) (after.0 ∙ running))),
          )

  -- However far a started client has come, as long as it was not stopped, what it waits for next is the
  -- resource, or an armed timer, or the end of a request and then a timer that is armed by it; and once
  -- that has happened, whatever the response is, one message more is sent, or building it threw, in
  -- getEffectiveConfig or in the encoder, and the timer for the next poll is armed.
  pub Reach-start-progress :
      (interval : ℕ) (remote : Bool) (uid : Bytes) (made now : ℕ) {w : World}
      → Reach lib (start (new_client interval remote uid made) now) w
      → w.stopping ≡ false
      → (v : World) × Awaits lib attributes e r jitter w v × Continues e w v
  Reach-start-progress interval remote uid made now {w} h running =
      Inv-progress w (Reach-start-Inv lib interval remote uid made now h) running
