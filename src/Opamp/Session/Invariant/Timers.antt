-- ===== src/Opamp/Session/Invariant/Timers.antt =====
-- The invariant of an OpAMPClient (src/opamp/OpAMPClient.ts) and what arms or clears a timer.
use splunk_otel_js.Common.{
  ℕ, ◌≤◌, ◌<◌, Bool-cases, ◌⊎◌, inl, inr, true, false, Option, none, some, List, [], ◌∷◌, ◌≡◌, ◌≢◌,
  refl, subst, sym, arith, Option-cases,
}
use splunk_otel_js.Opamp.Backoff.Bounds.{IsAtRest}
use splunk_otel_js.Opamp.Client.{Attributes, Timer, World, AgentToServer, Client, EffectiveConfig}
use splunk_otel_js.Opamp.Client.Methods.{
  clear_timer, Env, finish_start, fire, stop, trigger_poll, schedule, poll, disarm, send,
  build_message, begin_poll, encoded, disconnect_ended, finish_poll,
}
use splunk_otel_js.Opamp.Session.{Among}
use splunk_otel_js.Opamp.Session.Handling.{InFlight}

-- At most one timer is armed; it is the one that the client knows, and it waits for no time or for
-- the polling interval.
abbrev pub OneTimer : Option ℕ → ℕ → List Timer → Type 0
OneTimer known interval [] = Unit
OneTimer known interval (t ∷ []) = (known ≡ some t.id) × ((t.delay ≡ 0) ⊎ (t.delay ≡ interval))
OneTimer known interval (t ∷ u ∷ ts) = ⊥

pub record LoopInv (w : World) : Type 0 where
  pub one_timer : OneTimer w.polling_timer w.polling_interval w.armed
  pub stopped : w.stopping ≡ true → w.armed ≡ []
  pub polls : w.polling ≡ true → (w.requests ≡ 1) × (w.armed ≡ []) × (w.starting ≡ false)
  pub rests : w.polling ≡ false → w.requests ≡ 0
  pub starts : w.starting ≡ true → w.armed ≡ []
  pub scheduled : w.stopping ≡ false → w.polling ≡ false → w.starting ≡ false → w.armed ≢ []

pub record Inv (w : World) : Type 0 where
  pub loop : LoopInv w
  pub flight : InFlight w
  pub rest : IsAtRest w.backoff
  pub fresh : w.starting ≡ true → w.applies ≡ []
  pub farewell : w.stopping ≡ false → w.disconnects ≡ 0
  pub one_farewell : w.disconnects ≤ 1

disarm-OneTimer :
    (id interval : ℕ) (ts : List Timer) → OneTimer (some id) interval ts → disarm id ts ≡ []
unfolding disarm
disarm-OneTimer id interval [] h = refl
disarm-OneTimer id interval (t ∷ []) h = ground arith
disarm-OneTimer id interval (t ∷ u ∷ ts) h = absurd h

OneTimer-none : (interval : ℕ) (ts : List Timer) → OneTimer none interval ts → ts ≡ []
OneTimer-none interval [] h = refl
OneTimer-none interval (t ∷ []) h = cc h.0
OneTimer-none interval (t ∷ u ∷ ts) h = absurd h

clear_timer-armed :
    (w : World) → OneTimer w.polling_timer w.polling_interval w.armed → (clear_timer w).armed ≡ []
clear_timer-armed w h = elim (Option-cases w.polling_timer) [
  | inl e ↦ ground (arith, OneTimer-none w.polling_interval w.armed)
  | inr (id, e) ↦ ground (arith, disarm-OneTimer id w.polling_interval w.armed)
]

Among-OneTimer :
    (t : Timer) (known : Option ℕ) (interval : ℕ) (ts : List Timer)
    → OneTimer known interval ts
    → Among t ts
    → disarm t.id ts ≡ []
unfolding disarm
Among-OneTimer t known interval (u ∷ []) h (inl e) = ground arith
Among-OneTimer t known interval (u ∷ []) h (inr e) = absurd e
Among-OneTimer t known interval (u ∷ v ∷ ts) h a = absurd h
Among-OneTimer t known interval [] h a = absurd a

pub finish_poll-LoopInv :
    (jitter : ℕ) (w : World)
    → w.polling ≡ true
    → w.requests ≡ 0
    → w.armed ≡ []
    → w.starting ≡ false
    → IsAtRest w.backoff
    → LoopInv (finish_poll jitter w)
unfolding finish_poll
finish_poll-LoopInv jitter w p q a s r = ground arith

schedule-LoopInv :
    (w : World)
    → w.polling ≡ false
    → w.requests ≡ 0
    → w.starting ≡ false
    → OneTimer w.polling_timer w.polling_interval w.armed
    → (w.stopping ≡ true → w.armed ≡ [])
    → LoopInv (schedule 0 w)
unfolding schedule
schedule-LoopInv w p q s one st = ground (arith, clear_timer-armed w one)

pub trigger_poll-LoopInv : (w : World) → w.starting ≡ false → LoopInv w → LoopInv (trigger_poll w)
unfolding trigger_poll
trigger_poll-LoopInv w b v = ground (arith, schedule-LoopInv w)

send-LoopInv :
    (m : Option AgentToServer) (jitter : ℕ) (w : World)
    → w.polling ≡ true
    → w.requests ≡ 0
    → w.starting ≡ false
    → w.armed ≡ []
    → IsAtRest w.backoff
    → LoopInv (send m jitter w)
unfolding send
send-LoopInv none jitter w p q s a r = finish_poll-LoopInv jitter w p q a s r
send-LoopInv (some m) jitter w p q s a r = ground arith

-- What `send` leaves as it is.
record SameRest (v w : World) : Type 0 where
  applies : w.applies ≡ v.applies
  apply_in_flight : w.apply_in_flight ≡ v.apply_in_flight
  starting : w.starting ≡ v.starting
  stopping : w.stopping ≡ v.stopping
  disconnects : w.disconnects ≡ v.disconnects

pub finish_poll-disconnects :
    (jitter : ℕ) (w : World)
    → ((finish_poll jitter w).disconnects ≡ w.disconnects)
      × ((finish_poll jitter w).stopping ≡ w.stopping)
unfolding finish_poll
finish_poll-disconnects jitter w = ground arith

send-SameRest : (m : Option AgentToServer) (jitter : ℕ) (w : World) → SameRest w (send m jitter w)
unfolding send finish_poll
send-SameRest none jitter w = ground arith
send-SameRest (some m) jitter w = ground arith

send-IsAtRest :
    (m : Option AgentToServer) (jitter : ℕ) (w : World)
    → IsAtRest w.backoff
    → IsAtRest (send m jitter w).backoff
unfolding send finish_poll
send-IsAtRest none jitter w r = ground arith
send-IsAtRest (some m) jitter w r = r

-- A poll that begins on a world in which nothing is armed and no request is under way.
send-Inv :
    (m : Option AgentToServer) (jitter : ℕ) (w : World)
    → w.polling ≡ true
    → w.requests ≡ 0
    → w.starting ≡ false
    → w.armed ≡ []
    → InFlight w
    → IsAtRest w.backoff
    → (w.stopping ≡ false → w.disconnects ≡ 0)
    → w.disconnects ≤ 1
    → Inv (send m jitter w)
send-Inv m jitter w p q s a f r d b = record {
  loop = send-LoopInv m jitter w p q s a r;
  flight = ground (arith, send-SameRest m jitter w);
  rest = send-IsAtRest m jitter w r;
  fresh = ground (arith, send-SameRest m jitter w);
  farewell = ground (arith, send-SameRest m jitter w);
  one_farewell = ground (arith, send-SameRest m jitter w);
}

-- The message of a poll, and the client afterwards.
abbrev pub begun : Env → World → Option AgentToServer × Client
begun e w = build_message e.effective_config (begin_poll e.now w.client)

record SameFlags (c d : Client) : Type 0 where
  polling : d.polling ≡ c.polling
  stopping : d.stopping ≡ c.stopping
  backoff : d.backoff ≡ c.backoff
  apply_in_flight : d.apply_in_flight ≡ c.apply_in_flight

build_message-SameFlags :
    (o : Option EffectiveConfig) (c : Client) → SameFlags c (build_message o c).1
unfolding build_message
build_message-SameFlags none c = ground arith
build_message-SameFlags (some config) c = ground arith

pub poll_runs :
    (e : Env) (w : World)
    → w.stopping ≡ false
    → poll e w
      ≡ send (encoded e.encodes (begun e w).0) e.jitter (record w { client = (begun e w).1 })
unfolding poll
poll_runs e w h = rw h refl

pub poll_stopping : (e : Env) (w : World) → w.stopping ≡ true → poll e w ≡ w
unfolding poll
poll_stopping e w h = rw h refl

-- A poll, with nothing armed and no request under way.
poll-Inv :
    (e : Env) (w : World)
    → w.polling ≡ false
    → w.requests ≡ 0
    → w.starting ≡ false
    → w.armed ≡ []
    → InFlight w
    → IsAtRest w.backoff
    → (w.stopping ≡ false → w.disconnects ≡ 0)
    → w.disconnects ≤ 1
    → Inv (poll e w)
poll-Inv e w p q s a f r d b = elim (Bool-cases w.stopping) [
  | inl stopped ↦ subst Inv (sym (poll_stopping e w stopped)) (ground arith)
  | inr runs ↦
      let same = build_message-SameFlags e.effective_config (begin_poll e.now w.client) in
      subst Inv (sym (poll_runs e w runs)) (
        send-Inv (encoded e.encodes (begun e w).0) e.jitter (record w { client = (begun e w).1 })
          same.polling q s a (ground (arith, same.apply_in_flight, f))
          (ground (arith, same.backoff, r)) (λ _. d runs) b)
]

pub fire-Inv : (t : Timer) (e : Env) (w : World) → Among t w.armed → Inv w → Inv (fire t e w)
unfolding fire
fire-Inv t e w h v =
    let one = Among-OneTimer t w.polling_timer w.polling_interval w.armed v.loop.one_timer h in
    let rests : w.polling ≡ false = ground (arith, v.loop.polls) in
    poll-Inv e (record w { armed = disarm t.id w.armed }) rests (v.loop.rests rests)
      (ground (arith, v.loop.starts)) one v.flight v.rest v.farewell v.one_farewell

pub finish_start-Inv :
    (attributes : Attributes) (e : Env) (w : World)
    → w.starting ≡ true
    → Inv w
    → Inv (finish_start attributes e w)
unfolding finish_start
finish_start-Inv attributes e w h v =
    let rests : w.polling ≡ false = ground (arith, v.loop.polls) in
    poll-Inv e _ rests (v.loop.rests rests) refl (v.loop.starts h) v.flight v.rest v.farewell
      v.one_farewell

pub stop-Inv : (w : World) → w.stopping ≡ false → Inv w → Inv (stop w)
unfolding stop
stop-Inv w h v = ground (arith, clear_timer-armed w v.loop.one_timer)

pub disconnect_ended-Inv : (w : World) → 0 < w.disconnects → Inv w → Inv (disconnect_ended w)
unfolding disconnect_ended
disconnect_ended-Inv w h v = ground (arith, v.loop)
