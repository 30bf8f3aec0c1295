-- ===== src/Agent/Greeting.antt =====
-- mac/Agent/main.c: `send_control` keeps a connection in order.
use mathlib.Core.List.{append-nil}
use touchpad.Base.{
  ℕ, ◌+◌, ◌%◌, ◌^◌, ◌<◌, ◌≡◌, ◌∙◌, ap, sym, refl, subst, inl, inr, Bool, true, false, arith, Option,
  none, some, List, [], ◌∷◌, ◌++◌,
}
use touchpad.Wire.RoundTrip.{sent_bytes}
use touchpad.Mtp1.Valid.{code}
use touchpad.Mtp1.Feed.{Sent}
use touchpad.Agent.Types.{Agent}
use touchpad.Agent.Send
use touchpad.Agent.Send.{
  Progress, SendsPrefix, send_all, send_control, send_all-SendsPrefix, open_session, start_session,
  end_session,
}
use touchpad.Agent.Controls.{control_frame, control_frame-IsSendable, send_control-SendsPrefix}
use touchpad.Agent.Order.{
  Stage, greets, type_at, next_stage, InOrder, stage_after, number_after, stage_after-append,
  number_after-append, InOrder-append,
}
use touchpad.Agent.Threads.{Flight, Sender, System, after_control}
use touchpad.Agent.Sessions.{Handshake, InSession, Good}
use touchpad.Agent.Steps.{Begun-more}

-- A control message has been sent whole.
Handshake-sent :
    (st : Stage) (a : Agent) (flights : List Flight) (bytes : List ℕ) (now : ℕ)
    → (h : Handshake st a flights bytes) → now < 2 ^ 64
    → let n = (a.sequence + 1) % 2 ^ 32 in
      InOrder greets h.start (h.sent ++ ((type_at st, control_frame n now) ∷ []))
      × (stage_after greets (h.sent ++ ((type_at st, control_frame n now) ∷ [])) ≡ next_stage st)
      × (number_after h.start (h.sent ++ ((type_at st, control_frame n now) ∷ [])) ≡ n)
Handshake-sent st a flights bytes now h t =
    let n = (a.sequence + 1) % 2 ^ 32 in
    let new : Sent = (type_at st, control_frame n now) in
    let one : InOrder st a.sequence (new ∷ []) =
      (refl, refl, control_frame-IsSendable (type_at st) n now (omega arith) t, tt) in
    (
      InOrder-append greets h.start h.sent (new ∷ []) h.order (
          subst (λ (k : ℕ). InOrder (stage_after greets h.sent) k (new ∷ [])) (sym h.number)
            (subst (λ (q : Stage). InOrder q a.sequence (new ∷ [])) (sym h.stage) one)),
      stage_after-append greets h.sent (new ∷ []) ∙ ap next_stage h.stage,
      number_after-append h.start h.sent (new ∷ []),
    )

module _ (st : Stage) (next : Sender) (s : System) (now : ℕ) where
  abbrev pub numbered_agent : Agent
  numbered_agent = record s.agent { sequence = (s.agent.sequence + 1) % 2 ^ 32 }

  control-Good :
      (answer : Option Bool) (sent : List ℕ)
      → Good s
      → Handshake st s.agent s.flights s.wire
      → ((bytes : List ℕ)
          → Handshake (next_stage st) numbered_agent s.flights bytes
          → InSession next numbered_agent s.flights bytes)
      → now < 2 ^ 64
      → SendsPrefix
          (answer, sent)
          (sent_bytes (code (type_at st)) (control_frame ((s.agent.sequence + 1) % 2 ^ 32) now))
      → Good (after_control next ((answer, sent), numbered_agent) s)
  control-Good none sent g h into t (rest, e, p) =
      let (order, stage, number) = Handshake-sent st s.agent s.flights s.wire now h t in
      record {
        queue = g.queue;
        latest = g.latest;
        flights = g.flights;
        session = (
          h.start,
          _,
          rest,
          order,
          Begun-more s.wire sent rest h.start h.sent [] (type_at st) _ h.wire e order,
        );
      }
  control-Good (some false) sent g h into t (rest, e, p) =
      let (order, stage, number) = Handshake-sent st s.agent s.flights s.wire now h t in
      record {
        queue = g.queue;
        latest = g.latest;
        flights = g.flights;
        session = (
          h.connected,
          (
            h.start,
            _,
            rest,
            order,
            Begun-more s.wire sent rest h.start h.sent [] (type_at st) _ h.wire e order,
          ),
        );
      }
  control-Good (some true) sent g h into t (rest, e, inr (short, p)) = absurd (short refl)
  control-Good (some true) sent g h into t (rest, e, inl (all_sent, empty)) =
      let (order, stage, number) = Handshake-sent st s.agent s.flights s.wire now h t in
      record {
        queue = g.queue;
        latest = g.latest;
        flights = g.flights;
        session = into (s.wire ++ sent) (record {
          start = h.start;
          sent = h.sent ++ ((type_at st, control_frame ((s.agent.sequence + 1) % 2 ^ 32) now) ∷ []);
          no_flight = h.no_flight;
          connected = h.connected;
          queue = h.queue;
          order = order;
          stage = stage;
          number = number;
          wire =
              sym (append-nil (s.wire ++ sent))
              ∙ ap (λ (r : List ℕ). (s.wire ++ sent) ++ r) (sym empty)
              ∙ Begun-more s.wire sent rest h.start h.sent [] (type_at st) _ h.wire e order;
        });
      }

-- A control message, by what `send_control` answers.
pub control_turn-Good :
    (st : Stage) (next : Sender) (s : System) (bytes : List ℕ) (now : ℕ) (answers : List Send.Sent)
    → Good s
    → Handshake st s.agent s.flights s.wire
    → ((wire : List ℕ)
        → Handshake (next_stage st) (numbered_agent st next s now) s.flights wire
        → InSession next (numbered_agent st next s now) s.flights wire)
    → now < 2 ^ 64
    → Good (after_control next (send_control bytes now answers (code (type_at st)) s.agent) s)
control_turn-Good st next s bytes now answers g h into t =
    let (p, a) = send_control-SendsPrefix bytes now answers (type_at st) s.agent t in
    let r = send_control bytes now answers (code (type_at st)) s.agent in
    subst (λ (b : Agent). Good (after_control next (r.0, b) s)) (sym a)
      (control-Good st next s now r.0.0 r.0.1 g h into t p)
