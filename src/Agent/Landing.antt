-- ===== src/Agent/Landing.antt =====
-- mac/Agent/main.c: a callback that gets the mutex of the frame while `sender_main` is anywhere.
use mathlib.Core.List.{append-nil, append_assoc}
use touchpad.Base.{
  ℕ, ◌+◌, ◌%◌, ◌^◌, ◌≡◌, ◌≢◌, ◌∙◌, ap, sym, refl, subst, inl, inr, Bool, true, false, List, [], ◌∷◌,
  ◌++◌,
}
use touchpad.Mtp1.Types.{frame}
use touchpad.Mtp1.Feed.{Sent}
use touchpad.Agent.Types.{WireMessage, Agent}
use touchpad.Agent.Fifo.{contents}
use touchpad.Agent.Order.{
  Stage, greets, streams, InOrder, stage_after, number_after, stage_after-streams,
  stage_after-append, number_after-append, InOrder-append, InOrder-front, Holds, Holds-last,
}
use touchpad.Agent.Threads.{
  Flight, Sender, closed, opened, greeted, ready, streaming, waiting, blocked, sending, leave_out,
}
use touchpad.Agent.Landed.{Landed}
use touchpad.Agent.Sessions.{Streaming, InSession}

-- The frames of the first messages.
pub Holds-front :
    (ms ms' : List WireMessage) (l : List Sent)
    → Holds (ms ++ ms') l
    → (l₁ : List Sent) × (l₂ : List Sent) × (l ≡ l₁ ++ l₂) × Holds ms l₁
Holds-front [] ms' l h = ([], l, refl, tt)
Holds-front (m ∷ ms) ms' [] h = elim h [ ]
Holds-front (m ∷ ms) ms' (s ∷ l) (e, h) =
    let (l₁, l₂, same, k) = Holds-front ms ms' l h in
    (s ∷ l₁, l₂, ap (λ (r : List Sent). s ∷ r) same, (e, k))

-- The stage behind a session's messages.
stage_after-session :
    (l m : List Sent) → stage_after greets l ≡ streams → stage_after greets (l ++ m) ≡ streams
stage_after-session l m h =
    stage_after-append greets l m ∙ ap (λ (st : Stage). stage_after st m) h ∙ stage_after-streams m

Streaming-pushed :
    (pending : List WireMessage) (a a' : Agent) (bytes : List ℕ)
    → (r : Landed a a') → (h : Streaming pending a bytes)
    → number_after h.start (h.sent ++ h.queued) ≡ a.sequence
    → contents a'.queue ≡ contents a.queue ++ (r.message ∷ [])
    → a'.connected ≡ true
    → Streaming pending a' bytes
Streaming-pushed pending a a' bytes r h number pushed connected =
    let all = h.sent ++ h.queued in
    let new : Sent = (frame, r.frame) in
    let numbered : r.frame.sequence ≡ (number_after h.start all + 1) % 2 ^ 32 =
      r.numbered ∙ ap (λ (n : ℕ). (n + 1) % 2 ^ 32) (sym number) in
    let one : InOrder (stage_after greets all) (number_after h.start all) (new ∷ []) =
      subst (λ (st : Stage). InOrder st (number_after h.start all) (new ∷ []))
        (sym (stage_after-session h.sent h.queued h.stage)) (refl, numbered, r.sendable, tt) in
    let assoc = append_assoc h.sent h.queued (new ∷ []) in
    record {
      start = h.start;
      sent = h.sent;
      queued = h.queued ++ (new ∷ []);
      order =
          subst (InOrder greets h.start) assoc
            (InOrder-append greets h.start all (new ∷ []) h.order one);
      stage = h.stage;
      wire = h.wire;
      holds =
          subst (λ (ms : List WireMessage). Holds ms (h.queued ++ (new ∷ [])))
            (append_assoc pending (contents a.queue) (r.message ∷ [])
              ∙ ap (λ (ms : List WireMessage). pending ++ ms) (sym pushed))
            (Holds-last (pending ++ contents a.queue) h.queued r.message frame r.frame h.holds
              r.bytes);
      goes_on = inl (
        connected,
        ap (number_after h.start) (sym assoc)
            ∙ number_after-append h.start all (new ∷ [])
            ∙ sym r.sequence,
      );
    }

Streaming-given_up :
    (pending : List WireMessage) (a a' : Agent) (bytes : List ℕ)
    → (h : Streaming pending a bytes) → contents a'.queue ≡ []
    → a'.connected ≡ false
    → Streaming pending a' bytes
Streaming-given_up pending a a' bytes h empty given_up =
    let (q₁, q₂, same, k) = Holds-front pending (contents a.queue) h.queued h.holds in
    record {
      start = h.start;
      sent = h.sent;
      queued = q₁;
      order = InOrder-front greets h.start (h.sent ++ q₁) q₂ (
          subst (InOrder greets h.start)
            (ap (λ (q : List Sent). h.sent ++ q) same ∙ sym (append_assoc h.sent q₁ q₂)) h.order);
      stage = h.stage;
      wire = h.wire;
      holds =
          subst (λ (ms : List WireMessage). Holds ms q₁)
            (sym (append-nil pending) ∙ ap (λ (ms : List WireMessage). pending ++ ms) (sym empty))
            k;
      goes_on = inr given_up;
    }

Streaming-Landed :
    (pending : List WireMessage) (a a' : Agent) (bytes : List ℕ)
    → a.connected ≡ true
    → Landed a a'
    → Streaming pending a bytes
    → Streaming pending a' bytes
Streaming-Landed pending a a' bytes c r h = elim h.goes_on [
  | inr off ↦ absurd (cc (c, off))
  | inl (on, number) ↦ elim r.enqueued [
    | inl (pushed, same, d) ↦ Streaming-pushed pending a a' bytes r h number pushed (same ∙ c)
    | inr (empty, given_up, asked, d, full) ↦ Streaming-given_up pending a a' bytes h empty given_up
  ]
]

Landed-disconnected : (a a' : Agent) → Landed a a' → a.connected ≡ false → a'.connected ≡ false
Landed-disconnected a a' r c = elim r.enqueued [
  | inl (pushed, same, d) ↦ same ∙ c
  | inr (empty, given_up, asked, d, full) ↦ given_up
]

-- The sender is in a session.
abbrev pub streams_now : Sender → Bool
streams_now closed = false
streams_now opened = false
streams_now greeted = false
streams_now ready = false
streams_now streaming = true
streams_now waiting = true
streams_now blocked = false
streams_now (sending m) = true

-- `k` is the place of the callback.
pub InSession-Landed :
    (sender : Sender) (a a' : Agent) (flights : List Flight) (k : ℕ) (bytes : List ℕ)
    → flights ≢ []
    → (streams_now sender ≡ true → a.connected ≡ true)
    → Landed a a'
    → InSession sender a flights bytes
    → InSession sender a' (leave_out flights k) bytes
InSession-Landed closed a a' l k bytes air on r h = (Landed-disconnected a a' r h.0, h.1)
InSession-Landed opened a a' l k bytes air on r h = absurd (air h.no_flight)
InSession-Landed greeted a a' l k bytes air on r h = absurd (air h.no_flight)
InSession-Landed ready a a' l k bytes air on r h = absurd (air h.no_flight)
InSession-Landed streaming a a' l k bytes air on r h = Streaming-Landed [] a a' bytes (on refl) r h
InSession-Landed waiting a a' l k bytes air on r h = Streaming-Landed [] a a' bytes (on refl) r h
InSession-Landed blocked a a' l k bytes air on r h = h
InSession-Landed (sending m) a a' l k bytes air on r h =
    Streaming-Landed (m ∷ []) a a' bytes (on refl) r h
