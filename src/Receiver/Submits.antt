-- ===== src/Receiver/Submits.antt =====
-- windows/receiver/main.cpp: whatever a client sends, the receiver submits only frames that the driver
-- takes, and leaves nothing active.
use touchpad.Base.{
  ℕ, zero, suc, ◌+◌, ◌≡◌, ap, sym, refl, ◌⊎◌, inl, inr, Bool, true, false, not, if◌then◌else◌, List,
  [], ◌∷◌, ◌++◌, Option, none, some, length, All, All-append, All-take, All-drop, take, drop, ltb,
  ◌*◌, Bool-cases, arith, subst,
}
use touchpad.Wire.Types.{IsByte}
use touchpad.Ioctl.{IoctlFrame, IsSubmittable}
use touchpad.Mtp1.Types.{
  Message, Result, ok, err, no_decoded_message, k_header_size, k_max_message_size,
}
use touchpad.Mtp1.Valid.{ValidMessage}
use touchpad.Mtp1.Decoded.{decode_message-ValidMessage}
use touchpad.Mtp1.Message.{decode_message}
use touchpad.Mtp1.Header.{validate_header}
use touchpad.Mtp1.Round.{Result-cases, Round-cases}
use touchpad.Mtp1.Stream.{
  StreamDecoder, takes, round, decode_prefix, parse_loop, parse_available, append, pop_message,
  has_message,
}
use touchpad.Session.Types.{TouchSession, has_active_contacts}
use touchpad.Session.Process.{Outcome, process, on_disconnect, on_timeout}
use touchpad.Session.Invariant.{
  IsSession, GoodOutcome, IsRelease, IsForgotten, new_session-IsSession, process-GoodOutcome,
  on_disconnect-IsRelease, on_timeout-IsRelease,
}
use touchpad.Receiver.Serve.{
  Received, bytes, timed_out, closed, failed, Connection, Next, new_connection, submit, submit_if,
  submit_outcome, process_popped, process_messages, process_appended, handle_received, receive_loop,
  serve,
}

-- The decoder holds bytes, and messages that `DecodeMessage` let through.
pub record IsDecoder (d : StreamDecoder) : Type 0 where
  pub buffer : All IsByte d.buffer
  pub messages : All ValidMessage d.messages

round-ValidMessage :
    (b : List ℕ) (m : Message) (n : ℕ) → All IsByte b → round b ≡ takes m n → ValidMessage m
unfolding round decode_prefix
round-ValidMessage b m n h e = elim (Result-cases (validate_header (take k_header_size b))) [
  | inl (k, ev) ↦ elim (Result-cases (decode_message (take k b))) [
    | inl (m', ed) ↦
        let same : m' ≡ m = ground (arith, ev, ed, e) in
        subst ValidMessage same
          (decode_message-ValidMessage (take k b) m' (All-take IsByte k b h) ed).0
    | inr (x, ed) ↦ absurd (ground (arith, ev, ed, e))
  ]
  | inr (x, ev) ↦ absurd (ground (arith, ev, e))
]

parse_loop-IsDecoder :
    (fuel : ℕ) (d : StreamDecoder) → IsDecoder d → IsDecoder (parse_loop fuel d).1
unfolding parse_loop
parse_loop-IsDecoder zero d i = i
parse_loop-IsDecoder (suc fuel) d i = elim (Round-cases (round d.buffer)) [
  | inl e ↦ rw (e, parse_loop) i
  | inr (inl (x, e)) ↦ rw (e, parse_loop) i
  | inr (inr (m, n, e)) ↦
      rw (e, parse_loop)
        (parse_loop-IsDecoder fuel
          (record { buffer = drop n d.buffer; messages = d.messages ++ (m ∷ []) })
          (record {
            buffer = All-drop IsByte n d.buffer i.buffer;
            messages =
                All-append ValidMessage d.messages (m ∷ []) i.messages
                  (round-ValidMessage d.buffer m n i.buffer e, tt);
          }))
]

append-IsDecoder :
    (b : List ℕ) (d : StreamDecoder) → All IsByte b → IsDecoder d → IsDecoder (append b d).1
unfolding append parse_available
append-IsDecoder b d h i =
    elim (Bool-cases (ltb (k_max_message_size * 2) (length d.buffer + length b))) [
      | inl over ↦ rw over i
      | inr fits ↦ rw fits (
          parse_loop-IsDecoder _ (record d { buffer = d.buffer ++ b })
            (record { buffer = All-append IsByte d.buffer b i.buffer h; messages = i.messages }))
    ]

-- A connection in order: its decoder, its session, and frames submitted that the driver takes.
pub record IsConnection (c : Connection) : Type 0 where
  pub decoder : IsDecoder c.decoder
  pub session : IsSession c.session
  pub submitted : All IsSubmittable c.submitted

-- What `recv` delivers is bytes.
abbrev pub IsReceived : Received → Type 0
IsReceived (bytes b clock) = All IsByte b
IsReceived (timed_out now) = Unit
IsReceived closed = Unit
IsReceived failed = Unit

abbrev IsSubmittableIf : Option IoctlFrame → Type 0
IsSubmittableIf none = Unit
IsSubmittableIf (some f) = IsSubmittable f

-- What a pop answers: a message that `DecodeMessage` let through, or that there is none.
abbrev IsPopped : Result Message → Type 0
IsPopped (ok m) = ValidMessage m
IsPopped (err e) = Unit

pop_message-IsDecoder :
    (d : StreamDecoder) → IsDecoder d → IsDecoder (pop_message d).1 × IsPopped (pop_message d).0
unfolding pop_message
pop_message-IsDecoder d i = popped d.messages i.messages
  where
    popped :
        (ms : List Message)
        → All ValidMessage ms
        → let r : Result Message × StreamDecoder = elim ms [
          | [] ↦ (err no_decoded_message, d)
          | m ∷ ms' ↦ (ok m, record d { messages = ms' })
        ] in
          IsDecoder r.1 × IsPopped r.0
    popped [] v = (i, tt)
    popped (m ∷ ms) v = (record { buffer = i.buffer; messages = v.1 }, v.0)

if-IsConnection :
    (b : Bool) (x y : Next)
    → IsConnection x.1
    → IsConnection y.1
    → IsConnection (if b then x else y).1
if-IsConnection true x y p q = p
if-IsConnection false x y p q = q

if-Connection :
    (b : Bool) (x y : Connection)
    → IsConnection x
    → IsConnection y
    → IsConnection (if b then x else y)
if-Connection true x y p q = p
if-Connection false x y p q = q

module _ (device_io_control : IoctlFrame → Bool) where
  submit_if-IsConnection :
      (o : Option IoctlFrame) (c : Connection)
      → IsSubmittableIf o
      → IsConnection c
      → IsConnection (submit_if device_io_control o c).1
  unfolding submit_if submit
  submit_if-IsConnection none c h i = i
  submit_if-IsConnection (some f) c h i = record {
    decoder = i.decoder;
    session = i.session;
    submitted = All-append IsSubmittable c.submitted (f ∷ []) i.submitted (h, tt);
  }

  submit_outcome-IsConnection :
      (r : Outcome) (c : Connection)
      → GoodOutcome r
      → IsConnection c
      → IsConnection (submit_outcome device_io_control r c).1
  unfolding submit_outcome
  submit_outcome-IsConnection (ok none, s) c g i =
      submit_if-IsConnection none (record c { session = s }) tt
        (record { decoder = i.decoder; session = g.session; submitted = i.submitted })
  submit_outcome-IsConnection (ok (some f), s) c g i =
      submit_if-IsConnection (some f) (record c { session = s }) g.answer
        (record { decoder = i.decoder; session = g.session; submitted = i.submitted })
  submit_outcome-IsConnection (err e, s) c g i = record {
    decoder = i.decoder;
    session = g.session;
    submitted = i.submitted;
  }

  process_popped-IsConnection :
      (now : ℕ) (r : Result Message × StreamDecoder) (c : Connection)
      → IsPopped r.0
      → IsDecoder r.1
      → IsConnection c
      → IsConnection (process_popped device_io_control now r c).1
  unfolding process_popped
  process_popped-IsConnection now (ok m, d) c v id i =
      submit_outcome-IsConnection (process now m c.session) (record c { decoder = d })
        (process-GoodOutcome now m c.session i.session v)
        (record { decoder = id; session = i.session; submitted = i.submitted })
  process_popped-IsConnection now (err e, d) c v id i = record {
    decoder = id;
    session = i.session;
    submitted = i.submitted;
  }

  process_messages-IsConnection :
      (n i : ℕ) (clock : ℕ → ℕ) (c : Connection)
      → IsConnection c
      → IsConnection (process_messages device_io_control n i clock c).1
  unfolding process_messages
  process_messages-IsConnection zero i clock c g = g
  process_messages-IsConnection (suc n) i clock c g =
      let (id, v) = pop_message-IsDecoder c.decoder g.decoder in
      let g' = process_popped-IsConnection (clock i) (pop_message c.decoder) c v id g in
      if-IsConnection (not (has_message c.decoder)) _ _ g (
        if-IsConnection (process_popped device_io_control (clock i) (pop_message c.decoder) c).0 _ _
          (process_messages-IsConnection n (i + 1) clock _ g') g')

  process_appended-IsConnection :
      (clock : ℕ → ℕ) (r : Result (Unit {0}) × StreamDecoder) (c : Connection)
      → IsDecoder r.1
      → IsConnection c
      → IsConnection (process_appended device_io_control clock r c).1
  unfolding process_appended
  process_appended-IsConnection clock (err e, d) c id i = record {
    decoder = id;
    session = i.session;
    submitted = i.submitted;
  }
  process_appended-IsConnection clock (ok u, d) c id i =
      process_messages-IsConnection (length d.messages) 0 clock (record c { decoder = d })
        (record { decoder = id; session = i.session; submitted = i.submitted })

  handle_received-IsConnection :
      (r : Received) (c : Connection)
      → IsReceived r
      → IsConnection c
      → IsConnection (handle_received device_io_control r c).1
  unfolding handle_received
  handle_received-IsConnection (bytes b clock) c h i =
      process_appended-IsConnection clock (append b c.decoder) c
        (append-IsDecoder b c.decoder h i.decoder) i
  handle_received-IsConnection (timed_out now) c h i =
      let g = on_timeout-IsRelease now c.session i.session in
      submit_if-IsConnection (on_timeout now c.session).0
        (record c { session = (on_timeout now c.session).1 })
        (elim g.1 [
          | inl (a, e) ↦
              subst IsSubmittableIf (sym (ap (λ (r : Option IoctlFrame × TouchSession). r.0) e)) tt
          | inr (a, b, f, e, release, idle) ↦ subst IsSubmittableIf (sym e) release.0
        ])
        (record { decoder = i.decoder; session = g.0; submitted = i.submitted })
  handle_received-IsConnection closed c h i = i
  handle_received-IsConnection failed c h i = i

  receive_loop-IsConnection :
      (rs : List Received) (c : Connection)
      → All IsReceived rs
      → IsConnection c
      → IsConnection (receive_loop device_io_control rs c)
  unfolding receive_loop
  receive_loop-IsConnection [] c h i = i
  receive_loop-IsConnection (r ∷ rs) c h i =
      let i' = handle_received-IsConnection r c h.0 i in
      if-Connection (handle_received device_io_control r c).0 _ _
        (receive_loop-IsConnection rs _ h.1 i') i'

new_connection-IsConnection : IsConnection new_connection
new_connection-IsConnection = record {
  decoder = record { buffer = tt; messages = tt };
  session = new_session-IsSession;
  submitted = tt;
}

-- The frames that a connection submits behind `c`: none when nothing is active, and otherwise a reset in
-- which nobody touches.
abbrev pub IsEnded : Connection → Connection → Type 0
IsEnded c c' =
    ((has_active_contacts c.session ≡ false) × (c'.submitted ≡ c.submitted))
    ⊎ ((has_active_contacts c.session ≡ true)
        × (f : IoctlFrame) × (c'.submitted ≡ c.submitted ++ (f ∷ []))
        × IsRelease f)

release-IsEnded :
    (device_io_control : IoctlFrame → Bool) (o : Option IoctlFrame) (c : Connection)
    (s : TouchSession)
    → All IsSubmittable c.submitted
    → ((has_active_contacts c.session ≡ false) × (o ≡ none))
      ⊎ ((has_active_contacts c.session ≡ true) × (f : IoctlFrame) × (o ≡ some f) × IsRelease f)
    → let c' = (submit_if device_io_control o (record c { session = s })).1 in
      All IsSubmittable c'.submitted × (c'.session ≡ s) × IsEnded c c'
unfolding submit_if submit
release-IsEnded device_io_control none c s h (inl (idle, e)) = (h, refl, inl (idle, refl))
release-IsEnded device_io_control none c s h (inr (active, f, e, release)) = absurd (cc)
release-IsEnded device_io_control (some g) c s h (inl (idle, e)) = absurd (cc)
release-IsEnded device_io_control (some g) c s h (inr (active, f, e, release)) =
    let same : f ≡ g = cc in
    let release' = subst IsRelease same release in
    (
      All-append IsSubmittable c.submitted (g ∷ []) h (release'.0, tt),
      refl,
      inr (active, g, refl, release'),
    )

-- Whatever bytes a client sends, in whatever pieces, with timeouts, errors and the end of the stream
-- where they may be: every frame that the receiver submits is one that the driver takes, and when the
-- connection ends with something active, the last frame is a reset in which nobody touches.
pub serve-IsSubmittable :
    (device_io_control : IoctlFrame → Bool) (rs : List Received)
    → All IsReceived rs
    → All IsSubmittable (serve device_io_control rs).submitted
      × IsForgotten (serve device_io_control rs).session
      × IsEnded (receive_loop device_io_control rs new_connection) (serve device_io_control rs)
unfolding serve
serve-IsSubmittable device_io_control rs h =
    let c = receive_loop device_io_control rs new_connection in
    let i =
      receive_loop-IsConnection device_io_control rs new_connection h new_connection-IsConnection in
    let (kept, forgotten, answer) = on_disconnect-IsRelease c.session i.session in
    let (all, session, ended) =
      release-IsEnded device_io_control (on_disconnect c.session).0 c (on_disconnect c.session).1
        i.submitted answer in
    (all, subst IsForgotten (sym session) forgotten, ended)
