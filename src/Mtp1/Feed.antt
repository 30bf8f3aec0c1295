-- ===== src/Mtp1/Feed.antt =====
-- windows/receiver/Mtp1.cpp and main.cpp: a whole stream of messages, received in pieces.
use mathlib.Core.List.{append-nil, append_assoc}
use touchpad.Base.{
  ℕ, ◌+◌, ◌≤◌, ◌≡◌, ◌∙◌, sym, ap, refl, List, [], ◌∷◌, ◌++◌, take, length, take-all, drop-append,
  arith, All,
}
use touchpad.Wire.Types.{Frame}
use touchpad.Wire.RoundTrip.{sent_bytes, sent_size, length-sent_bytes}
use touchpad.Mtp1.Types.{Message, MessageType, Result, ok, err, k_max_message_size}
use touchpad.Mtp1.Message.{decode_message}
use touchpad.Mtp1.Valid.{code}
use touchpad.Mtp1.FromMac.{
  message_of, IsReceivable, header_copy, validate_header-sent, decode_message-sent_bytes,
}
use touchpad.Mtp1.Stream.{StreamDecoder, new_decoder, wait, takes, round, parse_available, append}
use touchpad.Mtp1.Round.{round-wait_short}
use touchpad.Mtp1.Fragments.{
  more, resume, round_more-takes, parse_available-wait, parse_available-takes, parse_available-more,
  parse_available-Drained, append-parse,
}

abbrev pub concat : List (List ℕ) → List ℕ
concat [] = []
concat (c ∷ cs) = c ++ concat cs

-- Go on where the last call returned.
abbrev pub and_then :
    Result (Unit {0}) × StreamDecoder
    → (StreamDecoder → Result (Unit {0}) × StreamDecoder)
    → Result (Unit {0}) × StreamDecoder
and_then (ok u, d) k = k d
and_then (err x, d) k = (err x, d)

-- `Append` of one received piece after the other, up to the first exception.
unfoldable pub feed : List (List ℕ) → StreamDecoder → Result (Unit {0}) × StreamDecoder
feed [] d = (ok tt, d)
feed (c ∷ cs) d = and_then (append c d) (feed cs)

-- The largest piece that fits behind the start of an unfinished message.
abbrev pub piece_size : ℕ
piece_size = k_max_message_size + 1

abbrev pub IsPiece : List ℕ → Type 0
IsPiece c = length c ≤ piece_size

-- The first piece, by what its `Append` gave.
feed-cons :
    (c : List ℕ) (cs : List (List ℕ)) (d e : StreamDecoder) (r : Result (Unit {0}) × StreamDecoder)
    → append c d ≡ r
    → (r.0 ≡ ok tt → round r.1.buffer ≡ wait)
    → resume (concat cs) r ≡ (ok tt, e)
    → ((d' : StreamDecoder)
        → round d'.buffer ≡ wait
        → parse_available (more (concat cs) d') ≡ (ok tt, e)
        → feed cs d' ≡ (ok tt, e))
    → feed (c ∷ cs) d ≡ (ok tt, e)
unfolding feed
feed-cons c cs d e (ok u, d') a w p rest = ap (λ r. and_then r (feed cs)) a ∙ rest d' (w refl) p
feed-cons c cs d e (err x, d') a w p rest = absurd (cc)

feed-parse :
    (cs : List (List ℕ)) (d e : StreamDecoder)
    → All IsPiece cs
    → round d.buffer ≡ wait
    → parse_available (more (concat cs) d) ≡ (ok tt, e)
    → feed cs d ≡ (ok tt, e)
unfolding feed
feed-parse [] d e h w p =
    sym (parse_available-wait d w)
    ∙ ap (λ b. parse_available (record d { buffer = b })) (sym (append-nil d.buffer))
    ∙ p
feed-parse (c ∷ cs) d e h w p =
    feed-cons c cs d e (parse_available (more c d))
      (append-parse c d (omega (arith, h.0, round-wait_short d.buffer w)))
      (parse_available-Drained (more c d)).waits
      (sym (parse_available-more (concat cs) (more c d))
        ∙ ap (λ b. parse_available (record d { buffer = b })) (append_assoc d.buffer c (concat cs))
        ∙ p)
      (λ d' w' p'. feed-parse cs d' e h.1 w' p')

-- Frames, each with the type that it is sent as.
abbrev pub Sent : Type 0
Sent = MessageType × Frame

abbrev pub AllReceivable : List Sent → Type 0
AllReceivable = All (λ s. IsReceivable s.0 s.1)

-- What the Mac writes for them, one message behind the other.
abbrev pub sent_stream : List Sent → List ℕ
sent_stream [] = []
sent_stream (s ∷ l) = sent_bytes (code s.0) s.1 ++ sent_stream l

abbrev pub messages_of : List Sent → List Message
messages_of [] = []
messages_of (s ∷ l) = message_of s.0 s.1 ∷ messages_of l

round-sent :
    (t : MessageType) (f : Frame)
    → IsReceivable t f
    → round (sent_bytes (code t) f) ≡ takes (message_of t f) (sent_size (code t) f)
unfolding round
round-sent t f v =
    simp (length-sent_bytes v.sendable, header_copy v, validate_header-sent v)
      (ground (arith, ap decode_message whole ∙ decode_message-sent_bytes v))
  where
    whole : take (sent_size (code t) f) (sent_bytes (code t) f) ≡ sent_bytes (code t) f
    whole =
        take-all (sent_bytes (code t) f) (sent_size (code t) f) (sym (length-sent_bytes v.sendable))

round-nil : round [] ≡ wait
unfolding round
round-nil = refl

parse_available-sent :
    (l : List Sent) (ms : List Message)
    → AllReceivable l
    → parse_available (record { buffer = sent_stream l; messages = ms })
      ≡ (ok tt, record { buffer = []; messages = ms ++ messages_of l })
parse_available-sent [] ms h =
    parse_available-wait (record { buffer = []; messages = ms }) round-nil
    ∙ ap (λ l. (ok tt, record { buffer = []; messages = l })) (sym (append-nil ms))
parse_available-sent ((t, f) ∷ l) ms h =
    parse_available-takes (record { buffer = sent_stream ((t, f) ∷ l); messages = ms })
      (message_of t f) (sent_size (code t) f)
      (round_more-takes (sent_bytes (code t) f) (sent_stream l) _ _ (round-sent t f h.0))
    ∙ ap (λ b. parse_available (record { buffer = b; messages = ms ++ (message_of t f ∷ []) }))
        (drop-append (sent_bytes (code t) f) (sent_stream l) (sent_size (code t) f)
          (sym (length-sent_bytes h.0.sendable)))
    ∙ parse_available-sent l (ms ++ (message_of t f ∷ [])) h.1
    ∙ ap (λ k. (ok tt, record { buffer = []; messages = k }))
        (append_assoc ms (message_of t f ∷ []) (messages_of l))

-- However the stream of any receivable frames is cut, as long as no piece is longer than 477 bytes,
-- the decoder takes every piece, ends with an empty buffer, and has decoded all messages in order.
pub feed-sent_stream :
    (l : List Sent) (pieces : List (List ℕ))
    → AllReceivable l
    → All IsPiece pieces
    → concat pieces ≡ sent_stream l
    → feed pieces new_decoder ≡ (ok tt, record { buffer = []; messages = messages_of l })
feed-sent_stream l pieces h s e =
    feed-parse pieces new_decoder (record { buffer = []; messages = messages_of l }) s round-nil
      (ap (λ b. parse_available (record { buffer = b; messages = [] })) e
        ∙ parse_available-sent l [] h)
