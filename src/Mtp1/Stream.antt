-- ===== src/Mtp1/Stream.antt =====
-- windows/receiver/Mtp1.cpp: `StreamDecoder`. A method returns its result beside the object as it
-- leaves it, also where it throws.
use touchpad.Base.{
  ℕ, zero, suc, ◌+◌, ◌*◌, Bool, true, false, List, [], ◌∷◌, ◌++◌, ltb, if◌then◌else◌, drop, take,
  length,
}
use touchpad.Mtp1.Types.{
  Message, Error, Result, ok, err, k_header_size, k_max_message_size, buffer_limit,
  no_decoded_message,
}
use touchpad.Mtp1.Header.{validate_header}
use touchpad.Mtp1.Message.{decode_message}

pub record StreamDecoder : Type 0 where
  pub buffer : List ℕ
  pub messages : List Message

abbrev pub new_decoder : StreamDecoder
new_decoder = record { buffer = []; messages = [] }

unfoldable pub has_message : StreamDecoder → Bool
has_message d = elim d.messages [ [] ↦ false | m ∷ ms ↦ true ]

-- What one round of the loop of `ParseAvailable` does with the buffer: leave the loop, throw, or
-- take a message of so many bytes.
pub data Round : Type 0 where
  wait : Round
  throws : Error → Round
  takes : Message → ℕ → Round

unfoldable pub decode_prefix : List ℕ → ℕ → Round
decode_prefix buffer n = elim (decode_message (take n buffer)) [
  | ok m ↦ takes m n
  | err e ↦ throws e
]

unfoldable pub round : List ℕ → Round
unfolding decode_prefix
round buffer =
    if ltb (length buffer) k_header_size
    then wait
    else elim (validate_header (take k_header_size buffer)) [
      | err e ↦ throws e
      | ok n ↦ if ltb (length buffer) n then wait else decode_prefix buffer n
    ]

-- The loop on fuel; a round that goes on takes `k_header_size` bytes at least, so as much fuel as
-- there are bytes is not used up.
unfoldable pub parse_loop : ℕ → StreamDecoder → Result (Unit {0}) × StreamDecoder
parse_loop zero d = (ok tt, d)
parse_loop (suc fuel) d = elim (round d.buffer) [
  | wait ↦ (ok tt, d)
  | throws e ↦ (err e, d)
  | takes m n ↦
      parse_loop fuel (record { buffer = drop n d.buffer; messages = d.messages ++ (m ∷ []) })
]

unfoldable pub parse_available : StreamDecoder → Result (Unit {0}) × StreamDecoder
parse_available d = parse_loop (suc (length d.buffer)) d

unfoldable pub append : List ℕ → StreamDecoder → Result (Unit {0}) × StreamDecoder
append bytes d =
    if ltb (k_max_message_size * 2) (length d.buffer + length bytes)
    then (err buffer_limit, d)
    else parse_available (record d { buffer = d.buffer ++ bytes })

unfoldable pub pop_message : StreamDecoder → Result Message × StreamDecoder
pop_message d = elim d.messages [
  | [] ↦ (err no_decoded_message, d)
  | m ∷ ms ↦ (ok m, record d { messages = ms })
]

unfoldable pub reset : StreamDecoder → StreamDecoder
reset d = new_decoder
