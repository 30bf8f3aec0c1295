-- ===== src/Agent/Send.antt =====
-- mac/Agent/main.c: `send_all`, `send_control`, and what `sender_main` does with a new connection.
use touchpad.Base.{
  ℕ, ◌+◌, ◌%◌, ◌^◌, ◌≡◌, ◌≢◌, ◌∙◌, subst, ap, refl, Bool, true, false, ◌==◌, if◌then◌else◌, Option,
  none, some, List, [], ◌∷◌, ◌++◌, take, drop, take-append-drop, ◌⊎◌, inl, inr,
}
use mathlib.Core.List.{append_assoc}
use touchpad.Wire.Types.{zero_frame, max_message_size}
use touchpad.Wire.Encode.{encode_message}
use touchpad.Agent.Types.{Agent}
use touchpad.Agent.Queue.{queue_clear}
use touchpad.Agent.Capture.{encoded}

-- What `send` answers: a signal, another error or the end, or that it took `suc n` bytes; it takes no
-- more than it is given.
pub data Sent : Type 0 where
  interrupted failed : Sent
  took : ℕ → Sent

-- Whether all bytes were sent, with the bytes that were; `none` when the answers run out, so that the
-- call has not returned.
abbrev pub Progress : Type 0
Progress = Option Bool × List ℕ

abbrev pub behind : List ℕ → Progress → Progress
behind first (answer, bytes) = (answer, first ++ bytes)

unfoldable pub send_all : List Sent → List ℕ → Progress
send_all answers [] = (some true, [])
send_all [] (b ∷ bytes) = (none, [])
send_all (interrupted ∷ answers) (b ∷ bytes) = send_all answers (b ∷ bytes)
send_all (failed ∷ answers) (b ∷ bytes) = (some false, [])
send_all (took n ∷ answers) (b ∷ bytes) =
    behind (b ∷ take n bytes) (send_all answers (drop n bytes))

-- What `send_all` has sent of the bytes, with the rest of them.
abbrev pub SendsPrefix : Progress → List ℕ → Type 0
SendsPrefix p bytes =
    (rest : List ℕ) × (p.1 ++ rest ≡ bytes)
    × (((p.0 ≡ some true) × (rest ≡ [])) ⊎ ((p.0 ≢ some true) × (rest ≢ [])))

behind-SendsPrefix :
    (first rest : List ℕ) (p : Progress)
    → SendsPrefix p rest
    → SendsPrefix (behind first p) (first ++ rest)
behind-SendsPrefix first rest (answer, sent) (r, e, h) =
    (r, append_assoc first sent r ∙ ap (λ l. first ++ l) e, h)

cons-ne-nil : (b : ℕ) (bytes : List ℕ) → b ∷ bytes ≢ []
cons-ne-nil b bytes e = cc

-- Whatever `send` answers, what `send_all` has sent is a beginning of the bytes, in order; it answers
-- true exactly when that is all of them.
pub send_all-SendsPrefix :
    (answers : List Sent) (bytes : List ℕ) → SendsPrefix (send_all answers bytes) bytes
unfolding send_all
send_all-SendsPrefix answers [] = ([], refl, inl (refl, refl))
send_all-SendsPrefix [] (b ∷ bytes) =
    (b ∷ bytes, refl, inr ((λ e. absurd (cc)), cons-ne-nil b bytes))
send_all-SendsPrefix (interrupted ∷ answers) (b ∷ bytes) = send_all-SendsPrefix answers (b ∷ bytes)
send_all-SendsPrefix (failed ∷ answers) (b ∷ bytes) =
    (b ∷ bytes, refl, inr ((λ e. absurd (cc)), cons-ne-nil b bytes))
send_all-SendsPrefix (took n ∷ answers) (b ∷ bytes) =
    subst (SendsPrefix (behind (b ∷ take n bytes) (send_all answers (drop n bytes))))
      (ap (λ l. b ∷ l) (take-append-drop n bytes))
      (behind-SendsPrefix (b ∷ take n bytes) (drop n bytes) (send_all answers (drop n bytes))
        (send_all-SendsPrefix answers (drop n bytes)))

module _ (bytes : List ℕ) (now : ℕ) where
  -- The agent behind the call, with the answer and the bytes sent.
  unfoldable pub send_control : List Sent → ℕ → Agent → Progress × Agent
  unfolding send_all
  send_control answers type a =
      let sequence = (a.sequence + 1) % 2 ^ 32 in
      let message = encoded (
        encode_message type
          (some (record zero_frame { sequence = sequence; capture_time_us = now })) (some bytes)
          max_message_size) in
      (
        if message.length == 0
            then (some false, [])
            else send_all answers (take message.length message.bytes),
        record a { sequence = sequence },
      )

-- `sender_main` on a new connection, in front of its HELLO, and behind its RESET.
unfoldable pub open_session : Agent → Agent
unfolding queue_clear
open_session a = record a { reconnects = (a.reconnects + 1) % 2 ^ 64; queue = queue_clear a.queue }

unfoldable pub start_session : Agent → Agent
start_session a = record a {
  reconnect_requested = false;
  latest_frame = zero_frame;
  connected = true;
}

-- Where the loop of `sender_main` on a connection has ended.
unfoldable pub end_session : Agent → Agent
unfolding queue_clear
end_session a = record a { connected = false; queue = queue_clear a.queue }
