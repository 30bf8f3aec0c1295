-- ===== src/Receiver/Serve.antt =====
-- windows/receiver/main.cpp: `Submit` and the body of the accept loop in `main`.
use touchpad.Base.{
  ℕ, zero, suc, ◌+◌, Bool, true, false, not, if◌then◌else◌, List, [], ◌∷◌, ◌++◌, Option, none, some,
  length,
}
use touchpad.Ioctl.{IoctlFrame}
use touchpad.Mtp1.Types.{Message, Result, ok, err}
use touchpad.Mtp1.Stream.{StreamDecoder, new_decoder, has_message, append, pop_message}
use touchpad.Session.Types.{TouchSession, new_session}
use touchpad.Session.Process.{Outcome, process, on_disconnect, on_timeout}

-- What `recv` answers: bytes, a timeout, the end of the stream, or another error; with the times that
-- the clock shows when the messages of the bytes are processed, and at the timeout.
pub data Received : Type 0 where
  bytes : List ℕ → (ℕ → ℕ) → Received
  timed_out : ℕ → Received
  closed failed : Received

-- The objects of a connection, and the frames that went to `DeviceIoControl` so far.
pub record Connection : Type 0 where
  pub decoder : StreamDecoder
  pub session : TouchSession
  pub submitted : List IoctlFrame

abbrev pub new_connection : Connection
new_connection = record { decoder = new_decoder; session = new_session; submitted = [] }

-- Whether the loop goes on; it is left at the end of the stream and by an exception.
abbrev pub Next : Type 0
Next = Bool × Connection

-- `device_io_control` says whether `DeviceIoControl` succeeds for a frame.
module _ (device_io_control : IoctlFrame → Bool) where
  -- `Submit`, on a driver that is open: it throws when the call fails.
  unfoldable pub submit : IoctlFrame → Connection → Next
  submit f c = (device_io_control f, record c { submitted = c.submitted ++ (f ∷ []) })

  -- `if (release) Submit(driver, *release);`
  unfoldable pub submit_if : Option IoctlFrame → Connection → Next
  unfolding submit
  submit_if none c = (true, c)
  submit_if (some f) c = submit f c

  unfoldable pub submit_outcome : Outcome → Connection → Next
  unfolding submit_if
  submit_outcome (ok o, s) c = submit_if o (record c { session = s })
  submit_outcome (err e, s) c = (false, record c { session = s })

  -- The body of `while (decoder.HasMessage())`.
  unfoldable pub process_popped : ℕ → Result Message × StreamDecoder → Connection → Next
  unfolding submit_outcome
  process_popped now (ok m, d) c =
      submit_outcome (process now m c.session) (record c { decoder = d })
  process_popped now (err e, d) c = (false, record c { decoder = d })

  -- The loop: a round pops a message, so as many rounds are enough as there are messages. `i` of them
  -- have been processed.
  unfoldable pub process_messages : ℕ → ℕ → (ℕ → ℕ) → Connection → Next
  unfolding process_popped
  process_messages zero i clock c = (true, c)
  process_messages (suc n) i clock c =
      if not (has_message c.decoder)
      then (true, c)
      else let (more, c') = process_popped (clock i) (pop_message c.decoder) c in
        let rest = process_messages n (i + 1) clock c' in if more then rest else (false, c')

  unfoldable pub process_appended : (ℕ → ℕ) → Result (Unit {0}) × StreamDecoder → Connection → Next
  unfolding process_messages
  process_appended clock (err e, d) c = (false, record c { decoder = d })
  process_appended clock (ok u, d) c =
      process_messages (length d.messages) 0 clock (record c { decoder = d })

  -- The body of the loop around `recv`.
  unfoldable pub handle_received : Received → Connection → Next
  unfolding process_appended
  handle_received (bytes b clock) c = process_appended clock (append b c.decoder) c
  handle_received (timed_out now) c =
      let (release, s) = on_timeout now c.session in submit_if release (record c { session = s })
  handle_received closed c = (false, c)
  handle_received failed c = (false, c)

  -- The loop; where the list of answers ends, the connection does.
  unfoldable pub receive_loop : List Received → Connection → Connection
  unfolding handle_received
  receive_loop [] c = c
  receive_loop (r ∷ rs) c =
      let (more, c') = handle_received r c in
      let rest = receive_loop rs c' in if more then rest else c'

  -- A connection, from `accept` to `closesocket`.
  unfoldable pub serve : List Received → Connection
  unfolding receive_loop
  serve rs =
      let c = receive_loop rs new_connection in
      let (release, s) = on_disconnect c.session in (submit_if release (record c { session = s })).1
