-- ===== src/Receiver/Server.antt =====
-- windows/receiver/main.cpp: `CreateServer`, the driver that may be missing, and the loop on `accept`.
use touchpad.Base.{
  ℕ, Bool, true, false, not, ◌||◌, if◌then◌else◌, Option, none, some, List, [], ◌∷◌, ◌++◌, All,
  All-append,
}
use touchpad.Ioctl.{IoctlFrame, IsSubmittable}
use touchpad.Session.Process.{on_disconnect}
use touchpad.Receiver.Serve.{Received, Next, new_connection, submit_if, receive_loop, serve}
use touchpad.Receiver.Submits.{IsReceived, serve-IsSubmittable}

-- `CreateServer` on what `socket`, `bind` and `listen` answer: the server's socket, `none` for an exception, and the
-- open sockets.
unfoldable pub create_server : Option ℕ → Bool → Bool → List ℕ → Option ℕ × List ℕ
create_server none binds listens sockets = (none, sockets)
create_server (some server) binds listens sockets =
    if not binds || not listens then (none, sockets) else (some server, server ∷ sockets)

-- `Submit` throws only with a driver: without one it prints the frame. `device_io_control` is asked in the
-- first case alone.
abbrev pub submits : Bool → (IoctlFrame → Bool) → IoctlFrame → Bool
submits driver_valid device_io_control f = if driver_valid then device_io_control f else true

-- What `accept` answers: no socket, or a client with what `recv` answers on it.
pub data Accept : Type 0 where
  no_client : Accept
  client : List Received → Accept

module _ (device_io_control : IoctlFrame → Bool) where
  -- A connection with whether its last `Submit`, which is outside the inner `try`, has returned.
  unfoldable pub serve_client : List Received → Next
  unfolding receive_loop on_disconnect submit_if
  serve_client rs =
      let c = receive_loop device_io_control rs new_connection in
      let (release, s) = on_disconnect c.session in
      submit_if device_io_control release (record c { session = s })

  abbrev pub next_client :
      Next → (List IoctlFrame → Bool × List IoctlFrame) → List IoctlFrame → Bool × List IoctlFrame
  next_client (true, c) next frames = next (frames ++ c.submitted)
  next_client (false, c) next frames = (false, frames ++ c.submitted)

  -- The loop of `main`: whether it goes on to wait for a client, or has ended with the exit code 1, and the
  -- frames that were submitted on all connections.
  unfoldable pub accept_loop : List Accept → List IoctlFrame → Bool × List IoctlFrame
  unfolding serve_client
  accept_loop [] frames = (true, frames)
  accept_loop (no_client ∷ accepts) frames = (false, frames)
  accept_loop (client rs ∷ accepts) frames =
      next_client (serve_client rs) (accept_loop accepts) frames

  -- Clients whose bytes are bytes.
  abbrev pub IsAccept : Accept → Type 0
  IsAccept no_client = Unit
  IsAccept (client rs) = All IsReceived rs

  next_client-All :
      (r : Next) (next : List IoctlFrame → Bool × List IoctlFrame) (frames : List IoctlFrame)
      → All IsSubmittable frames
      → All IsSubmittable r.1.submitted
      → ((fs : List IoctlFrame) → All IsSubmittable fs → All IsSubmittable (next fs).1)
      → All IsSubmittable (next_client r next frames).1
  next_client-All (true, c) next frames h k n =
      n (frames ++ c.submitted) (All-append IsSubmittable frames c.submitted h k)
  next_client-All (false, c) next frames h k n = All-append IsSubmittable frames c.submitted h k

  serve_client-All :
      (rs : List Received) → All IsReceived rs → All IsSubmittable (serve_client rs).1.submitted
  unfolding serve_client serve
  serve_client-All rs h = (serve-IsSubmittable device_io_control rs h).0

  -- Whatever clients connect one after the other, and however their connections end: every frame that the
  -- receiver submits in its life is one that the driver takes.
  pub accept_loop-IsSubmittable :
      (accepts : List Accept) (frames : List IoctlFrame)
      → All IsAccept accepts
      → All IsSubmittable frames
      → All IsSubmittable (accept_loop accepts frames).1
  unfolding accept_loop
  accept_loop-IsSubmittable [] frames h k = k
  accept_loop-IsSubmittable (no_client ∷ accepts) frames h k = k
  accept_loop-IsSubmittable (client rs ∷ accepts) frames (r, h) k =
      next_client-All (serve_client rs) (accept_loop accepts) frames k (serve_client-All rs r)
        (λ fs. accept_loop-IsSubmittable accepts fs h)
