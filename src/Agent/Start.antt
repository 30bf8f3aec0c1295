-- ===== src/Agent/Start.antt =====
-- mac/Agent/main.c: `connect_to_receiver`, and `main` behind its arguments, without what they print.
use touchpad.Base.{
  ℕ, ◌+◌, ◌-◌, ◌*◌, ◌%◌, ◌^◌, ◌≡◌, ◌≢◌, refl, arith, Bool, true, false, not, ◌&&◌, ◌||◌, ltb, leb,
  ◌==◌, if◌then◌else◌, Option, none, some, List, [], ◌∷◌, ◌++◌,
}

-- What `socket` and then `connect` answer for an address: no socket, or a descriptor that is refused or connected.
pub data Address : Type 0 where
  no_socket : Address
  refuses accepts : ℕ → Address

-- The open descriptors, the latest first.
abbrev pub close : ℕ → List ℕ → List ℕ
close fd [] = []
close fd (d ∷ open_fds) = if d == fd then open_fds else d ∷ close fd open_fds

-- The loop over the addresses: the connected socket, and the open descriptors.
unfoldable pub connect_loop : List Address → List ℕ → Option ℕ × List ℕ
connect_loop [] open_fds = (none, open_fds)
connect_loop (no_socket ∷ addresses) open_fds = connect_loop addresses open_fds
connect_loop (refuses fd ∷ addresses) open_fds = connect_loop addresses (close fd (fd ∷ open_fds))
connect_loop (accepts fd ∷ addresses) open_fds = (some fd, fd ∷ open_fds)

-- `none` when the lookup fails.
unfoldable pub connect_to_receiver : Option (List Address) → List ℕ → Option ℕ × List ℕ
unfolding connect_loop
connect_to_receiver none open_fds = (none, open_fds)
connect_to_receiver (some addresses) open_fds = connect_loop addresses open_fds

-- The socket of the first address that is connected.
abbrev pub first_accepting : List Address → Option ℕ
first_accepting [] = none
first_accepting (no_socket ∷ addresses) = first_accepting addresses
first_accepting (refuses fd ∷ addresses) = first_accepting addresses
first_accepting (accepts fd ∷ addresses) = some fd

abbrev pub one_of : Option ℕ → List ℕ
one_of none = []
one_of (some fd) = fd ∷ []

-- The first address that can be connected is taken, and no other socket is left open.
pub connect_loop_lem :
    (addresses : List Address) (open_fds : List ℕ)
    → connect_loop addresses open_fds
      ≡ (first_accepting addresses, one_of (first_accepting addresses) ++ open_fds)
unfolding connect_loop
connect_loop_lem [] open_fds = refl
connect_loop_lem (no_socket ∷ addresses) open_fds = connect_loop_lem addresses open_fds
connect_loop_lem (refuses fd ∷ addresses) open_fds =
    let same : (fd == fd) ≡ true = ground arith in rw same (connect_loop_lem addresses open_fds)
connect_loop_lem (accepts fd ∷ addresses) open_fds = refl

-- What the system answers to `main`; `is_built_in` and the button callback may be missing, and `devices` is `none`
-- for a null list.
pub record Environment {ℓ} (Device : Type ℓ) : Type ℓ where
  pub trace_opens : Bool
  pub thread_created : Bool
  pub framework_opens : Bool
  pub create_list : Bool
  pub register_callback : Bool
  pub start : Bool
  pub is_built_in : Option (Device → Bool)
  pub devices : Option (List Device)

-- `main` in front of its last loop: its exit code if it has returned, the devices that stream, and the sender thread.
pub record Startup {ℓ} (Device : Type ℓ) : Type ℓ where
  pub exit_code : Option ℕ
  pub streams : List Device
  pub running : Bool
  pub sender_created : Bool
  pub sender_joined : Bool

module _ {ℓ} {Device : Type ℓ} where
  -- `is_built_in != NULL && !is_built_in(device)`
  abbrev pub is_external : Option (Device → Bool) → Device → Bool
  is_external none device = false
  is_external (some test) device = not (test device)

  unfoldable pub start_streams : Option (Device → Bool) → List Device → List Device
  start_streams test [] = []
  start_streams test (device ∷ devices) =
      let rest = start_streams test devices in
      if is_external test device then rest else device ∷ rest

  abbrev pub streams_of : Environment Device → Option (List Device) → List Device
  streams_of e none = []
  streams_of e (some devices) = start_streams e.is_built_in devices

  -- `stop_agent(0)`, then `pthread_join`, and the exit code 1
  abbrev pub stop_and_join : Startup Device
  stop_and_join = record {
    exit_code = some 1;
    streams = [];
    running = false;
    sender_created = true;
    sender_joined = true;
  }

  abbrev pub not_started : Startup Device
  not_started = record {
    exit_code = some 1;
    streams = [];
    running = true;
    sender_created = false;
    sender_joined = false;
  }

  abbrev pub streaming_or_stopped : List Device → Startup Device
  streaming_or_stopped [] = stop_and_join
  streaming_or_stopped (device ∷ devices) = record {
    exit_code = none;
    streams = device ∷ devices;
    running = true;
    sender_created = true;
    sender_joined = false;
  }

  -- `traces` says whether a trace file is asked for.
  unfoldable pub start_agent : Bool → Environment Device → Startup Device
  unfolding start_streams
  start_agent traces e =
      if traces && not e.trace_opens
      then not_started
      else if not e.thread_created
      then not_started
      else if not e.framework_opens
      then stop_and_join
      else if not e.create_list || (not e.register_callback || not e.start)
      then stop_and_join
      else streaming_or_stopped (streams_of e e.devices)

  -- A start that returns leaves no sender thread behind it, and one that goes on has a device that streams.
  pub record IsOrderly (s : Startup Device) : Type ℓ where
    pub joined : (code : ℕ) → s.exit_code ≡ some code → s.sender_joined ≡ s.sender_created
    pub streams :
        s.exit_code ≡ none → (s.streams ≢ []) × (s.running ≡ true) × (s.sender_created ≡ true)

  if-IsOrderly :
      (b : Bool) (x y : Startup Device) → IsOrderly x → IsOrderly y → IsOrderly (if b then x else y)
  if-IsOrderly true x y h k = h
  if-IsOrderly false x y h k = k

  streaming_or_stopped-IsOrderly : (ds : List Device) → IsOrderly (streaming_or_stopped ds)
  streaming_or_stopped-IsOrderly [] = record { joined = λ c e. refl; streams = λ e. absurd (cc) }
  streaming_or_stopped-IsOrderly (d ∷ ds) = record {
    joined = λ c e. absurd (cc);
    streams = λ e. ((λ h. cc), refl, refl);
  }

  pub start_agent-IsOrderly :
      (traces : Bool) (e : Environment Device) → IsOrderly (start_agent traces e)
  unfolding start_agent
  start_agent-IsOrderly traces e =
      let stopped : IsOrderly stop_and_join = record {
        joined = λ c h. refl;
        streams = λ h. absurd (cc);
      } in
      let unstarted : IsOrderly not_started = record {
        joined = λ c h. refl;
        streams = λ h. absurd (cc);
      } in
      if-IsOrderly (traces && not e.trace_opens) _ _ unstarted (
        if-IsOrderly (not e.thread_created) _ _ unstarted (
          if-IsOrderly (not e.framework_opens) _ _ stopped (
            if-IsOrderly (not e.create_list || (not e.register_callback || not e.start)) _ _ stopped
              (streaming_or_stopped-IsOrderly (streams_of e e.devices)))))

-- The last loop: in each round what `running` is, and then the clock. Whether the loop has ended, and whether
-- `running` is set then.
unfoldable pub run_until : ℕ → ℕ → List (Bool × ℕ) → Bool × Bool
run_until duration started_at [] = (false, true)
run_until duration started_at ((running, now) ∷ rounds) =
    let rest = run_until duration started_at rounds in
    if not running
    then (true, false)
    else if ltb 0 duration && leb (duration * 1_000_000) ((now + (2 ^ 64 - started_at)) % 2 ^ 64)
    then (true, false)
    else rest
