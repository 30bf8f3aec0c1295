-- ===== src/Lib.antt =====
-- The touchpad bridge: a Mac reads its trackpad and sends frames over TCP, a Windows receiver turns
-- them into reports, and a KMDF driver submits these to the HID stack as a Precision Touchpad.
--
-- A frame goes through these parts, and each has its module here.
--   Wire        protocol/TouchFrame.c and TouchFrame.h: the C codec of the wire format, which the Mac
--               sends with. Types, Bytes, Encode and Decode hold the definitions, Layout the stores
--               and loads of one message, and RoundTrip, Safety, Ranges and Inside the theorems.
--   Mtp1        windows/receiver/Mtp1.cpp and Mtp1.h: the receiver's decoder. Header and Message are
--               `ValidateHeader` and `DecodeMessage`, Stream is `StreamDecoder`. Valid, Decoded and
--               FromMac relate them to what they promise and to the C codec, Round, Fragments and Feed
--               are about the cuts of the stream.
--   Session     windows/receiver/TouchSession.cpp: the session. Logical is `ToLogical`, Slots
--               `AllocateSlot` and the first loop of `Process`, Frames its other loops and
--               `ReleaseAll`, Process the methods. Assign, Stable and Leave hold the lemmas on the
--               loops, and so do Owners, Active and Lifted; Invariant, Kept, Lifecycle, Errors, Capacity,
--               Exact, Counts and Reach are about the methods. Same, Walk, Put, Erased, Assigned and Unordered
--               are about the order in which `slots_` is walked.
--   Receiver    windows/receiver/main.cpp: the loop that serves a connection, on a list of what `recv`
--               answers. Serve holds the loop, Submits and Drained are about it; Server is the loop on
--               `accept`, with `CreateServer`. Ordered is about a connection as the agent sends it.
--   Ioctl       windows/shared/TouchpadIoctl.h: the structures between receiver and driver.
--   Driver      windows/driver/Driver.c, Driver.h and Descriptor.c: Submit is `SubmitIoctlFrame`, Control
--               the device's life and its requests, Features the feature reports, Descriptor the two
--               tables of bytes; Reports, Accepts, Entries, Cases and Requests are about the
--               functions. Hid reads a report descriptor as a host does, and Fields, Layout, Reads and
--               Declared are about the reports and the descriptor together.
--   Agent       mac/Agent/main.c: the Mac's agent. Queue is the queue to the sender thread, Capture the
--               callbacks, Send `send_all`, `send_control` and the state around a connection; Fifo,
--               Enqueue, Shown, Touches and Press are about them. Threads has any number of callbacks and
--               `sender_main` as threads that take turns; Order, Controls, Landed, Sessions, Landing,
--               Steps, Greeting, Sending, Turns, Runs, Race and Overflow are about what they send.
--               Settings and Start are `main` and `connect_to_receiver`, Options is about the settings.
--   Probe       mac/Probe/main.c and MultitouchSupportABI.h: the probe. Counters and Max are its shared
--               counters, Main its arguments and its start, Abi the layout of the structures.
--   Text        strings, and numbers in decimal digits, as the agent and the probe read their arguments.
--   Base        names of the library, and lemmas on lists, tests and bits that the parts share.
--   Samples     the frames, messages and sessions that the Tests modules run on.
--
-- Numbers are native; a store to a w-bit field is taken modulo 2 ^ w. A pointer into a buffer is the
-- rest of the list of bytes. Floats are their bit patterns on the wire; Session/Logical computes with
-- IEEE-754 single precision exactly, in units of 2 ^ -149 with rounding to 24 bits. A method that can
-- throw returns its result beside the object as it leaves it. An unordered map is an association list,
-- walked in the order of the list; Session/Unordered compares two orders. The clock is an argument.
--
-- The loop of `ParseAvailable` runs on as much fuel as there are bytes, and one more; each round takes
-- 36 bytes at least. The loop on decoded messages runs as many rounds as
-- there are messages, each of which it pops.
--
-- Calls into Windows are parameters: `VhfReadReportSubmit` is a function from reports to statuses,
-- `DeviceIoControl` one from frames to success, and the framework's calls in the driver's callbacks
-- answer what a record holds. So do the calls that start the agent and the probe; `strtof` is a
-- function from texts to values and lengths, while `atoi` and `strtol` are written out in Text.
--
-- Hid is not the host's code, which is not in the repository, but the part of the HID class definition
-- that the items of the descriptor use; an item that it does not know is an error.
--
-- The queue of the agent holds 256 messages. In Threads a callback is cut where it waits for the mutex
-- of the frame, and `sender_main` between its calls; a stretch between two cuts runs as a whole here.
-- A connection that cannot be made changes nothing and is left out of the turns. A call of `send_all` whose answers run out has not returned, and the
-- sender is then blocked. The timestamp of a callback, a double, comes as the microseconds that it is
-- converted to. A message of the agent lies on the stack, and what its bytes hold before they are
-- written is an argument. In Probe the loop of `update_max_touches` is cut at each access.
--
-- Not modelled: the trace file of the agent, what the programs print, the wait of `queue_pop`, the
-- wrappers of Winsock and of the driver's handle, `std::stoul` on the receiver's port, the tools
-- and the tests.
pub mod Base
pub mod Wire
pub mod Mtp1
pub mod Ioctl
pub mod Session
pub mod Driver
pub mod Receiver
pub mod Text
pub mod Agent
pub mod Probe
pub mod Samples
