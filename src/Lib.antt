-- ===== src/Lib.antt =====
-- niwPSPtoPC, the program on the PC that turns the input of a PSP into a virtual Xbox 360
-- controller: its protocol, its receiver and its controller service.
--
-- The parts, and the files that model them:
-- - Struct: the big- and little-endian formats of Python's `struct` without padding, as far as
--   pc-server/pc_server/protocol.py uses them. Bytes are numbers below 256. RoundTrip and Canonical
--   are the laws of packing and unpacking.
-- - Protocol (pc-server/pc_server/protocol.py): `decode_packet`, `encode_packet`,
--   `encode_pairing_ack` and `decode_pairing_ack` under their own names. Protocol/Pairing has
--   `format_pairing_token` and `parse_pairing_token`. Exceptions are values; `bad_struct` and
--   `field_range` are `struct.error`.
-- - Receiver (pc-server/pc_server/receiver.py): Sequence (`SequenceTracker`), Rate (`RateTracker`,
--   `estimate_latency_ms`), Cache (`_remember_cache_entry_locked`), State (the fields of
--   `UdpReceiver`), Effects (log lines and callbacks), Clients (`_maintain_clients_locked`,
--   `set_pairing_token`, `disconnect_active_client`, `allow_transport`), Handle
--   (`_handle_packet`), Process (`_process_data`), Run (the constructor and the order of calls).
--   Metrics has `metrics` and the properties. Invariant, Core, Takeover, Unpaired, Tally, Choice,
--   Accounts, Calls, Delivery and Admission hold proofs.
-- - Gamepad (pc-server/pc_server/gamepad.py): Mapping (`map_packet_to_xbox360` and both axes),
--   Failure (`_classify_backend_failure`), and Service (`ControllerService`): its State, the parts
--   of its methods in Session, the Methods under their own names, Safe with the invariant, Run with
--   the order of calls, Outcomes of single methods, and Spec, the automaton of modes that Refines
--   compares it with.
-- - Usb (pc-server/pc_server/usb_transport.py): Frame (the frames of USBHostFS), Device (`PyUsbDevice`
--   and its exceptions), Handshake (`perform_usbhostfs_handshake`), Backend (`PyUsbBackend.open`) and
--   Source (`UsbPacketSource`). Source/Receiver puts the receiver behind the source; Source/Deliveries and
--   Source/Payloads compare what is read with what is handed on.
-- - Doctor (pc-server/pc_server/connection_doctor.py): `ConnectionDoctor`, and its Report.
-- - Simulator (pc-server/pc_server/simulator.py): the packets and the sending loop.
-- - Display (pc-server/pc_server/display.py): `format_buttons` and `ControllerDisplay`; Terminal is the
--   line that a terminal shows of it.
-- - Settings (pc-server/pc_server/gui_settings.py): `validate_bind_settings`, with `IPv4Address`, `int` and
--   the methods of `str` that it uses; File has `load_settings` and `save_settings`.
-- - Gui (pc-server/pc_server/gui.py): the window `NiwPspToPcApp`. Gui has its fields and its calls,
--   Widgets what it shows, Actions, Pairing and Lifecycle the handlers of the user, Messages the queue,
--   Run the event loop. Facts, Invariant, Sound, Reach and Restart hold proofs; Calls puts the receiver of
--   Receiver behind the window's buttons.
-- - Winusb (pc-server/pc_server/winusb_setup.py): which PSP lacks its WinUSB interface, and the repair;
--   Configure has `_configure_instance`.
-- - Base: the names of the libraries that the parts share, tests into Bool, dictionaries, bits.
--
-- A datagram enters `process_data` with its sender, is decoded by Protocol, admitted by Handle,
-- and leaves as a snapshot for the controller service, which maps it and applies it to the virtual
-- gamepad, and an ACK for the PSP. The window makes the receiver and the service with the settings,
-- calls them, and shows what they tell it through its queue.
--
-- How the source is read:
-- - One call of a method is one step: the receiver's lock guards its fields. The callbacks and
--   the transport's send are given by what they answer (`Env`), and the clocks by their readings
--   (`Clock`). What the receiver does to the outside is appended to its `trace`. So it is with the
--   controller service, whose `Outside` says what the backend's calls raise and what the clock
--   reads; its `trace` has the calls of the backend, those that raise included.
-- - Times are microseconds in ℕ instead of floating-point seconds; a comparison of a difference
--   is written with a sum. The quotients of the axes are exact.
-- - A `dict` is an association list in order of insertion with distinct keys, an `OrderedDict`
--   of the caches the same with the oldest entry first, and a `set` a list.
-- - The loops are structural recursion on lists or on the number of their rounds; no fuel runs out.
--   The handshake has its ten attempts. The reading loop of a device and the loop of `run` get the
--   number of rounds, and the outcomes of `backend.open()`, that the stop event leaves them.
-- - The USB device is a parameter: each answer is a function of all calls so far. A call that
--   `request_stop` disturbs is one that fails, and its own call of `close` is an extra one before that
--   of the `finally`.
-- - Texts of the doctor and the display are pieces: numbers are left unprinted.
-- - The window's receivers and services are numbers, and its calls of them a list; what they answer is
--   given with each handler, and their messages may come in any order. A handler of Tk is one step.
-- - A settings file is the JSON value that its text stands for; `json` itself is not modelled. What `str`
--   makes of a list or a dictionary is a parameter, and so are the digits that `int` knows beyond ASCII.
-- - A PSP in the Windows registry comes with what the calls for it answer.
-- - The Unicode tables behind `str.strip` and `str.upper` are a parameter, `Unicode`; what the
--   code relies on is their value on ASCII, `IsUnicode`.
--
-- Not modelled: the socket loop and the threads, the calls of the vgamepad library
-- (`VGamepadBackend`), the status line of the display, how the window is laid out and drawn and its windows
-- for the doctor and the settings, the arguments of the command line, the elevated start and the report
-- file of the driver's setup, the queries of pc-server/pc_server/windows_diagnostics.py, the mutex of
-- pc-server/pc_server/single_instance.py, the soak test, and the C code of psp-client.
pub mod Base
pub mod Struct
pub mod Protocol
pub mod Receiver
pub mod Gamepad
pub mod Usb
pub mod Doctor
pub mod Simulator
pub mod Display
pub mod Settings
pub mod Gui
pub mod Winusb
