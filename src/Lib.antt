-- ===== src/Lib.antt =====
-- radio-server runs a half-duplex radio station: one radio, whose key line and
-- audio are shared by a receiver, by services that speak over the air, and by
-- operators who stream from a browser. This library models the parts that
-- decide when the station may transmit, for how long, under which
-- identification and on whose word, and the wire codecs of its devices.
--
-- How the parts interact: a streaming session (TxSession) takes TX from the
-- arbiter before it keys the radio and gives it back when it unkeys; the radio
-- it keys is wrapped by the time-out timer (TotRadio), whose watchdog drops a
-- key that is held too long; each over of a service goes through the station
-- identification (StationId), and each over of a stream through StreamingId,
-- which the session calls at key-up, at each chunk and at the close. Over the
-- air, DTMF entries pass the login gate (AuthGate), which asks a code verifier.
-- The keys of an entry come from the framer (DtmfFramer), and while keys are heard
-- the mute gate keeps them off the voice link. A scan (ScanEngine) tunes the
-- receiver and pauses while the arbiter says that TX holds the radio. One talker
-- at a time has the slot of the transmitter (TxSlot). The controller runs the
-- entries of a frame through the gate, the commands through the Dispatcher and
-- every over through StationId, and tells the session's ledger. The kv4p codec
-- carries commands and audio to the device, which the pacer feeds one packet a
-- slot while a key is held, the UV-K5 codec commands to a docked
-- radio and its answers, the D-STAR codecs a stream to a gateway, and the DV
-- Dongle codec audio to a vocoder and back.
--
-- Files, and the sources they model:
--   Arbiter          radio_server/arbiter/state.py: RadioArbiter
--   Tx/Tot           radio_server/tx/tot.py: TotRadio
--   Tx/Session       radio_server/tx/session.py: TxSession
--   Services         radio_server/services/station_id.py: StationId, StreamingId
--   Auth/Totp        radio_server/auth/totp.py and auth/fixed.py
--   Auth/Gate        radio_server/auth/session.py: AuthGate
--   Tx/Slot          radio_server/tx/session.py: TxSlot
--   Scan             radio_server/scan/engine.py: ScanPlan, ScanEngine
--   Entry            radio_server/audio/dtmf.py: DtmfFramer
--   Entry/Windows    the same file: BufferedDtmfInput
--   Activity         radio_server/activity/gate.py: AudioLevelGate, PolledGate
--   Link/Mute        radio_server/link/mute.py: DtmfMuteGate
--   Dstar/Dsrp       radio_server/dstar/dsrp.py
--   Dstar/Header     radio_server/dstar/header.py: the header and its CRC
--   Kv4p/Kiss        radio_server/backends/kv4p/frames.py: the KISS framing
--   Kv4p/Frame       the same file: vendor frames and their dispatch
--   Kv4p/Structs     the same file: Version, HostDesiredState, DeviceState,
--                    Hello, WindowUpdate
--   Kv4p/Encoder     radio_server/backends/kv4p/audio.py: TxAudioEncoder
--   Kv4p/Pacer       radio_server/backends/kv4p/pacer.py: _TxPacer
--   Vocoder/Frame    radio_server/vocoder/frames.py: the packets of the DV Dongle
--   Uvk5/Frame       radio_server/backends/uvk5/frames.py: CRC, obfuscation,
--                    build_frame and Uvk5Decoder
--   Uvk5/Message     the same file: a record and a codec per message class, in
--                    files by group, and parse_frame over the dispatch table
--   Controller       radio_server/controller/engine.py: Controller, and the
--                    Dispatcher of services/dispatch.py
-- A file below one of these holds proofs about it and is named for what they
-- show, and Examples holds tests. Base is what the parts share: the library
-- names, Boolean tests on numbers, lists, integers, the digits of an exclusive
-- or, and Python's struct over unsigned fields.
--
-- How code corresponds to definitions: an object is a record with a field for
-- each attribute that its methods change, and a method is a function from the
-- state to the state, with its result or its error beside it. A method that
-- raises after it changed its object returns the changed state with the error.
-- What a collaborator does is in the arguments: the radio and the identifier
-- may raise at any call, and a list of Booleans says of each call in turn
-- whether it does; what the receiver's polls read is such a list too. What
-- reaches the radio or a callback is kept as a list,
-- newest first. Times are natural numbers of ticks, since the code compares
-- and subtracts them only; an interval or a limit is a number of ticks too.
-- Steps of the login codes are integers, as the window around the first
-- step reaches below zero. Audio is a list of bytes, in the pacer one of samples.
-- Threads are sequences of the sections that run under a lock, so a theorem
-- over any sequence of events is about any interleaving of those sections. The
-- time-out timer calls the radio outside of its lock, at each `ptt`, `transmit`
-- and forced unkey: there each radio call is a step of its own.
--
-- Bounds: each loop is a recursion on the list that it walks, but for those of
-- TxAudioEncoder.push and DvDongleDecoder.feed, which take a block or a packet
-- off at a time and run on as much fuel as there are samples or bytes; each
-- round takes at least one of them. The decoder of the kv4p holds back at most
-- 2055 bytes, the largest frame that the source admits, and that of the UV-K5 at
-- most 254.
--
-- Parameters: the tone decoder is a function from audio to keys, and the codes
-- of pyotp are a function from a time to a code; of both nothing is assumed. The
-- audio that the encoder renders for an identification is an argument. The TX
-- gain of the kv4p is a function of one sample, and a packet stands as the block
-- of samples that Opus encodes into it. What struct makes of a Python float in
-- a 32-bit field, the rounding and the overflow, is a parameter too.
--
-- Not modelled: device drivers, sockets, serial ports, the web routes and
-- audio arithmetic on floating-point numbers; a radio call that raises under the
-- scan or the time-out timer; more than one caller of the timer at once, but for
-- the race that Tx/Tot/Race shows; the recorder; the making of callsign fields
-- from strings; how the controller is built from settings. Logging and attribute
-- delegation are left out of the methods that are modelled.
mod Base
pub mod Activity
pub mod Arbiter
pub mod Auth
pub mod Controller
pub mod Dstar
pub mod Entry
pub mod Kv4p
pub mod Link
pub mod Scan
pub mod Services
pub mod Tx
pub mod Uvk5
pub mod Vocoder
