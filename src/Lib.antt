-- ===== src/Lib.antt =====
-- ds-rs: a driver station for the robots of the FIRST Robotics Competition, in Rust. It sends a
-- control datagram to the roboRIO every 20 milliseconds, reads the roboRIO's response datagrams, keeps
-- a TCP stream for console messages and match data, and follows a simulator on the local host.
--
-- How the parts interact. `DriverStation` (src/ds.rs) owns a shared state behind three locks
-- (src/ds/state.rs, src/ds/state/send.rs, src/ds/state/recv.rs) and a channel of signals to the task
-- `udp_conn` (src/ds/conn.rs). That task reads responses, spawns `tcp_conn`, and forwards signals to
-- the sending task that it has spawned, which makes a packet from the state, encodes it and sends it
-- under a backoff (src/ds/conn/backoff.rs). `sim_conn` tells `udp_conn` of a simulator. The codecs are
-- src/proto/udp.rs and src/proto/tcp.rs with what lies below them.
--
-- The files. Each names the code that it is about in its first comment.
--   Prelude      shared names, lists over the native numbers, `Outcome` (a result, an error, or a
--                panic), Boolean tests, and facts about bits by tables.
--   Crates       what the code takes from `bytes` (Crates/Bytes), `bitflags` (Crates/Flags) and from
--                floating point (Crates/Float): records of operations with their documented laws, which
--                every definition that needs them takes as an argument. Crates/Reference has
--                concrete functions that meet the laws.
--   Util         src/util.rs: `to_u8_vec`, `ip_from_team_number`.
--   Ext          src/ext.rs: the ten reads of `BufExt`.
--   Proto/Tags, Proto/Control, Proto/Outbound
--                src/proto/udp/outbound/types.rs and src/proto/udp/outbound.rs: the tags, the flags and
--                the alliance, `UdpControlPacket::encode`.
--   Proto/Inbound
--                src/proto/udp/inbound.rs and inbound/types.rs: `UdpResponsePacket::decode`.
--   Proto/Udp    src/proto/udp.rs: the codec of the datagrams.
--   Proto/Tcp    src/proto/tcp.rs, tcp/inbound.rs, tcp/outbound.rs: the codec of the stream; Arrivals has
--                a stream that arrives in parts.
--   Ds/Mode, Ds/Joystick, Ds/SendState, Ds/State, Ds/Signal
--                src/ds/state.rs, src/ds/state/send.rs, src/ds/state/recv.rs, and the types of
--                src/ds.rs: the shared state and every method that changes it.
--   Ds/Backoff   src/ds/conn/backoff.rs.
--   Ds/Conn      src/ds/conn.rs: Receiver is the loop of `udp_conn`, Sender the task that it spawns, Tcp
--                is `tcp_conn` (Tcp/Tasks has all of these tasks with their channels for tags, and
--                a panic of the encoder, the decoder or the consumer ends its task), Simulator
--                is `sim_conn`.
--   Ds/DriverStation
--                src/ds.rs: the methods of `DriverStation`; Requests has one value for each that changes
--                something, and Start the constructors, which await `udp_conn`.
--   Ds/System    the interface, the tasks, the state that they share and the channels between them,
--                composed into one step relation. Channels says what the signals that wait will do,
--                Choices what the parts keep, and Targets, Settle, Disabled, Drop, Ticks (with Fit)
--                and Calls follow the relation. The steps are those of a station whose sockets bind
--                and connect. A panic of the sending task on a tag that is too long is a step, after
--                which that task is gone; so is one of `udp_conn` in the decoder.
--                Tags replaces the free events of the TCP tasks by all of these tasks with their
--                channels, and Tags/Delivery follows the tags.
--   LibDs/Joysticks
--                libDS/src/joysticks.rs: the joysticks of the C interface.
--   LibDs/Station, LibDs/Memory, LibDs/Modes, LibDs/Trace
--                libDS/src/cds.rs, lib.rs and trace.rs: the functions of the C interface over a memory
--                of alliances and driver stations, in which a call may have undefined behaviour.
--   Tests        runs at concrete inputs, and instances of the theorems.
--
-- How the code is read. A method that mutates returns the new value. A buffer is the list of its bytes;
-- a read returns its value and the rest. An integer of `w` bits is a natural number whose wrap-around
-- is written out, a signed one its two's complement pattern, an `f32` the number of its bits, a
-- `String` its bytes in UTF-8. Arithmetic that overflows panics, as it does with the overflow checks of
-- a debug build. A panic is a value, `panicked`, and ends what surrounds it.
-- A branch of a `select!` is an event and one round of its loop a function of it; what comes from
-- outside (the result of a send, the clock, what a socket hears, the answer of the joystick supplier)
-- is an argument. A round is taken as one step, as if it held the locks that it takes from its start to
-- its end. That of `udp_conn` on a packet lets the others in between, so Ds/System has its parts as
-- steps too, in any order (Ds/Conn/Receiver/Parts). Of the other rounds, that on a new mode reads the
-- mode under one lock and sets it under another, and nothing else sets it; those of the sending task
-- hold the first lock to their end, and take the one of what was received for a single write. The
-- relations and lists of steps order the rounds in any way. In Ds/System a TCP task may have any event
-- at any time, also one that its own channel would not give it, which allows more than the source does;
-- Ds/System/Tags gives it only those of its channels. So is it with the datagrams of `udp_conn` in
-- these relations; `poll` of Ds/Conn/Receiver/Lifetime says what the socket delivers, given the bytes
-- that the codec is called on.
--
-- Fuel. `fill_bytes` runs on the number of the buttons, of which each round passes eight; `show_digits`
-- on four more digits than one, enough for 65535; `skip_tags` on the number of the bytes left, of which
-- each round takes one at least. The other loops are structural.
--
-- libDS does not build against this version of the crate (it takes the methods for synchronous ones and
-- its team numbers have 32 bits); a call of a method is read as its run to the end, on a number of 16
-- bits, and a call of a constructor returns, panics or still waits as the task does that it awaits. `DriverStation::new` gives its caller the handle only when `udp_conn` is over; the step relation
-- of Ds/System lets the interface be called at any time, so what holds of it holds of both readings.
--
-- Not modelled: sockets beyond whether they bind and connect and what they receive, time itself, the
-- printing of messages, the crates, and what the tasks change between two calls of the C interface.
pub mod Prelude
pub mod Crates
pub mod Util
pub mod Ext
pub mod Proto
pub mod Ds
pub mod LibDs
pub mod Tests
