-- ===== src/Ds/Conn/Sender.antt =====
-- The sending task that `udp_conn` of src/ds/conn.rs spawns.
pub mod Ticks
pub mod Switch
pub mod Run
pub mod Kept
use ds_rs.Prelude.{ℕ, Bool, true, false, Option, none, some, List, Outcome, ok, assert, ◌>>=◌}
use ds_rs.Crates.{BytesCrate, Bitflags, Float32}
use ds_rs.Proto.Outbound.{encode}
use ds_rs.Ds.Mode.{normal, simulation}
use ds_rs.Ds.SendState.{control, increment_seqnum, reset_seqnum, disable}
use ds_rs.Ds.Backoff
use ds_rs.Ds.Backoff.{ExponentialBackoff, Attempt, Ran, done, failing, run}
use ds_rs.Ds.State.{DsState, RecvState, reset}
use ds_rs.Ds.Signal.{Address, Signal, disconnect, new_target, new_mode}
use ds_rs.Ds.Conn.Receiver.{localhost}

-- The socket is known by the address that it is connected to, at port 1110.
pub record Sender : Type 0 where
  pub target : Address
  pub backoff : ExponentialBackoff

-- `Duration::new(5, 0)`
abbrev pub max_wait : ℕ
max_wait = 5000000000

abbrev pub start : Address → Sender
start ip = record { target = ip; backoff = Backoff.new max_wait }

-- The errors of a send: the kind `ConnectionRefused`, or another.
pub data SendError : Type 0 where
  refused other : SendError

-- What a tick leaves: the datagram that went to the socket, and the time slept before.
pub record Tick : Type 0 where
  pub task : Sender
  pub shared : DsState
  pub datagram : List ℕ
  pub slept : Option ℕ

abbrev pub after_send : Ran (Unit {0}) SendError → RecvState → RecvState
after_send (done u) recv = recv
after_send (failing refused true) recv = reset recv
after_send (failing refused false) recv = recv
after_send (failing other first) recv = recv

-- `interval.tick()`, at the time `now` of the supplier, with a send that ends as `sent` says.
unfoldable pub tick :
    BytesCrate
    → Bitflags
    → Float32
    → ℕ
    → Attempt (Unit {0}) SendError
    → Sender
    → DsState
    → Outcome Tick
tick b g f now sent task sh = do
  (state, packet) ← control g f now sh.send
  v ← encode b packet
  (backoff, slept, result) ← run task.backoff sent
  ok (record {
    task = record task { backoff = backoff };
    shared = record sh { send = increment_seqnum state; recv = after_send result sh.recv };
    datagram = v;
    slept = slept;
  })

-- The part that both handled signals share: the robot is disabled, and the socket connected anew to
-- `target`. `connects` says whether the binds and connects succeed; an `expect` panics if not.
abbrev pub switch_to : Bool → Address → Sender → DsState → Outcome (Sender × DsState)
switch_to connects target task sh = do
  _ ← assert connects
  ok (
    record { target = target; backoff = Backoff.reset task.backoff },
    record sh { send = disable (reset_seqnum sh.send); recv = reset sh.recv },
  )

-- A signal from the channel, or its end.
unfoldable pub on_signal : Bool → Option Signal → Sender → DsState → Outcome (Sender × DsState)
on_signal connects (some (new_target ip)) task sh = switch_to connects ip task sh
on_signal connects (some (new_mode simulation)) task sh = switch_to connects localhost task sh
on_signal connects (some (new_mode normal)) task sh = ok (task, sh)
on_signal connects (some disconnect) task sh = ok (task, sh)
on_signal connects none task sh = ok (task, sh)
