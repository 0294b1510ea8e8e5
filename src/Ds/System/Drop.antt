-- ===== src/Ds/System/Drop.antt =====
-- What is left of the tasks of src/ds/conn.rs when the `DriverStation` of src/ds.rs is dropped.
use ds_rs.Prelude.{ℕ, ◌≡◌, Bool, some, List, [], ◌∷◌, Outcome, ok, ◌>>=◌}
use ds_rs.Crates.{BytesCrate, Bitflags, Float32}
use ds_rs.Proto.Control.{control_enabled}
use ds_rs.Proto.Outbound.Datagram.{Datagram, receive}
use ds_rs.Ds.Backoff.{Attempt}
use ds_rs.Ds.State.{DsState}
use ds_rs.Ds.Conn.Receiver
use ds_rs.Ds.Conn.Sender.{Sender, SendError, tick}
use ds_rs.Ds.DriverStation.{drop}
use ds_rs.Ds.System.{System, handle}

-- A receiver reads the datagram, and its control byte says whether the robot is enabled.
abbrev pub ShowsEnabled : Bitflags → Bool → List ℕ → Type 0
ShowsEnabled g enabled v =
    (d : Datagram) × (receive v ≡ some d) × (g.contains d.control control_enabled ≡ enabled)

-- The state when the interface is dropped: `drop` sends its signals on the channel to `udp_conn`.
abbrev pub dropped : System → System
dropped sys = record sys { signals = drop sys.running (handle sys) }

module _ (b : BytesCrate) (g : Bitflags) (f : Float32) where
  -- Ticks in a row, each with the time of the supplier and the end of its send: their datagrams.
  unfoldable pub tick_all :
      List (ℕ × Attempt (Unit {0}) SendError) → Sender → DsState → Outcome (List (List ℕ))
  tick_all [] task sh = ok []
  tick_all ((now, sent) ∷ ticks) task sh = do
    t ← tick b g f now sent task sh
    datagrams ← tick_all ticks t.task t.shared
    ok (t.datagram ∷ datagrams)
