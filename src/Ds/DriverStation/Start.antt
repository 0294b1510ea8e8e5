-- ===== src/Ds/DriverStation/Start.antt =====
-- How a `DriverStation` of src/ds.rs starts: its constructors await the task `udp_conn` of
-- src/ds/conn.rs.
use ds_rs.Prelude.{
  ℕ, ◌≡◌, refl, ◌∙◌, Bool, true, false, Option, none, some, List, [], ◌∷◌, ◌++◌, All, Outcome, ok,
  err, panicked, message, ◌>>=◌, if◌then◌else◌,
}
use ds_rs.Crates.{BytesCrate, Bitflags, Float32}
use ds_rs.Util.{ip_from_team_number}
use ds_rs.Proto.Control.{Alliance}
use ds_rs.Proto.Inbound.{UdpResponsePacket}
use ds_rs.Proto.Udp.{decode_datagram}
use ds_rs.Ds.State
use ds_rs.Ds.State.{DsState}
use ds_rs.Ds.Signal.{Address}
use ds_rs.Ds.Conn.Receiver
use ds_rs.Ds.Conn.Receiver.{UtcNow, Event, Flow, continue, return, fail, panic, Round}
use ds_rs.Ds.Conn.Receiver.Lifetime.{
  IsEarly, run_loop, run_loop-early, run_loop-waits, poll, run_loop-datagram,
}
use ds_rs.Ds.DriverStation.{DriverStation}

-- The whole task, where `binds` says whether it gets its socket.
unfoldable pub udp_conn : Bitflags → Bool → List (Bool × Event) → Address → DsState → Outcome Round
udp_conn g binds events ip sh =
    if binds then ok (run_loop g events (Receiver.start ip) sh) else err message

-- `udp_conn(…).await.expect(…)`: none while it runs, and else the state that it leaves.
abbrev awaited : Flow → DsState → Outcome (Option DsState)
awaited continue sh = ok none
awaited return sh = ok (some sh)
awaited fail sh = panicked
awaited panic sh = panicked

abbrev expect : Outcome Round → Outcome (Option DsState)
expect (ok r) = awaited r.flow r.shared
expect (err e) = panicked
expect panicked = panicked

abbrev handle_of : ℕ → Option DsState → Option DriverStation
handle_of team_number none = none
handle_of team_number (some sh) =
    some (record { thread_tx = []; team_number = team_number; state = sh })

-- `DriverStation::new`, given what happens to the task from its start on: the handle, or none while
-- it waits for the task.
unfoldable pub new :
    Bitflags → Bool → List (Bool × Event) → Address → Alliance → ℕ → Outcome (Option DriverStation)
unfolding udp_conn State.new
new g binds events ip alliance team_number = do
  sh ← expect (udp_conn g binds events ip (State.new alliance))
  ok (handle_of team_number sh)

unfoldable pub new_team :
    Bitflags → Bool → List (Bool × Event) → ℕ → Alliance → Outcome (Option DriverStation)
unfolding new
new_team g binds events team_number alliance =
    new g binds events (ip_from_team_number team_number) alliance team_number

module _ (b : BytesCrate) (g : Bitflags) (f : Float32) (team_number : ℕ) (alliance : Alliance)
    (early : List (Bool × Event)) where
  -- The constructor panics if the socket is taken. While the sending task listens it is still waiting
  -- after any silences and signals of the simulator. Behind them, a datagram that the codec decodes
  -- makes it panic: as soon as the socket is polled again, behind more of such events or at once, the
  -- codec is called on what it has left. So the constructor does not return a handle to a robot that
  -- answers.
  pub new_team-early :
      (now now' : UtcNow) (src rest : List ℕ) (answer : Option UdpResponsePacket)
      (between later : List (Bool × Event)) (l l' : Bool)
      → decode_datagram b g f src ≡ ok (answer, rest)
      → All IsEarly early
      → All IsEarly between
      → (new_team g false early team_number alliance ≡ panicked)
        × (new_team g true early team_number alliance ≡ ok none)
        × (new_team g true
              (early ++ (l, poll b g f now src) ∷ (between ++ (l', poll b g f now' rest) ∷ later))
              team_number
              alliance
            ≡ panicked)
  unfolding new_team
  new_team-early now now' src rest answer between later l l' e h h' =
      let ip : Address = ip_from_team_number team_number in
      let (task, sh, same) = run_loop-early g early (Receiver.start ip) (State.new alliance) h in
      let ended =
        same ((l, poll b g f now src) ∷ (between ++ (l', poll b g f now' rest) ∷ later))
        ∙ run_loop-datagram b g f now now' src rest answer between later l l' task sh e h' in
      (
        refl,
        rw (run_loop-waits g early (Receiver.start ip) (State.new alliance) h) refl,
        rw ended refl,
      )
