-- ===== src/Tests/Stations.antt =====
-- Instances for the C interface of libDS/src/cds.rs.
use ds_rs.Prelude.{
  ◌≡◌, refl, inr, true, false, none, some, [], ◌∷◌, ok, panicked, ◌==◌, if◌then◌else◌, arith,
}
use ds_rs.Crates.Reference.{bytes, flags}
use ds_rs.Proto.Control
use ds_rs.Proto.Control.{Alliance}
use ds_rs.Proto.Tcp.{TcpPacket, decode}
use ds_rs.Proto.Tcp.Utf8.{is_utf8}
use ds_rs.Ds.State
use ds_rs.Ds.DriverStation
use ds_rs.Ds.DriverStation.{DriverStation}
use ds_rs.LibDs.Modes.{c_test, to_ds}
use ds_rs.LibDs.Memory.{Memory, done, ◌>>=◌, alliance_cell, station_cell}
use ds_rs.LibDs.Station
use ds_rs.Ds.Conn.Receiver.{stream_end}
use ds_rs.LibDs.Station.{
  Course, set_mode, get_mode, enable, enabled, disable, estop, estopped, set_team_number,
  get_team_number, set_game_specific_message, consume,
}
use ds_rs.LibDs.Station.Calls.{call_alliance_new_red, call_new_team, run}
use ds_rs.LibDs.Station.Frame.{IsFine}
use ds_rs.LibDs.Station.Programs.{Reach, begin, called, Reach-IsFine}
use ds_rs.LibDs.Station.Values.{with_station, setters_lem, message_code_lem}
use ds_rs.LibDs.Station.Owners.{consume-decode}

abbrev red : Alliance
red = record { station = 0 }

abbrev with_alliance : Memory
with_alliance = record { cells = λ q. if q == 1 then some (alliance_cell red) else none; fresh = 2 }

make_alliance : Reach with_alliance
unfolding run Station.alliance_new_red Control.new_red
make_alliance = called true (λ k. true) (call_alliance_new_red 1) begin tt refl

-- A task that gets its socket, and whose stream then ends.
abbrev ended : Course
ended = record { flags = flags; binds = true; events = (true, stream_end) ∷ [] }

-- The alliance becomes a driver station.
Reach-IsFine_example :
    IsFine
      (λ q. q == 1)
      with_alliance
      (run true (λ k. true) (call_new_team ended 4069 1) with_alliance)
Reach-IsFine_example =
    Reach-IsFine true (λ k. true) (call_new_team ended 4069 1) make_alliance (inr refl)

abbrev station : DriverStation
station = record { thread_tx = []; team_number = 1; state = State.new red }

abbrev with_one : Memory
with_one = record { cells = λ q. if q == 1 then some (station_cell station) else none; fresh = 2 }

abbrev after : DriverStation → Memory
after d = with_station with_one 1 station refl refl d

setters_lem_example :
    ((do _ ← set_mode 1 c_test; get_mode 1 false) with_one
      ≡ done ((0, some c_test), after (DriverStation.set_mode (to_ds c_test) station)))
    × ((do _ ← enable 1; enabled 1) with_one ≡ done (true, after (DriverStation.enable station)))
    × ((do _ ← disable 1; enabled 1) with_one ≡ done (false, after (DriverStation.disable station)))
    × ((do _ ← estop 1; enabled 1) with_one ≡ done (false, after (DriverStation.estop station)))
    × ((do _ ← estop 1; estopped 1) with_one ≡ done (true, after (DriverStation.estop station)))
    × ((d : DriverStation) × (DriverStation.set_team_number true 4069 station ≡ ok d)
        × ((do _ ← set_team_number true 1 4069; get_team_number 1) with_one ≡ done (4069, after d)))
setters_lem_example = setters_lem with_one 1 station refl refl c_test 4069

message_code_lem_example :
    set_game_specific_message (λ k. true) 1 (some (b'L' ∷ b'R' ∷ [])) with_one
    ≡ done (([], 1), with_one)
unfolding is_utf8
message_code_lem_example =
    message_code_lem with_one 1 station refl refl (λ k. true) (b'L' ∷ b'R' ∷ [])

consume-decode_example :
    (packet : TcpPacket) × (decode bytes
        (0 ∷ 9 ∷ 0x0c ∷ 0x3f ∷ 0x80 ∷ 0 ∷ 0 ∷ 1 ∷ 2 ∷ b'h' ∷ 0 ∷ [])
      ≡ ok (some packet, []))
    × (consume packet ≡ panicked)
unfolding is_utf8
consume-decode_example =
    consume-decode bytes 0x3f 0x80 0 0 1 2 (b'h' ∷ 0 ∷ []) [] refl (omega arith)
