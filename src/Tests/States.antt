-- ===== src/Tests/States.antt =====
-- Instances for src/ds/state.rs, src/ds/state/send.rs and src/ds/conn/backoff.rs.
use ds_rs.Prelude.{ℕ, ◌≡◌, refl, true, false, some, List, [], ◌∷◌, ok, ◌>>=◌, arith}
use ds_rs.Ds.Joystick.{axis_byte}
use ds_rs.Crates.Reference.{bytes, flags, float}
use ds_rs.Proto.Tags.{UdpTag, countdown, joysticks}
use ds_rs.Proto.Control.{Alliance, request_restart_code}
use ds_rs.Proto.Outbound.{encode}
use ds_rs.Proto.Outbound.Datagram.{receive, tag_views}
use ds_rs.Ds.Mode.{teleoperated, normal}
use ds_rs.Ds.Joystick.{JoystickValue, axis, button, pov, at_rest, apply_values}
use ds_rs.Ds.Joystick.Values.{apply_values_lem}
use ds_rs.Ds.SendState.{SendState, control_bits, control}
use ds_rs.Ds.SendState.Packet.{receive-encode-control}
use ds_rs.Ds.Backoff
use ds_rs.Ds.Backoff.{Attempt, succeeded, failed}
use ds_rs.Ds.Backoff.Waits.{run_all, run_all_lem}

-- Two values for the second axis, a button that is there and one that is not, and the POV.
abbrev values : List JoystickValue
values = axis 1 2 ∷ axis 1 3 ∷ button 10 true ∷ button 11 true ∷ pov 0 90 ∷ []

apply_values_lem_example :
    apply_values float at_rest values
    ≡ ok (record {
      axes = 0 ∷ 127 ∷ 0 ∷ 0 ∷ 0 ∷ 0 ∷ [];
      buttons = false ∷ false ∷ false ∷ false ∷ false ∷ false ∷ false ∷ false ∷ false ∷ true ∷ [];
      povs = 90 ∷ [];
    })
unfolding axis_byte
apply_values_lem_example = apply_values_lem float values

abbrev red_two : Alliance
red_two = record { station = 1 }

abbrev busy : SendState
busy = record {
  mode = teleoperated;
  udp_seqnum = 65535;
  enabled = true;
  estopped = true;
  alliance = red_two;
  pending_udp = countdown (record { seconds_remaining = 0x4170_0000 }) ∷ [];
  joystick_provider = some (λ now. (pov 0 now ∷ []) ∷ []);
  pending_request = some request_restart_code;
  dsmode = normal;
}

abbrev polled_tag : UdpTag
polled_tag = joysticks (record at_rest { povs = 45 ∷ [] })

receive-encode-control_example :
    (sent : List ℕ) × ((do (s, p) ← control flags float 45 busy; encode bytes p) ≡ ok sent)
    × (receive sent
        ≡ some (record {
          seqnum = 65535;
          version = 0x01;
          control = control_bits flags busy;
          request = request_restart_code;
          station = 1;
          tags =
              tag_views (countdown (record { seconds_remaining = 0x4170_0000 }) ∷ polled_tag ∷ []);
        }))
receive-encode-control_example = receive-encode-control bytes flags float 45 busy (omega arith) refl

abbrev attempts : List (Attempt (Unit {0}) ℕ)
attempts = failed 1 ∷ succeeded tt ∷ failed 2 ∷ failed 3 ∷ failed 4 ∷ []

run_all_lem_example :
    run_all (Backoff.new 5000000000) attempts
    ≡ ok (record {
      attempt = 3;
      max_timeout = 5000000000;
      use_max = false;
      timeout = some 400000000;
    })
run_all_lem_example = run_all_lem 5000000000 attempts (omega arith) (omega arith)
