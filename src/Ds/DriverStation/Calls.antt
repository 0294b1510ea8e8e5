-- ===== src/Ds/DriverStation/Calls.antt =====
-- What a caller of `DriverStation` in src/ds.rs can rely on.
use ds_rs.Prelude.{
  ℕ, ◌/◌, ◌%◌, ◌<◌, ◌≡◌, refl, Bool, true, false, none, some, List, [], ◌∷◌, ◌++◌, length, ok, err,
  message, ◌>>=◌, ◌==◌, if◌then◌else◌, arith,
}
use ds_rs.Util.{ip_from_team_number}
use ds_rs.Util.Address.{parse_dotted, parse-ip_from_team_number}
use ds_rs.Proto.Tcp.{game_data}
use ds_rs.Ds.State
use ds_rs.Ds.Signal.{Address, new_target}
use ds_rs.Ds.DriverStation.{
  DriverStation, set_team_number, usb_address, set_use_usb, set_game_specific_message,
}

-- While the tasks run, a new team number below 65536 is kept, and the signal sent for it names an
-- address whose four numbers are 10, the number without its last two digits, those digits, and 2.
-- Choosing USB then names 172.22.11.2, and leaving USB names the address of the team again.
pub set_team_number_lem :
    (n : ℕ) (ds : DriverStation)
    → n < 65536
    → (ds' : DriverStation) × (ip : Address) × (set_team_number true n ds ≡ ok ds')
      × (ds'.team_number ≡ n)
      × (ds'.thread_tx ≡ ds.thread_tx ++ new_target ip ∷ [])
      × (parse_dotted 0 ip ≡ 10 ∷ (n / 100) ∷ (n % 100) ∷ 2 ∷ [])
      × ((do d ← set_use_usb true true ds'; set_use_usb true false d)
          ≡ ok (record ds' {
            thread_tx = (ds'.thread_tx ++ new_target usb_address ∷ []) ++ new_target ip ∷ [];
          }))
unfolding set_team_number set_use_usb
set_team_number_lem n ds h = (
  record ds {
    team_number = n;
    thread_tx = ds.thread_tx ++ new_target (ip_from_team_number n) ∷ [];
  },
  ip_from_team_number n,
  refl,
  refl,
  refl,
  parse-ip_from_team_number n h,
  refl,
)

-- A game specific message is refused exactly if it is not three bytes long. One that is not refused
-- reaches the channel of the TCP task if there is an open one, and is dropped without an error if not.
set_game_specific_message_lem :
    (is_open : ℕ → Bool) (text : List ℕ) (ds : DriverStation)
    → set_game_specific_message is_open text ds ≡ (
        if length text == 3
        then ok (elim ds.state.tcp.pending_tcp [
          | none ↦ []
          | some tx ↦ if is_open tx then (tx, game_data (record { gsm = text })) ∷ [] else []
        ])
        else err message)
unfolding set_game_specific_message State.queue_tcp
set_game_specific_message_lem is_open text ds = ground arith
