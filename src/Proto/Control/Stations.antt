-- ===== src/Proto/Control/Stations.antt =====
-- The six alliance stations of src/proto/udp/outbound/types.rs.
use ds_rs.Prelude.{◌≤◌, ◌-◌, ◌+◌, ℕ, ◌<◌, ◌≡◌, ◌⊎◌, true, ok, panicked, arith, if◌then◌else◌}
use ds_rs.Proto.Control.{Alliance, new_red, new_blue, is_red, is_blue, position}

-- For each of the positions 1 to 3 there is a red station and a blue one, with that position and
-- that colour.
pub new_station :
    (p : ℕ)
    → 1 ≤ p
    → p ≤ 3
    → (r s : Alliance) × (new_red p ≡ ok r)
      × (position r ≡ p)
      × (is_red r ≡ true)
      × (new_blue p ≡ ok s)
      × (position s ≡ p)
      × (is_blue s ≡ true)
unfolding new_red new_blue is_red is_blue position
new_station p lo hi = (
  record { station = p - 1 },
  record { station = p + 2 },
  ground arith,
  ground arith,
  ground arith,
  ground arith,
  ground arith,
  ground arith,
)

-- No other position makes a station.
pub new_station-panics :
    (p : ℕ) → (p ≡ 0) ⊎ (3 < p) → (new_red p ≡ panicked) × (new_blue p ≡ panicked)
unfolding new_red new_blue
new_station-panics p h = ground arith

-- Each of the six bytes is the station that its own colour and position make.
pub station_of_position :
    (a : Alliance)
    → a.station < 6
    → (if is_red a then new_red (position a) else new_blue (position a)) ≡ ok a
unfolding new_red new_blue is_red position
station_of_position a h = ground arith
