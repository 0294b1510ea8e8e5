-- ===== src/LibDs/Joysticks/Ports.antt =====
-- Which ports can be used after `DS_Joystick_attach` of libDS/src/joysticks.rs.
use ds_rs.Prelude.{
  ℕ, zero, suc, ◌-◌, ◌≤◌, ◌≡◌, refl, Bool, false, List, [], ◌++◌, length, length-append, replicate,
  ok, panicked, ltb, ◌==◌, if◌then◌else◌, arith,
}
use ds_rs.Ds.Joystick.{JoystickValue}
use ds_rs.LibDs.Joysticks.{Store, success, out_of_bound, attach, set_value, set_locked, set_button}

pub length-replicate {ℓ} : {A : Type ℓ} (n : ℕ) (a : A) → length (replicate n a) ≡ n
length-replicate zero a = refl
length-replicate (suc n) a = omega (arith, length-replicate n a)

abbrev padded : ℕ → Store → Store
padded port s = record s { sticks = s.sticks ++ replicate (port - length s.sticks) [] }

length-padded :
    (port : ℕ) (s : Store) → length s.sticks ≤ port → length (padded port s).sticks ≡ port
length-padded port s le = omega (
  arith,
  length-append s.sticks (replicate (port - length s.sticks) []),
  length-replicate {A = List JoystickValue} (port - length s.sticks) [],
)

pub not_above : (a b : ℕ) → a ≤ b → ltb b a ≡ false
not_above a b h = ground arith

set_value-full :
    (found : JoystickValue → Bool) (value : JoystickValue) (port : ℕ) (s : Store)
    → s.poisoned ≡ false
    → length s.sticks ≡ port
    → set_value found value port s ≡ (if port == 0 then panicked else ok (s, out_of_bound))
unfolding set_value set_locked
set_value-full found value port s free size = rw (free, size) (ground arith)

-- Attaching a port from 0 to 5 that is not below the number of joysticks reports success, but makes
-- the number of joysticks equal to the port: the port itself cannot be used then. Setting a button on
-- it is refused as out of bounds or, on port 0, panics.
pub set_button-attach :
    (port k : ℕ) (pressed : Bool) (s : Store)
    → s.poisoned ≡ false
    → port ≤ 5
    → length s.sticks ≤ port
    → (t : Store) × (attach port s ≡ ok (t, success))
      × (length t.sticks ≡ port)
      × (set_button port k pressed t ≡ (if port == 0 then panicked else ok (t, out_of_bound)))
unfolding attach set_button
set_button-attach port k pressed s free le size = (
  padded port s,
  rw (free, not_above port 5 le, not_above (length s.sticks) port size) refl,
  length-padded port s size,
  set_value-full _ _ port (padded port s) free (length-padded port s size),
)
