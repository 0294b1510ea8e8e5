-- ===== src/LibDs/Joysticks.antt =====
-- libDS/src/joysticks.rs: the joysticks of the C interface, a list behind one lock. Unsigned numbers
-- that would be negative panic (overflow checks on); such a panic does not return to the caller.
pub mod Distinct
pub mod Reach
pub mod Ports
pub mod Sent
pub mod Setters
use ds_rs.Prelude.{
  ℕ, zero, suc, Bool, false, ◌&&◌, Option, none, some, List, [], ◌∷◌, ◌++◌, length, get_elem?,
  replicate, Outcome, ok, panicked, ◌>>=◌, ltb, ◌==◌, if◌then◌else◌,
}
use ds_rs.Proto.Tcp.{checked_sub}
use ds_rs.Ds.Joystick.{JoystickValue, axis, button, pov, id, is_axis, is_button, is_pov, vec_remove}

-- `JOYSTICKS`, and whether its lock is poisoned.
pub record Store : Type 0 where
  pub sticks : List (List JoystickValue)
  pub poisoned : Bool

abbrev pub no_sticks : Store
no_sticks = record { sticks = []; poisoned = false }

abbrev pub success : ℕ
success = 0

abbrev pub out_of_bound : ℕ
out_of_bound = 1

abbrev pub poison_lock : ℕ
poison_lock = 2

-- A call returns its code.
abbrev pub Call : Type 0
Call = Store → Outcome (Store × ℕ)

-- `safe_unwrap_mux!()` in front of the rest of a function.
abbrev pub locked : Call → Call
locked rest s = if s.poisoned then ok (s, poison_lock) else rest s

-- `joy[port] = inner`, for an entry that is there.
pub assign {ℓ} : {A : Type ℓ} → ℕ → A → List A → List A
assign i v [] = []
assign zero v (x ∷ xs) = v ∷ xs
assign (suc i) v (x ∷ xs) = x ∷ assign i v xs

-- `DS_Joystick_attach`, behind the lock and in front of it: `port - joy.len()` new joysticks.
abbrev pub attach_locked : ℕ → Call
attach_locked port s = do
  missing ← checked_sub port (length s.sticks)
  ok (record s { sticks = s.sticks ++ replicate missing [] }, success)

unfoldable pub attach : ℕ → Call
attach port s = if ltb 5 port then ok (s, out_of_bound) else locked (attach_locked port) s

-- `DS_Joystick_detach`
unfoldable pub detach_locked : ℕ → Call
unfolding assign
detach_locked port s = do
  last ← checked_sub (length s.sticks) 1
  sticks ← (if port == last then vec_remove port s.sticks else ok (assign port [] s.sticks))
  ok (record s { sticks = sticks }, success)

unfoldable pub detach : ℕ → Call
unfolding detach_locked
detach port s = if ltb 5 port then ok (s, out_of_bound) else locked (detach_locked port) s

-- `match inner.iter_mut().find(…) { Some(v) => *v = value, None => inner.push(value) }`
pub put_value : (JoystickValue → Bool) → JoystickValue → List JoystickValue → List JoystickValue
put_value found value [] = value ∷ []
put_value found value (x ∷ inner) =
    let rest = put_value found value inner in if found x then value ∷ inner else x ∷ rest

abbrev indexed : Option (List JoystickValue) → Outcome (List JoystickValue)
indexed none = panicked
indexed (some inner) = ok inner

-- What the three setters share.
unfoldable pub set_locked : (JoystickValue → Bool) → JoystickValue → ℕ → Call
unfolding put_value assign
set_locked found value port s = do
  last ← checked_sub (length s.sticks) 1
  (if ltb last port then ok (s, out_of_bound) else (do
    inner ← indexed (get_elem? s.sticks port)
    ok (record s { sticks = assign port (put_value found value inner) s.sticks }, success)))

unfoldable pub set_value : (JoystickValue → Bool) → JoystickValue → ℕ → Call
unfolding set_locked
set_value found value port s = locked (set_locked found value port) s

unfoldable pub set_button : ℕ → ℕ → Bool → Call
unfolding set_value is_button id
set_button port k pressed =
    set_value (λ value. is_button value && (id value == k)) (button k pressed) port

unfoldable pub set_axis : ℕ → ℕ → ℕ → Call
unfolding set_value is_axis id
set_axis port k value = set_value (λ value. is_axis value && (id value == k)) (axis k value) port

unfoldable pub set_pov : ℕ → ℕ → ℕ → Call
unfolding set_value is_pov id
set_pov port k value = set_value (λ value. is_pov value && (id value == k)) (pov k value) port

-- The supplier of `DS_Joystick_init`, whose `unwrap` panics on a poisoned lock.
unfoldable pub supply : Store → Outcome (List (List JoystickValue))
supply s = if s.poisoned then panicked else ok s.sticks
