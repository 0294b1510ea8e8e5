-- ===== src/Tests/Sticks.antt =====
-- Instances for the joysticks of libDS/src/joysticks.rs.
use ds_rs.Prelude.{◌≡◌, refl, true, false, [], ◌∷◌, length, ok, arith}
use ds_rs.Crates.Reference.{float}
use ds_rs.Ds.Joystick.{button, axis, pov, at_rest, apply_values}
use ds_rs.Ds.Joystick.Settings.{same_entry, listed, set, joystick, settings_lem}
use ds_rs.LibDs.Joysticks.{
  Store, no_sticks, success, out_of_bound, attach, set_button, set_axis, set_pov,
}
use ds_rs.LibDs.Joysticks.Ports.{set_button-attach}
use ds_rs.LibDs.Joysticks.Reach.{Reach, begin, next, attach_step, button_step, IsGood, Reach-IsGood}
use ds_rs.LibDs.Joysticks.Setters.{Sets, setters-Sets}

abbrev two_sticks : Store
two_sticks = record { sticks = [] ∷ [] ∷ []; poisoned = false }

two_sticks-Reach : Reach two_sticks
unfolding attach
two_sticks-Reach = next begin (attach_step 2 0 refl)

-- The first joystick gets port 1, and port 1 is refused.
set_button-attach_example :
    (t : Store) × (attach 1 no_sticks ≡ ok (t, success))
    × (length t.sticks ≡ 1)
    × (set_button 1 3 true t ≡ ok (t, out_of_bound))
set_button-attach_example = set_button-attach 1 3 true no_sticks refl (omega arith) (omega arith)

Reach-IsGood_example : IsGood two_sticks
Reach-IsGood_example = Reach-IsGood two_sticks-Reach

abbrev one_button : Store
one_button = record two_sticks { sticks = [] ∷ (button 3 true ∷ []) ∷ [] }

one_button-Reach : Reach one_button
unfolding set_button
one_button-Reach = next two_sticks-Reach (button_step 1 3 true 0 refl)

setters-Sets_example :
    Sets (button 3 false) float 1 one_button (button 3 true ∷ []) (set_button 1 3 false one_button)
    × Sets (axis 3 7) float 1 one_button (button 3 true ∷ []) (set_axis 1 3 7 one_button)
    × Sets (pov 3 7) float 1 one_button (button 3 true ∷ []) (set_pov 1 3 7 one_button)
setters-Sets_example = setters-Sets float 1 3 false 7 (button 3 true ∷ []) one_button-Reach refl

settings_lem_example :
    (set (button 3 true) (set (axis 3 7) (listed []))
      ≡ set (axis 3 7) (set (button 3 true) (listed [])))
    × (set (button 3 true) (listed (axis 3 7 ∷ [])) ≡ listed (axis 3 7 ∷ button 3 true ∷ []))
    × (joystick float (listed (axis 3 7 ∷ [])) ≡ apply_values float at_rest (axis 3 7 ∷ []))
unfolding same_entry
settings_lem_example = settings_lem float (button 3 true) (axis 3 7) (listed []) (axis 3 7 ∷ [])
