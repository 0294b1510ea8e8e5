-- ===== src/Ds/System/Choices.antt =====
-- What the parts of the driver station of src/ds.rs and src/ds/conn.rs keep of the targets and the mode.
use ds_rs.Prelude.{
  Bool-cases, ℕ, ◌≡◌, refl, ◌⊎◌, inl, inr, Bool, true, false, List, [], ◌∷◌, ◌++◌, some, Outcome,
  ok, subst,
}
use ds_rs.Util.{ip_from_team_number}
use ds_rs.Ds.Mode.{DsMode, normal, simulation}
use ds_rs.Ds.SendState
use ds_rs.Ds.State.{DsState}
use ds_rs.Ds.Signal.{Address, Signal, disconnect, new_target, new_mode}
use ds_rs.Ds.Conn.Receiver.{Receiver}
use ds_rs.Ds.Conn.Sender.{Sender, on_signal}
use ds_rs.Ds.Conn.Simulator.{Heard, something, nothing, change_to, watch}
use ds_rs.Ds.DriverStation.{DriverStation, usb_address, drop}
use ds_rs.Ds.DriverStation.Requests.{
  Call, call_set_team_number, call_set_use_usb, perform, result, perform-result,
}
use ds_rs.Ds.Conn.Receiver.Parts.{Part, dates, links, stops, shows, take_part}
use ds_rs.Ds.System.Channels.{
  target_after, mode_after, chosen_after, mode_after-append, chosen_after-append,
}

-- An address that the interface can have chosen last: the one given at the start, the one of USB, or
-- the one of the team.
abbrev pub IsChoice : Address → ℕ → Address → Type 0
IsChoice first team_number ip =
    (ip ≡ first) ⊎ ((ip ≡ usb_address) ⊎ (ip ≡ ip_from_team_number team_number))

pub on_signal-target :
    (s : Signal) (task task' : Sender) (sh sh' : DsState)
    → on_signal true (some s) task sh ≡ ok (task', sh')
    → (task'.target ≡ target_after (s ∷ []) task.target) × (sh'.send.dsmode ≡ sh.send.dsmode)
unfolding on_signal SendState.disable SendState.reset_seqnum
on_signal-target (new_target ip) task task' sh sh' e = (cc e, cc e)
on_signal-target (new_mode simulation) task task' sh sh' e = (cc e, cc e)
on_signal-target (new_mode normal) task task' sh sh' e = (cc e, cc e)
on_signal-target disconnect task task' sh sh' e = (cc e, cc e)

-- A new mode that is sent.
change_to-mode :
    (listening : Bool) (k opmode m : DsMode) (sent : List Signal)
    → change_to listening k ≡ ok (m, sent)
    → (mode_after sent opmode ≡ m) × ((ip : Address) → chosen_after sent ip ≡ ip)
change_to-mode true k opmode m sent e =
    let same : sent ≡ new_mode k ∷ [] = cc e in rw same (cc e, λ ip. refl)
change_to-mode false k opmode m sent e = absurd (cc e)

stay-mode :
    (opmode m : DsMode) (sent : List Signal)
    → ◌≡◌ {A = Outcome (DsMode × List Signal)} (ok (opmode, [])) (ok (m, sent))
    → (mode_after sent opmode ≡ m) × ((ip : Address) → chosen_after sent ip ≡ ip)
stay-mode opmode m sent e = let same : sent ≡ [] = cc e in rw same (cc e, λ ip. refl)

pub watch-mode :
    (listening : Bool) (h : Heard) (opmode m : DsMode) (sent : List Signal)
    → watch listening h opmode ≡ ok (m, sent)
    → (mode_after sent opmode ≡ m) × ((ip : Address) → chosen_after sent ip ≡ ip)
unfolding watch
watch-mode listening something normal m sent e = change_to-mode listening simulation normal m sent e
watch-mode listening something simulation m sent e = stay-mode simulation m sent e
watch-mode listening nothing normal m sent e = stay-mode normal m sent e
watch-mode listening nothing simulation m sent e =
    change_to-mode listening normal simulation m sent e

-- What a call of the interface keeps, given the choice before it.
abbrev pub KeepsCall : Address → Address → DriverStation → DriverStation → Type 0
KeepsCall first target_ip ds ds' =
    (ds'.state.send.dsmode ≡ ds.state.send.dsmode)
    × ((m : DsMode) → mode_after ds'.thread_tx m ≡ mode_after ds.thread_tx m)
    × IsChoice first ds'.team_number (chosen_after ds'.thread_tx target_ip)

-- A call that sends a new target.
sent-KeepsCall :
    (first target_ip ip : Address) (n : ℕ) (ds : DriverStation)
    → IsChoice first n ip
    → KeepsCall first target_ip ds
        (record ds { team_number = n; thread_tx = ds.thread_tx ++ new_target ip ∷ [] })
sent-KeepsCall first target_ip ip n ds h = (
  refl,
  λ m. mode_after-append ds.thread_tx (new_target ip ∷ []) m,
  rw (chosen_after-append ds.thread_tx (new_target ip ∷ []) target_ip) h,
)

result-KeepsCall :
    (first target_ip : Address) (c : Call) (ds : DriverStation)
    → IsChoice first ds.team_number (chosen_after ds.thread_tx target_ip)
    → KeepsCall first target_ip ds (result c ds)
unfolding result SendState.set_joystick_supplier SendState.set_alliance SendState.set_mode
    SendState.enable SendState.request SendState.queue_udp SendState.estop SendState.disable
result-KeepsCall first ip (call_set_team_number n) ds h =
    sent-KeepsCall first ip _ n ds (inr (inr refl))
result-KeepsCall first ip (call_set_use_usb true) ds h =
    sent-KeepsCall first ip _ ds.team_number ds (inr (inl refl))
result-KeepsCall first ip (call_set_use_usb false) ds h =
    sent-KeepsCall first ip _ ds.team_number ds (inr (inr refl))
result-KeepsCall first ip c ds h = (refl, λ m. refl, h)

pub perform-KeepsCall :
    (first target_ip : Address) (listening : Bool) (c : Call) (ds ds' : DriverStation)
    → perform listening c ds ≡ ok ds'
    → IsChoice first ds.team_number (chosen_after ds.thread_tx target_ip)
    → KeepsCall first target_ip ds ds'
perform-KeepsCall first target_ip listening c ds ds' e h =
    subst (KeepsCall first target_ip ds) (perform-result listening c ds ds' e)
      (result-KeepsCall first target_ip c ds h)

-- No part of a packet changes the target or the mode.
pub take_part-target :
    (p : Part) (task : Receiver) (sh : DsState)
    → ((take_part p task sh).0.target_ip ≡ task.target_ip)
      × ((take_part p task sh).1.send.dsmode ≡ sh.send.dsmode)
unfolding take_part SendState.queue_udp SendState.estop
take_part-target (dates true now) task sh = (refl, refl)
take_part-target (dates false now) task sh = (refl, refl)
take_part-target links task sh = elim (Bool-cases task.tcp_connected) [
  | inl e ↦ rw e (refl, refl)
  | inr e ↦ rw e (refl, refl)
]
take_part-target (stops true) task sh = elim (Bool-cases sh.send.estopped) [
  | inl e ↦ rw e (refl, refl)
  | inr e ↦ rw e (refl, refl)
]
take_part-target (stops false) task sh = (refl, refl)
take_part-target (shows trace battery) task sh = (refl, refl)

pub drop-after :
    (listening : Bool) (ds : DriverStation)
    → ((m : DsMode) → mode_after (drop listening ds) m ≡ mode_after ds.thread_tx m)
      × ((ip : Address) → chosen_after (drop listening ds) ip ≡ chosen_after ds.thread_tx ip)
unfolding drop
drop-after true ds = (
  λ m. mode_after-append ds.thread_tx (disconnect ∷ []) m,
  λ ip. chosen_after-append ds.thread_tx (disconnect ∷ []) ip,
)
drop-after false ds = (λ m. refl, λ ip. refl)
