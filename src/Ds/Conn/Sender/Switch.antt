-- ===== src/Ds/Conn/Sender/Switch.antt =====
-- How a signal that `udp_conn` of src/ds/conn.rs receives reaches the sending task, and what both
-- have done then.
use ds_rs.Prelude.{
  Option-cases, inl, inr, ◌≡◌, refl, Bool, true, false, some, List, [], ◌∷◌, Outcome, ok, ◌>>=◌,
}
use ds_rs.Crates.{Bitflags}
use ds_rs.Ds.Mode.{DsMode, normal, simulation, same_mode}
use ds_rs.Ds.SendState.{set_ds_mode, disable, reset_seqnum}
use ds_rs.Ds.Backoff
use ds_rs.Ds.State.{DsState, new_recv, reset}
use ds_rs.Ds.Signal.{Address, new_target, new_mode}
use ds_rs.Ds.Conn.Receiver.{
  Receiver, signal, Effect, spawn_tcp, tell_tcp, forward, continue, localhost, receive,
}
use ds_rs.Ds.Conn.Sender.{Sender, on_signal}

-- The sending task takes the forwarded signals in their order, and every bind and connect succeeds.
pub deliver : List Effect → Sender → DsState → Outcome (Sender × DsState)
deliver [] task sh = ok (task, sh)
deliver (forward s ∷ effects) task sh = do
  (task', sh') ← on_signal true (some s) task sh
  deliver effects task' sh'
deliver (spawn_tcp k ip ∷ effects) task sh = deliver effects task sh
deliver (tell_tcp k s ∷ effects) task sh = deliver effects task sh

-- The state after a switch: disabled, numbered from 0, with nothing received, in the given mode.
abbrev pub switched : DsMode → DsState → DsState
switched mode sh = record sh {
  send = record sh.send { enabled = false; udp_seqnum = 0; dsmode = mode };
  recv = new_recv;
}

abbrev pub address_of : DsMode → Address → Address
address_of normal target = target
address_of simulation target = localhost

module _ (g : Bitflags) (task : Receiver) (sender : Sender) (sh : DsState) where
  abbrev retargeted : Address → Sender
  retargeted ip = record { target = ip; backoff = Backoff.reset sender.backoff }

  -- A signal of a mode other than the current one, once the sending task has taken what is
  -- forwarded and every bind and connect has succeeded: the state has the new mode, the robot is
  -- disabled, the packets are numbered from 0 and nothing counts as received; the backoff starts
  -- anew, and the packets go to the target or, in a simulation, to the local host. The loop goes on
  -- with its target.
  pub switch_mode :
      (mode : DsMode)
      → same_mode mode sh.send.dsmode ≡ false
      → let r = receive g true (signal (new_mode mode)) task sh in
        (deliver r.effects sender r.shared
          ≡ ok (retargeted (address_of mode task.target_ip), switched mode sh))
        × (r.flow ≡ continue)
        × (r.task.target_ip ≡ task.target_ip)
  unfolding receive deliver on_signal set_ds_mode disable reset_seqnum reset Backoff.reset
  switch_mode normal changed = elim (Option-cases task.tcp_tx) [
    | inl e ↦ rw (changed, e) (refl, refl, refl)
    | inr (k, e) ↦ rw (changed, e) (refl, refl, refl)
  ]
  switch_mode simulation changed = elim (Option-cases task.tcp_tx) [
    | inl e ↦ rw (changed, e) (refl, refl, refl)
    | inr (k, e) ↦ rw (changed, e) (refl, refl, refl)
  ]

  -- A signal of the mode that the state has already does nothing at all.
  pub same_mode_ignored :
      (mode : DsMode) (listening : Bool)
      → same_mode mode sh.send.dsmode ≡ true
      → receive g listening (signal (new_mode mode)) task sh
        ≡ record { task = task; shared = sh; effects = []; flow = continue }
  unfolding receive
  same_mode_ignored mode listening same = rw same refl

  -- A new target, once the sending task has taken it and every bind and connect has succeeded: the
  -- robot is disabled, the packets are numbered from 0, nothing counts as received, the backoff
  -- starts anew, and the packets go to the new target in either mode, also while the state says
  -- that a simulation is connected. The loop goes on with the new target.
  pub switch_target :
      (ip : Address)
      → let r = receive g true (signal (new_target ip)) task sh in
        (deliver r.effects sender r.shared ≡ ok (retargeted ip, switched sh.send.dsmode sh))
        × (r.flow ≡ continue)
        × (r.task.target_ip ≡ ip)
  unfolding receive deliver on_signal disable reset_seqnum reset
  switch_target ip = elim (Option-cases task.tcp_tx) [
    | inl e ↦ rw e (refl, refl, refl)
    | inr (k, e) ↦ rw e (refl, refl, refl)
  ]
