-- ===== src/Ds/System/Channels.antt =====
-- What the signals that wait in the channels of src/ds/conn.rs will do.
use ds_rs.Prelude.{
  ◌≡◌, refl, sym, ap, ◌∙◌, ◌⊎◌, inl, inr, Bool, true, false, Bool-cases, Option-cases, List, [],
  ◌∷◌, ◌++◌, arith,
}
use ds_rs.Crates.{Bitflags}
use ds_rs.Ds.Mode.{DsMode, normal, simulation, same_mode}
use ds_rs.Ds.SendState.{set_ds_mode, queue_udp, estop}
use ds_rs.Ds.State.{DsState}
use ds_rs.Ds.Signal.{Address, Signal, disconnect, new_target, new_mode}
use ds_rs.Ds.Conn.Receiver.{
  Receiver, Event, packet, undecoded, stream_end, decoder_panics, silence, signal, signals_end,
  localhost, mode_signals, forward_all, receive,
}
use ds_rs.Ds.System.{forwarded, IsTraffic}

-- The address of the sending socket once the sending task has taken the signals.
abbrev pub target_after : List Signal → Address → Address
target_after [] target = target
target_after (disconnect ∷ signals) target = target_after signals target
target_after (new_target ip ∷ signals) target = target_after signals ip
target_after (new_mode simulation ∷ signals) target = target_after signals localhost
target_after (new_mode normal ∷ signals) target = target_after signals target

-- The mode, and the target, once `udp_conn` has taken the signals.
abbrev pub mode_after : List Signal → DsMode → DsMode
mode_after [] m = m
mode_after (disconnect ∷ signals) m = mode_after signals m
mode_after (new_target ip ∷ signals) m = mode_after signals m
mode_after (new_mode k ∷ signals) m = mode_after signals k

abbrev pub chosen_after : List Signal → Address → Address
chosen_after [] ip = ip
chosen_after (disconnect ∷ signals) ip = chosen_after signals ip
chosen_after (new_target target ∷ signals) ip = chosen_after signals target
chosen_after (new_mode k ∷ signals) ip = chosen_after signals ip

pub target_after-append :
    (first more : List Signal) (target : Address)
    → target_after (first ++ more) target ≡ target_after more (target_after first target)
target_after-append [] more target = refl
target_after-append (disconnect ∷ first) more target = target_after-append first more target
target_after-append (new_target ip ∷ first) more target = target_after-append first more ip
target_after-append (new_mode simulation ∷ first) more target =
    target_after-append first more localhost
target_after-append (new_mode normal ∷ first) more target = target_after-append first more target

pub mode_after-append :
    (first more : List Signal) (m : DsMode)
    → mode_after (first ++ more) m ≡ mode_after more (mode_after first m)
mode_after-append [] more m = refl
mode_after-append (disconnect ∷ first) more m = mode_after-append first more m
mode_after-append (new_target ip ∷ first) more m = mode_after-append first more m
mode_after-append (new_mode k ∷ first) more m = mode_after-append first more k

pub chosen_after-append :
    (first more : List Signal) (ip : Address)
    → chosen_after (first ++ more) ip ≡ chosen_after more (chosen_after first ip)
chosen_after-append [] more ip = refl
chosen_after-append (disconnect ∷ first) more ip = chosen_after-append first more ip
chosen_after-append (new_target target ∷ first) more ip = chosen_after-append first more target
chosen_after-append (new_mode k ∷ first) more ip = chosen_after-append first more ip

-- The signal that is taken first counts first.
pub target_after_taken :
    (signals : List Signal) (s : Signal) (rest : List Signal) (target : Address)
    → signals ≡ s ∷ rest
    → target_after signals target ≡ target_after rest (target_after (s ∷ []) target)
target_after_taken signals s rest target taken =
    ap (λ q. target_after q target) taken ∙ target_after-append (s ∷ []) rest target

pub mode_after_taken :
    (signals : List Signal) (s : Signal) (rest : List Signal) (m : DsMode)
    → signals ≡ s ∷ rest
    → mode_after signals m ≡ mode_after rest (mode_after (s ∷ []) m)
mode_after_taken signals s rest m taken =
    ap (λ q. mode_after q m) taken ∙ mode_after-append (s ∷ []) rest m

pub chosen_after_taken :
    (signals : List Signal) (s : Signal) (rest : List Signal) (ip : Address)
    → signals ≡ s ∷ rest
    → chosen_after signals ip ≡ chosen_after rest (chosen_after (s ∷ []) ip)
chosen_after_taken signals s rest ip taken =
    ap (λ q. chosen_after q ip) taken ∙ chosen_after-append (s ∷ []) rest ip

-- Where the packets go in a mode: to the target, or in a simulation to the local host or the target.
abbrev pub PointsAt : DsMode → Address → Address → Type 0
PointsAt normal target ip = target ≡ ip
PointsAt simulation target ip = (target ≡ localhost) ⊎ (target ≡ ip)

pub PointsAt-refl : (m : DsMode) (ip : Address) → PointsAt m ip ip
PointsAt-refl normal ip = refl
PointsAt-refl simulation ip = inr refl

pub same_mode-eq : (m n : DsMode) → same_mode m n ≡ true → m ≡ n
same_mode-eq normal normal h = refl
same_mode-eq simulation simulation h = refl
same_mode-eq normal simulation h = absurd (cc h)
same_mode-eq simulation normal h = absurd (cc h)

-- What a change of the mode forwards points the sending task where that mode wants it.
mode_signals-PointsAt :
    (m : DsMode) (target ip : Address)
    → PointsAt m (target_after (forwarded (forward_all true (mode_signals m ip)).0) target) ip
mode_signals-PointsAt normal target ip = refl
mode_signals-PointsAt simulation target ip = inl refl

module _ (g : Bitflags) (task : Receiver) (sh : DsState) where
  -- A round on a signal: the mode and the target are the signal's, and what it forwards, while the
  -- sending task listens, points that task where the new mode wants it.
  pub receive-signal :
      (listening : Bool) (s : Signal) (target : Address)
      → (listening ≡ true → PointsAt sh.send.dsmode target task.target_ip)
      → let r = receive g listening (signal s) task sh in
        (r.shared.send.dsmode ≡ mode_after (s ∷ []) sh.send.dsmode)
        × (r.task.target_ip ≡ chosen_after (s ∷ []) task.target_ip)
        × (listening ≡ true
            → PointsAt r.shared.send.dsmode
                (target_after (forwarded r.effects) target)
                r.task.target_ip)
  unfolding receive set_ds_mode
  receive-signal listening disconnect target h = (refl, refl, h)
  receive-signal true (new_target ip) target h = elim (Option-cases task.tcp_tx) [
    | inl e ↦ rw e (refl, refl, λ lives. PointsAt-refl sh.send.dsmode ip)
    | inr (k, e) ↦ rw e (refl, refl, λ lives. PointsAt-refl sh.send.dsmode ip)
  ]
  receive-signal false (new_target ip) target h = elim (Option-cases task.tcp_tx) [
    | inl e ↦ rw e (refl, refl, λ lives. absurd (cc lives))
    | inr (k, e) ↦ rw e (refl, refl, λ lives. absurd (cc lives))
  ]
  receive-signal true (new_mode mode) target h = elim (Bool-cases (same_mode mode sh.send.dsmode)) [
    | inl same ↦ rw same (sym (same_mode-eq mode sh.send.dsmode same), refl, h)
    | inr changed ↦ rw changed (elim (Option-cases task.tcp_tx) [
      | inl e ↦ rw e (refl, refl, λ lives. mode_signals-PointsAt mode target task.target_ip)
      | inr (k, e) ↦ rw e (refl, refl, λ lives. mode_signals-PointsAt mode target task.target_ip)
    ])
  ]
  receive-signal false (new_mode mode) target h =
      elim (Bool-cases (same_mode mode sh.send.dsmode)) [
        | inl same ↦
            rw same (sym (same_mode-eq mode sh.send.dsmode same), refl, λ lives. absurd (cc lives))
        | inr changed ↦ rw changed (elim (Option-cases task.tcp_tx) [
          | inl e ↦ rw e (refl, refl, λ lives. absurd (cc lives))
          | inr (k, e) ↦ rw e (refl, refl, λ lives. absurd (cc lives))
        ])
      ]

  -- Traffic changes neither, and forwards nothing.
  pub receive-traffic :
      (listening : Bool) (e : Event)
      → IsTraffic e
      → let r = receive g listening e task sh in
        (r.shared.send.dsmode ≡ sh.send.dsmode)
        × (r.task.target_ip ≡ task.target_ip)
        × (forwarded r.effects ≡ [])
  unfolding receive queue_udp estop
  receive-traffic listening (packet now p) h = ground arith
  receive-traffic listening undecoded h = (refl, refl, refl)
  receive-traffic listening stream_end h = (refl, refl, refl)
  receive-traffic listening decoder_panics h = (refl, refl, refl)
  receive-traffic listening silence h = ground arith
  receive-traffic listening (signal s) h = absurd h
  receive-traffic listening signals_end h = absurd h
