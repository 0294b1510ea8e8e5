-- ===== src/Ds/Conn/Receiver/TcpTasks.antt =====
-- Which of the TCP tasks that `udp_conn` of src/ds/conn.rs has spawned are told to stop.
use ds_rs.Prelude.{
  ◌↔◌, sym, ap, ◌∙◌, ◌≤◌, ltb, ltb→lt, ℕ, suc, ◌+◌, ◌<◌, ◌≡◌, refl, ◌⊎◌, inl, inr, Bool, true,
  false, Option, none, some, List, [], ◌∷◌, ◌++◌, arith, Bool-cases, of_bool,
}
use ds_rs.Crates.{Bitflags}
use ds_rs.Ds.Mode.{same_mode}
use ds_rs.Ds.State.{DsState}
use ds_rs.Ds.Signal.{Address, Signal, disconnect, new_target, new_mode}
use ds_rs.Ds.Conn.Receiver.{
  Receiver, Event, packet, undecoded, stream_end, decoder_panics, silence, signal, signals_end,
  Effect, spawn_tcp, tell_tcp, forward, forward_all, drop_tcp, receive, start,
}

-- The rounds of the task from its start, with all the effects so far. Between two rounds the other
-- tasks may have changed the shared state in any way.
pub data Reach (g : Bitflags) (ip : Address) : Receiver → List Effect → Type 0 where
  begin : Reach g ip (start ip) []
  round :
      {task : Receiver} {log : List Effect}
      → Reach g ip task log
      → (listening : Bool) (e : Event) (sh : DsState)
      → Reach g ip
          (receive g listening e task sh).task
          (log ++ (receive g listening e task sh).effects)

-- The TCP task `k` has been told to disconnect.
abbrev pub Told : ℕ → List Effect → Type 0
Told k [] = ⊥
Told k (tell_tcp j disconnect ∷ log) = (j ≡ k) ⊎ Told k log
Told k (e ∷ log) = Told k log

abbrev owner : Option ℕ → ℕ
owner none = 0
owner (some k) = suc k

record Inv (task : Receiver) (log : List Effect) : Type 0 where
  latest : owner task.tcp_tx ≡ task.spawned
  in_use : task.tcp_connected ≡ true → 0 < task.spawned
  told : (k : ℕ) → k + of_bool task.tcp_connected < task.spawned → Told k log
  only : (k : ℕ) → Told k log → k + of_bool task.tcp_connected < task.spawned

Told-append : (k : ℕ) (log more : List Effect) → Told k log → Told k (log ++ more)
Told-append k [] more h = absurd h
Told-append k (tell_tcp j disconnect ∷ log) more (inl e) = inl e
Told-append k (tell_tcp j disconnect ∷ log) more (inr h) = inr (Told-append k log more h)
Told-append k (tell_tcp j (new_target t) ∷ log) more h = Told-append k log more h
Told-append k (tell_tcp j (new_mode m) ∷ log) more h = Told-append k log more h
Told-append k (spawn_tcp j t ∷ log) more h = Told-append k log more h
Told-append k (forward s ∷ log) more h = Told-append k log more h

append-Told : (k : ℕ) (log more : List Effect) → Told k (log ++ tell_tcp k disconnect ∷ more)
append-Told k [] more = inl refl
append-Told k (tell_tcp j disconnect ∷ log) more = inr (append-Told k log more)
append-Told k (tell_tcp j (new_target t) ∷ log) more = append-Told k log more
append-Told k (tell_tcp j (new_mode m) ∷ log) more = append-Told k log more
append-Told k (spawn_tcp j t ∷ log) more = append-Told k log more
append-Told k (forward s ∷ log) more = append-Told k log more

split-Told : (k : ℕ) (log more : List Effect) → Told k (log ++ more) → Told k log ⊎ Told k more
split-Told k [] more h = inr h
split-Told k (tell_tcp j disconnect ∷ log) more (inl e) = inl (inl e)
split-Told k (tell_tcp j disconnect ∷ log) more (inr h) = elim (split-Told k log more h) [
  | inl before ↦ inl (inr before)
  | inr after ↦ inr after
]
split-Told k (tell_tcp j (new_target t) ∷ log) more h = split-Told k log more h
split-Told k (tell_tcp j (new_mode m) ∷ log) more h = split-Told k log more h
split-Told k (spawn_tcp j t ∷ log) more h = split-Told k log more h
split-Told k (forward s ∷ log) more h = split-Told k log more h

-- Effects that tell no task to disconnect.
abbrev TellsNone : List Effect → Type 0
TellsNone more = (k : ℕ) → Told k more → ⊥

forward_all-TellsNone :
    (listening : Bool) (signals : List Signal) → TellsNone (forward_all listening signals).0
forward_all-TellsNone true [] k h = h
forward_all-TellsNone true (s ∷ signals) k h = forward_all-TellsNone true signals k h
forward_all-TellsNone false [] k h = h
forward_all-TellsNone false (s ∷ signals) k h = h

append-TellsNone :
    (k : ℕ) (log more : List Effect) → TellsNone more → Told k (log ++ more) → Told k log
append-TellsNone k log more quiet h = elim (split-Told k log more h) [
  | inl before ↦ before
  | inr after ↦ absurd (quiet k after)
]

-- The log may grow, and what the invariant does not name may change.
Inv-grow :
    (task next : Receiver) (log more : List Effect)
    → next.tcp_tx ≡ task.tcp_tx
    → next.spawned ≡ task.spawned
    → next.tcp_connected ≡ task.tcp_connected
    → TellsNone more
    → Inv task log
    → Inv next (log ++ more)
Inv-grow task next log more tx spawned connected quiet v = record {
  latest = cc (tx, spawned, v.latest);
  in_use = λ c. rw spawned (v.in_use (cc (connected, c)));
  told = λ k lt. Told-append k log more (v.told k (rw (connected, spawned) at lt));
  only = λ k h. rw (connected, spawned) (v.only k (append-TellsNone k log more quiet h));
}

of_bool-le-one : (c : Bool) → of_bool c ≤ 1
of_bool-le-one true = omega arith
of_bool-le-one false = omega arith

-- Dropping the TCP task tells the last one, so that all have been told.
Inv-drop :
    (tx : Option ℕ) (task : Receiver) (log sent : List Effect)
    → tx ≡ task.tcp_tx
    → TellsNone sent
    → Inv task log
    → let (task1, told) = drop_tcp tx task in Inv task1 (log ++ (told ++ sent))
Inv-drop none task log sent e quiet v = Inv-grow task task log sent refl refl refl quiet v
Inv-drop (some j) task log sent e quiet v = record {
  latest = v.latest;
  in_use = λ c. cc c;
  told = λ k lt. elim (earlier k (last_one lt)) [
    | inl before ↦ Told-append k log _ (v.told k before)
    | inr same ↦ rw (← same) (append-Told j log sent)
  ];
  only = λ k h. elim (split-Told k log (tell_tcp j disconnect ∷ sent) h) [
    | inl before ↦ omega (arith, v.only k before)
    | inr (inl same) ↦ omega (arith, size, same)
    | inr (inr after) ↦ absurd (quiet k after)
  ];
}
  where
    size : suc j ≡ task.spawned
    size = ap owner e ∙ v.latest

    last_one : {k : ℕ} → k + 0 < task.spawned → k < suc j
    last_one lt = omega (arith, size)

    earlier : (k : ℕ) → k < suc j → (k + of_bool task.tcp_connected < task.spawned) ⊎ (j ≡ k)
    earlier k lt = elim (Bool-cases (ltb k j)) [
      | inl below ↦ inl (omega (arith, size, ltb→lt k j below, of_bool-le-one task.tcp_connected))
      | inr above ↦ inr (ground arith)
    ]

-- A new TCP task is spawned only when none is in use.
Inv-spawn :
    (task : Receiver) (log more : List Effect)
    → task.tcp_connected ≡ false
    → TellsNone more
    → Inv task log
    → Inv
        (record task {
          tcp_connected = true;
          tcp_tx = some task.spawned;
          connected = true;
          spawned = suc task.spawned;
        })
        (log ++ more)
Inv-spawn task log more idle quiet v = record {
  latest = refl;
  in_use = λ c. omega arith;
  told = λ k lt. Told-append k log more (v.told k (rw idle (omega arith)));
  only = λ k h. omega (arith, v.only k (append-TellsNone k log more quiet h));
}

receive-Inv :
    (g : Bitflags) (listening : Bool) (e : Event) (task : Receiver) (sh : DsState)
    (log : List Effect)
    → Inv task log
    → let r = receive g listening e task sh in Inv r.task (log ++ r.effects)
unfolding receive
receive-Inv g listening (packet now p) task sh log v = elim (Bool-cases task.tcp_connected) [
  | inl e ↦ rw e (
      Inv-grow task (record task { connected = true; tcp_connected = true }) log [] refl refl
        (sym e) (λ k h. h) v)
  | inr e ↦ rw e (Inv-spawn task log _ e (λ k h. h) v)
]
receive-Inv g listening undecoded task sh log v =
    Inv-grow task task log [] refl refl refl (λ k h. h) v
receive-Inv g listening stream_end task sh log v =
    Inv-grow task task log [] refl refl refl (λ k h. h) v
receive-Inv g listening decoder_panics task sh log v =
    Inv-grow task task log [] refl refl refl (λ k h. h) v
receive-Inv g listening silence task sh log v = elim (Bool-cases task.connected) [
  | inl e ↦
      rw e (Inv-grow task (record task { connected = false }) log [] refl refl refl (λ k h. h) v)
  | inr e ↦
      rw e (Inv-grow task (record task { connected = false }) log [] refl refl refl (λ k h. h) v)
]
receive-Inv g listening (signal disconnect) task sh log v =
    Inv-grow task task log [] refl refl refl (λ k h. h) v
receive-Inv g listening (signal (new_target target)) task sh log v =
    let v' =
      Inv-drop task.tcp_tx task log _ refl
        (forward_all-TellsNone listening (new_target target ∷ [])) v in
    record { latest = v'.latest; in_use = v'.in_use; told = v'.told; only = v'.only }
receive-Inv g listening (signal (new_mode mode)) task sh log v =
    elim (Bool-cases (same_mode mode sh.send.dsmode)) [
      | inl e ↦ rw e (Inv-grow task task log [] refl refl refl (λ k h. h) v)
      | inr e ↦ rw e (Inv-drop task.tcp_tx task log _ refl (forward_all-TellsNone listening _) v)
    ]
receive-Inv g listening signals_end task sh log v =
    Inv-grow task task log [] refl refl refl (λ k h. h) v

start-Inv : (ip : Address) → Inv (start ip) []
start-Inv ip = record {
  latest = refl;
  in_use = λ c. cc c;
  told = λ k lt. absurd (omega arith);
  only = λ k h. absurd h;
}

Reach-Inv :
    {g : Bitflags} {ip : Address} {task : Receiver} {log : List Effect}
    → Reach g ip task log
    → Inv task log
Reach-Inv {ip = ip} begin = start-Inv ip
Reach-Inv {g = g} (round {task = task} {log = log} r listening e sh) =
    receive-Inv g listening e task sh log (Reach-Inv r)

-- Whatever happens, and whatever the other tasks do in between: of the TCP tasks spawned so far,
-- exactly those that are not in use have been told to disconnect, and all where none is in use.
pub Reach-Told :
    {g : Bitflags} {ip : Address} {task : Receiver} {log : List Effect} (k : ℕ)
    → Reach g ip task log
    → Told k log ↔ (k + of_bool task.tcp_connected < task.spawned)
Reach-Told k r = let v = Reach-Inv r in (v.only k, v.told k)
