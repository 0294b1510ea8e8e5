-- ===== src/Ds/Conn/Simulator.antt =====
-- The task `sim_conn` of src/ds/conn.rs, which watches for a simulator.
use ds_rs.Prelude.{
  ◌≡◌, refl, Bool, true, false, List, [], ◌∷◌, ◌++◌, Outcome, ok, panicked, ◌>>=◌, if◌then◌else◌,
}
use ds_rs.Ds.Mode.{DsMode, normal, simulation, same_mode}
use ds_rs.Ds.Signal.{Signal, new_mode}

-- Within 250 milliseconds the socket hears something, or nothing.
pub data Heard : Type 0 where
  something nothing : Heard

abbrev pub mode_heard : Heard → DsMode
mode_heard something = simulation
mode_heard nothing = normal

-- `opmode = m; tx.send(…).unwrap()`: the send panics if the receiver is gone.
abbrev pub change_to : Bool → DsMode → Outcome (DsMode × List Signal)
change_to listening m = if listening then ok (m, new_mode m ∷ []) else panicked

-- One round of the loop: the new `opmode`, and what is sent.
unfoldable pub watch : Bool → Heard → DsMode → Outcome (DsMode × List Signal)
watch listening something opmode =
    if same_mode opmode simulation then ok (opmode, []) else change_to listening simulation
watch listening nothing opmode =
    if same_mode opmode normal then ok (opmode, []) else change_to listening normal

-- The loop over what is heard, while the receiver listens: the last `opmode`, and all that was sent.
unfoldable pub watch_all : List Heard → DsMode → Outcome (DsMode × List Signal)
unfolding watch
watch_all [] opmode = ok (opmode, [])
watch_all (h ∷ heard) opmode = do
  (opmode1, sent) ← watch true h opmode
  (opmode2, more) ← watch_all heard opmode1
  ok (opmode2, sent ++ more)

-- Each signal names the other mode than the one before it, from the mode `m` on, and `n` is the last.
abbrev pub Alternates : DsMode → List Signal → DsMode → Type 0
Alternates m [] n = m ≡ n
Alternates m (new_mode k ∷ sent) n = (same_mode m k ≡ false) × Alternates k sent n
Alternates m (s ∷ sent) n = ⊥

abbrev pub last_heard : DsMode → List Heard → DsMode
last_heard m [] = m
last_heard m (h ∷ heard) = last_heard (mode_heard h) heard

-- While the receiver listens, the signals of the simulator task, from any mode: none repeats the
-- mode before it, and the last mode is the one of what was heard last.
watch_all-Alternates :
    (heard : List Heard) (m : DsMode)
    → (sent : List Signal) × (watch_all heard m ≡ ok (last_heard m heard, sent))
      × Alternates m sent (last_heard m heard)
unfolding watch_all
watch_all-Alternates [] m = ([], refl, refl)
watch_all-Alternates (something ∷ heard) simulation =
    let (sent, e, h) = watch_all-Alternates heard simulation in (sent, rw e refl, h)
watch_all-Alternates (nothing ∷ heard) normal =
    let (sent, e, h) = watch_all-Alternates heard normal in (sent, rw e refl, h)
watch_all-Alternates (something ∷ heard) normal =
    let (sent, e, h) = watch_all-Alternates heard simulation in
    (new_mode simulation ∷ sent, rw e refl, (refl, h))
watch_all-Alternates (nothing ∷ heard) simulation =
    let (sent, e, h) = watch_all-Alternates heard normal in
    (new_mode normal ∷ sent, rw e refl, (refl, h))
