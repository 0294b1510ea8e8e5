-- ===== src/Ds/Conn/Tcp/Run.antt =====
-- The task `tcp_conn` of src/ds/conn.rs from its start to its end.
use ds_rs.Prelude.{ℕ, Bool, true, List, [], ◌∷◌, ◌++◌, Outcome, ok, err, message, if◌then◌else◌}
use ds_rs.Ds.State.{TcpState}
use ds_rs.Ds.Conn.Tcp.{Event, Effect, Round, begin, on_event}

abbrev behind : List Effect → Round → Round
behind effects r = record r { effects = effects ++ r.effects }

-- The loop over a list of events; it still runs after them if `goes_on` says so.
unfoldable pub run_task : List Event → TcpState → Round
unfolding on_event
run_task [] tcp = record { tcp = tcp; effects = []; goes_on = true }
run_task (e ∷ events) tcp =
    let r = on_event e tcp in
    let rest = run_task events r.tcp in if r.goes_on then behind r.effects rest else r

-- The whole task of the number `task`, where `connects` says whether the stream could be opened.
unfoldable pub tcp_conn : Bool → ℕ → List Event → TcpState → Outcome Round
unfolding begin run_task
tcp_conn connects task events tcp =
    if connects then ok (run_task events (begin task tcp)) else err message
