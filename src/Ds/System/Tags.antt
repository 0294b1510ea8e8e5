-- ===== src/Ds/System/Tags.antt =====
-- The driver station of src/ds.rs and src/ds/conn.rs with all of its TCP tasks, and the tags that the
-- interface queues for them: the steps of Ds/System, with those of Ds/Conn/Tcp/Tasks in the place of
-- its free events.
pub mod Kept
pub mod Served
pub mod Delivery
use ds_rs.Prelude.{ℕ, ◌+◌, ◌<◌, ◌&&◌, of_bool, List, [], ◌++◌}
use ds_rs.Crates.{BytesCrate, Bitflags, Float32}
use ds_rs.Proto.Tcp.{TcpTag}
use ds_rs.Ds.Conn.Tcp.{Event, told}
use ds_rs.Ds.Conn.Tcp.Tasks
use ds_rs.Ds.Conn.Tcp.Tasks.{
  Phase, Tasks, connect_step, refused_step, event_step, tag_step, tags_end_step, queue_step,
  consumer_step,
}
use ds_rs.Ds.System
use ds_rs.Ds.System.{System, begin_step, tcp_step}

pub record Station : Type 0 where
  pub sys : System
  pub phase : ℕ → Phase
  pub waiting : ℕ → List TcpTag
  pub handed : ℕ → List TcpTag

abbrev pub tasks_of : Station → Tasks
tasks_of st = record {
  shared = st.sys.shared.tcp;
  phase = st.phase;
  waiting = st.waiting;
  handed = st.handed;
}

abbrev pub with_tasks : Tasks → Station → Station
with_tasks ts st = record {
  sys = record st.sys { shared = record st.sys.shared { tcp = ts.shared } };
  phase = ts.phase;
  waiting = ts.waiting;
  handed = ts.handed;
}

-- The task `k` has been spawned, and is not in use by `udp_conn`: so it has been sent a disconnect, or
-- the sender to it is gone.
abbrev pub MayStop : ℕ → System → Type 0
MayStop k sys = k + of_bool (sys.running && sys.receiver.tcp_connected) < sys.receiver.spawned

abbrev pub MayHave : ℕ → Event → System → Type 0
MayHave k told sys = MayStop k sys
MayHave k _ sys = Unit {0}

-- What a TCP task does: it starts when it has been spawned, and is told to stop when it may be. The
-- consumer is set by a call of the interface.
abbrev pub IsAllowed :
    (st : Station) {log : List (ℕ × TcpTag)} {ts : Tasks} → Tasks.Step (tasks_of st) log ts → Type 0
IsAllowed st (connect_step k h) = k < st.sys.receiver.spawned
IsAllowed st (refused_step k h) = k < st.sys.receiver.spawned
IsAllowed st (event_step k e other h) = MayHave k e st.sys
IsAllowed st (tag_step k t rest h w) = Unit {0}
IsAllowed st (tags_end_step k h w gone) = Unit {0}
IsAllowed st (queue_step k t t' e) = Unit {0}
IsAllowed st (consumer_step consumer) = ⊥

module _ (b : BytesCrate) (g : Bitflags) (f : Float32) where
  -- A step of the interface or of another task.
  abbrev pub IsOutside : {sys sys' : System} → System.Step b g f sys sys' → Type 0
  IsOutside (begin_step k h) = ⊥
  IsOutside (tcp_step e) = ⊥
  IsOutside _ = Unit {0}

  pub data Step (st : Station) : List (ℕ × TcpTag) → Station → Type 0 where
    system_step :
        (sys' : System) (move : System.Step b g f st.sys sys')
        → IsOutside move
        → Step st [] (record st { sys = sys' })
    task_step :
        (log : List (ℕ × TcpTag)) (ts : Tasks) (move : Tasks.Step (tasks_of st) log ts)
        → IsAllowed st move
        → Step st log (with_tasks ts st)

  -- Steps in any order, with the tags that are accepted in them.
  pub data Run (st : Station) : List (ℕ × TcpTag) → Station → Type 0 where
    here : Run st [] st
    next :
        {log more : List (ℕ × TcpTag)} {mid end : Station}
        → Run st log mid
        → Step mid more end
        → Run st (log ++ more) end
