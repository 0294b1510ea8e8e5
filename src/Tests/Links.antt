-- ===== src/Tests/Links.antt =====
-- Instances for the tags that the interface queues, and the TCP task of src/ds/conn.rs that takes them.
use ds_rs.Prelude.{◌≡◌, refl, none, some, [], ◌∷◌, ok, arith}
use ds_rs.Crates.Reference.{bytes, flags, float}
use ds_rs.Ds.State.{queue_tcp}
use ds_rs.Ds.Conn.Receiver
use ds_rs.Ds.Conn.Receiver.{undecoded}
use ds_rs.Ds.Conn.Tcp.Tasks
use ds_rs.Ds.Conn.Tcp.Tasks.{ended, put, is_open, queue_step}
use ds_rs.Ds.Conn.Tcp.Passed.{passed}
use ds_rs.Ds.Conn.Tcp.Phases.{put_self}
use ds_rs.Ds.System.{traffic_step}
use ds_rs.Ds.System.Tags.{Station, tasks_of, system_step, task_step, Run, here, next}
use ds_rs.Ds.System.Tags.Kept.{IsInUse}
use ds_rs.Ds.System.Tags.Served.{IsServed}
use ds_rs.Ds.System.Tags.Delivery.{Run-delivers}
use ds_rs.Tests.Running
use ds_rs.Tests.Running.{message_tag}

-- The second TCP task is in use, and the first one has ended.
abbrev linked : Station
linked = record {
  sys = record Running.running {
    receiver = record Running.running.receiver { tcp_tx = some 1; spawned = 2 };
    shared = record Running.running.shared {
      tcp = record { tcp_consumer = none; pending_tcp = some 1 };
    };
  };
  phase = put 0 ended (λ k. Tasks.running);
  waiting = λ k. [];
  handed = λ k. [];
}

abbrev queued : Station
queued = record linked { waiting = put 1 (message_tag ∷ []) linked.waiting }

-- A tag is queued, and then a datagram comes that does not decode.
queue_one : Run bytes flags float linked ((1, message_tag) ∷ []) queued
unfolding put queue_tcp Receiver.receive
queue_one =
    next (next here (task_step _ _ (queue_step 1 message_tag message_tag refl) tt))
      (system_step _ (traffic_step undecoded tt refl) tt)

linked-IsServed : IsServed 1 linked
unfolding put
linked-IsServed = record {
  runs = refl;
  channel = refl;
  older = λ j h.
      let first : j ≡ 0 = omega (arith, h) in rw first (put_self 0 ended (λ k. Tasks.running));
}

queued-IsInUse : IsInUse 1 queued.sys
queued-IsInUse = record { latest = refl; runs = refl; connected = refl }

Run-delivers_example :
    (queue_tcp (is_open (tasks_of queued)) message_tag queued.sys.shared.tcp ≡ ok (1, message_tag))
    × (passed 1 (tasks_of queued) ≡ message_tag ∷ [])
    × (last : Station) × Run bytes flags float queued [] last
    × (last.waiting 1 ≡ [])
    × (last.handed 1 ≡ message_tag ∷ [])
    × (last.phase 1 ≡ Tasks.running)
unfolding put
Run-delivers_example =
    Run-delivers bytes flags float 1 message_tag linked queued ((1, message_tag) ∷ []) queue_one
      linked-IsServed refl queued-IsInUse refl
