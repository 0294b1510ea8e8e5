-- ===== src/Ds/Conn/Sender/Ticks.antt =====
-- One tick of the sending task of src/ds/conn.rs, every 20 milliseconds.
use ds_rs.Prelude.{
  ℕ, suc, ◌+◌, ◌%◌, ◌^◌, ◌<◌, ◌≡◌, refl, true, false, none, some, List, [], ◌++◌, ok, ◌==◌,
  if◌then◌else◌, arith,
}
use ds_rs.Crates.{BytesCrate, Bitflags, Float32}
use ds_rs.Proto.Outbound.{request_bits, encode}
use ds_rs.Proto.Outbound.Datagram.{receive, tag_views, all_fit}
use ds_rs.Ds.SendState.{control_bits, increment_seqnum}
use ds_rs.Ds.SendState.Packet.{packet_of, control_lem, tags_of, polled, receive-encode-control}
use ds_rs.Ds.Backoff
use ds_rs.Ds.Backoff.{Attempt, succeeded, failed, Ran, done, failing, run}
use ds_rs.Ds.Backoff.Waits.{after_failures, wait_after, run-failed, run-succeeded}
use ds_rs.Ds.State.{DsState, RecvState, reset}
use ds_rs.Ds.Conn.Sender.{Sender, SendError, refused, other, max_wait, after_send, tick}

-- The failures in a row after one more send.
abbrev pub failures_after : ℕ → Attempt (Unit {0}) SendError → ℕ
failures_after k (succeeded u) = 0
failures_after k (failed e) = suc k

-- The received state after a send: the first refusal in a row resets it.
abbrev pub recv_after : ℕ → Attempt (Unit {0}) SendError → RecvState → RecvState
recv_after k (succeeded u) recv = recv
recv_after k (failed other) recv = recv
recv_after k (failed refused) recv = if k == 0 then reset recv else recv

ran_after : ℕ → Attempt (Unit {0}) SendError → Ran (Unit {0}) SendError
ran_after k (succeeded u) = done u
ran_after k (failed e) = failing e (k == 0)

run_lem :
    (k : ℕ) (sent : Attempt (Unit {0}) SendError)
    → k + 1 < 2 ^ 32
    → run (after_failures max_wait k) sent
      ≡ ok
          (after_failures max_wait (failures_after k sent), wait_after max_wait k, ran_after k sent)
unfolding ran_after
run_lem k (succeeded u) small = unfold Backoff.new in run-succeeded max_wait k u
run_lem k (failed e) small = run-failed max_wait k e (omega arith) small

after_send-ran_after :
    (k : ℕ) (sent : Attempt (Unit {0}) SendError) (recv : RecvState)
    → after_send (ran_after k sent) recv ≡ recv_after k sent recv
unfolding ran_after
after_send-ran_after k (succeeded u) recv = refl
after_send-ran_after k (failed other) recv = refl
after_send-ran_after k (failed refused) recv =
    elim (k == 0)
      as (λ first. after_send (failing refused first) recv ≡ (if first then reset recv else recv)) [
        | true ↦ refl
        | false ↦ refl
      ]

-- A tick after `k` failed sends in a row, where `k + 1` is below 2 ^ 32, with a 16-bit sequence
-- number and queued tags that fit in their frames, panics nowhere. It has waited as long as the
-- backoff says, and a receiver reads from its datagram the sequence number, the control byte, the
-- request and the station of the state, the queued tags and a tag for each joystick polled. The
-- number goes up by one modulo 65536 whether or not the send succeeds, the queue and the request
-- are used up, and the first refusal in a row resets what was received.
pub tick_lem :
    (b : BytesCrate) (g : Bitflags) (f : Float32) (now k : ℕ) (sent : Attempt (Unit {0}) SendError)
    (task : Sender) (sh : DsState)
    → task.backoff ≡ after_failures max_wait k
    → k + 1 < 2 ^ 32
    → sh.send.udp_seqnum < 65536
    → all_fit sh.send.pending_udp ≡ true
    → (bytes : List ℕ) × (tick b g f now sent task sh
        ≡ ok (record {
          task = record task { backoff = after_failures max_wait (failures_after k sent) };
          shared = record sh {
            send = record sh.send {
              pending_udp = [];
              pending_request = none;
              udp_seqnum = (sh.send.udp_seqnum + 1) % 65536;
            };
            recv = recv_after k sent sh.recv;
          };
          datagram = bytes;
          slept = wait_after max_wait k;
        }))
      × (receive bytes
          ≡ some (record {
            seqnum = sh.send.udp_seqnum;
            version = 0x01;
            control = control_bits g sh.send;
            request = request_bits sh.send.pending_request;
            station = sh.send.alliance.station;
            tags =
                tag_views (sh.send.pending_udp ++ tags_of f (polled now sh.send.joystick_provider));
          }))
unfolding tick increment_seqnum
tick_lem b g f now k sent task sh back small seq fit =
    let (bytes, encoded, received) = receive-encode-control b g f now sh.send seq fit in
    let sent_bytes : encode b (packet_of g f now sh.send) ≡ ok bytes =
      rw (control_lem g f now sh.send) at encoded in
    (
      bytes,
      rw
          (
            control_lem g f now sh.send,
            sent_bytes,
            back,
            run_lem k sent small,
            after_send-ran_after k sent sh.recv,
          )
          refl,
      received,
    )
