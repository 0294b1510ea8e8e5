-- ===== src/Tests/Stream.antt =====
-- Instances for the TCP stream of src/proto/tcp.rs.
use ds_rs.Prelude.{ℕ, ◌≡◌, refl, some, List, [], ◌∷◌, ◌++◌, ok, arith}
use ds_rs.Proto.Tcp.Utf8.{is_utf8}
use ds_rs.Crates.Reference.{bytes}
use ds_rs.Proto.Tcp.{TcpTag, match_info, game_data, qualification, Stdout, stdout, decode}
use ds_rs.Proto.Tcp.Outgoing.{encode_all, receive_tags, receive_tags-encode_all}
use ds_rs.Proto.Tcp.Sequence.{Sent, console, other, stream}
use ds_rs.Proto.Tcp.Sequence.{bytes_of, decode-bytes_of}
use ds_rs.Proto.Tcp.Arrivals.{
  Reading, start, arrive, call, Reach, here, next, IsBetween, answer_to, Reach-answer_to,
}
use ds_rs.Proto.Tcp.Progress.{Progress, decode-Progress}
use ds_rs.Proto.Tcp.Console.{decode-console}

abbrev said : Stdout
said = record { timestamp = 0x3f80_0000; text = b'h' ∷ b'i' ∷ []; seqnum = 258 }

decode-console_example :
    decode bytes (0 ∷ 9 ∷ 0x0c ∷ 0x3f ∷ 0x80 ∷ 0 ∷ 0 ∷ 1 ∷ 2 ∷ b'h' ∷ b'i' ∷ 0 ∷ 1 ∷ [])
    ≡ ok (some (stdout said), 0 ∷ 1 ∷ [])
unfolding is_utf8
decode-console_example =
    decode-console bytes 0x3f 0x80 0 0 1 2 (b'h' ∷ b'i' ∷ []) (0 ∷ 1 ∷ []) (omega arith)

abbrev two_frames : List Sent
two_frames = console 0x3f 0x80 0 0 1 2 (b'h' ∷ b'i' ∷ []) ∷ other 0x0d (5 ∷ 6 ∷ []) ∷ []

abbrev match_tag : TcpTag
match_tag = match_info (record { competition = b'C' ∷ b'O' ∷ []; match_type = qualification })

abbrev two_tags : List TcpTag
two_tags = match_tag ∷ game_data (record { gsm = b'L' ∷ b'R' ∷ b'L' ∷ [] }) ∷ []

receive_tags-encode_all_example :
    (sent : List ℕ) × (encode_all bytes two_tags (1 ∷ []) ≡ ok ((1 ∷ []) ++ sent))
    × (receive_tags sent ≡ some two_tags)
receive_tags-encode_all_example =
    receive_tags-encode_all bytes two_tags (1 ∷ []) (omega arith, (omega arith, tt))

decode-Progress_example :
    Progress (0 ∷ 2 ∷ 0x0d ∷ 9 ∷ 4 ∷ []) (decode bytes (0 ∷ 2 ∷ 0x0d ∷ 9 ∷ 4 ∷ []))
decode-Progress_example = decode-Progress bytes (0 ∷ 2 ∷ 0x0d ∷ 9 ∷ 4 ∷ [])

-- The first frame has arrived whole with three bytes of the second, and is taken.
abbrev arrived : Reading
arrived = record {
  buffer = bytes_of bytes (console 0x3f 0x80 0 0 1 2 (b'h' ∷ b'i' ∷ [])) ++ 0 ∷ 3 ∷ 0x0d ∷ [];
  coming = 5 ∷ 6 ∷ [];
  packets = [];
}

abbrev one_taken : Reading
one_taken = record { buffer = 0 ∷ 3 ∷ 0x0d ∷ []; coming = 5 ∷ 6 ∷ []; packets = stdout said ∷ [] }

take_one : Reach bytes (start (stream bytes two_frames)) one_taken
unfolding is_utf8
take_one = next (next here (arrive arrived.buffer (5 ∷ 6 ∷ []) refl)) (
    call (some (stdout said)) (0 ∷ 3 ∷ 0x0d ∷ []) (
      decode-bytes_of bytes (console 0x3f 0x80 0 0 1 2 (b'h' ∷ b'i' ∷ [])) (0 ∷ 3 ∷ 0x0d ∷ [])
        (refl, omega arith)))

Reach-answer_to_example :
    (earlier : List Sent) × (later : List Sent) × IsBetween bytes two_frames earlier later one_taken
    × (decode bytes (0 ∷ 3 ∷ 0x0d ∷ []) ≡ answer_to bytes later (0 ∷ 3 ∷ 0x0d ∷ []))
unfolding is_utf8
Reach-answer_to_example =
    Reach-answer_to bytes two_frames one_taken
      ((refl, omega arith), ((λ e. absurd (omega (arith, e)), omega arith), tt)) take_one
