-- ===== src/Proto/Tcp/Outgoing.antt =====
-- What a roboRIO can read out of the bytes that the encoder of src/proto/tcp.rs appends for the tags
-- of src/proto/tcp/outbound.rs.
use ds_rs.Prelude.{
  ℕ, zero, suc, ◌+◌, ◌-◌, ◌*◌, ◌%◌, ◌≤◌, ◌<◌, ◌≡◌, refl, ◌∙◌, Option, none, some, List, [], ◌∷◌,
  ◌++◌, All, append-nil, append_assoc, length, length-append, take, drop, take-append, drop-append,
  Outcome, ok, ◌>>=◌, arith, if◌then◌else◌, ◌==◌,
}
use ds_rs.Crates.{BytesCrate}
use ds_rs.Proto.Tags.Layout.{big_endian, one_less}
use ds_rs.Proto.Tcp.{
  MatchType, match_test, practice, qualification, playoff, match_type_byte, TcpTag, match_info,
  game_data, id, encode,
}
use ds_rs.Proto.Tcp.Frames.{frame, layout, encode-frame}

-- The tags one after the other.
abbrev pub encode_all : BytesCrate → List TcpTag → List ℕ → Outcome (List ℕ)
encode_all b [] dst = ok dst
encode_all b (t ∷ tags) dst = do dst' ← encode b t dst; encode_all b tags dst'

abbrev read_type : List ℕ → Option MatchType
read_type (n ∷ []) =
    if n == 0
    then some match_test
    else if n == 1
    then some practice
    else if n == 2
    then some qualification
    else if n == 3
    then some playoff
    else none
read_type _ = none

abbrev with_name : List ℕ → Option MatchType → Option TcpTag
with_name name none = none
with_name name (some type) = some (match_info (record { competition = name; match_type = type }))

abbrev read_match : List ℕ → Option TcpTag
read_match [] = none
read_match (n ∷ rest) = with_name (take n rest) (read_type (drop n rest))

-- A receiver of one tag, given its id and its data.
abbrev pub read_tag : ℕ → List ℕ → Option TcpTag
read_tag i bytes =
    if i == 0x07
    then read_match bytes
    else if i == 0x0e
    then some (game_data (record { gsm = bytes }))
    else none

abbrev in_front : Option TcpTag → Option (List TcpTag) → Option (List TcpTag)
in_front (some t) (some tags) = some (t ∷ tags)
in_front (some t) none = none
in_front none tags = none

-- A receiver that goes by the lengths: one tag a round.
abbrev pub split_tags : ℕ → List ℕ → Option (List TcpTag)
split_tags fuel [] = some []
split_tags zero (x ∷ rest) = none
split_tags (suc fuel) (x ∷ []) = none
split_tags (suc fuel) (x ∷ y ∷ []) = none
split_tags (suc fuel) (x ∷ y ∷ i ∷ rest) =
    let n = x * 256 + y - 1 in in_front (read_tag i (take n rest)) (split_tags fuel (drop n rest))

abbrev pub receive_tags : List ℕ → Option (List TcpTag)
receive_tags bytes = split_tags (length bytes) bytes

-- The name of a match has at most 255 bytes, and a message fits behind its id in 16 bits.
abbrev pub IsSendable : TcpTag → Type 0
IsSendable (match_info m) = length m.competition ≤ 255
IsSendable (game_data g) = length g.gsm < 65535

IsSendable-length : (t : TcpTag) → IsSendable t → 1 + length (layout t) < 65536
IsSendable-length (match_info m) h =
    omega (arith, h, length-append m.competition (match_type_byte m.match_type ∷ []))
IsSendable-length (game_data g) h = omega (arith, h)

read_type-byte : (type : MatchType) → read_type (match_type_byte type ∷ []) ≡ some type
unfolding match_type_byte
read_type-byte match_test = refl
read_type-byte practice = refl
read_type-byte qualification = refl
read_type-byte playoff = refl

small : (n : ℕ) → n ≤ 255 → n % 256 ≡ n
small n h = omega arith

read_tag-layout : (t : TcpTag) → IsSendable t → read_tag (id t) (layout t) ≡ some t
unfolding id
read_tag-layout (match_info m) h =
    rw
      (
        small (length m.competition) h,
        take-append m.competition (match_type_byte m.match_type ∷ []),
        drop-append m.competition (match_type_byte m.match_type ∷ []),
        read_type-byte m.match_type,
      )
      refl
read_tag-layout (game_data g) h = refl

frames_of : List TcpTag → List ℕ
frames_of [] = []
frames_of (t ∷ tags) = frame (id t) (layout t) ++ frames_of tags

split-frames_of :
    (tags : List TcpTag) (fuel : ℕ)
    → All IsSendable tags
    → length (frames_of tags) ≤ fuel
    → split_tags fuel (frames_of tags) ≡ some tags
unfolding frames_of
split-frames_of [] fuel fit h = refl
split-frames_of (t ∷ tags) zero fit h = absurd (omega arith)
split-frames_of (t ∷ tags) (suc fuel) (fits, fit) h =
    rw
      (
        big_endian (1 + length (layout t)) (IsSendable-length t fits),
        one_less (length (layout t)),
        drop-append (layout t) (frames_of tags),
        take-append (layout t) (frames_of tags),
        read_tag-layout t fits,
        split-frames_of tags fuel fit (omega (arith, h, length-append (layout t) (frames_of tags))),
      )
      refl

module _ (b : BytesCrate) where
  encode_all-frames_of :
      (tags : List TcpTag) (dst : List ℕ)
      → All IsSendable tags
      → encode_all b tags dst ≡ ok (dst ++ frames_of tags)
  unfolding frames_of
  encode_all-frames_of [] dst fit = rw (append-nil dst) refl
  encode_all-frames_of (t ∷ tags) dst (fits, fit) =
      rw (encode-frame b t dst (IsSendable-length t fits)) (
        encode_all-frames_of tags (dst ++ frame (id t) (layout t)) fit
        ∙ rw (append_assoc dst (frame (id t) (layout t)) (frames_of tags)) refl)

  -- Tags that are encoded one after the other, messages that fit behind their id in 16 bits and
  -- matches whose name has at most 255 bytes: each goes behind what the buffer holds, and a receiver
  -- that goes by the lengths and the ids reads back these tags, all of them and in order.
  pub receive_tags-encode_all :
      (tags : List TcpTag) (dst : List ℕ)
      → All IsSendable tags
      → (bytes : List ℕ) × (encode_all b tags dst ≡ ok (dst ++ bytes))
        × (receive_tags bytes ≡ some tags)
  receive_tags-encode_all tags dst fit = (
    frames_of tags,
    encode_all-frames_of tags dst fit,
    split-frames_of tags (length (frames_of tags)) fit (omega arith),
  )
