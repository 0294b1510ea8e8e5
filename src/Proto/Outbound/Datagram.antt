-- ===== src/Proto/Outbound/Datagram.antt =====
-- What a receiver can read out of the bytes of `UdpControlPacket::encode`.
use ds_rs.Prelude.{
  ◌⊎◌, ℕ, zero, suc, ◌+◌, ◌-◌, ◌*◌, ◌&&◌, ◌/◌, ◌%◌, ◌≤◌, ◌<◌, ◌≡◌, refl, sym, ap, ◌∙◌, Bool, true,
  false, Option, none, some, List, [], ◌∷◌, ◌++◌, append-nil, append_assoc, length, length-append,
  take, drop, take-append, drop-append, Outcome, ok, err, panicked, ◌>>=◌, leb, arith, Bool-cases,
  inl, inr,
}
use ds_rs.Crates.{BytesCrate, writer_laws, extend_lem}
use ds_rs.Proto.Tags.{UdpTag, countdown, joysticks, date_time, timezone, id, construct}
use ds_rs.Proto.Tags.Layout.{
  layout, counts_fit, joysticks_layout, framed, big_endian, one_less, construct_lem,
}
use ds_rs.Proto.Outbound.{UdpControlPacket, request_bits, extend_tags, encode}

-- A receiver's view: the six bytes of the header, and each tag as its id and its data.
pub record Datagram : Type 0 where
  pub seqnum : ℕ
  pub version : ℕ
  pub control : ℕ
  pub request : ℕ
  pub station : ℕ
  pub tags : List (ℕ × List ℕ)

abbrev pub in_front : ℕ × List ℕ → Option (List (ℕ × List ℕ)) → Option (List (ℕ × List ℕ))
in_front tag none = none
in_front tag (some tags) = some (tag ∷ tags)

-- A receiver that goes by the length bytes: one tag a round.
abbrev pub split_tags : ℕ → List ℕ → Option (List (ℕ × List ℕ))
split_tags fuel [] = some []
split_tags zero (n ∷ rest) = none
split_tags (suc fuel) (n ∷ []) = none
split_tags (suc fuel) (n ∷ i ∷ rest) =
    in_front (i, take (n - 1) rest) (split_tags fuel (drop (n - 1) rest))

abbrev pub with_tags : Datagram → Option (List (ℕ × List ℕ)) → Option Datagram
with_tags d none = none
with_tags d (some tags) = some (record d { tags = tags })

abbrev pub receive_tags : Datagram → List ℕ → Option Datagram
receive_tags d rest = with_tags d (split_tags (length rest) rest)

abbrev pub receive : List ℕ → Option Datagram
receive (x ∷ y ∷ v ∷ c ∷ r ∷ s ∷ rest) =
    receive_tags
      (record {
        seqnum = x * 256 + y;
        version = v;
        control = c;
        request = r;
        station = s;
        tags = [];
      })
      rest
receive _ = none

-- The data of a tag, and whether it can be framed.
abbrev data_of : Outcome (List ℕ) → List ℕ
data_of (ok bytes) = bytes
data_of (err e) = []
data_of panicked = []

abbrev fits : Outcome (List ℕ) → Bool
fits (ok bytes) = leb (1 + length bytes) 255
fits (err e) = false
fits panicked = false

abbrev pub all_fit : List UdpTag → Bool
all_fit [] = true
all_fit (t ∷ tags) = fits (layout t) && all_fit tags

abbrev pub tag_view : UdpTag → ℕ × List ℕ
tag_view t = (id t, data_of (layout t))

abbrev pub tag_views : List UdpTag → List (ℕ × List ℕ)
tag_views [] = []
tag_views (t ∷ tags) = tag_view t ∷ tag_views tags

-- What the packet says, for a receiver.
abbrev pub datagram_of : UdpControlPacket → Datagram
datagram_of p = record {
  seqnum = p.seqnum;
  version = 0x01;
  control = p.control;
  request = request_bits p.request;
  station = p.alliance.station;
  tags = tag_views p.tags;
}

frame_of : ℕ × List ℕ → List ℕ
frame_of (i, bytes) = (1 + length bytes) ∷ i ∷ bytes

frames_of : List UdpTag → List ℕ
unfolding frame_of
frames_of [] = []
frames_of (t ∷ tags) = frame_of (tag_view t) ++ frames_of tags

framed-fits :
    (m : Outcome (List ℕ)) (i : ℕ)
    → fits m ≡ true
    → (do bytes ← m; framed i bytes) ≡ ok (frame_of (i, data_of m))
unfolding frame_of
framed-fits (ok bytes) i h = rw h refl
framed-fits (err e) i h = cc
framed-fits panicked i h = cc

framed-panics :
    (i : ℕ) (bytes : List ℕ) → leb (1 + length bytes) 255 ≡ false → framed i bytes ≡ panicked
framed-panics i bytes h = rw h refl

-- A layout is never an error.
layout-cases : (t : UdpTag) → ((bytes : List ℕ) × (layout t ≡ ok bytes)) ⊎ (layout t ≡ panicked)
layout-cases (countdown c) = inl (data_of (layout (countdown c)), refl)
layout-cases (joysticks j) = elim (Bool-cases (counts_fit j)) [
  | inl e ↦ inl (joysticks_layout j, rw e refl)
  | inr e ↦ inr (rw e refl)
]
layout-cases (date_time d) = inl (data_of (layout (date_time d)), refl)
layout-cases (timezone t) = inl (t.tz, refl)

layout-not_fits :
    (t : UdpTag) → fits (layout t) ≡ false → (do bytes ← layout t; framed (id t) bytes) ≡ panicked
layout-not_fits t h = elim (layout-cases t) [
  | inl (bytes, e) ↦ rw e (framed-panics (id t) bytes (rw e at h))
  | inr e ↦ rw e refl
]

split-frames_of :
    (tags : List UdpTag) (fuel : ℕ)
    → length (frames_of tags) ≤ fuel
    → split_tags fuel (frames_of tags) ≡ some (tag_views tags)
unfolding frames_of frame_of
split-frames_of [] fuel h = refl
split-frames_of (t ∷ tags) zero h = absurd (omega arith)
split-frames_of (t ∷ tags) (suc fuel) h =
    let bytes = data_of (layout t) in
    rw
      (
        one_less (length bytes),
        drop-append bytes (frames_of tags),
        take-append bytes (frames_of tags),
        split-frames_of tags fuel (omega (arith, length-append bytes (frames_of tags))),
      )
      refl

and_true : (x y : Bool) → (x && y) ≡ true → (x ≡ true) × (y ≡ true)
and_true x y h = ground arith

module _ (b : BytesCrate) where
  construct-fits :
      (t : UdpTag) → fits (layout t) ≡ true → construct b t ≡ ok (frame_of (tag_view t))
  construct-fits t h = construct_lem b t ∙ framed-fits (layout t) (id t) h

  extend_tags-fits :
      (tags : List UdpTag) (buf : List ℕ)
      → all_fit tags ≡ true
      → extend_tags b buf tags ≡ ok (buf ++ frames_of tags)
  unfolding extend_tags frames_of
  extend_tags-fits [] buf h = ap (λ (t : List ℕ). ok t) (sym (append-nil buf))
  extend_tags-fits (t ∷ tags) buf h =
      let (first, rest) = and_true (fits (layout t)) (all_fit tags) h in
      rw (construct-fits t first, extend_lem b buf (frame_of (tag_view t)))
        (extend_tags-fits tags (buf ++ frame_of (tag_view t)) rest
          ∙ rw (append_assoc buf (frame_of (tag_view t)) (frames_of tags)) refl)

  extend_tags-panics :
      (tags : List UdpTag) (buf : List ℕ) → all_fit tags ≡ false → extend_tags b buf tags ≡ panicked
  unfolding extend_tags
  extend_tags-panics [] buf h = cc
  extend_tags-panics (t ∷ tags) buf h = elim (Bool-cases (fits (layout t))) [
    | inl e ↦ rw (construct-fits t e) (extend_tags-panics tags _ (rw e at h))
    | inr e ↦ rw (construct_lem b t, layout-not_fits t e) refl
  ]

  -- If the sequence number is a 16-bit number and every tag fits in its frame, the packet is
  -- encoded, and a receiver that goes by the length bytes reads back the header and every tag with
  -- its id and data, in order.
  pub receive-encode :
      (p : UdpControlPacket)
      → p.seqnum < 65536
      → all_fit p.tags ≡ true
      → (bytes : List ℕ) × (encode b p ≡ ok bytes) × (receive bytes ≡ some (datagram_of p))
  unfolding encode
  receive-encode p h f = (
    header ++ frames_of p.tags,
    rw (extend_tags-fits p.tags _ f) (simp (writer_laws, append_assoc)),
    rw (split-frames_of p.tags (length (frames_of p.tags)) (omega arith), big_endian p.seqnum h)
        refl,
  )
    where
      header : List ℕ
      header =
          (p.seqnum / 256 % 256)
          ∷ (p.seqnum % 256)
          ∷ 1
          ∷ p.control
          ∷ request_bits p.request
          ∷ p.alliance.station
          ∷ []

  -- If some tag does not fit in its frame, encoding the packet panics.
  pub encode-panics : (p : UdpControlPacket) → all_fit p.tags ≡ false → encode b p ≡ panicked
  unfolding encode
  encode-panics p f = rw (extend_tags-panics p.tags _ f) refl
