-- ===== src/Proto/Tcp/Frames.antt =====
-- The frames that src/proto/tcp/outbound.rs makes, written down without buffers.
use ds_rs.Prelude.{
  ℕ, ◌+◌, ◌%◌, ◌≡◌, refl, Bool, true, false, List, [], ◌∷◌, ◌++◌, append_assoc, length, ok,
  panicked, leb, if◌then◌else◌, arith, ◌<◌, le→leb, Bool-cases, inl, inr, leb→le,
}
use ds_rs.Crates.{BytesCrate, writer_laws}
use ds_rs.Proto.Tags.Layout.{be16}
use ds_rs.Proto.Tcp.{
  TcpTag, match_info, game_data, id, match_type_byte, tag_data, construct, encode,
}

-- A frame: the length of what follows, the id, and the data.
abbrev pub frame : ℕ → List ℕ → List ℕ
frame i body = be16 (1 + length body) ++ i ∷ body

-- What each kind of tag carries. The length byte of a name keeps its low eight bits only.
abbrev pub layout : TcpTag → List ℕ
layout (match_info m) =
    (length m.competition % 256) ∷ (m.competition ++ match_type_byte m.match_type ∷ [])
layout (game_data g) = g.gsm

-- Whether what is behind the length fits in its 16 bits: what the assertion of `construct` asks.
abbrev pub fits : TcpTag → Bool
fits t = leb (1 + length (layout t)) 65535

small_length : (n : ℕ) → leb n 65535 ≡ true → n % 65536 ≡ n
small_length n h = omega (arith, leb→le n 65535 h)

module _ (b : BytesCrate) where
  tag_data_lem : (t : TcpTag) → tag_data b t ≡ layout t
  unfolding tag_data match_type_byte
  tag_data_lem (match_info m) = simp (writer_laws, append_assoc)
  tag_data_lem (game_data g) = simp writer_laws

  -- A tag is constructed as the frame of its id and its layout, and panics where the length of that
  -- passes 65535.
  pub construct_lem :
      (t : TcpTag)
      → construct b t
        ≡ (if leb (1 + length (layout t)) 65535 then ok (frame (id t) (layout t)) else panicked)
  unfolding construct
  construct_lem t = rw (tag_data_lem t) (elim (Bool-cases (leb (1 + length (layout t)) 65535)) [
    | inl e ↦ rw e (simp (writer_laws, append_assoc) (rw (small_length _ e) refl))
    | inr e ↦ rw e refl
  ])

  -- A tag whose length fits in 16 bits is encoded as its frame, behind what the buffer holds.
  pub encode-frame :
      (t : TcpTag) (dst : List ℕ)
      → 1 + length (layout t) < 65536
      → encode b t dst ≡ ok (dst ++ frame (id t) (layout t))
  unfolding encode
  encode-frame t dst short =
      rw (construct_lem t, le→leb (1 + length (layout t)) 65535 (omega arith))
        (rw (b.extend_law dst (frame (id t) (layout t))) refl)

  -- Any other tag makes the encoder panic.
  encode-panicked : (t : TcpTag) (dst : List ℕ) → fits t ≡ false → encode b t dst ≡ panicked
  unfolding encode
  encode-panicked t dst long = rw (construct_lem t, long) refl
