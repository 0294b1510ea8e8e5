-- ===== src/Proto/Tags/Layout.antt =====
-- The bytes of each tag of src/proto/udp/outbound/types.rs, written down once more without buffers.
use ds_rs.Prelude.{
  ℕ, ◌+◌, ◌/◌, ◌%◌, ◌-◌, ◌*◌, ◌<◌, ◌≡◌, refl, sym, ◌∙◌, Bool, true, List, [], ◌∷◌, ◌++◌, append-nil,
  append_assoc, length, Outcome, ok, err, panicked, assert, ◌>>=◌, leb, ◌&&◌, if◌then◌else◌, arith,
  Bool-cases, inl, inr, leb→le,
}
use ds_rs.Crates.{BytesCrate, writer_laws, put_i8_lem, put_i16_lem}
use ds_rs.Util.{to_u8_vec}
use ds_rs.Proto.Tags.{
  Joysticks, UdpTag, countdown, joysticks, date_time, timezone, id, put_axes, put_povs,
  countdown_data, joysticks_data, date_time_data, timezone_data, tag_data, construct,
}

abbrev pub be16 : ℕ → List ℕ
be16 n = (n / 256 % 256) ∷ (n % 256) ∷ []

pub big_endian : (n : ℕ) → n < 65536 → n / 256 % 256 * 256 + n % 256 ≡ n
big_endian n h = omega arith

pub one_less : (n : ℕ) → 1 + n - 1 ≡ n
one_less n = omega arith

abbrev pub be32 : ℕ → List ℕ
be32 n = (n / 16777216 % 256) ∷ (n / 65536 % 256) ∷ (n / 256 % 256) ∷ (n % 256) ∷ []

abbrev pub be16_all : List ℕ → List ℕ
be16_all [] = []
be16_all (x ∷ xs) = be16 x ++ be16_all xs

-- The counts of a joystick must fit in a byte each.
abbrev pub counts_fit : Joysticks → Bool
counts_fit j = leb (length j.axes) 255 && (leb (length j.buttons) 255 && leb (length j.povs) 255)

abbrev pub joysticks_layout : Joysticks → List ℕ
joysticks_layout j =
    length j.axes
    ∷ (j.axes ++ length j.buttons ∷ (to_u8_vec j.buttons ++ length j.povs ∷ be16_all j.povs))

-- What each kind of tag carries behind its length and id.
abbrev pub layout : UdpTag → Outcome (List ℕ)
layout (countdown c) = ok (be32 c.seconds_remaining)
layout (joysticks j) = if counts_fit j then ok (joysticks_layout j) else panicked
layout (date_time d) =
    ok (be32 d.micros ++ d.second ∷ d.minute ∷ d.hour ∷ d.day ∷ d.month ∷ d.year ∷ [])
layout (timezone t) = ok t.tz

-- A frame: the length of what follows, the id, and the data. Longer data than 254 bytes panics.
abbrev pub framed : ℕ → List ℕ → Outcome (List ℕ)
framed i bytes =
    if leb (1 + length bytes) 255 then ok ((1 + length bytes) ∷ i ∷ bytes) else panicked

small_count : (n : ℕ) → leb n 255 ≡ true → n % 256 ≡ n
small_count n h = omega (arith, leb→le n 255 h)

module _ (b : BytesCrate) where
  put_axes_lem : (axes buf : List ℕ) → put_axes b buf axes ≡ buf ++ axes
  unfolding put_axes
  put_axes_lem [] buf = sym (append-nil buf)
  put_axes_lem (x ∷ axes) buf = put_axes_lem axes (b.put_i8 buf x) ∙ simp (put_i8_lem, append_assoc)

  put_povs_lem : (povs buf : List ℕ) → put_povs b buf povs ≡ buf ++ be16_all povs
  unfolding put_povs
  put_povs_lem [] buf = sym (append-nil buf)
  put_povs_lem (x ∷ povs) buf =
      put_povs_lem povs (b.put_i16 buf x) ∙ simp (put_i16_lem, append_assoc)

  pub joysticks_data_lem : (j : Joysticks) → joysticks_data b j ≡ layout (joysticks j)
  unfolding joysticks_data
  joysticks_data_lem j = elim (Bool-cases (leb (length j.axes) 255)) [
    | inr e ↦ rw e refl
    | inl e ↦ rw e (elim (Bool-cases (leb (length j.buttons) 255)) [
      | inr f ↦ rw f refl
      | inl f ↦ rw f (elim (Bool-cases (leb (length j.povs) 255)) [
        | inr g ↦ rw g refl
        | inl g ↦ rw g (
            simp (writer_laws, put_axes_lem, put_povs_lem, append_assoc)
              (rw (small_count _ e, small_count _ f, small_count _ g) refl))
      ])
    ])
  ]

  tag_data_lem : (t : UdpTag) → tag_data b t ≡ layout t
  unfolding tag_data countdown_data date_time_data timezone_data
  tag_data_lem (countdown c) = simp writer_laws
  tag_data_lem (joysticks j) = joysticks_data_lem j
  tag_data_lem (date_time d) = simp writer_laws
  tag_data_lem (timezone t) = refl

  -- Every tag is constructed as its frame: its length, its id, its layout; it panics exactly where a
  -- count of a joystick passes 255 or the length passes 255.
  pub construct_lem : (t : UdpTag) → construct b t ≡ (do bytes ← layout t; framed (id t) bytes)
  unfolding construct
  construct_lem t =
      rw (tag_data_lem t)
        (elim (layout t)
          as (λ m.
            (do
              bytes ← m
              _ ← assert (leb (1 + length bytes) 255)
              ok (
                  b.freeze (
                    b.put
                      (b.put_u8
                        (b.put_u8 (b.with_capacity (1 + (1 + length bytes)))
                          ((1 + length bytes) % 256))
                        (id t))
                      bytes)))
            ≡ (do bytes ← m; framed (id t) bytes)) [
              | err e ↦ refl
              | panicked ↦ refl
              | ok bytes ↦ elim (Bool-cases (leb (1 + length bytes) 255)) [
                | inr e ↦ rw e refl
                | inl e ↦ rw e (simp (writer_laws, append_assoc) (rw (small_count _ e) refl))
              ]
            ])
