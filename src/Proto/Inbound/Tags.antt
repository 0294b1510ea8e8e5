-- ===== src/Proto/Inbound/Tags.antt =====
-- The loop over the tags of a response in src/proto/udp/inbound.rs.
use native.Mathlib.Nat.{zero-add, suc-add}
use ds_rs.Prelude.{
  ◌-◌, leb, leb→le, take, drop, length-take, length-drop, take-append-drop, ℕ, zero, suc, ◌+◌, ◌≤◌,
  ◌<◌, ◌≡◌, refl, ◌∙◌, List, [], ◌∷◌, ◌++◌, append_assoc, length, length-append, ok, err, eof, ◌==◌,
  if◌then◌else◌, arith, Bool-cases, inl, inr, ◌⊎◌, All,
}
use ds_rs.Crates.{BytesCrate}
use ds_rs.Ext.{>>=-ok, >>=-err, read_u8}
use ds_rs.Ext.Reads.{read_u8-cons, read_u8-nil}
use ds_rs.Proto.Inbound.{chomp, chomp_tag, skip_tags}

-- The number of bytes behind a tag's id.
abbrev pub stub_size : ℕ → ℕ
stub_size tag_id =
    if tag_id == 0x01
    then 8
    else if tag_id == 0x04
    then 4
    else if tag_id == 0x05
    then 20
    else if tag_id == 0x06
    then 8
    else if tag_id == 0x08
    then 25
    else if tag_id == 0x09
    then 9
    else if tag_id == 0x0e
    then 14
    else 0

-- A tag as its id and its data; the data has the size of the id.
abbrev pub IsTag : ℕ × List ℕ → Type 0
IsTag (i, bytes) = length bytes ≡ stub_size i

abbrev pub tags_bytes : List (ℕ × List ℕ) → List ℕ
tags_bytes [] = []
tags_bytes ((i, bytes) ∷ tags) = i ∷ (bytes ++ tags_bytes tags)

pub length-tags_bytes : (tags : List (ℕ × List ℕ)) → length tags ≤ length (tags_bytes tags)
length-tags_bytes [] = omega arith
length-tags_bytes ((i, bytes) ∷ tags) =
    omega (arith, length-tags_bytes tags, length-append bytes (tags_bytes tags))

split_fuel : (n fuel : ℕ) → n ≤ fuel → n + (fuel - n) ≡ fuel
split_fuel n fuel h = omega arith

module _ (b : BytesCrate) where
  chomp_all : (bytes rest : List ℕ) → chomp b (length bytes) (bytes ++ rest) ≡ ok (bytes, rest)
  unfolding chomp
  chomp_all [] rest = refl
  chomp_all (x ∷ bytes) rest =
      >>=-ok (read_u8 b) _ _ (read_u8-cons b x (bytes ++ rest))
      ∙ >>=-ok (chomp b (length bytes)) _ _ (chomp_all bytes rest)

  chomp_short : (n : ℕ) (bytes : List ℕ) → length bytes < n → chomp b n bytes ≡ err eof
  unfolding chomp
  chomp_short zero bytes h = absurd (omega arith)
  chomp_short (suc n) [] h = >>=-err (read_u8 b) _ _ (read_u8-nil b)
  chomp_short (suc n) (x ∷ bytes) h =
      >>=-ok (read_u8 b) _ _ (read_u8-cons b x bytes)
      ∙ >>=-err (chomp b n) _ _ (chomp_short n bytes (omega arith))

  chomp_tag_lem : (i : ℕ) → chomp_tag b i ≡ chomp b (stub_size i)
  unfolding chomp_tag chomp
  chomp_tag_lem i = ground arith

  chomp_tag_whole :
      (i : ℕ) (bytes rest : List ℕ)
      → IsTag (i, bytes)
      → chomp_tag b i (bytes ++ rest) ≡ ok (bytes, rest)
  chomp_tag_whole i bytes rest h = rw (chomp_tag_lem i, ← h) (chomp_all bytes rest)

  chomp_tag_short :
      (i : ℕ) (bytes : List ℕ) → length bytes < stub_size i → chomp_tag b i bytes ≡ err eof
  chomp_tag_short i bytes h = rw (chomp_tag_lem i) (chomp_short (stub_size i) bytes h)

  -- One round of the loop over a whole tag, and over one that is cut short.
  skip_tag :
      (i : ℕ) (bytes rest : List ℕ) (fuel : ℕ)
      → IsTag (i, bytes)
      → skip_tags b (suc fuel) (i ∷ (bytes ++ rest)) ≡ skip_tags b fuel rest
  unfolding skip_tags
  skip_tag i bytes rest fuel h =
      rw (read_u8-cons b i (bytes ++ rest), skip_tags)
        (>>=-ok (chomp_tag b i) _ _ (chomp_tag_whole i bytes rest h))

  pub skip_tag_short :
      (i : ℕ) (bytes : List ℕ) (fuel : ℕ)
      → length bytes < stub_size i
      → skip_tags b (suc fuel) (i ∷ bytes) ≡ err eof
  unfolding skip_tags
  skip_tag_short i bytes fuel h =
      rw (read_u8-cons b i bytes, skip_tags)
        (>>=-err (chomp_tag b i) _ _ (chomp_tag_short i bytes h))

  pub skip_tags-nil : (fuel : ℕ) → skip_tags b fuel [] ≡ ok (tt, [])
  unfolding skip_tags
  skip_tags-nil zero = refl
  skip_tags-nil (suc fuel) = rw (read_u8-nil b, skip_tags) refl

  skip_tags-append :
      (tags : List (ℕ × List ℕ)) (rest : List ℕ) (fuel : ℕ)
      → All IsTag tags
      → skip_tags b (length tags + fuel) (tags_bytes tags ++ rest) ≡ skip_tags b fuel rest
  skip_tags-append [] rest fuel h = rw (zero-add fuel) refl
  skip_tags-append ((i, bytes) ∷ tags) rest fuel (h, hs) =
      rw (suc-add (length tags) fuel, append_assoc bytes (tags_bytes tags) rest)
        (skip_tag i bytes (tags_bytes tags ++ rest) (length tags + fuel) h
          ∙ skip_tags-append tags rest fuel hs)

  -- Fuel for the tags and for what follows leaves fuel for what follows.
  pub skip_tags-enough :
      (tags : List (ℕ × List ℕ)) (rest : List ℕ) (fuel : ℕ)
      → All IsTag tags
      → length tags + length rest ≤ fuel
      → (left : ℕ) × (length rest ≤ left)
        × (skip_tags b fuel (tags_bytes tags ++ rest) ≡ skip_tags b left rest)
  skip_tags-enough tags rest fuel sized h = (
    fuel - length tags,
    omega arith,
    rw (split_fuel (length tags) fuel (omega arith)) at
        (skip_tags-append tags rest (fuel - length tags) sized),
  )

  -- With its length for fuel the loop either takes the whole buffer or meets a cut tag.
  pub skip_tags-cases :
      (fuel : ℕ) (buf : List ℕ)
      → length buf ≤ fuel
      → (skip_tags b fuel buf ≡ ok (tt, [])) ⊎ (skip_tags b fuel buf ≡ err eof)
  skip_tags-cases fuel [] h = inl (skip_tags-nil fuel)
  skip_tags-cases zero (i ∷ buf) h = absurd (omega arith)
  skip_tags-cases (suc fuel) (i ∷ buf) h = elim (Bool-cases (leb (stub_size i) (length buf))) [
    | inr e ↦ inr (skip_tag_short i buf fuel (ground arith))
    | inl e ↦
        let n = stub_size i in
        let whole : length (take n buf) ≡ n =
          omega (arith, length-take n buf, leb→le n (length buf) e) in
        let one : skip_tags b (suc fuel) (i ∷ buf) ≡ skip_tags b fuel (drop n buf) =
          rw (take-append-drop n buf) at (skip_tag i (take n buf) (drop n buf) fuel whole) in
        rw one (skip_tags-cases fuel (drop n buf) (omega (arith, length-drop n buf)))
  ]
