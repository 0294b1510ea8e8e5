-- ===== src/Proto/Tcp/Utf8.antt =====
-- `str::from_utf8` of the standard library: which bytes are a text.
use ds_rs.Prelude.{
  ℕ, zero, suc, Bool, true, false, ◌&&◌, List, [], ◌∷◌, ltb, leb, ◌==◌, if◌then◌else◌,
}

-- What a lead byte asks for: how many continuation bytes, and the bounds of the first of them.
abbrev Lead : Type 0
Lead = ℕ × ℕ × ℕ

-- `none` of these stands for a byte that leads nothing: it asks for a byte above 255.
lead : ℕ → Lead
lead x =
    if ltb x 0x80
    then (0, 0x80, 0xbf)
    else if ltb x 0xc2
    then (1, 256, 0)
    else if ltb x 0xe0
    then (1, 0x80, 0xbf)
    else if x == 0xe0
    then (2, 0xa0, 0xbf)
    else if x == 0xed
    then (2, 0x80, 0x9f)
    else if ltb x 0xf0
    then (2, 0x80, 0xbf)
    else if x == 0xf0
    then (3, 0x90, 0xbf)
    else if ltb x 0xf4
    then (3, 0x80, 0xbf)
    else if x == 0xf4
    then (3, 0x80, 0x8f)
    else (1, 256, 0)

-- `n` continuation bytes are awaited, the first of them between `lo` and `hi`.
continues : ℕ → ℕ → ℕ → List ℕ → Bool
unfolding lead
continues zero lo hi [] = true
continues (suc n) lo hi [] = false
continues zero lo hi (x ∷ xs) = let (n, lo', hi') = lead x in continues n lo' hi' xs
continues (suc n) lo hi (x ∷ xs) = leb lo x && (leb x hi && continues n 0x80 0xbf xs)

unfoldable pub is_utf8 : List ℕ → Bool
unfolding continues
is_utf8 = continues 0 0x80 0xbf
