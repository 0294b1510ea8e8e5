-- ===== src/Util/Address.antt =====
-- `ip_from_team_number` of src/util.rs: which address it prints, and which teams get a real one.
use native.Mathlib.Nat.{pow-suc}
use ds_rs.Prelude.{
  ltb→lt, ℕ, zero, suc, ◌+◌, ◌-◌, ◌*◌, ◌/◌, ◌%◌, ◌^◌, ◌≤◌, ◌<◌, ◌≡◌, ◌↔◌, refl, ap, ◌∙◌, false,
  List, [], ◌∷◌, ◌++◌, append_assoc, ltb, ◌==◌, if◌then◌else◌, arith, Bool-cases, inl, inr, All,
}
use ds_rs.Util.{show_digits, show_u16, ip_from_team_number}

-- A reader of dotted decimals: the numbers between the dots, with `acc` the digits so far.
abbrev pub parse_dotted : ℕ → List ℕ → List ℕ
parse_dotted acc [] = acc ∷ []
parse_dotted acc (c ∷ cs) =
    if c == b'.' then acc ∷ parse_dotted 0 cs else parse_dotted (acc * 10 + (c - b'0')) cs

not_a_dot : (x : ℕ) → x < 10 → ((x + b'0') == b'.') ≡ false
not_a_dot x h = ground arith

digit_value : (x : ℕ) → x + b'0' - b'0' ≡ x
digit_value x = omega arith

last_digit :
    (acc x : ℕ) (rest : List ℕ)
    → x < 10
    → parse_dotted acc ((x + b'0') ∷ rest) ≡ parse_dotted (acc * 10 + x) rest
last_digit acc x rest h = rw (not_a_dot x h, digit_value x) refl

zero_times : (x : ℕ) → 0 * 10 + x ≡ x
zero_times x = omega arith

tens : (x : ℕ) → x / 10 * 10 + x % 10 ≡ x
tens x = omega arith

parse-show_digits :
    (n x : ℕ) (rest : List ℕ)
    → x < 10 ^ suc n
    → parse_dotted 0 (show_digits n x ++ rest) ≡ parse_dotted x rest
unfolding show_digits
parse-show_digits zero x rest h = last_digit 0 x rest (omega arith) ∙ rw (zero_times x) refl
parse-show_digits (suc n) x rest h = elim (Bool-cases (ltb x 10)) [
  | inl e ↦ rw e (last_digit 0 x rest (ltb→lt x 10 e) ∙ rw (zero_times x) refl)
  | inr e ↦
      rw (e, append_assoc)
        (parse-show_digits n (x / 10) ((x % 10 + b'0') ∷ rest) (omega (arith, pow-suc 10 (suc n)))
          ∙ last_digit (x / 10) (x % 10) rest (omega arith)
          ∙ rw (tens x) refl)
]

abbrev one_field : List ℕ → List ℕ
one_field t = 10 ∷ t

abbrev two_fields : List ℕ → List ℕ
two_fields t = 10 ∷ 0 ∷ t

parse_end : (x : ℕ) → x < 10 ^ 5 → parse_dotted 0 (show_u16 x ++ b'.' ∷ b'2' ∷ []) ≡ x ∷ 2 ∷ []
parse_end x h = parse-show_digits 4 x (b'.' ∷ b'2' ∷ []) h

small_team :
    (team : ℕ)
    → team < 100
    → ◌≡◌ {A = List ℕ} (10 ∷ 0 ∷ team ∷ 2 ∷ []) (10 ∷ (team / 100) ∷ (team % 100) ∷ 2 ∷ [])
small_team team h = ground arith

-- For every team number below 65536 the text is four numbers between dots: 10, the team number
-- without its last two digits, those two digits, and 2.
pub parse-ip_from_team_number :
    (team : ℕ)
    → team < 65536
    → parse_dotted 0 (ip_from_team_number team) ≡ 10 ∷ (team / 100) ∷ (team % 100) ∷ 2 ∷ []
unfolding ip_from_team_number
parse-ip_from_team_number team h = elim (Bool-cases (ltb team 100)) [
  | inl e ↦ rw e (
      ap two_fields (parse_end team (omega (arith, ltb→lt team 100 e)))
      ∙ small_team team (ltb→lt team 100 e))
  | inr e ↦ rw e (
      ap one_field (
        parse-show_digits 4 (team / 100) (b'.' ∷ show_u16 (team % 100) ++ b'.' ∷ b'2' ∷ [])
          (omega arith)
        ∙ ap (λ t. (team / 100) ∷ t) (parse_end (team % 100) (omega arith))))
]

-- For a team number below 65536 the text is an IPv4 address, each number of it at most 255, exactly
-- if the team is below 25600.
ip_from_team_number_valid :
    (team : ℕ)
    → team < 65536
    → All (λ x. x ≤ 255) (parse_dotted 0 (ip_from_team_number team)) ↔ (team < 25600)
ip_from_team_number_valid team h =
    rw (parse-ip_from_team_number team h) ((λ v. omega arith), (λ v. omega arith))
