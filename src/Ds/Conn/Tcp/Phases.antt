-- ===== src/Ds/Conn/Tcp/Phases.antt =====
-- Functions with one value replaced, as those that hold what each TCP task of src/ds/conn.rs is at.
use ds_rs.Prelude.{
  ℕ, ◌≡◌, ◌≢◌, refl, ◌∙◌, inl, inr, Bool, true, false, ◌==◌, ==_iff, Bool-cases, if◌then◌else◌,
}
use ds_rs.Ds.Conn.Tcp.Tasks.{Phase, starting, ended, put}

module _ {ℓ} {A : Type ℓ} where
  pub put_self : (k : ℕ) (a : A) (m : ℕ → A) → put k a m k ≡ a
  unfolding put
  put_self k a m = rw ((==_iff k k).1 refl) refl

  pub put_ne : (k j : ℕ) (a : A) (m : ℕ → A) → (j == k) ≡ false → put k a m j ≡ m j
  unfolding put
  put_ne k j a m e = rw e refl

  pub put_same : (k j : ℕ) (a : A) (m : ℕ → A) → a ≡ m k → put k a m j ≡ m j
  put_same k j a m e = elim (Bool-cases (j == k)) [
    | inl same ↦ let here : j ≡ k = (==_iff j k).0 same in rw here (put_self k a m ∙ e)
    | inr other ↦ put_ne k j a m other
  ]

pub put-begun :
    (k j : ℕ) (p : Phase) (phase : ℕ → Phase)
    → p ≢ starting
    → phase k ≢ starting
    → put j p phase k ≢ starting
put-begun k j p phase begun h = elim (Bool-cases (k == j)) [
  | inl same ↦ let here : k ≡ j = (==_iff k j).0 same in rw (here, put_self j p phase) begun
  | inr other ↦ rw (put_ne j k p phase other) h
]

pub put-ended : (k j : ℕ) (phase : ℕ → Phase) → phase k ≡ ended → put j ended phase k ≡ ended
put-ended k j phase h = elim (Bool-cases (k == j)) [
  | inl same ↦ let here : k ≡ j = (==_iff k j).0 same in rw here (put_self j ended phase)
  | inr other ↦ put_ne j k ended phase other ∙ h
]

pub round-ended :
    (k j : ℕ) (goes_on : Bool) (phase : ℕ → Phase)
    → phase k ≡ ended
    → (if goes_on then phase else put j ended phase) k ≡ ended
round-ended k j true phase h = h
round-ended k j false phase h = put-ended k j phase h

pub round-begun :
    (k j : ℕ) (goes_on : Bool) (phase : ℕ → Phase)
    → phase k ≢ starting
    → (if goes_on then phase else put j ended phase) k ≢ starting
round-begun k j true phase h = h
round-begun k j false phase h = put-begun k j ended phase (λ e. cc e) h
