-- ===== src/Prelude/Outcome.antt =====
-- A call that returns, or that panics: an `assert!`, an `unwrap`, an index or a slice out of range.
pub data Outcome {ℓ} (T : Type ℓ) : Type ℓ where
  panics : Outcome T
  returns : T → Outcome T

-- A panic ends the call, a value goes to what follows.
infixl 5 ◌>>=◌
abbrev pub ◌>>=◌ {ℓ κ} : {T : Type ℓ} {U : Type κ} → Outcome T → (T → Outcome U) → Outcome U
panics >>= next = panics
returns value >>= next = next value

-- The same for a step without a value.
infixl 5 ◌>>◌
abbrev pub ◌>>◌ {κ} : {U : Type κ} → Outcome (Unit {0}) → Outcome U → Outcome U
step >> next = step >>= λ _. next
