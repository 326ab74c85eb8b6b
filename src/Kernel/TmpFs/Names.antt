-- ===== src/Kernel/TmpFs/Names.antt =====
-- The file names that tee/kernel/src/fs/node/tmpfs.rs has for keys.
use mushroom.Prelude.{ℕ, ◌≡◌, ◌↔◌, refl, Bool, true, false, ◌&&◌, List, [], ◌∷◌, ◌==◌, arith}

-- The bytes of a `FileName`.
abbrev pub Name : Type 0
Name = List ℕ

unfoldable pub same : Name → Name → Bool
same [] [] = true
same [] (b ∷ n) = false
same (a ∷ m) [] = false
same (a ∷ m) (b ∷ n) = (a == b) && same m n

pub same_refl : (n : Name) → same n n ≡ true
unfolding same
same_refl [] = refl
same_refl (a ∷ n) = ground (arith, same_refl n)

pub eq_of_same : (m n : Name) → same m n ≡ true → m ≡ n
unfolding same
eq_of_same [] [] h = refl
eq_of_same [] (b ∷ n) h = cc
eq_of_same (a ∷ m) [] h = cc
eq_of_same (a ∷ m) (b ∷ n) h = ground (arith, eq_of_same m n)

pub same_iff : (m n : Name) → (same m n ≡ true) ↔ (m ≡ n)
same_iff m n = (eq_of_same m n, λ e. rw e (same_refl n))
