-- ===== src/Prelude/Slices.antt =====
-- Lists cut in two, and reads after writes.
use Prim.Native.Nat.{ℕ, zero, suc, ◌+◌, ◌≤◌, ◌<◌}
use mathlib.Core.Path.{◌≡◌, refl, ap, sym}
use mathlib.Core.List.{List, [], ◌∷◌, ◌++◌}
use native.Mathlib.Nat.{zero-add, suc-add}
use native.Mathlib.Omega.{arith}
use mushroom.Prelude.Tests.{◌==◌, if◌then◌else◌}
use mushroom.Prelude.Lists.{length, get_or, set, take, drop}

module _ {ℓ} {A : Type ℓ} where
  pub set-append_left :
      (xs ys : List A) (k : ℕ) (v : A) → k < length xs → set xs k v ++ ys ≡ set (xs ++ ys) k v
  set-append_left [] ys k v h = absurd (omega arith)
  set-append_left (x ∷ xs) ys zero v h = refl
  set-append_left (x ∷ xs) ys (suc k) v h =
      ap (λ t. x ∷ t) (set-append_left xs ys k v (omega arith))

  pub get_or-append_left :
      (xs ys : List A) (k : ℕ) (d : A) → k < length xs → get_or (xs ++ ys) k d ≡ get_or xs k d
  get_or-append_left [] ys k d h = absurd (omega arith)
  get_or-append_left (x ∷ xs) ys zero d h = refl
  get_or-append_left (x ∷ xs) ys (suc k) d h = get_or-append_left xs ys k d (omega arith)

  pub set-take-drop :
      (n : ℕ) (xs : List A) (k : ℕ) (v : A)
      → n ≤ length xs
      → take n xs ++ set (drop n xs) k v ≡ set xs (n + k) v
  set-take-drop zero xs k v h = ap (λ j. set xs j v) (sym (zero-add k))
  set-take-drop (suc n) [] k v h = absurd (omega arith)
  set-take-drop (suc n) (x ∷ xs) k v h =
      rw suc-add (ap (λ t. x ∷ t) (set-take-drop n xs k v (omega arith)))

  pub get_or-drop :
      (n : ℕ) (xs : List A) (k : ℕ) (d : A) → get_or (drop n xs) k d ≡ get_or xs (n + k) d
  get_or-drop zero xs k d = ap (λ j. get_or xs j d) (sym (zero-add k))
  get_or-drop (suc n) [] k d = refl
  get_or-drop (suc n) (x ∷ xs) k d = rw suc-add (get_or-drop n xs k d)

  pub get_or-set :
      (xs : List A) (i j : ℕ) (v d : A)
      → i < length xs
      → get_or (set xs i v) j d ≡ (if i == j then v else get_or xs j d)
  get_or-set [] i j v d h = absurd (omega arith)
  get_or-set (x ∷ xs) zero zero v d h = refl
  get_or-set (x ∷ xs) zero (suc j) v d h = ground arith
  get_or-set (x ∷ xs) (suc i) zero v d h = ground arith
  get_or-set (x ∷ xs) (suc i) (suc j) v d h = ground (arith, get_or-set xs i j v d)
