-- ===== src/Kernel/Frames/Groups.antt =====
-- The groups of tee/kernel/src/memory/frame.rs: what one has to offer, and which one a thread claims.
use mushroom.Prelude.{
  ℕ, suc, ◌+◌, ◌*◌, ◌≡◌, refl, Bool, true, false, List, [], ◌∷◌, Option, none, some, length,
  get_elem?, inl, inr, arith, ◌⊎◌,
}
use mushroom.Kernel.Frames.{
  Chunk, Group, chunk_size, claim, available, count_zeros, first_of, claim_first, chosen, claim_any,
  is_partial, is_free, is_not_completely_used,
}
use mushroom.Kernel.Frames.Counts.{AllChunks, sum_own, sum_free, sum_used, IsValid}
use mushroom.Kernel.Frames.Release.{IsGroup, Claims, claim-Claims}

counted :
    (cs : List Chunk)
    → AllChunks cs
    → sum_own cs + sum_free cs + sum_used cs + count_zeros cs * chunk_size ≡ chunk_size * length cs
unfolding count_zeros
counted [] a = omega arith
counted (c ∷ cs) a = ground (arith, a.0.2, counted cs a.1)

-- The frames that a valid group offers, those that its owner holds and those in use are all its frames:
-- with eight chunks they are 4096, so that no count overflows the 13 bits it has.
pub available-used :
    (g : Group)
    → IsValid g
    → available g + g.own_free + sum_used g.chunks ≡ chunk_size * length g.chunks
unfolding available
available-used g v = omega (arith, counted g.chunks v.0, v.1, v.2)

abbrev pub AllGroups : List Group → Type 0
AllGroups [] = Unit
AllGroups (g ∷ gs) = IsGroup g × AllGroups gs

-- Every group has an owner or offers too few frames.
abbrev pub Unwanted : (ℕ → Bool) → List Group → Type 0
Unwanted check [] = Unit
Unwanted check (g ∷ gs) = ((g.owned ≡ true) ⊎ (check (available g) ≡ false)) × Unwanted check gs

-- What a search for a group promises.
abbrev pub Finds : (ℕ → Bool) → ℕ → List Group → Option (ℕ × Group) → Type 0
Finds check i gs none = Unwanted check gs
Finds check i gs (some (j, g')) =
    (k : ℕ) × (g : Group) × (j ≡ i + k) × (get_elem? gs k ≡ some g) × Claims check g (some g')

first_of-Finds :
    (check : ℕ → Bool) (i : ℕ) (g : Group) (gs : List Group) (r : Option Group)
    (rest : Option (ℕ × Group))
    → Claims check g r
    → Finds check (i + 1) gs rest
    → Finds check i (g ∷ gs) (first_of i r rest)
first_of-Finds check i g gs none none c f = (c, f)
first_of-Finds check i g gs none (some (j, g')) c (k, d, e, at, t) =
    (suc k, d, omega (arith, e), at, t)
first_of-Finds check i g gs (some g') rest c f = (0, g, omega arith, refl, c)

claim_first-Finds :
    (check : ℕ → Bool) (i : ℕ) (gs : List Group)
    → AllGroups gs
    → Finds check i gs (claim_first check i gs)
unfolding claim_first
claim_first-Finds check i [] a = tt
claim_first-Finds check i (g ∷ gs) a =
    first_of-Finds check i g gs (claim check g) (claim_first check (i + 1) gs)
      (claim-Claims check g a.0) (claim_first-Finds check (i + 1) gs a.1)

-- What the claim of a group promises: the best kind of group that nobody owns.
abbrev pub Chosen : List Group → Option (ℕ × Group) → Type 0
Chosen gs none = Unwanted is_partial gs × Unwanted is_free gs × Unwanted is_not_completely_used gs
Chosen gs (some r) =
    Finds is_partial 0 gs (some r)
    ⊎ ((Unwanted is_partial gs × Finds is_free 0 gs (some r))
        ⊎ (Unwanted is_partial gs
            × Unwanted is_free gs
            × Finds is_not_completely_used 0 gs (some r)))

chosen-Chosen :
    (gs : List Group) (a b c : Option (ℕ × Group))
    → Finds is_partial 0 gs a
    → Finds is_free 0 gs b
    → Finds is_not_completely_used 0 gs c
    → Chosen gs (chosen a b c)
chosen-Chosen gs (some r) b c x y z = inl x
chosen-Chosen gs none (some r) c x y z = inr (inl (x, y))
chosen-Chosen gs none none (some r) x y z = inr (inr (x, y, z))
chosen-Chosen gs none none none x y z = (x, y, z)

-- Among valid groups, a thread claims a partly used group that nobody owns; a free one only if there is no such group; any
-- other with a frame to offer only if there is neither; and finds none only if every group has an owner
-- or nothing to offer.
pub claim_any-Chosen : (gs : List Group) → AllGroups gs → Chosen gs (claim_any gs)
unfolding claim_any
claim_any-Chosen gs a =
    chosen-Chosen gs (claim_first is_partial 0 gs) (claim_first is_free 0 gs)
      (claim_first is_not_completely_used 0 gs) (claim_first-Finds is_partial 0 gs a)
      (claim_first-Finds is_free 0 gs a) (claim_first-Finds is_not_completely_used 0 gs a)
