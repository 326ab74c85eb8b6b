-- ===== src/Kernel/Path/First.antt =====
-- The first segment of a path of tee/kernel/src/fs/path.rs.
use mathlib.Core.Option
use mushroom.Prelude.{
  ℕ, zero, suc, ◌+◌, ◌≡◌, ◌≢◌, refl, true, false, List, [], ◌∷◌, Option, none, some, length, take,
  ◌==◌, Bool-cases, Option-cases, inl, inr, arith,
}
use mushroom.Kernel.Path.{
  PathSegment, root, empty, slash, segment_of, position, next_segment, collect, segments,
}

segment_of-ne-empty : (b : ℕ) (bs : List ℕ) → segment_of (b ∷ bs) ≢ empty
unfolding segment_of
segment_of-ne-empty b [] h = ground (arith, h)
segment_of-ne-empty b (c ∷ []) h = ground (arith, h)
segment_of-ne-empty b (c ∷ d ∷ r) h = cc

next_segment-ne-empty : (b : ℕ) (bs : List ℕ) → (next_segment true (b ∷ bs)).0 ≢ empty
unfolding next_segment position
next_segment-ne-empty b bs = elim (Bool-cases (b == slash)) [
  | inl p ↦ λ h. absurd (let z : root ≡ empty = rw (next_segment, p) at h in cc)
  | inr p ↦ elim (Option-cases (position bs)) [
    | inl q ↦ rw (next_segment, p, q) (segment_of-ne-empty b bs)
    | inr (n, q) ↦ rw (next_segment, p, q) (segment_of-ne-empty b (take n bs))
  ]
]

collect-first :
    (fuel : ℕ) (path : List ℕ) (s : PathSegment) (r : List PathSegment)
    → path ≢ []
    → collect fuel true (some path) ≡ some (s ∷ r)
    → s ≢ empty
unfolding collect
collect-first zero path s r h q = cc
collect-first (suc fuel) [] s r h q = absurd (h refl)
collect-first (suc fuel) (b ∷ bs) s r h q = go (collect fuel false (next_segment true (b ∷ bs)).1) q
  where
    go :
        (o : Option (List PathSegment))
        → Option.map (λ segments. (next_segment true (b ∷ bs)).0 ∷ segments) o ≡ some (s ∷ r)
        → s ≢ empty
    go none e = cc
    go (some rest) e = λ z. next_segment-ne-empty b bs cc

-- It is not the empty one, where the path is not empty.
pub first-ne-empty :
    (path : List ℕ) (s : PathSegment) (r : List PathSegment)
    → path ≢ []
    → segments path ≡ some (s ∷ r)
    → s ≢ empty
unfolding segments
first-ne-empty path s r h q = collect-first (length path + 1) path s r h q
