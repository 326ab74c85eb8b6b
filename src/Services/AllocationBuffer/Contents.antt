-- ===== src/Services/AllocationBuffer/Contents.antt =====
-- The allocation buffer of allocation_buffer.rs as the list of the slots that it holds.
use mathlib.Core.Path.{subst}
use native.Mathlib.Decide.{ℕ_discrete}
use mushroom.Prelude.{
  Option-cases, inl, inr, ℕ, suc, ◌<◌, ◌≡◌, ◌≢◌, refl, List, [], ◌∷◌, ◌++◌, Option, none, some,
  arith, ◌==◌, if◌then◌else◌, length,
}
use mushroom.Services.AllocationBuffer.{
  AllocationBuffer, empty_slot, pop_allocation, find_free_entry, set_entry,
}

-- The entries in use, in order.
abbrev pub contents : AllocationBuffer → List ℕ
contents [] = []
contents (x ∷ xs) = if x == empty_slot then contents xs else x ∷ contents xs

abbrev pub pop_first : List ℕ → Option ℕ × List ℕ
pop_first [] = (none, [])
pop_first (x ∷ xs) = (some x, xs)

-- Taking an allocation takes the first slot in use and leaves exactly the others, or nothing if
-- there is none; the array keeps its length.
pub pop_allocation_refines :
    (xs : AllocationBuffer)
    → let (r, ys) = pop_allocation xs in
      ((r, contents ys) ≡ pop_first (contents xs)) × (length ys ≡ length xs)
unfolding pop_allocation
pop_allocation_refines [] = (refl, refl)
pop_allocation_refines (x ∷ xs) = ground (arith, pop_allocation_refines xs)

-- A slot written to an entry in range is added to the contents, and nothing else is moved.
pub record Added (xs : AllocationBuffer) (v entry : ℕ) : Type 0 where
  pub before : List ℕ
  pub after : List ℕ
  pub in_range : entry < length xs
  pub old : contents xs ≡ before ++ after
  pub added : contents (set_entry xs entry v) ≡ before ++ v ∷ after

Added-cons_used :
    (x : ℕ) (xs : AllocationBuffer) (v entry : ℕ)
    → x ≢ empty_slot
    → Added xs v entry
    → Added (x ∷ xs) v (suc entry)
Added-cons_used x xs v entry h a = record {
  before = x ∷ a.before;
  after = a.after;
  in_range = omega (arith, a.in_range);
  old = ground (arith, a.old);
  added = ground (arith, a.added);
}

-- The free entry that is found is in range, and writing a slot there, which is not EMPTY, adds that
-- slot to the contents and moves nothing else.
pub set_entry-Added :
    (xs : AllocationBuffer) (v entry : ℕ)
    → v ≢ empty_slot
    → find_free_entry xs ≡ some entry
    → Added xs v entry
unfolding find_free_entry
set_entry-Added [] v entry h e = cc
set_entry-Added (x ∷ xs) v entry h e = elim (ℕ_discrete x empty_slot) [
  | yes p ↦ record {
    before = [];
    after = contents xs;
    in_range = ground arith;
    old = ground arith;
    added = first (ground arith);
  }
  | no p ↦ elim (Option-cases (find_free_entry xs)) [
    | inl q ↦ absurd (ground arith)
    | inr (j, q) ↦
        subst (Added (x ∷ xs) v) (ground arith)
          (Added-cons_used x xs v j p (set_entry-Added xs v j h q))
  ]
]
  where
    first : entry ≡ 0 → contents (set_entry (x ∷ xs) entry v) ≡ v ∷ contents xs
    first q = rw q (ground arith)

-- Where no free entry is found, every entry is in use.
pub find_free_entry-none :
    (xs : AllocationBuffer) → find_free_entry xs ≡ none → length (contents xs) ≡ length xs
unfolding find_free_entry
find_free_entry-none [] e = refl
find_free_entry-none (x ∷ xs) e = ground (arith, find_free_entry-none xs)
