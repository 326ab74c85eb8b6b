-- ===== src/Kernel/Memory/View.antt =====
-- What the mappings of memory.rs say of each page, and their invariant.
use mushroom.Prelude.{
  ℕ, zero, suc, ◌+◌, ◌-◌, ◌<◌, ◌≤◌, ◌≡◌, refl, Bool, ◌&&◌, List, [], ◌∷◌, Option, none, some, arith,
  ltb, leb, if◌then◌else◌, length, take, get_or, get_or-drop,
}
use mushroom.Kernel.Memory.{UserPage, Mapping, Mappings, split_front, split_back}

-- The mappings lie at or above `lo`, in order, none is empty and no two overlap.
abbrev pub Above : ℕ → Mappings → Type 0
Above lo [] = Unit
Above lo ((k, m) ∷ r) = (lo ≤ k) × (0 < length m.pages) × Above (k + length m.pages) r

abbrev pub IsValid : Mappings → Type 0
IsValid ms = Above 0 ms

-- What a mapping says of its page with the given index.
pub record PageView : Type 0 where
  pub backing : ℕ
  pub file_page : ℕ
  pub permissions : ℕ
  pub shared : Bool
  pub resident : Option UserPage

abbrev pub view_in : Mapping → ℕ → PageView
view_in m i = record {
  backing = m.backing;
  file_page = m.page_offset + i;
  permissions = m.permissions;
  shared = m.shared;
  resident = get_or m.pages i none;
}

abbrev pub covers : ℕ → Mapping → ℕ → Bool
covers k m p = leb k p && ltb p (k + length m.pages)

-- The page's view, from the mapping that covers it.
unfoldable pub view : Mappings → ℕ → Option PageView
view [] p = none
view ((k, m) ∷ r) p = if covers k m p then some (view_in m (p - k)) else view r p

pub view_below : (lo : ℕ) (ms : Mappings) (p : ℕ) → Above lo ms → p < lo → view ms p ≡ none
unfolding view
view_below lo [] p a h = refl
view_below lo ((k, m) ∷ r) p a h = ground (arith, view_below (k + length m.pages) r p)

pub Above-weaken : (lo lo' : ℕ) (ms : Mappings) → lo' ≤ lo → Above lo ms → Above lo' ms
Above-weaken lo lo' [] h a = tt
Above-weaken lo lo' ((k, m) ∷ r) h a = (omega arith, a.1, a.2)

module _ {ℓ} {A : Type ℓ} where
  get_or-take :
      (n : ℕ) (xs : List A) (i : ℕ) (d : A) → i < n → get_or (take n xs) i d ≡ get_or xs i d
  get_or-take zero xs i d h = absurd (omega arith)
  get_or-take (suc n) [] i d h = refl
  get_or-take (suc n) (x ∷ xs) zero d h = refl
  get_or-take (suc n) (x ∷ xs) (suc i) d h = get_or-take n xs i d (omega arith)

pub view_in-split_front :
    (m : Mapping) (n i : ℕ) → i < n → view_in (split_front m n) i ≡ view_in m i
view_in-split_front m n i h = ground (arith, get_or-take n m.pages i none)

pub view_in-split_back : (m : Mapping) (n i : ℕ) → view_in (split_back m n) i ≡ view_in m (n + i)
view_in-split_back m n i = ground (arith, get_or-drop n m.pages i none)
