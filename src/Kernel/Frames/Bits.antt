-- ===== src/Kernel/Frames/Bits.antt =====
-- The bits of a chunk, in tee/kernel/src/memory/frame.rs: how many are set, and what setting and clearing
-- one changes.
use mushroom.Prelude.{
  ℕ, zero, suc, ◌+◌, ◌*◌, ◌/◌, ◌%◌, ◌≤◌, ◌<◌, ◌≡◌, refl, ◌∙◌, Bool, true, false, List, [], ◌∷◌,
  some, length, get_or, set, length-set, get_or-set, leb, leb→le, ◌==◌, if◌then◌else◌, inl, inr,
  Bool-cases, arith,
}
use mushroom.Kernel.Frames.{Word, trailing_ones, find_free}

abbrev pub ones : Word → ℕ
ones [] = 0
ones (b ∷ w) = (if b then 1 else 0) + ones w

abbrev pub used : List Word → ℕ
used [] = 0
used (w ∷ ws) = ones w + used ws

-- Every word has 64 bits.
abbrev pub AllWords : List Word → Type 0
AllWords [] = Unit
AllWords (w ∷ ws) = (length w ≡ 64) × AllWords ws

-- The bit with the given index in the chunk, and the chunk with that bit written.
abbrev pub bit_at : List Word → ℕ → Bool
bit_at ws i = get_or (get_or ws (i / 64) []) (i % 64) false

abbrev pub write_bit : List Word → ℕ → Bool → List Word
write_bit ws i b = set ws (i / 64) (set (get_or ws (i / 64) []) (i % 64) b)

pub ones-le : (w : Word) → ones w ≤ length w
ones-le [] = omega arith
ones-le (b ∷ w) = ground (arith, ones-le w)

pub used-le : (ws : List Word) → AllWords ws → used ws ≤ 64 * length ws
used-le [] a = omega arith
used-le (w ∷ ws) a = omega (arith, ones-le w, used-le ws a.1, a.0)

ones-set :
    (w : Word) (i : ℕ) (b : Bool)
    → i < length w
    → ones (set w i b) + (if get_or w i false then 1 else 0) ≡ ones w + (if b then 1 else 0)
ones-set [] i b h = absurd (omega arith)
ones-set (x ∷ w) zero b h = omega arith
ones-set (x ∷ w) (suc i) b h = omega (arith, ones-set w i b (omega arith))

used-set :
    (ws : List Word) (i : ℕ) (w : Word)
    → i < length ws
    → used (set ws i w) + ones (get_or ws i []) ≡ used ws + ones w
used-set [] i w h = absurd (omega arith)
used-set (x ∷ ws) zero w h = omega arith
used-set (x ∷ ws) (suc i) w h = omega (arith, used-set ws i w (omega arith))

word_length : (ws : List Word) (i : ℕ) → AllWords ws → i < length ws → length (get_or ws i []) ≡ 64
word_length [] i a h = absurd (omega arith)
word_length (w ∷ ws) zero a h = a.0
word_length (w ∷ ws) (suc i) a h = word_length ws i a.1 (omega arith)

AllWords-set :
    (ws : List Word) (i : ℕ) (w : Word) → AllWords ws → length w ≡ 64 → AllWords (set ws i w)
AllWords-set [] i w a h = tt
AllWords-set (x ∷ ws) zero w a h = (h, a.1)
AllWords-set (x ∷ ws) (suc i) w a h = (a.0, AllWords-set ws i w a.1 h)

-- Writing a bit of a chunk changes the count by that bit alone.
pub used-write_bit :
    (ws : List Word) (i : ℕ) (b : Bool)
    → AllWords ws
    → i < 64 * length ws
    → used (write_bit ws i b) + (if bit_at ws i then 1 else 0) ≡ used ws + (if b then 1 else 0)
used-write_bit ws i b a h =
    let k : i / 64 < length ws = omega arith in
    omega (
      arith,
      used-set ws (i / 64) (set (get_or ws (i / 64) []) (i % 64) b) k,
      ones-set (get_or ws (i / 64) []) (i % 64) b (omega (arith, word_length ws (i / 64) a k)),
    )

pub AllWords-write_bit :
    (ws : List Word) (i : ℕ) (b : Bool)
    → AllWords ws
    → i < 64 * length ws
    → AllWords (write_bit ws i b)
AllWords-write_bit ws i b a h =
    AllWords-set ws (i / 64) _ a
      (length-set (get_or ws (i / 64) []) (i % 64) b ∙ word_length ws (i / 64) a (omega arith))

pub length-write_bit : (ws : List Word) (i : ℕ) (b : Bool) → length (write_bit ws i b) ≡ length ws
length-write_bit ws i b = length-set ws (i / 64) _

-- A bit that is written reads back, and the others stay.
pub bit_at-write_bit :
    (ws : List Word) (i j : ℕ) (b : Bool)
    → AllWords ws
    → i < 64 * length ws
    → bit_at (write_bit ws i b) j ≡ (if i == j then b else bit_at ws j)
bit_at-write_bit ws i j b a h =
    let k : i / 64 < length ws = omega arith in
    ground (
      arith,
      get_or-set ws (i / 64) (j / 64) (set (get_or ws (i / 64) []) (i % 64) b) [] k,
      get_or-set (get_or ws (i / 64) []) (i % 64) (j % 64) b false
          (omega (arith, word_length ws (i / 64) a k)),
    )

trailing_ones-le : (w : Word) → trailing_ones w ≤ ones w
unfolding trailing_ones
trailing_ones-le [] = omega arith
trailing_ones-le (b ∷ w) = ground (arith, trailing_ones-le w)

trailing_ones_stop :
    (w : Word) → trailing_ones w < length w → get_or w (trailing_ones w) false ≡ false
unfolding trailing_ones
trailing_ones_stop [] h = refl
trailing_ones_stop (true ∷ w) h = trailing_ones_stop w (omega arith)
trailing_ones_stop (false ∷ w) h = refl

-- A free bit of a chunk, and the chunk with it set.
pub record Found (idx : ℕ) (ws : List Word) (r : List Word × ℕ) : Type 0 where
  pub index : ℕ
  pub number : r.1 ≡ idx * 64 + index
  pub in_range : index < 64 * length ws
  pub was_free : bit_at ws index ≡ false
  pub words : r.0 ≡ write_bit ws index true

next_word : (i : ℕ) → (64 + i) / 64 ≡ suc (i / 64)
next_word i = omega arith

same_bit : (i : ℕ) → (64 + i) % 64 ≡ i % 64
same_bit i = omega arith

first_word : (i : ℕ) → i < 64 → i / 64 ≡ 0
first_word i h = omega arith

low_bit : (i : ℕ) → i < 64 → i % 64 ≡ i
low_bit i h = omega arith

Found-later :
    (idx : ℕ) (w : Word) (ws : List Word) (r : List Word × ℕ)
    → Found (idx + 1) ws r
    → Found idx (w ∷ ws) (w ∷ r.0, r.1)
Found-later idx w ws r f = record {
  index = 64 + f.index;
  number = omega (arith, f.number);
  in_range = omega (arith, f.in_range);
  was_free = rw (next_word f.index, same_bit f.index) f.was_free;
  words = rw (next_word f.index, same_bit f.index, f.words) refl;
}

trailing_ones_lt :
    (w : Word) → length w ≡ 64 → leb 64 (trailing_ones w) ≡ false → trailing_ones w < 64
trailing_ones_lt w h p = ground (arith, p)

Found-here :
    (idx : ℕ) (w : Word) (ws : List Word)
    → length w ≡ 64
    → trailing_ones w < 64
    → Found idx (w ∷ ws) (set w (trailing_ones w) true ∷ ws, idx * 64 + trailing_ones w)
Found-here idx w ws a h = record {
  index = trailing_ones w;
  number = refl;
  in_range = omega arith;
  was_free =
      rw (first_word (trailing_ones w) h, low_bit (trailing_ones w) h)
        (trailing_ones_stop w (omega arith));
  words = rw (first_word (trailing_ones w) h, low_bit (trailing_ones w) h) refl;
}

-- In a chunk that is not all in use `find_free` finds a bit that is free, and sets it.
pub find_free-Found :
    (idx : ℕ) (ws : List Word)
    → AllWords ws
    → used ws < 64 * length ws
    → (r : List Word × ℕ) × (find_free idx ws ≡ some r) × Found idx ws r
unfolding find_free
find_free-Found idx [] a h = absurd (omega arith)
find_free-Found idx (w ∷ ws) a h = elim (Bool-cases (leb 64 (trailing_ones w))) [
  | inl p ↦
      let (r, e, f) =
        find_free-Found (idx + 1) ws a.1 (omega (arith, leb→le _ _ p, trailing_ones-le w)) in
      ((w ∷ r.0, r.1), rw (p, e) refl, Found-later idx w ws r f)
  | inr p ↦ (
    (set w (trailing_ones w) true ∷ ws, idx * 64 + trailing_ones w),
    rw p refl,
    Found-here idx w ws a.0 (trailing_ones_lt w a.0 p),
  )
]
