-- ===== src/Services/CommandBuffer/Ring.antt =====
-- Windows of the byte ring of command_buffer.rs: what its loops read and write.
use mathlib.Core.List.{append_assoc, append-nil}
use mathlib.Core.Path.{ap₂}
use mushroom.Prelude.{
  ℕ, zero, suc, ◌+◌, ◌-◌, ◌%◌, ◌<◌, ◌≡◌, refl, List, [], ◌∷◌, ◌++◌, arith, length,
}
use mushroom.Services.CommandBuffer.{size, next_index, update, write_bytes, read_bytes, available}

-- The `n` bytes from index `i` on.
unfoldable pub window : (ℕ → ℕ) → ℕ → ℕ → List ℕ
window buf i zero = []
window buf i (suc n) = buf i ∷ window buf (next_index i) n

pub length-window : (buf : ℕ → ℕ) (i n : ℕ) → length (window buf i n) ≡ n
unfolding window
length-window buf i zero = refl
length-window buf i (suc n) = ground (arith, length-window buf (next_index i) n)

-- The number of bytes between the two indices.
abbrev pub used : ℕ → ℕ → ℕ
used completed pending = (pending + size - completed) % size

pub available_lem : (c p : ℕ) → c < size → p < size → available c p + used c p + 1 ≡ size
unfolding available
available_lem c p hc hp = ground arith

pub read_bytes-window :
    (buf : ℕ → ℕ) (i n : ℕ) → i < size → read_bytes buf i n ≡ (window buf i n, (i + n) % size)
unfolding read_bytes window
read_bytes-window buf i zero h = λ k. ([], index k)
  where
    index : i ≡ (i + 0) % size
    index = omega arith
read_bytes-window buf i (suc n) h =
    ground (arith, read_bytes-window buf (next_index i) n (ground arith))

-- Writing just past a window extends it by that byte.
window-update :
    (buf : ℕ → ℕ) (x n i p : ℕ)
    → i < size
    → n < size
    → p ≡ (i + n) % size
    → window (update buf p x) i (suc n) ≡ window buf i n ++ x ∷ []
unfolding window
window-update buf x zero i p hi hn e = ground arith
window-update buf x (suc n) i p hi hn e =
    ap₂ ◌∷◌ (ground arith)
      (window-update buf x n (next_index i) p (ground arith) (omega arith) (ground arith))

-- The writer's loop appends its bytes to the window, and steps the index past them.
pub window-write_bytes :
    (buf : ℕ → ℕ) (xs : List ℕ) (i n p : ℕ)
    → i < size
    → n + length xs < size
    → p ≡ (i + n) % size
    → (window (write_bytes buf p xs).0 i (n + length xs) ≡ window buf i n ++ xs)
      × ((write_bytes buf p xs).1 ≡ (i + (n + length xs)) % size)
unfolding write_bytes
window-write_bytes buf [] i n p hi hn e = ground (arith, append-nil (window buf i n))
window-write_bytes buf (x ∷ xs) i n p hi hn e = ground (
  arith,
  window-write_bytes (update buf p x) xs i (suc n) (next_index p),
  window-update buf x n i p,
  append_assoc (window buf i n) (x ∷ []) xs,
)

-- A window that starts with given bytes is these bytes and the window behind them.
pub window_split :
    (buf : ℕ → ℕ) (xs ys : List ℕ) (i n : ℕ)
    → i < size
    → window buf i n ≡ xs ++ ys
    → (window buf i (length xs) ≡ xs) × (window buf ((i + length xs) % size) (n - length xs) ≡ ys)
unfolding window
window_split buf [] ys i n h e = (refl, ground arith)
window_split buf (x ∷ xs) ys i zero h e = cc
window_split buf (x ∷ xs) ys i (suc n) h e = ground (arith, window_split buf xs ys (next_index i) n)

-- Bytes that start with `x` are `x` and what the reader gets from the next index.
pub window_head :
    (buf : ℕ → ℕ) (x : ℕ) (xs : List ℕ) (i n : ℕ)
    → i < size
    → n ≡ length xs
    → window buf i (suc (length xs)) ≡ x ∷ xs
    → (buf i ≡ x) × (read_bytes buf (next_index i) n ≡ (xs, (i + suc (length xs)) % size))
unfolding window
window_head buf x xs i n h l e =
    rw l (ground (arith, read_bytes-window buf (next_index i) (length xs)))
