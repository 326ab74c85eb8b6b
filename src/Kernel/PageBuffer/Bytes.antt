-- ===== src/Kernel/PageBuffer/Bytes.antt =====
-- The bytes of the pages of tee/kernel/src/memory/page/buffer.rs, by their index.
use mushroom.Prelude.{
  ℕ, zero, suc, ◌+◌, ◌-◌, ◌*◌, ◌/◌, ◌%◌, ◌≤◌, ◌<◌, ◌≡◌, refl, ◌&&◌, List, [], ◌∷◌, ◌++◌, length,
  length-append, length-take, length-drop, length-replicate, get_or, get_or-drop, set, take, drop,
  replicate, ltb, leb, ◌==◌, if◌then◌else◌, arith,
}
use mushroom.Kernel.PageBuffer.{page_size, Page, zeroed, copy_to}

pub get_or-append :
    (xs ys : List ℕ) (k : ℕ)
    → get_or (xs ++ ys) k 0
      ≡ (if ltb k (length xs) then get_or xs k 0 else get_or ys (k - length xs) 0)
get_or-append [] ys k = ground arith
get_or-append (x ∷ xs) ys zero = ground arith
get_or-append (x ∷ xs) ys (suc k) = ground (arith, get_or-append xs ys k)

pub get_or-take :
    (n : ℕ) (xs : List ℕ) (k : ℕ) → get_or (take n xs) k 0 ≡ (if ltb k n then get_or xs k 0 else 0)
get_or-take zero xs k = ground arith
get_or-take (suc n) [] k = ground arith
get_or-take (suc n) (x ∷ xs) zero = ground arith
get_or-take (suc n) (x ∷ xs) (suc k) = ground (arith, get_or-take n xs k)

pub get_or-replicate : (n k : ℕ) → get_or {A = ℕ} (replicate n 0) k 0 ≡ 0
get_or-replicate zero k = refl
get_or-replicate (suc n) zero = refl
get_or-replicate (suc n) (suc k) = get_or-replicate n k

-- The copied bytes, and around them the old ones.
pub get_or-copy_to :
    (dst : List ℕ) (at : ℕ) (src : List ℕ) (k : ℕ)
    → at + length src ≤ length dst
    → get_or (copy_to dst at src) k 0
      ≡ (if leb at k && ltb k (at + length src) then get_or src (k - at) 0 else get_or dst k 0)
unfolding copy_to
get_or-copy_to dst at src k h =
    let rest = drop (at + length src) dst in
    ground (
      arith,
      get_or-append (take at dst) (src ++ rest) k,
      length-take at dst,
      get_or-take at dst k,
      get_or-append src rest (k - at),
      get_or-drop (at + length src) dst (k - at - length src) 0,
    )

pub length-copy_to :
    (dst : List ℕ) (at : ℕ) (src : List ℕ)
    → at + length src ≤ length dst
    → length (copy_to dst at src) ≡ length dst
unfolding copy_to
length-copy_to dst at src h =
    let rest = drop (at + length src) dst in
    omega (
      arith,
      length-append (take at dst) (src ++ rest),
      length-append src rest,
      length-take at dst,
      length-drop (at + length src) dst,
    )

-- The byte with an index in the pages, 0 behind them.
abbrev pub byte_at : List Page → ℕ → ℕ
byte_at [] x = 0
byte_at (p ∷ ps) x = if ltb x page_size then get_or p x 0 else byte_at ps (x - page_size)

abbrev pub AllPages : List Page → Type 0
AllPages [] = Unit
AllPages (p ∷ ps) = (length p ≡ page_size) × AllPages ps

pub length-zeroed : length zeroed ≡ page_size
unfolding zeroed
length-zeroed = length-replicate {A = ℕ} page_size 0

get_or-zeroed : (k : ℕ) → get_or zeroed k 0 ≡ 0
unfolding zeroed
get_or-zeroed k = get_or-replicate page_size k

byte_at-zeroed : (n x : ℕ) → byte_at (replicate n zeroed) x ≡ 0
byte_at-zeroed zero x = refl
byte_at-zeroed (suc n) x = ground (arith, get_or-zeroed x, byte_at-zeroed n (x - page_size))

pub byte_at-append :
    (ps : List Page) (n x : ℕ) → byte_at (ps ++ replicate n zeroed) x ≡ byte_at ps x
byte_at-append [] n x = byte_at-zeroed n x
byte_at-append (p ∷ ps) n x = ground (arith, byte_at-append ps n (x - page_size))

pub AllPages-append : (ps : List Page) (n : ℕ) → AllPages ps → AllPages (ps ++ replicate n zeroed)
AllPages-append [] zero a = tt
AllPages-append [] (suc n) a = (length-zeroed, AllPages-append [] n tt)
AllPages-append (p ∷ ps) n a = (a.0, AllPages-append ps n a.1)

pub byte_at-take :
    (n : ℕ) (ps : List Page) (x : ℕ)
    → byte_at (take n ps) x ≡ (if ltb x (n * page_size) then byte_at ps x else 0)
byte_at-take zero ps x = ground arith
byte_at-take (suc n) [] x = ground arith
byte_at-take (suc n) (p ∷ ps) x = ground (arith, byte_at-take n ps (x - page_size))

pub AllPages-take : (n : ℕ) (ps : List Page) → AllPages ps → AllPages (take n ps)
AllPages-take zero ps a = tt
AllPages-take (suc n) [] a = tt
AllPages-take (suc n) (p ∷ ps) a = (a.0, AllPages-take n ps a.1)

pub byte_at-set :
    (ps : List Page) (k : ℕ) (q : Page) (x : ℕ)
    → k < length ps
    → byte_at (set ps k q) x
      ≡ (if x / page_size == k then get_or q (x % page_size) 0 else byte_at ps x)
byte_at-set [] k q x h = absurd (omega arith)
byte_at-set (p ∷ ps) zero q x h = ground arith
byte_at-set (p ∷ ps) (suc k) q x h = ground (arith, byte_at-set ps k q (x - page_size))

pub AllPages-set :
    (ps : List Page) (k : ℕ) (q : Page) → AllPages ps → length q ≡ page_size → AllPages (set ps k q)
AllPages-set [] k q a h = tt
AllPages-set (p ∷ ps) zero q a h = (h, a.1)
AllPages-set (p ∷ ps) (suc k) q a h = (a.0, AllPages-set ps k q a.1 h)

-- A page that is there, by its bytes.
pub get_or-byte_at :
    (ps : List Page) (k x : ℕ)
    → x < page_size
    → get_or (get_or ps k []) x 0 ≡ byte_at ps (k * page_size + x)
get_or-byte_at [] k x h = refl
get_or-byte_at (p ∷ ps) zero x h = ground arith
get_or-byte_at (p ∷ ps) (suc k) x h = ground (arith, get_or-byte_at ps k x h)

pub length-page_at :
    (ps : List Page) (k : ℕ) → AllPages ps → k < length ps → length (get_or ps k []) ≡ page_size
length-page_at [] k a h = absurd (omega arith)
length-page_at (p ∷ ps) zero a h = a.0
length-page_at (p ∷ ps) (suc k) a h = length-page_at ps k a.1 (omega arith)

pub byte_at_end : (ps : List Page) (x : ℕ) → length ps * page_size ≤ x → byte_at ps x ≡ 0
byte_at_end [] x h = refl
byte_at_end (p ∷ ps) x h = ground (arith, byte_at_end ps (x - page_size))
