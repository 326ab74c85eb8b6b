-- ===== src/Kernel/PageBuffer/Read.antt =====
-- `Buffer::read` of tee/kernel/src/memory/page/buffer.rs, byte by byte.
use mushroom.Prelude.{
  ℕ, ◌+◌, ◌-◌, ◌*◌, ◌≤◌, ◌<◌, ◌≡◌, refl, ◌∙◌, Bool, ◌&&◌, List, [], ◌∷◌, length, length-take,
  length-drop, get_or, get_or-drop, drop, min, ltb, leb, ◌==◌, if◌then◌else◌, inl, inr, Bool-cases,
  arith,
}
use mushroom.Kernel.PageBuffer.{
  page_size, Page, Buffer, copy_start, count, visits, copy_to, slice, read_page, read_pages, read,
}
use mushroom.Kernel.PageBuffer.Bytes.{
  get_or-take, get_or-copy_to, length-copy_to, byte_at, AllPages,
}
use mushroom.Kernel.PageBuffer.Reserve.{IsValid}

-- The byte with an index in the contents, 0 behind them.
abbrev pub content_at : Buffer → ℕ → ℕ
content_at b x = if ltb x b.len then byte_at b.pages x else 0

pub length-slice : (xs : List ℕ) (at n : ℕ) → at + n ≤ length xs → length (slice xs at n) ≡ n
length-slice xs at n h = omega (arith, length-take n (drop at xs), length-drop at xs)

pub get_or-slice :
    (xs : List ℕ) (at n k : ℕ) → k < n → get_or (slice xs at n) k 0 ≡ get_or xs (at + k) 0
get_or-slice xs at n k h = ground (arith, get_or-take n (drop at xs) k, get_or-drop at xs k 0)

-- A part of one list copied into another.
pub get_or-copy_slice :
    (dst src : List ℕ) (at from n k : ℕ)
    → at + n ≤ length dst
    → from + n ≤ length src
    → get_or (copy_to dst at (slice src from n)) k 0
      ≡ (if leb at k && ltb k (at + n) then get_or src (from + (k - at)) 0 else get_or dst k 0)
get_or-copy_slice dst src at from n k h j =
    let l = length-slice src from n j in
    ground (
      arith,
      l,
      get_or-copy_to dst at (slice src from n) k (omega (arith, l)),
      get_or-slice src from n (k - at),
    )

pub length-copy_slice :
    (dst src : List ℕ) (at from n : ℕ)
    → at + n ≤ length dst
    → from + n ≤ length src
    → length (copy_to dst at (slice src from n)) ≡ length dst
length-copy_slice dst src at from n h j =
    length-copy_to dst at (slice src from n) (omega (arith, length-slice src from n j))

-- The bytes of one page that the copy from `start` to `end` asks for.
abbrev pub in_page : ℕ → ℕ → ℕ → ℕ → Bool
in_page start end i x =
    leb start x && leb x end && leb (i * page_size) x && ltb x ((i + 1) * page_size)

module _ (start end i : ℕ) (p : Page) (dst : List ℕ) (whole : length p ≡ page_size)
    (h : start ≤ end) (fits : end < start + length dst) where
  length-read_page : length (read_page start end i p dst) ≡ length dst
  unfolding read_page
  length-read_page = elim (Bool-cases (visits i start end)) [
    | inl q ↦ rw q (
        length-copy_slice dst p (copy_start i start - start) (copy_start i start - i * page_size)
          (count i start end) (ground (arith, q)) (ground (arith, q)))
    | inr q ↦ rw q refl
  ]

  get_or-read_page :
      (k : ℕ)
      → get_or (read_page start end i p dst) k 0 ≡ (
          if in_page start end i (start + k)
          then get_or p (start + k - i * page_size) 0
          else get_or dst k 0)
  unfolding read_page
  get_or-read_page k = elim (Bool-cases (visits i start end)) [
    | inl q ↦
        let at = copy_start i start - start in
        let from = copy_start i start - i * page_size in
        let n = count i start end in
        rw q (
          get_or-copy_slice dst p at from n k (ground (arith, q)) (ground (arith, q))
          ∙ ground (arith, q))
    | inr q ↦ rw q (ground (arith, q))
  ]

-- The loop over the pages from number `i` on.
read_pages-loop :
    (start end i : ℕ) (ps : List Page) (dst : List ℕ)
    → AllPages ps
    → start ≤ end
    → end < start + length dst
    → (length (read_pages start end i ps dst) ≡ length dst)
      × ((k : ℕ)
          → get_or (read_pages start end i ps dst) k 0 ≡ (
              if leb (start + k) end
                && leb (i * page_size) (start + k)
                && ltb (start + k) ((i + length ps) * page_size)
              then byte_at ps (start + k - i * page_size)
              else get_or dst k 0))
unfolding read_pages
read_pages-loop start end i [] dst a h fits = (refl, λ k. ground arith)
read_pages-loop start end i (p ∷ ps) dst a h fits =
    let l = length-read_page start end i p dst a.0 h fits in
    let rest =
      read_pages-loop start end (i + 1) ps (read_page start end i p dst) a.1 h
        (omega (arith, l, fits)) in
    (rest.0 ∙ l, λ k. ground (arith, rest.1 k, get_or-read_page start end i p dst a.0 h fits k))

-- A read gives as many bytes of the contents from the offset on as there are and fit into the slice, and
-- leaves the rest of the slice.
pub read-content_at :
    (b : Buffer) (offset : ℕ) (buf : List ℕ)
    → IsValid b
    → ((read b offset buf).1 ≡ min (b.len - offset) (length buf))
      × (length (read b offset buf).0 ≡ length buf)
      × ((k : ℕ)
          → get_or (read b offset buf).0 k 0 ≡ (
              if ltb k (min (b.len - offset) (length buf))
              then content_at b (offset + k)
              else get_or buf k 0))
unfolding read
read-content_at b offset buf v =
    let len = min (b.len - offset) (length buf) in
    elim (Bool-cases (len == 0)) [
      | inl p ↦ rw p (ground (arith, p), refl, λ k. ground (arith, p))
      | inr p ↦
          let (l, r) =
            read_pages-loop offset (offset + len - 1) 0 b.pages buf v.0 (ground (arith, p))
              (ground (arith, p)) in
          rw p (refl, l, λ k. ground (arith, p, r k, v.1))
    ]
