-- ===== src/Kernel/PageBuffer/Page.antt =====
-- `Buffer::truncate` and `get_page` of tee/kernel/src/memory/page/buffer.rs, byte by byte.
use mushroom.Prelude.{
  ℕ, ◌+◌, ◌-◌, ◌*◌, ◌≤◌, ◌<◌, ◌≡◌, refl, ◌∙◌, sym, Bool, not, ◌&&◌, ◌||◌, length, get_or, ltb,
  if◌then◌else◌, inl, inr, ◌⊎◌, Bool-cases, arith,
}
use mathlib.Core.Path.{subst}
use mushroom.Prelude.ErrorKind.{no_mem, acces, Result, err, ok}
use mushroom.Kernel.PageBuffer.{
  page_size, Page, Buffer, and_then, reserve_zeroed, truncate, give_page, get_page,
}
use mushroom.Kernel.PageBuffer.Bytes.{byte_at, get_or-byte_at, length-page_at}
use mushroom.Kernel.PageBuffer.Reserve.{IsValid, Keeps, Clears, reserve_zeroed-Clears}
use mushroom.Kernel.PageBuffer.Read.{content_at}

-- What a truncation promises: the old bytes below the new length, zero in what it adds.
abbrev pub Truncates : Buffer → ℕ → Buffer × Result (Unit {0}) → Type 0
Truncates b len (c, err kind) = Keeps b c × (kind ≡ no_mem)
Truncates b len (c, ok u) =
    IsValid c
    × (c.len ≡ len)
    × ((x : ℕ) → content_at c x ≡ (if ltb x len then content_at b x else 0))

truncated :
    (b : Buffer) (len : ℕ) (r : Buffer × Result (Unit {0}))
    → Clears b (len - b.len) r
    → Truncates b len (and_then r (λ c. (record c { len = len }, ok tt)))
truncated b len (c, err kind) k = k
truncated b len (c, ok u) (k, h, z) = ((k.0.0, omega (arith, h)), refl, bytes)
  where
    bytes :
        (x : ℕ)
        → (if ltb x len then byte_at c.pages x else 0) ≡ (if ltb x len then content_at b x else 0)
    bytes x = elim (Bool-cases (ltb x b.len)) [
      | inl p ↦ ground (arith, p, k.2 x)
      | inr p ↦ elim (Bool-cases (ltb x len)) [
        | inl q ↦ rw (p, q) (z (ground (arith, p, q)) x (ground (arith, p)))
        | inr q ↦ rw q refl
      ]
    ]

-- A truncation of a valid buffer sets the length: the contents are the old bytes below it, and zero where it adds,
-- also after an earlier truncation to less. Without room it fails with the old contents.
pub truncate-Truncates :
    (room : ℕ → Bool) (b : Buffer) (len : ℕ) → IsValid b → Truncates b len (truncate room b len)
unfolding truncate
truncate-Truncates room b len v =
    truncated b len (reserve_zeroed room b (len - b.len))
      (reserve_zeroed-Clears room b (len - b.len) v)

-- What `get_page` promises.
abbrev pub Shows : Buffer → ℕ → Buffer × Result Page → Type 0
Shows b k (c, err kind) =
    Keeps b c × (((kind ≡ acces) × (length b.pages ≤ k)) ⊎ ((kind ≡ no_mem) × (k < length b.pages)))
Shows b k (c, ok p) =
    Keeps b c
    × (length p ≡ page_size)
    × ((x : ℕ) → x < page_size → get_or p x 0 ≡ content_at b (k * page_size + x))

shown :
    (shared cloned : Bool) (writable : ℕ → Bool) (b : Buffer) (k : ℕ)
    (r : Buffer × Result (Unit {0}))
    → k < length b.pages
    → Clears b ((k + 1) * page_size - b.len) r
    → Shows b k (and_then r (give_page shared cloned writable k))
shown shared cloned writable b k (c, err kind) i (s, e) = (s, inr (e, i))
shown shared cloned writable b k (c, ok u) i (s, h, z) =
    elim (Bool-cases ((shared && not (writable k)) || not cloned)) [
      | inl q ↦ rw q (s, inr (refl, i))
      | inr q ↦ rw q (
        s,
        length-page_at c.pages k s.0.0 (omega (arith, h)),
        λ x l. get_or-byte_at c.pages k x l ∙ bytes x l,
      )
    ]
  where
    bytes :
        (x : ℕ)
        → x < page_size
        → byte_at c.pages (k * page_size + x) ≡ content_at b (k * page_size + x)
    bytes x l = elim (Bool-cases (ltb (k * page_size + x) b.len)) [
      | inl p ↦ rw p (s.2 (k * page_size + x) (ground (arith, p)))
      | inr p ↦ rw p (z (ground (arith, p, l)) (k * page_size + x) (ground (arith, p)))
    ]

-- The page with a number, for a mapping of a valid buffer, has the contents of the buffer there and zero
-- behind their end, so that no byte of a truncated file shows; the contents stay. It fails with EACCES
-- exactly for a page that the buffer does not have, and otherwise only with ENOMEM.
pub get_page-Shows :
    (shared cloned : Bool) (room writable : ℕ → Bool) (b : Buffer) (k : ℕ)
    → IsValid b
    → Shows b k (get_page shared cloned room writable b k)
unfolding get_page
get_page-Shows shared cloned room writable b k v = elim (Bool-cases (ltb k (length b.pages))) [
  | inl p ↦
      let n = (k + 1) * page_size - b.len in
      let e : get_page shared cloned room writable b k
          ≡ and_then (reserve_zeroed room b n) (give_page shared cloned writable k) =
        rw p refl in
      subst (Shows b k) (sym e) (
        shown shared cloned writable b k (reserve_zeroed room b n) (ground (arith, p))
          (reserve_zeroed-Clears room b n v))
  | inr p ↦
      let e : get_page shared cloned room writable b k ≡ (b, err acces) = rw p refl in
      subst (Shows b k) (sym e) ((v, refl, λ x h. refl), inl (refl, ground (arith, p)))
]
