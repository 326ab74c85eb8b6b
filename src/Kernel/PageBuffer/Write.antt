-- ===== src/Kernel/PageBuffer/Write.antt =====
-- `Buffer::write` of tee/kernel/src/memory/page/buffer.rs, byte by byte.
use mushroom.Prelude.{
  ℕ, suc, ◌+◌, ◌-◌, ◌*◌, ◌≤◌, ◌<◌, ◌≡◌, refl, ap, ◌∙◌, sym, Bool, true, false, not, ◌&&◌, List, [],
  ◌∷◌, length, get_or, min, max, ltb, leb, ◌==◌, if◌then◌else◌, inl, inr, Bool-cases, arith,
}
use mathlib.Core.Path.{subst}
use mushroom.Prelude.ErrorKind.{no_mem, Result, err, ok}
use mushroom.Kernel.PageBuffer.{
  page_size, Page, Buffer, and_then, reserve, reserve_zeroed, copy_start, count, visits, write_page,
  write_pages, stored, store, write, read,
}
use mushroom.Kernel.PageBuffer.Bytes.{byte_at, AllPages}
use mushroom.Kernel.PageBuffer.Reserve.{
  IsValid, Keeps, Reserves, reserve-Reserves, Clears, reserve_zeroed-Clears,
}
use mushroom.Kernel.PageBuffer.Read.{
  content_at, get_or-copy_slice, length-copy_slice, read-content_at,
}

module _ (start end i : ℕ) (p : Page) (src : List ℕ) (whole : length p ≡ page_size)
    (h : start ≤ end) (fits : end < start + length src) where
  length-write_page : length (write_page start end i p src) ≡ page_size
  unfolding write_page
  length-write_page = elim (Bool-cases (visits i start end)) [
    | inl q ↦ rw q (
        length-copy_slice p src (copy_start i start - i * page_size) (copy_start i start - start)
          (count i start end) (ground (arith, q)) (ground (arith, q))
        ∙ whole)
    | inr q ↦ rw q whole
  ]

  get_or-write_page :
      (k : ℕ)
      → k < page_size
      → get_or (write_page start end i p src) k 0 ≡ (
          if leb start (i * page_size + k) && leb (i * page_size + k) end
          then get_or src (i * page_size + k - start) 0
          else get_or p k 0)
  unfolding write_page
  get_or-write_page k small = elim (Bool-cases (visits i start end)) [
    | inl q ↦
        let at = copy_start i start - i * page_size in
        let from = copy_start i start - start in
        let n = count i start end in
        rw q (
          get_or-copy_slice p src at from n k (ground (arith, q)) (ground (arith, q))
          ∙ ground (arith, q))
    | inr q ↦ rw q (ground (arith, q))
  ]

-- How the loop ends: behind the end of the copy, or for want of memory.
abbrev Ends : ℕ → ℕ → Result (Unit {0}) → Type 0
Ends end m (err kind) = kind ≡ no_mem
Ends end m (ok u) = end < m

-- What the loop over the pages from number `i` on promises: the bytes below some index are written.
abbrev Loop : ℕ → ℕ → ℕ → List Page → List ℕ → List Page × Result (Unit {0}) → Type 0
Loop start end i ps src r =
    AllPages r.0
    × (length r.0 ≡ length ps)
    × (m : ℕ) × (i * page_size ≤ m)
    × Ends end m r.1
    × ((x : ℕ)
        → x < length ps * page_size
        → byte_at r.0 x ≡ (
            if leb start (i * page_size + x)
              && (leb (i * page_size + x) end && ltb (i * page_size + x) m)
            then get_or src (i * page_size + x - start) 0
            else byte_at ps x))

write_pages-Loop :
    (writable : ℕ → Bool) (start end i : ℕ) (ps : List Page) (src : List ℕ)
    → AllPages ps
    → start ≤ end
    → end < start + length src
    → Loop start end i ps src (write_pages writable start end i ps src)
unfolding write_pages
write_pages-Loop writable start end i [] src a h fits =
    (tt, refl, i * page_size + end + 1, omega arith, omega arith, λ x s. absurd (omega arith))
write_pages-Loop writable start end i (p ∷ ps) src a h fits =
    let (b, l, m, low, e, r) = write_pages-Loop writable start end (i + 1) ps src a.1 h fits in
    elim (Bool-cases (visits i start end && not (writable i))) [
      | inl q ↦ rw (Loop, q) (a, refl, i * page_size, omega arith, refl, λ x s. ground arith)
      | inr q ↦
          rw (Loop, q)
            (
              (length-write_page start end i p src a.0 h fits, b),
              ap suc l,
              m,
              omega (arith, low),
              e,
              λ x s.
                  ground (
                    arith,
                    low,
                    r (x - page_size),
                    get_or-write_page start end i p src a.0 h fits x,
                  ),
            )
    ]

if_true {ℓ} : {A : Type ℓ} {t : Bool} {x : A} (y : A) → t ≡ true → (if t then x else y) ≡ x
if_true y p = rw p refl

if_false {ℓ} : {A : Type ℓ} {t : Bool} (x : A) {y : A} → t ≡ false → (if t then x else y) ≡ y
if_false x p = rw p refl

-- What a write promises: the bytes of the slice from the offset on, the old contents elsewhere, and zero
-- between their end and the offset; or an error, with the old length, after some of the bytes.
abbrev pub Overwrites : Buffer → ℕ → List ℕ → Buffer × Result ℕ → Type 0
Overwrites b offset buf (c, err kind) =
    IsValid c
    × (c.len ≡ b.len)
    × (kind ≡ no_mem)
    × (m : ℕ) × (m ≤ b.len)
    × (m ≤ offset + length buf)
    × ((x : ℕ)
        → content_at c x
          ≡ (if leb offset x && ltb x m then get_or buf (x - offset) 0 else content_at b x))
Overwrites b offset buf (c, ok n) =
    IsValid c
    × (n ≡ length buf)
    × (c.len ≡ (if length buf == 0 then b.len else max b.len (offset + length buf)))
    × ((x : ℕ)
        → content_at c x ≡ (
            if leb offset x && ltb x (offset + length buf)
            then get_or buf (x - offset) 0
            else content_at b x))

-- An error before any byte is written.
Keeps-Overwrites :
    (b c : Buffer) (offset : ℕ) (buf : List ℕ) → Keeps b c → Overwrites b offset buf (c, err no_mem)
Keeps-Overwrites b c offset buf (v, l, k) =
    (v, l, refl, 0, omega arith, omega arith, λ x. ground (arith, l, k x))

module _ (d : Buffer) (offset : ℕ) (buf : List ℕ) (ps : List Page) (m : ℕ) (pos : 0 < length buf)
    (room : offset + length buf ≤ length d.pages * page_size)
    (w : (x : ℕ)
      → x < length d.pages * page_size
      → byte_at ps x ≡ (
          if leb offset (0 * page_size + x)
            && (leb (0 * page_size + x) (offset + length buf - 1) && ltb (0 * page_size + x) m)
          then get_or buf (0 * page_size + x - offset) 0
          else byte_at d.pages x)) where
  stored_byte :
      (x : ℕ)
      → offset + length buf - 1 < m
      → d.len ≤ length d.pages * page_size
      → x < max d.len (offset + length buf)
      → byte_at ps x ≡ (
          if leb offset x && ltb x (offset + length buf)
          then get_or buf (x - offset) 0
          else byte_at d.pages x)
  stored_byte x e v h = elim (Bool-cases (leb offset x && ltb x (offset + length buf))) [
    | inl p ↦ rw p (ground (arith, p, w x, pos, room))
    | inr p ↦ rw p (ground (arith, p, w x, h, v, pos, room))
  ]

  stored_content :
      (x : ℕ)
      → offset + length buf - 1 < m
      → d.len ≤ length d.pages * page_size
      → (if ltb x (max d.len (offset + length buf)) then byte_at ps x else 0) ≡ (
          if leb offset x && ltb x (offset + length buf)
          then get_or buf (x - offset) 0
          else if ltb x (max d.len (offset + length buf))
          then byte_at d.pages x
          else 0)
  stored_content x e v = elim (Bool-cases (ltb x (max d.len (offset + length buf)))) [
    | inl p ↦ rw p (stored_byte x e v (ground (arith, p)))
    | inr p ↦ rw p (ground (arith, p))
  ]

  -- Where the loop failed only bytes below `m` are written.
  failed_content :
      (x : ℕ)
      → d.len ≤ length d.pages * page_size
      → (if ltb x d.len then byte_at ps x else 0) ≡ (
          if leb offset x && ltb x (min m (min d.len (offset + length buf)))
          then get_or buf (x - offset) 0
          else if ltb x d.len
          then byte_at d.pages x
          else 0)
  failed_content x v = elim (Bool-cases (ltb x d.len)) [
    | inl p ↦ rw p (ground (arith, p, w x, v, pos, room))
    | inr p ↦ rw p (ground (arith, p))
  ]

-- The bytes behind the old contents that a write does not cover.
old_content :
    (b d : Buffer) (offset n x : ℕ)
    → d.len ≡ b.len
    → (x < b.len → byte_at d.pages x ≡ byte_at b.pages x)
    → (b.len < offset → b.len ≤ x → byte_at d.pages x ≡ 0)
    → (leb offset x && ltb x (offset + n)) ≡ false
    → (if ltb x (max d.len (offset + n)) then byte_at d.pages x else 0) ≡ content_at b x
old_content b d offset n x e k z p = elim (Bool-cases (ltb x b.len)) [
  | inl q ↦ ground (arith, e, q, k)
  | inr q ↦ ground (arith, e, q, z, p)
]

module _ (b c d : Buffer) (offset : ℕ) (buf : List ℕ) (k : Keeps b c)
    (z : (x : ℕ) → b.len < offset → b.len ≤ x → byte_at c.pages x ≡ 0) (pos : 0 < length buf)
    (v : IsValid d) (e : d.len ≡ c.len) (fits : offset + length buf ≤ length d.pages * page_size)
    (s : (x : ℕ) → byte_at d.pages x ≡ byte_at c.pages x) where
  same_content : (x : ℕ) → content_at d x ≡ content_at b x
  same_content x = ground (arith, e, k.1, s x, k.2 x)

  stored-Overwrites :
      (r : List Page × Result (Unit {0}))
      → Loop offset (offset + length buf - 1) 0 d.pages buf r
      → Overwrites b offset buf (stored offset buf d r)
  stored-Overwrites (ps, err kind) (a, l, m, low, end, w) = (
    (a, omega (arith, l, v.1)),
    e ∙ k.1,
    end,
    min m (min d.len (offset + length buf)),
    omega (arith, e, k.1),
    omega arith,
    λ x. failed_content d offset buf ps m pos fits w x v.1 ∙ rw (same_content x) refl,
  )
  stored-Overwrites (ps, ok u) (a, l, m, low, end, w) =
      ((a, omega (arith, l, v.1, fits)), refl, ground (arith, pos, e, k.1), content)
    where
      content :
          (x : ℕ)
          → (if ltb x (max d.len (offset + length buf)) then byte_at ps x else 0) ≡ (
              if leb offset x && ltb x (offset + length buf)
              then get_or buf (x - offset) 0
              else content_at b x)
      content x = elim (Bool-cases (leb offset x && ltb x (offset + length buf))) [
        | inl p ↦ stored_content d offset buf ps m pos fits w x end v.1 ∙ (rw p refl)
        | inr p ↦
            stored_content d offset buf ps m pos fits w x end v.1
            ∙ (rw p (
                old_content b d offset (length buf) x (e ∙ k.1) (λ h. s x ∙ k.2 x h)
                  (λ g h. s x ∙ z x g h) p))
      ]

reserved :
    (writable : ℕ → Bool) (b c : Buffer) (offset : ℕ) (buf : List ℕ)
    (r : Buffer × Result (Unit {0}))
    → Keeps b c
    → ((x : ℕ) → b.len < offset → b.len ≤ x → byte_at c.pages x ≡ 0)
    → 0 < length buf
    → Reserves c (offset + length buf - c.len) r
    → Overwrites b offset buf (and_then r (store writable offset buf))
reserved writable b c offset buf (d, err kind) k z pos (e, q) =
    rw q (Keeps-Overwrites b d offset buf (subst (Keeps b) (sym e) k))
reserved writable b c offset buf (d, ok u) k z pos (v, e, room, s) =
    let fits : offset + length buf ≤ length d.pages * page_size = omega (arith, room) in
    stored-Overwrites b c d offset buf k z pos v e fits s
      (write_pages writable offset (offset + length buf - 1) 0 d.pages buf)
      (write_pages-Loop writable offset (offset + length buf - 1) 0 d.pages buf v.0
        (omega (arith, pos)) (omega (arith, pos)))

written :
    (room writable : ℕ → Bool) (b : Buffer) (offset : ℕ) (buf : List ℕ)
    (r : Buffer × Result (Unit {0}))
    → Clears b (offset - b.len) r
    → Overwrites b offset buf (
        and_then r (λ c.
          if length buf == 0
          then (c, ok 0)
          else and_then (reserve room c (offset + length buf - c.len)) (store writable offset buf)))
written room writable b offset buf (c, err kind) (k, q) = rw q (Keeps-Overwrites b c offset buf k)
written room writable b offset buf (c, ok u) (k, h, z) = elim (Bool-cases (length buf == 0)) [
  | inl p ↦
      subst (Overwrites b offset buf) (sym (if_true _ p))
        (k.0, ground (arith, p), ground (arith, p, k.1), λ x. ground (arith, p, k.1, k.2 x))
  | inr p ↦ subst (Overwrites b offset buf) (sym (if_false _ p)) (
      reserved writable b c offset buf (reserve room c (offset + length buf - c.len)) k
        (λ x g i. z (omega (arith, g)) x i) (ground (arith, p))
        (reserve-Reserves room c (offset + length buf - c.len) k.0))
]

-- A write to a valid buffer, with any heap, leaves it valid. It gives the length of the slice, and the
-- contents are then the slice from the offset on, zero between the old end and the offset, also where an
-- earlier truncation left old bytes there, and the old bytes elsewhere. Or it fails with ENOMEM and the
-- old length, and no byte changed but that bytes of the slice up to some index may be written.
pub write-Overwrites :
    (room writable : ℕ → Bool) (b : Buffer) (offset : ℕ) (buf : List ℕ)
    → IsValid b
    → Overwrites b offset buf (write room writable b offset buf)
unfolding write
write-Overwrites room writable b offset buf v =
    written room writable b offset buf (reserve_zeroed room b (offset - b.len))
      (reserve_zeroed-Clears room b (offset - b.len) v)

-- What a write to a valid buffer that succeeds has written is what a read of as many bytes at the same offset
-- gives.
pub read-write :
    (room writable : ℕ → Bool) (b c : Buffer) (offset : ℕ) (buf : List ℕ) (n : ℕ)
    → IsValid b
    → write room writable b offset buf ≡ (c, ok n)
    → (dst : List ℕ) → length dst ≡ length buf
    → ((read c offset dst).1 ≡ length buf)
      × ((k : ℕ) → k < length buf → get_or (read c offset dst).0 k 0 ≡ get_or buf k 0)
read-write room writable b c offset buf n v e dst same =
    let w = subst (Overwrites b offset buf) e (write-Overwrites room writable b offset buf v) in
    let r = read-content_at c offset dst w.0 in
    (ground (arith, r.0, same, w.2), λ k h. ground (arith, r.2 k, same, w.2, w.3 (offset + k)))
