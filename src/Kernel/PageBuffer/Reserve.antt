-- ===== src/Kernel/PageBuffer/Reserve.antt =====
-- `Buffer::reserve` and `reserve_zeroed` of tee/kernel/src/memory/page/buffer.rs.
use mushroom.Prelude.{
  ℕ, ◌+◌, ◌-◌, ◌*◌, ◌/◌, ◌%◌, ◌≤◌, ◌<◌, ◌≡◌, refl, ◌∙◌, sym, Bool, ◌&&◌, [], ◌++◌, length,
  length-append, length-take, length-set, length-replicate, get_or, take, replicate, ltb, leb, ◌==◌,
  if◌then◌else◌, inl, inr, Bool-cases, arith,
}
use mathlib.Core.Path.{subst}
use mushroom.Prelude.ErrorKind.{no_mem, Result, err, ok}
use mushroom.Kernel.PageBuffer.{
  page_size, Page, Buffer, zeroed, div_ceil, reserve, zero_from, zero_tail, reserve_zeroed,
}
use mushroom.Kernel.PageBuffer.Bytes.{
  get_or-append, get_or-take, get_or-replicate, byte_at, AllPages, byte_at-append, AllPages-append,
  byte_at-take, AllPages-take, byte_at-set, AllPages-set, get_or-byte_at, length-page_at,
  byte_at_end,
}

-- All pages are whole, and the contents lie in them.
abbrev pub IsValid : Buffer → Type 0
IsValid b = AllPages b.pages × (b.len ≤ length b.pages * page_size)

-- The buffer has the same contents.
abbrev pub Keeps : Buffer → Buffer → Type 0
Keeps b c =
    IsValid c × (c.len ≡ b.len) × ((x : ℕ) → x < b.len → byte_at c.pages x ≡ byte_at b.pages x)

-- What `reserve` promises: room, and the same bytes; or an error and no change.
abbrev pub Reserves : Buffer → ℕ → Buffer × Result (Unit {0}) → Type 0
Reserves b n (c, err kind) = (c ≡ b) × (kind ≡ no_mem)
Reserves b n (c, ok u) =
    IsValid c
    × (c.len ≡ b.len)
    × (b.len + n ≤ length c.pages * page_size)
    × ((x : ℕ) → byte_at c.pages x ≡ byte_at b.pages x)

pub reserve-Reserves :
    (room : ℕ → Bool) (b : Buffer) (n : ℕ) → IsValid b → Reserves b n (reserve room b n)
unfolding reserve
reserve-Reserves room b n v =
    let new_pages = div_ceil (b.len + n) - length b.pages in
    elim (Bool-cases (n == 0)) [
      | inl p ↦
          let e : reserve room b n ≡ (b, ok tt) = rw p refl in
          subst (Reserves b n) (sym e) (v, refl, ground (arith, p, v.1), λ x. refl)
      | inr p ↦ elim (Bool-cases (room new_pages)) [
        | inl q ↦
            let e : reserve room b n
                ≡ (record b { pages = b.pages ++ replicate new_pages zeroed }, ok tt) =
              rw (p, q) refl in
            let l : length (b.pages ++ replicate new_pages zeroed) ≡ length b.pages + new_pages =
              omega (
                arith,
                length-append b.pages (replicate new_pages zeroed),
                length-replicate new_pages zeroed,
              ) in
            subst (Reserves b n) (sym e) (
              (AllPages-append b.pages new_pages v.0, omega (arith, l, v.1)),
              refl,
              omega (arith, l),
              λ x. byte_at-append b.pages new_pages x,
            )
        | inr q ↦
            let e : reserve room b n ≡ (b, err no_mem) = rw (p, q) refl in
            subst (Reserves b n) (sym e) (refl, refl)
      ]
    ]

-- And `reserve_zeroed`: besides that, no byte behind the contents has an old value.
abbrev pub Clears : Buffer → ℕ → Buffer × Result (Unit {0}) → Type 0
Clears b n (c, err kind) = Keeps b c × (kind ≡ no_mem)
Clears b n (c, ok u) =
    Keeps b c
    × (b.len + n ≤ length c.pages * page_size)
    × (0 < n → (x : ℕ) → b.len ≤ x → byte_at c.pages x ≡ 0)

-- The pages up to the end of the contents, zero behind it.
abbrev cut : Buffer → Buffer
cut b = record b { pages = take (div_ceil b.len) (zero_tail b) }

length-zero_from :
    (start : ℕ) (p : Page)
    → length p ≡ page_size
    → start ≤ page_size
    → length (zero_from start p) ≡ page_size
unfolding zero_from
length-zero_from start p e h = omega (
  arith,
  length-append (take start p) (replicate (page_size - start) 0),
  length-take start p,
  length-replicate {A = ℕ} (page_size - start) 0,
)

get_or-zero_from :
    (start : ℕ) (p : Page) (k : ℕ)
    → length p ≡ page_size
    → start ≤ page_size
    → get_or (zero_from start p) k 0 ≡ (if ltb k start then get_or p k 0 else 0)
unfolding zero_from
get_or-zero_from start p k e h = ground (
  arith,
  get_or-append (take start p) (replicate (page_size - start) 0) k,
  length-take start p,
  get_or-take start p k,
  get_or-replicate (page_size - start) (k - start),
)

byte_at-zero_tail :
    (b : Buffer) (x : ℕ)
    → IsValid b
    → byte_at (zero_tail b) x
      ≡ (if leb b.len x && ltb x (div_ceil b.len * page_size) then 0 else byte_at b.pages x)
unfolding zero_tail
byte_at-zero_tail b x v = elim (Bool-cases (b.len % page_size == 0)) [
  | inl p ↦ rw p (ground (arith, p, byte_at_end b.pages x))
  | inr p ↦
      let k : b.len / page_size < length b.pages = ground (arith, p, v.1) in
      rw p (
        ground (
          arith,
          p,
          byte_at-set b.pages (b.len / page_size)
              (zero_from (b.len % page_size) (get_or b.pages (b.len / page_size) [])) x k,
          get_or-zero_from (b.len % page_size) (get_or b.pages (b.len / page_size) [])
              (x % page_size) (length-page_at b.pages (b.len / page_size) v.0 k) (omega arith),
          get_or-byte_at b.pages (b.len / page_size) (x % page_size) (omega arith),
        ))
]

AllPages-zero_tail :
    (b : Buffer) → IsValid b → AllPages (zero_tail b) × (length (zero_tail b) ≡ length b.pages)
unfolding zero_tail
AllPages-zero_tail b v = elim (Bool-cases (b.len % page_size == 0)) [
  | inl p ↦ rw p (v.0, refl)
  | inr p ↦ rw p (
    AllPages-set b.pages (b.len / page_size) _ v.0 (
        length-zero_from (b.len % page_size) (get_or b.pages (b.len / page_size) [])
          (length-page_at b.pages (b.len / page_size) v.0 (ground (arith, p, v.1))) (omega arith)),
    length-set b.pages (b.len / page_size) _,
  )
]

cut-Keeps :
    (b : Buffer)
    → IsValid b
    → Keeps b (cut b) × ((x : ℕ) → b.len ≤ x → byte_at ((cut b).pages) x ≡ 0)
cut-Keeps b v =
    let (a, l) = AllPages-zero_tail b v in
    (
      (
        (
          AllPages-take (div_ceil b.len) (zero_tail b) a,
          omega (arith, l, v.1, length-take (div_ceil b.len) (zero_tail b)),
        ),
        refl,
        λ x h.
            ground (arith, byte_at-take (div_ceil b.len) (zero_tail b) x, byte_at-zero_tail b x v),
      ),
      λ x h. ground (arith, byte_at-take (div_ceil b.len) (zero_tail b) x, byte_at-zero_tail b x v),
    )

cleared :
    (b c : Buffer) (n : ℕ) (r : Buffer × Result (Unit {0}))
    → Keeps b c
    → ((x : ℕ) → b.len ≤ x → byte_at c.pages x ≡ 0)
    → Reserves c n r
    → Clears b n r
cleared b c n (d, err kind) k z (e, q) = (rw e k, q)
cleared b c n (d, ok u) k z (v, e, h, s) =
    ((v, e ∙ k.1, λ x i. s x ∙ k.2 x i), omega (arith, h, k.1), λ p x i. s x ∙ z x i)

pub reserve_zeroed-Clears :
    (room : ℕ → Bool) (b : Buffer) (n : ℕ) → IsValid b → Clears b n (reserve_zeroed room b n)
unfolding reserve_zeroed
reserve_zeroed-Clears room b n v = elim (Bool-cases (n == 0)) [
  | inl p ↦
      let e : reserve_zeroed room b n ≡ (b, ok tt) = rw p refl in
      subst (Clears b n) (sym e)
        ((v, refl, λ x h. refl), ground (arith, p, v.1), λ h. absurd (ground (arith, p, h)))
  | inr p ↦
      let (k, z) = cut-Keeps b v in
      let e : reserve_zeroed room b n ≡ reserve room (cut b) n = rw p refl in
      subst (Clears b n) (sym e)
        (cleared b (cut b) n (reserve room (cut b) n) k z (reserve-Reserves room (cut b) n k.0))
]
