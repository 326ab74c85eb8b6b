-- ===== src/Kernel/KernelPage/Alone.antt =====
-- Copy on write, in tee/kernel/src/memory/page/kernel.rs: nobody else sees what is written to a page that
-- `make_mut` has made mutable.
use mushroom.Prelude.{
  ℕ, ◌+◌, ◌-◌, ◌<◌, ◌≤◌, ◌≡◌, ◌≢◌, refl, ap, ◌∙◌, sym, Bool, true, false, List, Option, none, some,
  length, length-set, get_or, set, get_or-set, ◌==◌, ==_iff, if◌then◌else◌, inl, inr, Bool-cases,
  arith,
}
use mushroom.Prelude.ErrorKind.{no_mem, err, ok, Result}
use mushroom.Kernel.KernelPage.{
  Cell, freed, content, KernelPage, Pages, zeroed, page_at, cell_at, is_zero_page, mutable,
  with_counter, counter, bytes_of, release, copy, make_mut,
}
use mushroom.Kernel.KernelPage.Counts.{owners, sharers, has_two}
use mushroom.Kernel.KernelPage.Valid.{
  IsValid, cell_at-append, Holds, Holds-in_range, page_address, page-Holds,
}
use mushroom.Kernel.KernelPage.Copy.{length-release, make_mut-IsValid, zero_page}

-- What a page of the state has for its contents.
abbrev pub bytes_at : Pages → ℕ → List ℕ
bytes_at p j = bytes_of (cell_at p.cells (page_at p j).address)

-- The page is alone with its allocation.
abbrev pub IsAlone : Pages → ℕ → Type 0
IsAlone p k = (j : ℕ) → j < length p.pages → j ≢ k → (page_at p j).address ≢ (page_at p k).address

pub mutable-IsAlone :
    (p : Pages) (k : ℕ)
    → IsValid p
    → k < length p.pages
    → mutable (page_at p k) false ≡ true
    → IsAlone p k
unfolding mutable
mutable-IsAlone p k v i m j l n e = elim (Bool-cases (is_zero_page (page_at p k))) [
  | inl z ↦ ground (arith, z, m)
  | inr z ↦ go z (page-Holds p k v i z)
]
  where
    two : 2 ≤ owners p.pages (page_at p k).address + sharers p.pages (page_at p k).address
    two = has_two p.pages j k (page_at p k).address l i n e refl

    go : is_zero_page (page_at p k) ≡ false → Holds p (page_at p k) → ⊥
    go z (inl (b, q, c, x, y)) = omega (arith, two, x, y)
    go z (inr (b, s, q, c, x, y, o)) = ground (arith, z, q, m)

-- Giving up a page changes no other allocation than its own.
cell_at-release :
    (h : KernelPage) (cells : List Cell) (a : ℕ)
    → h.address < length cells
    → (h.address == a) ≡ false
    → cell_at (release h cells) a ≡ cell_at cells a
unfolding release
cell_at-release h cells a r s = ground (
  arith,
  s,
  get_or-set cells h.address a freed freed r,
  get_or-set cells h.address a
      (with_counter (cell_at cells h.address) (some (counter (cell_at cells h.address) - 1))) freed
      r,
)

page_at-set :
    (hs : List KernelPage) (k j : ℕ) (h d : KernelPage)
    → k < length hs
    → get_or (set hs k h) j d ≡ (if k == j then h else get_or hs j d)
page_at-set hs k j h d i = get_or-set hs k j h d i

-- An allocation that loses its counter keeps its bytes.
bytes-set :
    (cells : List Cell) (at a : ℕ) (b : List ℕ) (n : Option ℕ)
    → at < length cells
    → cell_at cells at ≡ content b n
    → bytes_of (cell_at (set cells at (content b none)) a) ≡ bytes_of (cell_at cells a)
bytes-set cells at a b n r e = elim (Bool-cases (at == a)) [
  | inl s ↦
      rw (get_or-set cells at a (content b none) freed r, s)
        (sym (ap bytes_of (ap (cell_at cells) (sym ((==_iff at a).0 s)) ∙ e)))
  | inr s ↦ rw (get_or-set cells at a (content b none) freed r, s) refl
]

mutable_owned : (h : KernelPage) → h.counted ≡ false → 0 < h.address → mutable h false ≡ true
unfolding mutable is_zero_page
mutable_owned h q pos = ground (arith, q, pos)

-- What `make_mut` of a page for itself promises: the page is alone with its allocation, and it and every
-- other page keep their bytes; or there is no room and no change.
abbrev pub Makes : Pages → ℕ → Pages × Result (Unit {0}) → Type 0
Makes p k (q, err kind) = (q ≡ p) × (kind ≡ no_mem)
Makes p k (q, ok u) =
    (length q.pages ≡ length p.pages)
    × (mutable (page_at q k) false ≡ true)
    × ((j : ℕ) → j < length p.pages → bytes_at q j ≡ bytes_at p j)

module _ (p : Pages) (k : ℕ) (v : IsValid p) (i : k < length p.pages) where
  -- Giving up one page keeps the bytes of every other.
  bytes-release :
      (j : ℕ)
      → j < length p.pages
      → j ≢ k
      → bytes_of (cell_at (release (page_at p k) p.cells) (page_at p j).address) ≡ bytes_at p j
  unfolding release
  bytes-release j l n = elim (Bool-cases (is_zero_page (page_at p k))) [
    | inl z ↦ rw (release, z) refl
    | inr z ↦ elim (Bool-cases ((page_at p k).address == (page_at p j).address)) [
      | inl s ↦ same z ((==_iff _ _).0 s) (page-Holds p k v i z)
      | inr s ↦ ap bytes_of (
          cell_at-release (page_at p k) p.cells (page_at p j).address
            (Holds-in_range p (page_at p k) (page-Holds p k v i z)) s)
    ]
  ]
    where
      same :
          is_zero_page (page_at p k) ≡ false
          → (page_at p k).address ≡ (page_at p j).address
          → Holds p (page_at p k)
          → bytes_of (cell_at (release (page_at p k) p.cells) (page_at p j).address) ≡ bytes_at p j
      same z s (inl (b, q, c, x, y)) =
          absurd (omega (arith, has_two p.pages j k (page_at p k).address l i n (sym s) refl, x, y))
      same z s (inr (b, m, q, c, x, y, o)) =
          let two = has_two p.pages j k (page_at p k).address l i n (sym s) refl in
          let r = Holds-in_range p (page_at p k) (inr (b, m, q, c, x, y, o)) in
          let e : (m == 1) ≡ false = ground (arith, two, x, y) in
          rw
            (
              ← s,
              release,
              z,
              q,
              c,
              e,
              get_or-set p.cells (page_at p k).address (page_at p k).address
                  (content b (some (m - 1))) freed r,
            )
            (ground arith)

  in_cells : (j : ℕ) → j < length p.pages → (page_at p j).address < length p.cells
  in_cells j l = elim (Bool-cases (is_zero_page (page_at p j))) [
    | inl z ↦ omega (arith, zero_page p j v l z, v.2)
    | inr z ↦ Holds-in_range p (page_at p j) (page-Holds p j v l z)
  ]

  same_address :
      (h : KernelPage)
      → h.address ≡ (page_at p k).address
      → (j : ℕ) → (page_at p j).address ≡ (if k == j then h else page_at p j).address
  same_address h e j = elim (Bool-cases (k == j)) [
    | inl s ↦ rw s (ap (λ n. (page_at p n).address) (sym ((==_iff k j).0 s)) ∙ sym e)
    | inr s ↦ rw s refl
  ]

  copy-Makes : (room : Bool) → Makes p k (copy room k p)
  unfolding copy
  copy-Makes false = (refl, refl)
  copy-Makes true =
      let new : KernelPage = record { address = length p.cells; counted = false } in
      (
        length-set p.pages k new,
        rw (page_at-set p.pages k k new zeroed i, (==_iff k k).1 refl) (mutable_owned new refl v.2),
        bytes,
      )
    where
      bytes : (j : ℕ) → j < length p.pages → bytes_at (copy true k p).0 j ≡ bytes_at p j
      bytes j l =
          let new : KernelPage = record { address = length p.cells; counted = false } in
          let b = content (bytes_at p k) none in
          let e = length-release p k v i in
          elim (Bool-cases (k == j)) [
            | inl s ↦
                rw
                  (
                    page_at-set p.pages k j new zeroed i,
                    s,
                    cell_at-append (release (page_at p k) p.cells) b (length p.cells),
                    e,
                  )
                  (rw ((==_iff (length p.cells) (length p.cells)).1 refl)
                    (ap (bytes_at p) ((==_iff k j).0 s)))
            | inr s ↦
                let f : ((page_at p j).address == length (release (page_at p k) p.cells)) ≡ false =
                  ground (arith, e, in_cells j l) in
                rw
                  (
                    page_at-set p.pages k j new zeroed i,
                    s,
                    cell_at-append (release (page_at p k) p.cells) b (page_at p j).address,
                    f,
                  )
                  (bytes-release j l (λ g. ground (arith, g, s)))
          ]

  make_mut-Makes : (room : Bool) → Makes p k (make_mut room k false p)
  unfolding make_mut
  make_mut-Makes room = elim (Bool-cases (is_zero_page (page_at p k))) [
    | inl z ↦ rw (make_mut, z) (copy-Makes room)
    | inr z ↦ go z (page_address p k v i z) (page-Holds p k v i z)
  ]
    where
      go :
          is_zero_page (page_at p k) ≡ false
          → 0 < (page_at p k).address
          → Holds p (page_at p k)
          → Makes p k (make_mut room k false p)
      go z pos (inl (b, q, e, x, y)) =
          rw (make_mut, z, q) (refl, mutable_owned (page_at p k) q pos, λ j l. refl)
      go z pos (inr (b, n, q, e, x, y, l)) = elim (Bool-cases (n == 1)) [
        | inl m ↦
            let new : KernelPage = record { address = (page_at p k).address; counted = false } in
            let r = Holds-in_range p (page_at p k) (inr (b, n, q, e, x, y, l)) in
            rw (make_mut, z, q, e, m)
              (
                length-set p.pages k new,
                rw (page_at-set p.pages k k new zeroed i, (==_iff k k).1 refl)
                    (mutable_owned new refl pos),
                λ j g.
                    rw (page_at-set p.pages k j new zeroed i, ← same_address new refl j)
                      (bytes-set p.cells new.address (page_at p j).address b (some n) r e),
              )
        | inr m ↦ rw (make_mut, z, q, e, m) (copy-Makes room)
      ]

  -- In a valid state, a page that there is and that is made mutable for itself has an allocation that no other page has; it and every other
  -- page keep their bytes, and the counters stay true to the pages. Without room, where a copy is due,
  -- nothing changes.
  pub make_mut-IsAlone :
      (room : Bool)
      → Makes p k (make_mut room k false p)
        × IsValid (make_mut room k false p).0
        × ((make_mut room k false p).1 ≡ ok tt → IsAlone (make_mut room k false p).0 k)
  make_mut-IsAlone room = (m, w, alone (make_mut room k false p) m w)
    where
      m : Makes p k (make_mut room k false p)
      m = make_mut-Makes room

      w : IsValid (make_mut room k false p).0
      w = make_mut-IsValid p k v i room false

      alone :
          (r : Pages × Result (Unit {0})) → Makes p k r → IsValid r.0 → r.1 ≡ ok tt → IsAlone r.0 k
      alone (q, err kind) m w e = cc
      alone (q, ok u) (l, a, b) w e = mutable-IsAlone q k w (omega (arith, l)) a
