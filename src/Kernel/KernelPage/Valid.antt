-- ===== src/Kernel/KernelPage/Valid.antt =====
-- The counters of tee/kernel/src/memory/page/kernel.rs count the pages of an allocation.
use mushroom.Prelude.{
  ℕ, zero, suc, ◌+◌, ◌≤◌, ◌<◌, ◌≡◌, ◌≢◌, refl, true, false, List, [], ◌∷◌, ◌++◌, Option, none, some,
  length, length-set, length-append, set, get_or-set, ◌==◌, ==_iff, if◌then◌else◌, inl, inr, ◌⊎◌,
  Bool-cases, arith,
}
use mathlib.Core.Path.{subst}
use mushroom.Kernel.KernelPage.{
  Cell, freed, content, KernelPage, Pages, page_at, cell_at, is_zero_page,
}
use mushroom.Kernel.KernelPage.Counts.{owns, shares, owners, sharers, counts-page}

-- An allocation without a counter has one page, which knows of no counter; one with a counter has as many as it
-- says, which all know of it; one that is freed has none.
abbrev pub CellOk : Cell → ℕ → ℕ → Type 0
CellOk freed u s = (u ≡ 0) × (s ≡ 0)
CellOk (content b none) u s = (u ≡ 1) × (s ≡ 0)
CellOk (content b (some n)) u s = (u ≡ 0) × (s ≡ n) × (0 < n)

abbrev pub AllOk : List Cell → (ℕ → ℕ) → (ℕ → ℕ) → Type 0
AllOk cells u s =
    ((a : ℕ) → 0 < a → CellOk (cell_at cells a) (u a) (s a)) × (s 0 ≡ 0) × (0 < length cells)

abbrev pub IsValid : Pages → Type 0
IsValid p = AllOk p.cells (owners p.pages) (sharers p.pages)

-- The counts change at one address only, whose allocation changes with them.
pub set-AllOk :
    (cells : List Cell) (u s u' s' : ℕ → ℕ) (c : ℕ) (cell : Cell)
    → AllOk cells u s
    → c < length cells
    → ((a : ℕ) → 0 < a → a ≢ c → (u' a ≡ u a) × (s' a ≡ s a))
    → s' 0 ≡ 0
    → CellOk cell (u' c) (s' c)
    → AllOk (set cells c cell) u' s'
set-AllOk cells u s u' s' c cell (ok, z, pos) i same z' new =
    (all, z', omega (arith, pos, length-set cells c cell))
  where
    read_back : cell_at (set cells c cell) c ≡ cell
    read_back = ground (arith, get_or-set cells c c cell freed i)

    other : (a : ℕ) → (c == a) ≡ false → cell_at (set cells c cell) a ≡ cell_at cells a
    other a p = ground (arith, p, get_or-set cells c a cell freed i)

    all : (a : ℕ) → 0 < a → CellOk (cell_at (set cells c cell) a) (u' a) (s' a)
    all a h = elim (Bool-cases (c == a)) [
      | inl p ↦
          let e : c ≡ a = (==_iff c a).0 p in
          subst (λ x. CellOk (cell_at (set cells c cell) x) (u' x) (s' x)) e (rw read_back new)
      | inr p ↦ let (x, y) = same a h (λ e. ground (arith, p, e)) in rw (other a p, x, y) (ok a h)
    ]

-- No allocation changes, and no count but that of the zero page.
pub same-AllOk :
    (cells : List Cell) (u s u' s' : ℕ → ℕ)
    → AllOk cells u s
    → ((a : ℕ) → 0 < a → (u' a ≡ u a) × (s' a ≡ s a))
    → s' 0 ≡ 0
    → AllOk cells u' s'
same-AllOk cells u s u' s' (ok, z, pos) same z' =
    ((λ a h. let (x, y) = same a h in rw (x, y) (ok a h)), z', pos)

pub cell_at-append :
    (cells : List Cell) (cell : Cell) (a : ℕ)
    → cell_at (cells ++ (cell ∷ [])) a ≡ (if a == length cells then cell else cell_at cells a)
cell_at-append [] cell zero = refl
cell_at-append [] cell (suc a) = ground arith
cell_at-append (x ∷ cells) cell zero = ground arith
cell_at-append (x ∷ cells) cell (suc a) = ground (arith, cell_at-append cells cell a)

pub cell_at_end : (cells : List Cell) (a : ℕ) → length cells ≤ a → cell_at cells a ≡ freed
cell_at_end [] a h = refl
cell_at_end (x ∷ cells) zero h = absurd (omega arith)
cell_at_end (x ∷ cells) (suc a) h = cell_at_end cells a (omega arith)

-- A new allocation, with one page.
pub append-AllOk :
    (cells : List Cell) (u s u' s' : ℕ → ℕ) (b : List ℕ)
    → AllOk cells u s
    → ((a : ℕ) → 0 < a → a ≢ length cells → (u' a ≡ u a) × (s' a ≡ s a))
    → (u' (length cells) ≡ u (length cells) + 1)
    → (s' (length cells) ≡ s (length cells))
    → s' 0 ≡ 0
    → AllOk (cells ++ (content b none ∷ [])) u' s'
append-AllOk cells u s u' s' b (ok, z, pos) same x y z' =
    (all, z', omega (arith, length-append cells (content b none ∷ [])))
  where
    fresh : CellOk freed (u (length cells)) (s (length cells))
    fresh =
        subst (λ cell. CellOk cell (u (length cells)) (s (length cells)))
          (cell_at_end cells (length cells) (omega arith)) (ok (length cells) pos)

    all : (a : ℕ) → 0 < a → CellOk (cell_at (cells ++ (content b none ∷ [])) a) (u' a) (s' a)
    all a h = elim (Bool-cases (a == length cells)) [
      | inl p ↦
          rw (cell_at-append cells (content b none) a, p)
            (rw ((==_iff a (length cells)).0 p, x, y) (omega (arith, fresh.0), fresh.1))
      | inr p ↦
          let (x, y) = same a h (λ e. ground (arith, p, e)) in
          rw (cell_at-append cells (content b none) a, p, x, y) (ok a h)
    ]

in_range :
    (cells : List Cell) (a : ℕ) (b : List ℕ) (n : Option ℕ)
    → cell_at cells a ≡ content b n
    → a < length cells
in_range [] a b n e = cc
in_range (x ∷ cells) zero b n e = omega arith
in_range (x ∷ cells) (suc a) b n e = omega (arith, in_range cells a b n e)

-- What a page that is not the zero page has: an allocation of its own, or a share of one, which all who have it
-- know of.
abbrev pub Holds : Pages → KernelPage → Type 0
Holds p h =
    ((b : List ℕ) × (h.counted ≡ false)
      × (cell_at p.cells h.address ≡ content b none)
      × (owners p.pages h.address ≡ 1)
      × (sharers p.pages h.address ≡ 0))
    ⊎ ((b : List ℕ) × (n : ℕ) × (h.counted ≡ true)
        × (cell_at p.cells h.address ≡ content b (some n))
        × (owners p.pages h.address ≡ 0)
        × (sharers p.pages h.address ≡ n)
        × (0 < n))

held :
    (p : Pages) (h : KernelPage) (cell : Cell)
    → cell_at p.cells h.address ≡ cell
    → owns h h.address ≤ owners p.pages h.address
    → shares h h.address ≤ sharers p.pages h.address
    → CellOk cell (owners p.pages h.address) (sharers p.pages h.address)
    → Holds p h
held p h freed e x y c = absurd (ground (arith, x, y, c.0, c.1))
held p h (content b none) e x y c = inl (b, ground (arith, y, c.1), e, c.0, c.1)
held p h (content b (some n)) e x y c = inr (b, n, ground (arith, x, c.0), e, c.0, c.1, c.2)

pub Holds-in_range : (p : Pages) (h : KernelPage) → Holds p h → h.address < length p.cells
Holds-in_range p h (inl (b, q, e, x, y)) = in_range p.cells h.address b none e
Holds-in_range p h (inr (b, n, q, e, x, y, l)) = in_range p.cells h.address b (some n) e

pub page_address :
    (p : Pages) (k : ℕ)
    → IsValid p
    → k < length p.pages
    → is_zero_page (page_at p k) ≡ false
    → 0 < (page_at p k).address
unfolding is_zero_page
page_address p k (ok, z, pos) i nz =
    let (x, y) = counts-page p.pages k i in
    elim (Bool-cases ((page_at p k).address == 0)) [
      | inl q ↦
          let e : (page_at p k).address ≡ 0 = (==_iff ((page_at p k).address) 0).0 q in
          let s : sharers p.pages ((page_at p k).address) ≡ 0 = rw e z in
          absurd (ground (arith, q, nz, y, s))
      | inr q ↦ ground (arith, q)
    ]

pub page-Holds :
    (p : Pages) (k : ℕ)
    → IsValid p
    → k < length p.pages
    → is_zero_page (page_at p k) ≡ false
    → Holds p (page_at p k)
page-Holds p k v i nz =
    let h = page_at p k in
    let (x, y) = counts-page p.pages k i in
    held p h (cell_at p.cells h.address) refl x y (v.0 h.address (page_address p k v i nz))
