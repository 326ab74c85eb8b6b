-- ===== src/Kernel/Memory/Mmap.antt =====
-- `mmap` and the lookup of `map_page` in memory.rs: what each page reads as.
use native.Mathlib.Decide.{dec_lt}
use mushroom.Prelude.{
  ℕ, ◌+◌, ◌-◌, ◌<◌, ◌≤◌, ◌≡◌, refl, Bool, ◌&&◌, [], ◌∷◌, Option, none, some, arith, ◌⊎◌, inl, inr,
  leb, if◌then◌else◌, length, length-replicate, Option-cases,
}
use mushroom.Kernel.Memory.{
  Mapping, Mappings, last_at, unmap, page_of, insert, in_mapping, find_page, fresh, mmap,
}
use mushroom.Kernel.Memory.View.{Above, IsValid, PageView, view_in, view}
use mushroom.Kernel.Memory.Unmap.{NoGap, view-unmap, unmap-IsValid, unmap_gap}

-- No page from `start` to `end` is mapped.
abbrev pub IsClear : ℕ → ℕ → Mappings → Type 0
IsClear start end ms = (p : ℕ) → start ≤ p → p ≤ end → view ms p ≡ none

-- An entry that does not touch the range lies before it or behind it.
apart :
    (start end k : ℕ) (m : Mapping) (r : Mappings)
    → start ≤ end
    → 0 < length m.pages
    → IsClear start end ((k, m) ∷ r)
    → (k + length m.pages ≤ start) ⊎ (end < k)
unfolding view
apart start end k m r h n c = ground (arith, c start, c k)

IsClear-tail :
    (start end k : ℕ) (m : Mapping) (r : Mappings)
    → IsClear start end ((k, m) ∷ r)
    → IsClear start end r
unfolding view
IsClear-tail start end k m r c p h l = ground (arith, c p)

insert-Above :
    (lo start end : ℕ) (m : Mapping) (ms : Mappings)
    → lo ≤ start
    → start ≤ end
    → length m.pages ≡ end - start + 1
    → Above lo ms
    → IsClear start end ms
    → Above lo (insert start m ms)
unfolding insert
insert-Above lo start end m [] l h e a c = (l, omega arith, tt)
insert-Above lo start end m ((j, n) ∷ r) l h e a c = ground (
  arith,
  apart start end j n r h a.1 c,
  insert-Above (j + length n.pages) start end m r,
  IsClear-tail start end j n r c,
)

insert-view :
    (lo start end : ℕ) (m : Mapping) (ms : Mappings) (p : ℕ)
    → start ≤ end
    → length m.pages ≡ end - start + 1
    → Above lo ms
    → IsClear start end ms
    → view (insert start m ms) p
      ≡ (if leb start p && leb p end then some (view_in m (p - start)) else view ms p)
unfolding insert view
insert-view lo start end m [] p h e a c = ground arith
insert-view lo start end m ((j, n) ∷ r) p h e a c =
    let ih =
      insert-view (j + length n.pages) start end m r p h e a.2 (IsClear-tail start end j n r c) in
    ground (arith, apart start end j n r h a.1 c, ih)

-- The key that is found lies between the bound and the page.
last_at_ge :
    (lo : ℕ) (ms : Mappings) (p : ℕ) (e : ℕ × Mapping)
    → Above lo ms
    → last_at p ms ≡ some e
    → (lo ≤ e.0) × (e.0 ≤ p)
unfolding last_at
last_at_ge lo [] p e a h = cc
last_at_ge lo ((k, m) ∷ r) p e a h = elim (Option-cases (last_at p r)) [
  | inl q ↦ ground arith
  | inr (d, q) ↦ ground (arith, last_at_ge (k + length m.pages) r p d a.2 q)
]

-- The view of the page that a lookup found.
abbrev pub viewed : Option (Mapping × ℕ) → Option PageView
viewed none = none
viewed (some (m, i)) = some (view_in m i)

find_page-Above :
    (lo : ℕ) (ms : Mappings) (p : ℕ)
    → Above lo ms
    → viewed (in_mapping p (last_at p ms)) ≡ view ms p
unfolding last_at view
find_page-Above lo [] p a = refl
find_page-Above lo ((k, m) ∷ r) p a = elim (Option-cases (last_at p r)) [
  | inl q ↦ ground (arith, find_page-Above (k + length m.pages) r p a.2)
  | inr (e, q) ↦
      ground
        (arith, last_at_ge (k + length m.pages) r p e, find_page-Above (k + length m.pages) r p a.2)
]

-- On valid mappings the lookup of `map_page`, by the greatest key up to the page, finds what the
-- mapping that covers the page says of it, and nothing where no mapping covers it.
pub view-find_page : (ms : Mappings) (p : ℕ) → IsValid ms → viewed (find_page ms p) ≡ view ms p
unfolding find_page
view-find_page ms p v = find_page-Above 0 ms p v

-- A mapping laid over a range in which nothing is mapped.
abbrev pub mapped : ℕ → ℕ → Mapping → Mappings → ℕ → Option PageView
mapped start end m ms p =
    if leb start p && leb p end then some (view_in m (p - start)) else view ms p

module _ (addr len permissions backing page_offset : ℕ) (shared : Bool) (ms : Mappings) where
  abbrev start_of : ℕ
  start_of = page_of addr

  abbrev end_of : ℕ
  end_of = page_of (addr + (len - 1))

  abbrev pub new_mapping : Mapping
  new_mapping = fresh start_of end_of permissions backing page_offset shared

  mmap_over :
      0 < len
      → IsValid (unmap addr len ms)
      → IsClear start_of end_of (unmap addr len ms)
      → IsValid (mmap addr len permissions backing page_offset shared ms)
        × ((p : ℕ)
            → view (mmap addr len permissions backing page_offset shared ms) p
              ≡ mapped start_of end_of new_mapping (unmap addr len ms) p)
  unfolding mmap
  mmap_over h v c = rw end_eq (
    insert-Above 0 start_of end_of new_mapping (unmap addr len ms) (omega arith) (omega arith) size
        v c,
    λ p. insert-view 0 start_of end_of new_mapping (unmap addr len ms) p (omega arith) size v c,
  )
    where
      end_eq : page_of (addr + len - 1) ≡ end_of
      end_eq = omega arith

      size : length new_mapping.pages ≡ end_of - start_of + 1
      size = length-replicate (end_of - start_of + 1) none

  mmap_start :
      0 < len
      → IsValid ms
      → NoGap start_of (last_at start_of ms)
      → IsValid (mmap addr len permissions backing page_offset shared ms)
        × ((p : ℕ)
            → view (mmap addr len permissions backing page_offset shared ms) p
              ≡ mapped start_of end_of new_mapping ms p)
  mmap_start h v g =
      let out =
        mmap_over h (unmap-IsValid addr len ms h v g)
          (λ p l u. ground (arith, view-unmap addr len ms p h v g)) in
      (out.0, λ p. ground (arith, out.1 p, view-unmap addr len ms p h v g))

  -- On valid mappings, for a range that is not empty and in which nothing is mapped, `mmap` keeps the
  -- mappings in order and disjoint, and each page of the range reads as the new mapping, not
  -- resident; every other page keeps its view.
  pub view-mmap_clear :
      0 < len
      → IsValid ms
      → IsClear start_of end_of ms
      → IsValid (mmap addr len permissions backing page_offset shared ms)
        × ((p : ℕ)
            → view (mmap addr len permissions backing page_offset shared ms) p
              ≡ mapped start_of end_of new_mapping ms p)
  view-mmap_clear h v c = elim (Option-cases (last_at start_of ms)) [
    | inl q ↦ mmap_start h v (rw q tt)
    | inr ((k, m), q) ↦ elim (dec_lt start_of (k + length m.pages)) [
      | yes l ↦ mmap_start h v (rw q l)
      | no l ↦
          let e = unmap_gap addr len ms k m v q (omega arith) in
          let out = mmap_over h (rw e v) (rw e c) in (out.0, λ p. rw e at (out.1 p))
    ]
  ]

  -- On valid mappings, for a range that is not empty, where the start page is mapped, or nothing is mapped
  -- at or below it, or nothing is mapped in the whole range: `mmap` keeps the mappings in order and
  -- disjoint, and each page of the range reads as the new mapping, not resident; every other page keeps
  -- its view.
  pub view-mmap :
      0 < len
      → IsValid ms
      → NoGap start_of (last_at start_of ms) ⊎ IsClear start_of end_of ms
      → IsValid (mmap addr len permissions backing page_offset shared ms)
        × ((p : ℕ)
            → view (mmap addr len permissions backing page_offset shared ms) p
              ≡ mapped start_of end_of new_mapping ms p)
  view-mmap h v (inl g) = mmap_start h v g
  view-mmap h v (inr c) = view-mmap_clear h v c
