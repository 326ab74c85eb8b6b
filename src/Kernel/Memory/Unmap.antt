-- ===== src/Kernel/Memory/Unmap.antt =====
-- `unmap` of memory.rs: which pages it removes, and where it stops too early.
use mathlib.Core.Path.{subst}
use mushroom.Prelude.{
  ℕ, ◌+◌, ◌-◌, ◌<◌, ◌≤◌, ◌≡◌, refl, sym, ap, true, false, ◌&&◌, [], ◌∷◌, ◌++◌, Option, none, some,
  arith, inl, inr, ltb, leb, leb→le, lt→ltb, ◌==◌, if◌then◌else◌, length, take, drop, length-take,
  length-drop, Bool-cases, Option-cases,
}
use mushroom.Kernel.Memory.{
  Mapping, Mappings, split_front, split_back, seek, last_at, unmap_entry, unmap_loop, unmap_pages,
  unmap, page_of,
}
use mushroom.Kernel.Memory.View.{
  Above, IsValid, PageView, view, view_below, Above-weaken, view_in-split_front, view_in-split_back,
}

abbrev pub without : ℕ → ℕ → Mappings → ℕ → Option PageView
without start end ms p = if leb start p && leb p end then none else view ms p

view-split_back :
    (start page : ℕ) (m : Mapping) (r : Mappings) (p : ℕ)
    → page ≤ start
    → start < page + length m.pages
    → start ≤ p
    → view ((start, split_back m (start - page)) ∷ r) p ≡ view ((page, m) ∷ r) p
unfolding view
view-split_back start page m r p h l q = ground (
  arith,
  length-drop (start - page) m.pages,
  view_in-split_back m (start - page) (p - start),
  index,
)
  where
    index : start ≤ p → start - page + (p - start) ≡ p - page
    index q = omega arith

view-unmap_entry :
    (start end page : ℕ) (m : Mapping) (r rest : Mappings) (p : ℕ)
    → start ≤ page
    → Above (page + length m.pages) r
    → 0 < length m.pages
    → view rest p ≡ without start end r p
    → view (unmap_entry end page m r rest) p ≡ without start end ((page, m) ∷ r) p
unfolding view
view-unmap_entry start end page m r rest p h a n e = ground (
  arith,
  view_below (page + length m.pages) r p a,
  length-drop (end - page + 1) m.pages,
  view-split_back (end + 1) page m r p,
)

unmap_entry-Above :
    (lo end page : ℕ) (m : Mapping) (r rest : Mappings)
    → lo ≤ page
    → 0 < length m.pages
    → Above (page + length m.pages) r
    → Above (page + length m.pages) rest
    → Above lo (unmap_entry end page m r rest)
unmap_entry-Above lo end page m r rest h n a b = ground (
  arith,
  Above-weaken (page + length m.pages) lo rest,
  length-drop (end - page + 1) m.pages,
  Above-weaken (page + length m.pages) (end + 1 + length (drop (end - page + 1) m.pages)) r,
)

-- The test of `unmap`'s early exit fails where the entry reaches the start.
covered :
    (page start : ℕ) (m : Mapping)
    → start < page + length m.pages
    → ltb (page + (length m.pages - 1)) start ≡ false
covered page start m h = ground arith

-- The first entry ends behind the start.
abbrev Ready : ℕ → Mappings → Type 0
Ready start [] = Unit
Ready start ((k, m) ∷ r) = start < k + length m.pages

Ready-tail : (start lo : ℕ) (r : Mappings) → start < lo → Above lo r → Ready start r
Ready-tail start lo [] h a = tt
Ready-tail start lo ((k, m) ∷ r) h a = omega arith

unmap_loop-Above :
    (start end lo : ℕ) (ms : Mappings)
    → Ready start ms
    → Above lo ms
    → Above lo (unmap_loop start end ms)
unfolding unmap_loop
unmap_loop-Above start end lo [] g a = tt
unmap_loop-Above start end lo ((page, m) ∷ r) g a =
    let rest = unmap_loop start end r in
    let tail = Ready-tail start (page + length m.pages) r g a.2 in
    let ih = unmap_loop-Above start end (page + length m.pages) r tail a.2 in
    elim (Bool-cases (ltb page start)) [
      | inr q ↦ rw q (unmap_entry-Above lo end page m r rest a.0 a.1 a.2 ih)
      | inl q ↦ ground (
        arith,
        length-take (start - page) m.pages,
        length-drop (start - page) m.pages,
        unmap_entry-Above start end start (split_back m (start - page)) r rest,
        Above-weaken start (page + length (take (start - page) m.pages))
            (unmap_entry end start (split_back m (start - page)) r rest),
      )
    ]

split_view :
    (start end page : ℕ) (m : Mapping) (r out : Mappings) (p : ℕ)
    → page < start
    → start < page + length m.pages
    → Above (page + length m.pages) r
    → view out p ≡ without start end ((start, split_back m (start - page)) ∷ r) p
    → view ((page, split_front m (start - page)) ∷ out) p ≡ without start end ((page, m) ∷ r) p
unfolding view
split_view start end page m r out p l g a e = ground (
  arith,
  view_below (page + length m.pages) r p a,
  length-take (start - page) m.pages,
  length-drop (start - page) m.pages,
  view-split_back start page m r p,
  view_in-split_front m (start - page) (p - page),
)

view_nil : (start end p : ℕ) → view [] p ≡ without start end [] p
unfolding view
view_nil start end p = ground arith

view-unmap_loop :
    (start end lo : ℕ) (ms : Mappings) (p : ℕ)
    → Ready start ms
    → Above lo ms
    → view (unmap_loop start end ms) p ≡ without start end ms p
unfolding unmap_loop
view-unmap_loop start end lo [] p g a = view_nil start end p
view-unmap_loop start end lo ((page, m) ∷ r) p g a =
    let rest = unmap_loop start end r in
    let tail = Ready-tail start (page + length m.pages) r g a.2 in
    let ih = view-unmap_loop start end (page + length m.pages) r p tail a.2 in
    elim (Bool-cases (ltb page start)) [
      | inr q ↦ rw q (view-unmap_entry start end page m r rest p (ground arith) a.2 a.1 ih)
      | inl q ↦ rw q (
          rw (covered page start m g) (
            split_view start end page m r
              (unmap_entry end start (split_back m (start - page)) r rest) p (ground arith) g a.2
              (view-unmap_entry start end start (split_back m (start - page)) r rest p (omega arith)
                (back q) (omega (arith, length-drop (start - page) m.pages)) ih)))
    ]
  where
    back : ltb page start ≡ true → Above (start + length (drop (start - page) m.pages)) r
    back q = subst (λ k. Above k r) (ground (arith, length-drop (start - page) m.pages)) a.2

-- Either nothing is mapped at or below the start, or the start page itself is mapped.
abbrev pub NoGap : ℕ → Option (ℕ × Mapping) → Type 0
NoGap start none = Unit
NoGap start (some (k, m)) = start < k + length m.pages

last_at-Above : (start lo : ℕ) (ms : Mappings) → start < lo → Above lo ms → last_at start ms ≡ none
unfolding last_at
last_at-Above start lo [] h a = refl
last_at-Above start lo ((k, m) ∷ r) h a = ground (arith, last_at-Above start (k + length m.pages) r)

last_at_below :
    (start : ℕ) (f : ℕ × Mapping) (r : Mappings)
    → f.0 ≤ start
    → (e : ℕ × Mapping) × (last_at start (f ∷ r) ≡ some e)
unfolding last_at
last_at_below start (k, m) r h = elim (Option-cases (last_at start r)) [
  | inl q ↦ ((k, m), ground arith)
  | inr (e, q) ↦ (e, ground arith)
]

-- The loop run from the cursor, with the entries before it.
abbrev unmap_seek : ℕ → ℕ → Mappings → Mappings
unmap_seek start end ms = (seek start ms).0 ++ unmap_loop start end (seek start ms).1

nonzero : (len : ℕ) → 0 < len → (len == 0) ≡ false
nonzero len h = ground arith

last_nil : (start : ℕ) → last_at start [] ≡ none
unfolding last_at
last_nil start = refl

-- Without a gap the entry at the cursor ends behind the start.
seek-Ready :
    (start : ℕ) (k : ℕ) (m : Mapping) (r : Mappings)
    → last_at start r ≡ none
    → NoGap start (last_at start ((k, m) ∷ r))
    → Ready start ((k, m) ∷ r)
unfolding last_at
seek-Ready start k m r e g = elim (Bool-cases (leb k start)) [
  | inl q ↦ ground arith
  | inr q ↦ ground arith
]

seek_first :
    (start k j : ℕ) (m n : Mapping) (r : Mappings)
    → leb j start ≡ false
    → Above k ((k, m) ∷ (j, n) ∷ r)
    → NoGap start (last_at start ((k, m) ∷ (j, n) ∷ r))
    → Ready start ((k, m) ∷ (j, n) ∷ r)
seek_first start k j m n r q a g =
    seek-Ready start k m ((j, n) ∷ r)
      (last_at-Above start j ((j, n) ∷ r) (ground arith) (omega arith, a.2.1, a.2.2)) g

seek_next :
    (start k j : ℕ) (m n : Mapping) (r : Mappings)
    → leb j start ≡ true
    → NoGap start (last_at start ((k, m) ∷ (j, n) ∷ r))
    → NoGap start (last_at start ((j, n) ∷ r))
unfolding last_at
seek_next start k j m n r q g =
    let (e, p) = last_at_below start (j, n) r (leb→le j start q) in
    rw (p, last_at, NoGap) (rw (p, last_at, NoGap) at g)

unmap_seek-Above :
    (start end lo : ℕ) (ms : Mappings)
    → NoGap start (last_at start ms)
    → Above lo ms
    → Above lo (unmap_seek start end ms)
unfolding seek
unmap_seek-Above start end lo [] g a = unmap_loop-Above start end lo [] tt a
unmap_seek-Above start end lo ((k, m) ∷ []) g a =
    unmap_loop-Above start end lo ((k, m) ∷ []) (seek-Ready start k m [] (last_nil start) g) a
unmap_seek-Above start end lo ((k, m) ∷ (j, n) ∷ r) g a = elim (Bool-cases (leb j start)) [
  | inl q ↦ rw q (
    a.0,
    a.1,
    unmap_seek-Above start end (k + length m.pages) ((j, n) ∷ r) (seek_next start k j m n r q g)
        a.2,
  )
  | inr q ↦ rw q (
      unmap_loop-Above start end lo ((k, m) ∷ (j, n) ∷ r)
        (seek_first start k j m n r q (omega arith, a.1, a.2) g) a)
]

view-unmap_seek :
    (start end lo : ℕ) (ms : Mappings) (p : ℕ)
    → NoGap start (last_at start ms)
    → Above lo ms
    → view (unmap_seek start end ms) p ≡ without start end ms p
unfolding seek view
view-unmap_seek start end lo [] p g a = view-unmap_loop start end lo [] p tt a
view-unmap_seek start end lo ((k, m) ∷ []) p g a =
    view-unmap_loop start end lo ((k, m) ∷ []) p (seek-Ready start k m [] (last_nil start) g) a
view-unmap_seek start end lo ((k, m) ∷ (j, n) ∷ r) p g a = elim (Bool-cases (leb j start)) [
  | inl q ↦ rw q (
      ground (
        arith,
        view-unmap_seek start end (k + length m.pages) ((j, n) ∷ r) p
            (seek_next start k j m n r q g) a.2,
      ))
  | inr q ↦ rw q (
      view-unmap_loop start end lo ((k, m) ∷ (j, n) ∷ r) p
        (seek_first start k j m n r q (omega arith, a.1, a.2) g) a)
]

-- On valid mappings, for a range that is not empty, whose start page is mapped or has nothing mapped
-- at or below it, `unmap` removes exactly the pages
-- from the start to the end of the range: every other page keeps its view.
pub view-unmap :
    (addr len : ℕ) (ms : Mappings) (p : ℕ)
    → 0 < len
    → IsValid ms
    → NoGap (page_of addr) (last_at (page_of addr) ms)
    → view (unmap addr len ms) p ≡ without (page_of addr) (page_of (addr + (len - 1))) ms p
unfolding unmap unmap_pages
view-unmap addr len ms p h v g =
    rw (nonzero len h) (view-unmap_seek (page_of addr) (page_of (addr + (len - 1))) 0 ms p g v)

-- On valid mappings, for a range that is not empty, whose start page is mapped or has nothing mapped
-- at or below it, the mappings stay in order, none empty and no two overlapping.
pub unmap-IsValid :
    (addr len : ℕ) (ms : Mappings)
    → 0 < len
    → IsValid ms
    → NoGap (page_of addr) (last_at (page_of addr) ms)
    → IsValid (unmap addr len ms)
unfolding unmap unmap_pages
unmap-IsValid addr len ms h v g =
    rw (nonzero len h) (unmap_seek-Above (page_of addr) (page_of (addr + (len - 1))) 0 ms g v)

stops_at :
    (start end k : ℕ) (m : Mapping) (r : Mappings)
    → 0 < length m.pages
    → k + length m.pages ≤ start
    → unmap_loop start end ((k, m) ∷ r) ≡ (k, m) ∷ r
unfolding unmap_loop
stops_at start end k m r n h =
    rw (lt→ltb k start (omega arith), lt→ltb (k + (length m.pages - 1)) start (omega arith))

last_at_nil :
    (start k : ℕ) (m : Mapping) (r : Mappings) (e : ℕ × Mapping)
    → last_at start r ≡ none
    → last_at start ((k, m) ∷ r) ≡ some e
    → (k, m) ≡ e
unfolding last_at
last_at_nil start k m r e q h = ground arith

last_at_cons :
    (start k : ℕ) (m : Mapping) (r : Mappings) (e d : ℕ × Mapping)
    → last_at start r ≡ some d
    → last_at start ((k, m) ∷ r) ≡ some e
    → last_at start r ≡ some e
unfolding last_at
last_at_cons start k m r e d q h = ground arith

unmap_seek_gap :
    (start end lo : ℕ) (ms : Mappings) (e : ℕ × Mapping)
    → Above lo ms
    → last_at start ms ≡ some e
    → e.0 + length e.1.pages ≤ start
    → unmap_seek start end ms ≡ ms
unfolding seek unmap_loop
unmap_seek_gap start end lo [] e a q h = refl
unmap_seek_gap start end lo ((k, m) ∷ []) e a q h = stops_at start end k m [] a.1 (
    subst (λ d. d.0 + length d.1.pages ≤ start)
      (sym (last_at_nil start k m [] e (last_nil start) q)) h)
unmap_seek_gap start end lo ((k, m) ∷ (j, n) ∷ r) e a q h = elim (Bool-cases (leb j start)) [
  | inl p ↦
      let (d, u) = last_at_below start (j, n) r (leb→le j start p) in
      rw p (
        ap (λ t. (k, m) ∷ t)
          (unmap_seek_gap start end (k + length m.pages) ((j, n) ∷ r) e a.2
            (last_at_cons start k m ((j, n) ∷ r) e d u q) h))
  | inr p ↦ rw p (
      stops_at start end k m ((j, n) ∷ r) a.1 (
        subst (λ d. d.0 + length d.1.pages ≤ start)
          (sym (
            last_at_nil start k m ((j, n) ∷ r) e
              (last_at-Above start j ((j, n) ∷ r) (ground arith) (omega arith, a.2.1, a.2.2)) q))
          h))
]

-- On valid mappings, where the last mapping at or below the start page ends before it, `unmap` changes nothing,
-- whatever is mapped in the range.
pub unmap_gap :
    (addr len : ℕ) (ms : Mappings) (k : ℕ) (m : Mapping)
    → IsValid ms
    → last_at (page_of addr) ms ≡ some (k, m)
    → k + length m.pages ≤ page_of addr
    → unmap addr len ms ≡ ms
unfolding unmap unmap_pages
unmap_gap addr len ms k m v q h = elim (Bool-cases (len == 0)) [
  | inl p ↦ rw p
  | inr p ↦ rw p (unmap_seek_gap (page_of addr) (page_of (addr + (len - 1))) 0 ms (k, m) v q h)
]
