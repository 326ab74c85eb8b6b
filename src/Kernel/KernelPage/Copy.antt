-- ===== src/Kernel/KernelPage/Copy.antt =====
-- `clone`, `make_mut` and the drop of tee/kernel/src/memory/page/kernel.rs.
use mushroom.Prelude.{
  ℕ, ◌+◌, ◌-◌, ◌<◌, ◌≡◌, ◌≢◌, refl, ◌∙◌, Bool, true, false, List, [], ◌∷◌, ◌++◌, none, some, length,
  length-set, set, ◌==◌, ==_iff, inl, inr, ◌⊎◌, Bool-cases, arith,
}
use mushroom.Kernel.KernelPage.{
  freed, content, KernelPage, Pages, zeroed, page_at, cell_at, is_zero_page, with_counter, counter,
  bytes_of, clone, release, drop_page, copy, make_mut,
}
use mushroom.Kernel.KernelPage.Counts.{
  owns, shares, owners, sharers, owners-append, sharers-append, owners-set, sharers-set,
}
use mushroom.Kernel.KernelPage.Valid.{
  AllOk, IsValid, set-AllOk, same-AllOk, append-AllOk, Holds, Holds-in_range, page_address,
  page-Holds,
}

module _ (p : Pages) (k : ℕ) (v : IsValid p) (i : k < length p.pages) where
  -- A page that becomes the zero page, or another of the same allocation, changes no other count.
  elsewhere :
      (h : KernelPage) (a : ℕ)
      → 0 < a
      → a ≢ (page_at p k).address
      → (h.address ≡ 0) ⊎ (h.address ≡ (page_at p k).address)
      → (owners (set p.pages k h) a ≡ owners p.pages a)
        × (sharers (set p.pages k h) a ≡ sharers p.pages a)
  elsewhere h a pos n (inl e) = (
    ground (arith, e, n, pos, owners-set p.pages k h a i),
    ground (arith, e, n, pos, sharers-set p.pages k h a i),
  )
  elsewhere h a pos n (inr e) = (
    ground (arith, e, n, pos, owners-set p.pages k h a i),
    ground (arith, e, n, pos, sharers-set p.pages k h a i),
  )

  zero_sharers : sharers (set p.pages k zeroed) 0 ≡ 0
  zero_sharers = ground (arith, sharers-set p.pages k zeroed 0 i, v.1)

  rest-AllOk :
      AllOk
        (release (page_at p k) p.cells)
        (owners (set p.pages k zeroed))
        (sharers (set p.pages k zeroed))
  unfolding release is_zero_page
  rest-AllOk = elim (Bool-cases (is_zero_page (page_at p k))) [
    | inl z ↦
        rw (release, z)
          (same-AllOk p.cells (owners p.pages) (sharers p.pages) _ _ v (zero_same z) zero_sharers)
    | inr z ↦ go z (page_address p k v i z) (page-Holds p k v i z)
  ]
    where
      zero_same :
          is_zero_page (page_at p k) ≡ true
          → (a : ℕ) → 0 < a
          → (owners (set p.pages k zeroed) a ≡ owners p.pages a)
            × (sharers (set p.pages k zeroed) a ≡ sharers p.pages a)
      zero_same z a pos = elsewhere zeroed a pos (λ e. ground (arith, z, pos, e)) (inl refl)

      go :
          is_zero_page (page_at p k) ≡ false
          → 0 < (page_at p k).address
          → Holds p (page_at p k)
          → AllOk
              (release (page_at p k) p.cells)
              (owners (set p.pages k zeroed))
              (sharers (set p.pages k zeroed))
      go z pos (inl (b, q, e, x, y)) =
          rw (release, z, q)
            (set-AllOk p.cells (owners p.pages) (sharers p.pages) _ _ ((page_at p k).address) freed
              v (Holds-in_range p (page_at p k) (inl (b, q, e, x, y)))
              (λ a h n. elsewhere zeroed a h n (inl refl)) zero_sharers
              (
                ground (arith, q, x, pos, owners-set p.pages k zeroed ((page_at p k).address) i),
                ground (arith, q, y, pos, sharers-set p.pages k zeroed ((page_at p k).address) i),
              ))
      go z pos (inr (b, n, q, e, x, y, l)) = elim (Bool-cases (n == 1)) [
        | inl m ↦
            rw (release, z, q, e, m)
              (set-AllOk p.cells (owners p.pages) (sharers p.pages) _ _ ((page_at p k).address)
                freed v (Holds-in_range p (page_at p k) (inr (b, n, q, e, x, y, l)))
                (λ a h n. elsewhere zeroed a h n (inl refl)) zero_sharers
                (
                  ground (arith, q, x, pos, owners-set p.pages k zeroed ((page_at p k).address) i),
                  ground
                      (arith, q, y, m, pos, sharers-set p.pages k zeroed ((page_at p k).address) i),
                ))
        | inr m ↦
            rw (release, z, q, e, m)
              (set-AllOk p.cells (owners p.pages) (sharers p.pages) _ _ ((page_at p k).address)
                (content b (some (n - 1))) v
                (Holds-in_range p (page_at p k) (inr (b, n, q, e, x, y, l)))
                (λ a h n. elsewhere zeroed a h n (inl refl)) zero_sharers
                (
                  ground (arith, q, x, pos, owners-set p.pages k zeroed ((page_at p k).address) i),
                  ground
                      (arith, q, y, m, pos, sharers-set p.pages k zeroed ((page_at p k).address) i),
                  ground (arith, m, l),
                ))
      ]

  -- A page that is dropped leaves the counters true to the pages that are left.
  pub drop_page-IsValid : IsValid (drop_page k p)
  unfolding drop_page
  drop_page-IsValid = rest-AllOk

  pub length-release : length (release (page_at p k) p.cells) ≡ length p.cells
  unfolding release
  length-release = ground (
    arith,
    length-set p.cells (page_at p k).address freed,
    length-set p.cells (page_at p k).address (
        with_counter (cell_at p.cells (page_at p k).address)
          (some (counter (cell_at p.cells (page_at p k).address) - 1))),
  )

  -- Another page in the place of the zero page.
  replaced :
      (h : KernelPage) (a : ℕ)
      → (owners (set p.pages k h) a + owns zeroed a ≡ owners (set p.pages k zeroed) a + owns h a)
        × (sharers (set p.pages k h) a ≡ sharers (set p.pages k zeroed) a + shares h a)
  replaced h a = (
    omega (arith, owners-set p.pages k h a i, owners-set p.pages k zeroed a i),
    omega (arith, sharers-set p.pages k h a i, sharers-set p.pages k zeroed a i),
  )

  copy-IsValid : (room : Bool) → IsValid (copy room k p).0
  unfolding copy
  copy-IsValid false = v
  copy-IsValid true =
      let new : KernelPage = record { address = length p.cells; counted = false } in
      let e = length-release in
      append-AllOk (release (page_at p k) p.cells) (owners (set p.pages k zeroed))
        (sharers (set p.pages k zeroed)) (owners (set p.pages k new)) (sharers (set p.pages k new))
        (bytes_of (cell_at p.cells (page_at p k).address)) rest-AllOk
        (λ a h n. (ground (arith, replaced new a, h, n, e), ground (arith, replaced new a)))
        (rw e (ground (arith, replaced new (length p.cells), v.2)))
        (rw e (ground (arith, replaced new (length p.cells))))
        (ground (arith, replaced new 0, zero_sharers))

  owned_page-IsValid :
      (b : List ℕ)
      → 0 < (page_at p k).address
      → (page_at p k).address < length p.cells
      → (page_at p k).counted ≡ true
      → owners p.pages (page_at p k).address ≡ 0
      → sharers p.pages (page_at p k).address ≡ 1
      → AllOk
          (set p.cells (page_at p k).address (content b none))
          (owners (set p.pages k (record (page_at p k) { counted = false })))
          (sharers (set p.pages k (record (page_at p k) { counted = false })))
  owned_page-IsValid b pos lt q x y =
      let h = page_at p k in
      let new : KernelPage = record { address = h.address; counted = false } in
      set-AllOk p.cells (owners p.pages) (sharers p.pages) _ _ h.address (content b none) v lt
        (λ a l n. elsewhere new a l n (inr refl))
        (ground (arith, sharers-set p.pages k new 0 i, v.1, q, pos))
        (
          ground (arith, owners-set p.pages k new h.address i, x, q),
          ground (arith, sharers-set p.pages k new h.address i, y, q),
        )

  -- A page that is made mutable, with or without room for a copy, leaves every counter true to the pages.
  pub make_mut-IsValid : (room shared : Bool) → IsValid (make_mut room k shared p).0
  unfolding make_mut
  make_mut-IsValid room shared = elim (Bool-cases (is_zero_page (page_at p k))) [
    | inl z ↦ rw (make_mut, z) (copy-IsValid room)
    | inr z ↦ go z (page_address p k v i z) (page-Holds p k v i z)
  ]
    where
      go :
          is_zero_page (page_at p k) ≡ false
          → 0 < (page_at p k).address
          → Holds p (page_at p k)
          → IsValid (make_mut room k shared p).0
      go z pos (inl (b, q, e, x, y)) = elim (Bool-cases shared) [
        | inl w ↦ rw (make_mut, z, w) v
        | inr w ↦ rw (make_mut, z, w, q) v
      ]
      go z pos (inr (b, n, q, e, x, y, l)) = elim (Bool-cases shared) [
        | inl w ↦ rw (make_mut, z, w) v
        | inr w ↦ elim (Bool-cases (n == 1)) [
          | inl m ↦
              rw (make_mut, z, w, q, e, m)
                (owned_page-IsValid b pos
                  (Holds-in_range p (page_at p k) (inr (b, n, q, e, x, y, l))) q x
                  (y ∙ (==_iff n 1).0 m))
          | inr m ↦ rw (make_mut, z, w, q, e, m) (copy-IsValid room)
        ]
      ]

  -- The counts with a page of the same allocation, or the zero page, behind the others.
  appended :
      (hs : List KernelPage) (h : KernelPage) (a : ℕ)
      → 0 < a
      → a ≢ h.address
      → (owners hs a ≡ owners p.pages a) × (sharers hs a ≡ sharers p.pages a)
      → (owners (hs ++ (h ∷ [])) a ≡ owners p.pages a)
        × (sharers (hs ++ (h ∷ [])) a ≡ sharers p.pages a)
  appended hs h a pos n (x, y) = (
    ground (arith, n, pos, x, owners-append hs h a),
    ground (arith, n, pos, y, sharers-append hs h a),
  )

  pub zero_page :
      is_zero_page (page_at p k) ≡ true
      → ((page_at p k).counted ≡ false) × ((page_at p k).address ≡ 0)
  unfolding is_zero_page
  zero_page z = (ground (arith, z), ground (arith, z))

  -- A clone, with or without room for a new counter, leaves every counter true to the pages.
  pub clone-IsValid : (room : Bool) → IsValid (clone room k p).0
  unfolding clone
  clone-IsValid room = elim (Bool-cases (is_zero_page (page_at p k))) [
    | inl z ↦
        rw (clone, z)
          (same-AllOk p.cells (owners p.pages) (sharers p.pages) _ _ v (zero_same z)
            (ground (arith, v.1, zero_page z, sharers-append p.pages (page_at p k) 0)))
    | inr z ↦ go z (page_address p k v i z) (page-Holds p k v i z)
  ]
    where
      zero_same :
          is_zero_page (page_at p k) ≡ true
          → (a : ℕ) → 0 < a
          → (owners (p.pages ++ (page_at p k ∷ [])) a ≡ owners p.pages a)
            × (sharers (p.pages ++ (page_at p k ∷ [])) a ≡ sharers p.pages a)
      zero_same z a pos =
          appended p.pages (page_at p k) a pos (λ g. ground (arith, g, pos, zero_page z))
            (refl, refl)

      go :
          is_zero_page (page_at p k) ≡ false
          → 0 < (page_at p k).address
          → Holds p (page_at p k)
          → IsValid (clone room k p).0
      go z pos (inl (b, q, e, x, y)) = elim (Bool-cases room) [
        | inl w ↦
            rw (clone, z, w, q, e)
              (let h : KernelPage = record { address = (page_at p k).address; counted = true } in
                let first = set p.pages k h in
                set-AllOk p.cells (owners p.pages) (sharers p.pages) _ _ h.address
                  (content b (some 2)) v (Holds-in_range p (page_at p k) (inl (b, q, e, x, y)))
                  (λ a l m. appended first h a l m (elsewhere h a l m (inr refl)))
                  (ground
                    (arith, pos, q, v.1, sharers-append first h 0, sharers-set p.pages k h 0 i))
                  (
                    ground (
                      arith,
                      q,
                      x,
                      owners-append first h h.address,
                      owners-set p.pages k h h.address i,
                    ),
                    ground (
                      arith,
                      q,
                      y,
                      sharers-append first h h.address,
                      sharers-set p.pages k h h.address i,
                    ),
                    omega arith,
                  ))
        | inr w ↦ rw (clone, z, w, q) v
      ]
      go z pos (inr (b, n, q, e, x, y, l)) =
          rw (clone, z, q, e)
            (set-AllOk p.cells (owners p.pages) (sharers p.pages) _ _ (page_at p k).address
              (content b (some (n + 1))) v
              (Holds-in_range p (page_at p k) (inr (b, n, q, e, x, y, l)))
              (λ a h m. appended p.pages (page_at p k) a h m (refl, refl))
              (ground (arith, sharers-append p.pages (page_at p k) 0, v.1, pos))
              (
                ground (arith, x, q, owners-append p.pages (page_at p k) (page_at p k).address),
                ground (arith, y, q, sharers-append p.pages (page_at p k) (page_at p k).address),
                omega arith,
              ))
