-- ===== src/Kernel/TmpFs/Moves/Create.antt =====
-- A new directory of tee/kernel/src/fs/node/tmpfs.rs: it is above all directories that there were.
use mushroom.Prelude.{
  ℕ, zero, suc, ◌<◌, ◌≡◌, ◌≢◌, refl, sym, ap, ◌∙◌, List, [], ◌∷◌, ◌++◌, none, some, length,
  length-set, length-append, get_or, ◌==◌, ==_iff, if◌then◌else◌, inl, inr, ◌&&◌, Bool-cases,
  Option-cases, arith,
}
use mathlib.Core.Path.{subst}
use mushroom.Kernel.Ownership.{Ownership}
use mushroom.Kernel.TmpFs.Names.{Name, same, same_iff}
use mushroom.Kernel.TmpFs.{
  dir, Location, directory, get, insert, TmpFsDir, TmpFs, no_dir, dir_at, items_at, set_items,
  create_dir,
}
use mushroom.Kernel.TmpFs.Moves.Trees.{location_at, IsTree, items-set_items, get-set_items}
use mushroom.Kernel.TmpFs.Moves.Roots.{Climbs, Avoids, moved-Climbs}
use mushroom.Kernel.TmpFs.Moves.Rename.{IsRooted, same-Climbs}
use mushroom.Kernel.TmpFs.Moves.Keep.{IsBounded, IsValid}

get_or-snoc {ℓ} :
    {A : Type ℓ}
    → (xs : List A) (y : A) (k : ℕ) (z : A)
    → get_or (xs ++ (y ∷ [])) k z ≡ (if length xs == k then y else get_or xs k z)
get_or-snoc [] y zero z = refl
get_or-snoc [] y (suc k) z = ground arith
get_or-snoc (x ∷ xs) y zero z = ground arith
get_or-snoc (x ∷ xs) y (suc k) z = get_or-snoc xs y k z ∙ ground arith

bounded-Avoids :
    {l : ℕ → Location} {k : ℕ} (j : ℕ)
    → ((k p : ℕ) (n : Name) → l k ≡ directory p n → p < j)
    → Climbs l k
    → k < j
    → Avoids l j k
bounded-Avoids j b (Climbs.top e) h = Avoids.top (λ z. absurd (omega (arith, h, z))) e
bounded-Avoids {k = k} j b (Climbs.up p n e c) h =
    Avoids.up p n (λ z. absurd (omega (arith, h, z))) e (bounded-Avoids j b c (b k p n e))

-- A new directory.
module _ (t : TmpFs) (d : ℕ) (n : Name) (own : Ownership) (h : d < length t.dirs) where
  new_dir : TmpFsDir
  new_dir = record { location = directory d n; items = []; ownership = own }

  grown : TmpFs
  unfolding new_dir
  grown = record t { dirs = t.dirs ++ (new_dir ∷ []) }

  length-grown : length grown.dirs ≡ suc (length t.dirs)
  unfolding grown
  length-grown = length-append t.dirs (new_dir ∷ []) ∙ omega arith

  items-grown :
      (x : ℕ) (m : Name) (k : ℕ)
      → get m (items_at grown x) ≡ some (dir k)
      → get m (items_at t x) ≡ some (dir k)
  unfolding grown get
  items-grown x m k q =
      let e = ap (λ v. get m v.items) (get_or-snoc t.dirs new_dir x no_dir) in
      elim (Bool-cases (length t.dirs == x)) [
        | inl p ↦ absurd (let z : none ≡ some (dir k) = sym (e ∙ rw p refl) ∙ q in cc)
        | inr p ↦ sym (e ∙ rw p refl) ∙ q
      ]

  location-grown :
      (x : ℕ)
      → location_at grown x ≡ (if length t.dirs == x then directory d n else location_at t x)
  unfolding grown
  location-grown x =
      let e = ap (λ v. v.location) (get_or-snoc t.dirs new_dir x no_dir) in
      elim (Bool-cases (length t.dirs == x)) [ inl p ↦ e ∙ (rw p refl) | inr p ↦ e ∙ (rw p refl) ]

  grown-IsRooted : IsRooted t → IsBounded t → IsRooted grown
  unfolding grown
  grown-IsRooted r b k =
      moved-Climbs n
        (location-grown (length t.dirs)
          ∙ (rw ((==_iff (length t.dirs) (length t.dirs)).1 refl) refl))
        (λ x z. location-grown x ∙ ground (arith, z, (==_iff (length t.dirs) x).0))
        (bounded-Avoids (length t.dirs) b (r d) h) (r k)

  grown-IsTree : IsTree t → IsTree grown
  grown-IsTree v x m k q =
      let (i, y) = v x m k (items-grown x m k q) in
      let z : length t.dirs ≢ k = λ w. absurd (omega (arith, i, w)) in
      (
        omega (arith, length-grown, i),
        location-grown k ∙ (ground (arith, z, (==_iff (length t.dirs) k).0) ∙ y),
      )

  grown-IsBounded : IsBounded t → IsBounded grown
  grown-IsBounded b k p m q =
      let z = sym (location-grown k) ∙ q in
      let l = length-grown in
      elim (Bool-cases (length t.dirs == k)) [
        | inl e ↦
            let y : directory d n ≡ directory p m = rw e at z in
            let x : d ≡ p = cc in omega (arith, h, l, x)
        | inr e ↦
            let y : location_at t k ≡ directory p m = rw e at z in
            let i = b k p m y in omega (arith, i, l)
      ]

  filled : TmpFs
  unfolding grown
  filled = set_items d (insert n (dir (length t.dirs)) (items_at grown d)) grown

  inside : d < length grown.dirs
  inside = omega (arith, h, length-grown)

  length-filled : length filled.dirs ≡ length grown.dirs
  unfolding filled
  length-filled =
      length-set grown.dirs d
        (record (dir_at grown d) { items = insert n (dir (length t.dirs)) (items_at grown d) })

  location-filled : (x : ℕ) → location_at filled x ≡ location_at grown x
  unfolding filled
  location-filled x =
      (items-set_items grown d x (insert n (dir (length t.dirs)) (items_at grown d)) inside).1

  get-filled :
      (x : ℕ) (m : Name)
      → get m (items_at filled x)
        ≡ (if (d == x) && same n m then some (dir (length t.dirs)) else get m (items_at grown x))
  unfolding filled
  get-filled x m = get-set_items grown d x n m (dir (length t.dirs)) inside

  filled-IsValid : IsValid t → IsValid filled
  filled-IsValid (v, r, b) = (
    λ x m k q.
        let z = sym (get-filled x m) ∙ q in
        elim (Bool-cases ((d == x) && same n m)) [
          | inl p ↦
              let y : some (dir (length t.dirs)) ≡ some (dir k) = rw p at z in
              let w : length t.dirs ≡ k = cc in
              (
                omega (arith, w, length-filled, length-grown),
                location-filled k
                    ∙ (location-grown k
                        ∙ ground (
                          arith,
                          w,
                          (==_iff (length t.dirs) k).1,
                          p,
                          (==_iff d x).0,
                          (same_iff n m).0,
                        )),
              )
          | inr p ↦
              let y : get m (items_at grown x) ≡ some (dir k) = rw p at z in
              let (i, l) = grown-IsTree v x m k y in
              (omega (arith, i, length-filled), location-filled k ∙ l)
        ],
    λ k. same-Climbs location-filled (grown-IsRooted r b k),
    λ k p m q.
        let i = grown-IsBounded b k p m (sym (location-filled k) ∙ q) in
        omega (arith, i, length-filled),
  )

  same_dir : dir_at grown d ≡ dir_at t d
  unfolding grown
  same_dir =
      let z : length t.dirs ≢ d = λ e. absurd (omega (arith, h, e)) in
      get_or-snoc t.dirs new_dir d no_dir ∙ ground (arith, z, (==_iff (length t.dirs) d).0)

  made-IsValid :
      IsValid t → IsValid (set_items d (insert n (dir (length t.dirs)) (items_at t d)) grown)
  unfolding filled
  made-IsValid v =
      subst (λ y. IsValid (set_items d (insert n (dir (length t.dirs)) y.items) grown)) same_dir
        (filled-IsValid v)

  pub create_dir-IsValid : IsValid t → IsValid (create_dir d n own t).0
  unfolding create_dir grown
  create_dir-IsValid v = elim (Option-cases (get n (items_at t d))) [
    | inl q ↦ rw (create_dir, q) (made-IsValid v)
    | inr (e, q) ↦ rw (create_dir, q) v
  ]
