-- ===== src/Kernel/TmpFs/Moves/Moved.antt =====
-- What `rename` of tee/kernel/src/fs/node/tmpfs.rs moves, and the tree of directories after it.
use mushroom.Prelude.{
  ℕ, ◌<◌, ◌≡◌, refl, sym, ap, ◌∙◌, false, ◌&&◌, none, some, length, length-set, get_or, ◌==◌,
  ==_iff, if◌then◌else◌, inl, inr, Bool-cases, arith,
}
use mathlib.Core.Path.{subst}
use mushroom.Kernel.TmpFs.Names.{Name, same, same_iff}
use mushroom.Kernel.TmpFs.{
  Entry, dir, Location, directory, get, insert, remove, TmpFs, no_dir, dir_at, items_at, set_items,
  relocate,
}
use mushroom.Kernel.TmpFs.Moves.{move}
use mushroom.Kernel.TmpFs.Moves.Trees.{
  location_at, IsTree, drop_option-dirs, items-set_items, get-insert, get-remove, relocated,
  InRange, InRange-length, items-relocate, entry-InRange,
}

-- What is where after a renaming.
module _ (t : TmpFs) (d d' : ℕ) (old new : Name) (e : Entry) (h : d < length t.dirs)
    (h' : d' < length t.dirs) (i : InRange e t) where
  left : TmpFs
  left = set_items d (remove old (items_at t d)) t

  moved : TmpFs
  unfolding left
  moved = relocate e d' new left

  length-left : length left.dirs ≡ length t.dirs
  unfolding left
  length-left = length-set t.dirs d (record (dir_at t d) { items = remove old (items_at t d) })

  left-InRange : InRange e left
  left-InRange = InRange-length e t left length-left i

  length-moved : length moved.dirs ≡ length t.dirs
  unfolding moved
  length-moved = (items-relocate e left d' 0 new left-InRange).2 ∙ length-left

  items-moved :
      (x : ℕ) → items_at moved x ≡ (if d == x then remove old (items_at t d) else items_at t x)
  unfolding moved
  items-moved x =
      (items-relocate e left d' x new left-InRange).0
      ∙ (items-set_items t d x (remove old (items_at t d)) h).0

  location-moved : (x : ℕ) → location_at moved x ≡ relocated e x d' new (location_at t x)
  unfolding moved
  location-moved x =
      (items-relocate e left d' x new left-InRange).1
      ∙ ap (relocated e x d' new) (items-set_items t d x (remove old (items_at t d)) h).1

  dirs-move :
      (move d old d' new e t).dirs ≡ (set_items d' (insert new e (items_at moved d')) moved).dirs
  unfolding moved
  dirs-move =
      drop_option-dirs (get new (items_at moved d'))
        (set_items d' (insert new e (items_at moved d')) moved)

  pub length-move : length (move d old d' new e t).dirs ≡ length t.dirs
  length-move =
      ap length dirs-move
      ∙ (length-set moved.dirs d'
            (record (dir_at moved d') { items = insert new e (items_at moved d') })
          ∙ length-moved)

  pub location-move :
      (x : ℕ) → location_at (move d old d' new e t) x ≡ relocated e x d' new (location_at t x)
  location-move x =
      ap (λ ds. (get_or ds x no_dir).location) dirs-move
      ∙ ((items-set_items moved d' x (insert new e (items_at moved d'))
            (omega (arith, length-moved))).1
          ∙ location-moved x)

  items-move :
      (x : ℕ)
      → items_at (move d old d' new e t) x
        ≡ (if d' == x then insert new e (items_at moved d') else items_at moved x)
  items-move x =
      ap (λ ds. (get_or ds x no_dir).items) dirs-move
      ∙ (items-set_items moved d' x (insert new e (items_at moved d'))
          (omega (arith, length-moved))).0

  get-left :
      (x : ℕ) (m : Name)
      → get m (items_at moved x) ≡ (if (d == x) && same old m then none else get m (items_at t x))
  get-left x m = elim (Bool-cases (d == x)) [
    | inl p ↦
        ap (get m) (items-moved x)
        ∙ (rw p (get-remove (items_at t d) old m ∙ (rw ((==_iff d x).0 p) refl)))
    | inr p ↦ ap (get m) (items-moved x) ∙ (rw p refl)
  ]

  pub get-move :
      (x : ℕ) (m : Name)
      → get m (items_at (move d old d' new e t) x) ≡ (
          if (d' == x) && same new m
          then some e
          else if (d == x) && same old m
          then none
          else get m (items_at t x))
  get-move x m = elim (Bool-cases (d' == x)) [
    | inl p ↦
        ap (get m) (items-move x)
        ∙ (rw p (
            get-insert (items_at moved d') new m e
            ∙ ap (λ o. if same new m then some e else o)
                (ap (λ y. get m (items_at moved y)) ((==_iff d' x).0 p) ∙ get-left x m)))
    | inr p ↦ ap (get m) (items-move x) ∙ (rw p (get-left x m))
  ]

relocated_self :
    (e : Entry) (k d : ℕ) (n : Name) (l : Location)
    → e ≡ dir k
    → relocated e k d n l ≡ directory d n
relocated_self e k d n l p = rw p (rw ((==_iff k k).1 refl) refl)

-- A directory that is an entry at another place than the one that moves keeps its location.
relocated_other :
    (t : TmpFs) (d x k : ℕ) (old m : Name) (e : Entry) (d' : ℕ) (new : Name)
    → IsTree t
    → get old (items_at t d) ≡ some e
    → location_at t k ≡ directory x m
    → ((d == x) && same old m) ≡ false
    → relocated e k d' new (location_at t k) ≡ location_at t k
relocated_other t d x k old m (dir j) d' new v g l p = elim (Bool-cases (j == k)) [
  | inl s ↦
      let a : location_at t k ≡ directory d old =
        subst (λ y. location_at t y ≡ directory d old) ((==_iff j k).0 s) (v d old j g).1 in
      let b : directory d old ≡ directory x m = sym a ∙ l in
      absurd (ground (arith, b, p, (==_iff d x).1, (same_iff old m).1))
  | inr s ↦ rw s refl
]
relocated_other t d x k old m _ d' new v g l p = refl

-- A renaming leaves every directory with its place for its location.
pub move-IsTree :
    (t : TmpFs) (d d' : ℕ) (old new : Name) (e : Entry)
    → d < length t.dirs
    → d' < length t.dirs
    → IsTree t
    → get old (items_at t d) ≡ some e
    → IsTree (move d old d' new e t)
move-IsTree t d d' old new e h h' v g x m k q =
    let i = entry-InRange t d old e v g in
    let l = length-move t d d' old new e h h' i in
    let loc = location-move t d d' old new e h h' i k in
    let r = sym (get-move t d d' old new e h h' i x m) ∙ q in
    elim (Bool-cases ((d' == x) && same new m)) [
      | inl p ↦
          let s : some e ≡ some (dir k) = rw p at r in
          let e_dir : e ≡ dir k = cc in
          (
            omega (arith, l, subst (λ f. InRange f t) e_dir i),
            loc
                ∙ (relocated_self e k d' new (location_at t k) e_dir
                    ∙ ground (arith, p, (==_iff d' x).0, (same_iff new m).0)),
          )
      | inr p ↦ elim (Bool-cases ((d == x) && same old m)) [
        | inl s ↦ absurd (let z : none ≡ some (dir k) = rw s at (rw p at r) in cc)
        | inr s ↦
            let z : get m (items_at t x) ≡ some (dir k) = rw s at (rw p at r) in
            let (c, y) = v x m k z in
            (omega (arith, l, c), loc ∙ (relocated_other t d x k old m e d' new v g y s ∙ y))
      ]
    ]
