-- ===== src/Kernel/TmpFs/Moves/Keep.antt =====
-- The directories of tee/kernel/src/fs/node/tmpfs.rs as a tree, and the changes of the items of one of them.
use mushroom.Prelude.{
  ℕ, ◌<◌, ◌≡◌, ◌≢◌, refl, sym, ap, ◌∙◌, none, some, length, length-set, ◌==◌, ==_iff, inl, inr,
  Bool-cases, arith,
}
use mathlib.Core.Path.{subst}
use mushroom.Kernel.TmpFs.Names.{Name, same}
use mushroom.Kernel.TmpFs.{
  Entry, dir, directory, Items, get, insert, remove, TmpFs, dir_at, items_at, set_items, place,
}
use mushroom.Kernel.TmpFs.Moves.{removed}
use mushroom.Kernel.TmpFs.Moves.Trees.{
  location_at, IsTree, get-insert, get-remove, items-set_items, drop_option-dirs, drop_entry-dirs,
}
use mushroom.Kernel.TmpFs.Moves.Rename.{IsRooted, same-Climbs}

-- Every parent is there.
abbrev pub IsBounded : TmpFs → Type 0
IsBounded t = (k p : ℕ) (n : Name) → location_at t k ≡ directory p n → p < length t.dirs

abbrev pub IsValid : TmpFs → Type 0
IsValid t = IsTree t × IsRooted t × IsBounded t

-- A change of the items of one directory that brings no directory to them.
pub set_items-IsValid :
    (t : TmpFs) (d : ℕ) (items : Items)
    → d < length t.dirs
    → ((m : Name) (k : ℕ) → get m items ≡ some (dir k) → get m (items_at t d) ≡ some (dir k))
    → IsValid t
    → IsValid (set_items d items t)
set_items-IsValid t d items h c (v, r, b) =
    let l = length-set t.dirs d (record (dir_at t d) { items = items }) in
    (
      λ x m k q.
          let w = items-set_items t d x items h in
          let z : get m (items_at t x) ≡ some (dir k) = elim (Bool-cases (d == x)) [
            | inl p ↦
                subst (λ y. get m (items_at t y) ≡ some (dir k)) ((==_iff d x).0 p)
                  (c m k (sym (ap (get m) (w.0 ∙ rw p refl)) ∙ q))
            | inr p ↦ sym (ap (get m) (w.0 ∙ rw p refl)) ∙ q
          ] in
          let (i, y) = v x m k z in (omega (arith, l, i), (items-set_items t d k items h).1 ∙ y),
      λ k. same-Climbs (λ x. (items-set_items t d x items h).1) (r k),
      λ k p n q. let i = b k p n (sym (items-set_items t d k items h).1 ∙ q) in omega (arith, l, i),
    )

pub dirs-IsValid : (t u : TmpFs) → u.dirs ≡ t.dirs → IsValid t → IsValid u
dirs-IsValid t u e v = subst (λ ds. IsValid (record t { dirs = ds })) (sym e) v

pub insert-IsValid :
    (t : TmpFs) (d : ℕ) (n : Name) (e : Entry)
    → d < length t.dirs
    → ((k : ℕ) → e ≢ dir k)
    → IsValid t
    → IsValid (set_items d (insert n e (items_at t d)) t)
insert-IsValid t d n e h c = set_items-IsValid t d (insert n e (items_at t d)) h back
  where
    back :
        (m : Name) (k : ℕ)
        → get m (insert n e (items_at t d)) ≡ some (dir k)
        → get m (items_at t d) ≡ some (dir k)
    back m k q =
        let z = sym (get-insert (items_at t d) n m e) ∙ q in
        elim (Bool-cases (same n m)) [
          | inl p ↦ absurd (let y : some e ≡ some (dir k) = rw p at z in c k cc)
          | inr p ↦ rw p at z
        ]

pub removed-IsValid :
    (t : TmpFs) (d : ℕ) (n : Name) (e : Entry)
    → d < length t.dirs
    → IsValid t
    → IsValid (removed d n e t)
removed-IsValid t d n e h v =
    let u = set_items d (remove n (items_at t d)) t in
    dirs-IsValid u (removed d n e t) (drop_entry-dirs e u)
      (set_items-IsValid t d (remove n (items_at t d)) h back v)
  where
    back :
        (m : Name) (k : ℕ)
        → get m (remove n (items_at t d)) ≡ some (dir k)
        → get m (items_at t d) ≡ some (dir k)
    back m k q =
        let z = sym (get-remove (items_at t d) n m) ∙ q in
        elim (Bool-cases (same n m)) [
          | inl p ↦ absurd (let y : none ≡ some (dir k) = rw p at z in cc)
          | inr p ↦ rw p at z
        ]

pub place-IsValid :
    (t : TmpFs) (d : ℕ) (n : Name) (e : Entry)
    → d < length t.dirs
    → ((k : ℕ) → e ≢ dir k)
    → IsValid t
    → IsValid (place d n e t)
place-IsValid t d n e h c v =
    let u = set_items d (insert n e (items_at t d)) t in
    dirs-IsValid u (place d n e t) (drop_option-dirs (get n (items_at t d)) u)
      (insert-IsValid t d n e h c v)
