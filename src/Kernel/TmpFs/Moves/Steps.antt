-- ===== src/Kernel/TmpFs/Moves/Steps.antt =====
-- That the directories of tee/kernel/src/fs/node/tmpfs.rs stay a tree whatever is made, deleted, linked, mounted
-- and renamed in them.
use mushroom.Prelude.{
  ℕ, zero, suc, ◌+◌, ◌<◌, ◌≡◌, refl, sym, ◌∙◌, Bool, List, some, length, ◌==◌, inl, inr, Bool-cases,
  arith,
}
use mathlib.Core.Path.{subst}
use mushroom.Prelude.ErrorKind.{err, ok, Result}
use mushroom.Kernel.Ownership.{Ownership}
use mushroom.Kernel.TmpFs.Names.{Name}
use mushroom.Kernel.TmpFs.{
  Entry, dir, char_dev, fifo, mount_of, root, directory, get, TmpFs, items_at, create_file,
  create_dir, create_link, create_other, mount, root_alone,
}
use mushroom.Kernel.TmpFs.Moves.{ends, delete_non_dir, delete_dir, rename, hard_link}
use mushroom.Kernel.TmpFs.Moves.Trees.{location_at, relocated}
use mushroom.Kernel.TmpFs.Moves.Roots.{Climbs, height}
use mushroom.Kernel.TmpFs.Moves.Rename.{Renames, rename-Renames}
use mushroom.Kernel.TmpFs.Moves.Keep.{IsBounded, IsValid, place-IsValid}
use mushroom.Kernel.TmpFs.Moves.Create.{create_dir-IsValid}
use mushroom.Kernel.TmpFs.Moves.Calls.{
  create_file-IsValid, create_link-IsValid, create_other-IsValid, delete_non_dir-IsValid,
  delete_dir-IsValid, hard_link-IsValid,
}

-- A call on a directory that there is, and what it leaves; the nodes of other file systems answer as the parameters
-- say. A renaming is one that ends whenever the fuel is enough.
pub data Step (alive is_dir is_empty : ℕ → Bool) (t : TmpFs) : TmpFs → Type 0 where
  makes_file :
      (d : ℕ) (n : Name) (own : Ownership)
      → d < length t.dirs
      → Step alive is_dir is_empty t (create_file d n own t).0
  makes_dir :
      (d : ℕ) (n : Name) (own : Ownership)
      → d < length t.dirs
      → Step alive is_dir is_empty t (create_dir d n own t).0
  makes_link :
      (d : ℕ) (n : Name) (target : List ℕ) (create_new : Bool)
      → d < length t.dirs
      → Step alive is_dir is_empty t (create_link d n target create_new t).0
  makes_char_dev :
      (d : ℕ) (n : Name)
      → d < length t.dirs
      → Step alive is_dir is_empty t (create_other char_dev d n t).0
  makes_fifo :
      (d : ℕ) (n : Name)
      → d < length t.dirs
      → Step alive is_dir is_empty t (create_other fifo d n t).0
  mounts :
      (d : ℕ) (n : Name) (node : ℕ)
      → d < length t.dirs
      → Step alive is_dir is_empty t (mount d n node t).0
  deletes :
      (d : ℕ) (n : Name)
      → d < length t.dirs
      → Step alive is_dir is_empty t (delete_non_dir is_dir d n t).0
  deletes_dir :
      (d : ℕ) (n : Name)
      → d < length t.dirs
      → Step alive is_dir is_empty t (delete_dir is_dir is_empty d n t).0
  links :
      (d : ℕ) (old : Name) (follow : Bool) (d' : ℕ) (new : Name)
      → d < length t.dirs
      → d' < length t.dirs
      → Step alive is_dir is_empty t (hard_link d old follow d' new t).0
  renames :
      {t' : TmpFs} {r : Result (Unit {0})} (least d : ℕ) (old : Name) (check_is_dir : Bool) (d' : ℕ)
      (new : Name) (no_replace : Bool)
      → d < length t.dirs
      → d' < length t.dirs
      → ((fuel : ℕ)
          → least < fuel
          → rename alive fuel d old check_is_dir d' new no_replace t ≡ some (ends t' r))
      → Step alive is_dir is_empty t t'

-- Calls one after another.
pub data Run (alive is_dir is_empty : ℕ → Bool) (t : TmpFs) : TmpFs → Type 0 where
  start : Run alive is_dir is_empty t t
  next :
      {u w : TmpFs}
      → Run alive is_dir is_empty t u
      → Step alive is_dir is_empty u w
      → Run alive is_dir is_empty t w

root_alone-IsValid : (own : Ownership) → IsValid (root_alone own)
unfolding root_alone get
root_alone-IsValid own = (
  λ d n k q. absurd (no_entry d n k q),
  λ k. Climbs.top (at_root k),
  λ k p n q. let z = sym (at_root k) ∙ q in cc,
)
  where
    no_entry : (d : ℕ) (n : Name) (k : ℕ) → get n (items_at (root_alone own) d) ≡ some (dir k) → ⊥
    no_entry zero n k q = cc
    no_entry (suc d) n k q = cc

    at_root : (k : ℕ) → location_at (root_alone own) k ≡ root
    at_root zero = refl
    at_root (suc k) = refl

relocated-IsBounded :
    (t t' : TmpFs) (e : Entry) (d : ℕ) (n : Name)
    → length t'.dirs ≡ length t.dirs
    → ((x : ℕ) → location_at t' x ≡ relocated e x d n (location_at t x))
    → d < length t.dirs
    → IsBounded t
    → IsBounded t'
relocated-IsBounded t t' (dir j) d n l loc h b k p m q =
    let z = sym (loc k) ∙ q in
    elim (Bool-cases (j == k)) [
      | inl e ↦
          let y : directory d n ≡ directory p m = rw e at z in
          let x : d ≡ p = cc in omega (arith, h, l, x)
      | inr e ↦
          let y : location_at t k ≡ directory p m = rw e at z in
          let i = b k p m y in omega (arith, i, l)
    ]
relocated-IsBounded t t' e d n l loc h b k p m q =
    let i = b k p m (sym (loc k) ∙ q) in omega (arith, i, l)

ended-IsValid :
    (t t' : TmpFs) (r : Result (Unit {0})) (d : ℕ) (old : Name) (d' : ℕ) (new : Name)
    → d' < length t.dirs
    → IsValid t
    → Renames t d old d' new (some (ends t' r))
    → IsValid t'
ended-IsValid t t' (err kind) d old d' new h v q = subst IsValid (sym q) v
ended-IsValid t t' (ok u) d old d' new h (v, r, b) (tree, rooted, e, g, l, loc, places) =
    (tree, rooted, relocated-IsBounded t t' e d' new l loc h b)

module _ (alive is_dir is_empty : ℕ → Bool) where
  Step-IsValid : {t t' : TmpFs} → IsValid t → Step alive is_dir is_empty t t' → IsValid t'
  unfolding mount
  Step-IsValid {t} v (makes_file d n own h) = create_file-IsValid is_dir is_empty t d n own h v
  Step-IsValid {t} v (makes_dir d n own h) = create_dir-IsValid t d n own h v
  Step-IsValid {t} v (makes_link d n target new h) =
      create_link-IsValid is_dir is_empty t d n target new h v
  Step-IsValid {t} v (makes_char_dev d n h) =
      create_other-IsValid is_dir is_empty char_dev t d n (λ i k e. cc) h v
  Step-IsValid {t} v (makes_fifo d n h) =
      create_other-IsValid is_dir is_empty fifo t d n (λ i k e. cc) h v
  Step-IsValid {t} v (mounts d n node h) = place-IsValid t d n (mount_of node) h (λ k e. cc) v
  Step-IsValid {t} v (deletes d n h) = delete_non_dir-IsValid is_dir is_empty t d n h v
  Step-IsValid {t} v (deletes_dir d n h) = delete_dir-IsValid is_dir is_empty t d n h v
  Step-IsValid {t} v (links d old follow d' new h h') =
      hard_link-IsValid is_dir is_empty t d old follow d' new h' v
  Step-IsValid {t} {t'} v (renames {r} least d old check d' new no_replace h h' f) =
      let (tree, rooted, b) = v in
      let fuel = suc (least + height (rooted d')) in
      ended-IsValid t t' r d old d' new h' v (
        subst (Renames t d old d' new) (f fuel (omega arith)) (
          rename-Renames alive fuel t d d' old new h h' tree rooted (omega arith) check no_replace))

  -- The directories are a tree, from every one of which the root is reached, and every parent is there, whatever calls
  -- that make, delete, mount, link and rename entries were made since there was the root alone, where each
  -- renaming that ended had enough fuel; an exchange is no such call.
  pub Run-IsValid :
      (own : Ownership) {t : TmpFs} → Run alive is_dir is_empty (root_alone own) t → IsValid t
  Run-IsValid own start = root_alone-IsValid own
  Run-IsValid own (next r s) = Step-IsValid (Run-IsValid own r) s
