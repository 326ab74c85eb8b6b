-- ===== src/Kernel/TmpFs/Moves.antt =====
-- tee/kernel/src/fs/node/tmpfs.rs: deleting, renaming, exchanging and linking the entries of directories of
-- one tmpfs. A mutex of the kernel spins: a call that takes a lock that it holds itself never ends.
pub mod Trees
pub mod Moved
pub mod Roots
pub mod Rename
pub mod Keep
pub mod Exchange
pub mod Create
pub mod Calls
pub mod Steps
use mushroom.Prelude.{
  ℕ, zero, suc, Bool, true, false, not, ◌&&◌, ◌||◌, List, [], ◌∷◌, Option, none, some, ◌==◌,
  if◌then◌else◌,
}
use mushroom.Prelude.ErrorKind.{
  ErrorKind, exist, no_ent, not_dir, is_dir, not_empty, busy, perm, inval, Result, err, ok, ensure,
  ◌>>=◌,
}
use mushroom.Kernel.TmpFs.Names.{Name, same}
use mushroom.Kernel.TmpFs.{
  Entry, file, dir, symlink, char_dev, fifo, mount_of, Items, get, insert, remove, TmpFs, items_at,
  set_items, clone_entry, drop_entry, drop_option, relocate, place, parent,
}

-- What a method does: it ends, with the file system and its result, or it waits for its own lock.
pub data Answer {ℓ} (T : Type ℓ) : Type ℓ where
  ends : TmpFs → Result T → Answer T
  hangs : Answer T

abbrev pub no_items : Items → Bool
no_items [] = true
no_items (i ∷ items) = false

-- `TmpFsDirEntry::ty` and `is_empty_dir`; what a mounted node answers is a parameter.
abbrev pub entry_is_dir : (ℕ → Bool) → Entry → Bool
entry_is_dir mounted_dir (dir k) = true
entry_is_dir mounted_dir (mount_of m) = mounted_dir m
entry_is_dir mounted_dir _ = false

abbrev pub entry_is_empty : (ℕ → Bool) → TmpFs → Entry → Bool
entry_is_empty mounted_empty t (dir k) = no_items (items_at t k)
entry_is_empty mounted_empty t (mount_of m) = mounted_empty m
entry_is_empty mounted_empty t _ = false

abbrev pub removed : ℕ → Name → Entry → TmpFs → TmpFs
removed d n e t = drop_entry e (set_items d (remove n (items_at t d)) t)

-- `TmpFsDir::delete_non_dir`
unfoldable pub delete_non_dir : (ℕ → Bool) → ℕ → Name → TmpFs → TmpFs × Result (Unit {0})
delete_non_dir mounted_dir d n t = elim (get n (items_at t d)) [
  | none ↦ (t, err no_ent)
  | some e ↦ if entry_is_dir mounted_dir e then (t, err is_dir) else (removed d n e t, ok tt)
]

-- `TmpFsDir::delete_dir`
unfoldable pub delete_dir : (ℕ → Bool) → (ℕ → Bool) → ℕ → Name → TmpFs → TmpFs × Result (Unit {0})
delete_dir mounted_dir mounted_empty d n t = elim (get n (items_at t d)) [
  | none ↦ (t, err no_ent)
  | some e ↦
      if not (entry_is_dir mounted_dir e)
      then (t, err not_dir)
      else if not (entry_is_empty mounted_empty t e)
      then (t, err not_empty)
      else (removed d n e t, ok tt)
]

-- Whether the entry is a directory of this file system, with that number.
abbrev pub is_entry_of : Entry → ℕ → Bool
is_entry_of (dir k) d = k == d
is_entry_of _ d = false

abbrev pub is_own_dir : Entry → Bool
is_own_dir (dir k) = true
is_own_dir _ = false

-- `can_rename` over an entry that is there, while the two directories are locked; `none` where it waits for one
-- of them.
abbrev pub over_leaf : Entry → Option (Result (Unit {0}))
over_leaf (dir k) = some (err not_dir)
over_leaf (mount_of m) = some (err busy)
over_leaf _ = some (ok tt)

abbrev pub over_dir : ℕ → ℕ → TmpFs → Entry → ℕ → Option (Result (Unit {0}))
over_dir d d' t (dir k) l =
    if (l == d) || (l == d') then none else some (ensure (no_items (items_at t l)) not_empty)
over_dir d d' t (mount_of m) l = some (err busy)
over_dir d d' t _ l = some (err is_dir)

abbrev pub over : ℕ → ℕ → TmpFs → Entry → Option Entry → Option (Result (Unit {0}))
over d d' t old none = some (ok tt)
over d d' t old (some (dir l)) = over_dir d d' t old l
over d d' t old (some (mount_of m)) = some (err busy)
over d d' t old (some _) = over_leaf old

-- `can_rename`
unfoldable pub can_rename : ℕ → ℕ → TmpFs → Entry → Option Entry → Bool → Option (Result (Unit {0}))
can_rename d d' t old new check_is_dir =
    if check_is_dir && not (is_own_dir old) then some (err not_dir) else over d d' t old new

-- The loop that goes from a directory up to the root and looks for the entry, on fuel.
unfoldable pub walk : (ℕ → Bool) → ℕ → TmpFs → Entry → ℕ → Option (Result (Unit {0}))
unfolding parent
walk alive zero t e d = none
walk alive (suc fuel) t e d =
    let rest = λ (p : ℕ). walk alive fuel t e p in
    if is_entry_of e d then some (err inval) else elim (parent alive t d) [
      | err kind ↦ some (err kind)
      | ok p ↦ if p == d then some (ok tt) else rest p
    ]

-- The entry leaves its old place, and takes the new one.
abbrev pub move : ℕ → Name → ℕ → Name → Entry → TmpFs → TmpFs
move d old d' new e t =
    place d' new e (relocate e d' new (set_items d (remove old (items_at t d)) t))

-- What follows the two checks.
abbrev pub finish : TmpFs → TmpFs → Option (Result (Unit {0})) → Bool → Answer (Unit {0})
finish t t' none exists = hangs
finish t t' (some (err kind)) exists = ends t (err kind)
finish t t' (some (ok u)) exists = if exists then ends t (err exist) else ends t' (ok tt)

abbrev pub is_some : Option Entry → Bool
is_some none = false
is_some (some e) = true

-- `TmpFsDir::rename` in one directory
unfoldable pub rename_here : ℕ → Name → Bool → Name → Bool → TmpFs → Answer (Unit {0})
unfolding can_rename
rename_here d old check_is_dir new no_replace t = elim (get old (items_at t d)) [
  | none ↦ ends t (err no_ent)
  | some e ↦
      let there = get new (items_at t d) in
      if no_replace && (same new old || is_some there)
      then ends t (err exist)
      else if same new old
      then finish t t (can_rename d d t e none check_is_dir) false
      else finish t (move d old d new e t) (can_rename d d t e there check_is_dir) false
]

-- And from one directory to another; `none` where the fuel runs out.
abbrev pub after_walk :
    TmpFs → Answer (Unit {0}) → Option (Result (Unit {0})) → Option (Answer (Unit {0}))
after_walk t next none = none
after_walk t next (some (err kind)) = some (ends t (err kind))
after_walk t next (some (ok u)) = some next

unfoldable pub rename_to :
    (ℕ → Bool) → ℕ → ℕ → Name → Bool → ℕ → Name → Bool → TmpFs → Option (Answer (Unit {0}))
unfolding can_rename walk
rename_to alive fuel d old check_is_dir d' new no_replace t = elim (get old (items_at t d)) [
  | none ↦ some (ends t (err no_ent))
  | some e ↦
      let there = get new (items_at t d') in
      after_walk t
        (finish t (move d old d' new e t) (can_rename d d' t e there check_is_dir)
          (no_replace && is_some there))
        (walk alive fuel t e d')
]

-- `TmpFsDir::rename`
unfoldable pub rename :
    (ℕ → Bool) → ℕ → ℕ → Name → Bool → ℕ → Name → Bool → TmpFs → Option (Answer (Unit {0}))
unfolding rename_here rename_to
rename alive fuel d old check_is_dir d' new no_replace t =
    if d == d'
    then some (rename_here d old check_is_dir new no_replace t)
    else rename_to alive fuel d old check_is_dir d' new no_replace t

-- The two entries change places: the clone of the old one replaces the new one, which takes the new place for its
-- location and then replaces the old one.
abbrev pub swap : ℕ → Name → ℕ → Name → Entry → Entry → TmpFs → TmpFs
swap d old d' new e r t =
    let t1 = clone_entry e t in
    let t2 = set_items d' (insert new e (items_at t1 d')) t1 in
    let t3 = relocate r d' new t2 in drop_entry e (set_items d (insert old r (items_at t3 d)) t3)

-- `TmpFsDir::exchange`
unfoldable pub exchange :
    (ℕ → Bool) → ℕ → ℕ → Name → ℕ → Name → TmpFs → Option (TmpFs × Result (Unit {0}))
unfolding walk
exchange alive fuel d old d' new t =
    if (d == d') && same new old then some (t, ok tt) else elim (get old (items_at t d)) [
      | none ↦ some (t, err no_ent)
      | some e ↦ elim (get new (items_at t d')) [
        | none ↦ some (t, err no_ent)
        | some r ↦
            if d == d'
            then some (swap d old d' new e r t, ok tt)
            else elim (walk alive fuel t r d') [
              | none ↦ none
              | some (err kind) ↦ some (t, err kind)
              | some (ok u) ↦ some (swap d old d' new e r t, ok tt)
            ]
      ]
    ]

-- What `hard_link` refuses.
abbrev pub linkable : Entry → Result (Unit {0})
linkable (dir k) = err perm
linkable (mount_of m) = err busy
linkable _ = ok tt

abbrev pub link_at : ℕ → Name → Entry → TmpFs → TmpFs × Result (Option (List ℕ))
link_at d' new e t = elim (linkable e) [
  | err kind ↦ (t, err kind)
  | ok u ↦ elim (get new (items_at t d')) [
    | some r ↦ (t, err exist)
    | none ↦ (set_items d' (insert new e (items_at t d')) (clone_entry e t), ok none)
  ]
]

-- `TmpFsDir::hard_link`; the target of a symlink that is to be followed is the result.
abbrev pub followed : Bool → ℕ → Name → Entry → TmpFs → TmpFs × Result (Option (List ℕ))
followed true d' new (symlink i target) t = (t, ok (some target))
followed follow d' new e t = link_at d' new e t

unfoldable pub hard_link : ℕ → Name → Bool → ℕ → Name → TmpFs → TmpFs × Result (Option (List ℕ))
hard_link d old follow d' new t = elim (get old (items_at t d)) [
  | none ↦ (t, err no_ent)
  | some e ↦ followed follow d' new e t
]
