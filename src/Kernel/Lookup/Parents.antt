-- ===== src/Kernel/Lookup/Parents.antt =====
-- tee/kernel/src/fs/node.rs: the directory and the last segment that a path names, and the calls that change the file
-- system there. The state of the file system is a parameter, with the methods of `INode` that change it.
pub mod Directory
pub mod Permitted
use mushroom.Prelude.{
  ℕ, zero, suc, Bool, true, false, not, ◌||◌, List, [], ◌∷◌, Option, none, some, if◌then◌else◌,
}
use mushroom.Prelude.ErrorKind.{
  ErrorKind, is_dir, not_empty, inval, exist, busy, Result, err, ok, ensure,
}
use mushroom.Prelude.Outcome.{Outcome, panics, returns}
use mushroom.Kernel.Ownership.{write, FileAccessContext}
use mushroom.Kernel.Path as Paths
use mushroom.Kernel.Lookup.INode.{Nodes, permitted, searchable}
use mushroom.Kernel.Lookup.{
  Lookup, done, out_of_fuel, ◌>>=◌, ◌>>◌, resolve_links, lookup_node_with_parent,
}

module _ {N : Type 0} (nodes : Nodes N) (ctx : FileAccessContext) where
  -- `lookup_node` and `lookup_and_resolve_node`
  pub lookup_node : ℕ → N → List ℕ → Lookup N
  lookup_node fuel start path = do
    found ← lookup_node_with_parent nodes ctx fuel start path
    done (ok found.1)

  pub lookup_and_resolve_node : ℕ → N → List ℕ → Lookup N
  lookup_and_resolve_node fuel start path = do
    found ← lookup_node_with_parent nodes ctx fuel start path
    resolve_links nodes ctx (lookup_node_with_parent nodes ctx fuel) (suc fuel) found.1 found.0

  -- The directory that a segment which is not the last one leads to.
  pub descend : ℕ → N → Paths.PathSegment → Lookup N
  descend fuel d Paths.root = done (ok (nodes.root_node))
  descend fuel d Paths.dot_dot = done (nodes.parent d)
  descend fuel d (Paths.file_name name) = do
    node ← done (nodes.get_node d name)
    resolve_links nodes ctx (lookup_node_with_parent nodes ctx fuel) (suc fuel) node d
  descend fuel d _ = done (ok d)

  -- `try_fold` in `find_parent`: the directory, the last segment, and whether a slash follows it.
  pub fold_parents :
      ℕ
      → List Paths.PathSegment
      → N
      → Paths.PathSegment
      → Bool
      → Lookup (N × Paths.PathSegment × Bool)
  fold_parents fuel [] d last slash = done (ok (d, last, slash))
  fold_parents fuel (Paths.empty ∷ segments) d last slash = fold_parents fuel segments d last true
  fold_parents fuel (s ∷ segments) d last slash = do
    next ← descend fuel d last
    done (searchable nodes ctx next)
    fold_parents fuel segments next s false

  -- `find_parent`
  pub parent_of : ℕ → N → List Paths.PathSegment → Lookup (N × Paths.PathSegment × Bool)
  parent_of fuel start [] = done (err inval)
  parent_of fuel start (first ∷ segments) = do
    found ← fold_parents fuel segments start first false
    done (searchable nodes ctx found.0)
    done (ok found)

  pub find_parent : ℕ → N → List ℕ → Lookup (N × Paths.PathSegment × Bool)
  find_parent fuel start path = elim (Paths.segments path) [
    | none ↦ out_of_fuel
    | some segments ↦ parent_of fuel start segments
  ]

-- The methods of a directory that change the file system.
pub record Edits (N S : Type 0) : Type 0 where
  pub nodes : S → Nodes N
  pub delete_non_dir : N → List ℕ → S → S × Result (Unit {0})
  pub delete_dir : N → List ℕ → S → S × Result (Unit {0})
  pub rename : N → List ℕ → Bool → N → List ℕ → Bool → S → S × Result (Unit {0})
  pub exchange : N → List ℕ → N → List ℕ → S → S × Result (Unit {0})

-- How a call ends, `none` where the fuel runs out.
abbrev pub Call : Type 0 → Type 0
Call S = Option (Outcome (S × Result (Unit {0})))

abbrev pub refused : {S : Type 0} → S → ErrorKind → Call S
refused s kind = some (returns (s, err kind))

abbrev pub answered : {S : Type 0} → S × Result (Unit {0}) → Call S
answered r = some (returns r)

-- What follows a lookup.
abbrev pub after : {S A : Type 0} → S → (A → ℕ → Call S) → Option (ℕ × Result A) → Call S
after s next none = none
after s next (some (limit, err kind)) = refused s kind
after s next (some (limit, ok a)) = next a limit

module _ {N S : Type 0} (edits : Edits N S) (ctx : FileAccessContext) (fuel : ℕ) where
  -- `check_permissions` for writing, then a method.
  abbrev pub where_writable : S → N → Call S → Call S
  where_writable s parent next = elim (permitted (edits.nodes s) ctx write parent) [
    | err kind ↦ refused s kind
    | ok u ↦ next
  ]

  pub unlink_file_at : S → N × Paths.PathSegment × Bool → ℕ → Call S
  unlink_file_at s (parent, Paths.file_name name, slash) limit =
      if slash
      then refused s is_dir
      else where_writable s parent (answered (edits.delete_non_dir parent name s))
  unlink_file_at s (parent, _, slash) limit = refused s is_dir

  -- `unlink_file`
  pub unlink_file : N → List ℕ → S → ℕ → Call S
  unlink_file start path s limit =
      after s (unlink_file_at s) (find_parent (edits.nodes s) ctx fuel start path limit)

  pub unlink_dir_at : S → N × Paths.PathSegment × Bool → ℕ → Call S
  unlink_dir_at s (parent, Paths.root, slash) limit = refused s not_empty
  unlink_dir_at s (parent, Paths.empty, slash) limit = some panics
  unlink_dir_at s (parent, Paths.dot, slash) limit = refused s inval
  unlink_dir_at s (parent, Paths.dot_dot, slash) limit = refused s not_empty
  unlink_dir_at s (parent, Paths.file_name name, slash) limit =
      where_writable s parent (answered (edits.delete_dir parent name s))

  -- `unlink_dir`
  pub unlink_dir : N → List ℕ → S → ℕ → Call S
  unlink_dir start path s limit =
      after s (unlink_dir_at s) (find_parent (edits.nodes s) ctx fuel start path limit)

  abbrev pub old_name : Paths.PathSegment → Result (List ℕ)
  old_name (Paths.file_name name) = ok name
  old_name Paths.root = err is_dir
  old_name Paths.empty = err is_dir
  old_name _ = err busy

  abbrev pub new_name : ErrorKind → Paths.PathSegment → Result (List ℕ)
  new_name kind (Paths.file_name name) = ok name
  new_name kind _ = err kind

  -- The ends of `rename` and `exchange`, with both parents found: by the method that they call and the error for a new
  -- path without a name.
  pub move_at :
      ErrorKind
      → (List ℕ → List ℕ → S × Result (Unit {0}))
      → S
      → N
      → N
      → List ℕ
      → Paths.PathSegment
      → Call S
  move_at kind method s from to old last = elim (new_name kind last) [
    | err k ↦ refused s k
    | ok new ↦ where_writable s from (where_writable s to (answered (method old new)))
  ]

  -- With the new parent found, and with the old one.
  pub to_place :
      ErrorKind
      → (N → List ℕ → N → List ℕ → S × Result (Unit {0}))
      → S
      → N
      → List ℕ
      → N × Paths.PathSegment × Bool
      → ℕ
      → Call S
  to_place kind method s d old to right = move_at kind (λ o n. method d o to.0 n) s d to.0 old to.1

  pub from_place :
      ErrorKind
      → (N → List ℕ → N → List ℕ → S × Result (Unit {0}))
      → S
      → N
      → List ℕ
      → N × Paths.PathSegment × Bool
      → ℕ
      → Call S
  from_place kind method s newd new_path from left = elim (old_name from.1) [
    | err k ↦ refused s k
    | ok old ↦
        after s (to_place kind method s from.0 old)
          (find_parent (edits.nodes s) ctx fuel newd new_path left)
  ]

  pub move_names :
      ErrorKind
      → (N → List ℕ → N → List ℕ → S × Result (Unit {0}))
      → N
      → List ℕ
      → N
      → List ℕ
      → S
      → ℕ
      → Call S
  move_names kind method oldd old_path newd new_path s limit =
      after s (from_place kind method s newd new_path)
        (find_parent (edits.nodes s) ctx fuel oldd old_path limit)

  pub rename : N → List ℕ → N → List ℕ → Bool → S → ℕ → Call S
  rename oldd old_path newd new_path no_replace s limit =
      let check_is_dir = Paths.has_trailing_slash old_path || Paths.has_trailing_slash new_path in
      move_names exist (λ from old to new. edits.rename from old check_is_dir to new no_replace s)
        oldd old_path newd new_path s limit

  pub exchange : N → List ℕ → N → List ℕ → S → ℕ → Call S
  exchange oldd old_path newd new_path s limit =
      move_names is_dir (λ from old to new. edits.exchange from old to new s) oldd old_path newd
        new_path s limit
