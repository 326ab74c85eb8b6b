-- ===== src/Kernel/Lookup.antt =====
-- tee/kernel/src/fs/node.rs: finding a node by its path. The limit of symlinks to follow, the one
-- field of the context that changes, is a state.
pub mod INode
pub mod Ends
pub mod Parents
pub mod Create
pub mod Makes
mod Tests
use mushroom.Prelude.{
  ℕ, zero, suc, ◌-◌, Bool, true, false, not, List, [], ◌∷◌, Option, none, some, ◌==◌, if◌then◌else◌,
}
use mushroom.Prelude.ErrorKind.{
  ErrorKind, no_ent, not_dir, is_dir, not_empty, inval, exist, busy, loop, Result, err, ok, ensure,
}
use mushroom.Kernel.Ownership.{FileAccessContext}
use mushroom.Kernel.Path as Paths
use mushroom.Kernel.Lookup.INode.{Link, no_link, target, jump, Nodes, enter}

-- A step of a lookup: it changes the limit; `none` where the fuel runs out.
abbrev pub Lookup : Type 0 → Type 0
Lookup A = ℕ → Option (ℕ × Result A)

abbrev pub done : {A : Type 0} → Result A → Lookup A
done r limit = some (limit, r)

abbrev pub out_of_fuel : {A : Type 0} → Lookup A
out_of_fuel limit = none

-- `?`
abbrev pub follow_with :
    {A B : Type 0} → (A → Lookup B) → Option (ℕ × Result A) → Option (ℕ × Result B)
follow_with next none = none
follow_with next (some (limit, err kind)) = some (limit, err kind)
follow_with next (some (limit, ok a)) = next a limit

infixl 5 ◌>>=◌
abbrev pub ◌>>=◌ : {A B : Type 0} → Lookup A → (A → Lookup B) → Lookup B
(step >>= next) limit = follow_with next (step limit)

infixl 5 ◌>>◌
abbrev pub ◌>>◌ : {B : Type 0} → Lookup (Unit {0}) → Lookup B → Lookup B
step >> next = step >>= λ _. next

-- `FileAccessContext::follow_symlink`
unfoldable pub follow_symlink : Lookup (Unit {0})
follow_symlink zero = some (zero, err loop)
follow_symlink (suc limit) = some (limit, ok tt)

module _ {N : Type 0} (nodes : Nodes N) (ctx : FileAccessContext) where
  -- `try_resolve_link`, with the lookup of a path.
  unfoldable pub try_resolve_link :
      (N → List ℕ → Lookup (N × N)) → Link N → N → Lookup (Option (N × N))
  try_resolve_link look no_link start = done (ok none)
  try_resolve_link look (target path) start = do
    follow_symlink
    p ← done path
    next ← look start p
    done (ok (some next))
  try_resolve_link look (jump node) start = do
    follow_symlink
    n ← done node
    done (ok (some (start, n)))

  -- `resolve_links`, on fuel.
  unfoldable pub resolve_links : (N → List ℕ → Lookup (N × N)) → ℕ → N → N → Lookup N
  unfolding try_resolve_link
  resolve_links look zero node start = out_of_fuel
  resolve_links look (suc fuel) node start =
      let rest = λ (s n : N). resolve_links look fuel n s in
      try_resolve_link look (nodes.link node) start >>= λ r. elim r [
        | none ↦ done (ok node)
        | some (s, n) ↦ rest s n
      ]

  -- `try_fold` with that body
  unfoldable pub walk_segments :
      (N → N → Lookup N) → List Paths.PathSegment → N → N → Lookup (N × N)
  walk_segments resolve [] start node = done (ok (start, node))
  walk_segments resolve (s ∷ segments) start node = do
    n ← resolve node start
    next ← done (enter nodes ctx start s n)
    walk_segments resolve segments next.0 next.1

  -- `lookup_node_with_parent`, on fuel.
  unfoldable pub lookup_node_with_parent : ℕ → N → List ℕ → Lookup (N × N)
  unfolding walk_segments resolve_links
  lookup_node_with_parent zero start path = out_of_fuel
  lookup_node_with_parent (suc fuel) start path = elim (Paths.segments path) [
    | none ↦ out_of_fuel
    | some segments ↦
        walk_segments (resolve_links (lookup_node_with_parent fuel) (suc fuel)) segments start start
  ]
