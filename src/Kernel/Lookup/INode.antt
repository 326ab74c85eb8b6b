-- ===== src/Kernel/Lookup/INode.antt =====
-- The methods of `INode` in tee/kernel/src/fs/node.rs that a lookup calls, as a record, and the body of the loop of
-- `lookup_node_with_parent`, which changes nothing.
use mushroom.Prelude.{ℕ, Bool, true, false, List}
use mushroom.Prelude.ErrorKind.{not_dir, Result, ok, ensure, ◌>>=◌, ◌>>◌}
use mushroom.Kernel.Ownership.{Permission, execute, Ownership, FileAccessContext, check_permissions}
use mushroom.Kernel.Path as Paths

-- `FileType`
pub data FileType : Type 0 where
  unknown fifo char dir block file link socket : FileType

abbrev pub is_dir_type : FileType → Bool
is_dir_type dir = true
is_dir_type _ = false

-- What a lookup reads of a `Stat`.
pub record Stat : Type 0 where
  pub ty : FileType
  pub ownership : Ownership

-- What `try_resolve_link` of a node does: nothing, or, when the limit allows to follow a symlink, go on with the target's
-- path, or give a node.
pub data Link (N : Type 0) : Type 0 where
  no_link : Link N
  target : Result (List ℕ) → Link N
  jump : Result N → Link N

-- The methods of `INode`
pub record Nodes (N : Type 0) : Type 0 where
  pub root_node : N
  pub stat : N → Result Stat
  pub parent : N → Result N
  pub get_node : N → List ℕ → Result N
  pub link : N → Link N

module _ {N : Type 0} (nodes : Nodes N) (ctx : FileAccessContext) where
  -- That a node is a directory, which the context has a permission for.
  abbrev pub is_a_dir : N → Result (Unit {0})
  is_a_dir node = do stat ← nodes.stat node; ensure (is_dir_type stat.ty) not_dir

  abbrev pub permitted : Permission → N → Result (Unit {0})
  permitted permission node = do
    stat ← nodes.stat node
    check_permissions ctx stat.ownership permission

  abbrev pub searchable : N → Result (Unit {0})
  searchable node = do
    stat ← nodes.stat node
    ensure (is_dir_type stat.ty) not_dir
    check_permissions ctx stat.ownership execute

  -- The body of the loop, on a node whose symlinks are resolved.
  pub enter : N → Paths.PathSegment → N → Result (N × N)
  enter start Paths.root node = ok (nodes.root_node, nodes.root_node)
  enter start Paths.empty node = do searchable node; ok (start, node)
  enter start Paths.dot node = do is_a_dir node; ok (start, node)
  enter start Paths.dot_dot node = do searchable node; p ← nodes.parent node; ok (p, p)
  enter start (Paths.file_name name) node = do
    searchable node
    n ← nodes.get_node node name
    ok (node, n)
