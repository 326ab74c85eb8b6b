-- ===== src/Kernel/Lookup/Create.antt =====
-- `create_file` of tee/kernel/src/fs/node.rs: a new file at a path, or the one that is there, through symlinks.
pub mod Opens
use mushroom.Prelude.{ℕ, zero, suc, Bool, true, false, not, List, Option, none, some, if◌then◌else◌}
use mushroom.Prelude.ErrorKind.{
  ErrorKind, is_dir, exist, loop, Result, err, ok, ensure, ◌>>=◌, ◌>>◌,
}
use mushroom.Kernel.Ownership.{read, write, FileAccessContext}
use mushroom.Kernel.Path as Paths
use mushroom.Kernel.Lookup.INode.{FileType, is_dir_type, Stat, Nodes, permitted}
use mushroom.Kernel.Lookup.{follow_symlink}
use mushroom.Kernel.Lookup.Parents.{find_parent}

-- The bits of `OpenFlags` that the function looks at.
pub record OpenFlags : Type 0 where
  pub excl : Bool
  pub nofollow : Bool
  pub wronly : Bool
  pub rdwr : Bool

-- The methods `create_file`, with whether the node is new, and `read_link`.
pub record Creates (N S : Type 0) : Type 0 where
  pub nodes : S → Nodes N
  pub create_file : N → List ℕ → S → S × Result (Bool × N)
  pub read_link : S → N → Result (List ℕ)

abbrev pub is_link_type : FileType → Bool
is_link_type FileType.link = true
is_link_type _ = false

-- How a call ends, `none` where the fuel runs out.
abbrev pub Reply : Type 0 → Type 0 → Type 0
Reply N S = Option (S × Result N)

abbrev pub after : {N S A : Type 0} → S → (A → ℕ → Reply N S) → Option (ℕ × Result A) → Reply N S
after s next none = none
after s next (some (limit, err kind)) = some (s, err kind)
after s next (some (limit, ok a)) = next a limit

module _ {N S : Type 0} (creates : Creates N S) (ctx : FileAccessContext) (fuel : ℕ)
    (flags : OpenFlags) where
  -- Whether the context may open the node as the flags say.
  abbrev pub may_open : S → N → Result (Unit {0})
  may_open s node =
      if flags.wronly
      then permitted (creates.nodes s) ctx write node
      else if flags.rdwr
      then (do
        permitted (creates.nodes s) ctx read node
        permitted (creates.nodes s) ctx write node)
      else permitted (creates.nodes s) ctx read node

  -- A node that is there and is no symlink.
  abbrev pub open_existing : S → N → FileType → Result N
  open_existing s node ty = do
    ensure (not (is_dir_type ty)) exist
    ensure (not flags.excl) exist
    may_open s node
    ok node

  -- The path of a symlink that is to be followed.
  abbrev pub link_path : S → N → Result (List ℕ)
  link_path s node = do
    ensure (not flags.excl) exist
    ensure (not flags.nofollow) loop
    creates.read_link s node

  pub found_node : (N → List ℕ → S → ℕ → Reply N S) → N → S × Result (Bool × N) → ℕ → Reply N S
  found_node again d (s, err kind) limit = some (s, err kind)
  found_node again d (s, ok (true, node)) limit = some (s, ok node)
  found_node again d (s, ok (false, node)) limit = elim ((creates.nodes s).stat node) [
    | err kind ↦ some (s, err kind)
    | ok stat ↦
        if not (is_link_type stat.ty)
        then some (s, open_existing s node stat.ty)
        else elim (link_path s node) [
          | err kind ↦ some (s, err kind)
          | ok path ↦ after s (λ u left. again d path s left) (follow_symlink limit)
        ]
  ]

  pub found_place :
      (N → List ℕ → S → ℕ → Reply N S) → S → N × Paths.PathSegment × Bool → ℕ → Reply N S
  found_place again s (d, Paths.file_name name, slash) limit =
      if slash
      then some (s, err is_dir)
      else found_node again d (creates.create_file d name s) limit
  found_place again s (d, _, slash) limit = some (s, err is_dir)

  -- `create_file`, on fuel.
  pub create_file : ℕ → N → List ℕ → S → ℕ → Reply N S
  create_file zero start path s limit = none
  create_file (suc rounds) start path s limit =
      after s (found_place (λ d p t l. create_file rounds d p t l) s)
        (find_parent (creates.nodes s) ctx fuel start path limit)
