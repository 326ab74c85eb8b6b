-- ===== src/Kernel/Lookup/Makes.antt =====
-- `create_directory`, `create_fifo`, `create_char_dev` and `create_link` of tee/kernel/src/fs/node.rs, by the method of the
-- directory that they call; the node that `create_directory` gives is left out.
use mushroom.Prelude.{
  ℕ, ◌<◌, ◌≡◌, ◌≢◌, refl, true, false, List, [], Option, none, some, inl, inr, ◌⊎◌,
}
use mushroom.Prelude.ErrorKind.{ErrorKind, exist, Result, err, ok}
use mushroom.Kernel.Ownership.{FileAccessContext}
use mushroom.Kernel.Path as Paths
use mushroom.Kernel.Lookup.INode.{Nodes, searchable}
use mushroom.Kernel.Lookup.Parents.{find_parent, Call, refused, answered, after}
use mushroom.Kernel.Lookup.Parents.Directory.{Gives, Found, Place, find_parent-Gives}

module _ {N S : Type 0} (nodes : S → Nodes N) (method : N → List ℕ → S → S × Result (Unit {0}))
    (ctx : FileAccessContext) (fuel : ℕ) where
  pub make_at : S → Place N → ℕ → Call S
  make_at s (d, Paths.file_name name, slash) limit = answered (method d name s)
  make_at s (d, _, slash) limit = refused s exist

  -- `create_directory`, `create_fifo` and `create_char_dev`
  pub make_node : N → List ℕ → S → ℕ → Call S
  make_node start path s limit =
      after s (make_at s) (find_parent (nodes s) ctx fuel start path limit)

  -- A new symlink behind whose name there is a slash: only the error is a question.
  abbrev pub not_made : S → N → List ℕ → Call S
  not_made s d name = elim ((nodes s).get_node d name) [
    | err kind ↦ refused s kind
    | ok node ↦ refused s exist
  ]

  pub link_to : S → Place N → ℕ → Call S
  link_to s (d, Paths.file_name name, true) limit = not_made s d name
  link_to s (d, Paths.file_name name, false) limit = answered (method d name s)
  link_to s (d, _, slash) limit = refused s exist

  -- `create_link`
  pub create_link : N → List ℕ → S → ℕ → Call S
  create_link start path s limit =
      after s (link_to s) (find_parent (nodes s) ctx fuel start path limit)

  -- A call is refused, and nothing has changed, or it is the method on a directory that the context may search.
  abbrev pub Makes : S → Call S → Type 0
  Makes s call =
      ((kind : ErrorKind) × (call ≡ refused s kind))
      ⊎ ((d : N) × (name : List ℕ) × (searchable (nodes s) ctx d ≡ ok tt)
          × (call ≡ answered (method d name s)))

  make_at-Makes :
      (s : S) (p : Place N) (limit : ℕ)
      → searchable (nodes s) ctx p.0 ≡ ok tt
      → Makes s (make_at s p limit)
  unfolding make_at
  make_at-Makes s (d, Paths.file_name name, slash) limit q = inr (d, name, q, refl)
  make_at-Makes s (d, _, slash) limit q = inl (exist, refl)

  not_made-Makes : (s : S) (d : N) (name : List ℕ) → Makes s (not_made s d name)
  not_made-Makes s d name = go ((nodes s).get_node d name)
    where
      go :
          (r : Result N)
          → Makes s (elim r [ err kind ↦ refused s kind | ok node ↦ refused s exist ])
      go (err kind) = inl (kind, refl)
      go (ok node) = inl (exist, refl)

  link_to-Makes :
      (s : S) (p : Place N) (limit : ℕ)
      → searchable (nodes s) ctx p.0 ≡ ok tt
      → Makes s (link_to s p limit)
  unfolding link_to
  link_to-Makes s (d, Paths.file_name name, true) limit q = not_made-Makes s d name
  link_to-Makes s (d, Paths.file_name name, false) limit q = inr (d, name, q, refl)
  link_to-Makes s (d, _, slash) limit q = inl (exist, refl)

  after-Makes :
      (s : S) (next : Place N → ℕ → Call S) (limit : ℕ) (o : Option (ℕ × Result (Place N)))
      → ((p : Place N) (left : ℕ) → searchable (nodes s) ctx p.0 ≡ ok tt → Makes s (next p left))
      → Gives (Found (nodes s) ctx fuel) limit o
      → Makes s (after s next o)
  after-Makes s next limit none h g = absurd g
  after-Makes s next limit (some (left, err kind)) h g = inl (kind, refl)
  after-Makes s next limit (some (left, ok p)) h (b, (q, i)) = h p left q

  pub make_node-Makes :
      (start : N) (path : List ℕ) (s : S) (limit : ℕ)
      → limit < fuel
      → path ≢ []
      → Makes s (make_node start path s limit)
  unfolding make_node
  make_node-Makes start path s limit f h =
      after-Makes s (make_at s) limit (find_parent (nodes s) ctx fuel start path limit)
        (make_at-Makes s) (find_parent-Gives (nodes s) ctx fuel start path limit f h)

  pub create_link-Makes :
      (start : N) (path : List ℕ) (s : S) (limit : ℕ)
      → limit < fuel
      → path ≢ []
      → Makes s (create_link start path s limit)
  unfolding create_link
  create_link-Makes start path s limit f h =
      after-Makes s (link_to s) limit (find_parent (nodes s) ctx fuel start path limit)
        (link_to-Makes s) (find_parent-Gives (nodes s) ctx fuel start path limit f h)
