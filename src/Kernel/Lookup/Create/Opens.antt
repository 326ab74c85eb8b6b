-- ===== src/Kernel/Lookup/Create/Opens.antt =====
-- What `create_file` of tee/kernel/src/fs/node.rs gives: a new file, or one that the context may open.
use mushroom.Prelude.{
  ℕ, zero, suc, ◌<◌, ◌≤◌, ◌≡◌, ◌≢◌, refl, Bool, true, false, not, List, [], Option, none, some,
  if◌then◌else◌, inl, inr, ◌⊎◌, Bool-cases, arith,
}
use mushroom.Prelude.ErrorKind.{Result, err, ok, exist, loop, ensure, ◌>>◌}
use mushroom.Kernel.Ownership.{FileAccessContext}
use mushroom.Kernel.Path as Paths
use mushroom.Kernel.Lookup.INode.{is_dir_type, Stat, searchable}
use mushroom.Kernel.Lookup.{follow_symlink}
use mushroom.Kernel.Lookup.Parents.{find_parent}
use mushroom.Kernel.Lookup.Parents.Directory.{Gives, Found, find_parent-Gives}
use mushroom.Kernel.Lookup.Create.{
  OpenFlags, Creates, is_link_type, Reply, after, may_open, open_existing, link_path, found_node,
  found_place, create_file,
}

ensured : (b : Bool) (u : Unit) → ensure (not b) exist ≡ ok u → b ≡ false
ensured true u q = cc
ensured false u q = refl

module _ {N S : Type 0} (creates : Creates N S) (ctx : FileAccessContext) (fuel : ℕ)
    (flags : OpenFlags) where
  -- A file that was just made, in a directory that the context may search.
  abbrev pub IsMade : S → N → Type 0
  IsMade s node =
      (s' : S) × (d : N) × (name : List ℕ) × (searchable (creates.nodes s') ctx d ≡ ok tt)
      × (creates.create_file d name s' ≡ (s, ok (true, node)))

  -- A file that was there: no directory and no symlink, not with `O_EXCL`, and the context has the permissions.
  abbrev pub IsOpen : S → N → Type 0
  IsOpen s node =
      (stat : Stat) × ((creates.nodes s).stat node ≡ ok stat)
      × (is_dir_type stat.ty ≡ false)
      × (is_link_type stat.ty ≡ false)
      × (flags.excl ≡ false)
      × (may_open creates ctx fuel flags s node ≡ ok tt)

  abbrev pub Opens : Reply N S → Type 0
  Opens none = ⊥
  Opens (some (s, err kind)) = Unit
  Opens (some (s, ok node)) = IsMade s node ⊎ IsOpen s node

  existing-Opens :
      (s : S) (node : N) (stat : Stat)
      → (creates.nodes s).stat node ≡ ok stat
      → is_link_type stat.ty ≡ false
      → Opens (some (s, open_existing creates ctx fuel flags s node stat.ty))
  existing-Opens s node stat q l =
      go (ensure (not (is_dir_type stat.ty)) exist) (ensure (not flags.excl) exist)
        (may_open creates ctx fuel flags s node) refl refl refl
    where
      go :
          (r1 r2 r3 : Result (Unit {0}))
          → ensure (not (is_dir_type stat.ty)) exist ≡ r1
          → ensure (not flags.excl) exist ≡ r2
          → may_open creates ctx fuel flags s node ≡ r3
          → Opens (some (s, r1 >> (r2 >> (r3 >> ok node))))
      go (err k) r2 r3 d x m = tt
      go (ok u) (err k) r3 d x m = tt
      go (ok u) (ok v) (err k) d x m = tt
      go (ok u) (ok v) (ok w) d x m =
          inr (stat, q, ensured (is_dir_type stat.ty) u d, l, ensured flags.excl v x, m)

  module _ (full : (s : S) (n : N) (p : List ℕ) → creates.read_link s n ≡ ok p → p ≢ [])
      (again : N → List ℕ → S → ℕ → Reply N S) (limit : ℕ)
      (h : (d : N) (p : List ℕ) (s : S) (l : ℕ) → l < limit → p ≢ [] → Opens (again d p s l)) where
    link_path-full :
        (s : S) (node : N) (p : List ℕ) → link_path creates ctx fuel flags s node ≡ ok p → p ≢ []
    link_path-full s node p q = elim (Bool-cases (flags.excl)) [
      | inl x ↦ absurd (let z : err exist ≡ ok p = rw (link_path, x) at q in cc)
      | inr x ↦ elim (Bool-cases (flags.nofollow)) [
        | inl y ↦ absurd (let z : err loop ≡ ok p = rw (link_path, x, y) at q in cc)
        | inr y ↦ full s node p (rw (link_path, x, y) at q)
      ]
    ]

    follow-Opens :
        (d : N) (p : List ℕ) (s : S) (l : ℕ)
        → l ≤ limit
        → p ≢ []
        → Opens (after s (λ u left. again d p s left) (follow_symlink l))
    unfolding follow_symlink
    follow-Opens d p s zero b q = tt
    follow-Opens d p s (suc l) b q = h d p s l (omega (arith, b)) q

    node-Opens :
        (d : N) (o : S × Result (Bool × N))
        → ((s : S) (node : N) → o ≡ (s, ok (true, node)) → IsMade s node)
        → Opens (found_node creates ctx fuel flags again d o limit)
    unfolding found_node
    node-Opens d (s, err kind) made = tt
    node-Opens d (s, ok (true, node)) made = inl (made s node refl)
    node-Opens d (s, ok (false, node)) made = go ((creates.nodes s).stat node) refl
      where
        onward :
            (r : Result (List ℕ))
            → link_path creates ctx fuel flags s node ≡ r
            → Opens (elim r [
              | err kind ↦ some (s, err kind)
              | ok path ↦ after s (λ u left. again d path s left) (follow_symlink limit)
            ])
        onward (err kind) q = tt
        onward (ok path) q =
            follow-Opens d path s limit (omega arith) (link_path-full s node path q)

        go :
            (r : Result Stat)
            → (creates.nodes s).stat node ≡ r
            → Opens (elim r [
              | err kind ↦ some (s, err kind)
              | ok stat ↦
                  if not (is_link_type stat.ty)
                  then some (s, open_existing creates ctx fuel flags s node stat.ty)
                  else elim (link_path creates ctx fuel flags s node) [
                    | err kind ↦ some (s, err kind)
                    | ok path ↦ after s (λ u left. again d path s left) (follow_symlink limit)
                  ]
            ])
        go (err kind) q = tt
        go (ok stat) q = elim (Bool-cases (is_link_type stat.ty)) [
          | inl p ↦ rw p (onward (link_path creates ctx fuel flags s node) refl)
          | inr p ↦ rw p (existing-Opens s node stat q p)
        ]

    place-Opens :
        (s : S) (p : N × Paths.PathSegment × Bool)
        → searchable (creates.nodes s) ctx p.0 ≡ ok tt
        → Opens (found_place creates ctx fuel flags again s p limit)
    unfolding found_place
    place-Opens s (d, Paths.file_name name, true) q = tt
    place-Opens s (d, Paths.file_name name, false) q =
        node-Opens d (creates.create_file d name s) (λ s' node e. (s, d, name, q, e))
    place-Opens s (d, _, slash) q = tt

  find-Opens :
      (again : N → List ℕ → S → ℕ → Reply N S) (s : S) (limit : ℕ)
      (o : Option (ℕ × Result (N × Paths.PathSegment × Bool)))
      → Gives (Found (creates.nodes s) ctx fuel) limit o
      → ((left : ℕ) (p : N × Paths.PathSegment × Bool)
          → left ≤ limit
          → searchable (creates.nodes s) ctx p.0 ≡ ok tt
          → Opens (found_place creates ctx fuel flags again s p left))
      → Opens (after s (found_place creates ctx fuel flags again s) o)
  find-Opens again s limit none g f = absurd g
  find-Opens again s limit (some (left, err kind)) g f = tt
  find-Opens again s limit (some (left, ok p)) (b, (q, i)) f = f left p b q

  -- Where no symlink has an empty target, with rounds and fuel above the limit of symlinks, on a path that is not empty,
  -- `create_file` ends: with an error; or with a file that the method `create_file` has just made in a directory that
  -- the context may search; or with a node that was there, which is no directory and no symlink, without `O_EXCL`, and
  -- which the context may open as the flags say.
  pub create_file-Opens :
      ((s : S) (n : N) (p : List ℕ) → creates.read_link s n ≡ ok p → p ≢ [])
      → (rounds : ℕ) (start : N) (path : List ℕ) (s : S) (limit : ℕ) → limit < rounds
      → limit < fuel
      → path ≢ []
      → Opens (create_file creates ctx fuel flags rounds start path s limit)
  unfolding create_file
  create_file-Opens full zero start path s limit r f h = absurd (omega (arith, r))
  create_file-Opens full (suc rounds) start path s limit r f h =
      find-Opens (λ d p t l. create_file creates ctx fuel flags rounds d p t l) s limit
        (find_parent (creates.nodes s) ctx fuel start path limit)
        (find_parent-Gives (creates.nodes s) ctx fuel start path limit f h)
        (λ left p b q.
          place-Opens full (λ d p t l. create_file creates ctx fuel flags rounds d p t l) left
            (λ d p t l c e.
              create_file-Opens full rounds d p t l (omega (arith, b, c, r))
                (omega (arith, b, c, f)) e)
            s p q)
