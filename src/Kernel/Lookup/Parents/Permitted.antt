-- ===== src/Kernel/Lookup/Parents/Permitted.antt =====
-- What the calls of tee/kernel/src/fs/node.rs that take paths ask of the directories that they find.
use mushroom.Prelude.{
  ℕ, ◌<◌, ◌≡◌, ◌≢◌, refl, ◌∙◌, Bool, ◌||◌, List, [], Option, none, some, inl, inr, ◌⊎◌, arith,
}
use mushroom.Prelude.ErrorKind.{ErrorKind, Result, err, ok, exist}
use mushroom.Kernel.Ownership.{FileAccessContext, write}
use mushroom.Kernel.Path as Paths
use mushroom.Kernel.Lookup.INode.{permitted, searchable}
use mushroom.Kernel.Lookup.Parents.{
  find_parent, Edits, Call, refused, answered, after, where_writable, unlink_dir_at, unlink_dir,
  move_at, to_place, from_place, move_names, rename,
}
use mushroom.Kernel.Lookup.Parents.Directory.{Gives, Found, Place, find_parent-Gives}

module _ {N S : Type 0} (edits : Edits N S) (ctx : FileAccessContext) (fuel : ℕ) (s : S) where
  -- A directory that the context may search and write.
  abbrev pub May : N → Type 0
  May d =
      (searchable (edits.nodes s) ctx d ≡ ok tt) × (permitted (edits.nodes s) ctx write d ≡ ok tt)

  -- A call is refused, and nothing has changed, or it is the call of a method where the context may write.
  abbrev pub Unlinks : (N → List ℕ → S × Result (Unit {0})) → Call S → Type 0
  Unlinks method call =
      ((kind : ErrorKind) × (call ≡ refused s kind))
      ⊎ ((d : N) × (name : List ℕ) × May d × (call ≡ answered (method d name)))

  abbrev pub Moves : (N → List ℕ → N → List ℕ → S × Result (Unit {0})) → Call S → Type 0
  Moves method call =
      ((kind : ErrorKind) × (call ≡ refused s kind))
      ⊎ ((d : N) × (old : List ℕ) × (d' : N) × (new : List ℕ) × May d
          × May d'
          × (call ≡ answered (method d old d' new)))

  writable :
      (d : N) (next : Call S)
      → ((kind : ErrorKind) × (where_writable edits ctx fuel s d next ≡ refused s kind))
        ⊎ ((permitted (edits.nodes s) ctx write d ≡ ok tt)
            × (where_writable edits ctx fuel s d next ≡ next))
  writable d next = go (permitted (edits.nodes s) ctx write d) refl
    where
      go :
          (r : Result (Unit {0}))
          → permitted (edits.nodes s) ctx write d ≡ r
          → ((kind : ErrorKind) × (where_writable edits ctx fuel s d next ≡ refused s kind))
            ⊎ ((permitted (edits.nodes s) ctx write d ≡ ok tt)
                × (where_writable edits ctx fuel s d next ≡ next))
      go (err kind) q = inl (kind, rw (where_writable, q) refl)
      go (ok u) q = inr (q, rw (where_writable, q) refl)

  unlinks :
      (method : N → List ℕ → S × Result (Unit {0})) (d : N) (name : List ℕ)
      → searchable (edits.nodes s) ctx d ≡ ok tt
      → Unlinks method (where_writable edits ctx fuel s d (answered (method d name)))
  unlinks method d name q = elim (writable d (answered (method d name))) [
    | inl r ↦ inl r
    | inr (w, e) ↦ inr (d, name, (q, w), e)
  ]

  dir_at-Unlinks :
      (p : N × Paths.PathSegment × Bool) (limit : ℕ)
      → searchable (edits.nodes s) ctx p.0 ≡ ok tt
      → p.1 ≢ Paths.empty
      → Unlinks (λ d n. edits.delete_dir d n s) (unlink_dir_at edits ctx fuel s p limit)
  unfolding unlink_dir_at
  dir_at-Unlinks (d, Paths.file_name name, slash) limit q i =
      unlinks (λ x n. edits.delete_dir x n s) d name q
  dir_at-Unlinks (d, Paths.empty, slash) limit q i = absurd (i refl)
  dir_at-Unlinks (d, _, slash) limit q i = inl (_, refl)

  -- With fuel above the limit of symlinks, on a path that is not empty, `unlink_dir` ends and does not reach its `todo!`: it is
  -- refused and nothing has changed, or it is `delete_dir` on a directory that the context may search and write.
  pub unlink_dir-Unlinks :
      (start : N) (path : List ℕ) (limit : ℕ)
      → limit < fuel
      → path ≢ []
      → Unlinks (λ d n. edits.delete_dir d n s) (unlink_dir edits ctx fuel start path s limit)
  unfolding unlink_dir
  unlink_dir-Unlinks start path limit f h =
      go (find_parent (edits.nodes s) ctx fuel start path limit)
        (find_parent-Gives (edits.nodes s) ctx fuel start path limit f h)
    where
      go :
          (o : Option (ℕ × Result (N × Paths.PathSegment × Bool)))
          → Gives (Found (edits.nodes s) ctx fuel) limit o
          → Unlinks (λ d n. edits.delete_dir d n s) (after s (unlink_dir_at edits ctx fuel s) o)
      go none g = absurd g
      go (some (left, err kind)) g = inl (kind, refl)
      go (some (left, ok p)) (g, (q, i)) = dir_at-Unlinks p left q i

  move_at-Moves :
      (kind : ErrorKind) (method : N → List ℕ → N → List ℕ → S × Result (Unit {0})) (d d' : N)
      (old : List ℕ) (last : Paths.PathSegment)
      → searchable (edits.nodes s) ctx d ≡ ok tt
      → searchable (edits.nodes s) ctx d' ≡ ok tt
      → Moves method (move_at edits ctx fuel kind (λ o n. method d o d' n) s d d' old last)
  unfolding move_at
  move_at-Moves kind method d d' old (Paths.file_name new) q r =
      elim (writable d (where_writable edits ctx fuel s d' (answered (method d old d' new)))) [
        | inl x ↦ inl x
        | inr (w, e) ↦ elim (writable d' (answered (method d old d' new))) [
          | inl (k, x) ↦ inl (k, e ∙ x)
          | inr (w', e') ↦ inr (d, old, d', new, (q, w), (r, w'), e ∙ e')
        ]
      ]
  move_at-Moves kind method d d' old _ q r = inl (kind, refl)

  module _ (kind : ErrorKind) (method : N → List ℕ → N → List ℕ → S × Result (Unit {0})) (newd : N)
      (new_path : List ℕ) (h' : new_path ≢ []) where
    to-Moves :
        (d : N) (old : List ℕ) (left : ℕ) (o : Option (ℕ × Result (Place N)))
        → searchable (edits.nodes s) ctx d ≡ ok tt
        → Gives (Found (edits.nodes s) ctx fuel) left o
        → Moves method (after s (to_place edits ctx fuel kind method s d old) o)
    unfolding to_place
    to-Moves d old left none q g = absurd g
    to-Moves d old left (some (l, err k)) q g = inl (k, refl)
    to-Moves d old left (some (l, ok to)) q (g, (r, i)) =
        move_at-Moves kind method d to.0 old to.1 q r

    from-Moves :
        (p : Place N) (left : ℕ)
        → left < fuel
        → searchable (edits.nodes s) ctx p.0 ≡ ok tt
        → Moves method (from_place edits ctx fuel kind method s newd new_path p left)
    unfolding from_place
    from-Moves (d, Paths.file_name old, slash) left f q =
        to-Moves d old left (find_parent (edits.nodes s) ctx fuel newd new_path left) q
          (find_parent-Gives (edits.nodes s) ctx fuel newd new_path left f h')
    from-Moves (d, _, slash) left f q = inl (_, refl)

    start-Moves :
        (limit : ℕ) (o : Option (ℕ × Result (Place N)))
        → limit < fuel
        → Gives (Found (edits.nodes s) ctx fuel) limit o
        → Moves method (after s (from_place edits ctx fuel kind method s newd new_path) o)
    start-Moves limit none f g = absurd g
    start-Moves limit (some (l, err k)) f g = inl (k, refl)
    start-Moves limit (some (l, ok from)) f (g, (q, i)) = from-Moves from l (omega (arith, g, f)) q

    move_names-Moves :
        (oldd : N) (old_path : List ℕ) (limit : ℕ)
        → limit < fuel
        → old_path ≢ []
        → Moves method (move_names edits ctx fuel kind method oldd old_path newd new_path s limit)
    unfolding move_names
    move_names-Moves oldd old_path limit f h =
        start-Moves limit (find_parent (edits.nodes s) ctx fuel oldd old_path limit) f
          (find_parent-Gives (edits.nodes s) ctx fuel oldd old_path limit f h)

  -- With fuel above the limit of symlinks, on paths that are not empty, `rename` ends: it is refused and nothing has
  -- changed, or it is the method `rename` between two directories that the context may search and write, with
  -- `check_is_dir` where one of the paths has a slash at its end.
  pub rename-Moves :
      (oldd : N) (old_path : List ℕ) (newd : N) (new_path : List ℕ) (no_replace : Bool) (limit : ℕ)
      → limit < fuel
      → old_path ≢ []
      → new_path ≢ []
      → Moves
          (λ d old d' new.
            edits.rename d old
              (Paths.has_trailing_slash old_path || Paths.has_trailing_slash new_path)
              d'
              new
              no_replace
              s)
          (rename edits ctx fuel oldd old_path newd new_path no_replace s limit)
  unfolding rename
  rename-Moves oldd old_path newd new_path no_replace limit f h h' =
      move_names-Moves exist
        (λ d old d' new.
          edits.rename d old
            (Paths.has_trailing_slash old_path || Paths.has_trailing_slash new_path) d' new
            no_replace s)
        newd new_path h' oldd old_path limit f h
