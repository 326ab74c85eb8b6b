-- ===== src/Kernel/TmpFs/Moves/Rename.antt =====
-- `rename` of tee/kernel/src/fs/node/tmpfs.rs: what moves, and that the directories stay a tree.
use mushroom.Prelude.{
  ℕ, ◌<◌, ◌≡◌, ◌≢◌, refl, sym, ap, ◌∙◌, Bool, true, false, not, ◌&&◌, ◌||◌, Option, none, some,
  length, ◌==◌, ==_iff, if◌then◌else◌, inl, inr, ◌⊎◌, Bool-cases, Option-cases, arith,
}
use mathlib.Core.Path.{subst}
use mushroom.Prelude.ErrorKind.{err, ok, Result}
use mushroom.Kernel.TmpFs.Names.{Name, same, eq_of_same}
use mushroom.Kernel.TmpFs.{
  Entry, file, dir, symlink, char_dev, fifo, mount_of, Location, directory, get, TmpFs, items_at,
}
use mushroom.Kernel.TmpFs.Moves.{
  Answer, ends, hangs, can_rename, over, is_own_dir, walk, move, finish, is_some, rename_here,
  after_walk, rename_to, rename,
}
use mushroom.Kernel.TmpFs.Moves.Trees.{location_at, relocated, IsTree, entry-InRange}
use mushroom.Kernel.TmpFs.Moves.Moved.{length-move, location-move, get-move, move-IsTree}
use mushroom.Kernel.TmpFs.Moves.Roots.{
  Climbs, height, moved-Climbs, renamed-Climbs, walk-ne-none, walk-Avoids,
}

-- From every directory the root is reached.
abbrev pub IsRooted : TmpFs → Type 0
IsRooted t = (k : ℕ) → Climbs (location_at t) k

-- What a renaming promises: the entry is at its new place, instead of what was there, and nothing else has
-- changed, and the directories are a tree; or there is an error and no change; or it hangs, for a directory over one of
-- the two directories.
abbrev pub Renamed : TmpFs → ℕ → Name → ℕ → Name → TmpFs → Type 0
Renamed t d old d' new t' =
    IsTree t'
    × IsRooted t'
    × (e : Entry) × (get old (items_at t d) ≡ some e)
    × (length t'.dirs ≡ length t.dirs)
    × ((x : ℕ) → location_at t' x ≡ relocated e x d' new (location_at t x))
    × ((x : ℕ) (m : Name)
        → get m (items_at t' x) ≡ (
            if (d' == x) && same new m
            then some e
            else if (d == x) && same old m
            then none
            else get m (items_at t x)))

abbrev pub Renames : TmpFs → ℕ → Name → ℕ → Name → Option (Answer (Unit {0})) → Type 0
Renames t d old d' new none = ⊥
Renames t d old d' new (some hangs) =
    (get new (items_at t d') ≡ some (dir d)) ⊎ (get new (items_at t d') ≡ some (dir d'))
Renames t d old d' new (some (ends t' (err kind))) = t' ≡ t
Renames t d old d' new (some (ends t' (ok u))) = Renamed t d old d' new t'

relocated_ne : (k x d : ℕ) (n : Name) (l : Location) → x ≢ k → relocated (dir k) x d n l ≡ l
relocated_ne k x d n l h = ground (arith, h)

relocated_eq : (k d : ℕ) (n : Name) (l : Location) → relocated (dir k) k d n l ≡ directory d n
relocated_eq k d n l = rw ((==_iff k k).1 refl) refl

pub same-Climbs : {l l' : ℕ → Location} {k : ℕ} → ((x : ℕ) → l' x ≡ l x) → Climbs l k → Climbs l' k
same-Climbs s (Climbs.top e) = Climbs.top (s _ ∙ e)
same-Climbs s (Climbs.up p n e c) = Climbs.up p n (s _ ∙ e) (same-Climbs s c)

over_waits :
    (d d' : ℕ) (t : TmpFs) (e : Entry) (o : Option Entry)
    → over d d' t e o ≡ none
    → (o ≡ some (dir d)) ⊎ (o ≡ some (dir d'))
over_waits d d' t (dir k) (some (dir l)) q = elim (Bool-cases (l == d)) [
  | inl p ↦ inl (ap (λ x. some (dir x)) ((==_iff l d).0 p))
  | inr p ↦ elim (Bool-cases (l == d')) [
    | inl s ↦ inr (ap (λ x. some (dir x)) ((==_iff l d').0 s))
    | inr s ↦ absurd (let z = rw (p, s) at q in cc)
  ]
]
over_waits d d' t (dir k) none q = cc
over_waits d d' t (dir k) _ q = cc
over_waits d d' t (file f) none q = cc
over_waits d d' t (file f) (some (dir l)) q = cc
over_waits d d' t (file f) _ q = cc
over_waits d d' t (symlink i u) none q = cc
over_waits d d' t (symlink i u) (some (dir l)) q = cc
over_waits d d' t (symlink i u) _ q = cc
over_waits d d' t (char_dev f) none q = cc
over_waits d d' t (char_dev f) (some (dir l)) q = cc
over_waits d d' t (char_dev f) _ q = cc
over_waits d d' t (fifo f) none q = cc
over_waits d d' t (fifo f) (some (dir l)) q = cc
over_waits d d' t (fifo f) _ q = cc
over_waits d d' t (mount_of f) none q = cc
over_waits d d' t (mount_of f) (some (dir l)) q = cc
over_waits d d' t (mount_of f) _ q = cc

module _ (t : TmpFs) (d d' : ℕ) (old new : Name) (e : Entry) (h : d < length t.dirs)
    (h' : d' < length t.dirs) (v : IsTree t) (r : IsRooted t)
    (g : get old (items_at t d) ≡ some e) where
  -- The renaming itself, where every directory is still below the root.
  moved : IsRooted (move d old d' new e t) → Renamed t d old d' new (move d old d' new e t)
  moved w = (
    move-IsTree t d d' old new e h h' v g,
    w,
    e,
    g,
    length-move t d d' old new e h h' (entry-InRange t d old e v g),
    location-move t d d' old new e h h' (entry-InRange t d old e v g),
    get-move t d d' old new e h h' (entry-InRange t d old e v g),
  )

  locations :
      (x : ℕ) → location_at (move d old d' new e t) x ≡ relocated e x d' new (location_at t x)
  locations = location-move t d d' old new e h h' (entry-InRange t d old e v g)

  -- The outcome of the checks.
  waits :
      (check : Bool)
      → can_rename d d' t e (get new (items_at t d')) check ≡ none
      → Renames t d old d' new (some hangs)
  unfolding can_rename
  waits check q = elim (Bool-cases (check && not (is_own_dir e))) [
    | inl p ↦ absurd (let z = rw p at q in cc)
    | inr p ↦ over_waits d d' t e (get new (items_at t d')) (rw p at q)
  ]

  finish-Renames :
      (check exists : Bool)
      → IsRooted (move d old d' new e t)
      → Renames t d old d' new (
          some (
            finish t
              (move d old d' new e t)
              (can_rename d d' t e (get new (items_at t d')) check)
              exists))
  finish-Renames check exists w = go (can_rename d d' t e (get new (items_at t d')) check) refl
    where
      go :
          (o : Option (Result (Unit {0})))
          → can_rename d d' t e (get new (items_at t d')) check ≡ o
          → Renames t d old d' new (some (finish t (move d old d' new e t) o exists))
      go none q = waits check q
      go (some (err kind)) q = refl
      go (some (ok u)) q = elim (Bool-cases exists) [ inl p ↦ rw p refl | inr p ↦ rw p (moved w) ]

module _ (t : TmpFs) (d : ℕ) (old new : Name) (h : d < length t.dirs) (v : IsTree t)
    (r : IsRooted t) where
  -- A new name in the same directory.
  here-IsRooted : (e : Entry) → get old (items_at t d) ≡ some e → IsRooted (move d old d new e t)
  here-IsRooted (dir j) g k =
      let l = locations t d d old new (dir j) h h v r g in
      renamed-Climbs old new (v d old j g).1 (l j ∙ relocated_eq j d new (location_at t j))
        (λ x n. l x ∙ relocated_ne j x d new (location_at t x) n) (r k)
  here-IsRooted (file f) g k = same-Climbs (locations t d d old new (file f) h h v r g) (r k)
  here-IsRooted e g k = same-Climbs (locations t d d old new e h h v r g) (r k)

  relocated_back :
      (e : Entry) (x : ℕ)
      → get old (items_at t d) ≡ some e
      → new ≡ old
      → relocated e x d new (location_at t x) ≡ location_at t x
  relocated_back (dir j) x g s = elim (Bool-cases (j == x)) [
    | inl p ↦
        rw (p, s)
          (sym (subst (λ y. location_at t y ≡ directory d old) ((==_iff j x).0 p) (v d old j g).1))
    | inr p ↦ rw p refl
  ]
  relocated_back e x g s = refl

  kept_place :
      (e : Entry) → get old (items_at t d) ≡ some e → same new old ≡ true → Renamed t d old d new t
  kept_place e g s =
      (v, r, e, g, refl, λ x. sym (relocated_back e x g (eq_of_same new old s)), place)
    where
      place :
          (x : ℕ) (m : Name)
          → get m (items_at t x) ≡ (
              if (d == x) && same new m
              then some e
              else if (d == x) && same old m
              then none
              else get m (items_at t x))
      place x m = elim (Bool-cases ((d == x) && same new m)) [
        | inl p ↦
            let a : d ≡ x = ground (arith, p) in
            let b : old ≡ m = sym (eq_of_same new old s) ∙ eq_of_same new m (ground (arith, p)) in
            rw p (
              subst (λ y. get m (items_at t y) ≡ some e) a
                (subst (λ n. get n (items_at t d) ≡ some e) b g))
        | inr p ↦ rw (p, ← eq_of_same new old s, p) refl
      ]

  stays :
      (check : Bool) (e : Entry)
      → get old (items_at t d) ≡ some e
      → same new old ≡ true
      → Renames t d old d new (some (finish t t (can_rename d d t e none check) false))
  unfolding can_rename
  stays check e g s = elim (Bool-cases (check && not (is_own_dir e))) [
    | inl p ↦ rw p refl
    | inr p ↦ rw p (kept_place e g s)
  ]

  here-Renames :
      (check no_replace : Bool)
      → Renames t d old d new (some (rename_here d old check new no_replace t))
  unfolding rename_here
  here-Renames check no_replace = elim (Option-cases (get old (items_at t d))) [
    | inl q ↦ rw (rename_here, q) refl
    | inr (e, g) ↦
        elim (Bool-cases (no_replace && (same new old || is_some (get new (items_at t d))))) [
          | inl x ↦ rw (rename_here, g, x) refl
          | inr x ↦ elim (Bool-cases (same new old)) [
            | inl s ↦ rw (rename_here, g, x, s) (stays check e g s)
            | inr s ↦
                rw (rename_here, g, x, s)
                  (finish-Renames t d d old new e h h v r g check false (here-IsRooted e g))
          ]
        ]
  ]

module _ (alive : ℕ → Bool) (fuel : ℕ) (t : TmpFs) (d d' : ℕ) (old new : Name)
    (h : d < length t.dirs) (h' : d' < length t.dirs) (v : IsTree t) (r : IsRooted t)
    (enough : height (r d') < fuel) where
  to-IsRooted :
      (e : Entry)
      → get old (items_at t d) ≡ some e
      → walk alive fuel t e d' ≡ some (ok tt)
      → IsRooted (move d old d' new e t)
  to-IsRooted (dir j) g q k =
      let l = locations t d d' old new (dir j) h h' v r g in
      moved-Climbs new (l j ∙ relocated_eq j d' new (location_at t j))
        (λ x n. l x ∙ relocated_ne j x d' new (location_at t x) n)
        (walk-Avoids alive fuel t j (r d') q) (r k)
  to-IsRooted e g q k = same-Climbs (locations t d d' old new e h h' v r g) (r k)

  to-Renames :
      (check no_replace : Bool)
      → Renames t d old d' new (rename_to alive fuel d old check d' new no_replace t)
  unfolding rename_to
  to-Renames check no_replace = elim (Option-cases (get old (items_at t d))) [
    | inl q ↦ rw (rename_to, q) refl
    | inr (e, g) ↦ rw (rename_to, g) (go e g (walk alive fuel t e d') refl)
  ]
    where
      go :
          (e : Entry)
          → get old (items_at t d) ≡ some e
          → (o : Option (Result (Unit {0}))) → walk alive fuel t e d' ≡ o
          → Renames t d old d' new (
              after_walk t
                (finish t
                  (move d old d' new e t)
                  (can_rename d d' t e (get new (items_at t d')) check)
                  (no_replace && is_some (get new (items_at t d'))))
                o)
      go e g none q = absurd (walk-ne-none alive fuel t e (r d') enough q)
      go e g (some (err kind)) q = refl
      go e g (some (ok u)) q =
          finish-Renames t d d' old new e h h' v r g check
            (no_replace && is_some (get new (items_at t d'))) (to-IsRooted e g q)

  -- On a tree of directories that all reach the root, with fuel above the height of the new directory, `rename` of
  -- one directory of it to one of it ends: with an error and no change; or with the entry at its new place instead of
  -- what was there, every other entry as before, and again a tree of directories that all reach the root. It waits
  -- for itself only where the entry at the new place is one of the two directories.
  pub rename-Renames :
      (check no_replace : Bool)
      → Renames t d old d' new (rename alive fuel d old check d' new no_replace t)
  unfolding rename
  rename-Renames check no_replace = elim (Bool-cases (d == d')) [
    | inl q ↦
        rw (rename, q)
          (subst (λ x. Renames t d old x new (some (rename_here d old check new no_replace t)))
            ((==_iff d d').0 q) (here-Renames t d old new h v r check no_replace))
    | inr q ↦ rw (rename, q) (to-Renames check no_replace)
  ]
