-- ===== src/Kernel/TmpFs/Moves/Exchange.antt =====
-- `exchange` of tee/kernel/src/fs/node/tmpfs.rs: what changes places, and which locations do not.
use mushroom.Prelude.{
  ℕ, ◌<◌, ◌≡◌, ◌≢◌, refl, sym, ap, ◌∙◌, Bool, false, ◌&&◌, Option, none, some, length, length-set,
  get_or, ◌==◌, ==_iff, if◌then◌else◌, inl, inr, ◌⊎◌, Bool-cases, Option-cases, arith,
}
use mathlib.Core.Path.{subst}
use mushroom.Prelude.ErrorKind.{err, ok, Result}
use mushroom.Kernel.TmpFs.Names.{Name, same, same_iff, same_refl, eq_of_same}
use mushroom.Kernel.TmpFs.{
  Entry, file, dir, directory, get, insert, TmpFs, dir_at, items_at, set_items, relocate,
  clone_entry, no_dir,
}
use mushroom.Kernel.TmpFs.Moves.{walk, swap, exchange}
use mushroom.Kernel.TmpFs.Moves.Trees.{
  location_at, relocated, IsTree, InRange, InRange-length, items-set_items, get-set_items,
  items-relocate, entry-InRange, drop_entry-dirs,
}
use mushroom.Kernel.TmpFs.Moves.Roots.{height, walk-ne-none}
use mushroom.Kernel.TmpFs.Moves.Rename.{IsRooted}

-- What an exchange does: the entries change places, and the one that was at the new place, if it is a directory,
-- has the place that it left for its location; or there is an error and no change.
abbrev pub Exchanged : TmpFs → ℕ → Name → ℕ → Name → TmpFs → Type 0
Exchanged t d old d' new t' =
    (e : Entry) × (r : Entry) × (get old (items_at t d) ≡ some e)
    × (get new (items_at t d') ≡ some r)
    × ((x : ℕ) → location_at t' x ≡ relocated r x d' new (location_at t x))
    × ((x : ℕ) (m : Name)
        → get m (items_at t' x) ≡ (
            if (d == x) && same old m
            then some r
            else if (d' == x) && same new m
            then some e
            else get m (items_at t x)))

abbrev pub Exchanges : TmpFs → ℕ → Name → ℕ → Name → Option (TmpFs × Result (Unit {0})) → Type 0
Exchanges t d old d' new none = ⊥
Exchanges t d old d' new (some (t', err kind)) = t' ≡ t
Exchanges t d old d' new (some (t', ok u)) =
    ((d ≡ d') × (new ≡ old) × (t' ≡ t)) ⊎ Exchanged t d old d' new t'

clone_entry-dirs : (e : Entry) (t : TmpFs) → (clone_entry e t).dirs ≡ t.dirs
clone_entry-dirs (file f) t = refl
clone_entry-dirs _ t = refl

module _ (u : TmpFs) (d d' : ℕ) (old new : Name) (e r : Entry) (h : d < length u.dirs)
    (h' : d' < length u.dirs) (i : InRange r u) where
  put : TmpFs
  put = set_items d' (insert new e (items_at u d')) u

  told : TmpFs
  unfolding put
  told = relocate r d' new put

  back : TmpFs
  unfolding told
  back = set_items d (insert old r (items_at told d)) told

  length-put : length put.dirs ≡ length u.dirs
  unfolding put
  length-put = length-set u.dirs d' (record (dir_at u d') { items = insert new e (items_at u d') })

  known : InRange r put
  known = InRange-length r u put length-put i

  inside : d < length told.dirs
  unfolding told
  inside = omega (arith, h, length-put, (items-relocate r put d' 0 new known).2)

  location-back : (x : ℕ) → location_at back x ≡ relocated r x d' new (location_at u x)
  unfolding back put
  location-back x =
      (items-set_items told d x (insert old r (items_at told d)) inside).1
      ∙ ((items-relocate r put d' x new known).1
          ∙ ap (relocated r x d' new) (items-set_items u d' x (insert new e (items_at u d')) h').1)

  get-back :
      (x : ℕ) (m : Name)
      → get m (items_at back x) ≡ (
          if (d == x) && same old m
          then some r
          else if (d' == x) && same new m
          then some e
          else get m (items_at u x))
  unfolding back put
  get-back x m =
      get-set_items told d x old m r inside
      ∙ ap (λ o. if (d == x) && same old m then some r else o)
          (ap (get m) (items-relocate r put d' x new known).0 ∙ get-set_items u d' x new m e h')

module _ (t : TmpFs) (d d' : ℕ) (old new : Name) (e r : Entry) (h : d < length t.dirs)
    (h' : d' < length t.dirs) (v : IsTree t) (g : get old (items_at t d) ≡ some e)
    (g' : get new (items_at t d') ≡ some r) where
  cloned : TmpFs
  cloned = clone_entry e t

  length-cloned : length cloned.dirs ≡ length t.dirs
  unfolding cloned
  length-cloned = ap length (clone_entry-dirs e t)

  cloned-InRange : InRange r cloned
  unfolding cloned
  cloned-InRange = InRange-length r t cloned length-cloned (entry-InRange t d' new r v g')

  a : d < length cloned.dirs
  a = omega (arith, h, length-cloned)

  b : d' < length cloned.dirs
  b = omega (arith, h', length-cloned)

  dirs-swap :
      (swap d old d' new e r t).dirs ≡ (back cloned d d' old new e r a b cloned-InRange).dirs
  unfolding back cloned
  dirs-swap = drop_entry-dirs e (back cloned d d' old new e r a b cloned-InRange)

  location-swap :
      (x : ℕ) → location_at (swap d old d' new e r t) x ≡ relocated r x d' new (location_at t x)
  unfolding cloned
  location-swap x =
      ap (λ ds. (get_or ds x no_dir).location) dirs-swap
      ∙ (location-back cloned d d' old new e r a b cloned-InRange x
          ∙ ap (λ ds. relocated r x d' new (get_or ds x no_dir).location) (clone_entry-dirs e t))

  get-swap :
      (x : ℕ) (m : Name)
      → get m (items_at (swap d old d' new e r t) x) ≡ (
          if (d == x) && same old m
          then some r
          else if (d' == x) && same new m
          then some e
          else get m (items_at t x))
  unfolding cloned
  get-swap x m =
      ap (λ ds. get m (get_or ds x no_dir).items) dirs-swap
      ∙ (get-back cloned d d' old new e r a b cloned-InRange x m
          ∙ ap
              (λ ds.
                if (d == x) && same old m
                then some r
                else if (d' == x) && same new m
                then some e
                else get m (get_or ds x no_dir).items)
              (clone_entry-dirs e t))

  swapped : Exchanged t d old d' new (swap d old d' new e r t)
  swapped = (e, r, g, g', location-swap, get-swap)

module _ (alive : ℕ → Bool) (fuel : ℕ) (t : TmpFs) (d d' : ℕ) (old new : Name)
    (h : d < length t.dirs) (h' : d' < length t.dirs) (v : IsTree t) (rooted : IsRooted t)
    (enough : height (rooted d') < fuel) where
  walked :
      (e r : Entry)
      → get old (items_at t d) ≡ some e
      → get new (items_at t d') ≡ some r
      → (d == d') ≡ false
      → Exchanges t d old d' new (exchange alive fuel d old d' new t)
  unfolding exchange
  walked e r g g' p = go (walk alive fuel t r d') refl
    where
      go :
          (o : Option (Result (Unit {0})))
          → walk alive fuel t r d' ≡ o
          → Exchanges t d old d' new (exchange alive fuel d old d' new t)
      go none q = absurd (walk-ne-none alive fuel t r (rooted d') enough q)
      go (some (err kind)) q = rw (exchange, p, g, g', p, q) refl
      go (some (ok u)) q =
          rw (exchange, p, g, g', p, q) (inr (swapped t d d' old new e r h h' v g g'))

  -- On a tree of directories that all reach the root, with fuel above the height of the new directory, `exchange` ends:
  -- with an error and no change; or with no change where the two places are the same one; or the entries have
  -- changed places, every other entry is as before, and the directory that was at the new place, if it was one, has
  -- that very place for its location still, while no other location has changed.
  pub exchange-Exchanges : Exchanges t d old d' new (exchange alive fuel d old d' new t)
  unfolding exchange
  exchange-Exchanges = elim (Bool-cases ((d == d') && same new old)) [
    | inl p ↦
        rw (exchange, p)
          (inl (ground (arith, p, (==_iff d d').0), eq_of_same new old (ground (arith, p)), refl))
    | inr p ↦ elim (Option-cases (get old (items_at t d))) [
      | inl g ↦ rw (exchange, p, g) refl
      | inr (e, g) ↦ elim (Option-cases (get new (items_at t d'))) [
        | inl g' ↦ rw (exchange, p, g, g') refl
        | inr (r, g') ↦ elim (Bool-cases (d == d')) [
          | inl q ↦ rw (exchange, p, g, g', q) (inr (swapped t d d' old new e r h h' v g g'))
          | inr q ↦ walked e r g g' q
        ]
      ]
    ]
  ]

module _ (t t' : TmpFs) (d d' : ℕ) (old new : Name) (k : ℕ) (v : IsTree t)
    (g : get old (items_at t d) ≡ some (dir k)) (apart : ((d == d') && same new old) ≡ false) where
  no_longer :
      (e : Entry)
      → relocated e k d' new (location_at t k) ≡ directory d' new
      → ((e ≡ dir k) ⊎ (location_at t k ≡ directory d' new))
  no_longer (dir j) q = elim (Bool-cases (j == k)) [
    | inl p ↦ inl (ap (λ x. dir x) ((==_iff j k).0 p))
    | inr p ↦ inr (rw p at q)
  ]
  no_longer e q = inr q

  not_there : location_at t k ≢ directory d' new
  not_there q =
      let z : directory d old ≡ directory d' new = sym (v d old k g).1 ∙ q in
      ground (arith, z, apart, (==_iff d d').1, (same_iff new old).1)

  swapped-not-IsTree : Exchanged t d old d' new t' → ¬ IsTree t'
  swapped-not-IsTree (e, r, g0, g', loc, places) w =
      let z : get new (items_at t' d') ≡ some (dir k) =
        places d' new
        ∙ (ground (
          arith,
          apart,
          (==_iff d' d').1,
          same_refl new,
          (same_iff old new).0,
          (same_iff new old).1,
        )
            ∙ (sym g0 ∙ g)) in
      let q = sym (loc k) ∙ (w d' new k z).1 in
      elim (no_longer r q) [
        | inl x ↦ not_there (v d' new k (g' ∙ ap some x)).1
        | inr x ↦ not_there x
      ]

-- On a tree of directories that all reach the root, with fuel above the height of the new directory: an exchange of
-- two different places that succeeds leaves no tree where the entry at the old place is a directory. That directory is
-- then at the new place and has the old one for its location.
pub exchange-not-IsTree :
    (alive : ℕ → Bool) (fuel : ℕ) (t t' : TmpFs) (d d' : ℕ) (old new : Name) (k : ℕ)
    → d < length t.dirs
    → d' < length t.dirs
    → IsTree t
    → (rooted : IsRooted t) → height (rooted d') < fuel
    → get old (items_at t d) ≡ some (dir k)
    → ((d == d') && same new old) ≡ false
    → exchange alive fuel d old d' new t ≡ some (t', ok tt)
    → ¬ IsTree t'
exchange-not-IsTree alive fuel t t' d d' old new k h h' v rooted enough g apart q =
    let x = exchange-Exchanges alive fuel t d d' old new h h' v rooted enough in
    elim (subst (Exchanges t d old d' new) q x) [
      | inl (a, b, c) ↦ absurd (ground (arith, a, b, apart, (==_iff d d').1, (same_iff new old).1))
      | inr e ↦ swapped-not-IsTree t t' d d' old new k v g apart e
    ]
