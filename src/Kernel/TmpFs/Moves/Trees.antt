-- ===== src/Kernel/TmpFs/Moves/Trees.antt =====
-- The tree that the directories of tee/kernel/src/fs/node/tmpfs.rs are.
use mushroom.Prelude.{
  ℕ, ◌<◌, ◌≡◌, refl, sym, ap, ◌∙◌, true, false, ◌&&◌, [], ◌∷◌, Option, none, some, length,
  length-set, get_or-set, ◌==◌, ==_iff, if◌then◌else◌, inl, inr, Bool-cases, arith,
}
use mushroom.Kernel.TmpFs.Names.{Name, same, same_iff, eq_of_same}
use mushroom.Kernel.TmpFs.{
  Entry, file, dir, Location, directory, Items, get, insert, remove, TmpFsDir, TmpFs, no_dir,
  dir_at, items_at, set_items, drop_entry, drop_option, relocate,
}

apart : (k n m : Name) → same k n ≡ false → same k m ≡ true → same n m ≡ false
apart k n m p q = elim (Bool-cases (same n m)) [
  | inl r ↦ absurd (ground (arith, p, (same_iff k n).1 (eq_of_same k m q ∙ sym (eq_of_same n m r))))
  | inr r ↦ r
]

pub get-insert :
    (items : Items) (n m : Name) (e : Entry)
    → get m (insert n e items) ≡ (if same n m then some e else get m items)
unfolding get insert
get-insert [] n m e = refl
get-insert ((k, f) ∷ items) n m e = elim (Bool-cases (same k n)) [
  | inl p ↦ rw (p, eq_of_same k n p) (ground arith)
  | inr p ↦ rw p (ground (arith, p, apart k n m p, get-insert items n m e))
]

pub get-remove :
    (items : Items) (n m : Name) → get m (remove n items) ≡ (if same n m then none else get m items)
unfolding get remove
get-remove [] n m = ground arith
get-remove ((k, f) ∷ items) n m = elim (Bool-cases (same k n)) [
  | inl p ↦ rw p (rw (eq_of_same k n p) (ground (arith, get-remove items n m)))
  | inr p ↦ rw p (ground (arith, p, apart k n m p, get-remove items n m))
]

abbrev pub location_at : TmpFs → ℕ → Location
location_at t d = (dir_at t d).location

-- Every directory that is an entry has the place of that entry for its location.
abbrev pub IsTree : TmpFs → Type 0
IsTree t =
    (d : ℕ) (n : Name) (k : ℕ)
    → get n (items_at t d) ≡ some (dir k)
    → (k < length t.dirs) × (location_at t k ≡ directory d n)

pub drop_entry-dirs : (e : Entry) (t : TmpFs) → (drop_entry e t).dirs ≡ t.dirs
drop_entry-dirs (file f) t = refl
drop_entry-dirs _ t = refl

pub drop_option-dirs : (o : Option Entry) (t : TmpFs) → (drop_option o t).dirs ≡ t.dirs
drop_option-dirs none t = refl
drop_option-dirs (some e) t = drop_entry-dirs e t

-- What the directories are after some entries were written.
pub items-set_items :
    (t : TmpFs) (d x : ℕ) (items : Items)
    → d < length t.dirs
    → (items_at (set_items d items t) x ≡ (if d == x then items else items_at t x))
      × (location_at (set_items d items t) x ≡ location_at t x)
items-set_items t d x items h =
    let r = get_or-set t.dirs d x (record (dir_at t d) { items = items }) no_dir h in
    elim (Bool-cases (d == x)) [
      | inl p ↦ (
        ap (λ v. v.items) r ∙ rw p refl,
        ap (λ v. v.location) r ∙ (rw p (ap (location_at t) ((==_iff d x).0 p))),
      )
      | inr p ↦ (ap (λ v. v.items) r ∙ rw p refl, ap (λ v. v.location) r ∙ rw p refl)
    ]

pub get-set_items :
    (t : TmpFs) (d x : ℕ) (n m : Name) (e : Entry)
    → d < length t.dirs
    → get m (items_at (set_items d (insert n e (items_at t d)) t) x)
      ≡ (if (d == x) && same n m then some e else get m (items_at t x))
get-set_items t d x n m e h =
    let q = ap (get m) (items-set_items t d x (insert n e (items_at t d)) h).0 in
    elim (Bool-cases (d == x)) [
      | inl p ↦
          q
          ∙ (rw p (
              get-insert (items_at t d) n m e
              ∙ ap (λ y. if same n m then some e else get m (items_at t y)) ((==_iff d x).0 p)))
      | inr p ↦ q ∙ rw p refl
    ]

abbrev pub relocated : Entry → ℕ → ℕ → Name → Location → Location
relocated (dir k) x d n l = if k == x then directory d n else l
relocated _ x d n l = l

-- Every directory that is an entry is there.
abbrev pub InRange : Entry → TmpFs → Type 0
InRange (dir k) t = k < length t.dirs
InRange _ t = Unit

pub InRange-length :
    (e : Entry) (t u : TmpFs) → length u.dirs ≡ length t.dirs → InRange e t → InRange e u
InRange-length (dir k) t u l h = omega (arith, l)
InRange-length _ t u l h = tt

pub items-relocate :
    (e : Entry) (t : TmpFs) (d x : ℕ) (n : Name)
    → InRange e t
    → (items_at (relocate e d n t) x ≡ items_at t x)
      × (location_at (relocate e d n t) x ≡ relocated e x d n (location_at t x))
      × (length (relocate e d n t).dirs ≡ length t.dirs)
items-relocate (dir k) t d x n h =
    let v : TmpFsDir = record (dir_at t k) { location = directory d n } in
    let r = get_or-set t.dirs k x v no_dir h in
    elim (Bool-cases (k == x)) [
      | inl p ↦ (
        ap (λ w. w.items) r ∙ (rw p (ap (items_at t) ((==_iff k x).0 p))),
        ap (λ w. w.location) r ∙ rw p refl,
        length-set t.dirs k v,
      )
      | inr p ↦ (
        ap (λ w. w.items) r ∙ rw p refl,
        ap (λ w. w.location) r ∙ rw p refl,
        length-set t.dirs k v,
      )
    ]
items-relocate _ t d x n h = (refl, refl, refl)

pub entry-InRange :
    (t : TmpFs) (d : ℕ) (n : Name) (e : Entry)
    → IsTree t
    → get n (items_at t d) ≡ some e
    → InRange e t
entry-InRange t d n (dir k) v g = (v d n k g).0
entry-InRange t d n _ v g = tt
