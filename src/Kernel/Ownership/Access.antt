-- ===== src/Kernel/Ownership/Access.antt =====
-- tee/kernel/src/fs/ownership.rs: what a caller who is not the super user can change.
use mushroom.Prelude.{
  ℕ, true, false, List, [], ◌∷◌, ◌≡◌, ◌≢◌, refl, ◌⊎◌, inl, inr, ◌==◌, Bool-cases, arith,
}
use mushroom.Prelude.ErrorKind.{Result, ok, err, perm}
use mushroom.Kernel.Ownership.{
  FileMode, Ownership, FileAccessContext, super_user, contains, is_user, is_in_group, chmod,
  chown_to, chown,
}

-- A number among the supplementary groups.
abbrev pub IsListed : List ℕ → ℕ → Type 0
IsListed [] g = ⊥
IsListed (h ∷ hs) g = (h ≡ g) ⊎ IsListed hs g

-- What a change of owner by a caller who is not the super user promises: it is refused with EPERM or
-- the caller owned the file and owns it still, its mode is the same, and its group is one of the
-- caller's groups.
abbrev pub Stays : Ownership → FileAccessContext → Result Ownership → Type 0
Stays o ctx (err e) = e ≡ perm
Stays o ctx (ok o') =
    (o.uid ≡ ctx.filesystem_user_id)
    × (o'.uid ≡ o.uid)
    × (o'.mode ≡ o.mode)
    × ((ctx.filesystem_group_id ≡ o'.gid) ⊎ IsListed (ctx.supplementary_group_ids) (o'.gid))

contains-IsListed : (hs : List ℕ) (g : ℕ) → contains hs g ≡ true → IsListed hs g
unfolding contains
contains-IsListed [] g h = ground (arith, h)
contains-IsListed (x ∷ hs) g h = ground (arith, h, contains-IsListed hs g)

is_user_lem :
    (ctx : FileAccessContext) (uid : ℕ)
    → ctx.filesystem_user_id ≢ super_user
    → is_user ctx uid ≡ true
    → ctx.filesystem_user_id ≡ uid
unfolding is_user
is_user_lem ctx uid n h = ground (arith, n, h)

is_in_group_lem :
    (ctx : FileAccessContext) (gid : ℕ)
    → ctx.filesystem_user_id ≢ super_user
    → is_in_group ctx gid ≡ true
    → (ctx.filesystem_group_id ≡ gid) ⊎ IsListed (ctx.supplementary_group_ids) gid
unfolding is_in_group
is_in_group_lem ctx gid n h =
    ground (arith, n, h, contains-IsListed (ctx.supplementary_group_ids) gid)

chown_to-Stays :
    (o : Ownership) (uid gid : ℕ) (ctx : FileAccessContext)
    → ctx.filesystem_user_id ≢ super_user
    → Stays o ctx (chown_to o uid gid ctx)
unfolding chown_to
chown_to-Stays o uid gid ctx n = elim (Bool-cases (is_user ctx (o.uid))) [
  | inr p ↦ rw p refl
  | inl p ↦ elim (Bool-cases (is_user ctx uid)) [
    | inr q ↦ rw (p, q) refl
    | inl q ↦ elim (Bool-cases (is_in_group ctx gid)) [
      | inr r ↦ rw (p, q, r) refl
      | inl r ↦
          rw (p, q, r)
            (
              omega (arith, is_user_lem ctx (o.uid) n p),
              omega (arith, is_user_lem ctx (o.uid) n p, is_user_lem ctx uid n q),
              refl,
              is_in_group_lem ctx gid n r,
            )
    ]
  ]
]

-- A caller other than the super user who changes a file's owner or group is refused with EPERM, or owns
-- the file before and after, leaves its mode as it was, and gives it one of the caller's own groups.
pub chown-Stays :
    (o : Ownership) (uid gid : ℕ) (ctx : FileAccessContext)
    → ctx.filesystem_user_id ≢ super_user
    → Stays o ctx (chown o uid gid ctx)
unfolding chown
chown-Stays o uid gid ctx n = chown_to-Stays o _ _ ctx n

not_super_user :
    (ctx : FileAccessContext)
    → ctx.filesystem_user_id ≢ super_user
    → (ctx.filesystem_user_id == super_user) ≡ false
not_super_user ctx n = ground (arith, n)

not_user :
    (ctx : FileAccessContext) (uid : ℕ) → is_user ctx uid ≡ false → uid ≢ ctx.filesystem_user_id
unfolding is_user
not_user ctx uid h e = ground (arith, h, e)

-- What a change of mode by such a caller promises: owner and group stay, and a set-group-ID flag comes
-- only from the argument and only if the file's group is one of the caller's.
abbrev pub Restricts : Ownership → FileMode → FileAccessContext → Result Ownership → Type 0
Restricts o mode ctx (err e) = (e ≡ perm) × (o.uid ≢ ctx.filesystem_user_id)
Restricts o mode ctx (ok o') =
    (o.uid ≡ ctx.filesystem_user_id)
    × (o'.uid ≡ o.uid)
    × (o'.gid ≡ o.gid)
    × (o'.mode.allows ≡ mode.allows)
    × (o'.mode.set_group_id ≡ true
        → (mode.set_group_id ≡ true)
          × ((ctx.filesystem_group_id ≡ o.gid) ⊎ IsListed (ctx.supplementary_group_ids) (o.gid)))

-- A caller other than the super user changes the mode exactly of the files it owns, leaving owner and
-- group, and cannot set the set-group-ID flag of a file whose group is not one of its own.
pub chmod-Restricts :
    (o : Ownership) (mode : FileMode) (ctx : FileAccessContext)
    → ctx.filesystem_user_id ≢ super_user
    → Restricts o mode ctx (chmod o mode ctx)
unfolding chmod
chmod-Restricts o mode ctx n = elim (Bool-cases (is_user ctx (o.uid))) [
  | inr p ↦ rw p (refl, not_user ctx (o.uid) p)
  | inl p ↦ elim (Bool-cases (is_in_group ctx (o.gid))) [
    | inr r ↦
        rw (p, r, not_super_user ctx n)
          (omega (arith, is_user_lem ctx (o.uid) n p), refl, refl, refl, λ t. ground (arith, t))
    | inl r ↦
        rw (p, r, not_super_user ctx n)
          (
            omega (arith, is_user_lem ctx (o.uid) n p),
            refl,
            refl,
            refl,
            λ t. (t, is_in_group_lem ctx (o.gid) n r),
          )
  ]
]
