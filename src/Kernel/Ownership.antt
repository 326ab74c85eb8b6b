-- ===== src/Kernel/Ownership.antt =====
-- tee/kernel/src/fs/ownership.rs, and the checks of `FileAccessContext` in tee/kernel/src/fs/node.rs
-- that it rests on. A `FileMode` is the set of its flags.
pub mod Access
use mushroom.Prelude.{
  ℕ, ◌-◌, ◌^◌, Bool, true, false, not, ◌&&◌, ◌||◌, List, [], ◌∷◌, ◌==◌, if◌then◌else◌,
}
use mushroom.Prelude.ErrorKind.{Result, ok, err, perm, acces, ensure, ◌>>=◌, ◌>>◌}

pub data Permission : Type 0 where
  read write execute : Permission

-- The three groups of permission flags.
pub data Class : Type 0 where
  owner group other : Class

-- `FileMode`: OWNER_READ to OTHER_EXECUTE are `allows`.
pub record FileMode : Type 0 where
  pub allows : Class → Permission → Bool
  pub set_user_id : Bool
  pub set_group_id : Bool
  pub sticky : Bool

pub record Ownership : Type 0 where
  pub mode : FileMode
  pub uid : ℕ
  pub gid : ℕ

-- `FileAccessContext`, less the process and the symlink limit.
pub record FileAccessContext : Type 0 where
  pub filesystem_user_id : ℕ
  pub filesystem_group_id : ℕ
  pub supplementary_group_ids : List ℕ

-- `SUPER_USER` and `UNCHANGED`, the all-ones word
abbrev pub super_user : ℕ
super_user = 0

abbrev pub unchanged : ℕ
unchanged = 2 ^ 32 - 1

pub contains : List ℕ → ℕ → Bool
contains [] g = false
contains (h ∷ hs) g = (h == g) || contains hs g

pub is_user : FileAccessContext → ℕ → Bool
is_user ctx uid = (ctx.filesystem_user_id == super_user) || (ctx.filesystem_user_id == uid)

pub is_in_group : FileAccessContext → ℕ → Bool
is_in_group ctx gid =
    ((ctx.filesystem_user_id == super_user) || (ctx.filesystem_group_id == gid))
    || contains (ctx.supplementary_group_ids) gid

-- `mode.intersects(OWNER_EXECUTE | GROUP_EXECUTE | OTHER_EXECUTE)`
abbrev pub any_execute : FileMode → Bool
any_execute m = (m.allows owner execute || m.allows group execute) || m.allows other execute

-- The class whose flags apply.
pub class_of : FileAccessContext → Ownership → Class
class_of ctx stat =
    if is_user ctx (stat.uid) then owner else if is_in_group ctx (stat.gid) then group else other

-- `check_permissions` for the super user, who may always read and write.
pub check_super_user : FileMode → Permission → Result (Unit {0})
check_super_user m execute = ensure (any_execute m) acces
check_super_user m _ = ok tt

-- `FileAccessContext::check_permissions`
pub check_permissions : FileAccessContext → Ownership → Permission → Result (Unit {0})
check_permissions ctx stat permission =
    let m = stat.mode in
    if ctx.filesystem_user_id == super_user
    then check_super_user m permission
    else ensure (m.allows (class_of ctx stat) permission) acces

-- `Ownership::chmod`
pub chmod : Ownership → FileMode → FileAccessContext → Result Ownership
chmod o mode ctx = do
  ensure (is_user ctx (o.uid)) perm
  ok (record o {
    mode =
        if not (ctx.filesystem_user_id == super_user) && not (is_in_group ctx (o.gid))
        then record mode { set_group_id = false }
        else mode;
  })

-- `Ownership::chown` with the two replaced arguments.
pub chown_to : Ownership → ℕ → ℕ → FileAccessContext → Result Ownership
chown_to o uid gid ctx = do
  ensure (is_user ctx (o.uid)) perm
  ensure (is_user ctx uid) perm
  ensure (is_in_group ctx gid) perm
  ok (record o { uid = uid; gid = gid })

-- `Ownership::chown`
pub chown : Ownership → ℕ → ℕ → FileAccessContext → Result Ownership
chown o uid gid ctx =
    chown_to o (if uid == unchanged then o.uid else uid) (if gid == unchanged then o.gid else gid)
      ctx
