-- ===== src/Kernel/TmpFs.antt =====
-- tee/kernel/src/fs/node/tmpfs.rs: the directories of a tmpfs whose root is the root of the file tree, and
-- their locations, of tee/kernel/src/fs/node/directory.rs. Directories and files are places of lists, a node
-- of another file system that is mounted is a number. The items of a directory are in no order, times are
-- left out.
pub mod Names
pub mod Moves
mod Tests
use mushroom.Prelude.{
  ℕ, zero, suc, ◌+◌, ◌-◌, Bool, true, false, not, ◌&&◌, ◌||◌, List, [], ◌∷◌, ◌++◌, Option, none,
  some, length, get_or, set, ◌==◌, if◌then◌else◌,
}
use mushroom.Prelude.ErrorKind.{
  ErrorKind, exist, no_ent, not_dir, is_dir, not_empty, busy, perm, inval, Result, err, ok, ensure,
  ◌>>=◌, ◌>>◌,
}
use mushroom.Kernel.Ownership.{Ownership, FileMode}
use mushroom.Kernel.PageBuffer as Pages
use mushroom.Kernel.TmpFs.Names.{Name, same}

-- `TmpFsDirEntry`; a symlink with its number and its target.
pub data Entry : Type 0 where
  file : ℕ → Entry
  dir : ℕ → Entry
  symlink : ℕ → List ℕ → Entry
  char_dev : ℕ → Entry
  fifo : ℕ → Entry
  mount_of : ℕ → Entry

-- `Location`, of a directory that is not mounted.
pub data Location : Type 0 where
  root : Location
  directory : ℕ → Name → Location

abbrev pub Items : Type 0
Items = List (Name × Entry)

-- `BTreeMap::get`, `insert` and `remove`
pub get : Name → Items → Option Entry
get n [] = none
get n ((m, e) ∷ items) = if same m n then some e else get n items

pub insert : Name → Entry → Items → Items
insert n e [] = (n, e) ∷ []
insert n e ((m, f) ∷ items) = if same m n then (n, e) ∷ items else (m, f) ∷ insert n e items

pub remove : Name → Items → Items
remove n [] = []
remove n ((m, e) ∷ items) = if same m n then remove n items else (m, e) ∷ remove n items

pub record TmpFsDir : Type 0 where
  pub location : Location
  pub items : Items
  pub ownership : Ownership

pub record TmpFsFile : Type 0 where
  pub buffer : Pages.Buffer
  pub ownership : Ownership
  pub links : ℕ

-- The file system; `next_ino` counts the nodes that are neither directory nor file.
pub record TmpFs : Type 0 where
  pub dirs : List TmpFsDir
  pub files : List TmpFsFile
  pub next_ino : ℕ

abbrev pub no_mode : FileMode
no_mode = record {
  allows = λ c p. false;
  set_user_id = false;
  set_group_id = false;
  sticky = false;
}

abbrev pub all_mode : FileMode
all_mode = record { allows = λ c p. true; set_user_id = true; set_group_id = true; sticky = true }

abbrev pub no_dir : TmpFsDir
no_dir = record {
  location = root;
  items = [];
  ownership = record { mode = no_mode; uid = 0; gid = 0 };
}

abbrev pub no_file : TmpFsFile
no_file = record {
  buffer = record { len = 0; pages = [] };
  ownership = record { mode = no_mode; uid = 0; gid = 0 };
  links = 0;
}

abbrev pub dir_at : TmpFs → ℕ → TmpFsDir
dir_at t d = get_or t.dirs d no_dir

abbrev pub items_at : TmpFs → ℕ → Items
items_at t d = (dir_at t d).items

abbrev pub links_at : TmpFs → ℕ → ℕ
links_at t f = (get_or t.files f no_file).links

abbrev pub set_items : ℕ → Items → TmpFs → TmpFs
set_items d items t = record t { dirs = set t.dirs d (record (dir_at t d) { items = items }) }

abbrev pub set_links : ℕ → ℕ → TmpFs → TmpFs
set_links f n t = record t {
  files = set t.files f (record (get_or t.files f no_file) { links = n });
}

-- The clone and the drop of an entry.
abbrev pub clone_entry : Entry → TmpFs → TmpFs
clone_entry (file f) t = set_links f (links_at t f + 1) t
clone_entry _ t = t

abbrev pub drop_entry : Entry → TmpFs → TmpFs
drop_entry (file f) t = set_links f (links_at t f - 1) t
drop_entry _ t = t

abbrev pub drop_option : Option Entry → TmpFs → TmpFs
drop_option none t = t
drop_option (some e) t = drop_entry e t

-- A directory that has moved.
abbrev pub relocate : Entry → ℕ → Name → TmpFs → TmpFs
relocate (dir k) d n t = record t {
  dirs = set t.dirs k (record (dir_at t k) { location = directory d n });
}
relocate _ d n t = t

-- An entry put in a directory; the entry that it replaces is dropped.
abbrev pub place : ℕ → Name → Entry → TmpFs → TmpFs
place d n e t = drop_option (get n (items_at t d)) (set_items d (insert n e (items_at t d)) t)

-- `new`: the file system with its root directory.
unfoldable pub root_alone : Ownership → TmpFs
root_alone own = record {
  dirs = record { location = root; items = []; ownership = own } ∷ [];
  files = [];
  next_ino = 0;
}

-- `dir_impls::parent`; the parameter says which directories there still are, where a directory has only a
-- weak reference to its parent.
pub parent : (ℕ → Bool) → TmpFs → ℕ → Result ℕ
parent alive t d = elim ((dir_at t d).location) [
  | root ↦ ok d
  | directory p n ↦ if alive p then ok p else err no_ent
]

-- `TmpFsDir::get_node`
pub get_node : TmpFs → ℕ → Name → Result Entry
get_node t d n = elim (get n (items_at t d)) [ none ↦ err no_ent | some e ↦ ok e ]

-- `TmpFsDir::create_file`: the new file, or the entry that is there.
pub create_file : ℕ → Name → Ownership → TmpFs → TmpFs × Result (Bool × Entry)
create_file d n own t = elim (get n (items_at t d)) [
  | none ↦
      let e = file (length t.files) in
      (
        set_items d (insert n e (items_at t d)) (record t {
          files = t.files ++ (record { buffer = Pages.new; ownership = own; links = 1 } ∷ []);
        }),
        ok (true, e),
      )
  | some e ↦ (t, ok (false, e))
]

-- `TmpFsDir::create_dir`
pub create_dir : ℕ → Name → Ownership → TmpFs → TmpFs × Result Entry
create_dir d n own t = elim (get n (items_at t d)) [
  | none ↦
      let e = dir (length t.dirs) in
      let t' : TmpFs = record t {
        dirs = t.dirs ++ (record { location = directory d n; items = []; ownership = own } ∷ []);
      } in
      (set_items d (insert n e (items_at t d)) t', ok e)
  | some e ↦ (t, err exist)
]

-- `TmpFsDir::create_link`
pub create_link : ℕ → Name → List ℕ → Bool → TmpFs → TmpFs × Result Entry
create_link d n target create_new t =
    let e = symlink t.next_ino target in
    let t' = place d n e (record t { next_ino = t.next_ino + 1 }) in
    elim (get n (items_at t d)) [
      | none ↦ (t', ok e)
      | some old ↦ if create_new then (t, err exist) else (t', ok e)
    ]

-- `TmpFsDir::create_char_dev` and `create_fifo`, by the entry that they make.
pub create_other : (ℕ → Entry) → ℕ → Name → TmpFs → TmpFs × Result Entry
create_other new d n t = elim (get n (items_at t d)) [
  | none ↦
      (place d n (new t.next_ino) (record t { next_ino = t.next_ino + 1 }), ok (new t.next_ino))
  | some e ↦ (t, err exist)
]

-- `TmpFsDir::mount`
pub mount : ℕ → Name → ℕ → TmpFs → TmpFs × Result (Unit {0})
mount d n node t = (place d n (mount_of node) t, ok tt)
