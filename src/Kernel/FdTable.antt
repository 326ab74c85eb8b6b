-- ===== src/Kernel/FdTable.antt =====
-- tee/kernel/src/fs/fd.rs: `FileDescriptorTable`. The `BTreeMap<i32, …>` is the list of its entries
-- by ascending key; an open file description is its identity.
pub mod Lookup
pub mod Free
pub mod Standard
use mushroom.Prelude.{
  ℕ, ◌+◌, Bool, true, false, List, [], ◌∷◌, Option, none, some, map, ltb, if◌then◌else◌, ◌==◌,
}
use mushroom.Prelude.Int.{ℤ, pos, negsuc, ltb_ℤ, eqb_ℤ, pos_part, as_i32}
use mushroom.Prelude.Outcome.{Outcome, returns, panics}
use mushroom.Prelude.ErrorKind.{Result, ok, err, inval, bad_f, mfile, ensure, ◌>>=◌, ◌>>◌}

-- `FileDescriptorTableEntry`: the description, and whether `CLOEXEC` is set.
pub record Entry : Type 0 where
  pub fd : ℕ
  pub cloexec : Bool

abbrev pub Table : Type 0
Table = List (ℤ × Entry)

abbrev pub keys : Table → List ℤ
keys [] = []
keys ((k, _) ∷ t) = k ∷ keys t

-- `BTreeMap::get` and `BTreeMap::insert`
pub lookup : ℤ → Table → Option Entry
lookup k [] = none
lookup k ((j, e) ∷ t) = if eqb_ℤ k j then some e else lookup k t

pub put : ℤ → Entry → Table → Table
put k e [] = (k, e) ∷ []
put k e ((j, d) ∷ t) =
    if ltb_ℤ k j then (k, e) ∷ (j, d) ∷ t else if eqb_ℤ k j then (k, e) ∷ t else (j, d) ∷ put k e t

-- `BTreeMap::remove`
pub delete : ℤ → Table → Table
delete k [] = []
delete k ((j, d) ∷ t) = if eqb_ℤ k j then t else (j, d) ∷ delete k t

-- `skip_while(|i| *i < min)`
pub skip_below : ℤ → List ℤ → List ℤ
skip_below min [] = []
skip_below min (k ∷ ks) = if ltb_ℤ k min then skip_below min ks else k ∷ ks

-- The zipped search for a counter below its key, and the next counter where the keys end.
pub find_gap : List ℤ → ℕ → ℕ → Option ℕ
find_gap [] counter limit = if ltb counter limit then some counter else none
find_gap (fd ∷ fds) counter limit =
    let rest = find_gap fds (counter + 1) limit in
    if ltb counter limit then (if ltb_ℤ (pos counter) fd then some counter else rest) else none

abbrev pub or_mfile : Option ℕ → Result ℕ
or_mfile none = err mfile
or_mfile (some n) = ok n

-- `FileDescriptorTable::find_free_fd_num`, with the limit cast to an i32; `cmp::max(0, min)` is the positive
-- part, and a range from there to a negative limit is as empty as one to zero.
pub find_free_fd_num : Table → ℤ → ℕ → Result ℕ
find_free_fd_num table min limit = do
  ensure (ltb_ℤ min (as_i32 limit)) inval
  or_mfile (
      find_gap (skip_below (pos (pos_part min)) (keys table)) (pos_part min)
        (pos_part (as_i32 limit)))

-- `insert_after`
pub insert_after : Table → ℤ → Entry → ℕ → Result (ℕ × Table)
insert_after table min e limit = do
  n ← find_free_fd_num table min limit
  ok (n, put (pos n) e table)

-- `insert`
pub insert : Table → Entry → ℕ → Result (ℕ × Table)
insert table e limit = insert_after table (pos 0) e limit

-- `replace`
pub replace : Table → ℤ → Entry → ℕ → Result Table
replace table k e limit = do ensure (ltb_ℤ k (as_i32 limit)) bad_f; ok (put k e table)

abbrev pub or_bad_f : Option Entry → Result Entry
or_bad_f none = err bad_f
or_bad_f (some e) = ok e

-- `get_with_flags`
pub get_with_flags : Table → ℤ → Result Entry
get_with_flags table k = or_bad_f (lookup k table)

-- `set_flags`
pub set_flags : Table → ℤ → Bool → Result Table
set_flags table k cloexec = do
  e ← or_bad_f (lookup k table)
  ok (put k (record e { cloexec = cloexec }) table)

-- `close`
pub close : Table → ℤ → Result Table
close table k = do _ ← or_bad_f (lookup k table); ok (delete k table)

-- `prepare_for_execve`
pub prepare_for_execve : Table → Table
prepare_for_execve [] = []
prepare_for_execve ((k, e) ∷ t) =
    if e.cloexec then prepare_for_execve t else (k, e) ∷ prepare_for_execve t

-- `FileDescriptorTable::empty`
pub empty : Table
empty = []

-- `insert`, then `unwrap`, then `assert_eq!` on the number.
pub insert_at : Table → Entry → ℕ → ℕ → Outcome Table
insert_at table e limit expected = elim (insert table e limit) [
  | err _ ↦ panics
  | ok (n, table') ↦ if n == expected then returns table' else panics
]

-- `FileDescriptorTable::with_standard_io`, with the identities of the three streams.
pub with_standard_io : ℕ → ℕ → ℕ → Outcome Table
with_standard_io stdin stdout stderr =
    elim (insert_at empty (record { fd = stdin; cloexec = false }) 3 0) [
      | panics ↦ panics
      | returns one ↦ elim (insert_at one (record { fd = stdout; cloexec = false }) 3 1) [
        | panics ↦ panics
        | returns two ↦ insert_at two (record { fd = stderr; cloexec = false }) 3 2
      ]
    ]

-- `Clone`: every entry anew, with the same description and flags.
pub clone : Table → Table
clone [] = []
clone ((k, e) ∷ t) = (k, record { fd = e.fd; cloexec = e.cloexec }) ∷ clone t
