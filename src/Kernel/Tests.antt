-- ===== src/Kernel/Tests.antt =====
-- Runs of the kernel's code at concrete inputs.
use mushroom.Prelude.{
  ℕ, ◌+◌, ◌-◌, ◌≡◌, refl, Bool, true, false, List, [], ◌∷◌, Option, none, some, arith, inl,
}
use mushroom.Prelude.Int.{pos, negsuc}
use mushroom.Kernel.Memory.{
  UserPage, Mapping, Mappings, State, unmap, mmap, find_page, is_free, set_brk_end, page_of,
  last_at,
}
use mushroom.Kernel.Memory.View.{IsValid, view}
use mushroom.Kernel.Memory.Unmap.{without, NoGap, view-unmap}
use mushroom.Kernel.Memory.Mmap.{IsClear, viewed, view-find_page, mapped, new_mapping, view-mmap}
use mushroom.Kernel.Memory.Brk.{is_free-IsClear, Grows, set_brk_end-Grows}
use mushroom.Kernel.FdTable.{Entry, Table, lookup, insert_after, close, prepare_for_execve}
use mushroom.Kernel.FdTable.Lookup.{IsSorted, Closes, close-Closes, kept, lookup-prepare_for_execve}
use mushroom.Kernel.FdTable.Free.{Inserts, insert_after-Inserts}
use mushroom.Kernel.FileLock as Lock
use mushroom.Kernel.FileLock.{Locks, lock_shared, lock_exclusive, unlock}
use mushroom.Kernel.FileLock.Exclusion as Exclusion
use mushroom.Kernel.FileLock.Exclusion.{
  unlock-IsValid, Attempts, lock_shared-Attempts, lock_exclusive-Attempts,
}
use mushroom.Kernel.Path.{PathSegment, segments}
use mushroom.Kernel.Path.Print.{print, print-segments}
use mushroom.Kernel.Ownership as Files
use mushroom.Kernel.Ownership.{FileMode, Ownership, FileAccessContext, chown, chmod}
use mushroom.Kernel.Ownership.Access.{Stays, chown-Stays, Restricts, chmod-Restricts}

abbrev pages_of : List (Option UserPage) → Mapping
pages_of ps = record { backing = 1; page_offset = 5; permissions = 4; shared = false; pages = ps }

-- Pages 2 to 4, the first of them resident, and pages 8 and 9.
abbrev two_mappings : Mappings
two_mappings =
    (2, pages_of (some (record { page = 70; perms = 4 }) ∷ none ∷ none ∷ []))
    ∷ (8, pages_of (none ∷ none ∷ []))
    ∷ []

two_mappings-IsValid : IsValid two_mappings
two_mappings-IsValid = (omega arith, omega arith, (omega arith, omega arith, tt))

mapped_start : NoGap (page_of 0x3000) (last_at (page_of 0x3000) two_mappings)
unfolding last_at
mapped_start = omega arith

view-unmap_example :
    view (unmap 0x3000 0x5800 two_mappings) 9
    ≡ without (page_of 0x3000) (page_of (0x3000 + (0x5800 - 1))) two_mappings 9
view-unmap_example =
    view-unmap 0x3000 0x5800 two_mappings 9 (omega arith) two_mappings-IsValid mapped_start

view-find_page_example : viewed (find_page two_mappings 3) ≡ view two_mappings 3
view-find_page_example = view-find_page two_mappings 3 two_mappings-IsValid

view-mmap_example :
    IsValid (mmap 0x3000 0x5800 6 9 0 true two_mappings)
    × ((p : ℕ)
        → view (mmap 0x3000 0x5800 6 9 0 true two_mappings) p
          ≡ mapped
              (page_of 0x3000)
              (page_of (0x3000 + (0x5800 - 1)))
              (new_mapping 0x3000 0x5800 6 9 0 true two_mappings)
              two_mappings
              p)
view-mmap_example =
    view-mmap 0x3000 0x5800 6 9 0 true two_mappings (omega arith) two_mappings-IsValid
      (inl mapped_start)

free_gap : is_free 0x5000 0x3000 two_mappings ≡ true
unfolding is_free last_at
free_gap = refl

is_free-IsClear_example : IsClear (page_of 0x5000) (page_of (0x5000 + (0x3000 - 1))) two_mappings
is_free-IsClear_example =
    is_free-IsClear 0x5000 0x3000 two_mappings (omega arith) two_mappings-IsValid free_gap

abbrev small_heap : State
small_heap = record { mappings = two_mappings; brk_end = 0xa000 }

set_brk_end-Grows_example : Grows 3 0xc000 small_heap (set_brk_end 3 0xc000 small_heap)
set_brk_end-Grows_example = set_brk_end-Grows 3 0xc000 small_heap (omega arith) two_mappings-IsValid

abbrev entry : ℕ → Bool → Entry
entry fd cloexec = record { fd = fd; cloexec = cloexec }

abbrev three_open : Table
three_open = (pos 0, entry 10 false) ∷ (pos 1, entry 11 true) ∷ (pos 3, entry 12 false) ∷ []

three_open-IsSorted : IsSorted three_open
three_open-IsSorted = (omega arith, (omega arith, tt))

insert_after-Inserts_example :
    Inserts three_open
      (negsuc 4)
      (entry 13 true)
      8
      (insert_after three_open (negsuc 4) (entry 13 true) 8)
insert_after-Inserts_example =
    insert_after-Inserts three_open (negsuc 4) (entry 13 true) 8 three_open-IsSorted

close-Closes_example : Closes three_open (pos 1) (close three_open (pos 1))
close-Closes_example = close-Closes three_open (pos 1) three_open-IsSorted

lookup-prepare_for_execve_example :
    lookup (pos 1) (prepare_for_execve three_open) ≡ kept (lookup (pos 1) three_open)
lookup-prepare_for_execve_example = lookup-prepare_for_execve (pos 1) three_open three_open-IsSorted

-- Two sharers among three locks.
abbrev two_sharers : Locks
two_sharers = record {
  counter = pos 2;
  states = Lock.shared ∷ Lock.unlocked ∷ Lock.shared ∷ [];
  notifications = 0;
}

two_sharers-IsValid : Exclusion.IsValid two_sharers
two_sharers-IsValid = inl (refl, refl)

lock_shared-Attempts_example : Attempts Lock.shared 1 false (lock_shared 1 false two_sharers)
lock_shared-Attempts_example =
    lock_shared-Attempts 1 false two_sharers (omega arith) two_sharers-IsValid

lock_exclusive-Attempts_example :
    Attempts Lock.exclusive 1 false (lock_exclusive 1 false two_sharers)
lock_exclusive-Attempts_example =
    lock_exclusive-Attempts 1 false two_sharers (omega arith) two_sharers-IsValid

abbrev mode : FileMode
mode = record { allows = λ c p. true; set_user_id = false; set_group_id = true; sticky = false }

abbrev owned : Ownership
owned = record { mode = mode; uid = 1000; gid = 50 }

abbrev caller : FileAccessContext
caller = record {
  filesystem_user_id = 1000;
  filesystem_group_id = 1000;
  supplementary_group_ids = 20 ∷ 30 ∷ [];
}

chown-Stays_example : Stays owned caller (chown owned Files.unchanged 30 caller)
chown-Stays_example = chown-Stays owned Files.unchanged 30 caller (omega arith)

chmod-Restricts_example : Restricts owned mode caller (chmod owned mode caller)
chmod-Restricts_example = chmod-Restricts owned mode caller (omega arith)

-- The path `/a//..`
abbrev dotted : List ℕ
dotted = 47 ∷ 97 ∷ 47 ∷ 47 ∷ 46 ∷ 46 ∷ []

print-segments_example :
    (out : List PathSegment) × (segments dotted ≡ some out) × (print out ≡ dotted)
print-segments_example = print-segments dotted
