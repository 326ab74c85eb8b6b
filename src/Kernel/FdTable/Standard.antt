-- ===== src/Kernel/FdTable/Standard.antt =====
-- The tables of fd.rs that a process starts with: the standard streams', and the copy of its parent's.
use mushroom.Prelude.{ℕ, false, [], ◌∷◌, ◌≡◌, refl, ap}
use mushroom.Prelude.Int.{pos, as_i32}
use mushroom.Prelude.Outcome.{returns}
use mushroom.Kernel.FdTable.{
  Entry, Table, put, skip_below, find_gap, find_free_fd_num, insert_after, insert, empty, insert_at,
  with_standard_io, clone, prepare_for_execve,
}

abbrev stream : ℕ → Entry
stream fd = record { fd = fd; cloexec = false }

clone_same : (t : Table) → clone t ≡ t
unfolding clone
clone_same [] = refl
clone_same ((k, e) ∷ t) = ap (λ r. (k, e) ∷ r) (clone_same t)

-- The first table is made without a panic: the three streams take the numbers 0, 1 and 2, without
-- CLOEXEC, so that a copy of it for a child, and what `execve` leaves of that copy, are the same table.
pub clone-with_standard_io :
    (stdin stdout stderr : ℕ)
    → (t : Table) × (with_standard_io stdin stdout stderr ≡ returns t)
      × (prepare_for_execve (clone t) ≡ t)
      × (t ≡ (pos 0, stream stdin) ∷ (pos 1, stream stdout) ∷ (pos 2, stream stderr) ∷ [])
unfolding with_standard_io insert_at insert insert_after find_free_fd_num as_i32 find_gap skip_below
    put empty prepare_for_execve
clone-with_standard_io a b c =
    let t = (pos 0, stream a) ∷ (pos 1, stream b) ∷ (pos 2, stream c) ∷ [] in
    (t, refl, ap prepare_for_execve (clone_same t), refl)
