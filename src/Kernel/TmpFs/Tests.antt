-- ===== src/Kernel/TmpFs/Tests.antt =====
-- The directories of tee/kernel/src/fs/node/tmpfs.rs at small trees.
use mushroom.Prelude.{ℕ, zero, suc, refl, Bool, true, false, [], ◌∷◌, arith}
use mushroom.Kernel.Ownership.{Ownership}
use mushroom.Kernel.TmpFs.Names.{Name, same}
use mushroom.Kernel.TmpFs.{get, insert, TmpFs, no_mode, root_alone, create_dir}
use mushroom.Kernel.TmpFs.Moves.{rename, exchange}
use mushroom.Kernel.TmpFs.Moves.Roots.{Climbs}
use mushroom.Kernel.TmpFs.Moves.Rename.{IsRooted, Renames, rename-Renames}
use mushroom.Kernel.TmpFs.Moves.Keep.{IsValid}
use mushroom.Kernel.TmpFs.Moves.Steps.{Run, makes_dir, Run-IsValid}
use mushroom.Kernel.TmpFs.Moves.Exchange.{Exchanges, exchange-Exchanges}

abbrev own : Ownership
own = record { mode = no_mode; uid = 0; gid = 0 }

abbrev all_alive : ℕ → Bool
all_alive d = true

abbrev none_of : ℕ → Bool
none_of d = false

abbrev name_a : Name
name_a = 97 ∷ []

abbrev name_b : Name
name_b = 98 ∷ []

abbrev name_c : Name
name_c = 99 ∷ []

-- The directories `/a`, `/b` and `/b/c`, with the numbers 1, 2 and 3.
abbrev three : TmpFs
three =
    (create_dir 2 name_c own
      (create_dir 0 name_b own (create_dir 0 name_a own (root_alone own)).0).0).0

built : Run all_alive none_of none_of (root_alone own) three
unfolding create_dir root_alone get insert same
built =
    Run.next
      (Run.next (Run.next Run.start (makes_dir 0 name_a own (omega arith)))
        (makes_dir 0 name_b own (omega arith)))
      (makes_dir 2 name_c own (omega arith))

Run-IsValid_example : IsValid three
Run-IsValid_example = Run-IsValid all_alive none_of none_of own built

rooted : IsRooted three
unfolding create_dir root_alone get insert same
rooted zero = Climbs.top refl
rooted (suc zero) = Climbs.up 0 name_a refl (Climbs.top refl)
rooted (suc (suc zero)) = Climbs.up 0 name_b refl (Climbs.top refl)
rooted (suc (suc (suc zero))) = Climbs.up 2 name_c refl (Climbs.up 0 name_b refl (Climbs.top refl))
rooted (suc (suc (suc (suc k)))) = Climbs.top refl

rename-Renames_example :
    Renames three 0 name_a 3 name_b (rename all_alive 5 0 name_a true 3 name_b false three)
unfolding rooted create_dir root_alone get insert same
rename-Renames_example =
    rename-Renames all_alive 5 three 0 3 name_a name_b (omega arith) (omega arith)
      Run-IsValid_example.0 rooted (omega arith) true false

exchange-Exchanges_example :
    Exchanges three 0 name_a 2 name_c (exchange all_alive 5 0 name_a 2 name_c three)
unfolding rooted create_dir root_alone get insert same
exchange-Exchanges_example =
    exchange-Exchanges all_alive 5 three 0 2 name_a name_c (omega arith) (omega arith)
      Run-IsValid_example.0 rooted (omega arith)
