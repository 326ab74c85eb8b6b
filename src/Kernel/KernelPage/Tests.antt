-- ===== src/Kernel/KernelPage/Tests.antt =====
-- Runs of the pages that are copied on write at concrete inputs.
use mushroom.Prelude.{ℕ, zero, suc, ◌≡◌, refl, ◌<◌, true, false, [], ◌∷◌, none, some, arith}
use mushroom.Prelude.ErrorKind.{ok}
use mushroom.Kernel.KernelPage.{content, Pages, zeroed, cell_at, make_mut}
use mushroom.Kernel.KernelPage.Counts.{owners, sharers}
use mushroom.Kernel.KernelPage.Valid.{CellOk, IsValid}
use mushroom.Kernel.KernelPage.Alone.{Makes, IsAlone, make_mut-IsAlone}

-- Two pages share an allocation; a third is the zero page.
abbrev two_sharers : Pages
two_sharers = record {
  cells = content (0 ∷ []) none ∷ content (7 ∷ []) (some 2) ∷ [];
  pages =
      record { address = 1; counted = true } ∷ zeroed ∷ record { address = 1; counted = true } ∷ [];
}

cells_ok :
    (a : ℕ)
    → 0 < a
    → CellOk
        (cell_at two_sharers.cells a)
        (owners two_sharers.pages a)
        (sharers two_sharers.pages a)
cells_ok zero h = elim h [ ]
cells_ok (suc zero) h = (refl, refl, omega arith)
cells_ok (suc (suc a)) h = (ground arith, ground arith)

two_sharers-IsValid : IsValid two_sharers
two_sharers-IsValid = (cells_ok, refl, omega arith)

make_mut-IsAlone_example :
    Makes two_sharers 2 (make_mut true 2 false two_sharers)
    × IsValid (make_mut true 2 false two_sharers).0
    × ((make_mut true 2 false two_sharers).1 ≡ ok tt
        → IsAlone (make_mut true 2 false two_sharers).0 2)
make_mut-IsAlone_example = make_mut-IsAlone two_sharers 2 two_sharers-IsValid (omega arith) true
