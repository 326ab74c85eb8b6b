-- ===== src/Kernel/PageBuffer/Tests.antt =====
-- Runs of the contents of a file at concrete inputs.
use mushroom.Prelude.{ℕ, ◌<◌, ◌≡◌, refl, true, [], ◌∷◌, get_or, ltb, ◌==◌, arith}
use mushroom.Prelude.ErrorKind.{ok}
use mushroom.Kernel.PageBuffer.{
  Buffer, zeroed, read, write, write_pages, truncate, get_page, reserve, reserve_zeroed,
}
use mushroom.Kernel.PageBuffer.Reserve.{IsValid}
use mushroom.Kernel.PageBuffer.Write.{Overwrites, write-Overwrites, read-write}
use mushroom.Kernel.PageBuffer.Page.{Truncates, truncate-Truncates, Shows, get_page-Shows}
use mushroom.Kernel.PageBuffer.Bytes.{length-zeroed}

-- Two pages, of which the contents fill the first and ten bytes of the second.
abbrev two_pages : Buffer
two_pages = record { len = 4106; pages = zeroed ∷ zeroed ∷ [] }

two_pages-IsValid : IsValid two_pages
two_pages-IsValid = ((length-zeroed, (length-zeroed, tt)), omega arith)

write-Overwrites_example :
    Overwrites two_pages 5000
      (1 ∷ 2 ∷ [])
      (write (λ n. true) (λ i. i == 1) two_pages 5000 (1 ∷ 2 ∷ []))
write-Overwrites_example =
    write-Overwrites (λ n. true) (λ i. i == 1) two_pages 5000 (1 ∷ 2 ∷ []) two_pages-IsValid

truncate-Truncates_example : Truncates two_pages 9000 (truncate (λ n. ltb n 3) two_pages 9000)
truncate-Truncates_example = truncate-Truncates (λ n. ltb n 3) two_pages 9000 two_pages-IsValid

get_page-Shows_example : Shows two_pages 1 (get_page true true (λ n. true) (λ i. true) two_pages 1)
get_page-Shows_example =
    get_page-Shows true true (λ n. true) (λ i. true) two_pages 1 two_pages-IsValid

-- A write over the end of the contents, with room for two pages.
abbrev grown : Buffer
grown = (write (λ n. ltb n 3) (λ i. true) two_pages 4104 (1 ∷ 2 ∷ 3 ∷ [])).0

grows : write (λ n. ltb n 3) (λ i. true) two_pages 4104 (1 ∷ 2 ∷ 3 ∷ []) ≡ (grown, ok 3)
unfolding write reserve reserve_zeroed write_pages
grows = refl

read-write_example :
    ((read grown 4104 (0 ∷ 0 ∷ 0 ∷ [])).1 ≡ 3)
    × ((k : ℕ)
        → k < 3
        → get_or (read grown 4104 (0 ∷ 0 ∷ 0 ∷ [])).0 k 0 ≡ get_or (1 ∷ 2 ∷ 3 ∷ []) k 0)
read-write_example =
    read-write (λ n. ltb n 3) (λ i. true) two_pages grown 4104 (1 ∷ 2 ∷ 3 ∷ []) 3 two_pages-IsValid
      grows (0 ∷ 0 ∷ 0 ∷ []) refl
