-- ===== src/Kernel/KernelPage.antt =====
-- tee/kernel/src/memory/page/kernel.rs: pages that are copied when they are written. The state has the
-- allocations, by address, with the zero page at address 0, and every `KernelPage` there is. The counter that
-- the pages of one allocation point to is kept with the allocation. A place whose page was dropped has
-- the zero page, which owns nothing.
mod Tests
pub mod Counts
pub mod Valid
pub mod Copy
pub mod Alone
use mushroom.Prelude.{
  ℕ, zero, suc, ◌+◌, ◌-◌, Bool, true, false, not, ◌&&◌, ◌||◌, List, [], ◌∷◌, ◌++◌, Option, none,
  some, length, get_or, set, ◌==◌, if◌then◌else◌,
}
use mushroom.Prelude.ErrorKind.{ErrorKind, no_mem, Result, err, ok}

-- An allocation of `PageContent`, with its counter where it has one.
pub data Cell : Type 0 where
  freed : Cell
  content : List ℕ → Option ℕ → Cell

-- `KernelPage`: the address of its content, and whether it has a `reference_count`.
pub record KernelPage : Type 0 where
  pub address : ℕ
  pub counted : Bool

pub record Pages : Type 0 where
  pub cells : List Cell
  pub pages : List KernelPage

-- `KernelPage::zeroed`
abbrev pub zeroed : KernelPage
zeroed = record { address = 0; counted = false }

abbrev pub page_at : Pages → ℕ → KernelPage
page_at p k = get_or p.pages k zeroed

abbrev pub cell_at : List Cell → ℕ → Cell
cell_at cells a = get_or cells a freed

pub is_zero_page : KernelPage → Bool
is_zero_page h = not h.counted && (h.address == 0)

pub mutable : KernelPage → Bool → Bool
mutable h shared = not (is_zero_page h) && (not h.counted || shared)

-- The counter of an allocation changed; what is freed has none.
abbrev pub with_counter : Cell → Option ℕ → Cell
with_counter freed n = freed
with_counter (content bytes old) n = content bytes n

abbrev pub counter : Cell → ℕ
counter freed = 0
counter (content bytes none) = 0
counter (content bytes (some n)) = n

abbrev pub bytes_of : Cell → List ℕ
bytes_of freed = []
bytes_of (content bytes n) = bytes

-- `KernelPage::clone`: the new page comes last. The first parameter is whether the heap has room.
pub clone : Bool → ℕ → Pages → Pages × Result ℕ
clone room k p =
    let h = page_at p k in
    let cell = cell_at p.cells h.address in
    if is_zero_page h
    then (record p { pages = p.pages ++ (h ∷ []) }, ok (length p.pages))
    else if h.counted
    then (
      record {
        cells = set p.cells h.address (with_counter cell (some (counter cell + 1)));
        pages = p.pages ++ (h ∷ []);
      },
      ok (length p.pages),
    )
    else if room
    then (
      record {
        cells = set p.cells h.address (with_counter cell (some 2));
        pages = set p.pages k (record h { counted = true }) ++ (record h { counted = true } ∷ []);
      },
      ok (length p.pages),
    )
    else (p, err no_mem)

-- `Drop` for a page, on the allocations
pub release : KernelPage → List Cell → List Cell
release h cells =
    let cell = cell_at cells h.address in
    if is_zero_page h
    then cells
    else if not h.counted
    then set cells h.address freed
    else if counter cell == 1
    then set cells h.address freed
    else set cells h.address (with_counter cell (some (counter cell - 1)))

pub drop_page : ℕ → Pages → Pages
drop_page k p = record { cells = release (page_at p k) p.cells; pages = set p.pages k zeroed }

-- The end of `make_mut`: a new allocation with the content's copy takes the page's place, and the old
-- page is dropped.
pub copy : Bool → ℕ → Pages → Pages × Result (Unit {0})
copy room k p =
    let h = page_at p k in
    if room
    then (
      record {
        cells = release h p.cells ++ (content (bytes_of (cell_at p.cells h.address)) none ∷ []);
        pages = set p.pages k (record { address = length p.cells; counted = false });
      },
      ok tt,
    )
    else (p, err no_mem)

-- `KernelPage::make_mut`
pub make_mut : Bool → ℕ → Bool → Pages → Pages × Result (Unit {0})
make_mut room k shared p =
    let h = page_at p k in
    let cell = cell_at p.cells h.address in
    if is_zero_page h
    then copy room k p
    else if shared || not h.counted
    then (p, ok tt)
    else if counter cell == 1
    then (
      record {
        cells = set p.cells h.address (with_counter cell none);
        pages = set p.pages k (record h { counted = false });
      },
      ok tt,
    )
    else copy room k p
