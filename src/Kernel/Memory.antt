-- ===== src/Kernel/Memory.antt =====
-- tee/kernel/src/user/process/memory.rs: the mappings of a process's virtual memory. Addresses are
-- numbers; a `BTreeMap` is the list of its entries by ascending key, and a cursor a place in it.
pub mod View
pub mod Unmap
pub mod Mmap
pub mod Brk
use mushroom.Prelude.{
  ℕ, zero, suc, ◌+◌, ◌-◌, ◌*◌, ◌/◌, ◌%◌, Bool, true, false, List, [], ◌∷◌, ◌++◌, Option, none, some,
  ltb, leb, ◌==◌, if◌then◌else◌, length, take, drop, replicate,
}
use mushroom.Prelude.ErrorKind.{
  Result, ok, err, ErrorKind, no_mem, inval, fault, ensure, ◌>>=◌, ◌>>◌,
}

-- `UserPage`: a resident page, by the identity of its contents.
pub record UserPage : Type 0 where
  pub page : ℕ
  pub perms : ℕ

-- A `Mapping`. The backing is its identity; `SplitVec` is the list of the entries that it owns.
pub record Mapping : Type 0 where
  pub backing : ℕ
  pub page_offset : ℕ
  pub permissions : ℕ
  pub shared : Bool
  pub pages : List (Option UserPage)

abbrev pub Mappings : Type 0
Mappings = List (ℕ × Mapping)

-- `Mapping::split_off`: the mapping that keeps the first pages, and the one with the others.
abbrev pub split_front : Mapping → ℕ → Mapping
split_front m offset = record m { pages = take offset m.pages }

abbrev pub split_back : Mapping → ℕ → Mapping
split_back m offset = record m { page_offset = m.page_offset + offset; pages = drop offset m.pages }

-- `upper_bound_mut(Included(start))` and `prev`: the entries before the cursor and those after it,
-- which start with the last entry at or below `start`, if there is one.
pub seek : ℕ → Mappings → Mappings × Mappings
seek start [] = ([], [])
seek start (e ∷ []) = ([], e ∷ [])
seek start (e ∷ f ∷ r) =
    let (front, rest) = seek start (f ∷ r) in
    if leb f.0 start then (e ∷ front, rest) else ([], e ∷ f ∷ r)

-- The part of `unmap`'s loop body for an entry at or after the start, where `rest` is what the
-- loop makes of the entries behind.
abbrev pub unmap_entry : ℕ → ℕ → Mapping → Mappings → Mappings → Mappings
unmap_entry end page m r rest =
    if ltb end page
    then (page, m) ∷ r
    else if leb (page + length m.pages - 1) end
    then rest
    else (end + 1, split_back m (end - page + 1)) ∷ r

-- The loop of `unmap`. After a split at the start the cursor's next entry is the new mapping.
pub unmap_loop : ℕ → ℕ → Mappings → Mappings
unmap_loop start end [] = []
unmap_loop start end ((page, m) ∷ r) =
    let rest = unmap_loop start end r in
    if ltb page start
    then (if ltb (page + (length m.pages - 1)) start
        then (page, m) ∷ r
        else (page, split_front m (start - page))
          ∷ unmap_entry end start (split_back m (start - page)) r rest)
    else unmap_entry end page m r rest

abbrev pub page_of : ℕ → ℕ
page_of addr = addr / 0x1000

pub unmap_pages : ℕ → ℕ → Mappings → Mappings
unmap_pages start end ms = let (front, rest) = seek start ms in front ++ unmap_loop start end rest

-- `VirtualMemoryWriteGuard::unmap`
pub unmap : ℕ → ℕ → Mappings → Mappings
unmap addr len ms =
    if len == 0 then ms else unmap_pages (page_of addr) (page_of (addr + (len - 1))) ms

-- `BTreeMap::insert`
pub insert : ℕ → Mapping → Mappings → Mappings
insert k m [] = (k, m) ∷ []
insert k m ((j, n) ∷ r) =
    if ltb k j then (k, m) ∷ (j, n) ∷ r else if k == j then (k, m) ∷ r else (j, n) ∷ insert k m r

-- The mapping that `mmap` creates.
abbrev pub fresh : ℕ → ℕ → ℕ → ℕ → ℕ → Bool → Mapping
fresh start end permissions backing page_offset shared = record {
  backing = backing;
  page_offset = page_offset;
  permissions = permissions;
  shared = shared;
  pages = replicate (end - start + 1) none;
}

-- `VirtualMemoryWriteGuard::mmap` at the address that a `Bias::Fixed` gives or that
-- `find_free_address` chose.
pub mmap : ℕ → ℕ → ℕ → ℕ → ℕ → Bool → Mappings → Mappings
mmap addr len permissions backing page_offset shared ms =
    let start = page_of addr in
    let end = page_of (addr + len - 1) in
    insert start (fresh start end permissions backing page_offset shared) (unmap addr len ms)

-- The entry with the greatest key up to the given page, as `range(..=page).next_back()` and
-- `upper_bound_mut(Included(page))` with `prev` find it.
unfoldable pub last_at : ℕ → Mappings → Option (ℕ × Mapping)
last_at page [] = none
last_at page ((k, m) ∷ r) = elim (last_at page r) [
  | some e ↦ some e
  | none ↦ if leb k page then some (k, m) else none
]

-- The lookup of `map_page`: the mapping of a page and the page's index in it.
abbrev pub in_mapping : ℕ → Option (ℕ × Mapping) → Option (Mapping × ℕ)
in_mapping page none = none
in_mapping page (some (k, m)) = if ltb (page - k) (length m.pages) then some (m, page - k) else none

pub find_page : Mappings → ℕ → Option (Mapping × ℕ)
find_page ms page = in_mapping page (last_at page ms)

-- `VirtualMemoryWriteGuard::is_free`
unfoldable pub is_free : ℕ → ℕ → Mappings → Bool
is_free addr len ms = if len == 0 then true else elim (last_at (page_of (addr + (len - 1))) ms) [
  | none ↦ false
  | some (page, m) ↦ leb (page + length m.pages) (page_of addr)
]

-- `VirtualMemoryState`
pub record State : Type 0 where
  pub mappings : Mappings
  pub brk_end : ℕ

-- `MemoryPermissions::WRITE | MemoryPermissions::READ`
abbrev pub read_write : ℕ
read_write = 6

-- `VirtualMemoryWriteGuard::set_brk_end`, with the identity of the zero backing.
pub set_brk_end : ℕ → ℕ → State → Result (Unit {0}) × State
set_brk_end zero_backing brk_end s =
    if ltb s.brk_end brk_end
    then (if is_free s.brk_end (brk_end - s.brk_end) s.mappings
        then (
          ok tt,
          record {
            mappings =
                mmap s.brk_end (brk_end - s.brk_end) read_write zero_backing 0 false s.mappings;
            brk_end = brk_end;
          },
        )
        else (err no_mem, s))
    else if s.brk_end == brk_end
    then (ok tt, record s { brk_end = brk_end })
    else (
      ok tt,
      record { mappings = unmap brk_end (s.brk_end - brk_end) s.mappings; brk_end = brk_end },
    )
