-- ===== src/Kernel/PageBuffer.antt =====
-- tee/kernel/src/memory/page/buffer.rs: the contents of a file, in pages. A page is the list of its bytes.
-- `make_mut` and the clone of a page, which Kernel/KernelPage has, keep the bytes of all pages, so that
-- only their failure is kept here: it is a parameter, as is the room of the heap. Sums of offsets and lengths are taken to stay below 2 ^ 64. An index of a
-- page out of range changes nothing here, where the code panics.
mod Tests
pub mod Bytes
pub mod Reserve
pub mod Read
pub mod Write
pub mod Page
use mushroom.Prelude.{
  ℕ, zero, suc, ◌+◌, ◌-◌, ◌*◌, ◌/◌, ◌%◌, Bool, true, false, not, ◌&&◌, ◌||◌, List, [], ◌∷◌, ◌++◌,
  length, get_or, set, take, drop, replicate, min, max, ltb, leb, ◌==◌, if◌then◌else◌,
}
use mushroom.Prelude.ErrorKind.{ErrorKind, no_mem, acces, Result, err, ok}

abbrev pub page_size : ℕ
page_size = 4096

-- `PageContent`
abbrev pub Page : Type 0
Page = List ℕ

pub record Buffer : Type 0 where
  pub len : ℕ
  pub pages : List Page

-- `Buffer::new`
pub new : Buffer
new = record { len = 0; pages = [] }

-- `KernelPage::zeroed`
pub zeroed : Page
zeroed = replicate page_size 0

-- `usize::div_ceil` by the size of a page
abbrev pub div_ceil : ℕ → ℕ
div_ceil n = (n + 4095) / page_size

-- `?` in a method: what it did to the buffer stays.
abbrev pub and_then {ℓ} :
    {T : Type ℓ} → Buffer × Result (Unit {0}) → (Buffer → Buffer × Result T) → Buffer × Result T
and_then (b, err kind) next = (b, err kind)
and_then (b, ok u) next = next b

-- `Buffer::reserve`; the first parameter is whether the heap has room for so many new pages.
pub reserve : (ℕ → Bool) → Buffer → ℕ → Buffer × Result (Unit {0})
reserve room b additional =
    let new_pages = div_ceil (b.len + additional) - length b.pages in
    if additional == 0
    then (b, ok tt)
    else if room new_pages
    then (record b { pages = b.pages ++ replicate new_pages zeroed }, ok tt)
    else (b, err no_mem)

-- `KernelPage::zero_range` from an index on
pub zero_from : ℕ → Page → Page
zero_from start p = take start p ++ replicate (page_size - start) 0

-- The page with the end of the contents, zeroed behind it.
pub zero_tail : Buffer → List Page
zero_tail b =
    let idx = b.len / page_size in
    if b.len % page_size == 0
    then b.pages
    else set b.pages idx (zero_from (b.len % page_size) (get_or b.pages idx []))

pub reserve_zeroed : (ℕ → Bool) → Buffer → ℕ → Buffer × Result (Unit {0})
reserve_zeroed room b additional =
    if additional == 0
    then (b, ok tt)
    else reserve room (record b { pages = take (div_ceil b.len) (zero_tail b) }) additional

-- The part of a page that a copy from `start` to `end` touches, by its indices in the buffer, and whether
-- the loops visit the page.
abbrev pub copy_start : ℕ → ℕ → ℕ
copy_start i start = max (i * page_size) start

abbrev pub copy_end : ℕ → ℕ → ℕ
copy_end i end = min ((i + 1) * page_size - 1) end

abbrev pub count : ℕ → ℕ → ℕ → ℕ
count i start end = copy_end i end - copy_start i start + 1

abbrev pub visits : ℕ → ℕ → ℕ → Bool
visits i start end = leb (start / page_size) i && ltb i (div_ceil (end + 1))

-- `copy_nonoverlapping` of `src` to an index of `dst`
pub copy_to : List ℕ → ℕ → List ℕ → List ℕ
copy_to dst at src = take at dst ++ (src ++ drop (at + length src) dst)

-- The bytes from an index on, so many.
abbrev pub slice : List ℕ → ℕ → ℕ → List ℕ
slice xs at n = take n (drop at xs)

-- The body of `read`'s loop, and the loop over the pages from number `i` on.
pub read_page : ℕ → ℕ → ℕ → Page → List ℕ → List ℕ
read_page start end i p dst =
    if visits i start end
    then copy_to dst (copy_start i start - start)
        (slice p (copy_start i start - i * page_size) (count i start end))
    else dst

pub read_pages : ℕ → ℕ → ℕ → List Page → List ℕ → List ℕ
read_pages start end i [] dst = dst
read_pages start end i (p ∷ ps) dst = read_pages start end (i + 1) ps (read_page start end i p dst)

-- `Buffer::read` into a slice; the slice, and the number of bytes.
pub read : Buffer → ℕ → List ℕ → List ℕ × ℕ
read b offset buf =
    let len = min (b.len - offset) (length buf) in
    if len == 0 then (buf, 0) else (read_pages offset (offset + len - 1) 0 b.pages buf, len)

-- The body of `write`'s loop, and the loop; `writable` is whether `make_mut` of the page with a number
-- succeeds, which allocates for the zero page only.
pub write_page : ℕ → ℕ → ℕ → Page → List ℕ → Page
write_page start end i p src =
    if visits i start end
    then copy_to p (copy_start i start - i * page_size)
        (slice src (copy_start i start - start) (count i start end))
    else p

pub write_pages : (ℕ → Bool) → ℕ → ℕ → ℕ → List Page → List ℕ → List Page × Result (Unit {0})
write_pages writable start end i [] src = ([], ok tt)
write_pages writable start end i (p ∷ ps) src =
    let rest = write_pages writable start end (i + 1) ps src in
    if visits i start end && not (writable i)
    then (p ∷ ps, err no_mem)
    else (write_page start end i p src ∷ rest.0, rest.1)

-- `Buffer::write`
abbrev pub stored : ℕ → List ℕ → Buffer → List Page × Result (Unit {0}) → Buffer × Result ℕ
stored offset buf b (ps, err kind) = (record b { pages = ps }, err kind)
stored offset buf b (ps, ok u) =
    (record { len = max b.len (offset + length buf); pages = ps }, ok (length buf))

abbrev pub store : (ℕ → Bool) → ℕ → List ℕ → Buffer → Buffer × Result ℕ
store writable offset buf b =
    stored offset buf b (write_pages writable offset (offset + length buf - 1) 0 b.pages buf)

pub write : (ℕ → Bool) → (ℕ → Bool) → Buffer → ℕ → List ℕ → Buffer × Result ℕ
write room writable b offset buf = and_then (reserve_zeroed room b (offset - b.len)) (λ c.
    if length buf == 0
    then (c, ok 0)
    else and_then (reserve room c (offset + length buf - c.len)) (store writable offset buf))

-- `Buffer::truncate`
pub truncate : (ℕ → Bool) → Buffer → ℕ → Buffer × Result (Unit {0})
truncate room b len =
    and_then (reserve_zeroed room b (len - b.len)) (λ c. (record c { len = len }, ok tt))

-- `Buffer::get_page`; `cloned` is whether the heap has room for the counter of the page that is shared.
abbrev pub give_page : Bool → Bool → (ℕ → Bool) → ℕ → Buffer → Buffer × Result Page
give_page shared cloned writable page_idx c =
    if (shared && not (writable page_idx)) || not cloned
    then (c, err no_mem)
    else (c, ok (get_or c.pages page_idx []))

pub get_page : Bool → Bool → (ℕ → Bool) → (ℕ → Bool) → Buffer → ℕ → Buffer × Result Page
get_page shared cloned room writable b page_idx =
    if not (ltb page_idx (length b.pages))
    then (b, err acces)
    else and_then (reserve_zeroed room b ((page_idx + 1) * page_size - b.len))
        (give_page shared cloned writable page_idx)
