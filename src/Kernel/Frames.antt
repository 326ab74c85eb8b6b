-- ===== src/Kernel/Frames.antt =====
-- tee/kernel/src/memory/frame.rs: the allocator of 4 KiB frames. A group is the list of its chunks, each
-- with what the arrays of the three levels hold for it, and with the owner's private copy. The mask of
-- chunks with memory and their slots are only read when a group is claimed and written when it is
-- given back, so that the owner's copy and the shared one are kept as one.
mod Tests
pub mod Bits
pub mod Counts
pub mod Take
pub mod Plug
pub mod Allocate
pub mod Deallocate
pub mod Release
pub mod Groups
use mushroom.Prelude.{
  ℕ, zero, suc, ◌+◌, ◌-◌, ◌*◌, ◌/◌, ◌%◌, Bool, true, false, not, ◌&&◌, ◌||◌, List, [], ◌∷◌, Option,
  none, some, map, ltb, leb, ◌==◌, if◌then◌else◌, get_or, get_elem?, set,
}
use mathlib.Core.Option
use mushroom.Prelude.Outcome.{Outcome, returns, panics}

-- `CHUNK_SIZE` and `GROUP_SIZE`
abbrev pub chunk_size : ℕ
chunk_size = 512

abbrev pub group_size : ℕ
group_size = 8

-- A word of an `L0Chunk`, its lowest bit first.
abbrev pub Word : Type 0
Word = List Bool

-- `L0Chunk`, the count of `L1ChunkMetadata`, the owner's count, the slot of `PhysicalAddressChunk` and
-- the chunk's bit of `L1_ALLOCATED_BITS`
pub record Chunk : Type 0 where
  pub words : List Word
  pub free : ℕ
  pub own_free : ℕ
  pub slot : ℕ
  pub plugged : Bool

-- `L2GroupMetadata` and the owner's `free`
pub record Group : Type 0 where
  pub chunks : List Chunk
  pub free : ℕ
  pub own_free : ℕ
  pub owned : Bool

-- `u64::trailing_ones`
pub trailing_ones : Word → ℕ
trailing_ones [] = 0
trailing_ones (b ∷ w) = let rest = trailing_ones w in if b then suc rest else 0

-- `L0Chunk::find_free`: the words with the bit set, and its index. The search that ends without a bit is
-- `unreachable_unchecked`, here `none`.
pub find_free : ℕ → List Word → Option (List Word × ℕ)
find_free idx [] = none
find_free idx (w ∷ ws) =
    let rest = find_free (idx + 1) ws in
    if leb 64 (trailing_ones w)
    then Option.map (λ r. (w ∷ r.0, r.1)) rest
    else some (set w (trailing_ones w) true ∷ ws, idx * 64 + trailing_ones w)

-- `L0Chunk::deallocate`
pub clear_bit : List Word → ℕ → List Word
clear_bit ws i = set ws (i / 64) (set (get_or ws (i / 64) []) (i % 64) false)

-- `allocate_frame`'s loop over the chunks of the owned group: the chunks, the slot and the frame's index
-- in it. A count above zero without a free bit is undefined behaviour, here a panic.
abbrev pub taken :
    Chunk → ℕ → List Chunk → Option (List Word × ℕ) → Outcome (Option (List Chunk × ℕ × ℕ))
taken c n cs none = panics
taken c n cs (some (ws, i)) = returns (some (record c { words = ws; own_free = n } ∷ cs, c.slot, i))

abbrev pub keep_first :
    Chunk → Outcome (Option (List Chunk × ℕ × ℕ)) → Outcome (Option (List Chunk × ℕ × ℕ))
keep_first c panics = panics
keep_first c (returns none) = returns none
keep_first c (returns (some (cs, slot, i))) = returns (some (c ∷ cs, slot, i))

pub take_frame : List Chunk → Outcome (Option (List Chunk × ℕ × ℕ))
take_frame [] = returns none
take_frame (c ∷ cs) =
    let rest = take_frame cs in
    if c.own_free == 0 then keep_first c rest else taken c (c.own_free - 1) cs (find_free 0 c.words)

-- `PrivateState::refresh`, of a chunk and of the group; whether it claimed anything.
abbrev pub refresh_chunk : Chunk → Chunk
refresh_chunk c = record c { own_free = c.own_free + c.free; free = 0 }

pub any_free : List Chunk → Bool
any_free [] = false
any_free (c ∷ cs) = not (c.free == 0) || any_free cs

pub refresh : Group → Group × Bool
refresh g = (
  record g { chunks = map refresh_chunk g.chunks; own_free = g.own_free + g.free; free = 0 },
  any_free g.chunks || not (g.free == 0),
)

-- `ChunkBitmask::find_zero`, with the index of the first chunk left.
pub find_zero : ℕ → List Chunk → Option ℕ
find_zero i [] = none
find_zero i (c ∷ cs) = let rest = find_zero (i + 1) cs in if c.plugged then rest else some i

-- The chunk with the given index changed.
pub modify : ℕ → (Chunk → Chunk) → List Chunk → List Chunk
modify i f [] = []
modify zero f (c ∷ cs) = f c ∷ cs
modify (suc i) f (c ∷ cs) = c ∷ modify i f cs

abbrev pub plug_chunk : ℕ → Chunk → Chunk
plug_chunk slot c = record c { slot = slot; plugged = true; own_free = chunk_size }

-- What the inner loop of `allocate_frame` ends with: a frame, by slot and index, or a group without
-- space, which the caller then drops. The supervisor's slots are what its allocator will hand out.
pub data Allocated : Type 0 where
  frame : Group → List ℕ → ℕ → ℕ → Allocated
  exhausted : Group → List ℕ → Allocated

-- The first part of a round.
pub try_take : Group → Outcome (Option (Group × ℕ × ℕ))
try_take g = if g.own_free == 0 then returns none else elim (take_frame g.chunks) [
  | panics ↦ panics
  | returns none ↦ returns none
  | returns (some (cs, slot, i)) ↦
      returns (some (record g { chunks = cs; own_free = g.own_free - 1 }, slot, i))
]

-- How hot-plugging ends: with a group and the supervisor's slots to go on with, with a group that has
-- memory in all its chunks, or with the panic of `unwrap` when the supervisor has no slot.
pub data Plugged : Type 0 where
  again : Group → List ℕ → Plugged
  full : Plugged
  no_slot : Plugged

abbrev pub plug_at : Group → ℕ → List ℕ → Plugged
plug_at g chunk [] = no_slot
plug_at g chunk (slot ∷ slots) =
    again
      (record g {
        chunks = modify chunk (plug_chunk slot) g.chunks;
        own_free = g.own_free + chunk_size;
      })
      slots

pub plug : Group → List ℕ → Plugged
plug g slots = elim (find_zero 0 g.chunks) [ none ↦ full | some chunk ↦ plug_at g chunk slots ]

-- The inner loop of `allocate_frame`, on fuel; `none` if the fuel runs out.
pub allocate : ℕ → Group → List ℕ → Outcome (Option Allocated)
allocate zero g slots = returns none
allocate (suc fuel) g slots = elim (try_take g) [
  | panics ↦ panics
  | returns (some (g', slot, i)) ↦ returns (some (frame g' slots slot i))
  | returns none ↦
      let (g', claimed) = refresh g in
      elim claimed [
        | true ↦ allocate fuel g' slots
        | false ↦ elim (plug g' slots) [
          | no_slot ↦ panics
          | full ↦ returns (some (exhausted g' slots))
          | again g'' slots' ↦ allocate fuel g'' slots'
        ]
      ]
]

abbrev pub clear_own : ℕ → Chunk → Chunk
clear_own i c = record c { words = clear_bit c.words i; own_free = c.own_free + 1 }

abbrev pub clear_shared : ℕ → Chunk → Chunk
clear_shared i c = record c { words = clear_bit c.words i; free = c.free + 1 }

-- `deallocate_frame` up to the release of an unused chunk, by the group's owner and by another thread.
pub deallocate : Bool → ℕ → ℕ → Group → Group
deallocate true chunk i g = record g {
  chunks = modify chunk (clear_own i) g.chunks;
  own_free = g.own_free + 1;
}
deallocate false chunk i g = record g {
  chunks = modify chunk (clear_shared i) g.chunks;
  free = g.free + 1;
}

-- `ChunkBitmask::count_zeros`, and the frames that a group has to offer.
pub count_zeros : List Chunk → ℕ
count_zeros [] = 0
count_zeros (c ∷ cs) = count_zeros cs + (if c.plugged then 0 else 1)

pub available : Group → ℕ
available g = g.free + count_zeros g.chunks * chunk_size

-- The predicates that `L2SuperGroup::claim` chooses by.
abbrev pub is_free : ℕ → Bool
is_free n = ltb 3584 n

abbrev pub is_allocated : ℕ → Bool
is_allocated n = ltb n 512

abbrev pub is_partial : ℕ → Bool
is_partial n = not (is_free n) && not (is_allocated n)

abbrev pub is_not_completely_used : ℕ → Bool
is_not_completely_used n = not (n == 0)

-- `L2GroupMetadata::claim` and `PrivateState::new`
pub claim : (ℕ → Bool) → Group → Option Group
claim check g =
    if g.owned || not (check (available g))
    then none
    else some (record g {
      chunks = map refresh_chunk g.chunks;
      own_free = g.free;
      free = 0;
      owned = true;
    })

-- `L2SuperGroup::claim` over the groups in order, numbered from `i`, by one predicate.
abbrev pub first_of : ℕ → Option Group → Option (ℕ × Group) → Option (ℕ × Group)
first_of i none rest = rest
first_of i (some g') rest = some (i, g')

pub claim_first : (ℕ → Bool) → ℕ → List Group → Option (ℕ × Group)
claim_first check i [] = none
claim_first check i (g ∷ gs) = first_of i (claim check g) (claim_first check (i + 1) gs)

-- `L2SuperGroup::claim`: partial groups first, then free ones, then any; `none` where its last loop
-- has to go round again.
abbrev pub chosen :
    Option (ℕ × Group) → Option (ℕ × Group) → Option (ℕ × Group) → Option (ℕ × Group)
chosen (some r) b c = some r
chosen none (some r) c = some r
chosen none none c = c

pub claim_any : List Group → Option (ℕ × Group)
claim_any gs =
    chosen (claim_first is_partial 0 gs) (claim_first is_free 0 gs)
      (claim_first is_not_completely_used 0 gs)

-- The loop of `PrivateState::drop` over the chunks, with the owner's `free`: the chunks, that count, and
-- the slots given back to the supervisor. The subtraction of the code has a test above it that says
-- that it underflows.
pub unplug : ℕ → List Chunk → List Chunk × ℕ × List ℕ
unplug free [] = ([], free, [])
unplug free (c ∷ cs) =
    let go = ltb free chunk_size && (c.own_free == chunk_size) in
    let free' = if go then free - chunk_size else free in
    let rest = unplug free' cs in
    if go
    then (record c { own_free = 0; plugged = false } ∷ rest.0, rest.1, c.slot ∷ rest.2)
    else (c ∷ rest.0, rest.1, rest.2)

abbrev pub write_back : Chunk → Chunk
write_back c = record c { free = c.free + c.own_free; own_free = 0 }

-- `PrivateState::drop`: the group, and the slots given back.
pub release : Group → Group × List ℕ
release g =
    let g' = (refresh g).0 in
    let rest = unplug g'.own_free g'.chunks in
    (
      record g' {
        chunks = map write_back (rest.0);
        free = g'.free + rest.1;
        own_free = 0;
        owned = false;
      },
      rest.2,
    )

-- The end of `deallocate_frame`: where another thread frees the last frame of a chunk in use, it claims
-- the group, if nobody has, and drops it.
abbrev pub is_unused : ℕ → List Chunk → Bool
is_unused chunk cs = elim (get_elem? cs chunk) [ none ↦ false | some c ↦ c.free == chunk_size ]

pub try_release : Group → Group × List ℕ
try_release g = elim (claim (λ n. true) g) [ none ↦ (g, []) | some g' ↦ release g' ]

-- `deallocate_frame`: the group, and the slots given back.
pub deallocate_frame : Bool → ℕ → ℕ → Group → Group × List ℕ
deallocate_frame own chunk i g =
    let g' = deallocate own chunk i g in
    if not own && is_unused chunk g'.chunks then try_release g' else (g', [])
