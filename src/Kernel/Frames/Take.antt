-- ===== src/Kernel/Frames/Take.antt =====
-- The search of `allocate_frame` through the chunks, in tee/kernel/src/memory/frame.rs.
use mushroom.Prelude.{
  ℕ, zero, suc, ◌+◌, ◌-◌, ◌<◌, ◌≡◌, refl, ◌∙◌, Bool, true, false, ◌&&◌, List, [], ◌∷◌, Option, none,
  some, get_elem?, ◌==◌, if◌then◌else◌, inl, inr, Bool-cases, arith,
}
use mushroom.Prelude.Outcome.{Outcome, returns, panics}
use mushroom.Kernel.Frames.{Chunk, chunk_size, keep_first, take_frame}
use mushroom.Kernel.Frames.Bits.{
  Found, find_free-Found, used-write_bit, AllWords-write_bit, length-write_bit, bit_at-write_bit,
}
use mushroom.Kernel.Frames.Counts.{IsChunk, AllChunks, sum_own, sum_free, used_at}

-- The chunks with one frame more in use, which was free and lies in the memory of the slot.
pub record Took (cs cs' : List Chunk) (slot i : ℕ) : Type 0 where
  pub chunk : ℕ
  pub holder : Chunk
  pub at : get_elem? cs' chunk ≡ some holder
  pub has_memory : holder.plugged ≡ true
  pub in_slot : holder.slot ≡ slot
  pub in_range : i < chunk_size
  pub was_free : used_at cs chunk i ≡ false
  pub now :
      (k j : ℕ) → used_at cs' k j ≡ (if (k == chunk) && (j == i) then true else used_at cs k j)
  pub chunks : AllChunks cs'
  pub own : sum_own cs' + 1 ≡ sum_own cs
  pub shared : sum_free cs' ≡ sum_free cs

Took-later :
    (c : Chunk) (cs cs' : List Chunk) (slot i : ℕ)
    → IsChunk c
    → Took cs cs' slot i
    → Took (c ∷ cs) (c ∷ cs') slot i
Took-later c cs cs' slot i a t = record {
  chunk = suc t.chunk;
  holder = t.holder;
  at = t.at;
  has_memory = t.has_memory;
  in_slot = t.in_slot;
  in_range = t.in_range;
  was_free = t.was_free;
  now = now;
  chunks = (a, t.chunks);
  own = omega (arith, t.own);
  shared = omega (arith, t.shared);
}
  where
    now :
        (k j : ℕ)
        → used_at (c ∷ cs') k j
          ≡ (if (k == suc t.chunk) && (j == i) then true else used_at (c ∷ cs) k j)
    now zero j = ground arith
    now (suc k) j = ground (arith, t.now k j)

Took-here :
    (c : Chunk) (cs : List Chunk) (r : List (List Bool) × ℕ)
    → IsChunk c
    → AllChunks cs
    → 0 < c.own_free
    → Found 0 c.words r
    → Took (c ∷ cs) (record c { words = r.0; own_free = c.own_free - 1 } ∷ cs) c.slot r.1
Took-here c cs r a b h f = record {
  chunk = 0;
  holder = record c { words = r.0; own_free = c.own_free - 1 };
  at = refl;
  has_memory = ground (arith, a.2, h);
  in_slot = refl;
  in_range = omega (arith, f.number, f.in_range, a.1);
  was_free = rw same f.was_free;
  now = now;
  chunks = (counted, b);
  own = omega arith;
  shared = refl;
}
  where
    same : r.1 ≡ f.index
    same = omega (arith, f.number)

    counted : IsChunk (record c { words = r.0; own_free = c.own_free - 1 })
    counted = (
      rw f.words (AllWords-write_bit c.words f.index true a.0 f.in_range),
      rw f.words (length-write_bit c.words f.index true ∙ a.1),
      rw f.words
          (ground (arith, h, f.was_free, a.2, used-write_bit c.words f.index true a.0 f.in_range)),
    )

    now :
        (k j : ℕ)
        → used_at (record c { words = r.0; own_free = c.own_free - 1 } ∷ cs) k j
          ≡ (if (k == 0) && (j == r.1) then true else used_at (c ∷ cs) k j)
    now zero j =
        rw f.words (ground (arith, same, bit_at-write_bit c.words f.index j true a.0 f.in_range))
    now (suc k) j = ground arith

abbrev pub Takes : List Chunk → Outcome (Option (List Chunk × ℕ × ℕ)) → Type 0
Takes cs panics = ⊥
Takes cs (returns none) = sum_own cs ≡ 0
Takes cs (returns (some (cs', slot, i))) = Took cs cs' slot i

keep_first-Takes :
    (c : Chunk) (cs : List Chunk) (r : Outcome (Option (List Chunk × ℕ × ℕ)))
    → IsChunk c
    → c.own_free ≡ 0
    → Takes cs r
    → Takes (c ∷ cs) (keep_first c r)
keep_first-Takes c cs panics a z t = t
keep_first-Takes c cs (returns none) a z t = omega arith
keep_first-Takes c cs (returns (some (cs', slot, i))) a z t = Took-later c cs cs' slot i a t

-- The chunks of a valid group give a frame unless no chunk has one, and never meet a chunk whose count
-- promises a bit that is not there.
pub take_frame-Takes : (cs : List Chunk) → AllChunks cs → Takes cs (take_frame cs)
unfolding take_frame
take_frame-Takes [] a = refl
take_frame-Takes (c ∷ cs) a = elim (Bool-cases (c.own_free == 0)) [
  | inl p ↦
      rw p (keep_first-Takes c cs (take_frame cs) a.0 (ground (arith, p)) (take_frame-Takes cs a.1))
  | inr p ↦
      let (r, e, f) = find_free-Found 0 c.words a.0.0 (ground (arith, p, a.0.1, a.0.2)) in
      rw (p, e) (Took-here c cs r a.0 a.1 (ground (arith, p)) f)
]
