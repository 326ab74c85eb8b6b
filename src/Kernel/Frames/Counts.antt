-- ===== src/Kernel/Frames/Counts.antt =====
-- The counts of tee/kernel/src/memory/frame.rs: what level 1 and level 2 say of the bits of level 0.
use mushroom.Prelude.{
  ℕ, zero, suc, ◌+◌, ◌*◌, ◌≤◌, ◌<◌, ◌≡◌, refl, Bool, true, false, List, [], ◌∷◌, some, map, length,
  get_elem?, ◌==◌, if◌then◌else◌, arith,
}
use mathlib.Core.Path.{subst}
use mushroom.Kernel.Frames.{Chunk, Group, chunk_size, modify, refresh_chunk, refresh, any_free}
use mushroom.Kernel.Frames.Bits.{AllWords, used, bit_at}

-- The free frames that the counts of a chunk speak of are its clear bits, if it has memory; otherwise
-- nothing of it is free or in use.
abbrev pub IsChunk : Chunk → Type 0
IsChunk c =
    AllWords c.words
    × (length c.words ≡ 8)
    × (c.own_free + c.free + used c.words ≡ (if c.plugged then chunk_size else 0))

abbrev pub AllChunks : List Chunk → Type 0
AllChunks [] = Unit
AllChunks (c ∷ cs) = IsChunk c × AllChunks cs

abbrev pub sum_own : List Chunk → ℕ
sum_own [] = 0
sum_own (c ∷ cs) = c.own_free + sum_own cs

abbrev pub sum_free : List Chunk → ℕ
sum_free [] = 0
sum_free (c ∷ cs) = c.free + sum_free cs

abbrev pub sum_used : List Chunk → ℕ
sum_used [] = 0
sum_used (c ∷ cs) = used c.words + sum_used cs

-- The counts of the group are the sums of its chunks'.
abbrev pub IsValid : Group → Type 0
IsValid g = AllChunks g.chunks × (g.own_free ≡ sum_own g.chunks) × (g.free ≡ sum_free g.chunks)

-- Whether a frame, by its chunk and its index there, is in use.
abbrev pub used_at : List Chunk → ℕ → ℕ → Bool
used_at [] k i = false
used_at (c ∷ cs) zero i = bit_at c.words i
used_at (c ∷ cs) (suc k) i = used_at cs k i

-- The chunks with the same bits, chunk by chunk.
abbrev pub SameBits : List Chunk → List Chunk → Type 0
SameBits cs ds = (k i : ℕ) → used_at cs k i ≡ used_at ds k i

pub counts-le :
    (cs : List Chunk)
    → AllChunks cs
    → sum_own cs + sum_free cs + sum_used cs ≤ chunk_size * length cs
counts-le [] a = omega arith
counts-le (c ∷ cs) a = ground (arith, counts-le cs a.1)

pub refresh-AllChunks : (cs : List Chunk) → AllChunks cs → AllChunks (map refresh_chunk cs)
refresh-AllChunks [] a = tt
refresh-AllChunks (c ∷ cs) a = ((a.0.0, a.0.1, omega (arith, a.0.2)), refresh-AllChunks cs a.1)

pub sum_own-refresh : (cs : List Chunk) → sum_own (map refresh_chunk cs) ≡ sum_own cs + sum_free cs
sum_own-refresh [] = omega arith
sum_own-refresh (c ∷ cs) = omega (arith, sum_own-refresh cs)

pub sum_free-refresh : (cs : List Chunk) → sum_free (map refresh_chunk cs) ≡ 0
sum_free-refresh [] = refl
sum_free-refresh (c ∷ cs) = omega (arith, sum_free-refresh cs)

pub used_at-refresh : (cs : List Chunk) → SameBits (map refresh_chunk cs) cs
used_at-refresh [] k i = refl
used_at-refresh (c ∷ cs) zero i = refl
used_at-refresh (c ∷ cs) (suc k) i = used_at-refresh cs k i

any_free_sum : (cs : List Chunk) → any_free cs ≡ true → 0 < sum_free cs
unfolding any_free
any_free_sum [] h = ground (arith, h)
any_free_sum (c ∷ cs) h = ground (arith, h, any_free_sum cs)

-- What a refresh promises: the counts are the owner's now, the bits stay, and it says whether there was
-- anything to claim.
pub refresh-IsValid :
    (g : Group)
    → IsValid g
    → IsValid ((refresh g).0)
      × SameBits ((refresh g).0.chunks) g.chunks
      × ((refresh g).0.own_free ≡ g.own_free + g.free)
      × ((refresh g).1 ≡ true → 0 < g.free)
      × ((refresh g).1 ≡ false → g.free ≡ 0)
unfolding refresh
refresh-IsValid g v = (
  (
    refresh-AllChunks g.chunks v.0,
    omega (arith, sum_own-refresh g.chunks, v.1, v.2),
    omega (arith, sum_free-refresh g.chunks),
  ),
  used_at-refresh g.chunks,
  refl,
  λ h. ground (arith, h, any_free_sum g.chunks, v.2),
  λ h. ground (arith, h),
)

pub chunk_at :
    (cs : List Chunk) (k : ℕ) (c : Chunk) → AllChunks cs → get_elem? cs k ≡ some c → IsChunk c
chunk_at [] k c a h = cc
chunk_at (d ∷ cs) zero c a h = let e : d ≡ c = ground (arith, h) in subst IsChunk e a.0
chunk_at (d ∷ cs) (suc k) c a h = chunk_at cs k c a.1 h

module _ (f : Chunk → Chunk) where
  pub modify-AllChunks :
      (cs : List Chunk) (k : ℕ) (c : Chunk)
      → get_elem? cs k ≡ some c
      → AllChunks cs
      → (IsChunk c → IsChunk (f c))
      → AllChunks (modify k f cs)
  unfolding modify
  modify-AllChunks [] k c at a h = tt
  modify-AllChunks (d ∷ cs) zero c at a h =
      let e : d ≡ c = ground (arith, at) in (rw e (h (subst IsChunk e a.0)), a.1)
  modify-AllChunks (d ∷ cs) (suc k) c at a h = (a.0, modify-AllChunks cs k c at a.1 h)

  -- The change of one chunk, seen from the sums and the bits.
  pub record Modified (cs : List Chunk) (k : ℕ) (c : Chunk) : Type 0 where
    pub own : sum_own (modify k f cs) + c.own_free ≡ sum_own cs + (f c).own_free
    pub shared : sum_free (modify k f cs) + c.free ≡ sum_free cs + (f c).free
    pub here : get_elem? (modify k f cs) k ≡ some (f c)
    pub bits :
        (j i : ℕ)
        → used_at (modify k f cs) j i ≡ (if j == k then bit_at (f c).words i else used_at cs j i)
    pub was : (i : ℕ) → used_at cs k i ≡ bit_at c.words i

  pub modify-Modified :
      (cs : List Chunk) (k : ℕ) (c : Chunk) → get_elem? cs k ≡ some c → Modified cs k c
  unfolding modify
  modify-Modified [] k c h = cc
  modify-Modified (d ∷ cs) zero c h =
      let e : d ≡ c = ground (arith, h) in
      record {
        own = rw e (omega arith);
        shared = rw e (omega arith);
        here = rw e refl;
        bits = λ j i. bits_zero j i e;
        was = λ i. rw e refl;
      }
    where
      bits_zero :
          (j i : ℕ)
          → d ≡ c
          → used_at (f d ∷ cs) j i ≡ (if j == 0 then bit_at (f c).words i else used_at (d ∷ cs) j i)
      bits_zero zero i e = rw e refl
      bits_zero (suc j) i e = ground arith
  modify-Modified (d ∷ cs) (suc k) c h =
      let m = modify-Modified cs k c h in
      record {
        own = omega (arith, m.own);
        shared = omega (arith, m.shared);
        here = m.here;
        bits = λ j i. bits_suc j i m;
        was = m.was;
      }
    where
      bits_suc :
          (j i : ℕ)
          → Modified cs k c
          → used_at (d ∷ modify k f cs) j i
            ≡ (if j == suc k then bit_at (f c).words i else used_at (d ∷ cs) j i)
      bits_suc zero i m = ground arith
      bits_suc (suc j) i m = ground (arith, m.bits j i)
