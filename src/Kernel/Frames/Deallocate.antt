-- ===== src/Kernel/Frames/Deallocate.antt =====
-- `deallocate_frame` of tee/kernel/src/memory/frame.rs, by the owner of the group and by another thread.
use mushroom.Prelude.{
  ℕ, ◌<◌, ◌≡◌, refl, ◌∙◌, Bool, true, false, not, ◌&&◌, List, [], some, get_elem?, ◌==◌,
  if◌then◌else◌, inl, inr, Bool-cases, ==_iff, arith,
}
use mushroom.Kernel.Frames.{
  Chunk, Group, chunk_size, modify, clear_bit, clear_own, clear_shared, deallocate, is_unused,
  deallocate_frame,
}
use mushroom.Kernel.Frames.Bits.{
  bit_at, used-write_bit, AllWords-write_bit, length-write_bit, bit_at-write_bit,
}
use mushroom.Kernel.Frames.Counts.{
  IsChunk, IsValid, used_at, chunk_at, modify-AllChunks, Modified, modify-Modified,
}
use mushroom.Kernel.Frames.Release.{IsGroup, try_release-IsGroup}

-- The frame is no longer in use, and no other frame changed.
abbrev pub Freed : List Chunk → ℕ → ℕ → List Chunk → Type 0
Freed cs chunk i cs' =
    (k j : ℕ) → used_at cs' k j ≡ (if (k == chunk) && (j == i) then false else used_at cs k j)

module _ (c : Chunk) (i : ℕ) (a : IsChunk c) (h : i < chunk_size)
    (u : bit_at c.words i ≡ true) where
  clear_own-IsChunk : IsChunk (clear_own i c)
  unfolding clear_bit
  clear_own-IsChunk = (
    AllWords-write_bit c.words i false a.0 (omega (arith, a.1)),
    length-write_bit c.words i false ∙ a.1,
    ground (arith, u, a.2, used-write_bit c.words i false a.0 (omega (arith, a.1))),
  )

  clear_shared-IsChunk : IsChunk (clear_shared i c)
  unfolding clear_bit
  clear_shared-IsChunk = (
    AllWords-write_bit c.words i false a.0 (omega (arith, a.1)),
    length-write_bit c.words i false ∙ a.1,
    ground (arith, u, a.2, used-write_bit c.words i false a.0 (omega (arith, a.1))),
  )

module _ (f : Chunk → Chunk) (cs : List Chunk) (k i : ℕ) (c : Chunk) (a : IsChunk c)
    (h : i < chunk_size) (same : (f c).words ≡ clear_bit c.words i) where
  modify-Freed : Modified f cs k c → Freed cs k i (modify k f cs)
  unfolding clear_bit
  modify-Freed m l j = elim (Bool-cases (l == k)) [
    | inl q ↦
        m.bits l j
        ∙ (rw (q, same, (==_iff l k).0 q, m.was j)
            (bit_at-write_bit c.words i j false a.0 (omega (arith, a.1)) ∙ ground arith))
    | inr q ↦ m.bits l j ∙ (rw q refl)
  ]

module _ (chunk i : ℕ) (g : Group) (c : Chunk) (v : IsGroup g)
    (at : get_elem? g.chunks chunk ≡ some c) (h : i < chunk_size)
    (u : bit_at c.words i ≡ true) where
  deallocate-IsGroup :
      (own : Bool)
      → (own ≡ true → g.owned ≡ true)
      → IsGroup (deallocate own chunk i g)
        × Freed g.chunks chunk i ((deallocate own chunk i g).chunks)
  unfolding deallocate
  deallocate-IsGroup true o =
      let m = modify-Modified (clear_own i) g.chunks chunk c at in
      let a = chunk_at g.chunks chunk c v.0.0 at in
      (
        (
          (
            modify-AllChunks (clear_own i) g.chunks chunk c at v.0.0
                (λ b. clear_own-IsChunk c i b h u),
            omega (arith, v.0.1, m.own),
            omega (arith, v.0.2, m.shared),
          ),
          λ q. cc (o refl, q),
        ),
        modify-Freed (clear_own i) g.chunks chunk i c a h refl m,
      )
  deallocate-IsGroup false o =
      let m = modify-Modified (clear_shared i) g.chunks chunk c at in
      let a = chunk_at g.chunks chunk c v.0.0 at in
      (
        (
          (
            modify-AllChunks (clear_shared i) g.chunks chunk c at v.0.0
                (λ b. clear_shared-IsChunk c i b h u),
            omega (arith, v.0.1, m.own),
            omega (arith, v.0.2, m.shared),
          ),
          v.1,
        ),
        modify-Freed (clear_shared i) g.chunks chunk i c a h refl m,
      )

  -- A frame in use of a chunk of a valid group that is given back, by the owner, where the group has one, or
  -- by another thread, is free then and no other frame changes; the counts go on to agree with the bits, and the supervisor gets no slot,
  -- also where it was the last frame of its chunk in use.
  pub deallocate_frame-Freed :
      (own : Bool)
      → (own ≡ true → g.owned ≡ true)
      → IsGroup ((deallocate_frame own chunk i g).0)
        × Freed g.chunks chunk i ((deallocate_frame own chunk i g).0.chunks)
        × ((deallocate_frame own chunk i g).1 ≡ [])
  unfolding deallocate_frame
  deallocate_frame-Freed own o =
      let g' = deallocate own chunk i g in
      let (w, b) = deallocate-IsGroup own o in
      elim (Bool-cases (not own && is_unused chunk g'.chunks)) [
        | inl p ↦
            let (s, x, y, z) = try_release-IsGroup g' w in
            rw (IsGroup, IsValid, Freed, p) (x, λ l j. y l j ∙ b l j, s)
        | inr p ↦ rw (IsGroup, IsValid, Freed, p) (w, b, refl)
      ]
