-- ===== src/Kernel/Frames/Plug.antt =====
-- Hot-plugging in `allocate_frame` of tee/kernel/src/memory/frame.rs.
use mushroom.Prelude.{
  ℕ, suc, ◌+◌, ◌*◌, ◌≡◌, refl, ap, sym, ◌∙◌, false, List, [], ◌∷◌, none, some, length, get_elem?,
  ◌==◌, inl, inr, Bool-cases, ==_iff, Option-cases, arith,
}
use mushroom.Kernel.Frames.{
  Chunk, Group, chunk_size, modify, plug_chunk, find_zero, Plugged, again, full, no_slot, plug,
  plug_at,
}
use mushroom.Kernel.Frames.Counts.{
  IsChunk, AllChunks, sum_own, sum_free, sum_used, IsValid, SameBits, chunk_at, modify-AllChunks,
  Modified, modify-Modified,
}

-- The chunk found has no memory, so that its counts are all zero.
find_zero-some :
    (n : ℕ) (cs : List Chunk) (r : ℕ)
    → find_zero n cs ≡ some r
    → (k : ℕ) × (c : Chunk) × (r ≡ n + k) × (get_elem? cs k ≡ some c) × (c.plugged ≡ false)
unfolding find_zero
find_zero-some n [] r h = cc
find_zero-some n (c ∷ cs) r h = elim (Bool-cases c.plugged) [
  | inl p ↦
      let (k, d, e, at, q) = find_zero-some (n + 1) cs r (sym (rw p refl) ∙ h) in
      (suc k, d, omega (arith, e), at, q)
  | inr p ↦ (0, c, ground (arith, p, h), refl, p)
]

-- Without such a chunk all the chunks have memory.
find_zero-none :
    (n : ℕ) (cs : List Chunk)
    → find_zero n cs ≡ none
    → AllChunks cs
    → sum_own cs + sum_free cs + sum_used cs ≡ chunk_size * length cs
unfolding find_zero
find_zero-none n [] h a = omega arith
find_zero-none n (c ∷ cs) h a = elim (Bool-cases c.plugged) [
  | inl p ↦ ground (arith, p, a.0.2, find_zero-none (n + 1) cs (sym (rw p refl) ∙ h) a.1)
  | inr p ↦ ground (arith, p, h)
]

plug_chunk-IsChunk :
    (slot : ℕ) (c : Chunk) → c.plugged ≡ false → IsChunk c → IsChunk (plug_chunk slot c)
plug_chunk-IsChunk slot c p a = (a.0, a.1, ground (arith, p, a.2))

-- What hot-plugging promises: the counts go on to agree with the bits, which stay.
abbrev pub Plugs : Group → List ℕ → Plugged → Type 0
Plugs g slots (again g' slots') =
    IsValid g'
    × SameBits g'.chunks g.chunks
    × (g'.own_free ≡ g.own_free + chunk_size)
    × ((s : ℕ) × (slots ≡ s ∷ slots'))
Plugs g slots full =
    sum_own g.chunks + sum_free g.chunks + sum_used g.chunks ≡ chunk_size * length g.chunks
Plugs g slots no_slot = slots ≡ []

plug_at-Plugs :
    (g : Group) (slots : List ℕ) (k : ℕ) (c : Chunk)
    → IsValid g
    → get_elem? g.chunks k ≡ some c
    → c.plugged ≡ false
    → Plugs g slots (plug_at g k slots)
plug_at-Plugs g [] k c v at p = refl
plug_at-Plugs g (slot ∷ slots) k c v at p =
    let m = modify-Modified (plug_chunk slot) g.chunks k c at in
    (
      (
        modify-AllChunks (plug_chunk slot) g.chunks k c at v.0 (plug_chunk-IsChunk slot c p),
        ground (arith, v.1, m.own, (chunk_at g.chunks k c v.0 at).2, p),
        omega (arith, v.2, m.shared),
      ),
      bits m,
      refl,
      (slot, refl),
    )
  where
    bits :
        Modified (plug_chunk slot) g.chunks k c
        → SameBits (modify k (plug_chunk slot) g.chunks) g.chunks
    bits m j i = elim (Bool-cases (j == k)) [
      | inl q ↦ m.bits j i ∙ (rw (q, (==_iff j k).0 q) (sym (m.was i)))
      | inr q ↦ m.bits j i ∙ (rw q refl)
    ]

pub plug-Plugs : (g : Group) (slots : List ℕ) → IsValid g → Plugs g slots (plug g slots)
unfolding plug
plug-Plugs g slots v = elim (Option-cases (find_zero 0 g.chunks)) [
  | inl n ↦ rw (Plugs, n) (find_zero-none 0 g.chunks n v.0)
  | inr (r, e) ↦
      let (k, c, er, at, p) = find_zero-some 0 g.chunks r e in
      let er' : r ≡ k = omega (arith, er) in
      rw (Plugs, e ∙ ap some er') (plug_at-Plugs g slots k c v at p)
]
