-- ===== src/Kernel/Frames/Release.antt =====
-- Taking and giving back a group: `claim` and the drop of `PrivateState` in
-- tee/kernel/src/memory/frame.rs.
use mushroom.Prelude.{
  ℕ, zero, suc, ◌+◌, ◌≤◌, ◌≡◌, refl, ◌∙◌, Bool, true, false, ◌&&◌, List, [], ◌∷◌, Option, none,
  some, map, ltb, ◌==◌, inl, inr, Bool-cases, arith, ◌⊎◌,
}
use mushroom.Kernel.Frames.{
  Chunk, Group, chunk_size, refresh, claim, available, unplug, write_back, release, try_release,
}
use mushroom.Kernel.Frames.Allocate.{refresh_free}
use mushroom.Kernel.Frames.Counts.{
  AllChunks, sum_own, sum_free, IsValid, SameBits, refresh-IsValid, refresh-AllChunks,
  sum_own-refresh, sum_free-refresh, used_at-refresh,
}

-- A group that nobody owns has no private counts.
abbrev pub IsGroup : Group → Type 0
IsGroup g = IsValid g × (g.owned ≡ false → g.own_free ≡ 0)

-- A group's count covers each of its chunks, so that the loop of the drop never finds one to unplug.
unplug_none : (free : ℕ) (cs : List Chunk) → sum_own cs ≤ free → unplug free cs ≡ (cs, free, [])
unfolding unplug
unplug_none free [] h = refl
unplug_none free (c ∷ cs) h =
    let stays : (ltb free chunk_size && (c.own_free == chunk_size)) ≡ false = ground arith in
    rw (stays, unplug_none free cs (omega (arith, h))) refl

write_back-AllChunks : (cs : List Chunk) → AllChunks cs → AllChunks (map write_back cs)
write_back-AllChunks [] a = tt
write_back-AllChunks (c ∷ cs) a =
    ((a.0.0, a.0.1, omega (arith, a.0.2)), write_back-AllChunks cs a.1)

sum_own-write_back : (cs : List Chunk) → sum_own (map write_back cs) ≡ 0
sum_own-write_back [] = refl
sum_own-write_back (c ∷ cs) = omega (arith, sum_own-write_back cs)

sum_free-write_back : (cs : List Chunk) → sum_free (map write_back cs) ≡ sum_free cs + sum_own cs
sum_free-write_back [] = omega arith
sum_free-write_back (c ∷ cs) = omega (arith, sum_free-write_back cs)

used_at-write_back : (cs : List Chunk) → SameBits (map write_back cs) cs
used_at-write_back [] k i = refl
used_at-write_back (c ∷ cs) zero i = refl
used_at-write_back (c ∷ cs) (suc k) i = used_at-write_back cs k i

-- A valid group that is given back gives the supervisor no slot, however many of its chunks are unused:
-- it is nobody's, offers all its free frames, and the frames in use are the same.
pub release-IsGroup :
    (g : Group)
    → IsValid g
    → ((release g).1 ≡ [])
      × IsGroup ((release g).0)
      × ((release g).0.owned ≡ false)
      × ((release g).0.free ≡ g.own_free + g.free)
      × SameBits ((release g).0.chunks) g.chunks
unfolding release
release-IsGroup g v =
    let (w, s, o, up, down) = refresh-IsValid g v in
    let cs = (refresh g).0.chunks in
    let e = unplug_none ((refresh g).0.own_free) cs (omega (arith, w.1)) in
    rw (IsGroup, IsValid, e)
      (
        refl,
        (
          (
            write_back-AllChunks cs w.0,
            omega (arith, sum_own-write_back cs),
            omega (arith, sum_free-write_back cs, w.1, w.2),
          ),
          λ q. refl,
        ),
        refl,
        omega (arith, o, refresh_free g),
        λ k i. used_at-write_back cs k i ∙ s k i,
      )

-- What a claim promises: it fails for a group that has an owner or that the caller does not want;
-- otherwise the shared counts become the owner's, and the frames in use stay.
abbrev pub Claims : (ℕ → Bool) → Group → Option Group → Type 0
Claims check g none = (g.owned ≡ true) ⊎ (check (available g) ≡ false)
Claims check g (some g') =
    IsGroup g'
    × (g.owned ≡ false)
    × (check (available g) ≡ true)
    × (g'.owned ≡ true)
    × (g'.own_free ≡ g.free)
    × (g'.free ≡ 0)
    × SameBits g'.chunks g.chunks

pub claim-Claims : (check : ℕ → Bool) (g : Group) → IsGroup g → Claims check g (claim check g)
unfolding claim available
claim-Claims check g v = elim (Bool-cases g.owned) [
  | inl p ↦ rw (Claims, p) (inl p)
  | inr p ↦ elim (Bool-cases (check (available g))) [
    | inl q ↦
        rw (Claims, p, q)
          (
            (
              (
                refresh-AllChunks g.chunks v.0.0,
                omega (arith, sum_own-refresh g.chunks, v.0.1, v.0.2, v.1 p),
                omega (arith, sum_free-refresh g.chunks),
              ),
              λ h. cc,
            ),
            p,
            q,
            refl,
            refl,
            refl,
            used_at-refresh g.chunks,
          )
    | inr q ↦ rw (Claims, p, q) (inr q)
  ]
]

-- Claiming a group and dropping it leaves the frames in use and the free count, and gives back no slot.
pub try_release-IsGroup :
    (g : Group)
    → IsGroup g
    → ((try_release g).1 ≡ [])
      × IsGroup ((try_release g).0)
      × SameBits ((try_release g).0.chunks) g.chunks
      × ((try_release g).0.free ≡ g.free)
unfolding try_release
try_release-IsGroup g v = go (claim (λ n. true) g) refl (claim-Claims (λ n. true) g v)
  where
    go :
        (r : Option Group)
        → claim (λ n. true) g ≡ r
        → Claims (λ n. true) g r
        → ((try_release g).1 ≡ [])
          × IsGroup ((try_release g).0)
          × SameBits ((try_release g).0.chunks) g.chunks
          × ((try_release g).0.free ≡ g.free)
    go none e t = rw (IsGroup, IsValid, try_release, e) (refl, v, λ k i. refl, refl)
    go (some g') e (w, p, q, o, f, z, s) =
        let (r, x, n, a, b) = release-IsGroup g' w.0 in
        rw (IsGroup, IsValid, try_release, e) (r, x, λ k i. b k i ∙ s k i, omega (arith, a, f, z))
