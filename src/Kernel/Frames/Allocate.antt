-- ===== src/Kernel/Frames/Allocate.antt =====
-- The inner loop of `allocate_frame` of tee/kernel/src/memory/frame.rs, on the frames in use.
use mushroom.Prelude.{
  ℕ, suc, ◌-◌, ◌*◌, ◌<◌, ◌≡◌, refl, sym, ◌∙◌, true, false, ◌&&◌, List, [], ◌∷◌, Option, none, some,
  length, get_elem?, ◌==◌, if◌then◌else◌, inl, inr, Bool-cases, arith, ◌⊎◌,
}
use mushroom.Prelude.Outcome.{Outcome, returns, panics}
use mushroom.Kernel.Frames.{
  Chunk, Group, chunk_size, refresh, take_frame, try_take, Plugged, again, full, no_slot, plug,
  Allocated, frame, exhausted, allocate,
}
use mushroom.Kernel.Frames.Counts.{sum_used, IsValid, used_at, SameBits, refresh-IsValid}
use mushroom.Kernel.Frames.Take.{Takes, take_frame-Takes}
use mushroom.Kernel.Frames.Plug.{Plugs, plug-Plugs}

-- The group with one frame more in use: it lies in memory that the group has, and no other changed.
pub record Gives (g g' : Group) (slot i : ℕ) : Type 0 where
  pub chunk : ℕ
  pub holder : Chunk
  pub at : get_elem? g'.chunks chunk ≡ some holder
  pub has_memory : holder.plugged ≡ true
  pub in_slot : holder.slot ≡ slot
  pub in_range : i < chunk_size
  pub was_free : used_at g.chunks chunk i ≡ false
  pub now :
      (k j : ℕ)
      → used_at g'.chunks k j ≡ (if (k == chunk) && (j == i) then true else used_at g.chunks k j)
  pub valid : IsValid g'

Gives-SameBits :
    (g h g' : Group) (slot i : ℕ)
    → SameBits h.chunks g.chunks
    → Gives h g' slot i
    → Gives g g' slot i
Gives-SameBits g h g' slot i s t = record {
  chunk = t.chunk;
  holder = t.holder;
  at = t.at;
  has_memory = t.has_memory;
  in_slot = t.in_slot;
  in_range = t.in_range;
  was_free = sym (s t.chunk i) ∙ t.was_free;
  now = λ k j. t.now k j ∙ (rw (s k j) refl);
  valid = t.valid;
}

abbrev Tries : Group → Outcome (Option (Group × ℕ × ℕ)) → Type 0
Tries g panics = ⊥
Tries g (returns none) = g.own_free ≡ 0
Tries g (returns (some (g', slot, i))) = Gives g g' slot i

abbrev Tried : Group → Outcome (Option (List Chunk × ℕ × ℕ)) → Outcome (Option (Group × ℕ × ℕ))
Tried g panics = panics
Tried g (returns none) = returns none
Tried g (returns (some (cs, slot, i))) =
    returns (some (record g { chunks = cs; own_free = g.own_free - 1 }, slot, i))

Tried-Tries :
    (g : Group) (r : Outcome (Option (List Chunk × ℕ × ℕ)))
    → IsValid g
    → Takes g.chunks r
    → Tries g (Tried g r)
Tried-Tries g panics v t = t
Tried-Tries g (returns none) v t = v.1 ∙ t
Tried-Tries g (returns (some (cs, slot, i))) v t = record {
  chunk = t.chunk;
  holder = t.holder;
  at = t.at;
  has_memory = t.has_memory;
  in_slot = t.in_slot;
  in_range = t.in_range;
  was_free = t.was_free;
  now = t.now;
  valid = (t.chunks, omega (arith, v.1, t.own), omega (arith, v.2, t.shared));
}

try_take-Tries : (g : Group) → IsValid g → Tries g (try_take g)
unfolding try_take
try_take-Tries g v = elim (Bool-cases (g.own_free == 0)) [
  | inl p ↦ rw (Tries, p) (ground (arith, p))
  | inr p ↦ rw (Tries, p) (Tried-Tries g (take_frame g.chunks) v (take_frame-Takes g.chunks v.0))
]

abbrev Result : Type 0
Result = Outcome (Option Allocated)

-- With a free frame in the owner's counts one round is enough.
allocate_now :
    (fuel : ℕ) (g : Group) (slots : List ℕ)
    → IsValid g
    → 0 < g.own_free
    → (g' : Group) × (slot : ℕ) × (i : ℕ) × (allocate (suc fuel) g slots
        ≡ returns (some (frame g' slots slot i)))
      × Gives g g' slot i
unfolding allocate
allocate_now fuel g slots v h = go (try_take g) refl (try_take-Tries g v)
  where
    go :
        (r : Outcome (Option (Group × ℕ × ℕ)))
        → try_take g ≡ r
        → Tries g r
        → (g' : Group) × (slot : ℕ) × (i : ℕ) × (allocate (suc fuel) g slots
            ≡ returns (some (frame g' slots slot i)))
          × Gives g g' slot i
    go panics e t = absurd t
    go (returns none) e t = absurd (omega arith)
    go (returns (some (g', slot, i))) e t = (g', slot, i, rw (allocate, e) refl, t)

-- What `allocate_frame` promises of the supervisor's slots: one is used up only where the group has no
-- free frame left.
abbrev pub Supplied : Group → List ℕ → List ℕ → Type 0
Supplied g slots slots' =
    (slots' ≡ slots) ⊎ ((g.own_free ≡ 0) × (g.free ≡ 0) × ((s : ℕ) × (slots ≡ s ∷ slots')))

-- And of the round of the loop that ends it.
abbrev pub Allocates : Group → List ℕ → Outcome (Option Allocated) → Type 0
Allocates g slots panics = (slots ≡ []) × (g.own_free ≡ 0) × (g.free ≡ 0)
Allocates g slots (returns none) = ⊥
Allocates g slots (returns (some (frame g' slots' slot i))) =
    Gives g g' slot i × Supplied g slots slots'
Allocates g slots (returns (some (exhausted g' slots'))) =
    IsValid g'
    × SameBits g'.chunks g.chunks
    × (slots' ≡ slots)
    × (sum_used g'.chunks ≡ chunk_size * length g'.chunks)

allocate_next :
    (fuel : ℕ) (g h : Group) (slots slots' : List ℕ)
    → IsValid h
    → 0 < h.own_free
    → SameBits h.chunks g.chunks
    → Supplied g slots slots'
    → Allocates g slots (allocate (suc fuel) h slots')
allocate_next fuel g h slots slots' v p s u =
    let (g', slot, i, e, t) = allocate_now fuel h slots' v p in
    rw (Allocates, e) (Gives-SameBits g h g' slot i s t, u)

abbrev plugged_round : ℕ → Group → List ℕ → Plugged → Result
plugged_round fuel g slots no_slot = panics
plugged_round fuel g slots full = returns (some (exhausted g slots))
plugged_round fuel g slots (again g' slots') = allocate fuel g' slots'

plugged_round-Allocates :
    (fuel : ℕ) (g h : Group) (slots : List ℕ) (p : Plugged)
    → IsValid h
    → SameBits h.chunks g.chunks
    → g.own_free ≡ 0
    → g.free ≡ 0
    → h.own_free ≡ 0
    → h.free ≡ 0
    → Plugs h slots p
    → Allocates g slots (plugged_round (suc fuel) h slots p)
plugged_round-Allocates fuel g h slots no_slot v s a b c d t = (t, a, b)
plugged_round-Allocates fuel g h slots full v s a b c d t =
    (v, s, refl, omega (arith, t, v.1, v.2, c, d))
plugged_round-Allocates fuel g h slots (again g' slots') v s a b c d t =
    allocate_next fuel g g' slots slots' t.0 (omega (arith, t.2)) (λ k i. t.1 k i ∙ s k i)
      (inr (a, b, t.3))

pub refresh_free : (g : Group) → (refresh g).0.free ≡ 0
unfolding refresh
refresh_free g = refl

module _ (fuel : ℕ) (g : Group) (slots : List ℕ) (v : IsValid g) where
  -- The rounds after a search that found nothing.
  refreshed :
      g.own_free ≡ 0
      → try_take g ≡ returns none
      → Allocates g slots (allocate (suc (suc fuel)) g slots)
  unfolding allocate
  refreshed z e =
      let (w, s, o, up, down) = refresh-IsValid g v in
      elim (Bool-cases ((refresh g).1)) [
        | inl p ↦
            rw (allocate, e, p)
              (allocate_next fuel g ((refresh g).0) slots slots w (omega (arith, o, up p)) s
                (inl refl))
        | inr p ↦
            rw (allocate, e, p)
              (plugged_round-Allocates fuel g ((refresh g).0) slots (plug ((refresh g).0) slots) w s
                z (down p) (omega (arith, o, z, down p)) (refresh_free g)
                (plug-Plugs ((refresh g).0) slots w))
      ]

  -- On a valid group, with two rounds of fuel or more, `allocate` never runs out. It gives a frame that was free, in memory
  -- that the group has, and changes no other; or it says that the group is full and then every frame of
  -- it is in use; it panics only where the supervisor has no slot and the group no free frame.
  pub allocate-Allocates : Allocates g slots (allocate (suc (suc fuel)) g slots)
  unfolding allocate
  allocate-Allocates = go (try_take g) refl (try_take-Tries g v)
    where
      go :
          (r : Outcome (Option (Group × ℕ × ℕ)))
          → try_take g ≡ r
          → Tries g r
          → Allocates g slots (allocate (suc (suc fuel)) g slots)
      go panics e t = absurd t
      go (returns none) e t = refreshed t e
      go (returns (some (g', slot, i))) e t = rw (Allocates, allocate, e) (t, inl refl)
