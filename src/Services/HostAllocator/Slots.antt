-- ===== src/Services/HostAllocator/Slots.antt =====
-- The allocator of dynamic.rs as a set of slots in use.
use native.Mathlib.Decide.{dec_lt}
use mathlib.Core.Path.{subst}
use mushroom.Prelude.{
  ltb→lt, ltb, ℕ, ◌+◌, ◌-◌, ◌*◌, ◌/◌, ◌%◌, ◌<◌, ◌≤◌, ◌≡◌, refl, Bool, true, false, List, ◌++◌,
  Option, none, some, arith, ◌⊎◌, inl, inr, if◌then◌else◌, ◌==◌, length, length-set, length-take,
  length-drop, take, drop, take-append-drop, get_or, set, set-append_left, get_or-append_left,
  set-take-drop, get_or-drop, get_or-set, Bool-cases, Option-cases,
}
use mushroom.Prelude.BitField.{BitField, get_bit-set_bit}
use mushroom.Prelude.Outcome.{Outcome, returns, panics}
use mushroom.Services.AllocationBuffer.{slot_limit}
use mushroom.Services.HostAllocator.{
  HostAllocator, bitmap_size, scan, found, allocate_slot_idx, deallocate_slot_id,
}
use mushroom.Services.HostAllocator.Scan.{Scanned, scan-some, scan-none}

-- The bitmap with one more slot in use, which was free.
record Taken (f : BitField) (old new : List ℕ) (byte bit : ℕ) : Type 0 where
  in_range : byte < length old
  bit_in : bit < 8
  was_unset : f.get_bit (get_or old byte 0) bit ≡ false
  bytes : new ≡ set old byte (f.set_bit (get_or old byte 0) bit true)

module _ (f : BitField) where
  open f use {get_bit, set_bit}

  -- Whether the slot is in use.
  abbrev pub is_used : HostAllocator → ℕ → Bool
  is_used a slot = get_bit (get_or a.bitmap (slot / 8) 0) (slot % 8)

  pub record IsValid (a : HostAllocator) : Type 0 where
    pub whole : length a.bitmap ≡ bitmap_size
    pub start_in : a.start_offset ≤ bitmap_size

  Taken-second :
      (a : HostAllocator) (r : List ℕ × ℕ × ℕ)
      → IsValid a
      → Scanned f (drop a.start_offset a.bitmap) a.start_offset r
      → Taken f a.bitmap (take a.start_offset a.bitmap ++ r.0) r.1 r.2
  Taken-second a r v s = record {
    in_range =
        omega
          (arith, s.index, s.in_range, v.whole, v.start_in, length-drop a.start_offset a.bitmap);
    bit_in = s.bit_in;
    was_unset = ground (arith, s, get_or-drop a.start_offset a.bitmap s.offset 0);
    bytes = ground (
      arith,
      s,
      v,
      get_or-drop a.start_offset a.bitmap s.offset 0,
      set-take-drop a.start_offset a.bitmap s.offset
          (set_bit (get_or (drop a.start_offset a.bitmap) s.offset 0) r.2 true),
    );
  }

  Taken-first :
      (a : HostAllocator) (r : List ℕ × ℕ × ℕ)
      → IsValid a
      → Scanned f (take a.start_offset a.bitmap) 0 r
      → Taken f a.bitmap (r.0 ++ drop a.start_offset a.bitmap) r.1 r.2
  Taken-first a r v s = record {
    in_range = omega (arith, s.index, s.in_range, length-take a.start_offset a.bitmap);
    bit_in = s.bit_in;
    was_unset = ground (arith, s, whole, read);
    bytes = ground (
      arith,
      s,
      whole,
      read,
      set-append_left xs ys s.offset (set_bit (get_or xs s.offset 0) r.2 true),
    );
  }
    where
      xs : List ℕ
      xs = take a.start_offset a.bitmap

      ys : List ℕ
      ys = drop a.start_offset a.bitmap

      whole : xs ++ ys ≡ a.bitmap
      whole = take-append-drop a.start_offset a.bitmap

      read : get_or (xs ++ ys) s.offset 0 ≡ get_or xs s.offset 0
      read = get_or-append_left xs ys s.offset 0 s.in_range

  -- Slots read after one of them is taken.
  taken_lem :
      (a : HostAllocator) (new : List ℕ) (byte bit start : ℕ)
      → Taken f a.bitmap new byte bit
      → (is_used a (byte * 8 + bit) ≡ false)
        × ((slot : ℕ)
            → is_used (record { bitmap = new; start_offset = start }) slot
              ≡ (if byte * 8 + bit == slot then true else is_used a slot))
  taken_lem a new byte bit start t = (
    ground (arith, t, byte_of, bit_of),
    λ slot. ground (
      arith,
      t,
      get_or-set a.bitmap byte (slot / 8) (set_bit (get_or a.bitmap byte 0) bit true) 0,
      get_bit-set_bit f (get_or a.bitmap byte 0) bit (slot % 8) true,
    ),
  )
    where
      byte_of : (byte * 8 + bit) / 8 ≡ byte
      byte_of = omega (arith, t.bit_in)

      bit_of : (byte * 8 + bit) % 8 ≡ bit
      bit_of = omega (arith, t.bit_in)

  -- What an allocation promises: a free slot is marked, and only that one; `none` if no slot is
  -- free; a panic only where the last slot is the one that is free.
  abbrev pub Allocates : HostAllocator → Outcome (Option ℕ × HostAllocator) → Type 0
  Allocates a panics = is_used a slot_limit ≡ false
  Allocates a (returns (none, a')) =
      (a' ≡ a) × ((slot : ℕ) → slot < bitmap_size * 8 → is_used a slot ≡ true)
  Allocates a (returns (some slot, a')) =
      (slot < slot_limit)
      × (is_used a slot ≡ false)
      × IsValid a'
      × ((t : ℕ) → is_used a' t ≡ (if slot == t then true else is_used a t))

  found-Allocates :
      (a : HostAllocator) (new : List ℕ) (byte bit : ℕ)
      → IsValid a
      → Taken f a.bitmap new byte bit
      → Allocates a (found f new byte bit)
  found-Allocates a new byte bit v t = elim (Bool-cases (ltb (byte * 8 + bit) slot_limit)) [
    | inl p ↦
        rw (p, found)
          (
            omega (arith, ltb→lt _ _ p),
            taken.0,
            record {
              whole = rw (t.bytes, length-set) v.whole;
              start_in = omega (arith, t.in_range, v.whole);
            },
            taken.1,
          )
    | inr p ↦ rw (p, found) (subst (λ slot. is_used a slot ≡ false) (last p) taken.0)
  ]
    where
      taken :
          (is_used a (byte * 8 + bit) ≡ false)
          × ((slot : ℕ)
              → is_used (record { bitmap = new; start_offset = byte }) slot
                ≡ (if byte * 8 + bit == slot then true else is_used a slot))
      taken = taken_lem a new byte bit byte t

      last : ltb (byte * 8 + bit) slot_limit ≡ false → byte * 8 + bit ≡ slot_limit
      last p = ground (arith, t.in_range, t.bit_in, v.whole)

  none-Allocates :
      (a : HostAllocator)
      → IsValid a
      → scan f (drop a.start_offset a.bitmap) a.start_offset ≡ none
      → scan f (take a.start_offset a.bitmap) 0 ≡ none
      → (slot : ℕ) → slot < bitmap_size * 8
      → is_used a slot ≡ true
  none-Allocates a v p q slot h = elim (dec_lt (slot / 8) a.start_offset) [
    | yes l ↦ ground (
      arith,
      scan-none f xs 0 (slot / 8) (slot % 8) q
          (omega (arith, length-take a.start_offset a.bitmap, v.whole, v.start_in)) (omega arith),
      take-append-drop a.start_offset a.bitmap,
      get_or-append_left xs ys (slot / 8) 0
          (omega (arith, length-take a.start_offset a.bitmap, v.whole, v.start_in)),
    )
    | no l ↦ ground (
      arith,
      scan-none f ys a.start_offset (slot / 8 - a.start_offset) (slot % 8) p
          (omega (arith, length-drop a.start_offset a.bitmap, v.whole, v.start_in)) (omega arith),
      get_or-drop a.start_offset a.bitmap (slot / 8 - a.start_offset) 0,
    )
  ]
    where
      xs : List ℕ
      xs = take a.start_offset a.bitmap

      ys : List ℕ
      ys = drop a.start_offset a.bitmap

  -- From a valid state `allocate_slot_idx` returns a slot in range that was free, and marks it and no
  -- other in use; or returns none, only where every slot of the bitmap is in use, and changes
  -- nothing; or panics, only where the last slot is free.
  pub allocate_slot_idx-Allocates :
      (a : HostAllocator) → IsValid a → Allocates a (allocate_slot_idx f a)
  unfolding allocate_slot_idx
  allocate_slot_idx-Allocates a v =
      elim (Option-cases (scan f (drop a.start_offset a.bitmap) a.start_offset)) [
        | inr (r, p) ↦
            rw (p, allocate_slot_idx)
              (found-Allocates a _ r.1 r.2 v (Taken-second a r v (scan-some f _ _ r p)))
        | inl p ↦ elim (Option-cases (scan f (take a.start_offset a.bitmap) 0)) [
          | inr (r, q) ↦
              rw (p, allocate_slot_idx, q)
                (found-Allocates a _ r.1 r.2 v (Taken-first a r v (scan-some f _ _ r q)))
          | inl q ↦ rw (p, allocate_slot_idx, q) (refl, none-Allocates a v p q)
        ]
      ]

  last_panics :
      (a : HostAllocator) (r : Outcome (Option ℕ × HostAllocator))
      → ((slot : ℕ) → slot < slot_limit → is_used a slot ≡ true)
      → is_used a slot_limit ≡ false
      → Allocates a r
      → r ≡ panics
  last_panics a panics full free w = refl
  last_panics a (returns (none, a')) full free w = ground (arith, w.1 slot_limit)
  last_panics a (returns (some slot, a')) full free w = ground (arith, w, full slot)

  -- From a valid state with every slot but the last in use, `allocate_slot_idx` panics, and does not return the slot
  -- that is free.
  pub allocate_slot_idx_last :
      (a : HostAllocator)
      → IsValid a
      → ((slot : ℕ) → slot < slot_limit → is_used a slot ≡ true)
      → is_used a slot_limit ≡ false
      → allocate_slot_idx f a ≡ panics
  allocate_slot_idx_last a v full free =
      last_panics a (allocate_slot_idx f a) full free (allocate_slot_idx-Allocates a v)

  abbrev pub Deallocates : HostAllocator → ℕ → Outcome HostAllocator → Type 0
  Deallocates a slot panics = (slot_limit ≤ slot) ⊎ (is_used a slot ≡ false)
  Deallocates a slot (returns a') =
      (slot < slot_limit)
      × (is_used a slot ≡ true)
      × IsValid a'
      × ((t : ℕ) → is_used a' t ≡ (if slot == t then false else is_used a t))

  -- From a valid state `deallocate_slot_id` frees a slot that is in range and in use, and only that one;
  -- it panics only for a slot out of range or not in use.
  pub deallocate_slot_id-Deallocates :
      (a : HostAllocator) (slot : ℕ) → IsValid a → Deallocates a slot (deallocate_slot_id f a slot)
  unfolding deallocate_slot_id
  deallocate_slot_id-Deallocates a slot v = elim (Bool-cases (ltb slot slot_limit)) [
    | inr p ↦ rw p (inl (ground arith))
    | inl p ↦ elim (Bool-cases (is_used a slot)) [
      | inr q ↦ rw (p, q) (inr q)
      | inl q ↦
          rw (p, q)
            (
              omega (arith, ltb→lt _ _ p),
              q,
              record { whole = rw length-set v.whole; start_in = v.start_in },
              λ t. ground (
                arith,
                v,
                get_or-set a.bitmap (slot / 8) (t / 8)
                    (set_bit (get_or a.bitmap (slot / 8) 0) (slot % 8) false) 0,
                get_bit-set_bit f (get_or a.bitmap (slot / 8) 0) (slot % 8) (t % 8) false,
              ),
            )
    ]
  ]
