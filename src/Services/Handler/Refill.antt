-- ===== src/Services/Handler/Refill.antt =====
-- The refill of the allocation buffer in services.rs.
use mathlib.Core.Path.{subst}
use mushroom.Prelude.{
  ℕ, zero, suc, ◌-◌, ◌*◌, ◌<◌, ◌≤◌, ◌≡◌, refl, ap, ◌∙◌, ◌↔◌, true, false, List, [], ◌∷◌, ◌++◌,
  Option, none, some, arith, ◌⊎◌, inl, inr, length, length-append, length-set, Option-cases,
}
use mushroom.Prelude.BitField.{BitField}
use mushroom.Prelude.Outcome.{Outcome, returns, panics}
use mushroom.Services.AllocationBuffer.{AllocationBuffer, slot_limit, find_free_entry, set_entry}
use mushroom.Services.AllocationBuffer.Contents.{
  contents, Added, set_entry-Added, find_free_entry-none,
}
use mushroom.Services.HostAllocator.{
  HostAllocator, bitmap_size, allocate_slot_idx, allocate_frame, granted_of,
}
use mushroom.Services.HostAllocator.Slots.{is_used, IsValid, Allocates, allocate_slot_idx-Allocates}
use mushroom.Services.Handler.{Handler, allocate_memory}

-- What holds of each entry of a list.
abbrev pub Each {ℓ κ} : {T : Type ℓ} → (T → Type κ) → List T → Type κ
Each Q [] = Unit
Each Q (slot ∷ slots) = Q slot × Each Q slots

Each-append {ℓ κ} :
    {A : Type ℓ} (P : A → Type κ) (xs ys : List A) → Each P (xs ++ ys) ↔ (Each P xs × Each P ys)
Each-append P [] ys = (λ h. (tt, h), λ h. h.1)
Each-append P (x ∷ xs) ys = (
  λ h. let r = (Each-append P xs ys).0 h.1 in ((h.0, r.0), r.1),
  λ h. (h.0.0, (Each-append P xs ys).1 (h.0.1, h.1)),
)

Each-imp {ℓ κ ν} :
    {A : Type ℓ} {P : A → Type κ} {Q : A → Type ν}
    → ((a : A) → P a → Q a)
    → (xs : List A) → Each P xs
    → Each Q xs
Each-imp f [] h = tt
Each-imp f (x ∷ xs) h = (f x h.0, Each-imp f xs h.1)

-- `contents` drops entries.
length-contents : (xs : AllocationBuffer) → length (contents xs) ≤ length xs
length-contents [] = omega arith
length-contents (x ∷ xs) = ground (arith, length-contents xs)

module _ (f : BitField) where
  -- Every slot in the buffer is in use in the allocator, so it is handed out to nobody else.
  pub record IsOwned (h : Handler) : Type 0 where
    pub allocator : IsValid f h.host_allocator
    pub slots : Each (λ slot. is_used f h.host_allocator slot ≡ true) (contents h.allocation_buffer)

  -- The free entries of the buffer.
  abbrev pub room : Handler → ℕ
  room h = length h.allocation_buffer - length (contents h.allocation_buffer)

  -- What a refill promises: it ends, with a buffer that is full or with no slot left on the host,
  -- and with every slot of the buffer in use; it panics only where the last slot of the host was free.
  abbrev pub Refills : Handler → Outcome (Option Handler) → Type 0
  Refills h panics = is_used f h.host_allocator slot_limit ≡ false
  Refills h (returns none) = ⊥
  Refills h (returns (some h')) =
      IsOwned h'
      × (length h'.allocation_buffer ≡ length h.allocation_buffer)
      × ((length (contents h'.allocation_buffer) ≡ length h'.allocation_buffer)
          ⊎ ((slot : ℕ) → slot < bitmap_size * 8 → is_used f h'.host_allocator slot ≡ true))

  -- The handler once a frame is stored in an entry.
  abbrev pub stored : Handler → ℕ → ℕ → HostAllocator → Handler
  stored h entry slot a = record {
    host_allocator = a;
    allocation_buffer = set_entry h.allocation_buffer entry slot;
    events = h.events ++ granted_of (some slot);
  }

  stored-IsOwned :
      (h : Handler) (entry slot : ℕ) (a : HostAllocator)
      → IsOwned h
      → Allocates f h.host_allocator (returns (some slot, a))
      → Added h.allocation_buffer slot entry
      → IsOwned (stored h entry slot a)
  stored-IsOwned h entry slot a o w d = record {
    allocator = w.2;
    slots = rw d.added ((Each-append P d.before (slot ∷ d.after)).1 (parts.0, (own, parts.1)));
  }
    where
      P : ℕ → Type 0
      P s = is_used f a s ≡ true

      kept : (s : ℕ) → is_used f h.host_allocator s ≡ true → is_used f a s ≡ true
      kept s q = ground (arith, w.3 s)

      own : is_used f a slot ≡ true
      own = ground (arith, w.3 slot)

      parts : Each P d.before × Each P d.after
      parts = (Each-append P d.before d.after).0 (Each-imp kept _ (subst (Each _) d.old o.slots))

  room-stored :
      (h : Handler) (entry slot fuel : ℕ) (a : HostAllocator)
      → Added h.allocation_buffer slot entry
      → room h < suc fuel
      → room (stored h entry slot a) < fuel
  room-stored h entry slot fuel a d l = omega (
    arith,
    length-set h.allocation_buffer entry slot,
    length-contents (set_entry h.allocation_buffer entry slot),
    ap length d.added,
    ap length d.old,
    length-append d.before (slot ∷ d.after),
    length-append d.before d.after,
  )

  Frame-cases :
      (r : Outcome (Option ℕ × HostAllocator))
      → (r ≡ panics)
        ⊎ ((a : HostAllocator) × (r ≡ returns (none, a)))
        ⊎ ((slot : ℕ) × (a : HostAllocator) × (r ≡ returns (some slot, a)))
  Frame-cases panics = inl refl
  Frame-cases (returns (none, a)) = inr (inl (a, refl))
  Frame-cases (returns (some slot, a)) = inr (inr (slot, a, refl))

  -- A promise about the handler after one more slot holds of the handler before.
  widen :
      (h : Handler) (entry slot : ℕ) (a : HostAllocator)
      → Allocates f h.host_allocator (returns (some slot, a))
      → (r : Outcome (Option Handler)) → Refills (stored h entry slot a) r
      → Refills h r
  widen h entry slot a w panics k = ground (arith, w.0, w.3 slot_limit)
  widen h entry slot a w (returns none) k = k
  widen h entry slot a w (returns (some h')) k =
      (k.0, k.1 ∙ length-set h.allocation_buffer entry slot, k.2)

  -- With fuel above the number of free entries, on a valid allocator that has every slot of the buffer
  -- in use, `allocate_memory` ends: with a buffer that is full or with no slot left on the host,
  -- and with every slot of the buffer in use; it panics only where the last slot of the host was free.
  pub allocate_memory-Refills :
      (fuel : ℕ) (h : Handler) → room h < fuel → IsOwned h → Refills h (allocate_memory f fuel h)
  unfolding allocate_memory allocate_frame
  allocate_memory-Refills zero h l o = absurd (omega arith)
  allocate_memory-Refills (suc fuel) h l o =
      elim (Option-cases (find_free_entry h.allocation_buffer)) [
        | inl p ↦
            rw (p, Refills, allocate_memory)
              (o, refl, inl (find_free_entry-none h.allocation_buffer p))
        | inr (entry, p) ↦ elim (Frame-cases (allocate_slot_idx f h.host_allocator)) [
          | inl q ↦ rw (p, Refills, allocate_memory, q) (subst W q w)
          | inr (inl (a, q)) ↦
              let u = subst W q w in
              rw (p, Refills, allocate_memory, q, allocate_frame)
                (
                  record { allocator = rw u.0 o.allocator; slots = rw u.0 o.slots },
                  refl,
                  inr (rw u.0 u.1),
                )
          | inr (inr (slot, a, q)) ↦
              let u = subst W q w in
              let d = set_entry-Added h.allocation_buffer slot entry (omega (arith, u.0)) p in
              rw (p, Refills, allocate_memory, q, allocate_frame)
                (widen h entry slot a u (allocate_memory f fuel (stored h entry slot a)) (
                  allocate_memory-Refills fuel (stored h entry slot a)
                    (room-stored h entry slot fuel a d l) (stored-IsOwned h entry slot a o u d)))
        ]
      ]
    where
      W : Outcome (Option ℕ × HostAllocator) → Type 0
      W = Allocates f h.host_allocator

      w : W (allocate_slot_idx f h.host_allocator)
      w = allocate_slot_idx-Allocates f h.host_allocator o.allocator
