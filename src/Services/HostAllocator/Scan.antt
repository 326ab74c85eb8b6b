-- ===== src/Services/HostAllocator/Scan.antt =====
-- The search for a free bit in the bitmap of dynamic.rs.
use native.Mathlib.Nat.{add-zero, zero-add}
use mushroom.Prelude.{
  ℕ, zero, suc, ◌+◌, ◌<◌, ◌≡◌, true, false, List, [], ◌∷◌, none, some, arith, inl, inr, length,
  get_or, set, Bool-cases, Option-cases,
}
use mushroom.Prelude.BitField.{BitField}
use mushroom.Services.HostAllocator.{find_unset, scan}

module _ (f : BitField) where
  open f use {get_bit, set_bit}

  -- The bit that is found is unset, and every bit is set if none is found.
  find_unset-some :
      (v n i b : ℕ) → find_unset f v n i ≡ some b → (get_bit v b ≡ false) × (b < i + n)
  unfolding find_unset
  find_unset-some v zero i b e = cc
  find_unset-some v (suc n) i b e = elim (Bool-cases (get_bit v i)) [
    | inl p ↦ ground (arith, find_unset-some v n (i + 1) b)
    | inr p ↦ ground arith
  ]

  find_unset-none :
      (v n i : ℕ) (k : ℕ) → find_unset f v n i ≡ none → k < n → get_bit v (i + k) ≡ true
  unfolding find_unset
  find_unset-none v zero i k e h = absurd (omega arith)
  find_unset-none v (suc n) i zero e h = elim (Bool-cases (get_bit v i)) [
    | inl p ↦ rw add-zero p
    | inr p ↦ absurd (ground arith)
  ]
  find_unset-none v (suc n) i (suc k) e h = elim (Bool-cases (get_bit v i)) [
    | inl p ↦ rw shift (find_unset-none v n (i + 1) k (ground arith) (omega arith))
    | inr p ↦ absurd (ground arith)
  ]
    where
      shift : i + suc k ≡ i + 1 + k
      shift = omega arith

  -- What a successful scan has done.
  pub record Scanned (vs : List ℕ) (i : ℕ) (r : List ℕ × ℕ × ℕ) : Type 0 where
    pub offset : ℕ
    pub index : r.1 ≡ i + offset
    pub in_range : offset < length vs
    pub bit_in : r.2 < 8
    pub was_unset : get_bit (get_or vs offset 0) r.2 ≡ false
    pub bytes : r.0 ≡ set vs offset (set_bit (get_or vs offset 0) r.2 true)

  pub scan-some : (vs : List ℕ) (i : ℕ) (r : List ℕ × ℕ × ℕ) → scan f vs i ≡ some r → Scanned vs i r
  unfolding scan
  scan-some [] i r e = cc
  scan-some (v ∷ vs) i r e = elim (Option-cases (find_unset f v 8 0)) [
    | inl p ↦ elim (Option-cases (scan f vs (i + 1))) [
      | inl q ↦ absurd (ground arith)
      | inr (t, q) ↦
          let a = scan-some vs (i + 1) t q in
          record {
            offset = suc a.offset;
            index = ground (arith, a.index);
            in_range = omega (arith, a.in_range);
            bit_in = ground (arith, a.bit_in);
            was_unset = ground (arith, a.was_unset);
            bytes = ground (arith, a.bytes);
          }
    ]
    | inr (b, p) ↦
        let u = find_unset-some v 8 0 b p in
        record {
          offset = 0;
          index = ground arith;
          in_range = omega arith;
          bit_in = ground (arith, u);
          was_unset = ground (arith, u);
          bytes = ground arith;
        }
  ]

  pub scan-none :
      (vs : List ℕ) (i k b : ℕ)
      → scan f vs i ≡ none
      → k < length vs
      → b < 8
      → get_bit (get_or vs k 0) b ≡ true
  unfolding scan
  scan-none [] i k b e h hb = absurd (omega arith)
  scan-none (v ∷ vs) i zero b e h hb = elim (Option-cases (find_unset f v 8 0)) [
    | inl p ↦ rw zero-add at (find_unset-none v 8 0 b p hb)
    | inr (c, p) ↦ absurd (ground arith)
  ]
  scan-none (v ∷ vs) i (suc k) b e h hb = elim (Option-cases (find_unset f v 8 0)) [
    | inl p ↦ scan-none vs (i + 1) k b (ground arith) (omega arith) hb
    | inr (c, p) ↦ absurd (ground arith)
  ]
