-- ===== src/Kernel/EventFd/Counter.antt =====
-- tee/kernel/src/fs/fd/eventfd.rs: what is written is what is read, and the counter does not wrap.
use mushroom.Prelude.{
  ℕ, ◌+◌, ◌*◌, ◌/◌, ◌%◌, ◌^◌, ◌≤◌, ◌<◌, ◌≡◌, ◌≢◌, refl, List, [], ◌∷◌, ◌⊎◌, inl, inr, length, ltb,
  ◌==◌, Bool-cases, arith,
}
use mushroom.Prelude.ErrorKind.{Result, ok, err, inval, again}
use mushroom.Kernel.EventFd.{EventFd, bytes_of, word_of, read, add, write}

-- A list of bytes.
abbrev pub IsBytes : List ℕ → Type 0
IsBytes [] = Unit
IsBytes (b ∷ bs) = (b < 256) × IsBytes bs

bytes_of-word_of : (bs : List ℕ) → IsBytes bs → bytes_of (length bs) (word_of bs) ≡ bs
unfolding bytes_of word_of
bytes_of-word_of [] h = refl
bytes_of-word_of (b ∷ bs) h = ground (arith, halves, bytes_of-word_of bs h.1)
  where
    halves : ((b + 256 * word_of bs) % 256 ≡ b) × ((b + 256 * word_of bs) / 256 ≡ word_of bs)
    halves = (omega arith, omega arith)

-- What a write promises: EINVAL for a slice that is not a word and EAGAIN for a sum that does not fit,
-- neither with any change; otherwise the counter is the sum, which fits, and a reader that found it
-- zero and can read it now is notified.
abbrev pub Counts : EventFd → List ℕ → Result ℕ × EventFd → Type 0
Counts s buf (err e, s') =
    (s' ≡ s)
    × (((e ≡ inval) × (length buf ≢ 8)) ⊎ ((e ≡ again) × (2 ^ 64 ≤ s.counter + word_of buf)))
Counts s buf (ok n, s') =
    (n ≡ 8)
    × (s'.counter ≡ s.counter + word_of buf)
    × (s'.counter < 2 ^ 64)
    × (s.counter ≡ 0 → s'.counter ≢ 0 → s.notifications < s'.notifications)

-- From a counter of 64 bits, a write fails, with no change, with EINVAL for a slice that is not of eight
-- bytes or with EAGAIN for a sum beyond 64 bits; or it adds the word to the counter, without wrapping,
-- and notifies where the counter was zero and is not any more.
pub write-Counts : (s : EventFd) (buf : List ℕ) → s.counter < 2 ^ 64 → Counts s buf (write s buf)
unfolding write add
write-Counts s buf h = elim (Bool-cases (length buf == 8)) [
  | inr p ↦ rw p (refl, inl (refl, ground (arith, p)))
  | inl p ↦ elim (Bool-cases (word_of buf == 0)) [
    | inl q ↦ rw (p, q) (refl, ground (arith, q), h, λ z n. absurd (n z))
    | inr q ↦ elim (Bool-cases (ltb (s.counter + word_of buf) (2 ^ 64))) [
      | inr r ↦ rw (p, q, r) (refl, inr (refl, ground (arith, r)))
      | inl r ↦ rw (p, q, r) (refl, refl, ground (arith, r), λ z n. ground (arith, z))
    ]
  ]
]

-- Eight bytes, not all zero, that are written to a counter of zero are what the next read gives, and the
-- counter is zero again.
pub read-write :
    (s : EventFd) (bs buf : List ℕ)
    → s.counter ≡ 0
    → IsBytes bs
    → length bs ≡ 8
    → length buf ≡ 8
    → 0 < word_of bs
    → word_of bs < 2 ^ 64
    → let (r, s') = read ((write s bs).1) buf in (r ≡ ok (8, bs)) × (s'.counter ≡ 0)
unfolding read write add
read-write s bs buf z b l k n m = ground (arith, z, l, k, n, m, back)
  where
    back : bytes_of 8 (word_of bs) ≡ bs
    back = rw l at (bytes_of-word_of bs b)
