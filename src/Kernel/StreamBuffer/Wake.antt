-- ===== src/Kernel/StreamBuffer/Wake.antt =====
-- tee/kernel/src/fs/fd/stream_buffer.rs: no wake-up of a waiting writer is lost, and a failed copy
-- leaves the stream as it was.
use mathlib.Core.List.{append-nil}
use mushroom.Prelude.{
  ℕ, ◌-◌, ◌<◌, true, false, List, [], ◌∷◌, ◌++◌, ◌≡◌, refl, sym, ap, length, take, ltb, ◌==◌, inl,
  inr, Bool-cases, arith,
}
use mushroom.Prelude.ErrorKind.{Result, ok, err}
use mushroom.Kernel.StreamBuffer.{
  StreamBuffer, notify, is_empty, was_full, read, can_write, UserMemory, appended, guarded,
  write_from_user,
}

-- What a read owes a writer that waits to write so many bytes.
abbrev pub Wakes : ℕ → ℕ → ℕ → StreamBuffer → Result (ℕ × List ℕ × StreamBuffer) → Type 0
Wakes capacity atomic_size count s (err e) = Unit
Wakes capacity atomic_size count s (ok (n, out, s')) =
    can_write capacity atomic_size s' count ≡ true → s.notifications < s'.notifications

-- A writer that could not go on before a read and can after it has been notified by that read, for
-- an atomic size above zero.
pub read-Wakes :
    (capacity atomic_size count : ℕ) (s : StreamBuffer) (buf : List ℕ)
    → 0 < atomic_size
    → can_write capacity atomic_size s count ≡ false
    → Wakes capacity atomic_size count s (read capacity atomic_size s buf)
unfolding read can_write was_full notify
read-Wakes capacity atomic_size count s buf z h = elim (Bool-cases (is_empty buf)) [
  | inl p ↦ rw p (λ t. ground (arith, h, t))
  | inr p ↦ elim (Bool-cases (is_empty (s.buffer))) [
    | inl q ↦ elim (Bool-cases (s.strong_count == 1)) [
      | inl r ↦ rw (p, q, r) (λ t. ground (arith, h, t))
      | inr r ↦ rw (p, q, r) tt
    ]
    | inr q ↦ elim (Bool-cases (ltb (capacity - length (s.buffer)) atomic_size)) [
      | inl r ↦ rw (p, q, r) (λ t. omega arith)
      | inr r ↦ absurd (ground (arith, h, r, z))
    ]
  ]
]

-- What is left of a stream when the copy from the writer's memory fails.
abbrev pub Keeps : StreamBuffer → StreamBuffer × Result ℕ → Type 0
Keeps s (s', err e) = s' ≡ s
Keeps s (s', ok n) =
    (xs : List ℕ) × (s'.buffer ≡ s.buffer ++ xs) × (s'.strong_count ≡ s.strong_count)

take_all : (xs ys : List ℕ) → take (length xs) (xs ++ ys) ≡ xs
take_all [] ys = refl
take_all (x ∷ xs) ys = ap (λ zs. x ∷ zs) (take_all xs ys)

module _ (capacity atomic_size : ℕ) {M : Type 0} (vm : UserMemory M) (first_len : List ℕ → ℕ)
    (s : StreamBuffer) where
  guarded-Keeps :
      (o : Result (Unit {0})) (r : StreamBuffer × Result ℕ)
      → Keeps s r
      → Keeps s (guarded capacity atomic_size vm first_len s o r)
  guarded-Keeps (err e) r h = refl
  guarded-Keeps (ok _) r h = h

  appended-Keeps :
      (len : ℕ) (zs : List ℕ) (c : Result (List ℕ))
      → Keeps s (appended capacity atomic_size vm first_len s len (s.buffer ++ zs) c)
  unfolding appended notify
  appended-Keeps len zs (err e) = ap (λ b. record s { buffer = b }) (take_all (s.buffer) zs)
  appended-Keeps len zs (ok xs) = (xs, ap (λ b. b ++ xs) (take_all (s.buffer) zs), refl)

  -- `write_from_user` that fails, in its checks or in either copy from the caller's memory, leaves the
  -- stream as it was and notifies nobody; when it succeeds it has only appended.
  pub write_from_user-Keeps :
      (m : M) (pointer count : ℕ)
      → Keeps s (write_from_user capacity atomic_size vm first_len m s pointer count)
  unfolding write_from_user
  write_from_user-Keeps m pointer count = elim (Bool-cases (ltb 1 (s.strong_count))) [
    | inr p ↦ rw p refl
    | inl p ↦ elim (Bool-cases (count == 0)) [
      | inl q ↦ rw (p, q) ([], sym (append-nil _), refl)
      | inr q ↦ rw (p, q) (guarded-Keeps _ _ (appended-Keeps _ _ _))
    ]
  ]
