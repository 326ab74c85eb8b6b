-- ===== src/Kernel/StreamBuffer/Stream.antt =====
-- tee/kernel/src/fs/fd/stream_buffer.rs: the halves carry one stream of bytes, in order, within the
-- capacity.
use mushroom.Prelude.{
  ℕ, suc, ◌-◌, ◌≤◌, ◌<◌, Bool, true, false, List, [], ◌∷◌, ◌++◌, ◌≡◌, refl, sym, ap, ◌∙◌, min,
  length, take, ltb, leb, ◌==◌, ◌⊎◌, inl, inr, Bool-cases, arith,
}
use mathlib.Core.Path.{subst}
use mathlib.Core.List.{append-nil, append_assoc}
use mushroom.Prelude.ErrorKind.{Result, ok, err, again, pipe}
use mushroom.Kernel.StreamBuffer.{
  StreamBuffer, notify, fill, notify_if, read, ensure_space, write, extend,
}

-- `read`'s loop moves a prefix of the buffer, as long as the slice has room.
pub fill_prefix :
    (buf guard : List ℕ)
    → ((fill buf guard).2 ≡ min (length buf) (length guard))
      × (take (fill buf guard).2 (fill buf guard).0 ++ (fill buf guard).1 ≡ guard)
unfolding fill
fill_prefix [] guard = (omega arith, refl)
fill_prefix (b ∷ buf) [] = (omega arith, refl)
fill_prefix (b ∷ buf) (x ∷ guard) =
    (omega (arith, (fill_prefix buf guard).0), ap (λ ys. x ∷ ys) (fill_prefix buf guard).1)

List-cases : (xs : List ℕ) → (xs ≡ []) ⊎ ((y : ℕ) × (ys : List ℕ) × (xs ≡ y ∷ ys))
List-cases [] = inl refl
List-cases (x ∷ xs) = inr (x, xs, refl)

notify_if-keeps :
    (b : Bool) (s : StreamBuffer)
    → ((notify_if b s).buffer ≡ s.buffer) × ((notify_if b s).strong_count ≡ s.strong_count)
unfolding notify
notify_if-keeps true s = (refl, refl)
notify_if-keeps false s = (refl, refl)

-- What a read promises of its result.
abbrev pub Reads : StreamBuffer → List ℕ → Result (ℕ × List ℕ × StreamBuffer) → Type 0
Reads s buf (err e) = (e ≡ again) × (s.buffer ≡ []) × ((s.strong_count == 1) ≡ false)
Reads s buf (ok (n, out, s')) =
    (n ≡ min (length buf) (length (s.buffer)))
    × (take n out ++ s'.buffer ≡ s.buffer)
    × (s'.strong_count ≡ s.strong_count)

-- What a write promises of its result.
abbrev pub Writes : ℕ → ℕ → StreamBuffer → List ℕ → Result (ℕ × StreamBuffer) → Type 0
Writes capacity atomic_size s buf (err e) =
    (e ≡ pipe) × (s.strong_count ≤ 1) ⊎ (e ≡ again) × (capacity - length (s.buffer) < length buf)
Writes capacity atomic_size s buf (ok (n, s')) =
    (s'.buffer ≡ s.buffer ++ take n buf)
    × (s'.strong_count ≡ s.strong_count)
    × (length buf ≤ atomic_size → n ≡ length buf)
    × (0 < length buf → 0 < n)
    × (n ≤ length buf)

module _ (capacity atomic_size : ℕ) where
  -- A read gives as many bytes as the slice has room for, which with the bytes left are the buffer, and
  -- fails only with EAGAIN, on an empty buffer whose other half is open.
  pub read-Reads : (s : StreamBuffer) (buf : List ℕ) → Reads s buf (read capacity atomic_size s buf)
  unfolding read notify
  read-Reads s [] = (omega arith, refl, refl)
  read-Reads s (b ∷ buf) = elim (List-cases (s.buffer)) [
    | inl p ↦ rw p (ground arith)
    | inr (x, xs, p) ↦ rw p (
      (fill_prefix (b ∷ buf) (x ∷ xs)).0,
      rw ((notify_if-keeps _ _).0) (fill_prefix (b ∷ buf) (x ∷ xs)).1,
      rw ((notify_if-keeps _ _).1) refl,
    )
  ]

  -- A write appends a prefix of its bytes, not an empty one where there are bytes, and all of them where
  -- they are at most the atomic size; it fails only with EPIPE, where the other half is closed, or
  -- EAGAIN, where the space left is less than its bytes.
  pub write-Writes :
      (s : StreamBuffer) (buf : List ℕ)
      → Writes capacity atomic_size s buf (write capacity atomic_size s buf)
  unfolding write extend ensure_space notify
  write-Writes s buf = elim (Bool-cases (ltb 1 (s.strong_count))) [
    | inr p ↦ rw p (inl (refl, ground (arith, p)))
    | inl p ↦ elim (List-cases buf) [
      | inl q ↦ rw (p, q) (sym (append-nil _), refl, (λ _. omega arith), (λ h. h), omega arith)
      | inr (b, bs, q) ↦ elim (Bool-cases (leb (suc (length bs)) atomic_size)) [
        | inl r ↦ elim (Bool-cases (leb (suc (length bs)) (capacity - length (s.buffer)))) [
          | inl t ↦
              rw (p, q, r, t) (refl, refl, ground (arith, t), (λ _. ground (arith, t)), omega arith)
          | inr t ↦ rw (p, q, r, t) (inr (refl, ground (arith, t)))
        ]
        | inr r ↦ elim (Bool-cases (ltb 0 (capacity - length (s.buffer)))) [
          | inl t ↦
              rw (p, q, r, t) (refl, refl, ground (arith, r), (λ _. ground (arith, t)), omega arith)
          | inr t ↦ rw (p, q, r, t) (inr (refl, ground (arith, t)))
        ]
      ]
    ]
  ]

-- One use of the pair of halves, with the bytes its writer got rid of and the bytes its reader got.
pub data Step (capacity atomic_size : ℕ)
    : StreamBuffer → List ℕ → List ℕ → StreamBuffer → Type 0 where
  reads :
      {s s' : StreamBuffer} {out : List ℕ} {n : ℕ} (buf : List ℕ)
      → read capacity atomic_size s buf ≡ ok (n, out, s')
      → Step capacity atomic_size s [] (take n out) s'
  writes :
      {s s' : StreamBuffer} {n : ℕ} (buf : List ℕ)
      → write capacity atomic_size s buf ≡ ok (n, s')
      → Step capacity atomic_size s (take n buf) [] s'
  closes : {s : StreamBuffer} → Step capacity atomic_size s [] [] (record s { strong_count = 1 })

-- A run of such uses, with all the bytes written and all the bytes read.
pub data Runs (capacity atomic_size : ℕ)
    : StreamBuffer → List ℕ → List ℕ → StreamBuffer → Type 0 where
  done : {s : StreamBuffer} → Runs capacity atomic_size s [] [] s
  then_step :
      {s s' s'' : StreamBuffer} {sent got sent' got' : List ℕ}
      → Runs capacity atomic_size s sent got s'
      → Step capacity atomic_size s' sent' got' s''
      → Runs capacity atomic_size s (sent ++ sent') (got ++ got') s''

module _ {capacity atomic_size : ℕ} where
  Step-stream :
      {s s' : StreamBuffer} {sent got : List ℕ}
      → Step capacity atomic_size s sent got s'
      → s.buffer ++ sent ≡ got ++ s'.buffer
  Step-stream (reads {s} buf e) =
      append-nil _ ∙ sym ((subst (Reads s buf) e (read-Reads capacity atomic_size s buf)).1)
  Step-stream (writes {s} buf e) =
      sym
        ((subst (Writes capacity atomic_size s buf) e (write-Writes capacity atomic_size s buf)).0)
  Step-stream closes = append-nil _

  -- Over any run, the bytes that were in the buffer and the bytes written since are, in order, the
  -- bytes read and the bytes in the buffer.
  pub Runs-stream :
      {s s' : StreamBuffer} {sent got : List ℕ}
      → Runs capacity atomic_size s sent got s'
      → s.buffer ++ sent ≡ got ++ s'.buffer
  Runs-stream done = append-nil _
  Runs-stream (then_step {s} {s'} {s''} {sent} {got} {sent'} {got'} rs step) =
      sym (append_assoc (s.buffer) sent sent')
      ∙ ap (λ z. z ++ sent') (Runs-stream rs)
      ∙ append_assoc got (s'.buffer) sent'
      ∙ ap (λ z. got ++ z) (Step-stream step)
      ∙ sym (append_assoc got got' (s''.buffer))
