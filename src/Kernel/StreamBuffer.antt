-- ===== src/Kernel/StreamBuffer.antt =====
-- tee/kernel/src/fs/fd/stream_buffer.rs: the bounded byte stream behind pipes and socket pairs. The
-- two halves share the buffer; `strong_count` of 1 says that the other half is closed. `capacity`
-- and `atomic_size` are the two const parameters.
pub mod Stream
pub mod Wake
mod Tests
use mushroom.Prelude.{
  ℕ, suc, ◌+◌, ◌-◌, Bool, true, false, not, ◌&&◌, ◌||◌, List, [], ◌∷◌, ◌++◌, min, length, take,
  drop, replicate, ltb, leb, ◌==◌, if◌then◌else◌,
}
use mushroom.Prelude.ErrorKind.{Result, ok, err, again, pipe, ensure, ◌>>=◌, ◌>>◌}

-- The buffer under its mutex, the number of halves, and the number of notifications sent so far.
pub record StreamBuffer : Type 0 where
  pub buffer : List ℕ
  pub strong_count : ℕ
  pub notifications : ℕ

pub new : StreamBuffer
new = record { buffer = []; strong_count = 2; notifications = 0 }

pub notify : StreamBuffer → StreamBuffer
notify s = record s { notifications = s.notifications + 1 }

abbrev pub is_empty : List ℕ → Bool
is_empty [] = true
is_empty (x ∷ xs) = false

-- The loop of `read`: each place of the caller's slice takes the byte popped from the front, until
-- one of them ends. The slice, what is left, and the count.
pub fill : List ℕ → List ℕ → List ℕ × List ℕ × ℕ
fill [] guard = ([], guard, 0)
fill (b ∷ buf) [] = (b ∷ buf, [], 0)
fill (b ∷ buf) (src ∷ guard) = let rest = fill buf guard in (src ∷ rest.0, rest.1, suc (rest.2))

abbrev pub notify_if : Bool → StreamBuffer → StreamBuffer
notify_if true s = notify s
notify_if false s = s

-- The memory of the process that calls: a write may fail after it has changed some of it.
pub record UserMemory (M : Type 0) : Type 0 where
  pub write_bytes : M → ℕ → List ℕ → M × Result (Unit {0})
  pub read_bytes : M → ℕ → ℕ → Result (List ℕ)

-- `Events`, a set of flags, and `&`.
pub record Events : Type 0 where
  pub read : Bool
  pub write : Bool
  pub error : Bool
  pub hang_up : Bool

abbrev pub intersect : Events → Events → Events
intersect a b = record {
  read = a.read && b.read;
  write = a.write && b.write;
  error = a.error && b.error;
  hang_up = a.hang_up && b.hang_up;
}

-- `ReadHalf` and `WriteHalf`
module _ (capacity atomic_size : ℕ) where
  pub was_full : StreamBuffer → Bool
  was_full s = ltb (capacity - length (s.buffer)) atomic_size

  -- `ReadHalf::read`: the count, the caller's slice, and the stream.
  pub read : StreamBuffer → List ℕ → Result (ℕ × List ℕ × StreamBuffer)
  read s buf =
      if is_empty buf
      then ok (0, buf, s)
      else if is_empty (s.buffer)
      then (if s.strong_count == 1 then ok (0, buf, s) else err again)
      else let r = fill buf (s.buffer) in
        ok (r.2, r.0, notify_if (was_full s) (record s { buffer = r.1 }))

  -- The space a write of so many bytes asks for.
  pub ensure_space : StreamBuffer → ℕ → Result (Unit {0})
  ensure_space s count =
      if leb count atomic_size
      then ensure (leb count (capacity - length (s.buffer))) again
      else ensure (ltb 0 (capacity - length (s.buffer))) again

  -- `WriteHalf::write` past its first two checks.
  pub extend : StreamBuffer → List ℕ → Result (ℕ × StreamBuffer)
  extend s buf = do
    ensure_space s (length buf)
    let n = min (length buf) (capacity - length (s.buffer)) in
        ok (n, notify (record s { buffer = s.buffer ++ take n buf }))

  -- `WriteHalf::write`
  pub write : StreamBuffer → List ℕ → Result (ℕ × StreamBuffer)
  write s buf = do
    ensure (ltb 1 (s.strong_count)) pipe
    if is_empty buf then ok (0, s) else extend s buf

  -- `ReadHalf::poll_ready`
  pub poll_read : StreamBuffer → Events → Events
  poll_read s events =
      intersect
        (record {
          read = not (is_empty (s.buffer)) || (s.strong_count == 1);
          write = false;
          error = false;
          hang_up = s.strong_count == 1;
        })
        events

  -- `WriteHalf::poll_ready`
  pub poll_write : StreamBuffer → Events → Events
  poll_write s events =
      intersect
        (record {
          read = false;
          write = ltb (length (s.buffer)) capacity || (s.strong_count == 1);
          error = s.strong_count == 1;
          hang_up = false;
        })
        events

  -- The test of `WriteHalf::ready_for_write` that ends its wait.
  pub can_write : StreamBuffer → ℕ → Bool
  can_write s count =
      (if leb count atomic_size
        then leb count (capacity - length (s.buffer))
        else ltb 0 (capacity - length (s.buffer)))
      || (s.strong_count == 1)

  module _ {M : Type 0} (vm : UserMemory M) (first_len : List ℕ → ℕ) where
    -- `read_to_user` past its guards: the first slice of the ring, then, where the first went well
    -- and there is more, the second.
    pub copy_out : M → ℕ → List ℕ → List ℕ → M × Result (Unit {0})
    copy_out m pointer slice1 slice2 =
        let (m', res) = vm.write_bytes m pointer slice1 in
        elim res [
          | err e ↦ (m', err e)
          | ok _ ↦
              if is_empty slice2
              then (m', ok tt)
              else vm.write_bytes m' (pointer + length slice1) slice2
        ]

    pub drained : StreamBuffer → ℕ → M × Result (Unit {0}) → M × StreamBuffer × Result ℕ
    drained s len (m, err e) = (m, s, err e)
    drained s len (m, ok _) =
        (m, notify_if (was_full s) (record s { buffer = drop len (s.buffer) }), ok len)

    -- `ReadHalf::read_to_user`; `first_len` is where the ring's storage is split in two.
    pub read_to_user : M → StreamBuffer → ℕ → ℕ → M × StreamBuffer × Result ℕ
    read_to_user m s pointer count =
        if count == 0
        then (m, s, ok 0)
        else if is_empty (s.buffer)
        then (if s.strong_count == 1 then (m, s, ok 0) else (m, s, err again))
        else let len = min count (length (s.buffer)) in
          let len1 = min len (first_len (s.buffer)) in
          drained s len (
            copy_out m pointer (take len1 (s.buffer))
              (take (len - len1) (drop (first_len (s.buffer)) (s.buffer))))

    -- The bytes that `write_from_user` reads into the resized ring, in one piece or in two; `second`
    -- is the length of the ring's second slice.
    pub copy_in : M → ℕ → ℕ → ℕ → Result (List ℕ)
    copy_in m pointer len second = if leb len second then vm.read_bytes m pointer len else do
      xs ← vm.read_bytes m pointer (len - second)
      ys ← vm.read_bytes m (pointer + (len - second)) second
      ok (xs ++ ys)

    -- What a failed read leaves is cut off again by `truncate`.
    pub appended : StreamBuffer → ℕ → List ℕ → Result (List ℕ) → StreamBuffer × Result ℕ
    appended s len resized (err e) = (record s { buffer = take (length (s.buffer)) resized }, err e)
    appended s len resized (ok xs) =
        (notify (record s { buffer = take (length (s.buffer)) resized ++ xs }), ok len)

    abbrev pub guarded :
        StreamBuffer → Result (Unit {0}) → StreamBuffer × Result ℕ → StreamBuffer × Result ℕ
    guarded s (err e) r = (s, err e)
    guarded s (ok _) r = r

    -- `WriteHalf::write_from_user`
    pub write_from_user : M → StreamBuffer → ℕ → ℕ → StreamBuffer × Result ℕ
    write_from_user m s pointer count = guarded s (ensure (ltb 1 (s.strong_count)) pipe) (
        if count == 0
        then (s, ok 0)
        else guarded s (ensure_space s count) (
            let len = min count (capacity - length (s.buffer)) in
            let resized = s.buffer ++ replicate len 0 in
            appended s len resized (copy_in m pointer len (length resized - first_len resized))))
