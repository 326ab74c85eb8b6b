-- ===== src/Prelude/ErrorKind.antt =====
-- The kernel's error kinds (tee/kernel/src/error.rs) and its `Result`, with `?` as bind and
-- `ensure!` as a guarded step.
use mathlib.Core.Bool.{Bool}
use mushroom.Prelude.Tests.{if◌then◌else◌}

pub data ErrorKind : Type 0 where
  perm no_ent srch intr x_io no_exec bad_f child again no_mem acces fault : ErrorKind
  busy exist x_dev no_dev not_dir is_dir inval mfile no_tty s_pipe pipe range : ErrorKind
  no_sys not_empty loop name_too_long op_not_supp timed_out restart_no_intr : ErrorKind

pub data Result {ℓ} (T : Type ℓ) : Type ℓ where
  err : ErrorKind → Result T
  ok : T → Result T

-- `ensure!(test, kind)`
abbrev pub ensure : Bool → ErrorKind → Result (Unit {0})
ensure test kind = if test then ok tt else err kind

-- `?`: an error ends the function, a value goes to what follows.
infixl 5 ◌>>=◌
abbrev pub ◌>>=◌ {ℓ κ} : {T : Type ℓ} {U : Type κ} → Result T → (T → Result U) → Result U
err kind >>= next = err kind
ok value >>= next = next value

-- The same for a step without a value.
infixl 5 ◌>>◌
abbrev pub ◌>>◌ {κ} : {U : Type κ} → Result (Unit {0}) → Result U → Result U
step >> next = step >>= λ _. next
