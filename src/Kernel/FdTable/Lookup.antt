-- ===== src/Kernel/FdTable/Lookup.antt =====
-- The table of fd.rs as a map from numbers to entries.
use mushroom.Prelude.{
  ◌≡◌, refl, [], ◌∷◌, Option, none, some, arith, if◌then◌else◌, Option-cases, inl, inr,
}
use mushroom.Prelude.Int.{ℤ, eqb_ℤ, ◌<ℤ◌}
use mushroom.Prelude.ErrorKind.{Result, ok, err, bad_f}
use mushroom.Kernel.FdTable.{
  Entry, Table, lookup, put, delete, get_with_flags, close, prepare_for_execve,
}

-- The keys ascend strictly.
abbrev pub Above : ℤ → Table → Type 0
Above lo [] = Unit
Above lo ((k, _) ∷ t) = (lo <ℤ k) × Above k t

abbrev pub IsSorted : Table → Type 0
IsSorted [] = Unit
IsSorted ((k, _) ∷ t) = Above k t

lookup-Above : (lo k : ℤ) (t : Table) → Above lo t → ¬ (lo <ℤ k) → lookup k t ≡ none
unfolding lookup
lookup-Above lo k [] a h = refl
lookup-Above lo k ((j, e) ∷ t) a h = ground (arith, lookup-Above j k t a.1)

put-Above : (lo k : ℤ) (e : Entry) (t : Table) → lo <ℤ k → Above lo t → Above lo (put k e t)
unfolding put
put-Above lo k e [] h a = (h, tt)
put-Above lo k e ((j, d) ∷ t) h a = ground (arith, put-Above j k e t)

pub put-IsSorted : (k : ℤ) (e : Entry) (t : Table) → IsSorted t → IsSorted (put k e t)
unfolding put
put-IsSorted k e [] a = tt
put-IsSorted k e ((j, d) ∷ t) a = ground (arith, put-Above j k e t)

pub lookup-put :
    (k j : ℤ) (e : Entry) (t : Table)
    → lookup j (put k e t) ≡ (if eqb_ℤ j k then some e else lookup j t)
unfolding lookup put
lookup-put k j e [] = refl
lookup-put k j e ((i, d) ∷ t) = ground (arith, lookup-put k j e t)

lookup-delete-Above :
    (lo k j : ℤ) (t : Table)
    → Above lo t
    → lookup j (delete k t) ≡ (if eqb_ℤ j k then none else lookup j t)
unfolding lookup delete
lookup-delete-Above lo k j [] a = ground arith
lookup-delete-Above lo k j ((i, d) ∷ t) a =
    ground (arith, lookup-delete-Above i k j t a.1, lookup-Above i j t a.1)

delete-Above : (lo k : ℤ) (t : Table) → Above lo t → Above lo (delete k t)
unfolding delete
delete-Above lo k [] a = tt
delete-Above lo k ((j, d) ∷ t) a = ground (arith, delete-Above j k t a.1, weaken lo j t)
  where
    weaken : (lo j : ℤ) (t : Table) → Above j t → lo <ℤ j → Above lo t
    weaken lo j [] a h = tt
    weaken lo j ((i, d) ∷ t) a h = (omega arith, a.1)

lookup-delete :
    (k j : ℤ) (t : Table)
    → IsSorted t
    → lookup j (delete k t) ≡ (if eqb_ℤ j k then none else lookup j t)
unfolding lookup delete
lookup-delete k j [] a = ground arith
lookup-delete k j ((i, d) ∷ t) a =
    ground (arith, lookup-delete-Above i k j t a, lookup-Above i j t a)

delete-IsSorted : (k : ℤ) (t : Table) → IsSorted t → IsSorted (delete k t)
unfolding delete
delete-IsSorted k [] a = tt
delete-IsSorted k ((j, d) ∷ t) a = ground (arith, delete-Above j k t a, tail t a)
  where
    tail : (t : Table) → Above j t → IsSorted t
    tail [] a = tt
    tail ((i, d) ∷ t) a = a.1

-- What closing a number promises.
abbrev pub Closes : Table → ℤ → Result Table → Type 0
Closes t k (err e) = (e ≡ bad_f) × (lookup k t ≡ none)
Closes t k (ok t') =
    IsSorted t'
    × (get_with_flags t' k ≡ err bad_f)
    × ((j : ℤ) → lookup j t' ≡ (if eqb_ℤ j k then none else lookup j t))

-- On a sorted table closing an open number removes it and no other, so that it reads as EBADF afterwards; closing
-- any other number is EBADF.
pub close-Closes : (t : Table) (k : ℤ) → IsSorted t → Closes t k (close t k)
unfolding close get_with_flags
close-Closes t k s = elim (Option-cases (lookup k t)) [
  | inl p ↦ rw p (refl, p)
  | inr (e, p) ↦
      rw p
        (delete-IsSorted k t s, ground (arith, lookup-delete k k t s), λ j. lookup-delete k j t s)
]

-- Whether an entry survives `execve`.
abbrev pub kept : Option Entry → Option Entry
kept none = none
kept (some e) = if e.cloexec then none else some e

prepare-Above : (lo : ℤ) (t : Table) → Above lo t → Above lo (prepare_for_execve t)
unfolding prepare_for_execve
prepare-Above lo [] a = tt
prepare-Above lo ((k, e) ∷ t) a =
    ground (arith, prepare-Above k t a.1, weaken lo k (prepare_for_execve t))
  where
    weaken : (lo j : ℤ) (t : Table) → Above j t → lo <ℤ j → Above lo t
    weaken lo j [] a h = tt
    weaken lo j ((i, d) ∷ t) a h = (omega arith, a.1)

lookup-prepare_after :
    (lo k : ℤ) (t : Table) → Above lo t → lookup k (prepare_for_execve t) ≡ kept (lookup k t)
unfolding lookup prepare_for_execve
lookup-prepare_after lo k [] a = refl
lookup-prepare_after lo k ((j, e) ∷ t) a = ground (
  arith,
  lookup-prepare_after j k t a.1,
  lookup-Above j k (prepare_for_execve t) (prepare-Above j t a.1),
)

-- On a sorted table `execve` keeps exactly the entries without CLOEXEC, each under its number.
pub lookup-prepare_for_execve :
    (k : ℤ) (t : Table) → IsSorted t → lookup k (prepare_for_execve t) ≡ kept (lookup k t)
unfolding lookup prepare_for_execve
lookup-prepare_for_execve k [] a = refl
lookup-prepare_for_execve k ((j, e) ∷ t) a = ground (
  arith,
  lookup-prepare_after j k t a,
  lookup-Above j k (prepare_for_execve t) (prepare-Above j t a),
)
