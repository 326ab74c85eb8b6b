-- ===== src/Kernel/FdTable/Free.antt =====
-- The choice of a free number in fd.rs.
use mushroom.Prelude.{
  ℕ, ◌+◌, ◌^◌, ◌<◌, ◌≤◌, ◌≡◌, refl, Bool, true, false, ◌||◌, List, [], ◌∷◌, Option, none, some,
  arith, if◌then◌else◌, ◌⊎◌, Option-cases, Bool-cases, inl, inr, ◌∙◌, sym,
}
use mushroom.Prelude.Int.{
  ℤ, pos, ltb_ℤ, eqb_ℤ, pos_part, ◌<ℤ◌, as_i32, as_i32_large, pos_part-as_i32,
}
use mushroom.Prelude.ErrorKind.{Result, ok, err, inval, mfile}
use mushroom.Kernel.FdTable.{
  Entry, Table, keys, lookup, skip_below, find_gap, find_free_fd_num, insert_after,
}
use mushroom.Kernel.FdTable.Lookup.{Above, IsSorted, lookup-put, put-IsSorted}

abbrev pub has : ℤ → List ℤ → Bool
has k [] = false
has k (j ∷ ks) = eqb_ℤ k j || has k ks

abbrev KeysAbove : ℤ → List ℤ → Type 0
KeysAbove lo [] = Unit
KeysAbove lo (k ∷ ks) = (lo <ℤ k) × KeysAbove k ks

-- Ascending keys that start at a counter or above it.
abbrev KeysFrom : ℕ → List ℤ → Type 0
KeysFrom c [] = Unit
KeysFrom c (k ∷ ks) = (¬ (k <ℤ pos c)) × KeysAbove k ks

has-KeysAbove : (lo k : ℤ) (ks : List ℤ) → KeysAbove lo ks → ¬ (lo <ℤ k) → has k ks ≡ false
has-KeysAbove lo k [] a h = refl
has-KeysAbove lo k (j ∷ ks) a h = ground (arith, has-KeysAbove j k ks a.1)

KeysFrom-suc : (c : ℕ) (k : ℤ) (ks : List ℤ) → KeysAbove k ks → ¬ (k <ℤ pos c) → KeysFrom (c + 1) ks
KeysFrom-suc c k [] a h = tt
KeysFrom-suc c k (j ∷ ks) a h = (λ l. omega arith, a.1)

-- The counter that is found is the lowest that is no key; without one all are keys.
find_gap-some :
    (ks : List ℤ) (c limit n : ℕ)
    → KeysFrom c ks
    → find_gap ks c limit ≡ some n
    → (c ≤ n) × (n < limit) × (has (pos n) ks ≡ false)
unfolding find_gap
find_gap-some [] c limit n a e = ground arith
find_gap-some (k ∷ ks) c limit n a e = ground (
  arith,
  find_gap-some ks (c + 1) limit n (KeysFrom-suc c k ks a.1 a.0),
  has-KeysAbove k (pos c) ks a.1,
)

find_gap_below :
    (ks : List ℤ) (c limit n d : ℕ)
    → KeysFrom c ks
    → find_gap ks c limit ≡ some n
    → c ≤ d
    → d < n
    → has (pos d) ks ≡ true
unfolding find_gap
find_gap_below [] c limit n d a e h l = absurd (ground arith)
find_gap_below (k ∷ ks) c limit n d a e h l =
    ground (arith, find_gap_below ks (c + 1) limit n d (KeysFrom-suc c k ks a.1 a.0))

find_gap-none :
    (ks : List ℤ) (c limit d : ℕ)
    → KeysFrom c ks
    → find_gap ks c limit ≡ none
    → c ≤ d
    → d < limit
    → has (pos d) ks ≡ true
unfolding find_gap
find_gap-none [] c limit d a e h l = absurd (ground arith)
find_gap-none (k ∷ ks) c limit d a e h l =
    ground (arith, find_gap-none ks (c + 1) limit d (KeysFrom-suc c k ks a.1 a.0))

abbrev KeysSorted : List ℤ → Type 0
KeysSorted [] = Unit
KeysSorted (k ∷ ks) = KeysAbove k ks

KeysSorted-tail : (k : ℤ) (ks : List ℤ) → KeysAbove k ks → KeysSorted ks
KeysSorted-tail k [] a = tt
KeysSorted-tail k (j ∷ ks) a = a.1

skip_below-KeysFrom : (m : ℕ) (ks : List ℤ) → KeysSorted ks → KeysFrom m (skip_below (pos m) ks)
unfolding skip_below
skip_below-KeysFrom m [] a = tt
skip_below-KeysFrom m (k ∷ ks) a = ground (arith, skip_below-KeysFrom m ks (KeysSorted-tail k ks a))

has-skip_below :
    (m d : ℕ) (ks : List ℤ) → m ≤ d → has (pos d) (skip_below (pos m) ks) ≡ has (pos d) ks
unfolding skip_below
has-skip_below m d [] h = refl
has-skip_below m d (k ∷ ks) h = ground (arith, has-skip_below m d ks)

-- Whether a number is open.
abbrev pub is_open : Option Entry → Bool
is_open none = false
is_open (some _) = true

has-keys : (k : ℤ) (t : Table) → has k (keys t) ≡ is_open (lookup k t)
unfolding lookup
has-keys k [] = refl
has-keys k ((j, e) ∷ t) = ground (arith, has-keys k t)

keys-KeysAbove : (lo : ℤ) (t : Table) → Above lo t → KeysAbove lo (keys t)
keys-KeysAbove lo [] a = tt
keys-KeysAbove lo ((k, e) ∷ t) a = (a.0, keys-KeysAbove k t a.1)

keys-KeysSorted : (t : Table) → IsSorted t → KeysSorted (keys t)
keys-KeysSorted [] a = tt
keys-KeysSorted ((k, e) ∷ t) a = keys-KeysAbove k t a

-- What `insert_after` promises of the limit read as an i32: the lowest number from the minimum on that
-- is not open, below that limit, so that it fits an i32 and is below the limit itself, and the table with
-- the entry there and otherwise as it was; EMFILE only if every number from the minimum up to that limit
-- is open; EINVAL only for a minimum that is not below it.
abbrev pub Inserts : Table → ℤ → Entry → ℕ → Result (ℕ × Table) → Type 0
Inserts t min e limit (err k) =
    ((k ≡ inval) × (¬ (min <ℤ as_i32 limit)))
    ⊎ ((k ≡ mfile)
        × (min <ℤ as_i32 limit)
        × ((d : ℕ) → pos_part min ≤ d → pos d <ℤ as_i32 limit → is_open (lookup (pos d) t) ≡ true))
Inserts t min e limit (ok (n, t')) =
    (pos_part min ≤ n)
    × (pos n <ℤ as_i32 limit)
    × (n < 2 ^ 31)
    × (n < limit)
    × (lookup (pos n) t ≡ none)
    × ((d : ℕ) → pos_part min ≤ d → d < n → is_open (lookup (pos d) t) ≡ true)
    × IsSorted t'
    × ((j : ℤ) → lookup j t' ≡ (if eqb_ℤ j (pos n) then some e else lookup j t))

module _ (t : Table) (s : IsSorted t) (min limit : ℕ) where
  rest : List ℤ
  rest = skip_below (pos min) (keys t)

  from : KeysFrom min rest
  unfolding rest
  from = skip_below-KeysFrom min (keys t) (keys-KeysSorted t s)

  open_at : (d : ℕ) → min ≤ d → has (pos d) rest ≡ is_open (lookup (pos d) t)
  unfolding rest
  open_at d h = has-skip_below min d (keys t) h ∙ has-keys (pos d) t

closed : (o : Option Entry) → is_open o ≡ false → o ≡ none
closed none h = refl
closed (some e) h = cc

-- A number below the positive part is below the integer.
below_part : (n : ℕ) (i : ℤ) → n < pos_part i → pos n <ℤ i
below_part n i h = ground arith

part_below : (n : ℕ) (i : ℤ) → pos n <ℤ i → n < pos_part i
part_below n i h = ground arith

-- On a sorted table, with the limit read as an i32, which is the limit itself below 2 ^ 31 and negative
-- from there on: `insert_after` gives the lowest number from the minimum on that is not open, below that
-- limit, and the sorted table with the entry there and otherwise as it was; it fails with EMFILE only if
-- every number from the minimum up to that limit is open, and with EINVAL only for a minimum that is not
-- below that limit.
pub insert_after-Inserts :
    (t : Table) (min : ℤ) (e : Entry) (limit : ℕ)
    → IsSorted t
    → Inserts t min e limit (insert_after t min e limit)
unfolding insert_after find_free_fd_num rest
insert_after-Inserts t min e limit s = elim (Bool-cases (ltb_ℤ min (as_i32 limit))) [
  | inr p ↦ rw p (inl (refl, ground arith))
  | inl p ↦ elim (Option-cases (find_gap (rest t s m bound) m bound)) [
    | inl q ↦
        rw (p, q)
          (inr (
            refl,
            ground arith,
            λ d h l.
                sym (open_at t s m bound d h)
                ∙ find_gap-none (rest t s m bound) m bound d (from t s m bound) q h
                    (part_below d (as_i32 limit) l),
          ))
    | inr (n, q) ↦
        let (low, high, new) = find_gap-some (rest t s m bound) m bound n (from t s m bound) q in
        let (le, lt) = pos_part-as_i32 limit in
        rw (p, q)
          (
            low,
            below_part n (as_i32 limit) high,
            omega (arith, high, lt),
            omega (arith, high, le),
            closed _ (sym (open_at t s m bound n low) ∙ new),
            λ d h l.
                sym (open_at t s m bound d h)
                ∙ find_gap_below (rest t s m bound) m bound n d (from t s m bound) q h l,
            put-IsSorted (pos n) e t s,
            λ j. lookup-put (pos n) j e t,
          )
  ]
]
  where
    m : ℕ
    m = pos_part min

    bound : ℕ
    bound = pos_part (as_i32 limit)

-- With a limit from 2 ^ 31 on, every insertion from a number on that is not negative is refused.
pub insert_after_large :
    (t : Table) (min : ℕ) (e : Entry) (limit : ℕ)
    → 2 ^ 31 ≤ limit
    → limit < 2 ^ 32
    → insert_after t (pos min) e limit ≡ err inval
unfolding insert_after find_free_fd_num
insert_after_large t min e limit h l =
    let above : ltb_ℤ (pos min) (as_i32 limit) ≡ false =
      rw (as_i32_large limit h l) (ground arith) in
    rw (insert_after, find_free_fd_num, above) refl
