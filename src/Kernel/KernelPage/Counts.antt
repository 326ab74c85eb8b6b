-- ===== src/Kernel/KernelPage/Counts.antt =====
-- How many pages of tee/kernel/src/memory/page/kernel.rs have an allocation.
use mushroom.Prelude.{
  ℕ, zero, suc, ◌+◌, ◌≤◌, ◌<◌, ◌≡◌, ◌≢◌, refl, ap, not, ◌&&◌, List, [], ◌∷◌, ◌++◌, length, get_or,
  set, ◌==◌, if◌then◌else◌, arith,
}
use mushroom.Kernel.KernelPage.{KernelPage, zeroed}

-- A page as one without a counter at an address, and as one with.
abbrev pub owns : KernelPage → ℕ → ℕ
owns h a = if not h.counted && (h.address == a) then 1 else 0

abbrev pub shares : KernelPage → ℕ → ℕ
shares h a = if h.counted && (h.address == a) then 1 else 0

abbrev pub owners : List KernelPage → ℕ → ℕ
owners [] a = 0
owners (h ∷ hs) a = owns h a + owners hs a

abbrev pub sharers : List KernelPage → ℕ → ℕ
sharers [] a = 0
sharers (h ∷ hs) a = shares h a + sharers hs a

pub owners-append :
    (hs : List KernelPage) (h : KernelPage) (a : ℕ)
    → owners (hs ++ (h ∷ [])) a ≡ owners hs a + owns h a
owners-append [] h a = omega arith
owners-append (x ∷ hs) h a = omega (arith, owners-append hs h a)

pub sharers-append :
    (hs : List KernelPage) (h : KernelPage) (a : ℕ)
    → sharers (hs ++ (h ∷ [])) a ≡ sharers hs a + shares h a
sharers-append [] h a = omega arith
sharers-append (x ∷ hs) h a = omega (arith, sharers-append hs h a)

pub owners-set :
    (hs : List KernelPage) (k : ℕ) (h : KernelPage) (a : ℕ)
    → k < length hs
    → owners (set hs k h) a + owns (get_or hs k zeroed) a ≡ owners hs a + owns h a
owners-set [] k h a i = absurd (omega arith)
owners-set (x ∷ hs) zero h a i = omega arith
owners-set (x ∷ hs) (suc k) h a i = omega (arith, owners-set hs k h a (omega arith))

pub sharers-set :
    (hs : List KernelPage) (k : ℕ) (h : KernelPage) (a : ℕ)
    → k < length hs
    → sharers (set hs k h) a + shares (get_or hs k zeroed) a ≡ sharers hs a + shares h a
sharers-set [] k h a i = absurd (omega arith)
sharers-set (x ∷ hs) zero h a i = omega arith
sharers-set (x ∷ hs) (suc k) h a i = omega (arith, sharers-set hs k h a (omega arith))

-- A page is counted where it is, and two pages are counted twice.
pub counts-page :
    (hs : List KernelPage) (k : ℕ)
    → k < length hs
    → (owns (get_or hs k zeroed) (get_or hs k zeroed).address
        ≤ owners hs (get_or hs k zeroed).address)
      × (shares (get_or hs k zeroed) (get_or hs k zeroed).address
          ≤ sharers hs (get_or hs k zeroed).address)
counts-page [] k i = absurd (omega arith)
counts-page (x ∷ hs) zero i = (omega arith, omega arith)
counts-page (x ∷ hs) (suc k) i =
    let (a, b) = counts-page hs k (omega arith) in (omega (arith, a), omega (arith, b))

has_one :
    (hs : List KernelPage) (k a : ℕ)
    → k < length hs
    → (get_or hs k zeroed).address ≡ a
    → 1 ≤ owners hs a + sharers hs a
has_one [] k a i e = absurd (omega arith)
has_one (x ∷ hs) zero a i e = ground (arith, e)
has_one (x ∷ hs) (suc k) a i e = omega (arith, has_one hs k a (omega arith) e)

pub has_two :
    (hs : List KernelPage) (j k a : ℕ)
    → j < length hs
    → k < length hs
    → j ≢ k
    → (get_or hs j zeroed).address ≡ a
    → (get_or hs k zeroed).address ≡ a
    → 2 ≤ owners hs a + sharers hs a
has_two [] j k a i l n d e = absurd (omega arith)
has_two (x ∷ hs) zero zero a i l n d e = absurd (n refl)
has_two (x ∷ hs) zero (suc k) a i l n d e = ground (arith, has_one hs k a (omega arith) e, d)
has_two (x ∷ hs) (suc j) zero a i l n d e = ground (arith, has_one hs j a (omega arith) d, e)
has_two (x ∷ hs) (suc j) (suc k) a i l n d e =
    omega (arith, has_two hs j k a (omega arith) (omega arith) (λ m. n (ap suc m)) d e)
