-- ===== src/Kernel/Memory/Brk.antt =====
-- `is_free` and `set_brk_end` of memory.rs.
use mushroom.Prelude.{
  ℕ, ◌+◌, ◌-◌, ◌<◌, ◌≤◌, ◌≡◌, refl, sym, ◌∙◌, true, false, [], ◌∷◌, none, some, arith, inl, inr,
  leb, leb→le, length, max, Bool-cases, Option-cases, lt→ltb,
}
use mushroom.Prelude.ErrorKind.{Result, ok, err, no_mem}
use mushroom.Kernel.Memory.{
  Mapping, Mappings, last_at, page_of, find_page, is_free, State, set_brk_end, read_write,
}
use mushroom.Kernel.Memory.View.{Above, IsValid, view}
use mushroom.Kernel.Memory.Mmap.{IsClear, mapped, new_mapping, view-find_page, view-mmap_clear}

-- Below the last page the same entry is found, down to its key.
last_at_less : (end p : ℕ) (ms : Mappings) → p ≤ end → last_at end ms ≡ none → last_at p ms ≡ none
unfolding last_at
last_at_less end p [] h e = refl
last_at_less end p ((k, m) ∷ r) h e = elim (Option-cases (last_at end r)) [
  | inl q ↦ ground (arith, last_at_less end p r h q)
  | inr (d, q) ↦ absurd (ground arith)
]

last_at_same :
    (end p : ℕ) (ms : Mappings) (e : ℕ × Mapping)
    → p ≤ end
    → e.0 ≤ p
    → last_at end ms ≡ some e
    → last_at p ms ≡ some e
unfolding last_at
last_at_same end p [] e h l q = q
last_at_same end p ((k, m) ∷ r) e h l q = elim (Option-cases (last_at end r)) [
  | inl u ↦ ground (arith, last_at_less end p r h u)
  | inr (d, u) ↦ ground (arith, last_at_same end p r d h)
]

last_at_key : (p : ℕ) (ms : Mappings) (e : ℕ × Mapping) → last_at p ms ≡ some e → e.0 ≤ p
unfolding last_at
last_at_key p [] e h = cc
last_at_key p ((k, m) ∷ r) e h = elim (Option-cases (last_at p r)) [
  | inl q ↦ ground arith
  | inr (d, q) ↦ ground (arith, last_at_key p r d q)
]

last_at_pos :
    (lo p : ℕ) (ms : Mappings) (e : ℕ × Mapping)
    → Above lo ms
    → last_at p ms ≡ some e
    → 0 < length e.1.pages
unfolding last_at
last_at_pos lo p [] e a h = cc
last_at_pos lo p ((k, m) ∷ r) e a h = elim (Option-cases (last_at p r)) [
  | inl q ↦ ground arith
  | inr (d, q) ↦ ground (arith, last_at_pos (k + length m.pages) p r d a.2 q)
]

-- Whether the last mapping up to the end of the range ends before the range.
is_free-some :
    (addr len : ℕ) (ms : Mappings) (k : ℕ) (m : Mapping)
    → 0 < len
    → last_at (page_of (addr + (len - 1))) ms ≡ some (k, m)
    → is_free addr len ms ≡ leb (k + length m.pages) (page_of addr)
unfolding is_free
is_free-some addr len ms k m h e = rw (e, is_free) (ground arith)

-- On valid mappings and a range that is not empty, what `is_free` accepts is clear: no page of the
-- range is mapped.
pub is_free-IsClear :
    (addr len : ℕ) (ms : Mappings)
    → 0 < len
    → IsValid ms
    → is_free addr len ms ≡ true
    → IsClear (page_of addr) (page_of (addr + (len - 1))) ms
unfolding is_free find_page
is_free-IsClear addr len ms h v t p l u =
    elim (Option-cases (last_at (page_of (addr + (len - 1))) ms)) [
      | inl q ↦ absurd (ground arith)
      | inr ((k, m), q) ↦
          let below = leb→le _ _ (sym (is_free-some addr len ms k m h q) ∙ t) in
          ground (
            arith,
            below,
            view-find_page ms p v,
            last_at_same (page_of (addr + (len - 1))) p ms (k, m) u (omega arith) q,
          )
    ]

-- On valid mappings and a range that is not empty, what `is_free` refuses, with a mapping at or below the end of the range, has a mapped page in it.
pub not-is_free-mapped :
    (addr len : ℕ) (ms : Mappings) (k : ℕ) (m : Mapping)
    → 0 < len
    → IsValid ms
    → last_at (page_of (addr + (len - 1))) ms ≡ some (k, m)
    → is_free addr len ms ≡ false
    → ¬ IsClear (page_of addr) (page_of (addr + (len - 1))) ms
unfolding find_page
not-is_free-mapped addr len ms k m h v q t c =
    let p = max k (page_of addr) in
    let le = last_at_key (page_of (addr + (len - 1))) ms (k, m) q in
    ground (
      arith,
      le,
      last_at_pos 0 (page_of (addr + (len - 1))) ms (k, m) v q,
      is_free-some addr len ms k m h q,
      view-find_page ms p v,
      last_at_same (page_of (addr + (len - 1))) p ms (k, m) (omega arith) (omega arith) q,
      c p (omega arith) (omega arith),
    )

-- On valid mappings and a range that is not empty, without a mapping at or below the end of the range,
-- `is_free` refuses, although the range is
-- clear.
pub is_free_bottom :
    (addr len : ℕ) (ms : Mappings)
    → 0 < len
    → IsValid ms
    → last_at (page_of (addr + (len - 1))) ms ≡ none
    → (is_free addr len ms ≡ false) × IsClear (page_of addr) (page_of (addr + (len - 1))) ms
unfolding is_free find_page
is_free_bottom addr len ms h v q = (
  rw (q, is_free) (ground arith),
  λ p l u.
      ground (arith, view-find_page ms p v, last_at_less (page_of (addr + (len - 1))) p ms u q),
)

-- What growing the break promises.
abbrev pub Grows : ℕ → ℕ → State → Result (Unit {0}) × State → Type 0
Grows zero_backing brk_end s (err e, s') = (e ≡ no_mem) × (s' ≡ s)
Grows zero_backing brk_end s (ok _, s') =
    (s'.brk_end ≡ brk_end)
    × IsValid s'.mappings
    × IsClear (page_of s.brk_end) (page_of (s.brk_end + (brk_end - s.brk_end - 1))) s.mappings
    × ((p : ℕ)
        → view s'.mappings p
          ≡ mapped (page_of s.brk_end) (page_of (s.brk_end + (brk_end - s.brk_end - 1)))
              (new_mapping s.brk_end (brk_end - s.brk_end) read_write zero_backing 0 false
                s.mappings)
              s.mappings p)

-- On valid mappings growing the break either fails with ENOMEM and changes nothing, or maps zero pages, readable and
-- writable, over a range that was clear, and leaves every other page as it was.
pub set_brk_end-Grows :
    (zero_backing brk_end : ℕ) (s : State)
    → s.brk_end < brk_end
    → IsValid s.mappings
    → Grows zero_backing brk_end s (set_brk_end zero_backing brk_end s)
unfolding set_brk_end
set_brk_end-Grows z b s h v = elim (Bool-cases (is_free s.brk_end (b - s.brk_end) s.mappings)) [
  | inr q ↦ rw (lt→ltb s.brk_end b h, Grows, set_brk_end, q) (refl, refl)
  | inl q ↦
      let c = is_free-IsClear s.brk_end (b - s.brk_end) s.mappings (omega arith) v q in
      let out =
        view-mmap_clear s.brk_end (b - s.brk_end) read_write z 0 false s.mappings (omega arith) v
          c in
      rw (lt→ltb s.brk_end b h, Grows, set_brk_end, q) (refl, out.0, c, out.1)
]
