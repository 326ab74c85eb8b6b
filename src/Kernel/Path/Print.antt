-- ===== src/Kernel/Path/Print.antt =====
-- tee/kernel/src/fs/path.rs: the segments of a path, printed, are the path.
use mathlib.Core.Option
use mushroom.Prelude.{
  ℕ, zero, suc, ◌+◌, ◌<◌, ◌≡◌, refl, ap, ◌∙◌, Bool, true, false, List, [], ◌∷◌, ◌++◌, Option, some,
  length, take, drop, length-drop, Bool-cases, Option-cases, inl, inr, arith, if◌then◌else◌,
}
use mushroom.Kernel.Path.{
  PathSegment, root, empty, dot, dot_dot, file_name, slash, full_stop, segment_of, position,
  starts_with_slash, next_segment, collect, segments,
}

-- The bytes of a segment. The root and an empty segment have none.
abbrev pub text : PathSegment → List ℕ
text root = []
text empty = []
text dot = full_stop ∷ []
text dot_dot = full_stop ∷ full_stop ∷ []
text (file_name name) = name

-- Segments with a slash between each and the next.
abbrev pub print : List PathSegment → List ℕ
print [] = []
print (s ∷ []) = text s
print (s ∷ t ∷ r) = text s ++ slash ∷ print (t ∷ r)

text-segment_of : (bs : List ℕ) → text (segment_of bs) ≡ bs
unfolding segment_of
text-segment_of [] = refl
text-segment_of (a ∷ []) = ground arith
text-segment_of (a ∷ b ∷ []) = ground arith
text-segment_of (a ∷ b ∷ c ∷ r) = refl

position_split :
    (bs : List ℕ) (n : ℕ)
    → position bs ≡ some n
    → (n < length bs) × (take n bs ++ slash ∷ drop (suc n) bs ≡ bs)
unfolding position
position_split [] n h = ground (arith, h)
position_split (b ∷ bs) zero h = ground (arith, h)
position_split (b ∷ bs) (suc n) h = ground (arith, h, position_split bs n)

-- A list of segments, not empty, that prints as the bytes.
record Printed (bs : List ℕ) (out : Option (List PathSegment)) : Type 0 where
  head : PathSegment
  tail : List PathSegment
  result : out ≡ some (head ∷ tail)
  printed : print (head ∷ tail) ≡ bs

Printed-cons :
    (s : PathSegment) (bs rest : List ℕ) (out : Option (List PathSegment))
    → text s ++ slash ∷ rest ≡ bs
    → Printed rest out
    → Printed bs (Option.map (λ segments. s ∷ segments) out)
Printed-cons s bs rest out e p = record {
  head = s;
  tail = p.head ∷ p.tail;
  result = ap (Option.map (λ segments. s ∷ segments)) p.result;
  printed = ap (λ z. text s ++ slash ∷ z) p.printed ∙ e;
}

starts_split :
    (bs : List ℕ) → starts_with_slash bs ≡ true → (slash ∷ drop 1 bs ≡ bs) × (0 < length bs)
starts_split [] h = ground (arith, h)
starts_split (b ∷ bs) h = ground (arith, h)

text_of_separator : (first : Bool) (bs : List ℕ) → text (if first then root else empty) ++ bs ≡ bs
text_of_separator true bs = refl
text_of_separator false bs = refl

collect-Printed :
    (fuel : ℕ) (first : Bool) (bs : List ℕ)
    → length bs < fuel
    → Printed bs (collect fuel first (some bs))
unfolding collect next_segment
collect-Printed zero first bs h = absurd (omega arith)
collect-Printed (suc fuel) first bs h = elim (Bool-cases (starts_with_slash bs)) [
  | inl p ↦
      let (e, l) = starts_split bs p in
      rw (p, collect, next_segment)
        (Printed-cons (if first then root else empty) bs (drop 1 bs) _
          (text_of_separator first _ ∙ e)
          (collect-Printed fuel false (drop 1 bs) (omega (arith, length-drop 1 bs))))
  | inr p ↦ elim (Option-cases (position bs)) [
    | inl q ↦
        rw (p, q, collect, next_segment)
          (record { head = segment_of bs; tail = []; result = refl; printed = text-segment_of bs })
    | inr (n, q) ↦
        let (l, e) = position_split bs n q in
        rw (p, q, collect, next_segment)
          (Printed-cons (segment_of (take n bs)) bs (drop (suc n) bs) _
            (ap (λ z. z ++ slash ∷ drop (suc n) bs) (text-segment_of (take n bs)) ∙ e)
            (collect-Printed fuel false (drop (suc n) bs) (omega (arith, length-drop (suc n) bs))))
  ]
]

-- The iterator ends, within one step more than the path has bytes, and the segments that it gives
-- print as the path.
pub print-segments :
    (path : List ℕ) → (out : List PathSegment) × (segments path ≡ some out) × (print out ≡ path)
unfolding segments
print-segments path =
    let p = collect-Printed (length path + 1) true path (omega arith) in
    (p.head ∷ p.tail, p.result, p.printed)
