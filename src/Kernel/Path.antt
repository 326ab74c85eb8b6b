-- ===== src/Kernel/Path.antt =====
-- tee/kernel/src/fs/path.rs: paths as lists of bytes, and their segments.
pub mod Print
pub mod First
use mathlib.Core.Option
use mushroom.Prelude.{
  ℕ, zero, suc, ◌+◌, Bool, true, false, not, ◌&&◌, List, [], ◌∷◌, ◌++◌, Option, none, some, length,
  take, drop, ltb, ◌==◌, if◌then◌else◌,
}
use mushroom.Prelude.ErrorKind.{Result, ok, err, no_ent, name_too_long, inval, ensure, ◌>>=◌, ◌>>◌}
use mushroom.Kernel.StreamBuffer.{is_empty}

-- `PATH_MAX`, and the bytes of `/` and `.`
abbrev pub path_max : ℕ
path_max = 0x1000

abbrev pub slash : ℕ
slash = 47

abbrev pub full_stop : ℕ
full_stop = 46

-- `PathSegment`
pub data PathSegment : Type 0 where
  root empty dot dot_dot : PathSegment
  file_name : List ℕ → PathSegment

-- `Path::new`
pub new : List ℕ → Result (List ℕ)
new path = do
  ensure (not (is_empty path)) no_ent
  ensure (ltb (length path) path_max) name_too_long
  ok path

-- The match of `segments` on the bytes of a segment; `FileName::new` refuses only what it has matched
-- before.
pub segment_of : List ℕ → PathSegment
segment_of [] = empty
segment_of (a ∷ []) = if a == full_stop then dot else file_name (a ∷ [])
segment_of (a ∷ b ∷ []) =
    if (a == full_stop) && (b == full_stop) then dot_dot else file_name (a ∷ b ∷ [])
segment_of (a ∷ b ∷ c ∷ r) = file_name (a ∷ b ∷ c ∷ r)

-- `FileName::new`
pub file_name_new : List ℕ → Result (List ℕ)
file_name_new bytes = elim (segment_of bytes) [ file_name name ↦ ok name | _ ↦ err inval ]

-- `iter().position(|&b| b == b'/')`
pub position : List ℕ → Option ℕ
position [] = none
position (b ∷ bs) = let rest = position bs in if b == slash then some 0 else Option.map suc rest

abbrev pub starts_with_slash : List ℕ → Bool
starts_with_slash [] = false
starts_with_slash (b ∷ bs) = b == slash

abbrev pub ends_with_slash : List ℕ → Bool
ends_with_slash [] = false
ends_with_slash (b ∷ []) = b == slash
ends_with_slash (b ∷ c ∷ bs) = ends_with_slash (c ∷ bs)

-- One call of the iterator's closure on the bytes left: the segment, and the bytes left then.
pub next_segment : Bool → List ℕ → PathSegment × Option (List ℕ)
next_segment first bytes =
    if starts_with_slash bytes
    then (if first then root else empty, some (drop 1 bytes))
    else elim (position bytes) [
      | some next ↦ (segment_of (take next bytes), some (drop (suc next) bytes))
      | none ↦ (segment_of bytes, none)
    ]

-- All that the iterator gives, on fuel; `none` if the fuel runs out.
pub collect : ℕ → Bool → Option (List ℕ) → Option (List PathSegment)
collect fuel first none = some []
collect zero first (some bytes) = none
collect (suc fuel) first (some bytes) =
    let (segment, rest) = next_segment first bytes in
    Option.map (λ segments. segment ∷ segments) (collect fuel false rest)

-- `Path::segments`
pub segments : List ℕ → Option (List PathSegment)
segments path = collect (length path + 1) true (some path)

-- `Path::is_absolute` and `Path::has_trailing_slash`
pub is_absolute : List ℕ → Bool
is_absolute path = starts_with_slash path

pub has_trailing_slash : List ℕ → Bool
has_trailing_slash path = ends_with_slash path

-- `Path::join_segment`
pub join_segment : List ℕ → List ℕ → Result (List ℕ)
join_segment path name =
    let bytes = (if ends_with_slash path then path else path ++ slash ∷ []) ++ name in
    do ensure (ltb (length bytes) path_max) name_too_long; ok bytes
