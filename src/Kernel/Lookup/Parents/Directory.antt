-- ===== src/Kernel/Lookup/Parents/Directory.antt =====
-- The directory that `find_parent` of tee/kernel/src/fs/node.rs finds.
use mushroom.Prelude.{
  ℕ, suc, ◌<◌, ◌≤◌, ◌≡◌, ◌≢◌, refl, Bool, true, false, List, [], ◌∷◌, Option, none, some, inl, inr,
  Option-cases, arith,
}
use mushroom.Prelude.ErrorKind.{Result, err, ok}
use mushroom.Kernel.Ownership.{FileAccessContext}
use mushroom.Kernel.Path as Paths
use mushroom.Kernel.Path.Print.{print-segments}
use mushroom.Kernel.Path.First.{first-ne-empty}
use mushroom.Kernel.Lookup.INode.{Nodes, searchable}
use mushroom.Kernel.Lookup.{Lookup, ◌>>◌, done, follow_with, resolve_links, lookup_node_with_parent}
use mushroom.Kernel.Lookup.Ends.{Ends, follow-Ends, done-Ends, resolve-Ends, lookup-Ends}
use mushroom.Kernel.Lookup.Parents.{descend, fold_parents, parent_of, find_parent}

-- A lookup that ends, with a value that is as it should be, or with an error.
abbrev pub Gives : {A : Type 0} → (A → Type 0) → ℕ → Option (ℕ × Result A) → Type 0
Gives good limit none = ⊥
Gives good limit (some (left, err kind)) = left ≤ limit
Gives good limit (some (left, ok a)) = (left ≤ limit) × good a

raise-Gives :
    {B : Type 0}
    → (good : B → Type 0) (m l : ℕ) (o : Option (ℕ × Result B)) → m ≤ l
    → Gives good m o
    → Gives good l o
raise-Gives good m l none b g = g
raise-Gives good m l (some (left, err kind)) b g = omega (arith, b, g)
raise-Gives good m l (some (left, ok a)) b (g, x) = (omega (arith, b, g), x)

follow-Gives :
    {A B : Type 0}
    → (good : B → Type 0) (l : ℕ) (o : Option (ℕ × Result A)) (next : A → Lookup B) → Ends l o
    → ((a : A) (m : ℕ) → m ≤ l → Gives good m (next a m))
    → Gives good l (follow_with next o)
follow-Gives good l none next e h = e
follow-Gives good l (some (left, err kind)) next e h = e
follow-Gives good l (some (left, ok a)) next e h =
    raise-Gives good left l (next a left) e (h a left e)

abbrev pub Place : Type 0 → Type 0
Place N = N × Paths.PathSegment × Bool

-- A last segment is never the empty one.
abbrev pub IsFull : Paths.PathSegment → Type 0
IsFull s = s ≢ Paths.empty

module _ {N : Type 0} (nodes : Nodes N) (ctx : FileAccessContext) (fuel : ℕ) where
  descend-Ends :
      (d : N) (s : Paths.PathSegment) (l : ℕ) → l < fuel → Ends l (descend nodes ctx fuel d s l)
  unfolding descend
  descend-Ends d Paths.root l f = omega arith
  descend-Ends d Paths.dot_dot l f = omega arith
  descend-Ends d (Paths.file_name name) l f =
      follow-Ends l (done (nodes.get_node d name) l)
        (λ n. resolve_links nodes ctx (lookup_node_with_parent nodes ctx fuel) (suc fuel) n d)
        (done-Ends (nodes.get_node d name) l)
        (λ n m c.
          resolve-Ends nodes ctx (lookup_node_with_parent nodes ctx fuel) fuel
            (λ x p k b. lookup-Ends nodes ctx fuel x p k b) (suc fuel) n d m (omega (arith, c, f))
            (omega (arith, c, f)))
  descend-Ends d _ l f = omega arith

  abbrev pub Found : Place N → Type 0
  Found found = (searchable nodes ctx found.0 ≡ ok tt) × IsFull found.1

  fold-Gives :
      (segments : List Paths.PathSegment) (d : N) (last : Paths.PathSegment) (slash : Bool) (l : ℕ)
      → l < fuel
      → IsFull last
      → Gives (λ (p : Place N). IsFull p.1) l (fold_parents nodes ctx fuel segments d last slash l)
  unfolding fold_parents
  fold-Gives [] d last slash l f i = (omega arith, i)
  fold-Gives (Paths.empty ∷ segments) d last slash l f i = fold-Gives segments d last true l f i
  fold-Gives (s ∷ segments) d last slash l f i =
      let good = λ (p : Place N). IsFull p.1 in
      follow-Gives good l (descend nodes ctx fuel d last l)
        (λ n. done (searchable nodes ctx n) >> fold_parents nodes ctx fuel segments n s false)
        (descend-Ends d last l f)
        (λ n m c.
          follow-Gives good m (done (searchable nodes ctx n) m)
            (λ u. fold_parents nodes ctx fuel segments n s false)
            (done-Ends (searchable nodes ctx n) m)
            (λ u k e. fold-Gives segments n s false k (omega (arith, c, e, f)) (λ z. cc)))

  checked-Gives :
      (o : Option (ℕ × Result (Place N))) (l : ℕ)
      → Gives (λ (p : Place N). IsFull p.1) l o
      → Gives Found l
          (follow_with (λ found. done (searchable nodes ctx found.0) >> done (ok found)) o)
  checked-Gives none l g = g
  checked-Gives (some (left, err kind)) l g = g
  checked-Gives (some (left, ok found)) l (g, i) = check (searchable nodes ctx found.0) refl
    where
      check :
          (r : Result (Unit {0}))
          → searchable nodes ctx found.0 ≡ r
          → Gives Found l (follow_with (λ u. done (ok found)) (done r left))
      check (err kind) q = g
      check (ok u) q = (g, (q, i))

  -- A parent that is found is a directory that the context may search; the last segment is not the empty one.
  pub find_parent-Gives :
      (start : N) (path : List ℕ) (limit : ℕ)
      → limit < fuel
      → path ≢ []
      → Gives Found limit (find_parent nodes ctx fuel start path limit)
  unfolding find_parent parent_of
  find_parent-Gives start path l f h = elim (Option-cases (Paths.segments path)) [
    | inl q ↦ absurd (let (out, e, p) = print-segments path in cc)
    | inr (segments, q) ↦ rw (find_parent, q) (go segments q)
  ]
    where
      go :
          (segments : List Paths.PathSegment)
          → Paths.segments path ≡ some segments
          → Gives Found l (parent_of nodes ctx fuel start segments l)
      go [] q = omega arith
      go (s ∷ segments) q =
          checked-Gives (fold_parents nodes ctx fuel segments start s false l) l
            (fold-Gives segments start s false l f (first-ne-empty path s segments h q))
