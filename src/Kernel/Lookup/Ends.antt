-- ===== src/Kernel/Lookup/Ends.antt =====
-- That lookups of tee/kernel/src/fs/node.rs end: every symlink that is followed lowers the limit.
use mushroom.Prelude.{
  ℕ, zero, suc, ◌<◌, ◌≤◌, List, [], ◌∷◌, Option, none, some, inl, inr, Option-cases, arith,
}
use mushroom.Prelude.ErrorKind.{Result, err, ok}
use mushroom.Kernel.Ownership.{FileAccessContext}
use mushroom.Kernel.Path as Paths
use mushroom.Kernel.Path.Print.{print-segments}
use mushroom.Kernel.Lookup.INode.{Link, no_link, target, jump, Nodes, enter}
use mushroom.Kernel.Lookup.{
  Lookup, ◌>>=◌, done, follow_with, follow_symlink, try_resolve_link, resolve_links, walk_segments,
  lookup_node_with_parent,
}

-- A step ends, and the limit is not raised.
abbrev pub Ends : {A : Type 0} → ℕ → Option (ℕ × Result A) → Type 0
Ends limit none = ⊥
Ends limit (some (left, r)) = left ≤ limit

-- And it is lowered by a symlink that is followed.
abbrev pub Lowers : {A : Type 0} → ℕ → Option (ℕ × Result (Option A)) → Type 0
Lowers limit none = ⊥
Lowers limit (some (left, err kind)) = left ≤ limit
Lowers limit (some (left, ok none)) = left ≤ limit
Lowers limit (some (left, ok (some a))) = left < limit

pub weaken-Ends : {A : Type 0} → (l m : ℕ) (o : Option (ℕ × Result A)) → l ≤ m → Ends l o → Ends m o
weaken-Ends l m none h e = e
weaken-Ends l m (some (left, r)) h e = omega (arith, h, e)

pub follow-Ends :
    {A B : Type 0}
    → (l : ℕ) (o : Option (ℕ × Result A)) (next : A → Lookup B) → Ends l o
    → ((a : A) (m : ℕ) → m ≤ l → Ends m (next a m))
    → Ends l (follow_with next o)
follow-Ends l none next e h = e
follow-Ends l (some (left, err kind)) next e h = e
follow-Ends l (some (left, ok a)) next e h = weaken-Ends left l (next a left) e (h a left e)

pub done-Ends : {A : Type 0} → (r : Result A) (l : ℕ) → Ends l (done r l)
done-Ends r l = omega arith

module _ {N : Type 0} (nodes : Nodes N) (ctx : FileAccessContext) where
  module _ (look : N → List ℕ → Lookup (N × N)) (most : ℕ)
      (h : (n : N) (p : List ℕ) (l : ℕ) → l < most → Ends l (look n p l)) where
    found-Lowers :
        (o : Option (ℕ × Result (N × N))) (l : ℕ)
        → Ends l o
        → Lowers (suc l) (follow_with (λ next. done (ok (some next))) o)
    found-Lowers none l e = e
    found-Lowers (some (left, err kind)) l e = omega (arith, e)
    found-Lowers (some (left, ok a)) l e = omega (arith, e)

    try-Lowers :
        (k : Link N) (start : N) (l : ℕ)
        → l ≤ most
        → Lowers l (try_resolve_link nodes ctx look k start l)
    unfolding try_resolve_link follow_symlink
    try-Lowers no_link start l b = omega arith
    try-Lowers (target path) start zero b = omega arith
    try-Lowers (target (err kind)) start (suc l) b = omega arith
    try-Lowers (target (ok p)) start (suc l) b =
        found-Lowers (look start p l) l (h start p l (omega (arith, b)))
    try-Lowers (jump node) start zero b = omega arith
    try-Lowers (jump (err kind)) start (suc l) b = omega arith
    try-Lowers (jump (ok n)) start (suc l) b = omega arith

    pub resolve-Ends :
        (fuel : ℕ) (node start : N) (l : ℕ)
        → l < fuel
        → l ≤ most
        → Ends l (resolve_links nodes ctx look fuel node start l)
    unfolding resolve_links
    resolve-Ends zero node start l f b = absurd (omega (arith, f))
    resolve-Ends (suc fuel) node start l f b =
        go (λ s n m c. resolve-Ends fuel n s m (omega (arith, c, f)) (omega (arith, c, b)))
          (try_resolve_link nodes ctx look (nodes.link node) start l)
          (try-Lowers (nodes.link node) start l b)
      where
        go :
            ((s n : N) (m : ℕ) → m < l → Ends m (resolve_links nodes ctx look fuel n s m))
            → (o : Option (ℕ × Result (Option (N × N)))) → Lowers l o
            → Ends l (
                follow_with
                  (λ r. elim r [
                    | none ↦ done (ok node)
                    | some (s, n) ↦ resolve_links nodes ctx look fuel n s
                  ])
                  o)
        go rest none e = e
        go rest (some (left, err kind)) e = e
        go rest (some (left, ok none)) e = e
        go rest (some (left, ok (some (s, n)))) e =
            weaken-Ends left l (resolve_links nodes ctx look fuel n s left) (omega (arith, e))
              (rest s n left e)

  walk-Ends :
      (resolve : N → N → Lookup N) (most : ℕ)
      → ((n s : N) (l : ℕ) → l ≤ most → Ends l (resolve n s l))
      → (segments : List Paths.PathSegment) (start node : N) (l : ℕ) → l ≤ most
      → Ends l (walk_segments nodes ctx resolve segments start node l)
  unfolding walk_segments
  walk-Ends resolve most h [] start node l b = omega arith
  walk-Ends resolve most h (s ∷ segments) start node l b =
      follow-Ends l (resolve node start l)
        (λ n. done (enter nodes ctx start s n) >>= λ next.
          walk_segments nodes ctx resolve segments next.0 next.1)
        (h node start l b)
        (λ n m c.
          follow-Ends m (done (enter nodes ctx start s n) m)
            (λ next. walk_segments nodes ctx resolve segments next.0 next.1)
            (done-Ends (enter nodes ctx start s n) m)
            (λ next k d.
              walk-Ends resolve most h segments next.0 next.1 k (omega (arith, b, c, d))))

  -- With fuel above the limit of symlinks a lookup ends, whatever the nodes answer, and does not raise the limit.
  pub lookup-Ends :
      (fuel : ℕ) (start : N) (path : List ℕ) (limit : ℕ)
      → limit < fuel
      → Ends limit (lookup_node_with_parent nodes ctx fuel start path limit)
  unfolding lookup_node_with_parent
  lookup-Ends zero start path l f = absurd (omega (arith, f))
  lookup-Ends (suc fuel) start path l f = elim (Option-cases (Paths.segments path)) [
    | inl q ↦ absurd (let (out, e, p) = print-segments path in cc)
    | inr (segments, q) ↦
        rw (lookup_node_with_parent, q)
          (walk-Ends (resolve_links nodes ctx (lookup_node_with_parent nodes ctx fuel) (suc fuel))
            fuel
            (λ n s m b.
              resolve-Ends (lookup_node_with_parent nodes ctx fuel) fuel
                (λ x p k c. lookup-Ends fuel x p k c) (suc fuel) n s m (omega (arith, b)) b)
            segments start start l (omega (arith, f)))
  ]
