-- ===== src/Kernel/TmpFs/Moves/Calls.antt =====
-- The calls of tee/kernel/src/fs/node/tmpfs.rs that make, link and delete entries, on the tree of directories.
use mushroom.Prelude.{
  ℕ, ◌+◌, ◌<◌, ◌≡◌, ◌≢◌, refl, Bool, true, false, List, length, inl, inr, Bool-cases, Option-cases,
}
use mushroom.Prelude.ErrorKind.{err, ok, Result}
use mushroom.Kernel.Ownership.{Ownership}
use mushroom.Kernel.TmpFs.Names.{Name}
use mushroom.Kernel.TmpFs.{
  Entry, file, dir, symlink, get, insert, TmpFs, items_at, set_items, clone_entry, create_file,
  create_link, create_other,
}
use mushroom.Kernel.TmpFs.Moves.{
  delete_non_dir, delete_dir, entry_is_dir, entry_is_empty, hard_link, link_at, linkable, followed,
}
use mushroom.Kernel.TmpFs.Moves.Keep.{IsValid, insert-IsValid, removed-IsValid, place-IsValid}

module _ (is_dir is_empty : ℕ → Bool) where
  pub create_file-IsValid :
      (t : TmpFs) (d : ℕ) (n : Name) (own : Ownership)
      → d < length t.dirs
      → IsValid t
      → IsValid (create_file d n own t).0
  unfolding create_file
  create_file-IsValid t d n own h v = elim (Option-cases (get n (items_at t d))) [
    | inl q ↦ rw (create_file, q) (insert-IsValid t d n (file (length t.files)) h (λ k e. cc) v)
    | inr (e, q) ↦ rw (create_file, q) v
  ]

  pub create_link-IsValid :
      (t : TmpFs) (d : ℕ) (n : Name) (target : List ℕ) (new : Bool)
      → d < length t.dirs
      → IsValid t
      → IsValid (create_link d n target new t).0
  unfolding create_link
  create_link-IsValid t d n target new h v =
      let w =
        place-IsValid (record t { next_ino = t.next_ino + 1 }) d n (symlink t.next_ino target) h
          (λ k e. cc) v in
      elim (Option-cases (get n (items_at t d))) [
        | inl q ↦ rw (create_link, q) w
        | inr (e, q) ↦ elim (Bool-cases new) [
          | inl p ↦ rw (create_link, q, p) v
          | inr p ↦ rw (create_link, q, p) w
        ]
      ]

  pub create_other-IsValid :
      (make : ℕ → Entry) (t : TmpFs) (d : ℕ) (n : Name)
      → ((i k : ℕ) → make i ≢ dir k)
      → d < length t.dirs
      → IsValid t
      → IsValid (create_other make d n t).0
  unfolding create_other
  create_other-IsValid make t d n c h v =
      let w =
        place-IsValid (record t { next_ino = t.next_ino + 1 }) d n (make t.next_ino) h
          (c t.next_ino) v in
      elim (Option-cases (get n (items_at t d))) [
        | inl q ↦ rw (create_other, q) w
        | inr (e, q) ↦ rw (create_other, q) v
      ]

  pub delete_non_dir-IsValid :
      (t : TmpFs) (d : ℕ) (n : Name)
      → d < length t.dirs
      → IsValid t
      → IsValid (delete_non_dir is_dir d n t).0
  unfolding delete_non_dir
  delete_non_dir-IsValid t d n h v = elim (Option-cases (get n (items_at t d))) [
    | inl q ↦ rw (delete_non_dir, q) v
    | inr (e, q) ↦ elim (Bool-cases (entry_is_dir is_dir e)) [
      | inl p ↦ rw (delete_non_dir, q, p) v
      | inr p ↦ rw (delete_non_dir, q, p) (removed-IsValid t d n e h v)
    ]
  ]

  pub delete_dir-IsValid :
      (t : TmpFs) (d : ℕ) (n : Name)
      → d < length t.dirs
      → IsValid t
      → IsValid (delete_dir is_dir is_empty d n t).0
  unfolding delete_dir
  delete_dir-IsValid t d n h v = elim (Option-cases (get n (items_at t d))) [
    | inl q ↦ rw (delete_dir, q) v
    | inr (e, q) ↦ elim (Bool-cases (entry_is_dir is_dir e)) [
      | inl p ↦ elim (Bool-cases (entry_is_empty is_empty t e)) [
        | inl s ↦ rw (delete_dir, q, p, s) (removed-IsValid t d n e h v)
        | inr s ↦ rw (delete_dir, q, p, s) v
      ]
      | inr p ↦ rw (delete_dir, q, p) v
    ]
  ]

  clone_entry-IsValid : (t : TmpFs) (e : Entry) → IsValid t → IsValid (clone_entry e t)
  clone_entry-IsValid t (file f) v = v
  clone_entry-IsValid t e v = v

  linked-IsValid :
      (t : TmpFs) (d : ℕ) (n : Name) (e : Entry)
      → linkable e ≡ ok tt
      → d < length t.dirs
      → IsValid t
      → IsValid (set_items d (insert n e (items_at t d)) (clone_entry e t))
  linked-IsValid t d n (dir k) c h v = cc
  linked-IsValid t d n (file f) c h v =
      insert-IsValid (clone_entry (file f) t) d n (file f) h (λ k e. cc) v
  linked-IsValid t d n e c h v = insert-IsValid t d n e h (λ k x. cc) v

  link_at-IsValid :
      (t : TmpFs) (d : ℕ) (n : Name) (e : Entry)
      → d < length t.dirs
      → IsValid t
      → IsValid (link_at d n e t).0
  link_at-IsValid t d n e h v = go (linkable e) refl
    where
      go : (r : Result (Unit {0})) → linkable e ≡ r → IsValid (link_at d n e t).0
      go (err kind) q = rw (link_at, q) v
      go (ok u) q = elim (Option-cases (get n (items_at t d))) [
        | inl p ↦ rw (link_at, q, p) (linked-IsValid t d n e q h v)
        | inr (r, p) ↦ rw (link_at, q, p) v
      ]

  followed-IsValid :
      (t : TmpFs) (follow : Bool) (d : ℕ) (n : Name) (e : Entry)
      → d < length t.dirs
      → IsValid t
      → IsValid (followed follow d n e t).0
  followed-IsValid t true d n (symlink i target) h v = v
  followed-IsValid t true d n e h v = link_at-IsValid t d n e h v
  followed-IsValid t false d n e h v = link_at-IsValid t d n e h v

  pub hard_link-IsValid :
      (t : TmpFs) (d : ℕ) (old : Name) (follow : Bool) (d' : ℕ) (new : Name)
      → d' < length t.dirs
      → IsValid t
      → IsValid (hard_link d old follow d' new t).0
  unfolding hard_link
  hard_link-IsValid t d old follow d' new h v = elim (Option-cases (get old (items_at t d))) [
    | inl q ↦ rw (hard_link, q) v
    | inr (e, q) ↦ rw (hard_link, q) (followed-IsValid t follow d' new e h v)
  ]
