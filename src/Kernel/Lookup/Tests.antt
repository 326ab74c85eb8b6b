-- ===== src/Kernel/Lookup/Tests.antt =====
-- Lookups of tee/kernel/src/fs/node.rs in a small file system.
use mushroom.Prelude.{
  ℕ, suc, ◌+◌, ◌≡◌, ap, ◌∙◌, true, false, ◌||◌, ◌==◌, if◌then◌else◌, List, [], ◌∷◌, arith,
}
use mushroom.Prelude.ErrorKind.{Result, err, ok, no_ent}
use mushroom.Kernel.Ownership.{FileMode, FileAccessContext}
use mushroom.Kernel.Path as Paths
use mushroom.Kernel.Lookup.INode.{FileType, Link, no_link, target, Nodes}
use mushroom.Kernel.Lookup.{lookup_node_with_parent}
use mushroom.Kernel.Lookup.Ends.{Ends, lookup-Ends}
use mushroom.Kernel.Lookup.Parents.{Edits, unlink_dir, rename}
use mushroom.Kernel.Lookup.Create.{OpenFlags, Creates, create_file}
use mushroom.Kernel.Lookup.Create.Opens.{Opens, create_file-Opens}
use mushroom.Kernel.Lookup.Parents.Permitted.{Unlinks, unlink_dir-Unlinks, Moves, rename-Moves}

abbrev everything : FileMode
everything = record {
  allows = λ c p. true;
  set_user_id = false;
  set_group_id = false;
  sticky = false;
}

abbrev user : FileAccessContext
user = record { filesystem_user_id = 1; filesystem_group_id = 1; supplementary_group_ids = [] }

-- The root 0, its directory `a` 1, and its symlink `l` 2 to `l/a`, which is its own way.
abbrev type_of : ℕ → FileType
type_of (suc (suc n)) = FileType.link
type_of n = FileType.dir

abbrev link_of : ℕ → Link ℕ
link_of (suc (suc n)) = target (ok (108 ∷ 47 ∷ 97 ∷ []))
link_of n = no_link

abbrev child : List ℕ → Result ℕ
child (n ∷ []) = if n == 97 then ok 1 else if n == 108 then ok 2 else err no_ent
child n = err no_ent

abbrev small : Nodes ℕ
small = record {
  root_node = 0;
  stat = λ n.
      ok (record { ty = type_of n; ownership = record { mode = everything; uid = 0; gid = 0 } });
  parent = λ n. ok 0;
  get_node = λ d name. child name;
  link = link_of;
}

-- Its state is the number of calls.
abbrev counted : Edits ℕ ℕ
counted = record {
  nodes = λ s. small;
  delete_non_dir = λ d n s. (s + 1, ok tt);
  delete_dir = λ d n s. (s + 1, ok tt);
  rename = λ d old check d' new no_replace s. (s + 1, ok tt);
  exchange = λ d old d' new s. (s + 1, ok tt);
}

-- `/l/a`, and `/a/`
abbrev around : List ℕ
around = 47 ∷ 108 ∷ 47 ∷ 97 ∷ []

abbrev to_a : List ℕ
to_a = 47 ∷ 97 ∷ 47 ∷ []

lookup-Ends_example : Ends 16 (lookup_node_with_parent small user 17 0 around 16)
lookup-Ends_example = lookup-Ends small user 17 0 around 16 (omega arith)

unlink_dir-Unlinks_example :
    Unlinks counted user 17 3
      (λ d n. counted.delete_dir d n 3)
      (unlink_dir counted user 17 0 to_a 3 16)
unlink_dir-Unlinks_example = unlink_dir-Unlinks counted user 17 3 0 to_a 16 (omega arith) (λ e. cc)

rename-Moves_example :
    Moves counted user 17 3
      (λ d old d' new.
        counted.rename d old
          (Paths.has_trailing_slash to_a || Paths.has_trailing_slash around)
          d'
          new
          false
          3)
      (rename counted user 17 0 to_a 0 around false 3 16)
rename-Moves_example =
    rename-Moves counted user 17 3 0 to_a 0 around false 16 (omega arith) (λ e. cc) (λ e. cc)

-- A new node 1, unless there is one.
abbrev making : Creates ℕ ℕ
making = record {
  nodes = λ s. small;
  create_file =
      λ d n s. elim (child n) [ err k ↦ (s + 1, ok (true, 1)) | ok node ↦ (s, ok (false, node)) ];
  read_link = λ s n. ok around;
}

abbrev flags : OpenFlags
flags = record { excl = false; nofollow = false; wronly = true; rdwr = false }

create_file-Opens_example :
    Opens making user 17 flags (create_file making user 17 flags 17 0 (47 ∷ 98 ∷ []) 3 16)
create_file-Opens_example =
    create_file-Opens making user 17 flags
      (λ s n p e z. absurd (let q : ok around ≡ ok [] = e ∙ ap (λ x. ok x) z in cc)) 17 0
      (47 ∷ 98 ∷ []) 3 16 (omega arith) (omega arith) (λ e. cc)
