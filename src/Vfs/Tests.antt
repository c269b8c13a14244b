-- ===== src/Vfs/Tests.antt =====
-- Runs of the file system, and the theorems at them.
use shade_os.Base.{
  ℕ, ◌≡◌, refl, false, Option, some, List, [], ◌∷◌, arith, if◌then◌else◌, pos, length, take, min,
}
use shade_os.Vfs.{
  FileEntry, entry, nil, cons, regular, directory, init, create_file, delete_file, write_file,
  read_file, get_path_components, split_path, split_last, at_parent, change, create_in, insert,
  contains_key, write_entry, lookup, put_back, walk,
}
use shade_os.Vfs.View.{view, names_eq}
use shade_os.Vfs.Files.{parts}
use shade_os.Vfs.Entries.{paths, creates, deletes, writes, Refines}
use shade_os.Vfs.Refine.{create_file-Refines, delete_file-Refines, write_file-Refines}
use shade_os.Vfs.Tree.{IsTree}
use shade_os.Vfs.Reach.{started, created, written, deleted, IsFs, Reach-IsFs, read_file-write_file}

abbrev bytes : List ℕ
bytes = 7 ∷ 8 ∷ 9 ∷ []

-- "/a" and "/a/b".
abbrev path_a : Option (List ℕ)
path_a = some (b'/' ∷ b'a' ∷ [])

abbrev path_ab : Option (List ℕ)
path_ab = some (b'/' ∷ b'a' ∷ b'/' ∷ b'b' ∷ [])

-- The root with the file "a", which holds 1, 2, 3.
abbrev root_a : FileEntry
root_a =
    entry (b'/' ∷ []) directory []
      (cons (b'a' ∷ []) (entry (b'a' ∷ []) regular (1 ∷ 2 ∷ 3 ∷ []) nil) nil)

slashes : get_path_components (some (b'/' ∷ b'/' ∷ b'c' ∷ b'/' ∷ [])) ≡ (b'c' ∷ []) ∷ []
unfolding get_path_components split_path
slashes = refl

make_and_write :
    (write_file path_a (some (1 ∷ 2 ∷ 3 ∷ [])) (create_file path_a init).0) ≡ (some root_a, 3)
unfolding create_file write_file at_parent get_path_components split_path split_last change
    create_in insert contains_key write_entry init lookup put_back
make_and_write = refl

-- A file takes children.
below_a_file : (create_file path_ab (some root_a)).1 ≡ pos 0
unfolding create_file at_parent get_path_components split_path split_last change create_in insert
    contains_key lookup put_back
below_a_file = refl

shows_a : view (parts path_a) root_a ≡ some (regular, 1 ∷ 2 ∷ 3 ∷ [])
unfolding get_path_components split_path walk lookup
shows_a = refl

root_a-IsTree : IsTree root_a
unfolding IsTree contains_key
root_a-IsTree = (refl, refl, tt, tt)

create_file-Refines_example :
    Refines (create_file path_ab (some root_a)) (creates regular (parts path_ab) (paths root_a))
create_file-Refines_example = create_file-Refines path_ab root_a

delete_file-Refines_example :
    Refines (delete_file path_a (some root_a)) (deletes (parts path_a) (paths root_a))
delete_file-Refines_example = delete_file-Refines path_a root_a root_a-IsTree

write_file-Refines_example :
    Refines
      (write_file path_a (some (7 ∷ [])) (some root_a))
      (writes (parts path_a) (7 ∷ []) (paths root_a))
write_file-Refines_example = write_file-Refines path_a (7 ∷ []) root_a

Reach-IsFs_example :
    IsFs (delete_file path_a (write_file path_a (some (7 ∷ [])) (create_file path_a init).0).0).0
Reach-IsFs_example =
    Reach-IsFs
      (delete_file path_a (write_file path_a (some (7 ∷ [])) (create_file path_a init).0).0).0
      (deleted path_a (write_file path_a (some (7 ∷ [])) (create_file path_a init).0).0
        (written path_a (some (7 ∷ [])) (create_file path_a init).0 (created path_a init started)))

read_file-write_file_example :
    read_file path_a false (pos 2) (write_file path_a (some bytes) (some root_a)).0 ≡ (
      if names_eq (parts path_a) (parts path_a)
      then (pos (min (length bytes) 2), take 2 bytes)
      else read_file path_a false (pos 2) (some root_a))
read_file-write_file_example =
    read_file-write_file path_a path_a bytes (1 ∷ 2 ∷ 3 ∷ []) root_a 2 (omega arith) shows_a
