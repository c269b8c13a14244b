-- ===== src/Vfs/Refine.antt =====
-- The operations of the file system implement those on the map of paths, from start-up on.
use shade_os.Base.{ℕ, ◌≡◌, refl, ap, ◌∙◌, Option, none, some, List, [], ◌∷◌, Option-cases, inl, inr}
use shade_os.Vfs.{
  Name, FileEntry, entry, nil, FileType, regular, directory, lookup, walk, init, split_last,
  at_parent, create_in, delete_in, new_file, new_directory, create_file, create_directory,
  delete_file, write_file,
}
use shade_os.Vfs.View.{view, change-none, walk-append_none}
use shade_os.Vfs.Files.{parts, write_to, write_file_missing, write_file_directory}
use shade_os.Vfs.Names.{show_entry, split_last-append}
use shade_os.Vfs.Entries.{
  paths, creates_at, creates_last, creates, deletes_at, deletes_last, deletes, Refines,
  at_parent_root, at_parent_missing, create_exists, create_fresh, delete_gone, delete_found,
  view_last, writes_at, writes,
}
use shade_os.Vfs.Tree.{IsTree, AreTrees-Distinct, walk-IsTree}

module _ (path : Option (List ℕ)) (root : FileEntry) (t0 : FileType) (make : Name → FileEntry)
    (made : (k : Name) → make k ≡ entry k t0 [] nil) where
  create_at :
      (name : Name) (init : List Name) (o : Option FileEntry)
      → split_last (parts path) ≡ some (name, init)
      → walk init root ≡ o
      → Refines
          (at_parent path (create_in make) (some root))
          (creates_at t0 (parts path) (show_entry o) (view (parts path) root) (paths root))
  create_at name init none h miss = record {
    root' = root;
    run =
        at_parent_missing path (create_in make) root name init h
          (change-none (create_in make name) init root miss);
    seen = λ q. refl;
  }
  create_at name init (some (entry n t d ch)) h parent =
      let last = view_last (parts path) init name root n t d ch h parent in
      elim (Option-cases (lookup name ch)) [
        | inl fresh ↦
            rw (last, fresh)
              (create_fresh path root name init h n t d ch parent t0 make (made name) fresh)
        | inr (old, hit) ↦
            rw (last, hit)
              (record {
                root' = root;
                run =
                    create_exists path root name init h n t d ch parent t0 make (made name) old hit;
                seen = λ q. refl;
              })
      ]

  create-Refines :
      (o : Option (Name × List Name))
      → split_last (parts path) ≡ o
      → Refines
          (at_parent path (create_in make) (some root))
          (creates_last t0 (parts path) o (paths root))
  create-Refines none h = record {
    root' = root;
    run = at_parent_root path (create_in make) root h;
    seen = λ q. refl;
  }
  create-Refines (some (name, init)) h = create_at name init (walk init root) h refl

new_file-made : (k : Name) → new_file k ≡ entry k regular [] nil
new_file-made k = refl

new_directory-made : (k : Name) → new_directory k ≡ entry k directory [] nil
new_directory-made k = refl

-- Creating a file answers -2 where the parent is missing or the path is the root's, -17 where the
-- path shows something, and otherwise 0, and then the path shows an empty file; every other path,
-- and in the error cases every path, shows what it did.
pub create_file-Refines :
    (path : Option (List ℕ)) (root : FileEntry)
    → Refines (create_file path (some root)) (creates regular (parts path) (paths root))
unfolding create_file
create_file-Refines path root =
    create-Refines path root regular new_file new_file-made (split_last (parts path)) refl

-- Creating a directory answers -2 where the parent is missing or the path is the root's, -17 where
-- the path shows something, and otherwise 0, and then the path shows a directory without data;
-- every other path, and in the error cases every path, shows what it did.
pub create_directory-Refines :
    (path : Option (List ℕ)) (root : FileEntry)
    → Refines (create_directory path (some root)) (creates directory (parts path) (paths root))
unfolding create_directory
create_directory-Refines path root =
    create-Refines path root directory new_directory new_directory-made (split_last (parts path))
      refl

module _ (path : Option (List ℕ)) (root : FileEntry) (tree : IsTree root) where
  delete_at :
      (name : Name) (init : List Name) (o : Option FileEntry)
      → split_last (parts path) ≡ some (name, init)
      → walk init root ≡ o
      → Refines
          (at_parent path delete_in (some root))
          (deletes_at (parts path) (view (parts path) root) (paths root))
  delete_at name init none h miss =
      let gone : view (parts path) root ≡ none =
        ap (λ (l : List Name). view l root) (split_last-append (parts path) name init h)
        ∙ ap show_entry (walk-append_none init (name ∷ []) root miss) in
      rw gone (record {
        root' = root;
        run =
            at_parent_missing path delete_in root name init h
              (change-none (delete_in name) init root miss);
        seen = λ q. refl;
      })
  delete_at name init (some (entry n t d ch)) h parent =
      let last = view_last (parts path) init name root n t d ch h parent in
      let distinct =
        AreTrees-Distinct ch
          (unfold IsTree in walk-IsTree init root (entry n t d ch) tree parent) in
      elim (Option-cases (lookup name ch)) [
        | inl gone ↦
            rw (last, gone)
              (record {
                root' = root;
                run = delete_gone path root name init h n t d ch parent gone;
                seen = λ q. refl;
              })
        | inr (old, hit) ↦
            rw (last, hit) (delete_found path root name init h n t d ch parent old hit distinct)
      ]

  delete-Refines :
      (o : Option (Name × List Name))
      → split_last (parts path) ≡ o
      → Refines (at_parent path delete_in (some root)) (deletes_last (parts path) o (paths root))
  delete-Refines none h = record {
    root' = root;
    run = at_parent_root path delete_in root h;
    seen = λ q. refl;
  }
  delete-Refines (some (name, init)) h = delete_at name init (walk init root) h refl

-- In a tree whose names are distinct, deleting answers -2 where the path shows nothing or is the
-- root's, and otherwise 0, and then that path and all that lead on from it show nothing; every
-- other path, and in the error cases every path, shows what it did.
pub delete_file-Refines :
    (path : Option (List ℕ)) (root : FileEntry)
    → IsTree root
    → Refines (delete_file path (some root)) (deletes (parts path) (paths root))
unfolding delete_file
delete_file-Refines path root tree = delete-Refines path root tree (split_last (parts path)) refl

-- Writing answers with the length of the bytes where the path shows a file, and then the path
-- shows the bytes; otherwise it answers 0. Every other path, and where the answer is for want of a
-- file every path, shows what it did.
pub write_file-Refines :
    (path : Option (List ℕ)) (buf : List ℕ) (root : FileEntry)
    → Refines (write_file path (some buf) (some root)) (writes (parts path) buf (paths root))
write_file-Refines path buf root = go (walk (parts path) root) refl
  where
    go :
        (o : Option FileEntry)
        → walk (parts path) root ≡ o
        → Refines
            (write_file path (some buf) (some root))
            (writes_at (parts path) buf (show_entry (walk (parts path) root)) (paths root))
    go none e =
        rw e (record { root' = root; run = write_file_missing path buf root e; seen = λ q. refl })
    go (some (entry n regular d ch)) e =
        let w = write_to path buf root n d ch e in
        rw e (record { root' = w.root'; run = w.run; seen = w.seen })
    go (some (entry n directory d ch)) e = rw e (record {
      root' = root;
      run = write_file_directory path buf root n d ch e;
      seen = λ q. refl;
    })
