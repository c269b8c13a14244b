-- ===== src/Vfs/Entries.antt =====
-- Creating and deleting, against the map of paths.
use shade_os.Base.{
  ℕ, ◌≡◌, sym, ap, ◌∙◌, true, false, Option, none, some, List, [], if◌then◌else◌, ℤ, pos, negsuc,
  length,
}
use shade_os.Vfs.{
  Name, FileEntry, entry, Dir, nil, FileType, regular, directory, lookup, walk, change, Fs,
  contains_key, insert, remove, split_last, at_parent, create_in, delete_in,
}
use shade_os.Vfs.Directory.{contains_of_lookup, contains_of_lookup-none, Distinct}
use shade_os.Vfs.View.{view, strip, names_eq, is_below, after, change-Changed, walk-append}
use shade_os.Vfs.Files.{parts, change-same}
use shade_os.Vfs.Names.{show_entry, split_last-append, created, removed}

-- The abstract file system: what each path shows.
abbrev pub Paths : Type 0
Paths = List Name → Option (FileType × List ℕ)

abbrev pub paths : FileEntry → Paths
paths root q = view q root

-- A path gets a type and data; a path and all behind it are cleared.
abbrev pub assign : List Name → FileType × List ℕ → Paths → Paths
assign cs v m q = if names_eq cs q then some v else m q

abbrev pub clear : List Name → Paths → Paths
clear cs m q = if is_below cs q then none else m q

-- What creating does, by what the parent and the path itself show.
abbrev pub creates_at :
    FileType
    → List Name
    → Option (FileType × List ℕ)
    → Option (FileType × List ℕ)
    → Paths
    → Paths × ℤ
creates_at t cs none old m = (m, negsuc 1)
creates_at t cs (some parent) (some old) m = (m, negsuc 16)
creates_at t cs (some parent) none m = (assign cs (t, []) m, pos 0)

abbrev pub creates_last : FileType → List Name → Option (Name × List Name) → Paths → Paths × ℤ
creates_last t cs none m = (m, negsuc 1)
creates_last t cs (some (name, init)) m = creates_at t cs (m init) (m cs) m

abbrev pub creates : FileType → List Name → Paths → Paths × ℤ
creates t cs m = creates_last t cs (split_last cs) m

-- What deleting does, by what the path shows; the root is never deleted.
abbrev pub deletes_at : List Name → Option (FileType × List ℕ) → Paths → Paths × ℤ
deletes_at cs none m = (m, negsuc 1)
deletes_at cs (some old) m = (clear cs m, pos 0)

abbrev pub deletes_last : List Name → Option (Name × List Name) → Paths → Paths × ℤ
deletes_last cs none m = (m, negsuc 1)
deletes_last cs (some (name, init)) m = deletes_at cs (m cs) m

abbrev pub deletes : List Name → Paths → Paths × ℤ
deletes cs m = deletes_last cs (split_last cs) m

-- Writing replaces the data of a file, and answers with its length.
abbrev pub writes_at : List Name → List ℕ → Option (FileType × List ℕ) → Paths → Paths × ℕ
writes_at cs buf none m = (m, 0)
writes_at cs buf (some (regular, d)) m = (assign cs (regular, buf) m, length buf)
writes_at cs buf (some (directory, d)) m = (m, 0)

abbrev pub writes : List Name → List ℕ → Paths → Paths × ℕ
writes cs buf m = writes_at cs buf (m cs) m

-- The code's answer is the specification's, and so is what each path shows afterwards.
pub record Refines {ℓ} {A : Type ℓ} (got : Fs × A) (want : Paths × A) : Type ℓ where
  pub root' : FileEntry
  pub run : got ≡ (some root', want.1)
  pub seen : (q : List Name) → view q root' ≡ want.0 q

module _ (path : Option (List ℕ)) (f : Name → FileEntry → FileEntry × ℤ) (root : FileEntry) where
  pub at_parent_root :
      split_last (parts path) ≡ none → at_parent path f (some root) ≡ (some root, negsuc 1)
  unfolding at_parent
  at_parent_root h = rw (h, at_parent)

  module _ (name : Name) (init : List Name) (h : split_last (parts path) ≡ some (name, init)) where
    pub at_parent_missing :
        change init (f name) root ≡ none → at_parent path f (some root) ≡ (some root, negsuc 1)
    unfolding at_parent
    at_parent_missing k = rw (h, at_parent, k)

    pub at_parent_run :
        (root' : FileEntry) (r : ℤ)
        → change init (f name) root ≡ some (root', r)
        → at_parent path f (some root) ≡ (some root', r)
    unfolding at_parent
    at_parent_run root' r k = rw (h, at_parent, k)

module _ (make : Name → FileEntry) (name n : Name) (t : FileType) (d : List ℕ) (ch : Dir) where
  create_in_exists :
      contains_key name ch ≡ true
      → create_in make name (entry n t d ch) ≡ (entry n t d ch, negsuc 16)
  unfolding create_in
  create_in_exists h = rw h

  create_in_fresh :
      contains_key name ch ≡ false
      → create_in make name (entry n t d ch) ≡ (entry n t d (insert name (make name) ch), pos 0)
  unfolding create_in
  create_in_fresh h = rw h

module _ (name n : Name) (t : FileType) (d : List ℕ) (ch : Dir) where
  delete_in_missing :
      contains_key name ch ≡ false → delete_in name (entry n t d ch) ≡ (entry n t d ch, negsuc 1)
  unfolding delete_in
  delete_in_missing h = rw h

  delete_in_found :
      contains_key name ch ≡ true
      → delete_in name (entry n t d ch) ≡ (entry n t d (remove name ch), pos 0)
  unfolding delete_in
  delete_in_found h = rw h

-- Behind a directory the last part of a path is looked up.
pub view_last :
    (cs init : List Name) (name : Name) (root : FileEntry) (n : Name) (t : FileType) (d : List ℕ)
    (ch : Dir)
    → split_last cs ≡ some (name, init)
    → walk init root ≡ some (entry n t d ch)
    → view cs root ≡ show_entry (lookup name ch)
view_last cs init name root n t d ch h parent =
    ap (λ (l : List Name). view l root) (split_last-append cs name init h)
    ∙ ap show_entry (walk-append init name root n t d ch parent)

module _ (path : Option (List ℕ)) (root : FileEntry) (name : Name) (init : List Name)
    (h : split_last (parts path) ≡ some (name, init)) (n : Name) (t : FileType) (d : List ℕ)
    (ch : Dir) (parent : walk init root ≡ some (entry n t d ch)) where
  module _ (t0 : FileType) (make : Name → FileEntry) (made : make name ≡ entry name t0 [] nil) where
    pub create_exists :
        (old : FileEntry)
        → lookup name ch ≡ some old
        → at_parent path (create_in make) (some root) ≡ (some root, negsuc 16)
    create_exists old hit =
        let e = create_in_exists make name n t d ch (contains_of_lookup name ch old hit) in
        at_parent_run path (create_in make) root name init h root (negsuc 16) (
          change-same (create_in make name) init root (entry n t d ch) parent (ap (λ p. p.0) e)
          ∙ ap (λ (p : FileEntry × ℤ). some (root, p.1)) e)

    pub create_fresh :
        lookup name ch ≡ none
        → Refines
            (at_parent path (create_in make) (some root))
            (assign (parts path) (t0, []) (paths root), pos 0)
    create_fresh fresh =
        let c = change-Changed (create_in make name) init root (entry n t d ch) parent in
        let e : create_in make name (entry n t d ch)
            ≡ (entry n t d (insert name (entry name t0 [] nil) ch), pos 0) =
          create_in_fresh make name n t d ch (contains_of_lookup-none name ch fresh)
          ∙ ap (λ (m : FileEntry). (entry n t d (insert name m ch), pos 0)) made in
        record {
          root' = c.root';
          run =
              at_parent_run path (create_in make) root name init h c.root' (pos 0)
                (c.run ∙ ap (λ (p : FileEntry × ℤ). some (c.root', p.1)) e);
          seen = λ q.
              c.seen q
              ∙ ap (λ (p : FileEntry × ℤ). after (strip init q) (view q root) p.0) e
              ∙ created init name root n t d ch parent t0 q fresh
              ∙ ap (λ (l : List Name). if names_eq l q then some (t0, []) else view q root)
                  (sym (split_last-append (parts path) name init h));
        }

  pub delete_gone :
      lookup name ch ≡ none → at_parent path delete_in (some root) ≡ (some root, negsuc 1)
  delete_gone miss =
      let e = delete_in_missing name n t d ch (contains_of_lookup-none name ch miss) in
      at_parent_run path delete_in root name init h root (negsuc 1) (
        change-same (delete_in name) init root (entry n t d ch) parent (ap (λ p. p.0) e)
        ∙ ap (λ (p : FileEntry × ℤ). some (root, p.1)) e)

  pub delete_found :
      (old : FileEntry)
      → lookup name ch ≡ some old
      → Distinct ch
      → Refines (at_parent path delete_in (some root)) (clear (parts path) (paths root), pos 0)
  delete_found old hit distinct =
      let c = change-Changed (delete_in name) init root (entry n t d ch) parent in
      let e = delete_in_found name n t d ch (contains_of_lookup name ch old hit) in
      record {
        root' = c.root';
        run =
            at_parent_run path delete_in root name init h c.root' (pos 0)
              (c.run ∙ ap (λ (p : FileEntry × ℤ). some (c.root', p.1)) e);
        seen = λ q.
            c.seen q
            ∙ ap (λ (p : FileEntry × ℤ). after (strip init q) (view q root) p.0) e
            ∙ removed init name root n t d ch parent q distinct
            ∙ ap (λ (l : List Name). if is_below l q then none else view q root)
                (sym (split_last-append (parts path) name init h));
      }
