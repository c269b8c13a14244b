-- ===== src/Vfs/Reach.antt =====
-- The file systems that operations make of the one that `init` sets up, and what a client sees
-- who uses several operations.
use shade_os.Base.{
  ℕ, ◌<◌, ◌≡◌, refl, sym, ap, ◌∙◌, subst, Bool, true, false, Option, none, some, List, [], ◌∷◌,
  if◌then◌else◌, Option-cases, inl, inr, ℤ, pos, length, take, min,
}
use shade_os.Vfs.{
  Name, FileEntry, FileType, regular, directory, file_type, change, Fs, init, split_last, at_parent,
  create_in, delete_in, new_file, new_directory, create_file, create_directory, delete_file,
  write_file, read_file, write_entry,
}
use shade_os.Vfs.View.{view, names_eq}
use shade_os.Vfs.Files.{parts, read_view, read_file-view, write_file_run, write_file_lost}
use shade_os.Vfs.Entries.{paths, writes_at, at_parent_root, at_parent_missing, at_parent_run}
use shade_os.Vfs.Refine.{write_file-Refines}
use shade_os.Vfs.Tree.{
  IsTree, name, Keeps, change-IsTree, create_in-Keeps, delete_in-Keeps, write_entry-Keeps,
}

-- A sequence of calls, from start-up on.
pub data Reach : Fs → Type 0 where
  started : Reach init
  created : (path : Option (List ℕ)) (fs : Fs) → Reach fs → Reach (create_file path fs).0
  created_directory :
      (path : Option (List ℕ)) (fs : Fs) → Reach fs → Reach (create_directory path fs).0
  deleted : (path : Option (List ℕ)) (fs : Fs) → Reach fs → Reach (delete_file path fs).0
  written :
      (path : Option (List ℕ)) (buf : Option (List ℕ)) (fs : Fs)
      → Reach fs
      → Reach (write_file path buf fs).0

abbrev slash : Name
slash = b'/' ∷ []

-- There is a root, which is a directory and bears its name, and the tree is well formed.
pub record IsFs (fs : Fs) : Type 0 where
  pub root : FileEntry
  pub present : fs ≡ some root
  pub tree : IsTree root
  pub named : name root ≡ slash
  pub is_directory : file_type root ≡ directory

same_fs :
    (root : FileEntry) (fs : Fs)
    → IsTree root
    → name root ≡ slash
    → file_type root ≡ directory
    → fs ≡ some root
    → IsFs fs
same_fs root fs t n d e = record { root = root; present = e; tree = t; named = n; is_directory = d }

at_parent-IsFs :
    (path : Option (List ℕ)) (f : Name → FileEntry → FileEntry × ℤ) (root : FileEntry)
    → ((k : Name) → Keeps (f k))
    → IsTree root
    → name root ≡ slash
    → file_type root ≡ directory
    → IsFs (at_parent path f (some root)).0
at_parent-IsFs path f root keeps t n d = elim (Option-cases (split_last (parts path))) [
  | inl e ↦
      same_fs root (at_parent path f (some root)).0 t n d
        (ap (λ p. p.0) (at_parent_root path f root e))
  | inr ((k, init'), e) ↦ elim (Option-cases (change init' (f k) root)) [
    | inl miss ↦
        same_fs root (at_parent path f (some root)).0 t n d
          (ap (λ p. p.0) (at_parent_missing path f root k init' e miss))
    | inr ((root', r), run) ↦
        let kept = change-IsTree (f k) init' root root' r (keeps k) t run in
        same_fs root' (at_parent path f (some root)).0 kept.0 (kept.1 ∙ n) (kept.2 ∙ d)
          (ap (λ p. p.0) (at_parent_run path f root k init' e root' r run))
  ]
]

write_file-IsFs :
    (path buf : Option (List ℕ)) (root : FileEntry)
    → IsTree root
    → name root ≡ slash
    → file_type root ≡ directory
    → IsFs (write_file path buf (some root)).0
write_file-IsFs path none root t n d =
    same_fs root (write_file path none (some root)).0 t n d (unfold write_file in refl)
write_file-IsFs path (some buf) root t n d =
    elim (Option-cases (change (parts path) (write_entry buf) root)) [
      | inl miss ↦
          same_fs root (write_file path (some buf) (some root)).0 t n d
            (ap (λ p. p.0) (write_file_lost path buf root miss))
      | inr ((root', r), run) ↦
          let kept =
            change-IsTree (write_entry buf) (parts path) root root' r (write_entry-Keeps buf) t
              run in
          same_fs root' (write_file path (some buf) (some root)).0 kept.0 (kept.1 ∙ n) (kept.2 ∙ d)
            (ap (λ p. p.0) (write_file_run path buf root root' r run))
    ]

pub create_file-IsFs : (path : Option (List ℕ)) (fs : Fs) → IsFs fs → IsFs (create_file path fs).0
unfolding create_file IsTree
create_file-IsFs path fs h =
    subst (λ (g : Fs). IsFs (at_parent path (create_in new_file) g).0) (sym h.present)
      (at_parent-IsFs path (create_in new_file) h.root (λ k. create_in-Keeps new_file k tt refl)
        h.tree h.named h.is_directory)

pub create_directory-IsFs :
    (path : Option (List ℕ)) (fs : Fs) → IsFs fs → IsFs (create_directory path fs).0
unfolding create_directory IsTree
create_directory-IsFs path fs h =
    subst (λ (g : Fs). IsFs (at_parent path (create_in new_directory) g).0) (sym h.present)
      (at_parent-IsFs path (create_in new_directory) h.root
        (λ k. create_in-Keeps new_directory k tt refl) h.tree h.named h.is_directory)

pub delete_file-IsFs : (path : Option (List ℕ)) (fs : Fs) → IsFs fs → IsFs (delete_file path fs).0
unfolding delete_file
delete_file-IsFs path fs h =
    subst (λ (g : Fs). IsFs (at_parent path delete_in g).0) (sym h.present)
      (at_parent-IsFs path delete_in h.root (λ k. delete_in-Keeps k) h.tree h.named h.is_directory)

-- Whatever calls follow `init`, there is a root directory named "/", in every directory a name
-- stands at most once, and every entry bears the name under which it stands.
pub Reach-IsFs : (fs : Fs) → Reach fs → IsFs fs
Reach-IsFs fs started = unfold init IsTree in same_fs (new_directory slash) init tt refl refl refl
Reach-IsFs fs (created path fs' r) = create_file-IsFs path fs' (Reach-IsFs fs' r)
Reach-IsFs fs (created_directory path fs' r) = create_directory-IsFs path fs' (Reach-IsFs fs' r)
Reach-IsFs fs (deleted path fs' r) = delete_file-IsFs path fs' (Reach-IsFs fs' r)
Reach-IsFs fs (written path buf fs' r) =
    let h = Reach-IsFs fs' r in
    subst (λ (g : Fs). IsFs (write_file path buf g).0) (sym h.present)
      (write_file-IsFs path buf h.root h.tree h.named h.is_directory)

-- After a write of `buf` to a path that shows a file, a read of at most `max_len` bytes, which is
-- not 0, by any path answers as before the write, except by the path written: there it answers
-- with the first bytes of `buf`, as many as it has and are asked for.
pub read_file-write_file :
    (path other : Option (List ℕ)) (buf d : List ℕ) (root : FileEntry) (max_len : ℕ)
    → 0 < max_len
    → view (parts path) root ≡ some (regular, d)
    → read_file other false (pos max_len) (write_file path (some buf) (some root)).0 ≡ (
        if names_eq (parts path) (parts other)
        then (pos (min (length buf) max_len), take max_len buf)
        else read_file other false (pos max_len) (some root))
read_file-write_file path other buf d root max_len h v =
    let w = write_file-Refines path buf root in
    let seen : view (parts other) w.root' ≡ (
        if names_eq (parts path) (parts other)
        then some (regular, buf)
        else view (parts other) root) =
      w.seen (parts other)
      ∙ ap
          (λ (o : Option (FileType × List ℕ)).
            (writes_at (parts path) buf o (paths root)).0 (parts other))
          v in
    ap (λ (p : Fs × ℕ). read_file other false (pos max_len) p.0) w.run
    ∙ read_file-view other max_len w.root' h
    ∙ ap (λ (o : Option (FileType × List ℕ)). read_view o max_len) seen
    ∙ choose (names_eq (parts path) (parts other))
  where
    choose :
        (b : Bool)
        → read_view (if b then some (regular, buf) else view (parts other) root) max_len ≡ (
            if b
            then (pos (min (length buf) max_len), take max_len buf)
            else read_file other false (pos max_len) (some root))
    choose true = refl
    choose false = sym (read_file-view other max_len root h)
