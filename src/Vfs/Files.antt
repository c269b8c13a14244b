-- ===== src/Vfs/Files.antt =====
-- Reading, writing, creating and deleting, by path, against the map of paths.
use shade_os.Base.{
  ℕ, ◌<◌, ◌≡◌, refl, ap, ◌∙◌, false, Option, none, some, some-inj, List, [], ◌∷◌, arith,
  if◌then◌else◌, Bool-cases, Option-cases, subst, sym, ◌==◌, length-take, inl, inr, length, take,
  min, ℤ, pos, negsuc, pos-inj, ne→not_==,
}
use shade_os.Vfs.{
  Fs, Name, FileEntry, entry, Dir, nil, cons, FileType, regular, directory, file_type, contents,
  lookup, put_back, walk, change, get_path_components, find_entry, read_file, read_entry,
  write_file, write_entry,
}
use shade_os.Vfs.View.{
  view, strip, names_eq, after, change-Changed, change-none, walk-strip, names_eq-strip,
  names_eq-strip_nil, names_eq-strip_cons, walk-cons, change_hit,
}

abbrev pub parts : Option (List ℕ) → List Name
parts = get_path_components

put_back_self : (k : Name) (e : FileEntry) (d : Dir) → lookup k d ≡ some e → put_back k e d ≡ d
unfolding lookup put_back
put_back_self k e nil h = refl
put_back_self k e (cons i f d) h = ground (arith, put_back_self k e d)

-- A change that changes nothing leaves the tree as it is.
pub change-same {ℓ} :
    {A : Type ℓ} (f : FileEntry → FileEntry × A) (cs : List Name) (root e : FileEntry)
    → walk cs root ≡ some e
    → (f e).0 ≡ e
    → change cs f root ≡ some (root, (f e).1)
change-same f [] root e h s =
    let same : root ≡ e = unfold walk in some-inj h in
    unfold change in rw same (λ i. some (s i, (f e).1))
change-same f (c ∷ cs) (entry n t d ch) e h s =
    let (child, hit, rest) = walk-cons c cs n t d ch e h in
    change_hit c cs n t d ch f child child (f e).1 hit (change-same f cs child e rest s)
    ∙ ap (λ (m : Dir). some (entry n t d m, (f e).1)) (put_back_self c child ch hit)

-- What `read_file` makes of what a path shows.
abbrev pub read_view : Option (FileType × List ℕ) → ℕ → ℤ × List ℕ
read_view none max_len = (negsuc 1, [])
read_view (some (regular, d)) max_len = (pos (min (length d) max_len), take max_len d)
read_view (some (directory, d)) max_len = (negsuc 20, [])

read_entry-view :
    (e : FileEntry) (max_len : ℕ)
    → read_entry e max_len ≡ read_view (some (file_type e, contents e)) max_len
unfolding read_entry
read_entry-view (entry n regular d ch) max_len = refl
read_entry-view (entry n directory d ch) max_len = refl

-- A read of at most `max_len` bytes, which is not 0, answers by what the path shows: the number of
-- bytes and the bytes of a file, -21 at a directory, -2 if there is nothing.
pub read_file-view :
    (path : Option (List ℕ)) (max_len : ℕ) (root : FileEntry)
    → 0 < max_len
    → read_file path false (pos max_len) (some root) ≡ read_view (view (parts path) root) max_len
unfolding read_file find_entry
read_file-view path max_len root h =
    rw (ne→not_== max_len 0 (omega arith))
      (elim (Option-cases (walk (get_path_components path) root)) [
        | inl miss ↦ rw miss
        | inr (e, hit) ↦ rw hit (read_entry-view e max_len)
      ])

-- After the write of an entry, the same path shows the bytes, and all others what they showed.
written :
    (cs q : List Name) (root : FileEntry) (n : Name) (d buf : List ℕ) (ch : Dir)
    → walk cs root ≡ some (entry n regular d ch)
    → after (strip cs q) (view q root) (entry n regular buf ch)
      ≡ (if names_eq cs q then some (regular, buf) else view q root)
written cs q root n d buf ch h = go (strip cs q) refl
  where
    go :
        (o : Option (List Name))
        → strip cs q ≡ o
        → after o (view q root) (entry n regular buf ch)
          ≡ (if names_eq cs q then some (regular, buf) else view q root)
    go none e = rw (names_eq-strip cs q e)
    go (some []) e = rw (names_eq-strip_nil cs q e) (unfold walk in refl)
    go (some (k ∷ r)) e =
        rw (names_eq-strip_cons cs q k r e, walk-strip cs q (k ∷ r) root (entry n regular d ch) h e)
          (unfold walk in refl)

-- What a successful write makes of the file system.
pub record Wrote (path : Option (List ℕ)) (buf : List ℕ) (root : FileEntry) : Type 0 where
  pub root' : FileEntry
  pub run : write_file path (some buf) (some root) ≡ (some root', length buf)
  pub seen :
      (q : List Name)
      → view q root' ≡ (if names_eq (parts path) q then some (regular, buf) else view q root)

pub write_file_run :
    (path : Option (List ℕ)) (buf : List ℕ) (root root' : FileEntry) (n : ℕ)
    → change (parts path) (write_entry buf) root ≡ some (root', n)
    → write_file path (some buf) (some root) ≡ (some root', n)
unfolding write_file
write_file_run path buf root root' n h = rw (h, write_file)

write_entry-file :
    (n : Name) (d buf : List ℕ) (ch : Dir)
    → write_entry buf (entry n regular d ch) ≡ (entry n regular buf ch, length buf)
unfolding write_entry
write_entry-file n d buf ch = refl

pub write_to :
    (path : Option (List ℕ)) (buf : List ℕ) (root : FileEntry) (n : Name) (d : List ℕ) (ch : Dir)
    → walk (parts path) root ≡ some (entry n regular d ch)
    → Wrote path buf root
write_to path buf root n d ch h =
    let c = change-Changed (write_entry buf) (parts path) root (entry n regular d ch) h in
    let w = write_entry-file n d buf ch in
    record {
      root' = c.root';
      run = write_file_run path buf root c.root' (length buf) (
          subst
            (λ (r : FileEntry × ℕ).
              change (parts path) (write_entry buf) root ≡ some (c.root', r.1))
            w c.run);
      seen = λ q.
          subst
            (λ (r : FileEntry × ℕ). view q c.root' ≡ after (strip (parts path) q) (view q root) r.0)
            w (c.seen q)
          ∙ written (parts path) q root n d buf ch h;
    }

pub write_file_lost :
    (path : Option (List ℕ)) (buf : List ℕ) (root : FileEntry)
    → change (parts path) (write_entry buf) root ≡ none
    → write_file path (some buf) (some root) ≡ (some root, 0)
unfolding write_file
write_file_lost path buf root h = rw (h, write_file)

write_entry-directory :
    (n : Name) (d buf : List ℕ) (ch : Dir)
    → write_entry buf (entry n directory d ch) ≡ (entry n directory d ch, 0)
unfolding write_entry
write_entry-directory n d buf ch = refl

pub write_file_missing :
    (path : Option (List ℕ)) (buf : List ℕ) (root : FileEntry)
    → walk (parts path) root ≡ none
    → write_file path (some buf) (some root) ≡ (some root, 0)
write_file_missing path buf root h =
    write_file_lost path buf root (change-none (write_entry buf) (parts path) root h)

pub write_file_directory :
    (path : Option (List ℕ)) (buf : List ℕ) (root : FileEntry) (n : Name) (d : List ℕ) (ch : Dir)
    → walk (parts path) root ≡ some (entry n directory d ch)
    → write_file path (some buf) (some root) ≡ (some root, 0)
write_file_directory path buf root n d ch h =
    let e = write_entry-directory n d buf ch in
    write_file_run path buf root root 0 (
      change-same (write_entry buf) (parts path) root (entry n directory d ch) h (ap (λ p. p.0) e)
      ∙ ap (λ (p : FileEntry × ℕ). some (root, p.1)) e)

read_entry-length :
    (e : FileEntry) (max_len n : ℕ) (bytes : List ℕ)
    → read_entry e max_len ≡ (pos n, bytes)
    → length bytes ≡ n
unfolding read_entry
read_entry-length (entry m regular d ch) max_len n bytes run =
    let a : pos (min (length d) max_len) ≡ pos n = ap (λ (r : ℤ × List ℕ). r.0) run in
    let c : take max_len d ≡ bytes = ap (λ (r : ℤ × List ℕ). r.1) run in
    let a' : min (length d) max_len ≡ n = pos-inj a in
    omega (arith, sym (ap (λ (l : List ℕ). length l) c), length-take max_len d, a')
read_entry-length (entry m directory d ch) max_len n bytes run =
    let a : negsuc 20 ≡ pos n = ap (λ (r : ℤ × List ℕ). r.0) run in absurd (cc a)

-- A read answers with the number of bytes that it copies.
pub length-read_file :
    (path : Option (List ℕ)) (max_len n : ℕ) (fs : Fs) (bytes : List ℕ)
    → read_file path false (pos max_len) fs ≡ (pos n, bytes)
    → length bytes ≡ n
unfolding read_file
length-read_file path max_len n fs bytes run = elim (Bool-cases (max_len == 0)) [
  | inl z ↦ let a : negsuc 21 ≡ pos n = ap (λ (r : ℤ × List ℕ). r.0) (rw z at run) in absurd (cc a)
  | inr more ↦ elim (Option-cases (find_entry path fs)) [
    | inl h ↦
        let a : negsuc 1 ≡ pos n = ap (λ (r : ℤ × List ℕ). r.0) (rw (more, h) at run) in
        absurd (cc a)
    | inr (e, h) ↦ read_entry-length e max_len n bytes (rw (more, h) at run)
  ]
]
