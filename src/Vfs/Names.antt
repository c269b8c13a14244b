-- ===== src/Vfs/Names.antt =====
-- What a new child and a removed child do to the map of paths.
use mathlib.Core.Option
use shade_os.Base.{
  ℕ, ◌≡◌, refl, sym, ap, ◌≢◌, subst, Option, none, some, List, [], ◌∷◌, ◌++◌, if◌then◌else◌,
  bytes_eq, bytes_eq→eq, Bool-cases, inl, inr,
}
use shade_os.Vfs.{
  Name, FileEntry, entry, Dir, nil, FileType, file_type, contents, lookup, walk, insert, remove,
  split_last, with_first,
}
use shade_os.Vfs.Directory.{lookup-insert, lookup-remove, Distinct}
use shade_os.Vfs.View.{
  view, strip, names_eq, is_below, after, walk-strip, names_eq-append, names_eq-append_none,
  is_below-append, is_below-append_none, walk_hit, walk_miss, walk_lookup,
}

with_first_some : (c : Name) (o : Option (Name × List Name)) → with_first c o ≢ none
with_first_some c none h = cc h
with_first_some c (some (last, init)) h = cc h

split_last-none : (cs : List Name) → split_last cs ≡ none → cs ≡ []
split_last-none [] h = refl
split_last-none (c ∷ cs) h = absurd (with_first_some c (split_last cs) (unfold split_last in h))

pub split_last-append :
    (cs : List Name) (k : Name) (init : List Name)
    → split_last cs ≡ some (k, init)
    → cs ≡ init ++ k ∷ []
split_last-append [] k init h = absurd (unfold split_last in cc h)
split_last-append (c ∷ cs) k init h =
    go (split_last cs) (split_last-none cs) (split_last-append cs) (unfold split_last in h)
  where
    go :
        (o : Option (Name × List Name))
        → (o ≡ none → cs ≡ [])
        → ((k : Name) (init : List Name) → o ≡ some (k, init) → cs ≡ init ++ k ∷ [])
        → with_first c o ≡ some (k, init)
        → c ∷ cs ≡ init ++ k ∷ []
    go none z ih h =
        let same : c ≡ k = cc h in
        let nil' : [] ≡ init = cc h in rw (sym same, sym nil', z refl) refl
    go (some (last, init')) z ih h =
        let same : last ≡ k = cc h in
        let more : c ∷ init' ≡ init = cc h in
        rw (sym same, sym more) (ap (λ (l : List Name). c ∷ l) (ih last init' refl))

abbrev pub show_entry : Option FileEntry → Option (FileType × List ℕ)
show_entry o = Option.map (λ (f : FileEntry). (file_type f, contents f)) o

-- A fresh entry has no children.
view-fresh :
    (r : List Name) (k : Name) (t : FileType)
    → view r (entry k t [] nil) ≡ (if names_eq [] r then some (t, []) else none)
unfolding walk lookup names_eq
view-fresh [] k t = refl
view-fresh (j ∷ r) k t = refl

view_miss :
    (k : Name) (r : List Name) (n : Name) (t : FileType) (d : List ℕ) (ch : Dir)
    → lookup k ch ≡ none
    → view (k ∷ r) (entry n t d ch) ≡ none
view_miss k r n t d ch h = ap show_entry (walk_miss k r n t d ch h)

module _ (init : List Name) (k : Name) (root : FileEntry) (n : Name) (t : FileType) (d : List ℕ)
    (ch : Dir) (parent : walk init root ≡ some (entry n t d ch)) where
  view-strip : (q r : List Name) → strip init q ≡ some r → view q root ≡ view r (entry n t d ch)
  view-strip q r e = ap show_entry (walk-strip init q r root (entry n t d ch) parent e)

  created_below :
      (t0 : FileType) (j : Name) (r : List Name)
      → lookup k ch ≡ none
      → view (j ∷ r) (entry n t d (insert k (entry k t0 [] nil) ch))
        ≡ (if names_eq (k ∷ []) (j ∷ r) then some (t0, []) else view (j ∷ r) (entry n t d ch))
  unfolding names_eq
  created_below t0 j r fresh =
      let ins = lookup-insert j k (entry k t0 [] nil) ch in
      elim (Bool-cases (bytes_eq k j)) [
        | inl same ↦
            let new : view (j ∷ r) (entry n t d (insert k (entry k t0 [] nil) ch))
                ≡ view r (entry k t0 [] nil) =
              ap show_entry (
                walk_hit j r n t d (insert k (entry k t0 [] nil) ch) (entry k t0 [] nil)
                  (rw same at ins)) in
            let old : view (j ∷ r) (entry n t d ch) ≡ none =
              view_miss j r n t d ch
                (subst (λ (x : Name). lookup x ch ≡ none) (bytes_eq→eq k j same) fresh) in
            rw (same, old, new) (view-fresh r k t0)
        | inr other ↦
            rw other (walk_lookup j r n t d (insert k (entry k t0 [] nil) ch) ch (rw other at ins))
      ]

  removed_below :
      (j : Name) (r : List Name)
      → Distinct ch
      → view (j ∷ r) (entry n t d (remove k ch))
        ≡ (if is_below (k ∷ []) (j ∷ r) then none else view (j ∷ r) (entry n t d ch))
  unfolding is_below
  removed_below j r distinct =
      let rem = lookup-remove j k ch distinct in
      elim (Bool-cases (bytes_eq k j)) [
        | inl same ↦ rw same (view_miss j r n t d (remove k ch) (rw same at rem))
        | inr other ↦ rw other (walk_lookup j r n t d (remove k ch) ch (rw other at rem))
      ]

  -- With a new child the path of the child shows it, and all others what they showed.
  pub created :
      (t0 : FileType) (q : List Name)
      → lookup k ch ≡ none
      → after (strip init q) (view q root) (entry n t d (insert k (entry k t0 [] nil) ch))
        ≡ (if names_eq (init ++ k ∷ []) q then some (t0, []) else view q root)
  created t0 q fresh = go (strip init q) refl
    where
      go :
          (o : Option (List Name))
          → strip init q ≡ o
          → after o (view q root) (entry n t d (insert k (entry k t0 [] nil) ch))
            ≡ (if names_eq (init ++ k ∷ []) q then some (t0, []) else view q root)
      go none e = rw (names_eq-append_none init (k ∷ []) q e)
      go (some []) e =
          rw (names_eq-append init (k ∷ []) q [] e, view-strip q [] e)
            (unfold walk names_eq in refl)
      go (some (j ∷ r)) e =
          rw (names_eq-append init (k ∷ []) q (j ∷ r) e, view-strip q (j ∷ r) e)
            (created_below t0 j r fresh)

  -- Without the child its path and all behind it show nothing, and all others what they showed.
  pub removed :
      (q : List Name)
      → Distinct ch
      → after (strip init q) (view q root) (entry n t d (remove k ch))
        ≡ (if is_below (init ++ k ∷ []) q then none else view q root)
  removed q distinct = go (strip init q) refl
    where
      go :
          (o : Option (List Name))
          → strip init q ≡ o
          → after o (view q root) (entry n t d (remove k ch))
            ≡ (if is_below (init ++ k ∷ []) q then none else view q root)
      go none e = rw (is_below-append_none init (k ∷ []) q e)
      go (some []) e =
          rw (is_below-append init (k ∷ []) q [] e, view-strip q [] e)
            (unfold walk is_below in refl)
      go (some (j ∷ r)) e =
          rw (is_below-append init (k ∷ []) q (j ∷ r) e, view-strip q (j ∷ r) e)
            (removed_below j r distinct)
