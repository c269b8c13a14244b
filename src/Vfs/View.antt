-- ===== src/Vfs/View.antt =====
-- The file system seen as a map from the components of a path to a type and data, and what
-- a change of one entry does to that map.
use mathlib.Core.Option
use shade_os.Base.{
  ℕ, ◌≡◌, refl, sym, ap, ◌∙◌, Bool, true, false, Option, none, some, some-inj, List, [], ◌∷◌, ◌++◌,
  arith, if◌then◌else◌, bytes_eq, bytes_eq→eq, Bool-cases, Option-cases, ◌&&◌, inl, inr,
}
use shade_os.Vfs.{
  Name, FileEntry, entry, Dir, FileType, file_type, contents, lookup, put_back, walk, change,
}
use shade_os.Vfs.Directory.{lookup-put_back, contains_of_lookup}

-- What a path shows: the type and the data of the entry that it leads to.
abbrev pub view : List Name → FileEntry → Option (FileType × List ℕ)
view q e = Option.map (λ (f : FileEntry). (file_type f, contents f)) (walk q e)

-- What is left of a path behind a first part.
pub strip : List Name → List Name → Option (List Name)
strip [] q = some q
strip (c ∷ cs) [] = none
strip (c ∷ cs) (k ∷ q) = if bytes_eq c k then strip cs q else none

strip_same :
    (c k : Name) (cs q : List Name) → bytes_eq c k ≡ true → strip (c ∷ cs) (k ∷ q) ≡ strip cs q
unfolding strip
strip_same c k cs q h = rw h

strip_other : (c k : Name) (cs q : List Name) → bytes_eq c k ≡ false → strip (c ∷ cs) (k ∷ q) ≡ none
unfolding strip
strip_other c k cs q h = rw h

-- The same path.
unfoldable pub names_eq : List Name → List Name → Bool
names_eq [] [] = true
names_eq [] (k ∷ q) = false
names_eq (c ∷ cs) [] = false
names_eq (c ∷ cs) (k ∷ q) = bytes_eq c k && names_eq cs q

-- The second path is the first or leads on from it.
unfoldable pub is_below : List Name → List Name → Bool
is_below [] q = true
is_below (c ∷ cs) [] = false
is_below (c ∷ cs) (k ∷ q) = bytes_eq c k && is_below cs q

-- What a path shows once the entry behind `cs` has become `e`.
abbrev pub after :
    Option (List Name) → Option (FileType × List ℕ) → FileEntry → Option (FileType × List ℕ)
after none v e = v
after (some r) v e = view r e

-- One step of a walk and of a change.
module _ (c : Name) (cs : List Name) (n : Name) (t : FileType) (d : List ℕ) (ch : Dir) where
  pub walk_hit :
      (child : FileEntry)
      → lookup c ch ≡ some child
      → walk (c ∷ cs) (entry n t d ch) ≡ walk cs child
  unfolding walk
  walk_hit child h = rw (h, walk)

  pub walk_miss : lookup c ch ≡ none → walk (c ∷ cs) (entry n t d ch) ≡ none
  unfolding walk
  walk_miss h = rw (h, walk)

  -- The walk depends on what the first component finds.
  pub walk_lookup :
      (ch' : Dir)
      → lookup c ch ≡ lookup c ch'
      → view (c ∷ cs) (entry n t d ch) ≡ view (c ∷ cs) (entry n t d ch')
  unfolding walk
  walk_lookup ch' h = rw (h, walk)

  pub walk-cons :
      (e : FileEntry)
      → walk (c ∷ cs) (entry n t d ch) ≡ some e
      → (child : FileEntry) × (lookup c ch ≡ some child) × (walk cs child ≡ some e)
  walk-cons e h = elim (Option-cases (lookup c ch)) [
    | inl miss ↦ absurd (cc (sym h ∙ walk_miss miss))
    | inr (child, hit) ↦ (child, hit, sym (walk_hit child hit) ∙ h)
  ]

  pub change_hit {ℓ} :
      {A : Type ℓ} (f : FileEntry → FileEntry × A) (child child' : FileEntry) (a : A)
      → lookup c ch ≡ some child
      → change cs f child ≡ some (child', a)
      → change (c ∷ cs) f (entry n t d ch) ≡ some (entry n t d (put_back c child' ch), a)
  unfolding change
  change_hit f child child' a h k = rw (h, change, k)

  change_miss {ℓ} :
      {A : Type ℓ} (f : FileEntry → FileEntry × A)
      → lookup c ch ≡ none
      → change (c ∷ cs) f (entry n t d ch) ≡ none
  unfolding change
  change_miss f h = rw (h, change)

  change_lost {ℓ} :
      {A : Type ℓ} (f : FileEntry → FileEntry × A) (child : FileEntry)
      → lookup c ch ≡ some child
      → change cs f child ≡ none
      → change (c ∷ cs) f (entry n t d ch) ≡ none
  unfolding change
  change_lost f child h k = rw (h, change, k)

  -- A change that succeeds has changed the child that the first component finds.
  pub change_back {ℓ} :
      {A : Type ℓ} (f : FileEntry → FileEntry × A) (root' : FileEntry) (a : A)
      → change (c ∷ cs) f (entry n t d ch) ≡ some (root', a)
      → (child child' : FileEntry) × (lookup c ch ≡ some child)
        × (change cs f child ≡ some (child', a))
        × (root' ≡ entry n t d (put_back c child' ch))
  change_back f root' a h = elim (Option-cases (lookup c ch)) [
    | inl miss ↦ absurd (cc (sym h ∙ change_miss f miss))
    | inr (child, hit) ↦ elim (Option-cases (change cs f child)) [
      | inl lost ↦ absurd (cc (sym h ∙ change_lost f child hit lost))
      | inr ((child', a'), run) ↦
          let e = some-inj (sym h ∙ change_hit f child child' a' hit run) in
          (
            child,
            child',
            hit,
            run ∙ ap (λ x. some (child', x)) (sym (ap (λ p. p.1) e)),
            ap (λ p. p.0) e,
          )
    ]
  ]

module _ {ℓ} {A : Type ℓ} (f : FileEntry → FileEntry × A) where
  pub record Changed (cs : List Name) (root e : FileEntry) : Type ℓ where
    pub root' : FileEntry
    pub run : change cs f root ≡ some (root', (f e).1)
    pub seen : (q : List Name) → view q root' ≡ after (strip cs q) (view q root) (f e).0

  -- A change of the entry behind `cs` succeeds if there is one, and shows at that path and behind it.
  pub change-Changed :
      (cs : List Name) (root e : FileEntry) → walk cs root ≡ some e → Changed cs root e
  change-Changed [] root e h =
      let same : root ≡ e = unfold walk in some-inj h in
      record { root' = (f e).0; run = unfold change in rw same; seen = λ q. unfold strip in refl }
  change-Changed (c ∷ cs) (entry n t d ch) e h =
      let (child, hit, rest) = walk-cons c cs n t d ch e h in
      let ih = change-Changed cs child e rest in
      record {
        root' = entry n t d (put_back c ih.root' ch);
        run = change_hit c cs n t d ch f child ih.root' (f e).1 hit ih.run;
        seen = go child hit ih;
      }
    where
      go :
          (child : FileEntry)
          → lookup c ch ≡ some child
          → (ih : Changed cs child e) → (q : List Name)
          → view q (entry n t d (put_back c ih.root' ch))
            ≡ after (strip (c ∷ cs) q) (view q (entry n t d ch)) (f e).0
      go child hit ih [] = unfold walk strip in refl
      go child hit ih (k ∷ q) =
          let put = lookup-put_back k c ih.root' ch (contains_of_lookup c ch child hit) in
          elim (Bool-cases (bytes_eq c k)) [
            | inl same ↦
                let e' : k ≡ c = sym (bytes_eq→eq c k same) in
                rw
                  (
                    walk_hit k q n t d (put_back c ih.root' ch) ih.root' (rw same at put),
                    strip_same c k cs q same,
                    walk_hit k q n t d ch child (rw e' hit),
                  )
                  (ih.seen q)
            | inr other ↦
                rw (strip_other c k cs q other)
                  (walk_lookup k q n t d (put_back c ih.root' ch) ch (rw other at put))
          ]

  pub change-none :
      (cs : List Name) (root : FileEntry) → walk cs root ≡ none → change cs f root ≡ none
  change-none [] root h = absurd (unfold walk in cc h)
  change-none (c ∷ cs) (entry n t d ch) h = elim (Option-cases (lookup c ch)) [
    | inl miss ↦ change_miss c cs n t d ch f miss
    | inr (child, hit) ↦
        change_lost c cs n t d ch f child hit
          (change-none cs child (sym (walk_hit c cs n t d ch child hit) ∙ h))
  ]

-- Behind an entry the walk goes on from it.
pub walk-strip :
    (cs q r : List Name) (root e : FileEntry)
    → walk cs root ≡ some e
    → strip cs q ≡ some r
    → walk q root ≡ walk r e
walk-strip [] q r root e h s =
    let same : root ≡ e = unfold walk in some-inj h in
    let same' : q ≡ r = unfold strip in some-inj s in rw (same, same')
walk-strip (c ∷ cs) [] r root e h s = absurd (unfold strip in cc s)
walk-strip (c ∷ cs) (k ∷ q) r (entry n t d ch) e h s =
    let (child, hit, rest) = walk-cons c cs n t d ch e h in
    elim (Bool-cases (bytes_eq c k)) [
      | inl same ↦
          let e' : k ≡ c = sym (bytes_eq→eq c k same) in
          walk_hit k q n t d ch child (rw e' hit)
          ∙ walk-strip cs q r child e rest (sym (strip_same c k cs q same) ∙ s)
      | inr other ↦ absurd (cc (sym s ∙ strip_other c k cs q other))
    ]

pub names_eq-strip_nil : (cs q : List Name) → strip cs q ≡ some [] → names_eq cs q ≡ true
unfolding names_eq strip
names_eq-strip_nil [] [] h = refl
names_eq-strip_nil [] (k ∷ q) h = absurd (cc h)
names_eq-strip_nil (c ∷ cs) [] h = absurd (cc h)
names_eq-strip_nil (c ∷ cs) (k ∷ q) h = ground (arith, names_eq-strip_nil cs q)

pub names_eq-strip_cons :
    (cs q : List Name) (k : Name) (r : List Name)
    → strip cs q ≡ some (k ∷ r)
    → names_eq cs q ≡ false
unfolding names_eq strip
names_eq-strip_cons [] [] k r h = absurd (cc h)
names_eq-strip_cons [] (c ∷ q) k r h = refl
names_eq-strip_cons (c ∷ cs) [] k r h = absurd (cc h)
names_eq-strip_cons (c ∷ cs) (j ∷ q) k r h = ground (arith, names_eq-strip_cons cs q k r)

pub names_eq-strip : (cs q : List Name) → strip cs q ≡ none → names_eq cs q ≡ false
unfolding names_eq strip
names_eq-strip [] q h = absurd (cc h)
names_eq-strip (c ∷ cs) [] h = refl
names_eq-strip (c ∷ cs) (k ∷ q) h = ground (arith, names_eq-strip cs q)

pub names_eq-append :
    (cs ds q r : List Name) → strip cs q ≡ some r → names_eq (cs ++ ds) q ≡ names_eq ds r
unfolding names_eq strip
names_eq-append [] ds q r h = ap (names_eq ds) (some-inj h)
names_eq-append (c ∷ cs) ds [] r h = absurd (cc h)
names_eq-append (c ∷ cs) ds (k ∷ q) r h = ground (arith, names_eq-append cs ds q r)

pub names_eq-append_none : (cs ds q : List Name) → strip cs q ≡ none → names_eq (cs ++ ds) q ≡ false
unfolding names_eq strip
names_eq-append_none [] ds q h = absurd (cc h)
names_eq-append_none (c ∷ cs) ds [] h = refl
names_eq-append_none (c ∷ cs) ds (k ∷ q) h = ground (arith, names_eq-append_none cs ds q)

pub is_below-append :
    (cs ds q r : List Name) → strip cs q ≡ some r → is_below (cs ++ ds) q ≡ is_below ds r
unfolding is_below strip
is_below-append [] ds q r h = ap (is_below ds) (some-inj h)
is_below-append (c ∷ cs) ds [] r h = absurd (cc h)
is_below-append (c ∷ cs) ds (k ∷ q) r h = ground (arith, is_below-append cs ds q r)

pub is_below-append_none : (cs ds q : List Name) → strip cs q ≡ none → is_below (cs ++ ds) q ≡ false
unfolding is_below strip
is_below-append_none [] ds q h = absurd (cc h)
is_below-append_none (c ∷ cs) ds [] h = refl
is_below-append_none (c ∷ cs) ds (k ∷ q) h = ground (arith, is_below-append_none cs ds q)

-- A walk of one component looks it up.
walk_one :
    (k n : Name) (t : FileType) (d : List ℕ) (ch : Dir)
    → walk (k ∷ []) (entry n t d ch) ≡ lookup k ch
walk_one k n t d ch = elim (Option-cases (lookup k ch)) [
  | inl miss ↦ walk_miss k [] n t d ch miss ∙ sym miss
  | inr (child, hit) ↦ walk_hit k [] n t d ch child hit ∙ (unfold walk in sym hit)
]

-- The walk to a parent and one step more.
pub walk-append :
    (cs : List Name) (k : Name) (root : FileEntry) (n : Name) (t : FileType) (d : List ℕ) (ch : Dir)
    → walk cs root ≡ some (entry n t d ch)
    → walk (cs ++ k ∷ []) root ≡ lookup k ch
walk-append [] k root n t d ch h =
    let same : root ≡ entry n t d ch = unfold walk in some-inj h in rw same (walk_one k n t d ch)
walk-append (c ∷ cs) k (entry n' t' d' ch') n t d ch h =
    let (child, hit, rest) = walk-cons c cs n' t' d' ch' (entry n t d ch) h in
    walk_hit c (cs ++ k ∷ []) n' t' d' ch' child hit ∙ walk-append cs k child n t d ch rest

-- Behind a path that leads nowhere there is nothing.
pub walk-append_none :
    (cs ds : List Name) (root : FileEntry) → walk cs root ≡ none → walk (cs ++ ds) root ≡ none
walk-append_none [] ds root h = absurd (unfold walk in cc h)
walk-append_none (c ∷ cs) ds (entry n t d ch) h = elim (Option-cases (lookup c ch)) [
  | inl miss ↦ walk_miss c (cs ++ ds) n t d ch miss
  | inr (child, hit) ↦
      walk_hit c (cs ++ ds) n t d ch child hit
      ∙ walk-append_none cs ds child (sym (walk_hit c cs n t d ch child hit) ∙ h)
]
