-- ===== src/Vfs/Tree.antt =====
-- The shape of the tree: in every directory a name stands once, and an entry bears the name
-- under which it stands. Each operation keeps it.
use shade_os.Base.{
  ℕ, ◌≡◌, refl, sym, ap, ◌∙◌, true, false, some, some-inj, List, [], ◌∷◌, arith, bytes_eq,
  bytes_eq→eq, bytes_eq_refl, Bool-cases, inl, inr, subst,
}
use shade_os.Vfs.{
  Name, FileEntry, entry, Dir, nil, cons, FileType, regular, directory, file_type, lookup, walk,
  change, contains_key, insert, remove, put_back, name_lt, create_in, delete_in, write_entry,
}
use shade_os.Vfs.Directory.{
  contains_key-put_back, contains_key-insert, contains_key-remove, Distinct,
}
use shade_os.Vfs.View.{change_back, walk-cons}

abbrev pub name : FileEntry → Name
name (entry n t d ch) = n

unfoldable mutual
  pub IsTree : FileEntry → Type 0
  IsTree (entry n t d ch) = AreTrees ch

  pub AreTrees : Dir → Type 0
  AreTrees nil = Unit
  AreTrees (cons k e d) = (contains_key k d ≡ false) × (name e ≡ k) × IsTree e × AreTrees d

pub AreTrees-Distinct : (d : Dir) → AreTrees d → Distinct d
unfolding AreTrees
AreTrees-Distinct nil h = h
AreTrees-Distinct (cons k e d) h = (h.0, AreTrees-Distinct d h.3)

other_way : (k j : Name) → bytes_eq j k ≡ false → bytes_eq k j ≡ false
other_way k j h = ground (arith, bytes_eq→eq k j, bytes_eq_refl k)

lookup-IsTree :
    (k : Name) (d : Dir) (e : FileEntry)
    → AreTrees d
    → lookup k d ≡ some e
    → (name e ≡ k) × IsTree e
unfolding AreTrees lookup
lookup-IsTree k nil e h l = absurd (cc l)
lookup-IsTree k (cons j f d) e h l = elim (Bool-cases (bytes_eq j k)) [
  | inl same ↦
      let e' : f ≡ e = some-inj (rw same at l) in
      (sym (ap name e') ∙ h.1 ∙ bytes_eq→eq j k same, subst IsTree e' h.2)
  | inr other ↦ lookup-IsTree k d e h.3 (rw other at l)
]

put_back-AreTrees :
    (k : Name) (e : FileEntry) (d : Dir)
    → AreTrees d
    → name e ≡ k
    → IsTree e
    → AreTrees (put_back k e d)
unfolding AreTrees put_back
put_back-AreTrees k e nil h n t = h
put_back-AreTrees k e (cons j f d) h n t = elim (Bool-cases (bytes_eq j k)) [
  | inl same ↦ rw same (h.0, n ∙ sym (bytes_eq→eq j k same), t, h.3)
  | inr other ↦
      rw other (contains_key-put_back j k e d ∙ h.0, h.1, h.2, put_back-AreTrees k e d h.3 n t)
]

insert-AreTrees :
    (k : Name) (e : FileEntry) (d : Dir)
    → AreTrees d
    → name e ≡ k
    → IsTree e
    → contains_key k d ≡ false
    → AreTrees (insert k e d)
unfolding AreTrees insert contains_key
insert-AreTrees k e nil h n t c = (refl, n, t, h)
insert-AreTrees k e (cons j f d) h n t c = elim (Bool-cases (bytes_eq j k)) [
  | inl same ↦ let bad : true ≡ false = rw same at c in absurd (cc bad)
  | inr other ↦
      let c' : contains_key k d ≡ false = rw other at c in
      elim (Bool-cases (name_lt k j)) [
        | inl before ↦ rw (other, before) (c, n, t, h)
        | inr behind ↦
            rw (other, behind)
              (
                contains_key-insert j k e d ∙ rw (other_way k j other) h.0,
                h.1,
                h.2,
                insert-AreTrees k e d h.3 n t c',
              )
      ]
]

remove-AreTrees : (k : Name) (d : Dir) → AreTrees d → AreTrees (remove k d)
unfolding AreTrees remove
remove-AreTrees k nil h = h
remove-AreTrees k (cons j e d) h = elim (Bool-cases (bytes_eq j k)) [
  | inl same ↦ rw same h.3
  | inr other ↦ rw other (contains_key-remove j k d h.0, h.1, h.2, remove-AreTrees k d h.3)
]

-- A change of one entry that keeps its shape, its name and its type.
abbrev pub Keeps {ℓ} : {A : Type ℓ} → (FileEntry → FileEntry × A) → Type 0
Keeps f =
    (e : FileEntry)
    → IsTree e
    → IsTree (f e).0 × (name (f e).0 ≡ name e) × (file_type (f e).0 ≡ file_type e)

step :
    (c : Name) (child : FileEntry) (n : Name) (t : FileType) (d : List ℕ) (ch : Dir)
    → IsTree (entry n t d ch)
    → name child ≡ c
    → IsTree child
    → IsTree (entry n t d (put_back c child ch))
unfolding IsTree
step c child n t d ch tree same sub = put_back-AreTrees c child ch tree same sub

-- Such a change at the end of a path keeps the tree.
pub change-IsTree {ℓ} :
    {A : Type ℓ} (f : FileEntry → FileEntry × A) (cs : List Name) (root root' : FileEntry) (a : A)
    → Keeps f
    → IsTree root
    → change cs f root ≡ some (root', a)
    → IsTree root' × (name root' ≡ name root) × (file_type root' ≡ file_type root)
change-IsTree f [] root root' a keeps t h =
    let e : (f root).0 ≡ root' = unfold change in cc h in
    (
      subst IsTree e (keeps root t).0,
      sym (ap name e) ∙ (keeps root t).1,
      sym (ap file_type e) ∙ (keeps root t).2,
    )
change-IsTree f (c ∷ cs) (entry n t d ch) root' a keeps tree h =
    let (child, child', hit, rest, e) = change_back c cs n t d ch f root' a h in
    let sub = lookup-IsTree c ch child (unfold IsTree in tree) hit in
    let ih = change-IsTree f cs child child' a keeps sub.1 rest in
    rw e (step c child' n t d ch tree (ih.1 ∙ sub.0) ih.0, refl, refl)

pub walk-IsTree :
    (cs : List Name) (root e : FileEntry) → IsTree root → walk cs root ≡ some e → IsTree e
walk-IsTree [] root e t h = let same : root ≡ e = unfold walk in some-inj h in subst IsTree same t
walk-IsTree (c ∷ cs) (entry n t d ch) e tree h =
    let (child, hit, rest) = walk-cons c cs n t d ch e h in
    walk-IsTree cs child e (lookup-IsTree c ch child (unfold IsTree in tree) hit).1 rest

pub create_in-Keeps :
    (make : Name → FileEntry) (k : Name)
    → IsTree (make k)
    → name (make k) ≡ k
    → Keeps (create_in make k)
unfolding create_in IsTree
create_in-Keeps make k fresh same (entry n t d ch) tree = elim (Bool-cases (contains_key k ch)) [
  | inl exists ↦ rw exists (tree, refl, refl)
  | inr new ↦ rw new (insert-AreTrees k (make k) ch tree same fresh new, refl, refl)
]

pub delete_in-Keeps : (k : Name) → Keeps (delete_in k)
unfolding delete_in IsTree
delete_in-Keeps k (entry n t d ch) tree = elim (Bool-cases (contains_key k ch)) [
  | inl found ↦ rw found (remove-AreTrees k ch tree, refl, refl)
  | inr missing ↦ rw missing (tree, refl, refl)
]

pub write_entry-Keeps : (buf : List ℕ) → Keeps (write_entry buf)
unfolding write_entry IsTree
write_entry-Keeps buf (entry n regular d ch) tree = (tree, refl, refl)
write_entry-Keeps buf (entry n directory d ch) tree = (tree, refl, refl)
