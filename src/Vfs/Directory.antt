-- ===== src/Vfs/Directory.antt =====
-- The map of an entry's children: what a key finds after each change of the map.
use shade_os.Base.{
  ◌≡◌, refl, true, false, none, some, arith, if◌then◌else◌, bytes_eq, bytes_eq_refl, bytes_eq→eq,
  ◌||◌,
}
use shade_os.Vfs.{Name, FileEntry, Dir, nil, cons, lookup, contains_key, insert, remove, put_back}

pub lookup-put_back :
    (k j : Name) (e : FileEntry) (d : Dir)
    → contains_key j d ≡ true
    → lookup k (put_back j e d) ≡ (if bytes_eq j k then some e else lookup k d)
unfolding lookup put_back contains_key
lookup-put_back k j e nil h = absurd (cc h)
lookup-put_back k j e (cons i f d) h = ground (
  arith,
  bytes_eq→eq i j,
  bytes_eq→eq i k,
  bytes_eq→eq j k,
  bytes_eq_refl k,
  bytes_eq_refl j,
  lookup-put_back k j e d,
)

pub lookup-insert :
    (k j : Name) (e : FileEntry) (d : Dir)
    → lookup k (insert j e d) ≡ (if bytes_eq j k then some e else lookup k d)
unfolding lookup insert
lookup-insert k j e nil = refl
lookup-insert k j e (cons i f d) = ground (
  arith,
  bytes_eq→eq i j,
  bytes_eq→eq i k,
  bytes_eq→eq j k,
  bytes_eq_refl k,
  bytes_eq_refl j,
  lookup-insert k j e d,
)

pub lookup_of_not_contains : (k : Name) (d : Dir) → contains_key k d ≡ false → lookup k d ≡ none
unfolding lookup contains_key
lookup_of_not_contains k nil h = refl
lookup_of_not_contains k (cons i f d) h = ground (arith, lookup_of_not_contains k d)

pub contains_of_lookup :
    (k : Name) (d : Dir) (e : FileEntry) → lookup k d ≡ some e → contains_key k d ≡ true
unfolding lookup contains_key
contains_of_lookup k nil e h = absurd (cc h)
contains_of_lookup k (cons i f d) e h = ground (arith, contains_of_lookup k d e)

pub contains_of_lookup-none : (k : Name) (d : Dir) → lookup k d ≡ none → contains_key k d ≡ false
unfolding lookup contains_key
contains_of_lookup-none k nil h = refl
contains_of_lookup-none k (cons i f d) h = ground (arith, contains_of_lookup-none k d)

-- A key stands at most once.
abbrev pub Distinct : Dir → Type 0
Distinct nil = Unit
Distinct (cons k e d) = (contains_key k d ≡ false) × Distinct d

pub lookup-remove :
    (k j : Name) (d : Dir)
    → Distinct d
    → lookup k (remove j d) ≡ (if bytes_eq j k then none else lookup k d)
unfolding lookup remove
lookup-remove k j nil h = ground arith
lookup-remove k j (cons i f d) h = ground (
  arith,
  bytes_eq→eq i j,
  bytes_eq→eq i k,
  bytes_eq→eq j k,
  bytes_eq_refl k,
  bytes_eq_refl j,
  lookup_of_not_contains i d h.0,
  lookup-remove k j d h.1,
)

pub contains_key-put_back :
    (k j : Name) (e : FileEntry) (d : Dir) → contains_key k (put_back j e d) ≡ contains_key k d
unfolding contains_key put_back
contains_key-put_back k j e nil = refl
contains_key-put_back k j e (cons i f d) = ground (arith, contains_key-put_back k j e d)

pub contains_key-insert :
    (k j : Name) (e : FileEntry) (d : Dir)
    → contains_key k (insert j e d) ≡ (bytes_eq j k || contains_key k d)
unfolding contains_key insert
contains_key-insert k j e nil = refl
contains_key-insert k j e (cons i f d) = ground (
  arith,
  bytes_eq→eq i j,
  bytes_eq→eq j k,
  bytes_eq_refl j,
  bytes_eq_refl k,
  contains_key-insert k j e d,
)

pub contains_key-remove :
    (k j : Name) (d : Dir) → contains_key k d ≡ false → contains_key k (remove j d) ≡ false
unfolding contains_key remove
contains_key-remove k j nil h = refl
contains_key-remove k j (cons i f d) h = ground (arith, contains_key-remove k j d)
