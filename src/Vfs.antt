-- ===== src/Vfs.antt =====
-- The in-memory file system, kernel-rs/src/vfs.rs: a tree of entries whose children stand in a
-- `BTreeMap` keyed by name.
-- Strings are lists of characters, of which a path has one for each byte before its zero; a null
-- path is none. `BTreeMap` is the list of its entries in key order, which is also its iteration
-- order. A mutable reference into the tree is the function that changes the entry there. The
-- debug text that the constructors build is never written, and is left out.
pub mod Directory
pub mod View
pub mod Files
pub mod Names
pub mod Entries
pub mod Tree
pub mod Refine
pub mod Reach
pub mod Listing
mod Tests
use shade_os.Base.{
  ℕ, zero, suc, ◌+◌, ◌-◌, ◌%◌, ◌≡◌, Bool, true, false, not, ◌&&◌, ◌||◌, Option, none, some, List,
  [], ◌∷◌, ◌++◌, ltb, leb, ◌==◌, if◌then◌else◌, bytes_eq, length, take, ℤ, pos, negsuc, min,
}

abbrev pub Name : Type 0
Name = List ℕ

pub data FileType : Type 0 where
  regular directory : FileType

-- `FileEntry`: its name, type, data and children; `Dir` is the map of its children.
mutual
  pub data FileEntry : Type 0 where
    entry : Name → FileType → List ℕ → Dir → FileEntry

  pub data Dir : Type 0 where
    nil : Dir
    cons : Name → FileEntry → Dir → Dir

abbrev pub file_type : FileEntry → FileType
file_type (entry n t d c) = t

abbrev pub contents : FileEntry → List ℕ
contents (entry n t d c) = d

abbrev pub children : FileEntry → Dir
children (entry n t d c) = c

abbrev pub new_file : Name → FileEntry
new_file name = entry name regular [] nil

abbrev pub new_directory : Name → FileEntry
new_directory name = entry name directory [] nil

-- The order of `String` keys.
pub name_lt : Name → Name → Bool
name_lt [] [] = false
name_lt [] (y ∷ ys) = true
name_lt (x ∷ xs) [] = false
name_lt (x ∷ xs) (y ∷ ys) = ltb x y || ((x == y) && name_lt xs ys)

-- `get`
unfoldable pub lookup : Name → Dir → Option FileEntry
lookup k nil = none
lookup k (cons j e d) = if bytes_eq j k then some e else lookup k d

-- `contains_key`
pub contains_key : Name → Dir → Bool
contains_key k nil = false
contains_key k (cons j e d) = bytes_eq j k || contains_key k d

-- `insert`: an entry of that key is replaced.
pub insert : Name → FileEntry → Dir → Dir
insert k e nil = cons k e nil
insert k e (cons j f d) =
    if bytes_eq j k
    then cons j e d
    else if name_lt k j
    then cons k e (cons j f d)
    else cons j f (insert k e d)

-- `remove`
pub remove : Name → Dir → Dir
remove k nil = nil
remove k (cons j e d) = if bytes_eq j k then d else cons j e (remove k d)

-- The write through `get_mut`.
pub put_back : Name → FileEntry → Dir → Dir
put_back k e nil = nil
put_back k e (cons j f d) = if bytes_eq j k then cons j e d else cons j f (put_back k e d)

-- `split('/')`, then the filter and the collection of `get_path_components`: `cur` is the part
-- read so far.
unfoldable pub split_path : List ℕ → Name → List Name
split_path [] [] = []
split_path [] (c ∷ cur) = (c ∷ cur) ∷ []
split_path (b ∷ bs) cur =
    if b == b'/'
    then (if bytes_eq cur [] then split_path bs [] else cur ∷ split_path bs [])
    else split_path bs (cur ++ b ∷ [])

unfoldable pub get_path_components : Option (List ℕ) → List Name
get_path_components none = []
get_path_components (some path) = split_path path []

-- The walk of `find_entry`.
unfoldable pub walk : List Name → FileEntry → Option FileEntry
walk [] e = some e
walk (c ∷ cs) (entry n t d ch) = elim (lookup c ch) [ none ↦ none | some child ↦ walk cs child ]

-- ROOT_FS is none before `init`.
abbrev pub Fs : Type 0
Fs = Option FileEntry

unfoldable pub init : Fs
init = some (new_directory (b'/' ∷ []))

unfoldable pub find_entry : Option (List ℕ) → Fs → Option FileEntry
find_entry path none = none
find_entry path (some root) = walk (get_path_components path) root

-- A change of the entry at the end of a walk, and its answer; none if the walk fails.
pub change {ℓ} :
    {A : Type ℓ} → List Name → (FileEntry → FileEntry × A) → FileEntry → Option (FileEntry × A)
change [] f e = some (f e)
change (c ∷ cs) f (entry n t d ch) = elim (lookup c ch) [
  | none ↦ none
  | some child ↦ elim (change cs f child) [
    | none ↦ none
    | some (child', a) ↦ some (entry n t d (put_back c child' ch), a)
  ]
]

-- `split_last`: the last part, and the parts before it.
abbrev pub with_first : Name → Option (Name × List Name) → Option (Name × List Name)
with_first c none = some (c, [])
with_first c (some (last, init)) = some (last, c ∷ init)

pub split_last : List Name → Option (Name × List Name)
split_last [] = none
split_last (c ∷ cs) = with_first c (split_last cs)

-- What `create_file`, `create_directory` and `delete_file` do with the parent that
-- `find_parent_and_name` returns; -2 if it returns none.
pub at_parent : Option (List ℕ) → (Name → FileEntry → FileEntry × ℤ) → Fs → Fs × ℤ
at_parent path f none = (none, negsuc 1)
at_parent path f (some root) = elim (split_last (get_path_components path)) [
  | none ↦ (some root, negsuc 1)
  | some (name, parents) ↦ elim (change parents (f name) root) [
    | none ↦ (some root, negsuc 1)
    | some (root', r) ↦ (some root', r)
  ]
]

-- The bodies of the two creating functions: -17 if the name exists.
pub create_in : (Name → FileEntry) → Name → FileEntry → FileEntry × ℤ
create_in make name (entry n t d ch) =
    if contains_key name ch
    then (entry n t d ch, negsuc 16)
    else (entry n t d (insert name (make name) ch), pos 0)

unfoldable pub create_file : Option (List ℕ) → Fs → Fs × ℤ
create_file path fs = at_parent path (create_in new_file) fs

unfoldable pub create_directory : Option (List ℕ) → Fs → Fs × ℤ
create_directory path fs = at_parent path (create_in new_directory) fs

pub delete_in : Name → FileEntry → FileEntry × ℤ
delete_in name (entry n t d ch) =
    if contains_key name ch
    then (entry n t d (remove name ch), pos 0)
    else (entry n t d ch, negsuc 1)

unfoldable pub delete_file : Option (List ℕ) → Fs → Fs × ℤ
delete_file path fs = at_parent path delete_in fs

unfoldable pub read_entry : FileEntry → ℕ → ℤ × List ℕ
read_entry (entry n regular d ch) max_len = (pos (min (length d) max_len), take max_len d)
read_entry (entry n directory d ch) max_len = (negsuc 20, [])

-- The answer, and the bytes copied to the buffer. `max_len` is an i32.
unfoldable pub read_file : Option (List ℕ) → Bool → ℤ → Fs → ℤ × List ℕ
unfolding read_entry
read_file path buf_null (negsuc n) fs = (negsuc 21, [])
read_file path buf_null (pos max_len) fs =
    if buf_null || (max_len == 0)
    then (negsuc 21, [])
    else elim (find_entry path fs) [ none ↦ (negsuc 1, []) | some e ↦ read_entry e max_len ]

pub write_entry : List ℕ → FileEntry → FileEntry × ℕ
write_entry buf (entry n regular d ch) = (entry n regular buf ch, length buf)
write_entry buf (entry n directory d ch) = (entry n directory d ch, 0)

-- `buf` is none for null, else the `len` bytes there.
pub write_file : Option (List ℕ) → Option (List ℕ) → Fs → Fs × ℕ
write_file path none fs = (fs, 0)
write_file path (some buf) none = (none, 0)
write_file path (some buf) (some root) =
    elim (change (get_path_components path) (write_entry buf) root) [
      | none ↦ (some root, 0)
      | some (root', n) ↦ (some root', n)
    ]

abbrev pub mode_of : FileType → ℕ
mode_of directory = 0o040755
mode_of regular = 0o100644

-- `rust_vfs_stat`: the answer and the ten words written to the buffer. The pseudo-inode is the
-- address of the path, `addr`.
pub stat : Option (List ℕ) → ℕ → Bool → Fs → ℤ × List ℕ
stat none addr buf_null fs = (negsuc 21, [])
stat (some path) addr buf_null fs =
    if buf_null then (negsuc 21, []) else elim (find_entry (some path) fs) [
      | none ↦ (negsuc 1, [])
      | some e ↦ (
        pos 0,
        1
            ∷ addr
            ∷ mode_of (file_type e)
            ∷ 1
            ∷ 0
            ∷ 0
            ∷ length (contents e)
            ∷ 1640995200
            ∷ 1640995200
            ∷ 1640995200
            ∷ [],
      )
    ]
