-- ===== src/Shell/Tables.antt =====
-- Environment variables, aliases and history as a user of the shell sees them.
use shade_os.Base.{
  ℕ, suc, ◌+◌, ◌-◌, ◌<◌, ◌≤◌, ◌≡◌, refl, ap, ◌∙◌, false, Option, none, some, List, [], ◌∷◌, ◌++◌,
  arith, ltb, if◌then◌else◌, bytes_eq, bytes_eq_refl, bytes_eq→eq, length, take, drop, replicate,
  min, map, Bool-cases, inl, inr, lt→ltb, length-replicate, ap₂, ltb→lt, not_ltb→le,
}
use shade_os.Shell.{
  get_str, str_eq, EnvVar, Alias, write_env, blank_env, set_env, get_env, set_alias, get_alias,
  write_history, shift_history, add_to_history, terminated,
}
use shade_os.Shell.Strings.{get_str-terminated, take-min, match_name-str_eq, get_str-write_field}

-- Every variable has a name field of 64 bytes and a value field of 256.
abbrev pub Sized : List EnvVar → Type 0
Sized [] = Unit
Sized (e ∷ env) = (length e.name ≡ 64) × (length e.value ≡ 256) × Sized env

get_env_written :
    (name value k : List ℕ) (e : EnvVar) (env : List EnvVar)
    → length e.name ≡ 64
    → length e.value ≡ 256
    → length (get_str name) < 64
    → length (get_str value) < 256
    → get_env k (write_env name value e ∷ env)
      ≡ (if bytes_eq (get_str name) (get_str k) then some (get_str value) else get_env k env)
unfolding get_env
get_env_written name value k e env sn sv n v =
    rw
      (
        get_str-write_field e.name name (omega (arith, n, sn)),
        get_str-write_field e.value value (omega (arith, v, sv)),
      )
      refl

get_env_matched :
    (name value k : List ℕ) (e : EnvVar) (env : List EnvVar)
    → get_str e.name ≡ get_str name
    → (if bytes_eq (get_str name) (get_str k) then some (get_str value) else get_env k env) ≡ (
        if bytes_eq (get_str name) (get_str k)
        then some (get_str value)
        else if str_eq e.name k
        then some (get_str e.value)
        else get_env k env)
get_env_matched name value k e env same = elim (Bool-cases (bytes_eq (get_str name) (get_str k))) [
  | inl hit ↦ rw hit refl
  | inr other ↦ rw (same, other) refl
]

get_env_passed :
    (name value k : List ℕ) (e : EnvVar) (o rest : Option (List ℕ))
    → bytes_eq (get_str e.name) (get_str name) ≡ false
    → o ≡ (if bytes_eq (get_str name) (get_str k) then some (get_str value) else rest)
    → (if str_eq e.name k then some (get_str e.value) else o) ≡ (
        if bytes_eq (get_str name) (get_str k)
        then some (get_str value)
        else if str_eq e.name k
        then some (get_str e.value)
        else rest)
get_env_passed name value k e o rest apart h = ground (
  arith,
  bytes_eq→eq (get_str e.name) (get_str k),
  bytes_eq→eq (get_str name) (get_str k),
  bytes_eq_refl (get_str k),
)

-- With room for one more variable and a name and a value that fit with their zeros, a name finds
-- the value just set for it, and every other name what it found before.
pub get_env-set_env :
    (name value k : List ℕ) (index : ℕ) (env : List EnvVar)
    → Sized env
    → length (get_str name) < 64
    → length (get_str value) < 256
    → index + length env < 50
    → get_env k (set_env name value index env)
      ≡ (if bytes_eq (get_str name) (get_str k) then some (get_str value) else get_env k env)
unfolding get_env set_env
get_env-set_env name value k index [] sized n v room = rw (lt→ltb index 50 (omega arith)) (
    get_env_written name value k blank_env [] (length-replicate {A = ℕ} 64 0)
      (length-replicate {A = ℕ} 256 0) n v)
get_env-set_env name value k index (e ∷ env) sized n v room =
    let m = match_name-str_eq e.name name (omega (arith, n, sized.0)) in
    let ih = get_env-set_env name value k (index + 1) env sized.2 n v (omega arith) in
    elim (Bool-cases (bytes_eq (get_str e.name) (get_str name))) [
      | inl hit ↦
          rw (m, hit)
            (get_env_written name value k e env sized.0 sized.1 n v
              ∙ get_env_matched name value k e env
                  (bytes_eq→eq (get_str e.name) (get_str name) hit))
      | inr other ↦
          rw (m, other)
            (get_env_passed name value k e (get_env k (set_env name value (index + 1) env))
              (get_env k env) other ih)
    ]

abbrev pub or_else : Option (List ℕ) → Option (List ℕ) → Option (List ℕ)
or_else none o = o
or_else (some a) o = some a

abbrev pub AllEntries : List (List ℕ) → Type 0
AllEntries [] = Unit
AllEntries (slot ∷ rest) = (length slot ≡ 1024) × AllEntries rest

get_alias-append :
    (k : List ℕ) (aliases : List Alias) (a : Alias)
    → get_alias k (aliases ++ a ∷ [])
      ≡ or_else (get_alias k aliases) (if str_eq a.name k then some (get_str a.command) else none)
unfolding get_alias
get_alias-append k [] a = refl
get_alias-append k (b ∷ aliases) a = elim (Bool-cases (str_eq b.name k)) [
  | inl hit ↦ rw hit refl
  | inr other ↦ rw other (get_alias-append k aliases a)
]

-- A copy of at most `n` bytes to a field with room for them and a zero.
get_str-field :
    (n : ℕ) (field src : List ℕ)
    → n < length field
    → get_str (terminated (min (length src) n) field src) ≡ get_str (take n src)
get_str-field n field src h =
    let swap : min (length src) n ≡ min n (length src) = omega arith in
    get_str-terminated (min (length src) n) field src (omega arith) (omega arith)
    ∙ ap (λ (i : ℕ). get_str (take i src)) swap
    ∙ ap get_str (take-min n src)

-- With room for one more alias, a name finds the alias that it found before, if any: a new command
-- for a name that has one is never found. Otherwise the new name, cut to 31 bytes, finds the new
-- command, cut to 255.
pub get_alias-set_alias :
    (name command k : List ℕ) (aliases : List Alias)
    → length aliases < 20
    → get_alias k (set_alias name command aliases)
      ≡ or_else (get_alias k aliases) (
          if bytes_eq (get_str (take 31 name)) (get_str k)
          then some (get_str (take 255 command))
          else none)
unfolding set_alias
get_alias-set_alias name command k aliases room =
    let field : List ℕ = replicate 32 0 in
    let field' : List ℕ = replicate 256 0 in
    let a : Alias = record {
      name = terminated (min (length name) 31) field name;
      command = terminated (min (length command) 255) field' command;
    } in
    let n = get_str-field 31 field name (omega (arith, length-replicate {A = ℕ} 32 0)) in
    let c = get_str-field 255 field' command (omega (arith, length-replicate {A = ℕ} 256 0)) in
    rw (lt→ltb (length aliases) 20 room) (
      get_alias-append k aliases a
      ∙ ap₂
          (λ (x y : List ℕ).
            or_else (get_alias k aliases) (if bytes_eq x (get_str k) then some y else none))
          n c)

shift_history_lem :
    (command slot : List ℕ) (rest : List (List ℕ))
    → AllEntries (slot ∷ rest)
    → map get_str (shift_history command (slot ∷ rest))
      ≡ map get_str rest ++ get_str (take 1023 command) ∷ []
unfolding shift_history
shift_history_lem command slot [] sized =
    ap (λ (t : List ℕ). t ∷ []) (get_str-field 1023 slot command (omega (arith, sized.0)))
shift_history_lem command slot (next ∷ rest) sized =
    ap (λ (t : List (List ℕ)). get_str next ∷ t) (shift_history_lem command next rest sized.1)

texts-append :
    (history : List (List ℕ)) (slot : List ℕ)
    → map get_str (history ++ slot ∷ []) ≡ map get_str history ++ get_str slot ∷ []
texts-append [] slot = refl
texts-append (h ∷ history) slot =
    ap (λ (t : List (List ℕ)). get_str h ∷ t) (texts-append history slot)

length-texts :
    (history : List (List ℕ)) (t : List ℕ)
    → length (map get_str history ++ t ∷ []) ≡ suc (length history)
length-texts [] t = refl
length-texts (h ∷ history) t = ap suc (length-texts history t)

-- The last ten of a list.
abbrev pub last_ten : List (List ℕ) → List (List ℕ)
last_ten xs = drop (length xs - 10) xs

full_history :
    (command : List ℕ) (history : List (List ℕ))
    → AllEntries history
    → length history ≤ 10
    → 10 ≤ length history
    → map get_str (shift_history command history)
      ≡ last_ten (map get_str history ++ get_str (take 1023 command) ∷ [])
full_history command [] sized few many = absurd (omega (arith, many))
full_history command (slot ∷ rest) sized few many =
    let one : 1 ≡ length (map get_str (slot ∷ rest) ++ get_str (take 1023 command) ∷ []) - 10 =
      omega (arith, length-texts (slot ∷ rest) (get_str (take 1023 command)), few, many) in
    shift_history_lem command slot rest sized
    ∙ ap (λ (i : ℕ). drop i (map get_str (slot ∷ rest) ++ get_str (take 1023 command) ∷ [])) one

-- Adding a command to a history of at most ten entries, each of 1024 bytes, keeps the last ten of
-- the earlier commands and the new one, which is cut to 1023 bytes.
pub add_to_history_lem :
    (command : List ℕ) (history : List (List ℕ))
    → AllEntries history
    → length history ≤ 10
    → map get_str (add_to_history command history)
      ≡ last_ten (map get_str history ++ get_str (take 1023 command) ∷ [])
unfolding add_to_history
add_to_history_lem command history sized few = elim (Bool-cases (ltb (length history) 10)) [
  | inl room ↦
      let slot : List ℕ = replicate 1024 0 in
      let t = get_str-field 1023 slot command (omega (arith, length-replicate {A = ℕ} 1024 0)) in
      let fits : 0 ≡ length (map get_str history ++ get_str (take 1023 command) ∷ []) - 10 = omega (
        arith,
        length-texts history (get_str (take 1023 command)),
        ltb→lt (length history) 10 room,
      ) in
      rw room (
        texts-append history (write_history command slot)
        ∙ ap (λ (x : List ℕ). map get_str history ++ x ∷ []) t
        ∙ ap (λ (i : ℕ). drop i (map get_str history ++ get_str (take 1023 command) ∷ [])) fits)
  | inr full ↦
      rw full (full_history command history sized few (not_ltb→le (length history) 10 full))
]
