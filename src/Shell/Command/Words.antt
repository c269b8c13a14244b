-- ===== src/Shell/Command/Words.antt =====
-- Words on the command line: they are parsed into the arguments.
use shade_os.Base.{
  ℕ, zero, suc, ◌+◌, ◌-◌, ◌≤◌, ◌<◌, ◌≡◌, ◌≢◌, refl, sym, ap, subst, ◌∙◌, true, false, List, [], ◌∷◌,
  ◌++◌, some, arith, ltb, length, length-append, append_assoc, append-nil, get_elem?, ap₂, some-inj,
  ne→not_==,
}
use shade_os.Shell.{get_str}
use shade_os.Shell.Command.{
  max_args, args_size, Parser, step, full, parse, skip_blanks, start, finish, parse_command_heap,
  skip_arg, get_arg_heap,
}

-- Bytes that are not zero, blank or a quote.
abbrev pub IsPlain : List ℕ → Type 0
IsPlain [] = Unit
IsPlain (c ∷ cs) = (c ≢ 0) × (c ≢ 32) × (c ≢ 9) × (c ≢ 34) × (c ≢ 39) × IsPlain cs

-- Plain words of at least one byte.
abbrev pub AreWords : List (List ℕ) → Type 0
AreWords [] = Unit
AreWords (w ∷ ws) = (0 < length w) × IsPlain w × AreWords ws

-- The words with a space between.
abbrev pub unwords : List (List ℕ) → List ℕ
unwords [] = []
unwords (w ∷ []) = w
unwords (w ∷ v ∷ ws) = w ++ 32 ∷ unwords (v ∷ ws)

-- The words with a zero behind each.
abbrev pub terminated_all : List (List ℕ) → List ℕ
terminated_all [] = []
terminated_all (w ∷ ws) = w ++ 0 ∷ terminated_all ws

-- The parser outside of quotes, with the last argument begun.
abbrev at_word : List ℕ → ℕ → ℕ → Parser
at_word written begun argc = record {
  written = written;
  arg_start = begun;
  argc = argc;
  in_quotes = false;
  quote_char = 0;
}

step-plain :
    (c : ℕ) (out : List ℕ) (begun argc : ℕ)
    → c ≢ 32
    → c ≢ 9
    → c ≢ 34
    → c ≢ 39
    → step c (at_word out begun argc) ≡ at_word (out ++ c ∷ []) begun argc
unfolding step
step-plain c out begun argc a b d e = ground arith

-- A plain word is written as it is.
parse-word :
    (w rest out : List ℕ) (begun argc : ℕ)
    → IsPlain w
    → argc < max_args
    → length out + length w ≤ args_size - 64
    → parse (w ++ rest) (at_word out begun argc) ≡ parse rest (at_word (out ++ w) begun argc)
unfolding parse
parse-word [] rest out begun argc p lt le =
    ap (λ (o : List ℕ). parse rest (at_word o begun argc)) (sym (append-nil out))
parse-word (c ∷ w) rest out begun argc (z, s, t, q, r, p) lt le =
    let go_on : full (at_word out begun argc) ≡ false = ground arith in
    let one : step c (at_word out begun argc) ≡ at_word (out ++ c ∷ []) begun argc =
      step-plain c out begun argc s t q r in
    let more : length (out ++ c ∷ []) + length w ≤ args_size - 64 =
      omega (arith, length-append out (c ∷ []), le) in
    rw (go_on, one, parse-word w rest (out ++ c ∷ []) begun argc p lt more)
      (ap (λ (o : List ℕ). parse rest (at_word o begun argc)) (append_assoc out (c ∷ []) w))

-- A blank behind a word ends the argument.
step-blank :
    (w out : List ℕ) (argc : ℕ)
    → 0 < length w
    → step 32 (at_word (out ++ w) (length out) argc)
      ≡ at_word ((out ++ w) ++ 0 ∷ []) (length ((out ++ w) ++ 0 ∷ [])) (argc + 1)
unfolding step
step-blank w out argc some_bytes =
    let longer : ltb (length out) (length (out ++ w)) ≡ true =
      ground (arith, length-append out w) in
    rw longer (
      ap (λ (k : ℕ). at_word ((out ++ w) ++ 0 ∷ []) k (argc + 1))
        (sym (length-append (out ++ w) (0 ∷ []))))

parse-nil : (p : Parser) → parse [] p ≡ p
unfolding parse
parse-nil p = refl

parse-blank :
    (w out rest : List ℕ) (argc : ℕ)
    → 0 < length w
    → argc < max_args
    → length out + length w < args_size - 64
    → parse (32 ∷ rest) (at_word (out ++ w) (length out) argc)
      ≡ parse rest (at_word ((out ++ w) ++ 0 ∷ []) (length ((out ++ w) ++ 0 ∷ [])) (argc + 1))
unfolding parse
parse-blank w out rest argc some_bytes lt le =
    let go_on : full (at_word (out ++ w) (length out) argc) ≡ false =
      ground (arith, length-append out w) in
    rw (go_on, step-blank w out argc some_bytes) refl

finish-start : finish start ≡ ([], 0)
unfolding finish
finish-start = refl

finish-word :
    (w out : List ℕ) (argc : ℕ)
    → 0 < length w
    → argc < max_args
    → finish (at_word (out ++ w) (length out) argc) ≡ ((out ++ w) ++ 0 ∷ [], argc + 1)
unfolding finish
finish-word w out argc some_bytes lt =
    let longer : ltb (length out) (length (out ++ w)) ≡ true =
      ground (arith, length-append out w) in
    let room : ltb argc max_args ≡ true = ground arith in rw (longer, room) refl

parse-words :
    (w : List ℕ) (ws : List (List ℕ)) (out : List ℕ) (argc : ℕ)
    → AreWords (w ∷ ws)
    → argc + length (w ∷ ws) ≤ max_args
    → length out + length (terminated_all (w ∷ ws)) ≤ args_size - 64
    → finish (parse (unwords (w ∷ ws)) (at_word out (length out) argc))
      ≡ (out ++ terminated_all (w ∷ ws), argc + length (w ∷ ws))
parse-words w [] out argc (some_bytes, plain, _) args room =
    let fits : length out + length w ≤ args_size - 64 =
      omega (arith, room, length-append w (0 ∷ [])) in
    let read = parse-word w [] out (length out) argc plain (omega (arith, args)) fits in
    let e : finish (parse w (at_word out (length out) argc)) ≡ ((out ++ w) ++ 0 ∷ [], argc + 1) =
      subst
        (λ (l : List ℕ).
          finish (parse l (at_word out (length out) argc)) ≡ ((out ++ w) ++ 0 ∷ [], argc + 1))
        (append-nil w)
        (ap finish (read ∙ parse-nil (at_word (out ++ w) (length out) argc))
          ∙ finish-word w out argc some_bytes (omega (arith, args))) in
    e ∙ ap (λ (l : List ℕ). (l, argc + 1)) (append_assoc out w (0 ∷ []))
parse-words w (v ∷ ws) out argc (some_bytes, plain, others) args room =
    let split : length (terminated_all (w ∷ v ∷ ws))
        ≡ length w + suc (length (terminated_all (v ∷ ws))) =
      length-append w (0 ∷ terminated_all (v ∷ ws)) in
    let out' : List ℕ = (out ++ w) ++ 0 ∷ [] in
    let size : length out' ≡ length out + length w + 1 =
      omega (arith, length-append (out ++ w) (0 ∷ []), length-append out w) in
    let read =
      parse-word w (32 ∷ unwords (v ∷ ws)) out (length out) argc plain (omega (arith, args))
        (omega (arith, room, split)) in
    let ended =
      parse-blank w out (unwords (v ∷ ws)) argc some_bytes (omega (arith, args))
        (omega (arith, room, split)) in
    let rest =
      parse-words v ws out' (argc + 1) others (omega (arith, args))
        (omega (arith, room, split, size)) in
    ap finish (read ∙ ended)
    ∙ rest
    ∙ ap₂ (λ (l : List ℕ) (n : ℕ). (l, n))
        (append_assoc (out ++ w) (0 ∷ []) (terminated_all (v ∷ ws))
          ∙ append_assoc out w (0 ∷ terminated_all (v ∷ ws)))
        (omega arith)

skip_blanks-words :
    (w : List ℕ) (ws : List (List ℕ))
    → AreWords (w ∷ ws)
    → skip_blanks (unwords (w ∷ ws)) ≡ unwords (w ∷ ws)
unfolding skip_blanks
skip_blanks-words [] ws (some_bytes, _, _) = absurd (omega arith)
skip_blanks-words (c ∷ w) [] (_, (_, s, t, _, _, _), _) = ground arith
skip_blanks-words (c ∷ w) (v ∷ ws) (_, (_, s, t, _, _, _), _) = ground arith

parse_command_heap-words :
    (ws : List (List ℕ))
    → AreWords ws
    → length ws ≤ max_args
    → length (terminated_all ws) ≤ args_size - 64
    → parse_command_heap (unwords ws) ≡ (terminated_all ws, length ws)
unfolding parse_command_heap skip_blanks
parse_command_heap-words [] words args room = ap finish (parse-nil start) ∙ finish-start
parse_command_heap-words (w ∷ ws) words args room = rw (skip_blanks-words w ws words) (
    parse-words w ws [] 0 words (omega (arith, args)) (omega (arith, room))
    ∙ ap (λ (n : ℕ). (terminated_all (w ∷ ws), n)) (omega arith))

get_str-word : (w rest : List ℕ) → IsPlain w → get_str (w ++ 0 ∷ rest) ≡ w
unfolding get_str
get_str-word [] rest p = refl
get_str-word (c ∷ w) rest (z, _, _, _, _, p) =
    rw (ne→not_== c 0 z) (ap (λ (l : List ℕ). c ∷ l) (get_str-word w rest p))

skip_arg-word : (w rest : List ℕ) → IsPlain w → skip_arg (w ++ 0 ∷ rest) ≡ rest
unfolding skip_arg
skip_arg-word [] rest p = refl
skip_arg-word (c ∷ w) rest (z, _, _, _, _, p) = rw (ne→not_== c 0 z) (skip_arg-word w rest p)

-- The buffer may hold anything behind the arguments.
get_arg_heap-word :
    (ws : List (List ℕ)) (behind : List ℕ) (n : ℕ) (w : List ℕ)
    → AreWords ws
    → get_elem? ws n ≡ some w
    → get_arg_heap (terminated_all ws ++ behind) n ≡ w
unfolding get_arg_heap
get_arg_heap-word [] behind n w words h = absurd (cc h)
get_arg_heap-word (v ∷ ws) behind zero w (_, p, _) h =
    rw (append_assoc v (0 ∷ terminated_all ws) behind)
      (get_str-word v (terminated_all ws ++ behind) p ∙ some-inj h)
get_arg_heap-word (v ∷ ws) behind (suc n) w (_, p, words) h =
    rw
      (
        append_assoc v (0 ∷ terminated_all ws) behind,
        skip_arg-word v (terminated_all ws ++ behind) p,
      )
      (get_arg_heap-word ws behind n w words h)

-- Plain words with a space between, at most 32 of them, which fit in the buffer with their zeros and
-- 64 bytes to spare: the parser counts them, and the argument `n` is the word `n`, whatever is in the
-- buffer behind the arguments.
pub get_arg_heap-parse_command_heap :
    (ws : List (List ℕ))
    → AreWords ws
    → length ws ≤ max_args
    → length (terminated_all ws) ≤ args_size - 64
    → ((parse_command_heap (unwords ws)).1 ≡ length ws)
      × ((behind : List ℕ) (n : ℕ) (w : List ℕ)
          → get_elem? ws n ≡ some w
          → get_arg_heap ((parse_command_heap (unwords ws)).0 ++ behind) n ≡ w)
get_arg_heap-parse_command_heap ws words args room =
    let e = parse_command_heap-words ws words args room in
    (ap (λ (r : List ℕ × ℕ). r.1) e, λ behind n w h. rw e (get_arg_heap-word ws behind n w words h))
