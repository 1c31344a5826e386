-- ===== src/UsbExec/Child/Args.antt =====
-- The arguments of a process are those that the host joined.
use t2_firmware.Prelude.{
  ℕ, zero, suc, ◌+◌, ◌-◌, ◌≡◌, ◌≢◌, ◌≤◌, ◌<◌, refl, ap, ap₂, sym, ◌∙◌, List, [], ◌∷◌, ◌++◌, map,
  if◌then◌else◌, drop, length, length-append, append_assoc, append-nil, arith, take, is_empty,
}
use t2_firmware.UsbExec.{Read, got, ok, ◌>>=◌}
use t2_firmware.UsbExec.Child.{
  read_command, scan, c_string, string_at, argv, child, max_args, max_command,
}

-- the arguments with a 0 between two
abbrev pub join : List ℕ → List (List ℕ) → List ℕ
join a [] = a
join a (b ∷ l) = a ++ 0 ∷ join b l

abbrev pub NoZero : List ℕ → Type 0
NoZero [] = Unit {0}
NoZero (b ∷ bs) = (b ≢ 0) × NoZero bs

abbrev pub NoZeros : List (List ℕ) → Type 0
NoZeros [] = Unit {0}
NoZeros (a ∷ l) = NoZero a × NoZeros l

scan-NoZero : (a : List ℕ) (i argc : ℕ) → NoZero a → scan a i argc ≡ []
unfolding scan
scan-NoZero [] i argc h = refl
scan-NoZero (b ∷ bs) i argc h = ground (arith, scan-NoZero bs (suc i) argc)

scan-arg :
    (a r : List ℕ) (i argc : ℕ)
    → NoZero a
    → argc < max_args
    → scan (a ++ 0 ∷ r) i argc ≡ suc (i + length a) ∷ scan r (suc (i + length a)) (suc argc)
unfolding scan
scan-arg [] r i argc h k =
    let j : suc i ≡ suc (i + 0) = omega arith in ground (arith, ap (λ m. m ∷ scan r m (suc argc)) j)
scan-arg (b ∷ bs) r i argc h k =
    let j : suc (suc i + length bs) ≡ suc (i + suc (length bs)) = omega arith in
    ground (arith, scan-arg bs r (suc i) argc, ap (λ m. m ∷ scan r m (suc argc)) j)

c_string-arg : (a r : List ℕ) → NoZero a → c_string (a ++ 0 ∷ r) ≡ a
c_string-arg [] r h = refl
c_string-arg (b ∷ bs) r h = ground (arith, c_string-arg bs r)

c_string-last : (a : List ℕ) → NoZero a → c_string a ≡ a
c_string-last [] h = refl
c_string-last (b ∷ bs) h = ground (arith, c_string-last bs)

drop-append : (xs ys : List ℕ) → drop (length xs) (xs ++ ys) ≡ ys
drop-append [] ys = refl
drop-append (x ∷ xs) ys = drop-append xs ys

c_string-join : (a : List ℕ) (l : List (List ℕ)) → NoZero a → c_string (join a l) ≡ a
c_string-join a [] h = c_string-last a h
c_string-join a (b ∷ l) h = c_string-arg a (join b l) h

string_at-join :
    (pre a : List ℕ) (l : List (List ℕ)) → NoZero a → string_at (pre ++ join a l) (length pre) ≡ a
string_at-join pre a l h = ap c_string (drop-append pre (join a l)) ∙ c_string-join a l h

-- one argument more before the rest
past : List ℕ → List ℕ → List ℕ
past pre a = pre ++ (a ++ 0 ∷ [])

length-past : (pre a : List ℕ) → length (past pre a) ≡ suc (length pre + length a)
unfolding past
length-past pre a = omega (arith, length-append pre (a ++ 0 ∷ []), length-append a (0 ∷ []))

past-append : (pre a r : List ℕ) → past pre a ++ r ≡ pre ++ (a ++ 0 ∷ r)
unfolding past
past-append pre a r =
    append_assoc pre (a ++ 0 ∷ []) r ∙ ap (λ x. pre ++ x) (append_assoc a (0 ∷ []) r)

-- the strings at the places that the scan finds
strings :
    (pre a : List ℕ) (l : List (List ℕ)) (argc : ℕ)
    → NoZero a
    → NoZeros l
    → argc + length l ≤ max_args
    → map (string_at (pre ++ join a l)) (scan (join a l) (length pre) argc) ≡ l
strings pre a [] argc h k n = ap (map (string_at (pre ++ a))) (scan-NoZero a (length pre) argc h)
strings pre a (b ∷ l) argc h k n =
    let r = join b l in
    let w = pre ++ (a ++ 0 ∷ r) in
    let e : scan (a ++ 0 ∷ r) (length pre) argc
        ≡ length (past pre a) ∷ scan r (length (past pre a)) (suc argc) =
      scan-arg a r (length pre) argc h (omega arith)
      ∙ ap (λ j. j ∷ scan r j (suc argc)) (sym (length-past pre a)) in
    ap (map (string_at w)) e
    ∙ ap (λ x. map (string_at x) (length (past pre a) ∷ scan r (length (past pre a)) (suc argc)))
        (sym (past-append pre a r))
    ∙ ap₂ (λ x y. x ∷ y) (string_at-join (past pre a) b l k.0)
        (strings (past pre a) b l (suc argc) k.0 k.1 (omega arith))

-- A command that joins at most 255 strings without a 0 by single zeros is split into these strings.
pub argv-join :
    (a : List ℕ) (l : List (List ℕ))
    → NoZero a
    → NoZeros l
    → suc (length l) ≤ max_args
    → argv (join a l) ≡ a ∷ l
unfolding argv
argv-join a l h k n = ap₂ (λ x y. x ∷ y) (c_string-join a l h) (strings [] a l 1 h k (omega arith))

-- all bytes of some answers
abbrev pub joined : List (List ℕ) → List ℕ
joined [] = []
joined (xs ∷ l) = xs ++ joined l

abbrev pub reads_of : List (List ℕ) → List Read
reads_of [] = got [] ∷ []
reads_of (xs ∷ l) = got xs ∷ reads_of l

abbrev pub NoEmpty : List (List ℕ) → Type 0
NoEmpty [] = Unit {0}
NoEmpty (xs ∷ l) = (0 < length xs) × NoEmpty l

take_all : (n : ℕ) (xs : List ℕ) → length xs ≤ n → take n xs ≡ xs
take_all zero [] h = refl
take_all (suc n) [] h = refl
take_all zero (x ∷ xs) h = absurd (omega arith)
take_all (suc n) (x ∷ xs) h = ap (λ l. x ∷ l) (take_all n xs (omega arith))

read_command-end : (rs : List Read) (cmd : List ℕ) → read_command (got [] ∷ rs) cmd ≡ ok cmd
unfolding read_command
read_command-end rs cmd =
    ap (λ ys. if is_empty ys then ok cmd else read_command rs (cmd ++ ys))
      (take_all (max_command - length cmd) [] (omega arith))

read_command-more :
    (x : ℕ) (xs : List ℕ) (rs : List Read) (cmd : List ℕ)
    → length cmd + length (x ∷ xs) ≤ max_command
    → read_command (got (x ∷ xs) ∷ rs) cmd ≡ read_command rs (cmd ++ x ∷ xs)
unfolding read_command
read_command-more x xs rs cmd h =
    ap (λ ys. if is_empty ys then ok cmd else read_command rs (cmd ++ ys))
      (take_all (max_command - length cmd) (x ∷ xs) (omega arith))

read_command-joined :
    (l : List (List ℕ)) (cmd : List ℕ)
    → NoEmpty l
    → length cmd + length (joined l) ≤ max_command
    → read_command (reads_of l) cmd ≡ ok (cmd ++ joined l)
read_command-joined [] cmd h n = read_command-end [] cmd ∙ ap ok (sym (append-nil cmd))
read_command-joined ([] ∷ l) cmd h n = absurd (omega (arith, h.0))
read_command-joined ((x ∷ xs) ∷ l) cmd h n =
    read_command-more x xs (reads_of l) cmd (omega (arith, length-append (x ∷ xs) (joined l)))
    ∙ read_command-joined l (cmd ++ x ∷ xs) h.1
        (omega (arith, length-append (x ∷ xs) (joined l), length-append cmd (x ∷ xs)))
    ∙ ap ok (append_assoc cmd (x ∷ xs) (joined l))

-- However a command that joins at most 255 strings without a 0, and has at most 1023 bytes, is cut
-- into the answers of `read`, the process that the host closes the control pipe of is started with
-- these strings.
pub child-join :
    (a : List ℕ) (l : List (List ℕ)) (cuts : List (List ℕ))
    → NoZero a
    → NoZeros l
    → suc (length l) ≤ max_args
    → joined cuts ≡ join a l
    → length (join a l) ≤ max_command
    → NoEmpty cuts
    → child (reads_of cuts) ≡ ok (a ∷ l)
unfolding child
child-join a l cuts h k n e m c =
    ap (λ r. r >>= λ cmd. ok (argv cmd))
      (read_command-joined cuts [] c (omega (arith, ap length e)) ∙ ap ok e)
    ∙ ap ok (argv-join a l h k n)
