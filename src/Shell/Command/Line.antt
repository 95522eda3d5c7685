-- ===== src/Shell/Command/Line.antt =====
-- A line that is typed is executed as its words.
use comp.Base.{
  ℕ, zero, suc, ◌+◌, ◌-◌, ◌≤◌, ◌<◌, ◌≡◌, ◌≢◌, refl, sym, ap, ◌∙◌, inl, inr, List, [], ◌∷◌, ◌++◌,
  map, Bool, true, false, ltb, leb, ◌==◌, if◌then◌else◌, ◌&&◌, length, length-append, All, arith,
  Bool-cases, Outcome, ok, ◌>>=◌,
}
use mathlib.Core.List.{append_assoc}
use comp.Shell.{ℤ, pos, difference, strcmp}
use comp.Shell.Words.{words, All-words}
use comp.Shell.Split.{terminated, strsplit_lem}
use comp.Shell.Compare.{difference_pos, difference_negsuc, difference_self}
use comp.Shell.Command.{
  Reading, character, at_end, scanned, Command, nothing, exit_shell, execute, commands, memory_for,
  strscan_loop, strscan, is_zero, exit_name, command_of, read_command, strscan_initial_max_str_len,
}

-- The input that is typed, as a list.
abbrev pub typed : List ℕ → Reading × List ℕ
typed [] = (at_end, [])
typed (c ∷ s) = (character c, s)

memory_for-enough :
    (n max : ℕ) → 1 ≤ max → n ≤ max → (suc n ≤ memory_for n max) × (1 ≤ memory_for n max)
unfolding memory_for
memory_for-enough n max one le = elim (Bool-cases (leb max n)) [
  | inl e ↦ simp e (omega (arith, one, le), omega (arith, one))
  | inr e ↦ simp e (ground (arith, e), one)
]

strscan_loop_lem :
    (line rest s : List ℕ) (fuel max : ℕ)
    → All (λ c. c ≢ 10) line
    → length line < fuel
    → 1 ≤ max
    → length s ≤ max
    → strscan_loop typed fuel s max (line ++ 10 ∷ rest) ≡ ok (scanned (s ++ (line ++ 0 ∷ [])) rest)
unfolding strscan_loop
strscan_loop_lem line rest s zero max h lt one le = ground (arith, lt)
strscan_loop_lem [] rest s (suc fuel) max h lt one le =
    let (room, more) = memory_for-enough (length s) max one le in
    let fits : ltb (length s) (memory_for (length s) max + 1) ≡ true = ground (arith, room) in
    simp fits
strscan_loop_lem (c ∷ line) rest s (suc fuel) max h lt one le =
    let (room, more) = memory_for-enough (length s) max one le in
    let fits : ltb (length s) (memory_for (length s) max + 1) ≡ true = ground (arith, room) in
    let other : (c == 10) ≡ false = ground (arith, h.0) in
    simp (fits, other)
      (strscan_loop_lem line rest (s ++ c ∷ []) fuel (memory_for (length s) max) h.1
          (omega (arith, lt)) more (omega (arith, room, length-append s (c ∷ [])))
        ∙ ap (λ l. ok (scanned l rest)) (append_assoc s (c ∷ []) (line ++ 0 ∷ [])))

-- Equality of two words.
abbrev pub same : List ℕ → List ℕ → Bool
same [] [] = true
same (c ∷ s) (d ∷ t) = (c == d) && same s t
same _ _ = false

zero_test : Outcome ℤ → Outcome Bool
zero_test o = o >>= λ z. ok (is_zero z)

is_zero-pos : (n : ℕ) (z : ℤ) → z ≡ pos n → n ≢ 0 → is_zero z ≡ false
unfolding is_zero
is_zero-pos n z e ne = let other : (n == 0) ≡ false = ground (arith, ne) in ap is_zero e ∙ other

is_zero-difference : (c d : ℕ) → c ≢ d → is_zero (difference c d) ≡ false
unfolding is_zero
is_zero-difference c d ne = elim (Bool-cases (leb d c)) [
  | inl e ↦ is_zero-pos (c - d) (difference c d) (difference_pos c d e) (ground (arith, e, ne))
  | inr e ↦ ap is_zero (difference_negsuc c d e)
]

strcmp-same :
    (s t j k : List ℕ)
    → All (λ c. c ≢ 0) s
    → All (λ c. c ≢ 0) t
    → zero_test (strcmp (s ++ 0 ∷ j) (t ++ 0 ∷ k)) ≡ ok (same s t)
unfolding strcmp zero_test is_zero
strcmp-same [] [] j k h h' = ap (λ z. ok (is_zero z)) (difference_self 0)
strcmp-same [] (d ∷ t) j k h h' = ap ok (is_zero-difference 0 d (λ e. h'.0 (sym e)))
strcmp-same (c ∷ s) [] j k h h' =
    let other : (c == 0) ≡ false = ground (arith, h.0) in
    simp other (ap ok (is_zero-difference c 0 h.0))
strcmp-same (c ∷ s) (d ∷ t) j k h h' =
    let other : (c == 0) ≡ false = ground (arith, h.0) in
    elim (Bool-cases (c == d)) [
      | inl e ↦ simp (other, e) (strcmp-same s t j k h.1 h'.1)
      | inr e ↦ simp (other, e) (ap ok (is_zero-difference c d (ground (arith, e))))
    ]

zero_test-then :
    (o : Outcome ℤ) (f : Bool → Command)
    → (o >>= λ z. ok (f (is_zero z))) ≡ (zero_test o >>= λ b. ok (f b))
unfolding zero_test
zero_test-then (ok z) f = refl
zero_test-then Outcome.undefined f = refl
zero_test-then Outcome.no_fuel f = refl

-- What a line of these words is to do.
abbrev pub command_for : List (List ℕ) → Command
command_for [] = nothing
command_for (w ∷ ws) =
    if same w exit_name
    then exit_shell (map terminated (w ∷ ws))
    else execute (map terminated (w ∷ ws))

command_of_lem :
    (ws : List (List ℕ))
    → All (All (λ c. c ≢ 0)) ws
    → command_of (map terminated ws) ≡ ok (command_for ws)
unfolding command_of
command_of_lem [] h = refl
command_of_lem (w ∷ ws) h =
    let test =
      strcmp-same w exit_name [] [] h.0
        (omega arith, (omega arith, (omega arith, (omega arith, tt)))) in
    zero_test-then (strcmp (w ++ 0 ∷ []) (exit_name ++ 0 ∷ []))
      (λ b. if b then exit_shell (map terminated (w ∷ ws)) else execute (map terminated (w ∷ ws)))
    ∙ ap
        (λ o. o >>= λ b.
          ok
            (if b then exit_shell (map terminated (w ∷ ws)) else execute (map terminated (w ∷ ws))))
        test

-- A line without null characters, typed with a newline behind it, is read whole, split into its words and
-- gives the command that they stand for; what is typed behind it is left.
pub read_command_lem :
    (line rest : List ℕ) (fuel : ℕ)
    → All (λ c. c ≢ 10) line
    → All (λ c. c ≢ 0) line
    → length line < fuel
    → read_command typed fuel (line ++ 10 ∷ rest) ≡ ok (commands (command_for (words 32 line)) rest)
unfolding read_command strscan
read_command_lem line rest fuel h h' lt = simp (
  strscan_loop_lem line rest [] fuel strscan_initial_max_str_len h lt (omega arith) (omega arith),
  strsplit_lem line [] 32 h',
  command_of_lem (words 32 line) (All-words (λ c. c ≢ 0) 32 line h'),
)
