-- ===== src/Shell.antt =====
-- workshop/my-shell.c, the functions on strings. A char is its code; a string is the array from its address
-- on, and a read behind the array is undefined.
pub mod Words
pub mod Split
pub mod Compare
pub mod Command
pub mod Session
use comp.Base.{
  ℕ, zero, suc, ◌+◌, ◌-◌, ◌*◌, List, [], ◌∷◌, ◌++◌, Bool, true, false, ltb, leb, ◌==◌,
  if◌then◌else◌, length, get_elem?, Outcome, ok, ◌>>=◌, deref,
}

abbrev pub strsplit_initial_max_str_array_len : ℕ
strsplit_initial_max_str_array_len = 1

abbrev pub strsplit_str_array_len_grow_factor : ℕ
strsplit_str_array_len_grow_factor = 2

-- A difference of two characters, an int.
pub data ℤ : Type 0 where
  pos : ℕ → ℤ
  negsuc : ℕ → ℤ

pub difference : ℕ → ℕ → ℤ
difference a b = if leb b a then ℤ.pos (a - b) else ℤ.negsuc (b - a - 1)

pub strcmp : List ℕ → List ℕ → Outcome ℤ
unfolding difference
strcmp [] s2 = Outcome.undefined
strcmp (c ∷ s1) [] = Outcome.undefined
strcmp (c ∷ s1) (d ∷ s2) =
    let rest = strcmp s1 s2 in
    if (if c == 0 then false else c == d) then rest else ok (difference c d)

-- The loop of strlen, at the index `len` of the string.
strlen_from : ℕ → List ℕ → Outcome ℕ
strlen_from len [] = Outcome.undefined
strlen_from len (c ∷ str) = let rest = strlen_from (len + 1) str in if c == 0 then ok len else rest

pub strlen : List ℕ → Outcome ℕ
unfolding strlen_from
strlen str = strlen_from 0 str

-- The inner loop of strsplit: the index at which a token ends that goes on at `j`. Each loop has a round
-- for each character and one more.
token_end : ℕ → List ℕ → ℕ → ℕ → ℕ → Outcome ℕ
token_end zero origstr origstrlen delimiter j = Outcome.no_fuel
token_end (suc fuel) origstr origstrlen delimiter j =
    let rest = token_end fuel origstr origstrlen delimiter (j + 1) in
    if ltb j origstrlen
    then (do c ← deref (get_elem? origstr j); if c == delimiter then ok j else rest)
    else ok j

-- The loop that copies `count` characters from the index `i` on.
copy_token : ℕ → List ℕ → ℕ → Outcome (List ℕ)
copy_token zero origstr i = ok []
copy_token (suc count) origstr i = do
  c ← deref (get_elem? origstr i)
  copied ← copy_token count origstr (i + 1)
  ok (c ∷ copied)

-- The tokens stored so far, in an array with room for `max` of them and the null pointer at the end.
pub record StrArray : Type 0 where
  pub tokens : List (List ℕ)
  pub max : ℕ

abbrev pub str_array : List (List ℕ) → ℕ → StrArray
str_array tokens max = record { tokens = tokens; max = max }

grown : StrArray → ℕ
grown a = if leb a.max (length a.tokens) then a.max * strsplit_str_array_len_grow_factor else a.max

-- A store behind the array is undefined.
store_token : StrArray → List ℕ → Outcome StrArray
unfolding grown
store_token a token =
    if ltb (length a.tokens) (grown a + 1)
    then ok (str_array (a.tokens ++ token ∷ []) (grown a))
    else Outcome.undefined

-- The null pointer at the end of the array.
store_null : StrArray → Outcome (List (List ℕ))
store_null a = if ltb (length a.tokens) (a.max + 1) then ok a.tokens else Outcome.undefined

-- The token at the index `i` is copied and stored; the result has the index behind it.
take_token : List ℕ → ℕ → ℕ → ℕ → StrArray → Outcome (ℕ × StrArray)
unfolding token_end copy_token store_token
take_token origstr origstrlen delimiter i a = do
  j ← token_end (origstrlen - i + 1) origstr origstrlen delimiter i
  copied ← copy_token (j - i) origstr i
  a' ← store_token a (copied ++ 0 ∷ [])
  ok (j, a')

-- The outer loop of strsplit.
split_loop : ℕ → List ℕ → ℕ → ℕ → ℕ → StrArray → Outcome (List (List ℕ))
unfolding take_token store_null
split_loop zero origstr origstrlen delimiter i a = Outcome.no_fuel
split_loop (suc fuel) origstr origstrlen delimiter i a =
    let skipped = split_loop fuel origstr origstrlen delimiter (i + 1) a in
    if ltb i origstrlen
    then (do
      c ← deref (get_elem? origstr i)
      if c == delimiter then skipped else (do
        (j, a') ← take_token origstr origstrlen delimiter i a
        split_loop fuel origstr origstrlen delimiter j a'))
    else store_null a

-- The array of tokens, without the null pointer at its end.
pub strsplit : List ℕ → ℕ → Outcome (List (List ℕ))
unfolding strlen split_loop
strsplit origstr delimiter = do
  origstrlen ← strlen origstr
  split_loop (origstrlen + 1) origstr origstrlen delimiter 0
      (str_array [] strsplit_initial_max_str_array_len)
