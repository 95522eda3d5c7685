-- ===== src/Examples/Strings.antt =====
-- The string functions of workshop/my-shell.c and the primality test of workshop/signal-prime-number.c on
-- concrete inputs, and instances of the theorems about them.
use comp.Base.{ℕ, ◌≡◌, refl, List, [], ◌∷◌, ◌++◌, map, arith, ok}
use comp.Shell.{strsplit}
use comp.Shell.Words.{words}
use comp.Shell.Split.{terminated, strsplit_lem}

-- `ls  -l`, with a space in front.
abbrev command : List ℕ
command = 32 ∷ 108 ∷ 115 ∷ 32 ∷ 32 ∷ 45 ∷ 108 ∷ []

words-command : words 32 command ≡ (108 ∷ 115 ∷ []) ∷ (45 ∷ 108 ∷ []) ∷ []
unfolding words
words-command = refl

strsplit_lem_example : strsplit (command ++ 0 ∷ 7 ∷ []) 32 ≡ ok (map terminated (words 32 command))
strsplit_lem_example = strsplit_lem command (7 ∷ []) 32 (
  omega arith,
  (omega arith, (omega arith, (omega arith, (omega arith, (omega arith, (omega arith, tt)))))),
)

-- `l x`, and what is typed behind the newline.
abbrev typed_line : List ℕ
typed_line = 108 ∷ 32 ∷ 120 ∷ []
