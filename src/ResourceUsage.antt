-- ===== src/ResourceUsage.antt =====
-- project2/resource-usage.c: a number of /proc/self/status. A line is an array of characters; what fopen()
-- and fgets() give is a parameter.
pub mod Field
use comp.Base.{
  ℕ, zero, suc, ◌+◌, ◌-◌, List, [], ◌∷◌, ◌++◌, Option, none, some, Bool, true, false, ◌==◌, ◌&&◌,
  ltb, leb, if◌then◌else◌, length, set, Outcome, ok, ◌>>=◌,
}
use comp.Decimal.{is_digit, atoi_from}

-- strlen() of the text in an array.
pub strlen : List ℕ → Outcome ℕ
strlen [] = Outcome.undefined
strlen (c ∷ line) = let rest = (do n ← strlen line; ok (suc n)) in if c == 0 then ok 0 else rest

-- strncmp() of the first `n` characters is 0.
pub strncmp_equal : ℕ → List ℕ → List ℕ → Bool
strncmp_equal zero s t = true
strncmp_equal (suc n) (c ∷ s) (d ∷ t) =
    let rest = strncmp_equal n s t in if c == d then (if c == 0 then true else rest) else false
strncmp_equal (suc n) _ _ = false

-- `line`, when it is at a digit.
pub skip_to_digit : List ℕ → Outcome (List ℕ)
skip_to_digit [] = Outcome.undefined
skip_to_digit (c ∷ line) =
    let rest = skip_to_digit line in if is_digit c then ok (c ∷ line) else rest

-- line[i - 3] = '\0'.
pub end_line : ℕ → List ℕ → Outcome (List ℕ)
end_line i line =
    if leb 3 i && ltb (i - 3) (length line) then ok (set line (i - 3) 0) else Outcome.undefined

pub parse_proc_self_status_line : List ℕ → Outcome ℕ
unfolding strlen skip_to_digit end_line
parse_proc_self_status_line line = do
  i ← strlen line
  rest ← skip_to_digit line
  ended ← end_line i rest
  atoi_from 0 ended

-- The loop over the lines; `none` stands for -1.
pub find_field : List ℕ → List (List ℕ) → Outcome (Option ℕ)
unfolding strncmp_equal parse_proc_self_status_line
find_field field [] = ok none
find_field field (line ∷ file) = elim (strncmp_equal (length field) line field) [
  | true ↦ (do value ← parse_proc_self_status_line line; ok (some value))
  | false ↦ find_field field file
]

-- The result of fopen() is not looked at.
pub get_proc_self_status_info : List ℕ → Option (List (List ℕ)) → Outcome (Option ℕ)
unfolding find_field
get_proc_self_status_info field none = Outcome.undefined
get_proc_self_status_info field (some file) = find_field field file
