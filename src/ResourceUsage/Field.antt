-- ===== src/ResourceUsage/Field.antt =====
-- The field of /proc/self/status that project2/resource-usage.c finds.
use mathlib.Core.List.{append_assoc}
use comp.Base.{
  ℕ, suc, ◌+◌, ◌-◌, ◌<◌, ◌≡◌, ◌≢◌, ◌∙◌, refl, sym, ap, inl, inr, List, [], ◌∷◌, ◌++◌, some, true,
  false, ◌==◌, ◌&&◌, ltb, leb, length, length-append, set, subst, All, All-append, arith, ok,
  Bool-cases,
}
use comp.Decimal.{is_digit, decimal, decimal-cons, All-decimal, atoi_from-decimal}
use comp.ResourceUsage.{
  strlen, strncmp_equal, skip_to_digit, end_line, parse_proc_self_status_line, find_field,
  get_proc_self_status_info,
}

strlen_lem : (s rest : List ℕ) → All (λ c. c ≢ 0) s → strlen (s ++ 0 ∷ rest) ≡ ok (length s)
unfolding strlen
strlen_lem [] rest h = refl
strlen_lem (c ∷ s) rest h =
    let other : (c == 0) ≡ false = ground (arith, h.0) in simp (other, strlen_lem s rest h.1)

skip_to_digit_lem :
    (label rest : List ℕ) (d : ℕ)
    → All (λ c. is_digit c ≡ false) label
    → is_digit d ≡ true
    → skip_to_digit (label ++ d ∷ rest) ≡ ok (d ∷ rest)
unfolding skip_to_digit
skip_to_digit_lem [] rest d h e = simp e
skip_to_digit_lem (c ∷ label) rest d h e = simp (h.0, skip_to_digit_lem label rest d h.1 e)

set-append_right : (a b : List ℕ) (j v : ℕ) → set (a ++ b) (length a + j) v ≡ a ++ set b j v
set-append_right [] b j v = let e : 0 + j ≡ j = omega arith in ap (λ k. set b k v) e
set-append_right (x ∷ a) b j v =
    let e : suc (length a) + j ≡ suc (length a + j) = omega arith in
    ap (λ k. set (x ∷ (a ++ b)) k v) e ∙ ap (λ l. x ∷ l) (set-append_right a b j v)

-- What stands behind a number in a line.
abbrev pub unit : List ℕ
unit = 32 ∷ b'k' ∷ b'B' ∷ 10 ∷ []

-- A line with a label that has no digit, a number and the unit, in an array of this length.
pub record IsLine (label : List ℕ) (n : ℕ) (line : List ℕ) : Type 0 where
  pub no_digits : All (λ c. is_digit c ≡ false) label
  pub not_null : All (λ c. c ≢ 0) label
  pub garbage : List ℕ
  pub text : line ≡ label ++ (decimal n ++ (unit ++ 0 ∷ garbage))
  pub room : length label + (length label + length (decimal n)) + 1 < length line

digit-is_digit : (d : ℕ) → d < 10 → is_digit (48 + d) ≡ true
digit-is_digit d h = ground (arith, h)

digit-ne-null : (d : ℕ) → d < 10 → 48 + d ≢ 0
digit-ne-null d h = λ e. omega (arith, e)

module _ (label : List ℕ) (n : ℕ) (line : List ℕ) (h : IsLine label n line) where
  abbrev rest : List ℕ
  rest = decimal n ++ (unit ++ 0 ∷ h.garbage)

  length_of_text : strlen line ≡ ok (length label + (length (decimal n) + 4))
  length_of_text =
      let text : List ℕ = label ++ (decimal n ++ unit) in
      let same : text ++ 0 ∷ h.garbage ≡ label ++ (decimal n ++ (unit ++ 0 ∷ h.garbage)) =
        simp append_assoc in
      let not_null : All (λ c. c ≢ 0) text =
        All-append (λ c. c ≢ 0) label (decimal n ++ unit) h.not_null
          (All-append (λ c. c ≢ 0) (decimal n) unit (All-decimal (λ c. c ≢ 0) digit-ne-null n)
            (omega arith)) in
      let long : length text ≡ length label + (length (decimal n) + 4) =
        omega (arith, length-append label (decimal n ++ unit), length-append (decimal n) unit) in
      ap strlen (h.text ∙ sym same) ∙ strlen_lem text h.garbage not_null ∙ ap ok long

  rest_of_line : skip_to_digit line ≡ ok rest
  rest_of_line =
      let (d, ds, e) = decimal-cons n in
      let digits : All (λ c. is_digit c ≡ true) (d ∷ ds) =
        subst (All (λ c. is_digit c ≡ true)) e
          (All-decimal (λ c. is_digit c ≡ true) digit-is_digit n) in
      let same : rest ≡ d ∷ (ds ++ (unit ++ 0 ∷ h.garbage)) =
        ap (λ l. l ++ (unit ++ 0 ∷ h.garbage)) e in
      ap skip_to_digit (h.text ∙ ap (λ l. label ++ l) same)
      ∙ skip_to_digit_lem label (ds ++ (unit ++ 0 ∷ h.garbage)) d h.no_digits digits.0
      ∙ ap ok (sym same)

  ended_line :
      end_line (length label + (length (decimal n) + 4)) rest
      ≡ ok (decimal n ++ 32 ∷ set (b'k' ∷ b'B' ∷ 10 ∷ 0 ∷ h.garbage) (length label) 0)
  unfolding end_line
  ended_line =
      let long : length line ≡ length label + length rest =
        ap length h.text ∙ length-append label rest in
      let inside : (leb 3 (length label + (length (decimal n) + 4))
            && ltb (length label + (length (decimal n) + 4) - 3) (length rest))
          ≡ true =
        ground (arith, long, h.room) in
      let at : length label + (length (decimal n) + 4) - 3
          ≡ length (decimal n) + suc (length label) =
        omega arith in
      rw inside (
        ap (λ i. ok (set rest i 0)) at
        ∙ ap ok (set-append_right (decimal n) (unit ++ 0 ∷ h.garbage) (suc (length label)) 0))

  -- The null character is written behind the number, where it changes nothing, and the number is read.
  parse_proc_self_status_line_lem : parse_proc_self_status_line line ≡ ok n
  unfolding parse_proc_self_status_line
  parse_proc_self_status_line_lem =
      simp (length_of_text, rest_of_line, ended_line, atoi_from-decimal)

abbrev pub StartsWith : List ℕ → List ℕ → Type 0
StartsWith [] line = Unit
StartsWith (c ∷ field) [] = ⊥
StartsWith (c ∷ field) (d ∷ line) = (d ≡ c) × StartsWith field line

strncmp_equal-StartsWith :
    (field line : List ℕ)
    → All (λ c. c ≢ 0) field
    → strncmp_equal (length field) line field ≡ true
    → StartsWith field line
unfolding strncmp_equal
strncmp_equal-StartsWith [] line h e = tt
strncmp_equal-StartsWith (c ∷ field) [] h e = cc
strncmp_equal-StartsWith (c ∷ field) (d ∷ line) h e =
    ground (arith, h.0, strncmp_equal-StartsWith field line h.1)

strncmp_equal_refl :
    (field rest : List ℕ) → strncmp_equal (length field) (field ++ rest) field ≡ true
unfolding strncmp_equal
strncmp_equal_refl [] rest = refl
strncmp_equal_refl (c ∷ field) rest = ground (arith, strncmp_equal_refl field rest)

other_line :
    (field line : List ℕ)
    → All (λ c. c ≢ 0) field
    → ¬ StartsWith field line
    → strncmp_equal (length field) line field ≡ false
other_line field line h k = elim (Bool-cases (strncmp_equal (length field) line field)) [
  | inl e ↦ absurd (k (strncmp_equal-StartsWith field line h e))
  | inr e ↦ e
]

find_field_lem :
    (field more line : List ℕ) (n : ℕ) (before after : List (List ℕ))
    → All (λ c. c ≢ 0) field
    → All (λ l. ¬ StartsWith field l) before
    → IsLine (field ++ more) n line
    → find_field field (before ++ line ∷ after) ≡ ok (some n)
unfolding find_field
find_field_lem field more line n [] after h k l =
    let e : strncmp_equal (length field) line field ≡ true =
      ap (λ s. strncmp_equal (length field) s field)
        (l.text ∙ append_assoc field more (decimal n ++ (unit ++ 0 ∷ l.garbage)))
      ∙ strncmp_equal_refl field (more ++ (decimal n ++ (unit ++ 0 ∷ l.garbage))) in
    rw (e, find_field) (simp (parse_proc_self_status_line_lem (field ++ more) n line l))
find_field_lem field more line n (b ∷ before) after h k l =
    rw (other_line field b h k.0, find_field)
      (find_field_lem field more line n before after h k.1 l)

-- The first line that begins with the name of the field gives the number in it, if what stands before the
-- number has no digit and the array has room for the null character that is written too far behind.
pub get_proc_self_status_info_lem :
    (field more line : List ℕ) (n : ℕ) (before after : List (List ℕ))
    → All (λ c. c ≢ 0) field
    → All (λ l. ¬ StartsWith field l) before
    → IsLine (field ++ more) n line
    → get_proc_self_status_info field (some (before ++ line ∷ after)) ≡ ok (some n)
unfolding get_proc_self_status_info
get_proc_self_status_info_lem field more line n before after h k l =
    find_field_lem field more line n before after h k l
