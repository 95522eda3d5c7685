-- ===== src/SecretCode/Validity.antt =====
-- `is_valid_secret_code` and `get_random_secret_code` of project2/secret-code.c.
use comp.Base.{
  ℕ, ◌%◌, ◌<◌, ◌≡◌, ◌≢◌, ◌≤◌, List, [], ◌∷◌, ◌++◌, length, Bool, true, ◌&&◌, ◌==◌, All, arith, ok,
  refl, zero, suc, some, get_elem?,
}
use comp.SecretCode.{
  secret_code_len, secret_code_colors, secret_code_colors_len, is_color, is_valid_secret_code,
  get_random_secret_code,
}

abbrev pub all_colors : List ℕ → Bool
all_colors [] = true
all_colors (c ∷ rest) = is_color c && all_colors rest

-- On every C string, whatever stands after its null character, the test is defined, and it holds just
-- of the strings of four colours.
pub is_valid_secret_code_lem :
    (text rest : List ℕ)
    → All (λ c. c ≢ 0) text
    → is_valid_secret_code (text ++ 0 ∷ rest)
      ≡ ok (length text == secret_code_len && all_colors text)
unfolding is_valid_secret_code is_color
is_valid_secret_code_lem [] rest h = refl
is_valid_secret_code_lem (a ∷ []) rest h = ground arith
is_valid_secret_code_lem (a ∷ b ∷ []) rest h = ground arith
is_valid_secret_code_lem (a ∷ b ∷ c ∷ []) rest h = ground arith
is_valid_secret_code_lem (a ∷ b ∷ c ∷ d ∷ []) rest h = ground arith
is_valid_secret_code_lem (a ∷ b ∷ c ∷ d ∷ e ∷ text) rest h = ground (arith, h)

color_at :
    (i : ℕ) → i < 6 → (c : ℕ) × (get_elem? secret_code_colors i ≡ some c) × (is_color c ≡ true)
unfolding is_color
color_at zero h = (65, refl, refl)
color_at (suc zero) h = (66, refl, refl)
color_at (suc (suc zero)) h = (67, refl, refl)
color_at (suc (suc (suc zero))) h = (68, refl, refl)
color_at (suc (suc (suc (suc zero)))) h = (69, refl, refl)
color_at (suc (suc (suc (suc (suc zero))))) h = (70, refl, refl)
color_at (suc (suc (suc (suc (suc (suc i)))))) h = absurd (omega arith)

four_colors :
    (a b c d : ℕ)
    → is_color a ≡ true
    → is_color b ≡ true
    → is_color c ≡ true
    → is_color d ≡ true
    → is_valid_secret_code (a ∷ b ∷ c ∷ d ∷ 0 ∷ []) ≡ ok true
unfolding is_valid_secret_code
four_colors a b c d ha hb hc hd = ground (arith, ha, hb, hc, hd)

-- Whatever rand() returns, a random secret code is a valid one: four colours and a null character.
pub get_random_secret_code_lem :
    (rand : ℕ → ℕ)
    → (text : List ℕ) × (get_random_secret_code rand ≡ ok (text ++ 0 ∷ []))
      × (length text ≡ secret_code_len)
      × (is_valid_secret_code (text ++ 0 ∷ []) ≡ ok true)
unfolding get_random_secret_code
get_random_secret_code_lem rand =
    let (a, ea, ca) = color_at (rand 0 % secret_code_colors_len) (omega arith) in
    let (b, eb, cb) = color_at (rand 1 % secret_code_colors_len) (omega arith) in
    let (c, ec, cc) = color_at (rand 2 % secret_code_colors_len) (omega arith) in
    let (d, ed, cd) = color_at (rand 3 % secret_code_colors_len) (omega arith) in
    (a ∷ b ∷ c ∷ d ∷ [], rw (ea, eb, ec, ed) refl, refl, four_colors a b c d ca cb cc cd)

-- On long enough buffers the test is defined.
pub is_valid_secret_code-defined :
    (code : List ℕ) → 5 ≤ length code → (b : Bool) × (is_valid_secret_code code ≡ ok b)
unfolding is_valid_secret_code
is_valid_secret_code-defined [] h = absurd (omega (arith, h))
is_valid_secret_code-defined (a ∷ []) h = absurd (omega (arith, h))
is_valid_secret_code-defined (a ∷ b ∷ []) h = absurd (omega (arith, h))
is_valid_secret_code-defined (a ∷ b ∷ c ∷ []) h = absurd (omega (arith, h))
is_valid_secret_code-defined (a ∷ b ∷ c ∷ d ∷ []) h = absurd (omega (arith, h))
is_valid_secret_code-defined (a ∷ b ∷ c ∷ d ∷ e ∷ code) h =
    (is_color a && (is_color b && (is_color c && (is_color d && (e == 0)))), ground arith)
