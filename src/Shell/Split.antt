-- ===== src/Shell/Split.antt =====
-- `strsplit` of workshop/my-shell.c gives the words of the string.
use comp.Base.{
  ℕ, zero, suc, ◌+◌, ◌-◌, ◌≤◌, ◌<◌, ◌≡◌, ◌≢◌, refl, sym, ap, ◌∙◌, inl, inr, List, [], ◌∷◌, ◌++◌,
  map, true, false, ltb, leb, ◌==◌, length, length-append, drop, get_elem?-drop, drop-next,
  drop-behind, All, arith, Bool-cases, ok,
}
use mathlib.Core.List.{append_assoc, append-nil}
use comp.Shell.{
  strlen, strlen_from, token_end, copy_token, StrArray, str_array, grown, store_token, store_null,
  take_token, split_loop, strsplit, strsplit_initial_max_str_array_len,
}
use comp.Shell.Words.{
  words, word, after, word-after, length-after, words_none, words_delimiter, words-word, word_first,
}

abbrev pub terminated : List ℕ → List ℕ
terminated s = s ++ 0 ∷ []

-- A string stops at its first 0.
strlen_from_lem :
    (s junk : List ℕ) (n : ℕ)
    → All (λ c. c ≢ 0) s
    → strlen_from n (s ++ 0 ∷ junk) ≡ ok (n + length s)
unfolding strlen_from
strlen_from_lem [] junk n h = ap ok (omega arith)
strlen_from_lem (c ∷ s) junk n h =
    let other : (c == 0) ≡ false = ground (arith, h.0) in
    simp other (strlen_from_lem s junk (n + 1) h.1 ∙ ap ok (omega arith))

strlen_lem : (s junk : List ℕ) → All (λ c. c ≢ 0) s → strlen (s ++ 0 ∷ junk) ≡ ok (length s)
unfolding strlen
strlen_lem s junk h = strlen_from_lem s junk 0 h ∙ ap ok (omega arith)

module _ (str : List ℕ) (d len : ℕ) (junk : List ℕ) where
  token_end_lem :
      (fuel : ℕ) (s : List ℕ) (j : ℕ)
      → length s < fuel
      → drop j str ≡ s ++ 0 ∷ junk
      → len ≡ j + length s
      → token_end fuel str len d j ≡ ok (j + length (word d s))
  unfolding token_end word
  token_end_lem zero s j lt e l = ground (arith, lt)
  token_end_lem (suc fuel) [] j lt e l =
      let stops : ltb j len ≡ false = ground (arith, l) in simp stops (ap ok (omega arith))
  token_end_lem (suc fuel) (c ∷ s) j lt e l =
      let goes : ltb j len ≡ true = ground (arith, l) in
      simp (goes, get_elem?-drop str j c (s ++ 0 ∷ junk) e)
        (elim (Bool-cases (c == d)) [
          | inl h ↦ simp h (ap ok (omega arith))
          | inr h ↦ simp h (
              token_end_lem fuel s (j + 1) (omega (arith, lt)) (drop-next str j c (s ++ 0 ∷ junk) e)
                (omega (arith, l))
              ∙ ap ok (omega arith))
        ])

  copy_token_lem : (w t : List ℕ) (i : ℕ) → drop i str ≡ w ++ t → copy_token (length w) str i ≡ ok w
  unfolding copy_token
  copy_token_lem [] t i e = refl
  copy_token_lem (c ∷ w) t i e =
      simp (
        get_elem?-drop str i c (w ++ t) e,
        copy_token_lem w t (i + 1) (drop-next str i c (w ++ t) e),
      )

-- There is room for the null pointer behind the tokens.
record Room (a : StrArray) : Type 0 where
  positive : 1 ≤ a.max
  enough : length a.tokens ≤ a.max

-- The array is grown in time.
grown-enough : (a : StrArray) → Room a → suc (length a.tokens) ≤ grown a
unfolding grown
grown-enough a r = elim (Bool-cases (leb a.max (length a.tokens))) [
  | inl e ↦ simp e (omega (arith, r.positive, r.enough))
  | inr e ↦ simp e (ground (arith, e))
]

abbrev stored : StrArray → List ℕ → StrArray
stored a token = str_array (a.tokens ++ token ∷ []) (grown a)

store_token_lem :
    (a : StrArray) (token : List ℕ) → Room a → store_token a token ≡ ok (stored a token)
unfolding store_token
store_token_lem a token r =
    let fits : ltb (length a.tokens) (grown a + 1) ≡ true = ground (arith, grown-enough a r) in
    simp fits

stored-Room : (a : StrArray) (token : List ℕ) → Room a → Room (stored a token)
stored-Room a token r = record {
  positive = omega (arith, grown-enough a r);
  enough = omega (arith, grown-enough a r, length-append a.tokens (token ∷ []));
}

store_null_lem : (a : StrArray) → Room a → store_null a ≡ ok a.tokens
unfolding store_null
store_null_lem a r =
    let fits : ltb (length a.tokens) (a.max + 1) ≡ true = ground (arith, r.enough) in simp fits

module _ (str : List ℕ) (d len : ℕ) (junk : List ℕ) where
  take_token_lem :
      (c : ℕ) (s : List ℕ) (i : ℕ) (a : StrArray)
      → (c == d) ≡ false
      → drop i str ≡ c ∷ s ++ 0 ∷ junk
      → len ≡ i + suc (length s)
      → Room a
      → take_token str len d i a
        ≡ ok (i + suc (length (word d s)), stored a (terminated (c ∷ word d s)))
  unfolding take_token
  take_token_lem c s i a ne e l r =
      let w = word d (c ∷ s) in
      let first : word d (c ∷ s) ≡ c ∷ word d s = word_first d c s ne in
      let enough : len - i + 1 ≡ suc (suc (length s)) = omega (arith, l) in
      let size : i + length w - i ≡ length w = omega arith in
      let text : drop i str ≡ w ++ (after d (c ∷ s) ++ 0 ∷ junk) =
        e
        ∙ ap (λ k. k ++ 0 ∷ junk) (word-after d (c ∷ s))
        ∙ append_assoc w (after d (c ∷ s)) (0 ∷ junk) in
      simp
        (
          enough,
          token_end_lem str d len junk (suc (suc (length s))) (c ∷ s) i (omega arith) e l,
          size,
          copy_token_lem str d len junk w (after d (c ∷ s) ++ 0 ∷ junk) i text,
          store_token_lem a (terminated w) r,
        )
        (ap (λ u. ok (i + length u, stored a (terminated u))) first)

  split_loop_lem :
      (fuel : ℕ) (s : List ℕ) (i : ℕ) (a : StrArray)
      → length s < fuel
      → drop i str ≡ s ++ 0 ∷ junk
      → len ≡ i + length s
      → Room a
      → split_loop fuel str len d i a ≡ ok (a.tokens ++ map terminated (words d s))
  unfolding split_loop
  split_loop_lem zero s i a lt e l r = ground (arith, lt)
  split_loop_lem (suc fuel) [] i a lt e l r =
      let stops : ltb i len ≡ false = ground (arith, l) in
      simp (stops, store_null_lem a r, words_none d) (ap ok (sym (append-nil a.tokens)))
  split_loop_lem (suc fuel) (c ∷ s) i a lt e l r =
      let goes : ltb i len ≡ true = ground (arith, l) in
      simp (goes, get_elem?-drop str i c (s ++ 0 ∷ junk) e)
        (elim (Bool-cases (c == d)) [
          | inl h ↦
              simp (h, words_delimiter d c s h)
                (split_loop_lem fuel s (i + 1) a (omega (arith, lt))
                  (drop-next str i c (s ++ 0 ∷ junk) e) (omega (arith, l)) r)
          | inr h ↦
              let w = c ∷ word d s in
              let text : drop i str ≡ w ++ (after d s ++ 0 ∷ junk) =
                e
                ∙ ap (λ k. c ∷ (k ++ 0 ∷ junk)) (word-after d s)
                ∙ ap (λ k. c ∷ k) (append_assoc (word d s) (after d s) (0 ∷ junk)) in
              simp (h, take_token_lem c s i a h e l r, words-word d c s h)
                (split_loop_lem fuel (after d s) (i + length w) (stored a (terminated w))
                    (omega (arith, lt, length-after d s))
                    (drop-behind str w i (after d s ++ 0 ∷ junk) text)
                    (omega (arith, l, length-after d s)) (stored-Room a (terminated w) r)
                  ∙ ap ok (
                      append_assoc a.tokens (terminated w ∷ [])
                        (map terminated (words d (after d s)))))
        ])

-- Splitting a C string at the delimiter gives its words, in order, each ended by a null character; the
-- array of tokens always has room for one more and for the null pointer.
pub strsplit_lem :
    (s junk : List ℕ) (delimiter : ℕ)
    → All (λ c. c ≢ 0) s
    → strsplit (s ++ 0 ∷ junk) delimiter ≡ ok (map terminated (words delimiter s))
unfolding strsplit
strsplit_lem s junk delimiter h = simp (strlen_lem s junk h) (
    split_loop_lem (s ++ 0 ∷ junk) delimiter (length s) junk (length s + 1) s 0
      (str_array [] strsplit_initial_max_str_array_len) (omega arith) refl (omega arith)
      (record { positive = omega arith; enough = omega arith }))
