-- ===== src/Shell/Words.antt =====
-- The words of a text, to compare the splitting of workshop/my-shell.c with.
use comp.Base.{
  All, ℕ, ◌+◌, ◌≡◌, refl, sym, ap, ◌∙◌, inl, inr, List, [], ◌∷◌, ◌++◌, true, false, ◌==◌,
  if◌then◌else◌, length, length-append, Bool-cases,
}

-- The character joins the first piece.
abbrev join : ℕ → List (List ℕ) → List (List ℕ)
join c [] = (c ∷ []) ∷ []
join c (p ∷ ps) = (c ∷ p) ∷ ps

-- The pieces between the delimiters, empty ones too.
unfoldable pub pieces : ℕ → List ℕ → List (List ℕ)
pieces d [] = [] ∷ []
pieces d (c ∷ s) = if c == d then [] ∷ pieces d s else join c (pieces d s)

unfoldable pub not_empty : List (List ℕ) → List (List ℕ)
not_empty [] = []
not_empty ([] ∷ ps) = not_empty ps
not_empty ((c ∷ p) ∷ ps) = (c ∷ p) ∷ not_empty ps

-- The words are the pieces that are not empty.
unfoldable pub words : ℕ → List ℕ → List (List ℕ)
unfolding pieces not_empty
words d s = not_empty (pieces d s)

-- The first word's rest, and what follows it.
unfoldable pub word : ℕ → List ℕ → List ℕ
word d [] = []
word d (c ∷ s) = if c == d then [] else c ∷ word d s

unfoldable pub after : ℕ → List ℕ → List ℕ
after d [] = []
after d (c ∷ s) = if c == d then c ∷ s else after d s

abbrev behind : ℕ → List ℕ → List (List ℕ)
behind d [] = []
behind d (c ∷ s) = pieces d s

pub word-after : (d : ℕ) (s : List ℕ) → s ≡ word d s ++ after d s
unfolding word after
word-after d [] = refl
word-after d (c ∷ s) = elim (Bool-cases (c == d)) [
  | inl e ↦ simp e
  | inr e ↦ simp e (ap (λ l. c ∷ l) (word-after d s))
]

pub length-after : (d : ℕ) (s : List ℕ) → length (word d s) + length (after d s) ≡ length s
length-after d s = sym (length-append (word d s) (after d s)) ∙ ap length (sym (word-after d s))

pieces-word : (d : ℕ) (s : List ℕ) → pieces d s ≡ word d s ∷ behind d (after d s)
unfolding pieces word after
pieces-word d [] = refl
pieces-word d (c ∷ s) = elim (Bool-cases (c == d)) [
  | inl e ↦ simp e
  | inr e ↦ simp e (ap (join c) (pieces-word d s))
]

pub words_none : (d : ℕ) → words d [] ≡ []
unfolding words
words_none d = refl

pub words_delimiter : (d c : ℕ) (s : List ℕ) → (c == d) ≡ true → words d (c ∷ s) ≡ words d s
unfolding words pieces not_empty
words_delimiter d c s e = simp e

words-behind : (d : ℕ) (s : List ℕ) → not_empty (behind d (after d s)) ≡ words d (after d s)
unfolding words pieces not_empty after
words-behind d [] = refl
words-behind d (c ∷ s) = elim (Bool-cases (c == d)) [
  | inl e ↦ simp e
  | inr e ↦ simp e (words-behind d s)
]

pub words-word :
    (d c : ℕ) (s : List ℕ)
    → (c == d) ≡ false
    → words d (c ∷ s) ≡ (c ∷ word d s) ∷ words d (after d s)
unfolding words pieces not_empty
words-word d c s e = simp e (
    ap (λ p. not_empty (join c p)) (pieces-word d s)
    ∙ ap (λ l. (c ∷ word d s) ∷ l) (words-behind d s))

pub word_first : (d c : ℕ) (s : List ℕ) → (c == d) ≡ false → word d (c ∷ s) ≡ c ∷ word d s
unfolding word
word_first d c s e = simp e

after_first : (d c : ℕ) (s : List ℕ) → (c == d) ≡ false → after d (c ∷ s) ≡ after d s
unfolding after
after_first d c s e = simp e

module _ (P : ℕ → Type 0) where
  All-join : (c : ℕ) (ps : List (List ℕ)) → P c → All (All P) ps → All (All P) (join c ps)
  All-join c [] p h = ((p, tt), tt)
  All-join c (q ∷ ps) p h = ((p, h.0), h.1)

  All-pieces : (d : ℕ) (s : List ℕ) → All P s → All (All P) (pieces d s)
  unfolding pieces
  All-pieces d [] h = (tt, tt)
  All-pieces d (c ∷ s) h = elim (Bool-cases (c == d)) [
    | inl e ↦ simp e (tt, All-pieces d s h.1)
    | inr e ↦ simp e (All-join c (pieces d s) h.0 (All-pieces d s h.1))
  ]

  All-not_empty : (ps : List (List ℕ)) → All (All P) ps → All (All P) (not_empty ps)
  unfolding not_empty
  All-not_empty [] h = tt
  All-not_empty ([] ∷ ps) h = All-not_empty ps h.1
  All-not_empty ((c ∷ q) ∷ ps) h = (h.0, All-not_empty ps h.1)

  pub All-words : (d : ℕ) (s : List ℕ) → All P s → All (All P) (words d s)
  unfolding words
  All-words d s h = All-not_empty (pieces d s) (All-pieces d s h)
