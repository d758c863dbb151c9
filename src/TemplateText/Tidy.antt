-- ===== src/TemplateText/Tidy.antt =====
-- A text that passed the rules passes them again, and comes back unchanged.
use agyary.Common.{
  ℕ, ◌≡◌, refl, ap, ◌∙◌, List, [], ◌∷◌, ◌++◌, Bool, false, Bool-cases, Text, is_space, Lacks, All,
  inl, inr, Option-cases,
}
use agyary.TemplateText.{
  spell, not_empty, split_words, blank, join_words, tidy, problem, check, tidied, wrong, verdict,
}

-- The words that `split` gives: not empty, and with no space in them.
abbrev pub IsWord : Text → Type 0
IsWord [] = ⊥
IsWord (c ∷ s) = (is_space c ≡ false) × Lacks is_space s

abbrev NoSpaces : List Text → Type 0
NoSpaces words = All (λ w. Lacks is_space w) words

spell-NoSpaces : (s : Text) → Lacks is_space (spell s).0 × NoSpaces (spell s).1
unfolding spell
spell-NoSpaces [] = (tt, tt)
spell-NoSpaces (c ∷ s) = elim (Bool-cases (is_space c)) [
  | inl y ↦ rw y (tt, spell-NoSpaces s)
  | inr n ↦ rw n ((n, (spell-NoSpaces s).0), (spell-NoSpaces s).1)
]

not_empty-IsWord : (words : List Text) → NoSpaces words → All IsWord (not_empty words)
unfolding not_empty
not_empty-IsWord [] h = tt
not_empty-IsWord ([] ∷ words) h = not_empty-IsWord words h.1
not_empty-IsWord ((c ∷ w) ∷ words) h = (h.0, not_empty-IsWord words h.1)

-- A word in front of a blank is spelled as it stands.
spell-word :
    (w s : Text) → Lacks is_space w → spell (w ++ blank ∷ s) ≡ (w, (spell s).0 ∷ (spell s).1)
unfolding spell is_space
spell-word [] s h = refl
spell-word (c ∷ w) s h = rw (h.0) (rw (spell-word w s h.1))

spell-alone : (w : Text) → Lacks is_space w → spell w ≡ (w, [])
unfolding spell
spell-alone [] h = refl
spell-alone (c ∷ w) h = rw (h.0) (rw (spell-alone w h.1))

Lacks-word : (w : Text) → IsWord w → Lacks is_space w
Lacks-word [] h = tt
Lacks-word (c ∷ w) h = h

spell-join :
    (w : Text) (words : List Text)
    → IsWord w
    → All IsWord words
    → spell (join_words (w ∷ words)) ≡ (w, words)
unfolding join_words
spell-join w [] h hs = spell-alone w (Lacks-word w h)
spell-join w (v ∷ words) h hs =
    spell-word w (join_words (v ∷ words)) (Lacks-word w h)
    ∙ ap (λ p. (w, p.0 ∷ p.1)) (spell-join v words hs.0 hs.1)

not_empty-words : (words : List Text) → All IsWord words → not_empty words ≡ words
unfolding not_empty
not_empty-words [] h = refl
not_empty-words ([] ∷ words) h = absurd h.0
not_empty-words ((c ∷ w) ∷ words) h = rw (not_empty-words words h.1)

pub split_words-join :
    (words : List Text) → All IsWord words → split_words (join_words words) ≡ words
unfolding split_words
split_words-join [] h = unfold join_words spell not_empty in refl
split_words-join (w ∷ words) h = rw (spell-join w words h.0 h.1) (not_empty-words (w ∷ words) h)

pub split_words-IsWord : (s : Text) → All IsWord (split_words s)
unfolding split_words
split_words-IsWord s = not_empty-IsWord ((spell s).0 ∷ (spell s).1) (spell-NoSpaces s)

tidy-tidy : (s : Text) → tidy (tidy s) ≡ tidy s
unfolding tidy
tidy-tidy s = ap join_words (split_words-join (split_words s) (split_words-IsWord s))

pub tidied_injective : {s t : Text} → tidied s ≡ tidied t → s ≡ t
tidied_injective e = cc

module _ (is_word is_decimal : ℕ → Bool) (lower : ℕ → ℕ) where
  problem-tidy :
      (text : Text) (max_len : ℕ)
      → problem is_word is_decimal lower (tidy text) max_len
        ≡ problem is_word is_decimal lower text max_len
  unfolding problem
  problem-tidy text max_len = rw (tidy-tidy text)

  -- A text that passes the rules comes back tidied, and what comes back passes them again, within
  -- the same length, and comes back as it is.
  pub check-check :
      (text t : Text) (max_len : ℕ)
      → check is_word is_decimal lower text max_len ≡ tidied t
      → check is_word is_decimal lower t max_len ≡ tidied t
  unfolding check verdict
  check-check text t max_len passed =
      elim (Option-cases (problem is_word is_decimal lower text max_len)) [
        | inl fine ↦
            let passes : tidied (tidy text) ≡ tidied t = rw fine at passed in
            let same : tidy text ≡ t = tidied_injective passes in
            rw (← same) (rw (problem-tidy text max_len ∙ fine) (ap tidied (tidy-tidy text)))
        | inr (p, bad) ↦
            let fails : wrong p ≡ tidied t = rw bad at passed in absurd (let e = fails in (cc))
      ]
