-- ===== src/Phone/Normal.antt =====
-- A phone number that has its stored shape keeps it: `normalize_phone` is idempotent.
use agyary.Common.{
  ℕ, ◌≡◌, refl, ap, ◌∙◌, inl, inr, List, [], ◌∷◌, ◌++◌, Bool, true, false, not, ◌&&◌, ◌==◌,
  Bool-cases, if◌then◌else◌, arith, Text, is_space, strip, drop_while, remove_all, starts_with,
  after_prefix, Lacks, drop_while-Lacks, remove_all-Lacks, Lacks-remove_all, drop_end-Lacks,
}
use agyary.Phone.{
  plus, is_separator, is_zero_digit, known_country_codes, trim_trunk, normalize_cleaned,
  normalize_phone,
}

Lacks-is_space : (s : Text) → Lacks is_separator s → Lacks is_space s
unfolding is_separator
Lacks-is_space [] h = tt
Lacks-is_space (c ∷ s) h = (ground arith, Lacks-is_space s h.1)

-- A text with no separators is left whole by the cleaning.
cleaned_whole : (s : Text) → Lacks is_separator s → remove_all is_separator (strip s) ≡ s
unfolding strip
cleaned_whole s h =
    let k = Lacks-is_space s h in
    rw (drop_while-Lacks is_space s k, drop_end-Lacks is_space s k)
      (remove_all-Lacks is_separator s h)

module _ (test : ℕ → Bool) where
  Lacks-drop_while : (t : ℕ → Bool) (s : Text) → Lacks test s → Lacks test (drop_while t s)
  unfolding drop_while
  Lacks-drop_while t [] h = tt
  Lacks-drop_while t (c ∷ s) h = elim (Bool-cases (t c)) [
    | inl y ↦ rw y (Lacks-drop_while t s h.1)
    | inr n ↦ rw n h
  ]

  Lacks-append : (s t : Text) → Lacks test s → Lacks test t → Lacks test (s ++ t)
  Lacks-append [] t h k = k
  Lacks-append (c ∷ s) t h k = (h.0, Lacks-append s t h.1 k)

-- With its prefix, and without it, a text has the same elements.
starts_with-split : (p s : Text) → starts_with p s ≡ true → p ++ after_prefix p s ≡ s
unfolding starts_with after_prefix
starts_with-split [] s h = refl
starts_with-split (a ∷ p) [] h = absurd (cc)
starts_with-split (a ∷ p) (c ∷ s) h = ground (arith, starts_with-split p s)

Lacks-parts :
    (test : ℕ → Bool) (p s : Text)
    → starts_with p s ≡ true
    → Lacks test s
    → Lacks test p × Lacks test (after_prefix p s)
unfolding starts_with after_prefix
Lacks-parts test [] s h k = (tt, k)
Lacks-parts test (a ∷ p) [] h k = absurd (cc)
Lacks-parts test (a ∷ p) (c ∷ s) h k = elim (Bool-cases (a == c)) [
  | inl y ↦
      let same : a ≡ c = ground arith in
      let (l, r) = Lacks-parts test p s (ground arith) k.1 in ((cc, l), r)
  | inr n ↦ absurd (ground arith)
]

starts_with-append : (p t : Text) → starts_with p (p ++ t) ≡ true
unfolding starts_with
starts_with-append [] t = refl
starts_with-append (a ∷ p) t = ground (arith, starts_with-append p t)

after_prefix-append : (p t : Text) → after_prefix p (p ++ t) ≡ t
unfolding after_prefix
after_prefix-append [] t = refl
after_prefix-append (a ∷ p) t = after_prefix-append p t

drop_while-drop_while :
    (test : ℕ → Bool) (s : Text) → drop_while test (drop_while test s) ≡ drop_while test s
unfolding drop_while
drop_while-drop_while test [] = refl
drop_while-drop_while test (c ∷ s) = elim (Bool-cases (test c)) [
  | inl y ↦ rw y (drop_while-drop_while test s)
  | inr n ↦ rw n (rw n)
]

-- A code that is not a prefix of another text p, nor p of it, is no prefix of what begins with p.
apart :
    (q p t : Text)
    → starts_with q p ≡ false
    → starts_with p q ≡ false
    → starts_with q (p ++ t) ≡ false
unfolding starts_with
apart [] p t h k = absurd (cc)
apart (a ∷ q) [] t h k = absurd (cc)
apart (a ∷ q) (b ∷ p) t h k = ground (arith, apart q p t)

-- What `trim_trunk` writes after the plus.
national : List Text → Text → Text
national [] digits = digits
national (country ∷ others) digits =
    let later = national others digits in
    if starts_with country digits
    then country ++ drop_while is_zero_digit (after_prefix country digits)
    else later

trim_trunk-national : (cs : List Text) (s : Text) → trim_trunk cs s ≡ plus ∷ national cs s
unfolding trim_trunk national
trim_trunk-national [] s = refl
trim_trunk-national (c ∷ cs) s = ground (arith, trim_trunk-national cs s)

abbrev ApartFrom : Text → List Text → Type 0
ApartFrom p [] = Unit
ApartFrom p (q ∷ qs) = (starts_with p q ≡ false) × ((starts_with q p ≡ false) × ApartFrom p qs)

abbrev PrefixFree : List Text → Type 0
PrefixFree [] = Unit
PrefixFree (p ∷ ps) = ApartFrom p ps × PrefixFree ps

starts_with-national :
    (p : Text) (cs : List Text) (s : Text)
    → ApartFrom p cs
    → starts_with p s ≡ false
    → starts_with p (national cs s) ≡ false
unfolding national
starts_with-national p [] s a h = h
starts_with-national p (c ∷ cs) s (l, (r, a)) h = elim (Bool-cases (starts_with c s)) [
  | inl y ↦ rw y (apart p c (drop_while is_zero_digit (after_prefix c s)) l r)
  | inr n ↦ rw n (starts_with-national p cs s a h)
]

national-national :
    (cs : List Text) (s : Text) → PrefixFree cs → national cs (national cs s) ≡ national cs s
unfolding national
national-national [] s f = refl
national-national (c ∷ cs) s f = elim (Bool-cases (starts_with c s)) [
  | inl y ↦
      let t = drop_while is_zero_digit (after_prefix c s) in
      rw (
        y,
        starts_with-append c t,
        after_prefix-append c t,
        drop_while-drop_while is_zero_digit (after_prefix c s),
      )
  | inr n ↦ rw (n, starts_with-national c cs s f.0 n) (national-national cs s f.1)
]

Lacks-national :
    (test : ℕ → Bool) (cs : List Text) (s : Text) → Lacks test s → Lacks test (national cs s)
unfolding national
Lacks-national test [] s h = h
Lacks-national test (c ∷ cs) s h = elim (Bool-cases (starts_with c s)) [
  | inl y ↦
      let (front, back) = Lacks-parts test c s y h in
      rw y (Lacks-append test c _ front (Lacks-drop_while test is_zero_digit _ back))
  | inr n ↦ rw n (Lacks-national test cs s h)
]

apart_from : Text → List Text → Bool
apart_from p [] = true
apart_from p (q ∷ qs) = not (starts_with p q) && not (starts_with q p) && apart_from p qs

prefix_free : List Text → Bool
prefix_free [] = true
prefix_free (p ∷ ps) = apart_from p ps && prefix_free ps

apart_from-ApartFrom : (p : Text) (qs : List Text) → apart_from p qs ≡ true → ApartFrom p qs
unfolding apart_from
apart_from-ApartFrom p [] h = tt
apart_from-ApartFrom p (q ∷ qs) h =
    (ground arith, (ground arith, apart_from-ApartFrom p qs (ground arith)))

prefix_free-PrefixFree : (ps : List Text) → prefix_free ps ≡ true → PrefixFree ps
unfolding prefix_free
prefix_free-PrefixFree [] h = tt
prefix_free-PrefixFree (p ∷ ps) h =
    (apart_from-ApartFrom p ps (ground arith), prefix_free-PrefixFree ps (ground arith))

codes-PrefixFree : PrefixFree known_country_codes
unfolding prefix_free apart_from starts_with
codes-PrefixFree = prefix_free-PrefixFree known_country_codes refl

normalize_cleaned_again :
    (s : Text)
    → Lacks is_separator s
    → (Lacks is_separator (normalize_cleaned s))
      × (normalize_cleaned (normalize_cleaned s) ≡ normalize_cleaned s)
unfolding is_separator is_space
normalize_cleaned_again [] h = (tt, refl)
normalize_cleaned_again (c ∷ s) h = elim (Bool-cases (c == plus)) [
  | inl y ↦
      rw (y, trim_trunk-national known_country_codes s)
        (
          (refl, Lacks-national is_separator known_country_codes s h.1),
          trim_trunk-national known_country_codes (national known_country_codes s)
              ∙ ap (λ t. plus ∷ t) (national-national known_country_codes s codes-PrefixFree),
        )
  | inr n ↦ rw (n, n) (h, refl)
]

-- Normalising a phone number that was normalised changes nothing, for every text.
pub normalize_phone-normalize_phone :
    (value : Text) → normalize_phone (normalize_phone value) ≡ normalize_phone value
unfolding normalize_phone
normalize_phone-normalize_phone value =
    let s = remove_all is_separator (strip value) in
    let (clean, again) = normalize_cleaned_again s (Lacks-remove_all is_separator (strip value)) in
    rw (cleaned_whole (normalize_cleaned s) clean) again
