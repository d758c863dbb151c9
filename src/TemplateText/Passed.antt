-- ===== src/TemplateText/Passed.antt =====
-- What a text that passed the rules is like, said without the searches of the code.
use agyary.Common.{
  ℕ, zero, suc, ◌+◌, ◌≤◌, ◌≡◌, ◌≢◌, refl, sym, ap, ◌∙◌, subst, List, [], ◌∷◌, ◌++◌, map, length,
  Bool, true, false, Bool-cases, ◌&&◌, ◌||◌, leb, ltb, ◌==◌, if◌then◌else◌, none, some, Text, codes,
  starts_with, String, All, Among, inl, inr, Option-cases, arith,
}
use agyary.TemplateText.{
  split_words, join_words, tidy, problem, check, tidied, wrong, verdict, too_long, has_link,
  has_handle, has_number, domains, is_joint, starts_word, after_letters, ends_domain, is_host,
  is_address, finds_link, finds_handle, without_joints, finds_run,
}
use agyary.TemplateText.Tidy.{check-check, split_words-join, split_words-IsWord, tidied_injective}

or_left : (a b : Bool) → a ≡ true → (a || b) ≡ true
or_left a b h = rw h refl

or_right : (a b : Bool) → b ≡ true → (a || b) ≡ true
or_right true b h = refl
or_right false b h = h

both_ways : (b : Bool) → b ≡ true → b ≡ false → ⊥
both_ways b h k = cc

-- None of the tests of `problem` found anything.
no_problem :
    (a b c d : Bool)
    → (if a
        then some too_long
        else if b
        then some has_link
        else if c
        then some has_handle
        else if d
        then some has_number
        else none)
      ≡ none
    → (a ≡ false) × (b ≡ false) × (c ≡ false) × (d ≡ false)
no_problem true b c d e = absurd (cc)
no_problem false true c d e = absurd (cc)
no_problem false false true d e = absurd (cc)
no_problem false false false true e = absurd (cc)
no_problem false false false false e = (refl, refl, refl, refl)

starts_with-append : (p s : Text) → starts_with p (p ++ s) ≡ true
unfolding starts_with
starts_with-append [] s = refl
starts_with-append (c ∷ p) s = ground (arith, starts_with-append p s)

module _ (is_word is_decimal : ℕ → Bool) (lower : ℕ → ℕ) where
  finds_handle-at :
      (u : Text) (c : ℕ) (v : Text)
      → is_word c ≡ true
      → finds_handle is_word is_decimal lower (u ++ b'@' ∷ c ∷ v) ≡ true
  unfolding finds_handle starts_word
  finds_handle-at [] c v h = rw h refl
  finds_handle-at (x ∷ u) c v h = or_right _ _ (finds_handle-at u c v h)

  finds_link-later :
      (x : ℕ) (s : Text) (after_word : Bool)
      → finds_link is_word is_decimal lower (is_word x) s ≡ true
      → finds_link is_word is_decimal lower after_word (x ∷ s) ≡ true
  unfolding finds_link
  finds_link-later x s after_word h = rw h (ground arith)

  finds_link-scheme :
      (u v : Text) (after_word : Bool)
      → finds_link is_word is_decimal lower after_word (u ++ codes "://" ++ v) ≡ true
  unfolding finds_link starts_with
  finds_link-scheme [] v after_word = refl
  finds_link-scheme (x ∷ u) v after_word =
      finds_link-later x (u ++ codes "://" ++ v) after_word (finds_link-scheme u v (is_word x))

  -- Whether the character before the end of u is one of a word, where one stands before u or not.
  abbrev pub word_before : Bool → Text → Bool
  word_before b [] = b
  word_before b (x ∷ u) = word_before (is_word x) u

  finds_link-address :
      (u : Text) (c : ℕ) (s : Text) (after_word : Bool)
      → is_word c ≡ true
      → word_before after_word u ≡ false
      → is_address is_word is_decimal lower false (c ∷ s) ≡ true
      → finds_link is_word is_decimal lower after_word (u ++ c ∷ s) ≡ true
  unfolding finds_link
  finds_link-address [] c s after_word word first found = rw (word, first, found) (ground arith)
  finds_link-address (x ∷ u) c s after_word word first found =
      finds_link-later x (u ++ c ∷ s) after_word
        (finds_link-address u c s (is_word x) word first found)

  after_letters-append :
      (w v p : Text) → map lower w ≡ p → after_letters is_word is_decimal lower p (w ++ v) ≡ some v
  unfolding after_letters
  after_letters-append [] v [] e = refl
  after_letters-append [] v (c ∷ p) e = absurd (cc)
  after_letters-append (x ∷ w) v [] e = absurd (cc)
  after_letters-append (x ∷ w) v (c ∷ p) e =
      let head : lower x ≡ c = cc in
      let its : (lower x == c) ≡ true = ground (arith, head) in
      rw its (after_letters-append w v p (cc))

  ends_domain-Among :
      (names : List String) (name : String) (w v : Text)
      → Among name names
      → map lower w ≡ codes name
      → starts_word is_word is_decimal lower v ≡ false
      → ends_domain is_word is_decimal lower names (w ++ v) ≡ true
  unfolding ends_domain
  ends_domain-Among [] name w v h e ended = absurd h
  ends_domain-Among (n ∷ names) name w v (inl it) e ended =
      rw (after_letters-append w v (codes n) (e ∙ ap codes it), ended) refl
  ends_domain-Among (n ∷ names) name w v (inr later) e ended =
      rw (ends_domain-Among names name w v later e ended) (ground arith)

  abbrev IsHost : ℕ → Type 0
  IsHost c = is_host is_word is_decimal lower c ≡ true

  is_address-at :
      (host s : Text)
      → All IsHost host
      → ends_domain is_word is_decimal lower domains s ≡ true
      → is_address is_word is_decimal lower true (host ++ b'.' ∷ s) ≡ true
  unfolding is_address
  is_address-at [] s h found = rw found refl
  is_address-at (c ∷ host) s h found = rw (h.0, is_address-at host s h.1 found) (ground arith)

  -- A digit, and a character that may stand between the digits of one number.
  abbrev pub IsDigit : ℕ → Type 0
  IsDigit c = (is_decimal c ≡ true) × (is_joint c ≡ false)

  -- Digits, and joints between and after them; how many digits there are.
  pub data Digits : Text → ℕ → Type 0 where
    no_more : Digits [] 0
    digit : (c : ℕ) (s : Text) (n : ℕ) → IsDigit c → Digits s n → Digits (c ∷ s) (suc n)
    joint : (c : ℕ) (s : Text) (n : ℕ) → is_joint c ≡ true → Digits s n → Digits (c ∷ s) n

  abbrev runs : ℕ → Text → Bool
  runs = finds_run is_word is_decimal lower

  abbrev unjoined : Bool → Text → Text → Text
  unjoined = without_joints is_word is_decimal lower

  finds_run-Digits :
      (s v held : Text) (count n : ℕ)
      → Digits s n
      → count ≤ 5
      → 6 ≤ count + n
      → runs count (unjoined true held (s ++ v)) ≡ true
  unfolding finds_run without_joints
  finds_run-Digits [] v held count zero no_more low enough = absurd (omega (arith, low, enough))
  finds_run-Digits [] v held count (suc n) more low enough = elim more [ ]
  finds_run-Digits (c ∷ s) v held count n (joint _ _ _ is more) low enough =
      rw (without_joints, is) (finds_run-Digits s v (held ++ c ∷ []) count n more low enough)
  finds_run-Digits (c ∷ s) v held count (suc n) (digit _ _ _ is more) low enough =
      rw (without_joints, is.1, is.0)
        (elim (Bool-cases (leb 6 (suc count))) [
          | inl six ↦ rw (finds_run, is.0, six) refl
          | inr fewer ↦
              rw
                (
                  finds_run,
                  is.0,
                  finds_run-Digits s v [] (suc count) n more (ground arith) (omega (arith, enough)),
                )
                (ground arith)
        ])

  finds_run-append :
      (held s : Text) (count : ℕ) → ((k : ℕ) → runs k s ≡ true) → runs count (held ++ s) ≡ true
  unfolding finds_run
  finds_run-append [] s count h = h count
  finds_run-append (c ∷ held) s count h =
      rw (finds_run-append held s (if is_decimal c then suc count else 0) h) (ground arith)

  finds_run-later :
      (c : ℕ) (s : Text) (count : ℕ) → ((k : ℕ) → runs k s ≡ true) → runs count (c ∷ s) ≡ true
  unfolding finds_run
  finds_run-later c s count h = rw (h (if is_decimal c then suc count else 0)) (ground arith)

  -- A number that is found at the end of a text is found in the text.
  finds_run-within :
      (u s held : Text) (after_digit : Bool) (count : ℕ)
      → ((b : Bool) (h : Text) (k : ℕ) → runs k (unjoined b h s) ≡ true)
      → runs count (unjoined after_digit held (u ++ s)) ≡ true
  unfolding without_joints
  finds_run-within [] s held after_digit count found = found after_digit held count
  finds_run-within (c ∷ u) s held after_digit count found =
      elim (Bool-cases (after_digit && is_joint c)) [
        | inl joins ↦
            rw (without_joints, joins) (finds_run-within u s (held ++ c ∷ []) true count found)
        | inr not_joint ↦
            rw (without_joints, not_joint)
              (elim (Bool-cases (is_decimal c)) [
                | inl is ↦ rw is (
                    finds_run-later c (unjoined true [] (u ++ s)) count
                      (λ k. finds_run-within u s [] true k found))
                | inr other ↦ rw other (
                    finds_run-append held (c ∷ unjoined false [] (u ++ s)) count (λ k.
                      finds_run-later c (unjoined false [] (u ++ s)) k
                        (λ j. finds_run-within u s [] false j found)))
              ])
      ]

  finds_run-first :
      (c : ℕ) (s v : Text) (n : ℕ)
      → IsDigit c
      → Digits s n
      → 5 ≤ n
      → (b : Bool) (held : Text) (count : ℕ) → runs count (unjoined b held ((c ∷ s) ++ v)) ≡ true
  unfolding finds_run without_joints
  finds_run-first c s v n is more enough b held count =
      let apart : (b && is_joint c) ≡ false = ground (arith, is.1) in
      rw (without_joints, apart, is.0)
        (elim (Bool-cases (leb 6 (suc count))) [
          | inl six ↦ rw (finds_run, is.0, six) refl
          | inr fewer ↦
              rw
                (
                  finds_run,
                  is.0,
                  finds_run-Digits s v [] (suc count) n more (ground arith) (omega (arith, enough)),
                )
                (ground arith)
        ])

  -- A text that passed. Its words are those of the text that was given, with one blank between two;
  -- it is no longer than allowed, has no `://`, no web address at the start of a word that ends in one
  -- of the listed names, no @ before a character of a word, and no six digits that at most spaces,
  -- brackets, dots, plus signs and dashes part; and it passes again as it is.
  pub record Passed (text t : Text) (max_len : ℕ) : Type 0 where
    pub same_words : split_words t ≡ split_words text
    pub one_blank : t ≡ join_words (split_words t)
    pub fits : length t ≤ max_len
    pub no_scheme : (u v : Text) → t ≢ u ++ codes "://" ++ v
    pub no_address :
        (u : Text) (c : ℕ) (host w v : Text) (name : String)
        → is_word c ≡ true
        → word_before false u ≡ false
        → All IsHost (c ∷ host)
        → Among name domains
        → map lower w ≡ codes name
        → starts_word is_word is_decimal lower v ≡ false
        → t ≢ u ++ c ∷ (host ++ b'.' ∷ (w ++ v))
    pub no_handle : (u : Text) (c : ℕ) (v : Text) → is_word c ≡ true → t ≢ u ++ b'@' ∷ c ∷ v
    pub no_number :
        (u : Text) (c : ℕ) (s v : Text) (n : ℕ)
        → IsDigit c
        → Digits s n
        → 5 ≤ n
        → t ≢ u ++ ((c ∷ s) ++ v)
    pub again : check is_word is_decimal lower t max_len ≡ tidied t

  tidy-Passed :
      (text : Text) (max_len : ℕ)
      → problem is_word is_decimal lower text max_len ≡ none
      → check is_word is_decimal lower (tidy text) max_len ≡ tidied (tidy text)
      → Passed text (tidy text) max_len
  unfolding problem
  tidy-Passed text max_len fine passes =
      let t = tidy text in
      let (short, no_link', no_handle', no_run) =
        no_problem (ltb max_len (length t)) (finds_link is_word is_decimal lower false t)
          (finds_handle is_word is_decimal lower t) (runs 0 (unjoined false [] t)) fine in
      let words : split_words t ≡ split_words text =
        unfold tidy in split_words-join (split_words text) (split_words-IsWord text) in
      record {
        same_words = words;
        one_blank = unfold tidy in sym (ap join_words words);
        fits = ground (arith, short);
        no_scheme = λ u v e.
            both_ways _ (finds_link-scheme u v false)
              (subst (λ x. finds_link is_word is_decimal lower false x ≡ false) e no_link');
        no_address = λ u c host w v name word first hosts at spelled ended e.
            both_ways _
              (finds_link-address u c (host ++ b'.' ∷ (w ++ v)) false word first (
                unfold is_address in
                rw hosts.0 (
                  is_address-at host (w ++ v) hosts.1
                    (ends_domain-Among domains name w v at spelled ended))))
              (subst (λ x. finds_link is_word is_decimal lower false x ≡ false) e no_link');
        no_handle = λ u c v word e.
            both_ways _ (finds_handle-at u c v word)
              (subst (λ x. finds_handle is_word is_decimal lower x ≡ false) e no_handle');
        no_number = λ u c s v n is more enough e.
            both_ways _
              (finds_run-within u ((c ∷ s) ++ v) [] false 0
                (finds_run-first c s v n is more enough))
              (subst (λ x. runs 0 (unjoined false [] x) ≡ false) e no_run);
        again = passes;
      }

  -- A text that passes the rules comes back tidied: with the words that it had and one blank between
  -- two. What comes back is no longer than allowed, has no `://`, no web address at the start of a
  -- word that ends in one of the listed names, no @ before a character of a word, and no six digits
  -- that at most spaces, brackets, dots, plus signs and dashes part; and it passes again as it is.
  pub check-Passed :
      (text t : Text) (max_len : ℕ)
      → check is_word is_decimal lower text max_len ≡ tidied t
      → Passed text t max_len
  unfolding check verdict
  check-Passed text t max_len passed =
      elim (Option-cases (problem is_word is_decimal lower text max_len)) [
        | inl fine ↦
            let passes : tidied (tidy text) ≡ tidied t = rw fine at passed in
            let same : t ≡ tidy text = sym (tidied_injective passes) in
            let again = check-check is_word is_decimal lower text t max_len passed in
            subst (λ x. Passed text x max_len) (sym same)
              (tidy-Passed text max_len fine
                (subst (λ x. check is_word is_decimal lower x max_len ≡ tidied x) same again))
        | inr (p, bad) ↦
            let fails : wrong p ≡ tidied t = rw bad at passed in absurd (let e = fails in (cc))
      ]
