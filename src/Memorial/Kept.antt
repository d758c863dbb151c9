-- ===== src/Memorial/Kept.antt =====
-- What `build_schedule` keeps of its candidates: one observance to a date, of the lowest rank there,
-- in the order of the dates.
use agyary.Common.{
  ℕ, ◌≤◌, ◌<◌, ◌≡◌, ◌≢◌, refl, sym, ◌∙◌, ◌⊎◌, inl, inr, List, [], ◌∷◌, All, Among, ltb, ==_iff,
  Bool-cases, arith, subst,
}
use agyary.Dates.{to_ordinal}
use agyary.Memorial.{Observance}
use agyary.Memorial.Keep.{Ranked, same_date, keep_best, best_of}

abbrev pub day_of : Observance → ℕ
day_of o = to_ordinal o.gregorian_date

-- Each date is later than the one before it.
abbrev pub Increasing : List Observance → Type 0
Increasing [] = Unit
Increasing (o ∷ os) = All (λ p. day_of o < day_of p) os × Increasing os

abbrev pub NotOn : ℕ → List Ranked → Type 0
NotOn n [] = Unit
NotOn n ((r, p) ∷ rest) = (day_of p ≢ n) × NotOn n rest

abbrev pub Distinct : List Ranked → Type 0
Distinct [] = Unit
Distinct ((r, p) ∷ rest) = NotOn (day_of p) rest × Distinct rest

-- A kept observance stands for x: it is on the date of x, and its rank is no higher.
abbrev pub StandsFor : Ranked → Ranked → Type 0
StandsFor x q = (day_of q.1 ≡ day_of x.1) × (q.0 ≤ x.0)

abbrev pub Covered : Ranked → List Ranked → Type 0
Covered x best = (q : Ranked) × Among q best × StandsFor x q

-- The three outcomes of one round at the head of the list.
data Kept (x b : Ranked) (rest : List Ranked) : List Ranked → Type 0 where
  replaced : day_of x.1 ≡ day_of b.1 → x.0 < b.0 → Kept x b rest (x ∷ rest)
  stayed : day_of x.1 ≡ day_of b.1 → b.0 ≤ x.0 → Kept x b rest (b ∷ rest)
  passed : day_of x.1 ≢ day_of b.1 → Kept x b rest (b ∷ keep_best x rest)

keep_best-Kept : (x b : Ranked) (rest : List Ranked) → Kept x b rest (keep_best x (b ∷ rest))
unfolding keep_best
keep_best-Kept (k, o) (r, p) rest =
    elim (Bool-cases (same_date o.gregorian_date p.gregorian_date)) [
      | inl same ↦
          let e : day_of o ≡ day_of p = (==_iff (day_of o) (day_of p)).0 same in
          rw same (elim (Bool-cases (ltb k r)) [
            | inl l ↦ rw l (replaced e (ground arith))
            | inr l ↦ rw l (stayed e (ground arith))
          ])
      | inr other ↦ rw other (passed (λ e. cc ((==_iff (day_of o) (day_of p)).1 e)))
    ]

-- A statement about the list after a round, from the same statement at each outcome.
module _ (P : List Ranked → Type 0) (x b : Ranked) (rest : List Ranked) where
  by_round :
      (day_of x.1 ≡ day_of b.1 → x.0 < b.0 → P (x ∷ rest))
      → (day_of x.1 ≡ day_of b.1 → b.0 ≤ x.0 → P (b ∷ rest))
      → (day_of x.1 ≢ day_of b.1 → P (b ∷ keep_best x rest))
      → P (keep_best x (b ∷ rest))
  by_round f g h = go (keep_best-Kept x b rest)
    where
      go : {l : List Ranked} → Kept x b rest l → P l
      go (replaced e lt) = f e lt
      go (stayed e le) = g e le
      go (passed ne) = h ne

keep_best-NotOn :
    (n : ℕ) (x : Ranked) (best : List Ranked)
    → day_of x.1 ≢ n
    → NotOn n best
    → NotOn n (keep_best x best)
unfolding keep_best
keep_best-NotOn n x [] h d = (h, tt)
keep_best-NotOn n x (b ∷ rest) h d =
    by_round (NotOn n) x b rest (λ e lt. (h, d.1)) (λ e le. d)
      (λ ne. (d.0, keep_best-NotOn n x rest h d.1))

keep_best-Distinct : (x : Ranked) (best : List Ranked) → Distinct best → Distinct (keep_best x best)
unfolding keep_best
keep_best-Distinct x [] d = (tt, tt)
keep_best-Distinct x (b ∷ rest) d =
    by_round Distinct x b rest (λ e lt. (subst (λ n. NotOn n rest) (sym e) d.0, d.1)) (λ e le. d)
      (λ ne. (keep_best-NotOn (day_of b.1) x rest ne d.0, keep_best-Distinct x rest d.1))

keep_best-covers_self : (x : Ranked) (best : List Ranked) → Covered x (keep_best x best)
unfolding keep_best
keep_best-covers_self x [] = (x, inl refl, (refl, omega arith))
keep_best-covers_self x (b ∷ rest) =
    by_round (Covered x) x b rest (λ e lt. (x, inl refl, (refl, omega arith)))
      (λ e le. (b, inl refl, (sym e, le)))
      (λ ne. let (q, h, s) = keep_best-covers_self x rest in (q, inr h, s))

keep_best-covers :
    (x y : Ranked) (best : List Ranked) → Covered y best → Covered y (keep_best x best)
unfolding keep_best
keep_best-covers x y [] (q, h, s) = absurd h
keep_best-covers x y (b ∷ rest) (q, inl at, s) =
    let sb : StandsFor y b = subst (StandsFor y) at s in
    by_round (Covered y) x b rest (λ e lt. (x, inl refl, (e ∙ sb.0, omega arith)))
      (λ e le. (b, inl refl, sb)) (λ ne. (b, inl refl, sb))
keep_best-covers x y (b ∷ rest) (q, inr h, s) =
    by_round (Covered y) x b rest (λ e lt. (q, inr h, s)) (λ e le. (q, inr h, s))
      (λ ne. let (z, k, t) = keep_best-covers x y rest (q, h, s) in (z, inr k, t))

under_second : (q x b : Ranked) (rest : List Ranked) → Among q (x ∷ rest) → Among q (x ∷ b ∷ rest)
under_second q x b rest (inl e) = inl e
under_second q x b rest (inr h) = inr (inr h)

keep_best-Among :
    (x q : Ranked) (best : List Ranked) → Among q (keep_best x best) → Among q (x ∷ best)
unfolding keep_best
keep_best-Among x q [] h = h
keep_best-Among x q (b ∷ rest) hyp =
    by_round (λ l. Among q l → Among q (x ∷ b ∷ rest)) x b rest (λ e lt. under_second q x b rest)
      (λ e le. inr)
      (λ ne h. elim h [
        | inl e ↦ inr (inl e)
        | inr k ↦ under_second q x b rest (keep_best-Among x q rest k)
      ])
      hyp

module _ (x : Ranked) where
  pub best_of-Among :
      (best rs : List Ranked) → Among x (best_of best rs) → Among x best ⊎ Among x rs
  unfolding best_of
  best_of-Among best [] h = inl h
  best_of-Among best (r ∷ rs) h = elim (best_of-Among (keep_best r best) rs h) [
    | inl k ↦ elim (keep_best-Among r x best k) [ inl e ↦ inr (inl e) | inr m ↦ inl m ]
    | inr k ↦ inr (inr k)
  ]

  best_of-covers_old : (best rs : List Ranked) → Covered x best → Covered x (best_of best rs)
  unfolding best_of
  best_of-covers_old best [] h = h
  best_of-covers_old best (r ∷ rs) h =
      best_of-covers_old (keep_best r best) rs (keep_best-covers r x best h)

  pub best_of-covers : (best rs : List Ranked) → Among x rs → Covered x (best_of best rs)
  unfolding best_of
  best_of-covers best [] h = absurd h
  best_of-covers best (r ∷ rs) (inl e) =
      best_of-covers_old (keep_best r best) rs (rw e (keep_best-covers_self r best))
  best_of-covers best (r ∷ rs) (inr h) = best_of-covers (keep_best r best) rs h

pub best_of-Distinct : (best rs : List Ranked) → Distinct best → Distinct (best_of best rs)
unfolding best_of
best_of-Distinct best [] d = d
best_of-Distinct best (r ∷ rs) d =
    best_of-Distinct (keep_best r best) rs (keep_best-Distinct r best d)
