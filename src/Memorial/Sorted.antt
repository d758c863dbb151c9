-- ===== src/Memorial/Sorted.antt =====
-- The schedule that `build_schedule` answers: one observance to a date, soonest first, and none of
-- the chosen dates left out.
use agyary.Common.{
  ℕ, ◌<◌, ◌≡◌, ◌≢◌, refl, sym, ap, ◌∙◌, ◌⊎◌, inl, inr, List, [], ◌∷◌, map, All, Among, true, false,
  Bool-cases, arith, subst, ok, >>=-eq-ok, ok_injective, guard,
}
use agyary.Dates.{leb_date, ltb_date}
use agyary.Memorial.{Observance, start_of}
use agyary.Memorial.Keep.{
  Ranked, insert_sorted, sorted, by_date_and_number, best_of, second, kept_schedule,
}
use agyary.Memorial.Build.{Request, build_schedule, request_fits, all_choices}
use agyary.Memorial.Kept.{
  day_of, Increasing, NotOn, Distinct, StandsFor, best_of-Among, best_of-covers, best_of-Distinct,
}

abbrev OffDay : ℕ → List Observance → Type 0
OffDay n os = All (λ o. day_of o ≢ n) os

abbrev Apart : List Observance → Type 0
Apart [] = Unit
Apart (o ∷ os) = OffDay (day_of o) os × Apart os

abbrev place : Observance → List Observance → List Observance
place = insert_sorted by_date_and_number

module _ (P : Observance → Type 0) where
  All-place : (o : Observance) (os : List Observance) → P o → All P os → All P (place o os)
  unfolding insert_sorted
  All-place o [] h hs = (h, tt)
  All-place o (p ∷ os) h hs = elim (Bool-cases (by_date_and_number o p)) [
    | inl first ↦ rw first (h, hs)
    | inr after ↦ rw after (hs.0, All-place o os h hs.1)
  ]

  All-sorted : (os : List Observance) → All P os → All P (sorted by_date_and_number os)
  unfolding sorted
  All-sorted [] hs = tt
  All-sorted (o ∷ os) hs = All-place o (sorted by_date_and_number os) hs.0 (All-sorted os hs.1)

  All-mono :
      (Q : Observance → Type 0) (os : List Observance)
      → ((o : Observance) → P o → Q o)
      → All P os
      → All Q os
  All-mono Q [] f hs = tt
  All-mono Q (o ∷ os) f hs = (f o hs.0, All-mono Q os f hs.1)

before_or_after :
    (o p : Observance)
    → day_of p ≢ day_of o
    → ((by_date_and_number o p ≡ true) × (day_of o < day_of p))
      ⊎ ((by_date_and_number o p ≡ false) × (day_of p < day_of o))
unfolding ltb_date leb_date
before_or_after o p ne = ground arith

Increasing-place :
    (o : Observance) (os : List Observance)
    → OffDay (day_of o) os
    → Increasing os
    → Increasing (place o os)
unfolding insert_sorted
Increasing-place o [] off inc = (tt, tt)
Increasing-place o (p ∷ os) off inc = elim (before_or_after o p off.0) [
  | inl (first, lt) ↦ rw first (
    (
      lt,
      All-mono (λ q. day_of p < day_of q) (λ q. day_of o < day_of q) os (λ q k. omega arith) inc.0,
    ),
    inc,
  )
  | inr (after, gt') ↦
      rw after
        (All-place (λ q. day_of p < day_of q) o os gt' inc.0, Increasing-place o os off.1 inc.1)
]

Increasing-sorted : (os : List Observance) → Apart os → Increasing (sorted by_date_and_number os)
unfolding sorted
Increasing-sorted [] a = tt
Increasing-sorted (o ∷ os) a =
    Increasing-place o (sorted by_date_and_number os) (All-sorted (λ p. day_of p ≢ day_of o) os a.0)
      (Increasing-sorted os a.1)

OffDay-map : (n : ℕ) (rs : List Ranked) → NotOn n rs → OffDay n (map second rs)
OffDay-map n [] d = tt
OffDay-map n (r ∷ rs) d = (d.0, OffDay-map n rs d.1)

Apart-map : (rs : List Ranked) → Distinct rs → Apart (map second rs)
Apart-map [] d = tt
Apart-map (r ∷ rs) d = (OffDay-map (day_of r.1) rs d.0, Apart-map rs d.1)

kept_schedule-Increasing : (ranked : List Ranked) → Increasing (kept_schedule ranked)
unfolding kept_schedule
kept_schedule-Increasing ranked =
    Increasing-sorted (map second (best_of [] ranked))
      (Apart-map (best_of [] ranked) (best_of-Distinct [] ranked tt))

Among-place_self : (o : Observance) (os : List Observance) → Among o (place o os)
unfolding insert_sorted
Among-place_self o [] = inl refl
Among-place_self o (p ∷ os) = elim (Bool-cases (by_date_and_number o p)) [
  | inl first ↦ rw first (inl refl)
  | inr after ↦ rw after (inr (Among-place_self o os))
]

Among-place : (o q : Observance) (os : List Observance) → Among q os → Among q (place o os)
unfolding insert_sorted
Among-place o q [] h = absurd h
Among-place o q (p ∷ os) h = elim (Bool-cases (by_date_and_number o p)) [
  | inl first ↦ rw first (inr h)
  | inr after ↦ rw after (elim h [ inl e ↦ inl e | inr k ↦ inr (Among-place o q os k) ])
]

Among-sorted :
    (q : Observance) (os : List Observance) → Among q os → Among q (sorted by_date_and_number os)
unfolding sorted
Among-sorted q [] h = absurd h
Among-sorted q (o ∷ os) (inl e) = rw e (Among-place_self o (sorted by_date_and_number os))
Among-sorted q (o ∷ os) (inr h) =
    Among-place o q (sorted by_date_and_number os) (Among-sorted q os h)

Among-second : (r : Ranked) (rs : List Ranked) → Among r rs → Among r.1 (map second rs)
Among-second r (x ∷ rs) (inl e) = inl (ap second e)
Among-second r (x ∷ rs) (inr h) = inr (Among-second r rs h)
Among-second r [] h = absurd h

All-second :
    (P : Observance → Type 0) (rs : List Ranked)
    → ((r : Ranked) → Among r rs → P r.1)
    → All P (map second rs)
All-second P [] f = tt
All-second P (r ∷ rs) f = (f r (inl refl), All-second P rs (λ q h. f q (inr h)))

module _ (r : Request) where
  built_of :
      (os : List Observance)
      → build_schedule r ≡ ok os
      → (ranked : List Ranked) × (all_choices r ≡ ok ranked) × (kept_schedule ranked ≡ os)
  unfolding build_schedule
  built_of os e =
      let (fits, fits_is, e1) = >>=-eq-ok (guard (request_fits r)) _ e in
      let (start, start_is, e2) = >>=-eq-ok (start_of r.death) _ e1 in
      let (ranked, chosen, e3) = >>=-eq-ok (all_choices r) _ e2 in (ranked, chosen, ok_injective e3)

  built_from :
      (os : List Observance) (ranked : List Ranked)
      → build_schedule r ≡ ok os
      → all_choices r ≡ ok ranked
      → kept_schedule ranked ≡ os
  built_from os ranked e c =
      let (ranked', chosen, made) = built_of os e in
      ap kept_schedule (ok_injective (sym c ∙ chosen)) ∙ made

  -- The schedule is soonest first with no date twice: each observance is on a later date than the
  -- one before it.
  pub build_schedule-Increasing : (os : List Observance) → build_schedule r ≡ ok os → Increasing os
  build_schedule-Increasing os e =
      let (ranked, from, made) = built_of os e in rw (← made) (kept_schedule-Increasing ranked)

  kept_schedule-covers :
      (ranked : List Ranked) (x : Ranked)
      → Among x ranked
      → (q : Ranked) × Among q ranked × StandsFor x q × Among q.1 (kept_schedule ranked)
  unfolding kept_schedule
  kept_schedule-covers ranked x h =
      let (q, at, stands) = best_of-covers x [] ranked h in
      (
        q,
        elim (best_of-Among q [] ranked at) [ inl no' ↦ absurd no' | inr k ↦ k ],
        stands,
        Among-sorted q.1 (map second (best_of [] ranked)) (Among-second q (best_of [] ranked) at),
      )

  -- No chosen date is lost: a candidate of a successful call has its date in the schedule, on which
  -- there stands a candidate of the same date with no higher rank.
  pub build_schedule-covers :
      (os : List Observance) (ranked : List Ranked) (x : Ranked)
      → build_schedule r ≡ ok os
      → all_choices r ≡ ok ranked
      → Among x ranked
      → (q : Ranked) × Among q ranked × StandsFor x q × Among q.1 os
  build_schedule-covers os ranked x e c h =
      subst (λ l. (q : Ranked) × Among q ranked × StandsFor x q × Among q.1 l)
        (built_from os ranked e c) (kept_schedule-covers ranked x h)

  kept_schedule-candidates :
      (P : Observance → Type 0) (ranked : List Ranked)
      → ((x : Ranked) → Among x ranked → P x.1)
      → All P (kept_schedule ranked)
  unfolding kept_schedule
  kept_schedule-candidates P ranked f = All-sorted P (map second (best_of [] ranked)) (
      All-second P (best_of [] ranked)
        (λ q h. f q (elim (best_of-Among q [] ranked h) [ inl no' ↦ absurd no' | inr k ↦ k ])))

  -- What holds of every candidate holds of every observance in the schedule.
  pub build_schedule-candidates :
      (P : Observance → Type 0) (os : List Observance)
      → build_schedule r ≡ ok os
      → ((ranked : List Ranked) (x : Ranked) → all_choices r ≡ ok ranked → Among x ranked → P x.1)
      → All P os
  build_schedule-candidates P os e f =
      let (ranked, from, made) = built_of os e in
      subst (All P) made (kept_schedule-candidates P ranked (λ x h. f ranked x from h))
