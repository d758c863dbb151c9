-- ===== src/Repeats/Ends.antt =====
-- A repeat of a number of occurrences does not run past the last of them.
use agyary.Common.{
  ℕ, zero, suc, ◌+◌, ◌-◌, ◌≤◌, ◌<◌, ◌≡◌, sym, ap, ◌∙◌, subst, inl, inr, Option, none, some, List,
  [], ◌∷◌, Bool, true, false, Bool-cases, leb, if◌then◌else◌, All, ok, value_error, overflow_error,
  ok_injective, some_injective, ℤ, arith, ltb,
}
use agyary.Dates.{Date, to_ordinal, leb_date, ltb_date}
use agyary.Engine.{CalendarSystem}
use agyary.Repeats.{
  Pattern, step_for, day_at, and_then, series_dates, last_occurrence, steps, Rule, place_of,
  max_generate_months,
}
use agyary.Machis.{Machi}
use agyary.Machis.Booking.{Board, slot_keys}
use agyary.Machis.Single.{Sound}
use agyary.Repeats.Due.{up_to, Generates, and_then-eq-ok, generate_recurrence_instances-Generates}
use agyary.Repeats.Generate.{
  Diary, Generated, find_machi, until_end, anchor_of, generate_recurrence_instances,
}
use agyary.Repeats.Kept.{Result-cases}
use agyary.Repeats.Places.{
  steps-add, steps-Before, day_at-lt, occurrence, occurrence-lt, IsOccurrence,
  series_dates-IsOccurrence, last_occurrence-IsOccurrence,
}

leb_of_le : (a b : ℕ) → a ≤ b → leb a b ≡ true
leb_of_le a b h = ground arith

module _ (system : CalendarSystem) (pattern : Pattern) (roj : Option ℕ) where
  -- No day of a series is tried after one of its occurrences that reaches the date asked for.
  up_to-le :
      (at : ℕ × ℤ) (n : ℕ) (days : List Date) (through : Date) (e : ℕ) (end : Date)
      → series_dates system pattern roj at n ≡ ok days
      → occurrence system pattern roj at (suc e) ≡ ok end
      → to_ordinal through ≤ to_ordinal end
      → All (λ d. to_ordinal d ≤ to_ordinal end) (up_to through days)
  unfolding series_dates and_then up_to leb_date step_for steps
  up_to-le at zero days through e end made is reach =
      subst (λ l. All (λ d. to_ordinal d ≤ to_ordinal end) (up_to through l)) (ok_injective made) tt
  up_to-le at (suc n) days through zero end made is reach =
      let next = step_for pattern at in
      elim (Result-cases (day_at system roj next)) [
        | inl (day, found) ↦
            let (rest, later, all) =
              and_then-eq-ok day (series_dates system pattern roj next n) days (rw found at made) in
            let same : day ≡ end = ok_injective (sym found ∙ is) in
            let enough : leb_date through day ≡ true = rw same (leb_of_le _ _ reach) in
            subst (λ l. All (λ d. to_ordinal d ≤ to_ordinal end) (up_to through l)) all
              (rw enough (omega (arith, ap to_ordinal same), tt))
        | inr (inl none') ↦ absurd (let k : value_error ≡ ok end = sym none' ∙ is in (cc))
        | inr (inr bad) ↦ absurd (let k : overflow_error ≡ ok end = sym bad ∙ is in (cc))
      ]
  up_to-le at (suc n) days through (suc e) end made is reach =
      let next = step_for pattern at in
      elim (Result-cases (day_at system roj next)) [
        | inl (day, found) ↦
            let (rest, later, all) =
              and_then-eq-ok day (series_dates system pattern roj next n) days (rw found at made) in
            let before : to_ordinal day < to_ordinal end =
              day_at-lt system roj next (steps pattern (suc e) next) day end
                (steps-Before pattern e next) found is in
            let others = up_to-le next n rest through e end later is reach in
            subst (λ l. All (λ d. to_ordinal d ≤ to_ordinal end) (up_to through l)) all
              (elim (Bool-cases (leb_date through day)) [
                | inl enough ↦ rw enough (omega (arith, before), tt)
                | inr short ↦ rw short (omega (arith, before), others)
              ])
        | inr (inl none') ↦ up_to-le next n days through e end (rw none' at made) is reach
        | inr (inr bad) ↦ absurd (let k : overflow_error ≡ ok days = rw bad at made in (cc))
      ]

  up_to-All :
      (P : Date → Type 0) (through : Date) (days : List Date)
      → All P days
      → All P (up_to through days)
  unfolding up_to
  up_to-All P through [] h = tt
  up_to-All P through (d ∷ days) h = elim (Bool-cases (leb_date through d)) [
    | inl enough ↦ rw enough (h.0, tt)
    | inr short ↦ rw short (h.0, up_to-All P through days h.1)
  ]

  -- Each day is one of the occurrences of the repeat, counted from its first day, below the count.
  abbrev pub WithinCount : ℕ × ℤ → ℕ → Date → Type 0
  WithinCount first count d = (n : ℕ) × (n < count) × (occurrence system pattern roj first n ≡ ok d)

  within_count :
      (first : ℕ × ℤ) (k limit count : ℕ) (end : Date) (days : List Date)
      → IsOccurrence system pattern roj first (count - 1) end
      → All (IsOccurrence system pattern roj (steps pattern k first) limit) days
      → All (λ d. to_ordinal d ≤ to_ordinal end) days
      → All (WithinCount first count) days
  within_count first k limit count end [] ends occ le = tt
  within_count first k limit count end (d ∷ days) (j, below, its_end) ((i, lt, is), occ) (le, les) =
      let index : k + suc i ≡ suc (k + i) = omega arith in
      let here : occurrence system pattern roj first (suc (k + i)) ≡ ok d =
        subst (λ p. day_at system roj p ≡ ok d)
          (steps-add pattern k (suc i) first ∙ ap (λ m. steps pattern m first) index) is in
      (
        elim (Bool-cases (ltb j (k + i))) [
          | inl past ↦
              let after : to_ordinal end < to_ordinal d =
                occurrence-lt system pattern roj first (suc j) (suc (k + i)) end d (ground arith)
                  its_end here in
              absurd (omega (arith, after, le))
          | inr within ↦ (suc (k + i), ground arith, here)
        ],
        within_count first k limit count end days (j, below, its_end) occ les,
      )

  end_ahead :
      (first : ℕ × ℤ) (k j : ℕ) (marker end : Date)
      → ltb j k ≡ true
      → occurrence system pattern roj first k ≡ ok marker
      → occurrence system pattern roj first (suc j) ≡ ok end
      → to_ordinal marker < to_ordinal end
      → ⊥
  end_ahead first k j marker end gone at_marker its_end before = elim (Bool-cases (ltb (suc j) k)) [
    | inl past ↦
        let after : to_ordinal end < to_ordinal marker =
          occurrence-lt system pattern roj first (suc j) k end marker (ground arith) its_end
            at_marker in
        omega (arith, before, after)
    | inr same ↦
        let index : suc j ≡ k = ground arith in
        let one : end ≡ marker =
          ok_injective (sym its_end ∙ ap (occurrence system pattern roj first) index ∙ at_marker) in
        omega (arith, before, ap to_ordinal one)
  ]

  -- Of a series that goes on from one of its occurrences, before its end and through a date that is
  -- not after its end, each day up to there is an occurrence of the repeat with a number below the
  -- count, the first being number 0.
  pub up_to-WithinCount :
      (first : ℕ × ℤ) (k n count : ℕ) (marker end through : Date) (days : List Date)
      → last_occurrence system pattern roj first count ≡ ok (some end)
      → occurrence system pattern roj first k ≡ ok marker
      → to_ordinal marker < to_ordinal end
      → to_ordinal through ≤ to_ordinal end
      → series_dates system pattern roj (steps pattern k first) n ≡ ok days
      → All (WithinCount first count) (up_to through days)
  up_to-WithinCount first k n count marker end through days ends at_marker before reach made =
      let (j, below, its_end) =
        last_occurrence-IsOccurrence system pattern roj first count end ends in
      elim (Bool-cases (ltb j k)) [
        | inl gone ↦ absurd (end_ahead first k j marker end gone at_marker its_end before)
        | inr ahead ↦
            let place : steps pattern (suc (j - k)) (steps pattern k first)
                ≡ steps pattern (suc j) first =
              let index : k + suc (j - k) ≡ suc j = ground arith in
              steps-add pattern k (suc (j - k)) first ∙ ap (λ m. steps pattern m first) index in
            let its_end₂ : occurrence system pattern roj (steps pattern k first) (suc (j - k))
                ≡ ok end =
              subst (λ p. day_at system roj p ≡ ok end) (sym place) its_end in
            within_count first k n count end (up_to through days) (j, below, its_end)
              (up_to-All (IsOccurrence system pattern roj (steps pattern k first) n) through days
                (series_dates-IsOccurrence system pattern roj (steps pattern k first) n days made))
              (up_to-le (steps pattern k first) n days through (j - k) end made its_end₂ reach)
      ]

until_end-le :
    (end : Option Date) (last through : Date)
    → end ≡ some last
    → to_ordinal (until_end end through) ≤ to_ordinal last
unfolding until_end ltb_date
until_end-le none last through e = absurd (cc)
until_end-le (some end) last through e =
    let same : end ≡ last = some_injective e in
    subst (λ d. to_ordinal (if ltb_date end through then end else through) ≤ to_ordinal d) same
      (ground arith)

-- A repeat that is counted never runs past its count. In tables that are sound and stay so under what
-- others book, for a rule whose end is that of its count and whose marker is one of its occurrences,
-- before the end and the date asked for, the days that a call of the generator tries are occurrences
-- with numbers below the count, the first being number 0: it puts on the board the machis of those
-- days that `book_machi_slot` books, each tied to the rule and counted, skips those that are taken,
-- and tries no other day.
pub generate_recurrence_instances-WithinCount :
    (calendar : ℕ → CalendarSystem) (now : Date × ℕ) (meanwhile : ℕ → Board → Board) (agyary : ℕ)
    (has_customer : ℕ → Bool) (rule : Rule) (source : Machi) (through end : Date) (diary : Diary)
    (g : Generated) (key : Option ℕ × Option ℕ × ℤ) (first : ℕ × ℤ) (k count : ℕ) (days : List Date)
    → ((round : ℕ) (board : Board) → Sound calendar board → Sound calendar (meanwhile round board))
    → Sound calendar diary.board
    → find_machi rule.source_machi_id diary.board.machis ≡ some source
    → has_customer source.customer_id ≡ true
    → leb_date (until_end rule.end_date through) (anchor_of rule source) ≡ false
    → slot_keys (calendar agyary) (anchor_of rule source) ≡ ok key
    → place_of key ≡ ok (steps rule.pattern k first)
    → series_dates
        (calendar agyary)
        rule.pattern
        source.parsi_roj
        (steps rule.pattern k first)
        max_generate_months
      ≡ ok days
    → rule.end_date ≡ some end
    → last_occurrence (calendar agyary) rule.pattern source.parsi_roj first count ≡ ok (some end)
    → occurrence (calendar agyary) rule.pattern source.parsi_roj first k
      ≡ ok (anchor_of rule source)
    → generate_recurrence_instances calendar now meanwhile agyary has_customer rule through diary
      ≡ ok g
    → (due : List Date) × Generates calendar now meanwhile agyary rule source
        (anchor_of rule source)
        diary
        g
        due
      × All (WithinCount (calendar agyary) rule.pattern source.parsi_roj first count) due
unfolding leb_date
generate_recurrence_instances-WithinCount calendar now meanwhile agyary has_customer rule source
      through end diary g key first k count days keeps s found there short keyed placed shown ends
      counted at_marker e =
    let limit = until_end rule.end_date through in
    let reach : to_ordinal limit ≤ to_ordinal end = until_end-le rule.end_date end through ends in
    let before : to_ordinal (anchor_of rule source) < to_ordinal limit = ground arith in
    let made =
      generate_recurrence_instances-Generates calendar now meanwhile agyary has_customer keeps rule
        source through diary g key (steps rule.pattern k first) days s found there short keyed
        placed shown e in
    (
      up_to limit days,
      made,
      up_to-WithinCount (calendar agyary) rule.pattern source.parsi_roj first k max_generate_months
          count (anchor_of rule source) end limit days counted at_marker
          (omega (arith, reach, before)) reach shown,
    )
