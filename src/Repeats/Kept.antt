-- ===== src/Repeats/Kept.antt =====
-- The generator keeps the machis sound, whatever others book in the meantime.
use agyary.Common.{
  ℕ, zero, suc, ◌≡◌, ◌⊎◌, refl, sym, subst, inl, inr, Option, none, some, List, [], ◌∷◌, Bool, true,
  false, Bool-cases, Result, ok, value_error, overflow_error, >>=-eq-ok, ok_injective, ℤ,
}
use agyary.Dates.{Date, leb_date}
use agyary.Engine.{CalendarSystem}
use agyary.Machis.{Machi, Name}
use agyary.Machis.Booking.{Board, Booked, booked, taken, slot_keys, book_machi_slot}
use agyary.Machis.Single.{Sound}
use agyary.Machis.Outcome.{book_machi_slot-Sound}
use agyary.Repeats.{Pattern, step_for, day_at, Rule, place_of, max_generate_months}
use agyary.Repeats.Generate.{
  Run, Diary, Generated, find_machi, names_of, until_end, anchor_of, after_booking, book_round,
  rounds, by_day, unless, stop_rule, keep_run, first_run, generate_from, generate_for,
  generate_recurrence_instances, generate_all, rules_due, ensure_recurrences_generated,
}

-- To split on what a call gives.
pub Result-cases {ℓ} :
    {A : Type ℓ} (r : Result A)
    → ((a : A) × (r ≡ ok a)) ⊎ ((r ≡ value_error) ⊎ (r ≡ overflow_error))
Result-cases (ok a) = inl (a, refl)
Result-cases value_error = inr (inl refl)
Result-cases overflow_error = inr (inr refl)

after_booking-board :
    (rule_id : ℕ) (day : Date) (run : Run) (result : Board × Booked)
    → (after_booking rule_id day run result).board ≡ result.0
unfolding after_booking
after_booking-board rule_id day run (board, booked m) = refl
after_booking-board rule_id day run (board, taken others) = refl

module _ (calendar : ℕ → CalendarSystem) (now : Date × ℕ) (meanwhile : ℕ → Board → Board)
    (agyary : ℕ) where
  module _ (rule_id : ℕ) (pattern : Pattern) (source : Machi) (names : List Name)
      (through : Date) where
    abbrev next_day : ℕ × ℤ → Result Date
    next_day at = day_at (calendar agyary) source.parsi_roj (step_for pattern at)

    abbrev book : ℕ → Date → Run → Result Run
    book left day run = book_round calendar now meanwhile agyary left rule_id source names day run

    abbrev go_on : ℕ × ℤ → ℕ → Run → Result Run
    go_on at left run =
        rounds calendar now meanwhile agyary rule_id pattern source names through at left run

    -- How a round ends: there is no such day, or its day was tried and is the last, or not.
    pub data Round (at : ℕ × ℤ) (left : ℕ) (run after : Run) : Type 0 where
      no_day :
          next_day at ≡ value_error
          → go_on (step_for pattern at) left run ≡ ok after
          → Round at left run after
      last_day :
          (day : Date)
          → next_day at ≡ ok day
          → book left day run ≡ ok after
          → leb_date through day ≡ true
          → Round at left run after
      more_days :
          (day : Date) (mid : Run)
          → next_day at ≡ ok day
          → book left day run ≡ ok mid
          → leb_date through day ≡ false
          → go_on (step_for pattern at) left mid ≡ ok after
          → Round at left run after

    -- A call of the loop that returns has made one of these rounds.
    pub rounds-Round :
        (at : ℕ × ℤ) (left : ℕ) (run after : Run)
        → go_on at (suc left) run ≡ ok after
        → Round at left run after
    unfolding rounds by_day unless
    rounds-Round at left run after e = elim (Result-cases (next_day at)) [
      | inr (inl none') ↦ no_day none' (rw none' at e)
      | inr (inr bad) ↦ absurd (let k : overflow_error ≡ ok after = rw bad at e in (cc))
      | inl (day, is) ↦
          let (mid, made, rest) = >>=-eq-ok (book left day run) _ (rw is at e) in
          elim (Bool-cases (leb_date through day)) [
            | inl enough ↦
                let end : mid ≡ after = ok_injective (rw enough at rest) in
                last_day day is (subst (λ r. book left day run ≡ ok r) end made) enough
            | inr not_enough ↦ more_days day mid is made not_enough (rw not_enough at rest)
          ]
    ]

    module _
        (keeps : (round : ℕ) (board : Board)
          → Sound calendar board
          → Sound calendar (meanwhile round board)) where
      pub book-Sound :
          (left : ℕ) (day : Date) (run after : Run)
          → Sound calendar run.board
          → book left day run ≡ ok after
          → Sound calendar after.board
      unfolding book_round
      book-Sound left day run after s e =
          let (result, made, is) =
            >>=-eq-ok
              (book_machi_slot calendar now agyary source.customer_id source.geh day source.purpose
                names source.created_by_user_id run.board (meanwhile left run.board))
              _ e in
          let sound : Sound calendar result.0 =
            book_machi_slot-Sound calendar now agyary source.customer_id source.geh day
              source.purpose names source.created_by_user_id run.board (meanwhile left run.board)
              result.0 result.1 (keeps left run.board s) made in
          subst (λ r. Sound calendar r.board) (ok_injective is)
            (subst (Sound calendar) (sym (after_booking-board rule_id day run result)) sound)

      rounds-Sound :
          (at : ℕ × ℤ) (left : ℕ) (run after : Run)
          → Sound calendar run.board
          → go_on at left run ≡ ok after
          → Sound calendar after.board
      unfolding rounds
      rounds-Sound at zero run after s e = subst (λ r. Sound calendar r.board) (ok_injective e) s
      rounds-Sound at (suc left) run after s e = elim (rounds-Round at left run after e) [
        | no_day none' rest ↦ rounds-Sound (step_for pattern at) left run after s rest
        | last_day day is made enough ↦ book-Sound left day run after s made
        | more_days day mid is made short rest ↦
            rounds-Sound (step_for pattern at) left mid after (book-Sound left day run mid s made)
              rest
      ]

  module _ (has_customer : ℕ → Bool)
      (keeps : (round : ℕ) (board : Board)
        → Sound calendar board
        → Sound calendar (meanwhile round board)) where
    generate_from-Sound :
        (rule : Rule) (source : Machi) (through : Date) (diary : Diary) (g : Generated)
        → Sound calendar diary.board
        → generate_from calendar now meanwhile agyary has_customer rule source through diary ≡ ok g
        → Sound calendar g.diary.board
    unfolding generate_from keep_run
    generate_from-Sound rule source through diary g s e =
        let anchor = anchor_of rule source in
        elim (Bool-cases (leb_date through anchor)) [
          | inl reached ↦
              subst (λ x. Sound calendar x.diary.board) (ok_injective (rw reached at e)) s
          | inr short ↦
              let (key, is, e1) =
                >>=-eq-ok (slot_keys (calendar agyary) anchor) _ (rw short at e) in
              let (at, place, e2) = >>=-eq-ok (place_of key) _ e1 in
              let (run, ran, made) =
                >>=-eq-ok
                  (rounds calendar now meanwhile agyary rule.id rule.pattern source
                    (names_of source.id diary.board.names) through at max_generate_months
                    (first_run diary anchor))
                  _ e2 in
              subst (λ x. Sound calendar x.diary.board) (ok_injective made)
                (rounds-Sound rule.id rule.pattern source (names_of source.id diary.board.names)
                  through keeps at max_generate_months (first_run diary anchor) run s ran)
        ]

    stop_rule-Sound :
        (rule : Rule) (diary : Diary) (g : Generated)
        → Sound calendar diary.board
        → ok (stop_rule rule diary) ≡ ok g
        → Sound calendar g.diary.board
    unfolding stop_rule
    stop_rule-Sound rule diary g s e = subst (λ x. Sound calendar x.diary.board) (ok_injective e) s

    generate_for-Sound :
        (rule : Rule) (source : Option Machi) (through : Date) (diary : Diary) (g : Generated)
        → Sound calendar diary.board
        → generate_for calendar now meanwhile agyary has_customer rule source through diary ≡ ok g
        → Sound calendar g.diary.board
    unfolding generate_for
    generate_for-Sound rule none through diary g s e = stop_rule-Sound rule diary g s e
    generate_for-Sound rule (some source) through diary g s e =
        elim (Bool-cases (has_customer source.customer_id)) [
          | inl there ↦
              generate_from-Sound rule source (until_end rule.end_date through) diary g s
                (rw there at e)
          | inr gone ↦ stop_rule-Sound rule diary g s (rw gone at e)
        ]

    generate_all-Sound :
        (rules : List Rule) (through : Date) (diary after : Diary) (total : ℕ)
        → Sound calendar diary.board
        → generate_all calendar now meanwhile agyary has_customer rules through diary
          ≡ ok (after, total)
        → Sound calendar after.board
    unfolding generate_all generate_recurrence_instances
    generate_all-Sound [] through diary after total s e =
        subst (λ x. Sound calendar x.0.board) (ok_injective e) s
    generate_all-Sound (rule ∷ rules) through diary after total s e =
        let source = find_machi rule.source_machi_id diary.board.machis in
        let (g, made, e1) =
          >>=-eq-ok
            (generate_for calendar now meanwhile agyary has_customer rule source through diary) _
            e in
        let (rest, ran, is) =
          >>=-eq-ok (generate_all calendar now meanwhile agyary has_customer rules through g.diary)
            _ e1 in
        subst (λ x. Sound calendar x.0.board) (ok_injective is)
          (generate_all-Sound rules through g.diary rest.0 rest.1
            (generate_for-Sound rule source through diary g s made) ran)

    -- Topping up the repeats of a fire temple keeps the tables sound, as long as what others book
    -- in the meantime does: no two machis of one mobed hold the same geh of a day, each is stored
    -- under the Parsi day of its date, and the ids are different and below the next one.
    pub ensure_recurrences_generated-Sound :
        (through : Date) (owner : Option ℕ) (diary after : Diary) (total : ℕ)
        → Sound calendar diary.board
        → ensure_recurrences_generated calendar now meanwhile agyary has_customer through owner
            diary
          ≡ ok (after, total)
        → Sound calendar after.board
    unfolding ensure_recurrences_generated
    ensure_recurrences_generated-Sound through owner diary after total s e =
        generate_all-Sound (rules_due agyary owner through diary.board.machis diary.rules) through
          diary after total s e
