-- ===== src/Repeats/Due.antt =====
-- The days that the generator tries are those of the series that the preview shows, up to the first
-- that reaches the date asked for.
use agyary.Common.{
  ℕ, zero, suc, ◌+◌, ◌≡◌, ◌⊎◌, refl, ap, ◌∙◌, subst, inl, inr, Option, some, List, [], ◌∷◌, ◌++◌,
  length, length-append, Bool, true, false, if◌then◌else◌, Among, Result, ok, >>=-eq-ok,
  ok_injective, ℤ, arith,
}
use agyary.Dates.{Date, leb_date}
use agyary.Engine.{CalendarSystem}
use agyary.Machis.{Machi, Name}
use agyary.Machis.Booking.{Board, Booked, booked, taken, slot_keys, book_machi_slot}
use agyary.Repeats.{
  Pattern, step_for, and_then, series_dates, last_or, Rule, place_of, max_generate_months,
}
use agyary.Repeats.Generate.{
  Run, Diary, Generated, names_of, anchor_of, after_booking, book_round, rounds, keep_run,
  first_run, generate_from, generate_for, generate_recurrence_instances, find_machi, until_end,
  save_rule,
}
use agyary.Machis.Single.{Sound}
use agyary.Repeats.Kept.{no_day, last_day, more_days, rounds-Round, book-Sound}
use agyary.Repeats.Tries.{Tries, no_days, book_round-Tries}

-- The first days of a series, up to the one that reaches `through`.
unfoldable pub up_to : Date → List Date → List Date
up_to through [] = []
up_to through (day ∷ days) =
    let rest = up_to through days in day ∷ (if leb_date through day then [] else rest)

-- Each of the days was tried: it is booked and counted, or it is among those that were skipped; the
-- marker is on the last of them.
pub record Tried (run after : Run) (due : List Date) : Type 0 where
  pub counted : after.created + length after.skipped ≡ run.created + length run.skipped + length due
  pub marker : last_or (some run.attempted_through) due ≡ some after.attempted_through
  pub missed : (day : Date) → Among day after.skipped → Among day run.skipped ⊎ Among day due

Among-snoc : (xs : List Date) (x y : Date) → Among x (xs ++ y ∷ []) → Among x xs ⊎ (x ≡ y)
Among-snoc [] x y (inl it) = inr it
Among-snoc [] x y (inr h) = absurd h
Among-snoc (z ∷ zs) x y (inl it) = inl (inl it)
Among-snoc (z ∷ zs) x y (inr h) = elim (Among-snoc zs x y h) [
  | inl k ↦ inl (inr k)
  | inr it ↦ inr it
]

none-Tried : (run : Run) → Tried run run []
unfolding last_or
none-Tried run = record { counted = omega arith; marker = refl; missed = λ day h. inl h }

after_booking-Tried :
    (rule_id : ℕ) (day : Date) (run : Run) (result : Board × Booked)
    → Tried run (after_booking rule_id day run result) (day ∷ [])
unfolding after_booking last_or
after_booking-Tried rule_id day run (board, booked m) = record {
  counted = omega arith;
  marker = refl;
  missed = λ d h. inl h;
}
after_booking-Tried rule_id day run (board, taken others) = record {
  counted = omega (arith, length-append run.skipped (day ∷ []));
  marker = refl;
  missed = λ d h. elim (Among-snoc run.skipped d day h) [ inl k ↦ inl k | inr it ↦ inr (inl it) ];
}

last_or_from :
    (a b : Option Date) (day : Date) (days : List Date)
    → last_or a (day ∷ days) ≡ last_or b (day ∷ days)
unfolding last_or
last_or_from a b day days = refl

Tried-cons :
    (day : Date) (run mid after : Run) (rest : List Date)
    → Tried run mid (day ∷ [])
    → Tried mid after rest
    → Tried run after (day ∷ rest)
unfolding last_or
Tried-cons day run mid after rest one others = record {
  counted = omega (arith, one.counted, others.counted);
  marker = ap (λ o. last_or o rest) one.marker ∙ others.marker;
  missed = λ d h. elim (others.missed d h) [
    | inr k ↦ inr (inr k)
    | inl k ↦ elim (one.missed d k) [
      | inl before ↦ inl before
      | inr own ↦ inr (elim own [ inl it ↦ inl it | inr no' ↦ absurd no' ])
    ]
  ];
}

-- A series that begins with a day.
pub and_then-eq-ok :
    (day : Date) (later : Result (List Date)) (days : List Date)
    → and_then (ok day) later ≡ ok days
    → (rest : List Date) × (later ≡ ok rest) × (day ∷ rest ≡ days)
unfolding and_then
and_then-eq-ok day later days e =
    let (rest, is, made) = >>=-eq-ok later _ e in (rest, is, ok_injective made)

module _ (calendar : ℕ → CalendarSystem) (now : Date × ℕ) (meanwhile : ℕ → Board → Board)
    (agyary : ℕ) where
  module _ (rule_id : ℕ) (pattern : Pattern) (source : Machi) (names : List Name)
      (through : Date) where
    book-Tried :
        (left : ℕ) (day : Date) (run after : Run)
        → book_round calendar now meanwhile agyary left rule_id source names day run ≡ ok after
        → Tried run after (day ∷ [])
    unfolding book_round
    book-Tried left day run after e =
        let (result, made, is) =
          >>=-eq-ok
            (book_machi_slot calendar now agyary source.customer_id source.geh day source.purpose
              names source.created_by_user_id run.board (meanwhile left run.board))
            _ e in
        subst (λ r. Tried run r (day ∷ [])) (ok_injective is)
          (after_booking-Tried rule_id day run result)

    abbrev series : ℕ × ℤ → ℕ → Result (List Date)
    series = series_dates (calendar agyary) pattern source.parsi_roj

    pub rounds-Tried :
        (at : ℕ × ℤ) (left : ℕ) (run after : Run) (days : List Date)
        → rounds calendar now meanwhile agyary rule_id pattern source names through at left run
          ≡ ok after
        → series at left ≡ ok days
        → Tried run after (up_to through days)
    unfolding rounds series_dates up_to and_then
    rounds-Tried at zero run after days e d =
        subst (λ r. Tried run r (up_to through days)) (ok_injective e)
          (subst (λ l. Tried run run (up_to through l)) (ok_injective d) (none-Tried run))
    rounds-Tried at (suc left) run after days e d =
        let next = step_for pattern at in
        elim (rounds-Round calendar now meanwhile agyary rule_id pattern source names through at
          left run after e) [
            | no_day none' rest ↦ rounds-Tried next left run after days rest (rw none' at d)
            | last_day day is made enough ↦
                let (others, later, all) =
                  and_then-eq-ok day (series next left) days (rw is at d) in
                let one = book-Tried left day run after made in
                subst (λ l. Tried run after (up_to through l)) all (rw enough one)
            | more_days day mid is made short rest ↦
                let (others, later, all) =
                  and_then-eq-ok day (series next left) days (rw is at d) in
                let one = book-Tried left day run mid made in
                let tried = rounds-Tried next left mid after others rest later in
                subst (λ l. Tried run after (up_to through l)) all
                  (rw short (Tried-cons day run mid after (up_to through others) one tried))
          ]

  module _
      (keeps : (round : ℕ) (board : Board)
        → Sound calendar board
        → Sound calendar (meanwhile round board))
      (rule_id : ℕ) (pattern : Pattern) (source : Machi) (names : List Name) (through : Date) where
    rounds-Tries :
        (at : ℕ × ℤ) (left : ℕ) (run after : Run) (days : List Date)
        → Sound calendar run.board
        → rounds calendar now meanwhile agyary rule_id pattern source names through at left run
          ≡ ok after
        → series_dates (calendar agyary) pattern source.parsi_roj at left ≡ ok days
        → Tries calendar now meanwhile agyary rule_id source names after run (up_to through days)
    unfolding rounds series_dates up_to and_then
    rounds-Tries at zero run after days s e d =
        subst
          (λ r. Tries calendar now meanwhile agyary rule_id source names r run (up_to through days))
          (ok_injective e)
          (subst
            (λ l.
              Tries calendar now meanwhile agyary rule_id source names run run (up_to through l))
            (ok_injective d) no_days)
    rounds-Tries at (suc left) run after days s e d =
        let next = step_for pattern at in
        let later_days = series_dates (calendar agyary) pattern source.parsi_roj next left in
        elim (rounds-Round calendar now meanwhile agyary rule_id pattern source names through at
          left run after e) [
            | no_day none' rest ↦ rounds-Tries next left run after days s rest (rw none' at d)
            | last_day day is made enough ↦
                let (others, later, all) = and_then-eq-ok day later_days days (rw is at d) in
                let one =
                  book_round-Tries calendar now meanwhile agyary rule_id source names left day []
                    run after after (keeps left run.board s) made no_days in
                subst
                  (λ l.
                    Tries calendar now meanwhile agyary rule_id source names after run
                      (up_to through l))
                  all (rw enough one)
            | more_days day mid is made short rest ↦
                let (others, later, all) = and_then-eq-ok day later_days days (rw is at d) in
                let sound =
                  book-Sound calendar now meanwhile agyary rule_id pattern source names through
                    keeps left day run mid s made in
                let tried = rounds-Tries next left mid after others sound rest later in
                let one =
                  book_round-Tries calendar now meanwhile agyary rule_id source names left day
                    (up_to through others) run mid after (keeps left run.board s) made tried in
                subst
                  (λ l.
                    Tries calendar now meanwhile agyary rule_id source names after run
                      (up_to through l))
                  all (rw short one)
          ]

  -- What a call of the generator leaves: the board, the ties, the count and the skipped days of a run
  -- that tried each of the days that were due; as many machis made and days skipped as there are of
  -- those; and the marker of the rule on the last of them.
  pub record Generates (rule : Rule) (source : Machi) (anchor : Date) (diary : Diary)
      (g : Generated) (due : List Date) : Type 0 where
    pub end : Run
    pub tried :
        Tries calendar now meanwhile agyary rule.id source
          (names_of source.id diary.board.names)
          end
          (record {
            board = diary.board;
            ties = diary.ties;
            created = 0;
            skipped = [];
            attempted_through = anchor;
          })
          due
    pub its_board : g.diary.board ≡ end.board
    pub its_ties : g.diary.ties ≡ end.ties
    pub made : g.created ≡ end.created
    pub not_made : g.skipped ≡ end.skipped
    pub counted : g.created + length g.skipped ≡ length due
    pub missed : (day : Date) → Among day g.skipped → Among day due
    pub last : Date
    pub its_last : last_or (some anchor) due ≡ some last
    pub marked :
        g.diary.rules ≡ save_rule (record rule { last_generated_until = some last }) diary.rules

  keep_run-Generates :
      (rule : Rule) (source : Machi) (anchor : Date) (diary : Diary) (run : Run) (due : List Date)
      → Tried (first_run diary anchor) run due
      → Tries calendar now meanwhile agyary rule.id source
          (names_of source.id diary.board.names)
          run
          (first_run diary anchor)
          due
      → Generates rule source anchor diary (keep_run rule diary run) due
  unfolding keep_run
  keep_run-Generates rule source anchor diary run due t tries = record {
    end = run;
    tried = tries;
    its_board = refl;
    its_ties = refl;
    made = refl;
    not_made = refl;
    counted = omega (arith, t.counted);
    missed = λ day h. elim (t.missed day h) [ inl no' ↦ absurd no' | inr k ↦ k ];
    last = run.attempted_through;
    its_last = t.marker;
    marked = refl;
  }

  module _ (has_customer : ℕ → Bool)
      (keeps : (round : ℕ) (board : Board)
        → Sound calendar board
        → Sound calendar (meanwhile round board)) where
    -- Where the tables are sound and stay so under what others book, the source of a rule and its
    -- family are there, and the marker is before the date asked for and before the rule's end, a call
    -- that returns has tried, of the 36 periods after the marker, the days that the preview of the
    -- series shows, up to the first that reaches the earlier of the two. It tried them in their order:
    -- each is booked by `book_machi_slot`, with the machi of that day and of the source's geh and
    -- owner put on the board, tied to the rule and counted, or is taken, the board left to the others,
    -- and noted as skipped. The marker moves to the last of them, or stays where there is none.
    pub generate_recurrence_instances-Generates :
        (rule : Rule) (source : Machi) (through : Date) (diary : Diary) (g : Generated)
        (key : Option ℕ × Option ℕ × ℤ) (at : ℕ × ℤ) (days : List Date)
        → Sound calendar diary.board
        → find_machi rule.source_machi_id diary.board.machis ≡ some source
        → has_customer source.customer_id ≡ true
        → leb_date (until_end rule.end_date through) (anchor_of rule source) ≡ false
        → slot_keys (calendar agyary) (anchor_of rule source) ≡ ok key
        → place_of key ≡ ok at
        → series_dates (calendar agyary) rule.pattern source.parsi_roj at max_generate_months
          ≡ ok days
        → generate_recurrence_instances calendar now meanwhile agyary has_customer rule through
            diary
          ≡ ok g
        → Generates rule source
            (anchor_of rule source)
            diary
            g
            (up_to (until_end rule.end_date through) days)
    unfolding generate_recurrence_instances generate_for generate_from
    generate_recurrence_instances-Generates rule source through diary g key at days s found there
          short keyed placed shown e =
        let names = names_of source.id diary.board.names in
        let limit = until_end rule.end_date through in
        let anchor = anchor_of rule source in
        let e1 = rw found at e in
        let e2 = rw there at e1 in
        let e3 = rw short at e2 in
        let e4 = rw keyed at e3 in
        let e5 = rw placed at e4 in
        let (run, ran, made) =
          >>=-eq-ok
            (rounds calendar now meanwhile agyary rule.id rule.pattern source names limit at
              max_generate_months (first_run diary anchor))
            _ e5 in
        subst (λ x. Generates rule source anchor diary x (up_to limit days)) (ok_injective made)
          (keep_run-Generates rule source anchor diary run (up_to limit days)
            (rounds-Tried rule.id rule.pattern source names limit at max_generate_months
              (first_run diary anchor) run days ran shown)
            (rounds-Tries keeps rule.id rule.pattern source names limit at max_generate_months
              (first_run diary anchor) run days s ran shown))
