-- ===== src/Repeats/Tries.antt =====
-- What the rounds of the generator do to the board, day by day.
use agyary.Common.{ℕ, suc, ◌≡◌, subst, List, [], ◌∷◌, ◌++◌, true, ok, >>=-eq-ok}
use agyary.Dates.{Date}
use agyary.Engine.{CalendarSystem}
use agyary.Machis.{Machi, Name}
use agyary.Machis.Booking.{Board, Booked, booked, taken, Alternatives, book_machi_slot}
use agyary.Machis.Single.{Sound, Answer}
use agyary.Machis.Outcome.{book_machi_slot-Answer}
use agyary.Repeats.Generate.{Run, after_booking, book_round}

module _ (calendar : ℕ → CalendarSystem) (now : Date × ℕ) (meanwhile : ℕ → Board → Board)
    (agyary : ℕ) (rule_id : ℕ) (source : Machi) (names : List Name) where
  -- A call of `book_machi_slot` for the geh of the source on a day: it finds the board as the round
  -- before left it, and inserts into what others made of that board.
  abbrev pub Books : Date → ℕ → Board → Board × Booked → Type 0
  Books day round board result =
      book_machi_slot calendar now agyary source.customer_id source.geh day source.purpose names
        source.created_by_user_id board (meanwhile round board)
      ≡ ok result

  -- Some days that were tried in their order. A day that is booked leaves the machi of that day and
  -- of the source's geh and owner, confirmed, on the board, ties it to the rule and is counted; a day
  -- that is taken leaves the board to the others and is noted as skipped.
  pub data Tries (end : Run) : Run → List Date → Type 0 where
    no_days : Tries end end []
    one_booked :
        (run : Run) (day : Date) (days : List Date) (round : ℕ) (board : Board) (m : Machi)
        → Books day round run.board (board, booked m)
        → Answer source.geh day source.created_by_user_id
            (meanwhile round run.board)
            board
            (booked m)
        → Tries end
            (record {
              board = board;
              ties =
                  record { machi_id = m.id; rule_id = rule_id; is_recurring_instance = true }
                  ∷ run.ties;
              created = suc run.created;
              skipped = run.skipped;
              attempted_through = day;
            })
            days
        → Tries end run (day ∷ days)
    one_taken :
        (run : Run) (day : Date) (days : List Date) (round : ℕ) (board : Board)
        (others : Alternatives)
        → Books day round run.board (board, taken others)
        → board ≡ meanwhile round run.board
        → Tries end
            (record {
              board = board;
              ties = run.ties;
              created = run.created;
              skipped = run.skipped ++ day ∷ [];
              attempted_through = day;
            })
            days
        → Tries end run (day ∷ days)

  result-Tries :
      (round : ℕ) (day : Date) (days : List Date) (run end : Run) (result : Board × Booked)
      → Books day round run.board result
      → Answer source.geh day source.created_by_user_id
          (meanwhile round run.board)
          result.0
          result.1
      → Tries end (after_booking rule_id day run result) days
      → Tries end run (day ∷ days)
  unfolding after_booking
  result-Tries round day days run end (board, booked m) made answer rest =
      one_booked run day days round board m made answer rest
  result-Tries round day days run end (board, taken others) made answer rest =
      one_taken run day days round board others made answer rest

  -- A round that is made, before the others.
  pub book_round-Tries :
      (round : ℕ) (day : Date) (days : List Date) (run after end : Run)
      → Sound calendar (meanwhile round run.board)
      → book_round calendar now meanwhile agyary round rule_id source names day run ≡ ok after
      → Tries end after days
      → Tries end run (day ∷ days)
  unfolding book_round
  book_round-Tries round day days run after end s e rest =
      let (result, made, is) =
        >>=-eq-ok
          (book_machi_slot calendar now agyary source.customer_id source.geh day source.purpose
            names source.created_by_user_id run.board (meanwhile round run.board))
          _ e in
      result-Tries round day days run end result made
        (book_machi_slot-Answer calendar now agyary source.customer_id source.geh day source.purpose
          names source.created_by_user_id run.board (meanwhile round run.board) result.0 result.1 s
          made)
        (subst (λ r. Tries end r days) (sym_ok is) rest)
    where
      sym_ok : {a b : Run} → ok a ≡ ok b → b ≡ a
      sym_ok h = cc
