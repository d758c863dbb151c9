-- ===== src/Repeats/Generate.antt =====
-- The generator of the repeating machis, and the start of a repeat.
use agyary.Common.{
  ℕ, zero, suc, ◌+◌, Option, none, some, List, [], ◌∷◌, ◌++◌, Bool, true, false, ◌&&◌, ◌==◌,
  if◌then◌else◌, Result, ok, value_error, overflow_error, ◌>>=◌, ℤ,
}
use agyary.Dates.{Date, leb_date, ltb_date}
use agyary.Engine.{CalendarSystem}
use agyary.Machis.{Machi, Name}
use agyary.Machis.Booking.{Board, Booked, booked, taken, CeremonyName, slot_keys, book_machi_slot}
use agyary.Repeats.{
  Pattern, step_for, max_generate_months, day_at, steps, last_occurrence, Rule, Tie, place_of,
}

-- What the generator works on, and what it has done so far.
pub record Run : Type 0 where
  pub board : Board
  pub ties : List Tie
  pub created : ℕ
  pub skipped : List Date
  pub attempted_through : Date

unfoldable pub find_machi : ℕ → List Machi → Option Machi
find_machi id [] = none
find_machi id (m ∷ machis) =
    let others = find_machi id machis in if m.id == id then some m else others

-- `_names_as_dicts`: the names of a ceremony, in their order.
unfoldable pub names_of : ℕ → List CeremonyName → List Name
names_of id [] = []
names_of id (n ∷ names) =
    let others = names_of id names in if n.machi_id == id then n.name ∷ others else others

-- The earlier of `through` and the end of the rule.
unfoldable pub until_end : Option Date → Date → Date
until_end none through = through
until_end (some end) through = if ltb_date end through then end else through

unfoldable pub anchor_of : Rule → Machi → Date
anchor_of rule source = elim rule.last_generated_until [
  | none ↦ source.gregorian_date
  | some day ↦ day
]

-- What a booking adds to the run.
unfoldable pub after_booking : ℕ → Date → Run → Board × Booked → Run
after_booking rule_id day run (board, booked m) = record {
  board = board;
  ties = record { machi_id = m.id; rule_id = rule_id; is_recurring_instance = true } ∷ run.ties;
  created = suc run.created;
  skipped = run.skipped;
  attempted_through = day;
}
after_booking rule_id day run (board, taken others) = record {
  board = board;
  ties = run.ties;
  created = run.created;
  skipped = run.skipped ++ day ∷ [];
  attempted_through = day;
}

-- A round without a day goes on, and one with a day does what it is for.
unfoldable pub by_day : Result Date → (Unit {0} → Result Run) → (Date → Result Run) → Result Run
by_day (ok day) without book = book day
by_day value_error without book = without tt
by_day overflow_error without book = overflow_error

-- `if enough: break`
unfoldable pub unless : Bool → Run → (Unit {0} → Result Run) → Result Run
unless true run more = ok run
unless false run more = more tt

module _ (calendar : ℕ → CalendarSystem) (now : Date × ℕ) (meanwhile : ℕ → Board → Board)
    (agyary : ℕ) where
  -- One round books the geh of the source on a day.
  unfoldable pub book_round : ℕ → ℕ → Machi → List Name → Date → Run → Result Run
  book_round round rule_id source names day run =
      book_machi_slot calendar now agyary source.customer_id source.geh day source.purpose names
        source.created_by_user_id run.board (meanwhile round run.board)
      >>= λ result. ok (after_booking rule_id day run result)

  unfoldable pub rounds : ℕ → Pattern → Machi → List Name → Date → ℕ × ℤ → ℕ → Run → Result Run
  rounds rule_id pattern source names through at zero run = ok run
  rounds rule_id pattern source names through at (suc left) run =
      let next = step_for pattern at in
      by_day (day_at (calendar agyary) source.parsi_roj next)
        (λ _. rounds rule_id pattern source names through next left run)
        (λ day. book_round left rule_id source names day run >>= λ after.
          unless (leb_date through day) after
            (λ _. rounds rule_id pattern source names through next left after))

-- The board, the rules of the repeats, and the machis that are tied to a rule.
pub record Diary : Type 0 where
  pub board : Board
  pub rules : List Rule
  pub ties : List Tie
  pub next_rule_id : ℕ

-- The row with the id of the rule becomes the rule.
unfoldable pub save_rule : Rule → List Rule → List Rule
save_rule rule [] = []
save_rule rule (r ∷ rules) = (if r.id == rule.id then rule else r) ∷ save_rule rule rules

-- What a call of the generator gives: the diary, how many machis it made, and the days that it
-- could not book.
pub record Generated : Type 0 where
  pub diary : Diary
  pub created : ℕ
  pub skipped : List Date

abbrev pub nothing_made : Diary → Generated
nothing_made diary = record { diary = diary; created = 0; skipped = [] }

-- A rule whose source is gone has nothing left to say.
unfoldable pub stop_rule : Rule → Diary → Generated
stop_rule rule diary =
    nothing_made
      (record diary { rules = save_rule (record rule { is_active = false }) diary.rules })

-- The marker moves to the last day that was tried.
unfoldable pub keep_run : Rule → Diary → Run → Generated
keep_run rule diary run =
    let marked = record rule { last_generated_until = some run.attempted_through } in
    record {
      diary = record diary {
        board = run.board;
        rules = save_rule marked diary.rules;
        ties = run.ties;
      };
      created = run.created;
      skipped = run.skipped;
    }

abbrev pub first_run : Diary → Date → Run
first_run diary anchor = record {
  board = diary.board;
  ties = diary.ties;
  created = 0;
  skipped = [];
  attempted_through = anchor;
}

-- The rules that a board through a date may need, of one mobed where an owner is given.
unfoldable pub needs_more : Rule → Date → Bool
needs_more rule through = elim rule.last_generated_until [
  | none ↦ true
  | some last ↦
      ltb_date last through && elim rule.end_date [ none ↦ true | some end ↦ ltb_date last end ]
]

unfoldable pub is_owned : Option ℕ → Option Machi → Bool
is_owned none source = true
is_owned (some owner) none = false
is_owned (some owner) (some m) = elim m.created_by_user_id [
  | none ↦ false
  | some user ↦ user == owner
]

unfoldable pub rules_due : ℕ → Option ℕ → Date → List Machi → List Rule → List Rule
rules_due agyary owner through machis [] = []
rules_due agyary owner through machis (rule ∷ rules) =
    let rest = rules_due agyary owner through machis rules in
    if rule.agyary_id == agyary
      && rule.is_active
      && is_owned owner (find_machi rule.source_machi_id machis)
      && needs_more rule through
    then rule ∷ rest
    else rest

-- `_count_rule_fields`: the count and the end of a rule; a count of 0 is no count.
unfoldable pub count_rule_fields :
    CalendarSystem → Pattern → Option ℕ → ℕ × ℤ → Option ℕ → Result (Option ℕ × Option Date)
count_rule_fields system pattern roj at none = ok (none, none)
count_rule_fields system pattern roj at (some zero) = ok (none, none)
count_rule_fields system pattern roj at (some (suc n)) =
    last_occurrence system pattern roj at (suc n) >>= λ end. ok (some (suc n), end)

module _ (calendar : ℕ → CalendarSystem) (now : Date × ℕ) (meanwhile : ℕ → Board → Board)
    (agyary : ℕ) (has_customer : ℕ → Bool) where
  unfoldable pub generate_from : Rule → Machi → Date → Diary → Result Generated
  generate_from rule source through diary =
      let anchor = anchor_of rule source in
      if leb_date through anchor
      then ok (nothing_made diary)
      else (slot_keys (calendar agyary) anchor >>= λ fields. place_of fields >>= λ at.
          rounds calendar now meanwhile agyary rule.id rule.pattern source
            (names_of source.id diary.board.names) through at max_generate_months
            (first_run diary anchor)
          >>= λ run. ok (keep_run rule diary run))

  unfoldable pub generate_for : Rule → Option Machi → Date → Diary → Result Generated
  generate_for rule none through diary = ok (stop_rule rule diary)
  generate_for rule (some source) through diary =
      if has_customer source.customer_id
      then generate_from rule source (until_end rule.end_date through) diary
      else ok (stop_rule rule diary)

  unfoldable pub generate_recurrence_instances : Rule → Date → Diary → Result Generated
  generate_recurrence_instances rule through diary =
      generate_for rule (find_machi rule.source_machi_id diary.board.machis) through diary

  unfoldable pub generate_all : List Rule → Date → Diary → Result (Diary × ℕ)
  generate_all [] through diary = ok (diary, 0)
  generate_all (rule ∷ rules) through diary =
      generate_recurrence_instances rule through diary >>= λ made.
      generate_all rules through made.diary >>= λ (after, total). ok (after, made.created + total)

  unfoldable pub ensure_recurrences_generated : Date → Option ℕ → Diary → Result (Diary × ℕ)
  ensure_recurrences_generated through owner diary =
      generate_all (rules_due agyary owner through diary.board.machis diary.rules) through diary

  abbrev pub rule_from : ℕ → Machi → Pattern → Option ℕ × Option Date → Rule
  rule_from id source pattern fields = record {
    id = id;
    agyary_id = agyary;
    source_machi_id = source.id;
    pattern = pattern;
    end_count = fields.0;
    end_date = fields.1;
    last_generated_until = some source.gregorian_date;
    is_active = true;
  }

  abbrev pub with_rule : Rule → Machi → Diary → Diary
  with_rule rule source diary = record diary {
    rules = rule ∷ diary.rules;
    ties =
        record { machi_id = source.id; rule_id = rule.id; is_recurring_instance = false }
        ∷ diary.ties;
    next_rule_id = suc diary.next_rule_id;
  }

  unfoldable pub create_recurring_machis : Machi → Pattern → ℕ → Option ℕ → Diary → Result Generated
  create_recurring_machis source pattern horizon count diary = do
    at ← place_of (source.parsi_roj, source.parsi_mah, source.parsi_year)
    fields ← count_rule_fields (calendar agyary) pattern source.parsi_roj at count
    through ← day_at (calendar agyary) source.parsi_roj (steps pattern horizon at)
    let rule = rule_from diary.next_rule_id source pattern fields
    generate_recurrence_instances rule through (with_rule rule source diary)
