-- ===== src/Machis/Booking.antt =====
-- Booking and rebooking a machi, `book_machi_slot` and `rebook_machi_slot` of messaging/booking_service.py.
use agyary.Common.{
  ℕ, suc, Option, none, some, List, [], ◌∷◌, ◌++◌, Bool, true, false, not, ◌&&◌, ◌||◌, ◌==◌,
  if◌then◌else◌, number_in, Result, ok, ◌>>=◌, ℤ, leb_ℤ,
}
use agyary.Dates.{Date}
use agyary.Engine.{CalendarSystem, gregorian_to_parsi}
use agyary.Machis.{
  requested, confirmed, releases_slot, Purpose, patet, tandarosti, pair, farmayeshne, Name, Machi,
  same_day, machi_ceremony_datetime, drop_elapsed_gehs, owner_or_zero, available_gehs,
  parsi_slot_fields, SlotOption, next_days_with_geh,
}

-- The section of a Tandarosti name: the living family is not a pair.
unfoldable pub in_farmayeshne : Name → Name
in_farmayeshne n = elim n.section [
  | pair ↦ record n { section = farmayeshne; pair_group = none }
  | farmayeshne ↦ n
]

unfoldable pub each_in_farmayeshne : List Name → List Name
each_in_farmayeshne [] = []
each_in_farmayeshne (n ∷ names) = in_farmayeshne n ∷ each_in_farmayeshne names

unfoldable pub normalize_machi_names : Purpose → List Name → List Name
normalize_machi_names patet names = names
normalize_machi_names tandarosti names = each_in_farmayeshne names

-- A name as it is snapshot onto a ceremony.
pub record CeremonyName : Type 0 where
  pub machi_id : ℕ
  pub name : Name
  pub display_order : ℕ

-- A row of agyary_customers.
pub record Link : Type 0 where
  pub agyary_id : ℕ
  pub customer_id : ℕ
  pub first_booking_at : Option (Date × ℕ)

-- The tables that booking reads and writes; `customers` are the fire temple's links to families.
pub record Board : Type 0 where
  pub machis : List Machi
  pub names : List CeremonyName
  pub customers : List Link
  pub next_id : ℕ

-- `enumerate(names)`, from a number on
unfoldable pub attach_names : ℕ → ℕ → List Name → List CeremonyName
attach_names machi_id order [] = []
attach_names machi_id order (n ∷ names) =
    record { machi_id = machi_id; name = n; display_order = order }
    ∷ attach_names machi_id (suc order) names

-- The time of the first booking of a family at a fire temple, where it is not yet known.
unfoldable pub mark_first : Date × ℕ → Link → Link
mark_first now link = elim link.first_booking_at [
  | none ↦ record link { first_booking_at = some now }
  | some at ↦ link
]

unfoldable pub ensure_agyary_customer : Date × ℕ → ℕ → ℕ → List Link → List Link
ensure_agyary_customer now agyary customer [] =
    record { agyary_id = agyary; customer_id = customer; first_booking_at = some now } ∷ []
ensure_agyary_customer now agyary customer (link ∷ links) =
    let others = ensure_agyary_customer now agyary customer links in
    if link.agyary_id == agyary && link.customer_id == customer
    then mark_first now link ∷ links
    else link ∷ others

unfoldable pub same_number : Option ℕ → Option ℕ → Bool
same_number none none = true
same_number (some a) (some b) = a == b
same_number _ _ = false

unfoldable pub same_year : ℤ → ℤ → Bool
same_year a b = leb_ℤ a b && leb_ℤ b a

-- The unique index of the table, which rows of a released slot are not in.
unfoldable pub clashes : Machi → Machi → Bool
clashes m n =
    m.agyary_id == n.agyary_id
    && same_number m.parsi_roj n.parsi_roj
    && same_number m.parsi_mah n.parsi_mah
    && same_year m.parsi_year n.parsi_year
    && m.geh == n.geh
    && owner_or_zero m.created_by_user_id == owner_or_zero n.created_by_user_id
    && not (releases_slot m.status)
    && not (releases_slot n.status)

unfoldable pub violates_index : Machi → List Machi → Bool
violates_index m [] = false
violates_index m (n ∷ machis) = (not (n.id == m.id) && clashes m n) || violates_index m machis

-- What `create_machi_request` gives: the new board and machi, or SlotTakenError.
pub data Insert : Type 0 where
  slot_taken : Insert
  inserted : Board → Machi → Insert

unfoldable pub insert_machi : Date × ℕ → Machi → List Name → Board → Insert
insert_machi now machi names board =
    if violates_index machi board.machis
    then slot_taken
    else inserted
        (record {
          machis = machi ∷ board.machis;
          names = attach_names machi.id 0 names ++ board.names;
          customers = ensure_agyary_customer now machi.agyary_id machi.customer_id board.customers;
          next_id = suc board.next_id;
        })
        machi

abbrev pub machi_request :
    ℕ → ℕ → ℕ → Option ℕ × Option ℕ × ℤ → ℕ → Date → Date × ℕ → Purpose → Option ℕ → Machi
machi_request id agyary customer fields geh gregorian start purpose owner = record {
  id = id;
  agyary_id = agyary;
  customer_id = customer;
  parsi_roj = fields.0;
  parsi_mah = fields.1;
  parsi_year = fields.2;
  geh = geh;
  gregorian_date = gregorian;
  ceremony_datetime = start;
  purpose = purpose;
  created_by_user_id = owner;
  status = requested;
}

unfoldable pub create_machi_request :
    Date × ℕ
    → ℕ
    → ℕ
    → Option ℕ × Option ℕ × ℤ
    → ℕ
    → Date
    → Purpose
    → List Name
    → Option ℕ
    → Board
    → Result Insert
create_machi_request now agyary customer fields geh gregorian purpose names owner board = do
  start ← machi_ceremony_datetime gregorian geh
  ok (
      insert_machi now
        (machi_request board.next_id agyary customer fields geh gregorian start purpose owner) names
        board)

pub record Alternatives : Type 0 where
  pub same_day_gehs : List ℕ
  pub same_geh_next_days : List SlotOption

-- `MachiBookingResult`: exactly one of the two.
pub data Booked : Type 0 where
  booked : Machi → Booked
  taken : Alternatives → Booked

unfoldable pub slot_keys : CalendarSystem → Date → Result (Option ℕ × Option ℕ × ℤ)
slot_keys system gregorian =
    gregorian_to_parsi gregorian system >>= λ parsi. ok (parsi_slot_fields parsi)

-- The row with the id of m becomes m.
unfoldable pub save_machi : Machi → List Machi → List Machi
save_machi m [] = []
save_machi m (n ∷ machis) = (if n.id == m.id then m else n) ∷ save_machi m machis

unfoldable pub drop_names : ℕ → List CeremonyName → List CeremonyName
drop_names machi_id [] = []
drop_names machi_id (n ∷ names) =
    let rest = drop_names machi_id names in if n.machi_id == machi_id then rest else n ∷ rest

unfoldable pub replace_ceremony_names : ℕ → List Name → Board → Board
replace_ceremony_names machi_id names board = record board {
  names = attach_names machi_id 0 names ++ drop_names machi_id board.names;
}

-- `calendar` is a fire temple's own calendar.
module _ (calendar : ℕ → CalendarSystem) (now : Date × ℕ) where
  unfoldable pub compute_machi_alternatives : ℕ → ℕ → Date → Option ℕ → Board → Result Alternatives
  compute_machi_alternatives agyary geh gregorian owner board = do
    same_day ← drop_elapsed_gehs (available_gehs agyary gregorian owner board.machis) gregorian now
    next ← next_days_with_geh agyary (calendar agyary) gregorian geh 3 owner board.machis
    ok (record { same_day_gehs = same_day; same_geh_next_days = next })

  unfoldable pub offer : ℕ → ℕ → Date → Option ℕ → Board → Result (Board × Booked)
  offer agyary geh gregorian owner board =
      compute_machi_alternatives agyary geh gregorian owner board >>= λ others.
      ok (board, taken others)

  -- The machi is booked, and not merely requested.
  unfoldable pub confirm : ℕ → ℕ → Date → Option ℕ → Board → Insert → Result (Board × Booked)
  confirm agyary geh gregorian owner board slot_taken = offer agyary geh gregorian owner board
  confirm agyary geh gregorian owner board (inserted after machi) =
      let sure = record machi { status = confirmed } in
      ok (record after { machis = save_machi sure after.machis }, booked sure)

  -- `board` is what the check reads, and `raced` what the insert finds: others may book in between.
  unfoldable pub book_machi_slot :
      ℕ → ℕ → ℕ → Date → Purpose → List Name → Option ℕ → Board → Board → Result (Board × Booked)
  book_machi_slot agyary customer geh gregorian purpose names owner board raced = do
    fields ← slot_keys (calendar agyary) gregorian
    free ← drop_elapsed_gehs (available_gehs agyary gregorian owner board.machis) gregorian now
    elim (number_in geh free) [
      | true ↦
          create_machi_request now agyary customer fields geh gregorian purpose
            (normalize_machi_names purpose names) owner raced
          >>= λ slot. confirm agyary geh gregorian owner raced slot
      | false ↦ offer agyary geh gregorian owner raced
    ]

  -- The purpose and the names are written last, also where the slot did not change.
  unfoldable pub finish_edit : Machi → Purpose → List Name → Board → Result (Board × Booked)
  finish_edit machi purpose names board =
      let edited = record machi { purpose = purpose } in
      ok (
        replace_ceremony_names machi.id (normalize_machi_names purpose names)
            (record board { machis = save_machi edited board.machis }),
        booked edited,
      )

  unfoldable pub move_machi :
      Machi
      → Option ℕ × Option ℕ × ℤ
      → ℕ
      → Date
      → Purpose
      → List Name
      → Board
      → Result (Board × Booked)
  move_machi machi fields geh gregorian purpose names board = do
    start ← machi_ceremony_datetime gregorian geh
    let moved = record machi {
      parsi_roj = fields.0;
      parsi_mah = fields.1;
      parsi_year = fields.2;
      geh = geh;
      gregorian_date = gregorian;
      ceremony_datetime = start;
    }
    elim (violates_index moved board.machis) [
      | true ↦ offer machi.agyary_id geh gregorian machi.created_by_user_id board
      | false ↦
          finish_edit moved purpose names (record board { machis = save_machi moved board.machis })
    ]

  unfoldable pub rebook_machi_slot :
      Machi → ℕ → Date → Purpose → List Name → Board → Board → Result (Board × Booked)
  rebook_machi_slot machi geh gregorian purpose names board raced = do
    fields ← slot_keys (calendar machi.agyary_id) gregorian
    elim (same_day gregorian machi.gregorian_date && geh == machi.geh) [
      | true ↦ finish_edit machi purpose names raced
      | false ↦
          drop_elapsed_gehs
            (available_gehs machi.agyary_id gregorian machi.created_by_user_id board.machis)
            gregorian now
          >>= λ free. elim (number_in geh free) [
            | true ↦ move_machi machi fields geh gregorian purpose names raced
            | false ↦ offer machi.agyary_id geh gregorian machi.created_by_user_id raced
          ]
    ]
