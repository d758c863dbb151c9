-- ===== src/Machis/Outcome.antt =====
-- What a booking answers, and what it leaves in the tables.
use agyary.Common.{
  ℕ, suc, ◌≡◌, inl, inr, Option, List, [], ◌∷◌, ◌++◌, Bool, true, false, ◌||◌, ◌==◌, Bool-cases,
  if◌then◌else◌, number_in, ok, ◌>>=◌, >>=-eq-ok, ok_injective, ℤ, All, arith,
}
use agyary.Dates.{Date}
use agyary.Dates.Ordinal.{IsDate}
use agyary.Engine.{CalendarSystem}
use agyary.Machis.{
  Purpose, Name, Machi, machi_ceremony_datetime, is_after, drop_elapsed_gehs, still_ahead,
  available_gehs, all_gehs, booked_gehs, not_in, same_day, confirmed,
}
use agyary.Machis.Booking.{
  Board, violates_index, machi_request, create_machi_request, insert_machi, normalize_machi_names,
  Booked, booked, slot_keys, confirm, save_machi, attach_names, ensure_agyary_customer,
  book_machi_slot,
}
use agyary.Machis.Single.{Sound, Answer, book_machi_slot-Keeps}
use agyary.Machis.Keys.{booked_gehs-violates}

number_in-not_in :
    (geh : ℕ) (held gehs : List ℕ)
    → number_in geh (not_in held gehs) ≡ true
    → number_in geh held ≡ false
unfolding number_in not_in
number_in-not_in geh held [] h = absurd (let e : false ≡ true = h in (cc))
number_in-not_in geh held (g ∷ gehs) h = elim (Bool-cases (number_in g held)) [
  | inl gone ↦ number_in-not_in geh held gehs (rw gone at h)
  | inr free ↦
      let h' : ((geh == g) || number_in geh (not_in held gehs)) ≡ true = rw free at h in
      elim (Bool-cases (geh == g)) [
        | inl same ↦ let eq : geh ≡ g = ground arith in rw eq free
        | inr other ↦ number_in-not_in geh held gehs (rw other at h')
      ]
]

number_in-first :
    (geh g : ℕ) (b : Bool) (rest : List ℕ)
    → number_in geh (if b then g ∷ rest else rest) ≡ true
    → ((geh == g) || number_in geh rest) ≡ true
unfolding number_in
number_in-first geh g true rest h = h
number_in-first geh g false rest h = ground (arith, h)

number_in-still_ahead :
    (gregorian : Date) (now : Date × ℕ) (geh : ℕ) (gehs ahead : List ℕ)
    → still_ahead gregorian now gehs ≡ ok ahead
    → number_in geh ahead ≡ true
    → number_in geh gehs ≡ true
unfolding number_in still_ahead
number_in-still_ahead gregorian now geh [] ahead e h = rw (← ok_injective e) at h
number_in-still_ahead gregorian now geh (g ∷ gehs) ahead e h =
    let (start, at, e₁) = >>=-eq-ok (machi_ceremony_datetime gregorian g) _ e in
    let (rest, found, e₂) = >>=-eq-ok (still_ahead gregorian now gehs) _ e₁ in
    let either : ((geh == g) || number_in geh rest) ≡ true =
      number_in-first geh g (is_after start now) rest (rw (ok_injective e₂) h) in
    let tail = number_in-still_ahead gregorian now geh gehs rest found in
    elim (Bool-cases (geh == g)) [
      | inl same ↦ rw same
      | inr other ↦ rw other (tail (rw other at either))
    ]

pub number_in-drop_elapsed_gehs :
    (gehs : List ℕ) (gregorian : Date) (now : Date × ℕ) (geh : ℕ) (free : List ℕ)
    → drop_elapsed_gehs gehs gregorian now ≡ ok free
    → number_in geh free ≡ true
    → number_in geh gehs ≡ true
unfolding drop_elapsed_gehs
number_in-drop_elapsed_gehs gehs gregorian now geh free e h =
    elim (Bool-cases (same_day gregorian now.0)) [
      | inl today ↦ number_in-still_ahead gregorian now geh gehs free (rw today at e) h
      | inr later ↦ let e' : ok gehs ≡ ok free = rw later at e in rw (ok_injective e') h
    ]

module _ (calendar : ℕ → CalendarSystem) (now : Date × ℕ) (agyary customer geh : ℕ)
    (gregorian : Date) (purpose : Purpose) (names : List Name) (owner : Option ℕ)
    (board raced after : Board) where
  -- Whatever others book between the check and the insert, a booking that returns keeps the
  -- tables sound: no two machis of one mobed hold the same geh of a day, each is stored under
  -- the Parsi day of its date, and the ids are different and below the next one.
  pub book_machi_slot-Sound :
      (result : Booked)
      → Sound calendar raced
      → book_machi_slot calendar now agyary customer geh gregorian purpose names owner board raced
        ≡ ok (after, result)
      → Sound calendar after
  book_machi_slot-Sound result s made =
      (book_machi_slot-Keeps calendar now geh gregorian owner agyary customer purpose names board
        raced (after, result) s made).1

  -- In sound tables, a booking that returns either has added one confirmed machi, with the
  -- geh, the date and the owner that were asked for, which the unique index lets in, or it has
  -- changed nothing.
  pub book_machi_slot-Answer :
      (result : Booked)
      → Sound calendar raced
      → book_machi_slot calendar now agyary customer geh gregorian purpose names owner board raced
        ≡ ok (after, result)
      → Answer geh gregorian owner raced after result
  book_machi_slot-Answer result s made =
      (book_machi_slot-Keeps calendar now geh gregorian owner agyary customer purpose names board
        raced (after, result) s made).0

-- Where nobody books in between, the tables are sound and of valid dates, and the date has a
-- Parsi day and the geh a time on it, a geh that is free and still ahead is booked.
pub book_machi_slot-succeeds :
    (calendar : ℕ → CalendarSystem) (now : Date × ℕ) (agyary customer geh : ℕ) (gregorian : Date)
    (purpose : Purpose) (names : List Name) (owner : Option ℕ) (board : Board)
    (key : Option ℕ × Option ℕ × ℤ) (start : Date × ℕ) (free : List ℕ)
    → Sound calendar board
    → IsDate gregorian
    → All (λ m. IsDate m.gregorian_date) board.machis
    → slot_keys (calendar agyary) gregorian ≡ ok key
    → machi_ceremony_datetime gregorian geh ≡ ok start
    → drop_elapsed_gehs (available_gehs agyary gregorian owner board.machis) gregorian now ≡ ok free
    → number_in geh free ≡ true
    → (after : Board) × (m : Machi) × (book_machi_slot calendar now agyary customer geh gregorian
          purpose names owner board board
        ≡ ok (after, booked m))
unfolding book_machi_slot create_machi_request available_gehs insert_machi confirm
book_machi_slot-succeeds calendar now agyary customer geh gregorian purpose names owner board key
      start free s v vs its_key its_start ahead is_free =
    let unbooked : number_in geh (booked_gehs agyary gregorian owner board.machis) ≡ false =
      number_in-not_in geh (booked_gehs agyary gregorian owner board.machis) all_gehs
        (number_in-drop_elapsed_gehs _ gregorian now geh free ahead is_free) in
    let m = machi_request board.next_id agyary customer key geh gregorian start purpose owner in
    let let_in : violates_index m board.machis ≡ false =
      booked_gehs-violates calendar m board.machis v vs its_key s.keyed unbooked in
    let sure : Machi = record m { status = confirmed } in
    let names_after = attach_names m.id 0 (normalize_machi_names purpose names) ++ board.names in
    let customers_after = ensure_agyary_customer now agyary customer board.customers in
    (
      record {
        machis = save_machi sure (m ∷ board.machis);
        names = names_after;
        customers = customers_after;
        next_id = suc board.next_id;
      },
      sure,
      rw (its_key, ahead, ◌>>=◌) (simp (is_free, its_start, let_in)),
    )
