-- ===== src/Machis/Keys.antt =====
-- The Parsi day that the index of the machis stands on, and the Gregorian date that the queries stand on.
use agyary.Common.{
  ℕ, ◌≡◌, ◌↔◌, refl, sym, ap, ◌∙◌, subst, inl, inr, Option, none, some, List, [], ◌∷◌, true, false,
  ◌==◌, Bool-cases, if◌then◌else◌, number_in, Result, ok, >>=-eq-ok, ok_injective, ℤ, All, arith,
}
use agyary.Dates.{Date}
use agyary.Dates.Ordinal.{IsDate}
use agyary.Engine.{CalendarSystem, ParsiDate, gregorian_to_parsi, parsi_to_gregorian}
use agyary.Engine.RoundTrip.{
  Shape, ordinary, gatha, gregorian_to_parsi-Shape, parsi_to_gregorian-gregorian_to_parsi,
}
use agyary.Machis.{Machi, parsi_slot_fields, same_day, is_on, booked_gehs}
use agyary.Machis.Booking.{same_number, same_year, clashes, violates_index, slot_keys}
use agyary.Machis.Single.{rivals, Keyed, same_day_refl, clashes-rivals}

-- The date of a key, as the calendar gives it: Mah 13 stands for the Gatha days.
unfoldable pub date_of_key : CalendarSystem → Option ℕ × Option ℕ × ℤ → Result Date
date_of_key s (roj, none, year) = parsi_to_gregorian year s none roj none
date_of_key s (roj, some mah, year) =
    if mah == 13
    then parsi_to_gregorian year s none none roj
    else parsi_to_gregorian year s (some mah) roj none

fields-back :
    (s : CalendarSystem) (d : Date) (p : ParsiDate)
    → Shape p
    → parsi_to_gregorian p.year s p.mah p.roj p.gatha_index ≡ ok d
    → date_of_key s (parsi_slot_fields p) ≡ ok d
unfolding date_of_key parsi_slot_fields
fields-back s d p (ordinary mah roj range (plain, its_mah, its_roj, no_gatha)) back =
    let small : (mah == 13) ≡ false = ground arith in
    rw (plain, its_mah, its_roj, small) (rw (its_mah, its_roj, no_gatha) at back)
fields-back s d p (gatha g range (special, no_mah, no_roj, its_gatha)) back =
    rw (special, its_gatha) (rw (no_mah, no_roj, its_gatha) at back)

-- The key of a valid date gives the date.
pub slot_keys-back :
    (s : CalendarSystem) (d : Date) {key : Option ℕ × Option ℕ × ℤ}
    → IsDate d
    → slot_keys s d ≡ ok key
    → date_of_key s key ≡ ok d
unfolding slot_keys
slot_keys-back s d {key} v e =
    let (p, found, made) = >>=-eq-ok (gregorian_to_parsi d s) _ e in
    subst (λ k. date_of_key s k ≡ ok d) (ok_injective made)
      (fields-back s d p (gregorian_to_parsi-Shape s d p v found)
        (parsi_to_gregorian-gregorian_to_parsi s d p v found))

-- Two dates have the same key only where they are one date.
pub slot_keys_inj :
    (s : CalendarSystem) (d e : Date) (key : Option ℕ × Option ℕ × ℤ)
    → IsDate d
    → IsDate e
    → slot_keys s d ≡ ok key
    → slot_keys s e ≡ ok key
    → d ≡ e
slot_keys_inj s d e key v w k l =
    ok_injective (sym (slot_keys-back s d v k) ∙ slot_keys-back s e w l)

same_number-eq : (a b : Option ℕ) → same_number a b ≡ true → a ≡ b
unfolding same_number
same_number-eq none none h = refl
same_number-eq none (some b) h = cc
same_number-eq (some a) none h = cc
same_number-eq (some a) (some b) h = ap some (ground arith)

same_year-eq : (a b : ℤ) → same_year a b ≡ true → a ≡ b
unfolding same_year
same_year-eq a b h = ground arith

-- Machis of valid dates that are stored under the Parsi days of their dates clash in the unique
-- index exactly where they hold the same geh of the same date for one mobed of a fire temple,
-- neither released.
pub clashes_iff :
    (calendar : ℕ → CalendarSystem) (m n : Machi)
    → IsDate m.gregorian_date
    → IsDate n.gregorian_date
    → Keyed calendar m
    → Keyed calendar n
    → (clashes m n ≡ true) ↔ (rivals m n ≡ true)
unfolding clashes rivals
clashes_iff calendar m n v w k l = (
  λ c.
      let place : m.agyary_id ≡ n.agyary_id = ground arith in
      let roj : m.parsi_roj ≡ n.parsi_roj = same_number-eq m.parsi_roj n.parsi_roj (ground arith) in
      let mah : m.parsi_mah ≡ n.parsi_mah = same_number-eq m.parsi_mah n.parsi_mah (ground arith) in
      let year : m.parsi_year ≡ n.parsi_year =
        same_year-eq m.parsi_year n.parsi_year (ground arith) in
      let key : slot_keys (calendar m.agyary_id) n.gregorian_date
          ≡ ok (m.parsi_roj, m.parsi_mah, m.parsi_year) =
        rw (place, roj, mah, year) l in
      let day : m.gregorian_date ≡ n.gregorian_date =
        slot_keys_inj (calendar m.agyary_id) m.gregorian_date n.gregorian_date
          (m.parsi_roj, m.parsi_mah, m.parsi_year) v w k key in
      let same : same_day m.gregorian_date n.gregorian_date ≡ true =
        rw day (same_day_refl n.gregorian_date) in
      ground arith,
  clashes-rivals calendar m n k l,
)

rivals-is_on :
    (m n : Machi)
    → rivals m n ≡ true
    → (is_on m.agyary_id m.gregorian_date m.created_by_user_id n ≡ true) × ((m.geh == n.geh) ≡ true)
unfolding rivals is_on same_day
rivals-is_on m n h = (ground arith, ground arith)

-- A geh that the board's query does not find booked is let in by the index.
pub booked_gehs-violates :
    (calendar : ℕ → CalendarSystem) (m : Machi) (machis : List Machi)
    → IsDate m.gregorian_date
    → All (λ n. IsDate n.gregorian_date) machis
    → Keyed calendar m
    → All (Keyed calendar) machis
    → number_in m.geh (booked_gehs m.agyary_id m.gregorian_date m.created_by_user_id machis) ≡ false
    → violates_index m machis ≡ false
unfolding booked_gehs violates_index number_in
booked_gehs-violates calendar m [] v vs k ks free = refl
booked_gehs-violates calendar m (n ∷ machis) v vs k ks free =
    let on = is_on m.agyary_id m.gregorian_date m.created_by_user_id n in
    let rest = booked_gehs m.agyary_id m.gregorian_date m.created_by_user_id machis in
    let free_rest : number_in m.geh rest ≡ false = elim (Bool-cases on) [
      | inl here ↦ ground (arith, (rw here at free))
      | inr away ↦ rw away at free
    ] in
    let no_clash : clashes m n ≡ false = elim (Bool-cases (clashes m n)) [
      | inl clash ↦
          let (here, same) = rivals-is_on m n ((clashes_iff calendar m n v vs.0 k ks.0).0 clash) in
          absurd (let e : true ≡ false = rw (here, same) at free in (cc))
      | inr apart ↦ apart
    ] in
    rw (no_clash, booked_gehs-violates calendar m machis v vs.1 k ks.1 free_rest) (ground arith)
