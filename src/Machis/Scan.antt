-- ===== src/Machis/Scan.antt =====
-- The days that are offered where a slot is taken, `next_days_with_geh` of messaging/availability.py.
use agyary.Common.{
  ℕ, zero, suc, ◌-◌, ◌<◌, ◌≤◌, ◌≡◌, refl, sym, subst, inl, inr, Option, none, some, Option-cases,
  List, [], ◌∷◌, take, false, leb, Bool-cases, number_in, Result, ok, ◌>>=◌, >>=-eq-ok,
  ok_injective, ℤ, pos, All, arith, some_injective,
}
use agyary.Dates.{Date, add_days}
use agyary.Engine.{CalendarSystem, gregorian_to_parsi, ParsiDate}
use agyary.Machis.{
  Machi, booked_gehs, parsi_slot_fields, SlotOption, slot_option, scan_limit_days, scan_days,
  geh_if_free, next_days_with_geh,
}
use agyary.Machis.Booking.{slot_keys}

unfoldable pub add_offer :
    Option ℕ × Option ℕ × ℤ → Date → Option ℕ → List SlotOption → List SlotOption
add_offer fields day none more = more
add_offer fields day (some geh) more = slot_option fields geh day ∷ more

-- Each of the days that offers a geh, from an offset on.
unfoldable pub every_offer :
    CalendarSystem → Date → (Date → Option ℕ) → ℕ → ℕ → Result (List SlotOption)
every_offer system after first_free offset zero = ok []
every_offer system after first_free offset (suc left) = do
  day ← add_days after (pos offset)
  fields ← slot_keys system day
  more ← every_offer system after first_free (suc offset) left
  ok (add_offer fields day (first_free day) more)

take_empty {ℓ} : {A : Type ℓ} (n : ℕ) → take {A = A} n [] ≡ []
take_empty zero = refl
take_empty (suc n) = refl

module _ (system : CalendarSystem) (after : Date) (first_free : Date → Option ℕ) (count : ℕ) where
  -- One day of the scan, where the days after it are scanned as they should be.
  scan_days-step :
      (offset left found : ℕ) (day : Date) (parsi : ParsiDate) (more : List SlotOption)
      → found < count
      → add_days after (pos offset) ≡ ok day
      → gregorian_to_parsi day system ≡ ok parsi
      → ((f : ℕ)
          → f < count
          → scan_days system after first_free count (suc offset) left f
            ≡ ok (take (count - f) more))
      → scan_days system after first_free count offset (suc left) found
        ≡ ok (take (count - found) (add_offer (parsi_slot_fields parsi) day (first_free day) more))
  unfolding scan_days add_offer
  scan_days-step offset left found day parsi more room at known later =
      elim (Option-cases (first_free day)) [
        | inl nothing ↦ rw (at, known, ◌>>=◌) (simp (nothing, later found room))
        | inr (geh, offered) ↦ elim (Bool-cases (leb count (suc found))) [
          | inl full ↦
              let one : count - found ≡ 1 = ground arith in
              rw (at, known, ◌>>=◌) (simp (offered, full, one))
          | inr hungry ↦
              let some_left : count - found ≡ suc (count - suc found) = ground arith in
              rw (at, known, ◌>>=◌)
                (simp (offered, hungry, some_left, later (suc found) (ground arith)))
        ]
      ]

  scan_days-take :
      (offset left found : ℕ) (offers : List SlotOption)
      → found < count
      → every_offer system after first_free offset left ≡ ok offers
      → scan_days system after first_free count offset left found ≡ ok (take (count - found) offers)
  unfolding scan_days every_offer slot_keys
  scan_days-take offset zero found offers room made =
      let nothing : take (count - found) offers ≡ [] =
        subst (λ o. take (count - found) o ≡ []) (ok_injective made) (take_empty (count - found)) in
      rw nothing
  scan_days-take offset (suc left) found offers room made =
      let (day, at, made₁) = >>=-eq-ok (add_days after (pos offset)) _ made in
      let (fields, key, made₂) = >>=-eq-ok (slot_keys system day) _ made₁ in
      let (parsi, known, its_fields) = >>=-eq-ok (gregorian_to_parsi day system) _ key in
      let (more, later, made₃) =
        >>=-eq-ok (every_offer system after first_free (suc offset) left) _ made₂ in
      let all : add_offer (parsi_slot_fields parsi) day (first_free day) more ≡ offers =
        rw (ok_injective its_fields) (ok_injective made₃) in
      subst
        (λ o.
          scan_days system after first_free count offset (suc left) found
          ≡ ok (take (count - found) o))
        all
        (scan_days-step offset left found day parsi more room at known
          (λ f room'. scan_days-take (suc offset) left f more room' later))

  -- What holds of an offer of any day holds of each that the scan gives.
  scan_days-All :
      (P : SlotOption → Type 0) (offset left found : ℕ) (offers : List SlotOption)
      → ((day : Date) (geh : ℕ) (fields : Option ℕ × Option ℕ × ℤ)
          → first_free day ≡ some geh
          → slot_keys system day ≡ ok fields
          → P (slot_option fields geh day))
      → scan_days system after first_free count offset left found ≡ ok offers
      → All P offers
  unfolding scan_days slot_keys
  scan_days-All P offset zero found offers holds made = subst (All P) (ok_injective made) tt
  scan_days-All P offset (suc left) found offers holds made =
      let (day, at, made₁) = >>=-eq-ok (add_days after (pos offset)) _ made in
      let (parsi, known, made₂) = >>=-eq-ok (gregorian_to_parsi day system) _ made₁ in
      let fields = parsi_slot_fields parsi in
      let key : slot_keys system day ≡ ok fields = rw known in
      elim (Option-cases (first_free day)) [
        | inl nothing ↦ scan_days-All P (suc offset) left found offers holds (rw nothing at made₂)
        | inr (geh, offered) ↦
            let made₃ = rw offered at made₂ in
            let first = holds day geh fields offered key in
            elim (Bool-cases (leb count (suc found))) [
              | inl full ↦
                  let made₄ : ok (slot_option fields geh day ∷ []) ≡ ok offers = rw full at made₃ in
                  subst (All P) (ok_injective made₄) (first, tt)
              | inr hungry ↦
                  let made₄ = rw hungry at made₃ in
                  let (more, later, made₅) =
                    >>=-eq-ok
                      (scan_days system after first_free count (suc offset) left (suc found)) _
                      made₄ in
                  subst (All P) (ok_injective made₅)
                    (first, scan_days-All P (suc offset) left (suc found) more holds later)
            ]
      ]

module _ (agyary : ℕ) (system : CalendarSystem) (after : Date) (geh count : ℕ) (owner : Option ℕ)
    (machis : List Machi) (offers : List SlotOption) where
  -- Where the ninety days after a date all have Parsi days and at least one offer is asked
  -- for, the scan offers the first of those days on which the geh is free, as many as are
  -- asked for, none skipped and in their order.
  pub next_days_with_geh-take :
      1 ≤ count
      → every_offer system after (geh_if_free agyary geh owner machis) 1 scan_limit_days ≡ ok offers
      → next_days_with_geh agyary system after geh count owner machis ≡ ok (take count offers)
  unfolding next_days_with_geh
  next_days_with_geh-take some_asked made =
      let all : count - 0 ≡ count = omega arith in
      subst
        (λ n. next_days_with_geh agyary system after geh count owner machis ≡ ok (take n offers))
        all
        (scan_days-take system after (geh_if_free agyary geh owner machis) count 1 scan_limit_days 0
          offers (omega arith) made)

  -- Each offer of a scan that returns is of the geh that was asked for, on a day on which it
  -- is not booked, under the Parsi day of that date.
  next_days_with_geh-free :
      next_days_with_geh agyary system after geh count owner machis ≡ ok offers
      → All
          (λ o.
            (o.geh ≡ geh)
            × (number_in geh (booked_gehs agyary o.gregorian owner machis) ≡ false)
            × (slot_keys system o.gregorian ≡ ok (o.roj, o.mah, o.year)))
          offers
  unfolding next_days_with_geh geh_if_free
  next_days_with_geh-free made =
      scan_days-All system after (geh_if_free agyary geh owner machis) count _ 1 scan_limit_days 0
        offers
        (λ day g fields offered key.
          elim (Bool-cases (number_in geh (booked_gehs agyary day owner machis))) [
            | inl gone ↦ absurd (let e : none ≡ some g = rw gone at offered in (cc))
            | inr free ↦
                let same : some geh ≡ some g = rw free at offered in
                (sym (some_injective same), free, key)
          ])
        made
