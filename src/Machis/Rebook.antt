-- ===== src/Machis/Rebook.antt =====
-- Moving a machi to another slot, `rebook_machi_slot` of messaging/booking_service.py.
use agyary.Common.{
  ℕ, ◌<◌, ◌≡◌, ◌≢◌, refl, sym, ap, ◌∙◌, subst, ◌⊎◌, inl, inr, Option, List, [], ◌∷◌, false, ◌&&◌,
  ◌==◌, Bool-cases, number_in, ok, >>=-eq-ok, ok_injective, ℤ, All, Among, All-Among, arith,
}
use agyary.Dates.{Date}
use agyary.Engine.{CalendarSystem}
use agyary.Machis.{
  Purpose, Name, Machi, machi_ceremony_datetime, drop_elapsed_gehs, available_gehs, same_day,
}
use agyary.Machis.Booking.{
  Board, CeremonyName, violates_index, Booked, slot_keys, save_machi, offer, replace_ceremony_names,
  finish_edit, move_machi, rebook_machi_slot,
}
use agyary.Machis.Single.{
  rivals, Keyed, Other, Apart, Sound, offer-Keeps, violates_index-Other, save_machi_absent,
}

-- The machi may stand where the row with its id stands.
abbrev Fits : Machi → List Machi → Type 0
Fits m machis = All (λ n. (n.id ≡ m.id) ⊎ (rivals m n ≡ false)) machis

rivals_sym : (m n : Machi) → rivals m n ≡ false → rivals n m ≡ false
unfolding rivals same_day
rivals_sym m n h = ground arith

-- Of an edited row, another row that was apart from the rows still is.
save_machi-Other :
    (m n : Machi) (machis : List Machi)
    → (n.id ≢ m.id) × (rivals m n ≡ false)
    → All (Other n) machis
    → All (Other n) (save_machi m machis)
unfolding save_machi
save_machi-Other m n [] apart others = tt
save_machi-Other m n (k ∷ machis) apart others = elim (Bool-cases (k.id == m.id)) [
  | inl own ↦ rw own ((apart.0, rivals_sym m n apart.1), save_machi-Other m n machis apart others.1)
  | inr other ↦ rw other (others.0, save_machi-Other m n machis apart others.1)
]

own_row :
    (m k : Machi) (machis : List Machi)
    → k.id ≡ m.id
    → All (Other k) machis
    → Fits m machis
    → All (Other m) machis × All (λ n. m.id ≢ n.id) machis
own_row m k [] own others fits = (tt, tt)
own_row m k (n ∷ machis) own (other, others) (fit, fits) =
    let (rest, fresh) = own_row m k machis own others fits in
    let apart : m.id ≢ n.id = λ e. other.0 (own ∙ e) in
    (
      ((apart, elim fit [ inl same ↦ absurd (apart (sym same)) | inr free ↦ free ]), rest),
      (apart, fresh),
    )

save_machi-Apart :
    (m : Machi) (machis : List Machi) → Fits m machis → Apart machis → Apart (save_machi m machis)
unfolding save_machi
save_machi-Apart m [] fits apart = tt
save_machi-Apart m (k ∷ machis) fits apart = elim (Bool-cases (k.id == m.id)) [
  | inl own ↦
      let same : k.id ≡ m.id = ground arith in
      let (others, fresh) = own_row m k machis same apart.0 fits.1 in
      rw (own, save_machi_absent m machis fresh) (others, apart.1)
  | inr other ↦
      let differs : k.id ≢ m.id = λ e. ground arith in
      let free : rivals m k ≡ false = elim fits.0 [
        | inl same ↦ absurd (differs same)
        | inr free ↦ free
      ] in
      rw other (
        save_machi-Other m k machis (differs, free) apart.0,
        save_machi-Apart m machis fits.1 apart.1,
      )
]

save_machi-All :
    (P : Machi → Type 0) (m : Machi) (machis : List Machi)
    → P m
    → All P machis
    → All P (save_machi m machis)
unfolding save_machi
save_machi-All P m [] p ps = tt
save_machi-All P m (k ∷ machis) p ps = elim (Bool-cases (k.id == m.id)) [
  | inl own ↦ rw own (p, save_machi-All P m machis p ps.1)
  | inr other ↦ rw other (ps.0, save_machi-All P m machis p ps.1)
]

edited-Sound :
    (calendar : ℕ → CalendarSystem) (m : Machi) (names : List CeremonyName) (board : Board)
    → Keyed calendar m
    → m.id < board.next_id
    → Fits m board.machis
    → Sound calendar board
    → Sound calendar (record board { machis = save_machi m board.machis; names = names })
edited-Sound calendar m names board key below fits s = record {
  keyed = save_machi-All (Keyed calendar) m board.machis key s.keyed;
  apart = save_machi-Apart m board.machis fits s.apart;
  below = save_machi-All (λ n. n.id < board.next_id) m board.machis below s.below;
}

Other-Fits : (m : Machi) (machis : List Machi) → All (Other m) machis → Fits m machis
Other-Fits m [] others = tt
Other-Fits m (n ∷ machis) others = (inr others.0.1, Other-Fits m machis others.1)

-- A row of sound tables fits where it stands.
Apart-Fits : (m : Machi) (machis : List Machi) → Among m machis → Apart machis → Fits m machis
Apart-Fits m [] here apart = elim here [ ]
Apart-Fits m (k ∷ machis) (inl same) apart = (
  inl (ap (λ n. n.id) (sym same)),
  subst (λ n. Fits n machis) (sym same) (Other-Fits k machis apart.0),
)
Apart-Fits m (k ∷ machis) (inr later) apart =
    let other : Other k m = All-Among (Other k) machis apart.0 later in
    (inr (rivals_sym k m other.1), Apart-Fits m machis later apart.1)

module _ (calendar : ℕ → CalendarSystem) (now : Date × ℕ) (names : List Name) (purpose : Purpose)
    (after : Board) (result : Booked) where
  finish_edit-Sound :
      (m : Machi) (board : Board)
      → Keyed calendar m
      → m.id < board.next_id
      → Fits m board.machis
      → Sound calendar board
      → finish_edit calendar now m purpose names board ≡ ok (after, result)
      → Sound calendar after
  unfolding finish_edit replace_ceremony_names rivals
  finish_edit-Sound m board key below fits s made =
      let edited : Machi = record m { purpose = purpose } in
      subst (λ end. Sound calendar end.0) (ok_injective made)
        (edited-Sound calendar edited _ board key below fits s)

  offer-Sound :
      (agyary geh : ℕ) (gregorian : Date) (owner : Option ℕ) (board : Board)
      → Sound calendar board
      → offer calendar now agyary geh gregorian owner board ≡ ok (after, result)
      → Sound calendar after
  offer-Sound agyary geh gregorian owner board s made =
      (offer-Keeps calendar now geh gregorian owner agyary board (after, result) s made).1

  move_machi-Sound :
      (m : Machi) (fields : Option ℕ × Option ℕ × ℤ) (geh : ℕ) (gregorian : Date) (board : Board)
      → slot_keys (calendar m.agyary_id) gregorian ≡ ok fields
      → m.id < board.next_id
      → Sound calendar board
      → move_machi calendar now m fields geh gregorian purpose names board ≡ ok (after, result)
      → Sound calendar after
  unfolding move_machi
  move_machi-Sound m fields geh gregorian board key below s made =
      let (start, at, made₁) = >>=-eq-ok (machi_ceremony_datetime gregorian geh) _ made in
      let moved : Machi = record m {
        parsi_roj = fields.0;
        parsi_mah = fields.1;
        parsi_year = fields.2;
        geh = geh;
        gregorian_date = gregorian;
        ceremony_datetime = start;
      } in
      let board₁ : Board = record board { machis = save_machi moved board.machis } in
      elim (Bool-cases (violates_index moved board.machis)) [
        | inl clash ↦
            offer-Sound m.agyary_id geh gregorian m.created_by_user_id board s (rw clash at made₁)
        | inr free ↦
            let fits = violates_index-Other calendar moved board.machis key s.keyed free in
            finish_edit-Sound moved board₁ key below
              (save_machi-All (λ n. (n.id ≡ moved.id) ⊎ (rivals moved n ≡ false)) moved board.machis
                (inl refl) fits)
              (edited-Sound calendar moved board.names board key below fits s) (rw free at made₁)
      ]

  -- Moving a machi of sound tables, or editing it where it stands, keeps them sound, whatever
  -- others book between the check and the write: no two machis of one mobed hold the same geh
  -- of a day, each is stored under the Parsi day of its date, and the ids are different and
  -- below the next one.
  pub rebook_machi_slot-Sound :
      (m : Machi) (geh : ℕ) (gregorian : Date) (board raced : Board)
      → Sound calendar raced
      → Among m raced.machis
      → rebook_machi_slot calendar now m geh gregorian purpose names board raced
        ≡ ok (after, result)
      → Sound calendar after
  unfolding rebook_machi_slot
  rebook_machi_slot-Sound m geh gregorian board raced s here made =
      let below = All-Among (λ n. n.id < raced.next_id) raced.machis s.below here in
      let (fields, key, made₁) = >>=-eq-ok (slot_keys (calendar m.agyary_id) gregorian) _ made in
      elim (Bool-cases (same_day gregorian m.gregorian_date && geh == m.geh)) [
        | inl stays ↦
            finish_edit-Sound m raced (All-Among (Keyed calendar) raced.machis s.keyed here) below
              (Apart-Fits m raced.machis here s.apart) s (rw stays at made₁)
        | inr moves ↦
            let (free, ahead, made₂) =
              >>=-eq-ok
                (drop_elapsed_gehs
                  (available_gehs m.agyary_id gregorian m.created_by_user_id board.machis) gregorian
                  now)
                _ (rw moves at made₁) in
            elim (Bool-cases (number_in geh free)) [
              | inl open_geh ↦
                  move_machi-Sound m fields geh gregorian raced key below s (rw open_geh at made₂)
              | inr gone ↦
                  offer-Sound m.agyary_id geh gregorian m.created_by_user_id raced s
                    (rw gone at made₂)
            ]
      ]
