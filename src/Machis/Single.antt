-- ===== src/Machis/Single.antt =====
-- A mobed's machis: one to a geh of a day, whoever books in between.
use agyary.Common.{
  ℕ, suc, ◌<◌, ◌≡◌, ◌≢◌, refl, sym, ap, ◌∙◌, subst, ◌⊎◌, inl, inr, Option, none, some, List, [],
  ◌∷◌, ◌++◌, Bool, true, false, not, ◌&&◌, ◌==◌, Bool-cases, number_in, ok, ◌>>=◌, >>=-eq-ok,
  ok_injective, ℤ, All, arith,
}
use agyary.Dates.{Date}
use agyary.Engine.{CalendarSystem}
use agyary.Machis.{
  requested, confirmed, releases_slot, Purpose, Name, Machi, same_day, machi_ceremony_datetime,
  drop_elapsed_gehs, owner_or_zero, available_gehs,
}
use agyary.Machis.Booking.{
  normalize_machi_names, Board, same_number, same_year, clashes, violates_index, insert_machi,
  machi_request, create_machi_request, Booked, booked, taken, slot_keys, save_machi,
  compute_machi_alternatives, offer, confirm, CeremonyName, Link, attach_names,
  ensure_agyary_customer, book_machi_slot,
}

-- Both machis hold the same geh of the same day at one fire temple, for one mobed.
unfoldable pub rivals : Machi → Machi → Bool
rivals m n =
    m.agyary_id == n.agyary_id
    && same_day m.gregorian_date n.gregorian_date
    && m.geh == n.geh
    && owner_or_zero m.created_by_user_id == owner_or_zero n.created_by_user_id
    && not (releases_slot m.status)
    && not (releases_slot n.status)

-- The machi is stored under the Parsi day of its date, in the fire temple's own calendar.
abbrev pub Keyed : (ℕ → CalendarSystem) → Machi → Type 0
Keyed calendar m =
    slot_keys (calendar m.agyary_id) m.gregorian_date ≡ ok (m.parsi_roj, m.parsi_mah, m.parsi_year)

abbrev pub Other : Machi → Machi → Type 0
Other m n = (m.id ≢ n.id) × (rivals m n ≡ false)

-- The machis are different rows, and no two of them hold the same geh of a day for one mobed.
abbrev pub Apart : List Machi → Type 0
Apart [] = Unit
Apart (m ∷ machis) = All (Other m) machis × Apart machis

pub record Sound (calendar : ℕ → CalendarSystem) (board : Board) : Type 0 where
  pub keyed : All (Keyed calendar) board.machis
  pub apart : Apart board.machis
  pub below : All (λ m. m.id < board.next_id) board.machis

pub same_day-eq : (a b : Date) → same_day a b ≡ true → a ≡ b
unfolding same_day
same_day-eq a b h = ground arith

pub same_day_refl : (a : Date) → same_day a a ≡ true
unfolding same_day
same_day_refl a = ground arith

same_number_refl : (a : Option ℕ) → same_number a a ≡ true
unfolding same_number
same_number_refl none = refl
same_number_refl (some a) = ground arith

same_year_refl : (a : ℤ) → same_year a a ≡ true
unfolding same_year
same_year_refl a = ground arith

-- Machis of one day have the same key of the unique index.
pub clashes-rivals :
    (calendar : ℕ → CalendarSystem) (m n : Machi)
    → Keyed calendar m
    → Keyed calendar n
    → rivals m n ≡ true
    → clashes m n ≡ true
unfolding rivals clashes
clashes-rivals calendar m n k l h =
    let place : m.agyary_id ≡ n.agyary_id = ground arith in
    let day : m.gregorian_date ≡ n.gregorian_date =
      same_day-eq m.gregorian_date n.gregorian_date (ground arith) in
    let keys : (m.parsi_roj, m.parsi_mah, m.parsi_year) ≡ (n.parsi_roj, n.parsi_mah, n.parsi_year) =
      ok_injective (
        sym k
        ∙ ap (λ a. slot_keys (calendar a) m.gregorian_date) place
        ∙ ap (slot_keys (calendar n.agyary_id)) day
        ∙ l) in
    let roj : same_number m.parsi_roj n.parsi_roj ≡ true =
      rw (ap (λ k. k.0) keys) (same_number_refl n.parsi_roj) in
    let mah : same_number m.parsi_mah n.parsi_mah ≡ true =
      rw (ap (λ k. k.1) keys) (same_number_refl n.parsi_mah) in
    let year : same_year m.parsi_year n.parsi_year ≡ true =
      rw (ap (λ k. k.2) keys) (same_year_refl n.parsi_year) in
    ground arith

-- A row that the index lets in is no rival of another row.
pub violates_index-Other :
    (calendar : ℕ → CalendarSystem) (m : Machi) (machis : List Machi)
    → Keyed calendar m
    → All (Keyed calendar) machis
    → violates_index m machis ≡ false
    → All (λ n. (n.id ≡ m.id) ⊎ (rivals m n ≡ false)) machis
unfolding violates_index
violates_index-Other calendar m [] k ks free = tt
violates_index-Other calendar m (n ∷ machis) k ks free =
    let rest = violates_index-Other calendar m machis k ks.1 (ground arith) in
    elim (Bool-cases (rivals m n)) [
      | inl rival ↦
          let clash = clashes-rivals calendar m n k ks.0 rival in (inl (ground arith), rest)
      | inr apart ↦ (inr apart, rest)
    ]

pub Other-below :
    (m : Machi) (machis : List Machi)
    → All (λ n. n.id < m.id) machis
    → All (λ n. (n.id ≡ m.id) ⊎ (rivals m n ≡ false)) machis
    → All (Other m) machis
Other-below m [] below others = tt
Other-below m (n ∷ machis) below (inl same, others) = absurd (omega (arith, below.0))
Other-below m (n ∷ machis) below (inr apart, others) =
    ((λ e. omega (arith, below.0), apart), Other-below m machis below.1 others)

pub save_machi_absent :
    (m : Machi) (machis : List Machi) → All (λ n. m.id ≢ n.id) machis → save_machi m machis ≡ machis
unfolding save_machi
save_machi_absent m [] fresh = refl
save_machi_absent m (n ∷ machis) fresh =
    let other : (n.id == m.id) ≡ false = ground (arith, fresh.0) in
    rw (other, save_machi_absent m machis fresh.1)

-- An id above those of all rows is new.
fresh_above :
    (m : Machi) (machis : List Machi)
    → All (λ n. n.id < m.id) machis
    → All (λ n. m.id ≢ n.id) machis
fresh_above m [] below = tt
fresh_above m (n ∷ machis) below = (λ e. omega (arith, below.0), fresh_above m machis below.1)

save_machi_head :
    (m n : Machi) (machis : List Machi)
    → n.id ≡ m.id
    → All (λ n. n.id < m.id) machis
    → save_machi m (n ∷ machis) ≡ m ∷ machis
unfolding save_machi
save_machi_head m n machis same below =
    let own : (n.id == m.id) ≡ true = ground arith in
    rw (own, save_machi_absent m machis (fresh_above m machis below))

clashes_confirmed :
    (m n : Machi) → m.status ≡ requested → clashes (record m { status = confirmed }) n ≡ clashes m n
unfolding clashes releases_slot
clashes_confirmed m n open_status = rw open_status

-- A confirmed machi stands in the index as a requested one does.
violates_index_confirmed :
    (m : Machi) (machis : List Machi)
    → m.status ≡ requested
    → violates_index (record m { status = confirmed }) machis ≡ violates_index m machis
unfolding violates_index
violates_index_confirmed m [] open_status = refl
violates_index_confirmed m (n ∷ machis) open_status =
    rw (clashes_confirmed m n open_status, violates_index_confirmed m machis open_status)

All-below_suc :
    (limit : ℕ) (machis : List Machi)
    → All (λ m. m.id < limit) machis
    → All (λ m. m.id < suc limit) machis
All-below_suc limit [] below = tt
All-below_suc limit (m ∷ machis) below =
    (omega (arith, below.0), All-below_suc limit machis below.1)

-- What a booking leaves: a confirmed machi before the others, or the same tables.
abbrev pub Answer : ℕ → Date → Option ℕ → Board → Board → Booked → Type 0
Answer geh gregorian owner raced after (taken others) = after ≡ raced
Answer geh gregorian owner raced after (booked m) =
    (after.machis ≡ m ∷ raced.machis)
    × (m.status ≡ confirmed)
    × (m.geh ≡ geh)
    × (m.gregorian_date ≡ gregorian)
    × (m.created_by_user_id ≡ owner)
    × (violates_index m raced.machis ≡ false)

module _ (calendar : ℕ → CalendarSystem) (now : Date × ℕ) (geh : ℕ) (gregorian : Date)
    (owner : Option ℕ) where
  -- The answer, and the tables' soundness kept.
  abbrev Keeps : Board → Board × Booked → Type 0
  Keeps raced (after, result) = Answer geh gregorian owner raced after result × Sound calendar after

  pub offer-Keeps :
      (agyary : ℕ) (raced : Board) (end : Board × Booked)
      → Sound calendar raced
      → offer calendar now agyary geh gregorian owner raced ≡ ok end
      → Keeps raced end
  unfolding offer
  offer-Keeps agyary raced end s made =
      let (others, _, last) =
        >>=-eq-ok (compute_machi_alternatives calendar now agyary geh gregorian owner raced)
          (λ others. ok (raced, taken others)) made in
      subst (Keeps raced) (ok_injective last) (refl, s)

  inserted-Sound :
      (m : Machi) (names : List CeremonyName) (customers : List Link) (raced : Board)
      → Keyed calendar m
      → m.id ≡ raced.next_id
      → violates_index m raced.machis ≡ false
      → Sound calendar raced
      → Sound calendar (record {
        machis = m ∷ raced.machis;
        names = names;
        customers = customers;
        next_id = suc raced.next_id;
      })
  inserted-Sound m names customers raced key new free s =
      let below : All (λ n. n.id < m.id) raced.machis = rw new s.below in
      record {
        keyed = (key, s.keyed);
        apart = (
          Other-below m raced.machis below
              (violates_index-Other calendar m raced.machis key s.keyed free),
          s.apart,
        );
        below = (omega arith, All-below_suc raced.next_id raced.machis s.below);
      }

  pub confirm-Keeps :
      (agyary : ℕ) (m : Machi) (names : List Name) (raced : Board) (end : Board × Booked)
      → Keyed calendar m
      → m.id ≡ raced.next_id
      → m.geh ≡ geh
      → m.gregorian_date ≡ gregorian
      → m.created_by_user_id ≡ owner
      → m.status ≡ requested
      → Sound calendar raced
      → confirm calendar now agyary geh gregorian owner raced (insert_machi now m names raced)
        ≡ ok end
      → Keeps raced end
  unfolding confirm insert_machi
  confirm-Keeps agyary m names raced end key new its_geh its_day its_owner its_status s made =
      elim (Bool-cases (violates_index m raced.machis)) [
        | inl clash ↦ offer-Keeps agyary raced end s (rw clash at made)
        | inr free ↦
            let end_eq : ok (
              record raced {
                machis = save_machi (record m { status = confirmed }) (m ∷ raced.machis);
                names = attach_names m.id 0 names ++ raced.names;
                customers = ensure_agyary_customer now m.agyary_id m.customer_id raced.customers;
                next_id = suc raced.next_id;
              },
              booked (record m { status = confirmed }),
            )
                ≡ ok end =
              rw free at made in
            let sure : Machi = record m { status = confirmed } in
            let below : All (λ n. n.id < m.id) raced.machis = rw new s.below in
            let first : save_machi sure (m ∷ raced.machis) ≡ sure ∷ raced.machis =
              save_machi_head sure m raced.machis refl below in
            let still_free : violates_index sure raced.machis ≡ false =
              violates_index_confirmed m raced.machis its_status ∙ free in
            subst (Keeps raced) (ok_injective end_eq) (
              rw first (
                (refl, refl, its_geh, its_day, its_owner, still_free),
                inserted-Sound sure (attach_names m.id 0 names ++ raced.names)
                    (ensure_agyary_customer now m.agyary_id m.customer_id raced.customers) raced key
                    new still_free s,
              ))
      ]

  pub book_machi_slot-Keeps :
      (agyary customer : ℕ) (purpose : Purpose) (names : List Name) (board raced : Board)
      (end : Board × Booked)
      → Sound calendar raced
      → book_machi_slot calendar now agyary customer geh gregorian purpose names owner board raced
        ≡ ok end
      → Keeps raced end
  unfolding book_machi_slot create_machi_request
  book_machi_slot-Keeps agyary customer purpose names board raced end s made =
      let (fields, key, made₁) = >>=-eq-ok (slot_keys (calendar agyary) gregorian) _ made in
      let (free, ahead, made₂) =
        >>=-eq-ok
          (drop_elapsed_gehs (available_gehs agyary gregorian owner board.machis) gregorian now) _
          made₁ in
      elim (Bool-cases (number_in geh free)) [
        | inl here ↦
            let made₃ : (create_machi_request now agyary customer fields geh gregorian purpose
                    (normalize_machi_names purpose names) owner raced
                  >>= λ slot. confirm calendar now agyary geh gregorian owner raced slot)
                ≡ ok end =
              rw here at made₂ in
            let (slot, new, made₄) =
              >>=-eq-ok
                (create_machi_request now agyary customer fields geh gregorian purpose
                  (normalize_machi_names purpose names) owner raced)
                _ made₃ in
            let (start, at, new') = >>=-eq-ok (machi_ceremony_datetime gregorian geh) _ new in
            confirm-Keeps agyary
              (machi_request raced.next_id agyary customer fields geh gregorian start purpose owner)
              (normalize_machi_names purpose names) raced end key refl refl refl refl refl s
              (ap (confirm calendar now agyary geh gregorian owner raced) (ok_injective new')
                ∙ made₄)
        | inr gone ↦ offer-Keeps agyary raced end s (rw gone at made₂)
      ]
