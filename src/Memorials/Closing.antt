-- ===== src/Memorials/Closing.antt =====
-- The closing notices of the calendar's feed: one for each memorial that ends in the days asked for.
use agyary.Common.{
  ℕ, ◌≡◌, ◌↔◌, refl, sym, subst, inl, inr, ◌⊎◌, List, [], ◌∷◌, Bool, true, false, not, ◌&&◌,
  Bool-cases, if◌then◌else◌, number_in, Fresh, ◌<◌, Among, All, All-Among, ◌≤◌, arith,
}
use agyary.Dates.{Date, to_ordinal, ltb_date}
use agyary.Memorial.Keep.{sorted}
use agyary.Memorials.{done, done_injective, demanded, bad_range}
use agyary.Memorials.Saving.{KeptDate, KeptMemorial}
use agyary.Memorials.Rows.{
  both_ways, Within, Among-sorted_of, sorted_of-Among, rows_of-Among, Among-rows_of,
}
use agyary.Memorials.Reading.{
  last_kept, last_date_of, is_day, is_of, Row, rows_of, by_row, Item, observance_item, closing_item,
  is_last_of, feed_items, calendar_feed,
}

-- The memorials that have a closing notice.
unfoldable pub closing_ids : List Item → List ℕ
closing_ids [] = []
closing_ids (observance_item id d last ∷ items) = closing_ids items
closing_ids (closing_item id day ∷ items) = id ∷ closing_ids items

abbrev pub Different : List ℕ → Type 0
Different [] = Unit
Different (x ∷ xs) = Fresh x xs × Different xs

-- A date on which its memorial ends.
abbrev Ends : ℕ → Row → Type 0
Ends x row = (row.0.id ≡ x) × (is_last_of row.0 row.1.observance.gregorian_date ≡ true)

number_in_head : (x : ℕ) (xs : List ℕ) → number_in x (x ∷ xs) ≡ true
unfolding number_in
number_in_head x xs = ground arith

number_in_more : (x y : ℕ) (xs : List ℕ) → number_in x xs ≡ true → number_in x (y ∷ xs) ≡ true
unfolding number_in
number_in_more x y xs h = ground arith

abbrev pub kept_day : KeptDate → ℕ
kept_day d = to_ordinal d.observance.gregorian_date

number_in-cons :
    (x y : ℕ) (xs : List ℕ) → number_in x (y ∷ xs) ≡ true → (x ≡ y) ⊎ (number_in x xs ≡ true)
unfolding number_in
number_in-cons x y xs h = ground arith

module _ (x : ℕ) where
  -- A memorial that is closed is not closed again.
  closed-Fresh :
      (closed : List ℕ) (rows : List Row)
      → number_in x closed ≡ true
      → Fresh x (closing_ids (feed_items closed rows))
  unfolding feed_items closing_ids
  closed-Fresh closed [] h = tt
  closed-Fresh closed ((m, d) ∷ rows) h =
      elim (Bool-cases (is_last_of m d.observance.gregorian_date && not (number_in m.id closed))) [
        | inl closes ↦ rw closes (
          (λ same. both_ways (number_in x closed) h (rw (← same) (ground arith))),
          closed-Fresh (m.id ∷ closed) rows (number_in_more x m.id closed h),
        )
        | inr stays ↦ rw stays (closed-Fresh closed rows h)
      ]

  -- Each notice is that of a memorial which ends on one of the dates.
  closing-Ends :
      (closed : List ℕ) (rows : List Row)
      → Among x (closing_ids (feed_items closed rows))
      → (row : Row) × Among row rows × Ends x row
  unfolding feed_items closing_ids
  closing-Ends closed [] h = absurd h
  closing-Ends closed ((m, d) ∷ rows) h =
      elim (Bool-cases (is_last_of m d.observance.gregorian_date && not (number_in m.id closed))) [
        | inl closes ↦
            elim (let k : Among x (m.id ∷ closing_ids (feed_items (m.id ∷ closed) rows)) =
                rw closes at h in
              k) [
                | inl it ↦ ((m, d), inl refl, (sym it, ground arith))
                | inr later ↦
                    let (row, at, ends) = closing-Ends (m.id ∷ closed) rows later in
                    (row, inr at, ends)
              ]
        | inr stays ↦
            let (row, at, ends) = closing-Ends closed rows (rw stays at h) in (row, inr at, ends)
      ]

  -- Each memorial that ends on one of the dates has a notice, or had it before.
  Ends-closing :
      (closed : List ℕ) (rows : List Row) (row : Row)
      → Among row rows
      → Ends x row
      → (number_in x closed ≡ true) ⊎ Among x (closing_ids (feed_items closed rows))
  unfolding feed_items closing_ids
  Ends-closing closed [] row h ends = absurd h
  Ends-closing closed ((m, d) ∷ rows) row h ends =
      elim (Bool-cases (is_last_of m d.observance.gregorian_date && not (number_in m.id closed))) [
        | inl closes ↦ rw closes (elim h [
          | inl same ↦ inr (inl (sym (rw same at ends).0))
          | inr later ↦ elim (Ends-closing (m.id ∷ closed) rows row later ends) [
            | inl known ↦ elim (number_in-cons x m.id closed known) [
              | inl it ↦ inr (inl it)
              | inr before ↦ inl before
            ]
            | inr notice ↦ inr (inr notice)
          ]
        ])
        | inr stays ↦ rw stays (elim h [
          | inl same ↦
              let (its_id, last) = (let k : Ends x (m, d) = rw same at ends in k) in
              inl (rw (← its_id) (ground arith))
          | inr later ↦ Ends-closing closed rows row later ends
        ])
      ]

Different-closing :
    (closed : List ℕ) (rows : List Row) → Different (closing_ids (feed_items closed rows))
unfolding feed_items closing_ids
Different-closing closed [] = tt
Different-closing closed ((m, d) ∷ rows) =
    elim (Bool-cases (is_last_of m d.observance.gregorian_date && not (number_in m.id closed))) [
      | inl closes ↦ rw closes (
        closed-Fresh m.id (m.id ∷ closed) rows (number_in_head m.id closed),
        Different-closing (m.id ∷ closed) rows,
      )
      | inr stays ↦ rw stays (Different-closing closed rows)
    ]

abbrev AtMost : ℕ → List KeptDate → Type 0
AtMost n ds = All (λ c. kept_day c ≤ n) ds

abbrev later_of : Date → KeptDate → Bool → Date
later_of day d b = if b then d.observance.gregorian_date else day

last_kept-ge :
    (day : Date) (ds : List KeptDate)
    → (to_ordinal day ≤ to_ordinal (last_kept day ds)) × AtMost (to_ordinal (last_kept day ds)) ds
unfolding last_kept ltb_date
last_kept-ge day [] = (omega arith, tt)
last_kept-ge day (d ∷ ds) = elim (Bool-cases (ltb_date day d.observance.gregorian_date)) [
  | inl later ↦
      let (first, others) = last_kept-ge d.observance.gregorian_date ds in
      let up : to_ordinal day < kept_day d = ground arith in
      subst
        (λ b.
          (to_ordinal day ≤ to_ordinal (last_kept (later_of day d b) ds))
          × AtMost (to_ordinal (last_kept (later_of day d b) ds)) (d ∷ ds))
        (sym later) (omega arith, (first, others))
  | inr earlier ↦
      let (first, others) = last_kept-ge day ds in
      let down : kept_day d ≤ to_ordinal day = ground arith in
      subst
        (λ b.
          (to_ordinal day ≤ to_ordinal (last_kept (later_of day d b) ds))
          × AtMost (to_ordinal (last_kept (later_of day d b) ds)) (d ∷ ds))
        (sym earlier) (first, (omega arith, others))
]

last_kept-le :
    (day : Date) (ds : List KeptDate) (n : ℕ)
    → to_ordinal day ≤ n
    → All (λ c. kept_day c ≤ n) ds
    → to_ordinal (last_kept day ds) ≤ n
unfolding last_kept
last_kept-le day [] n h hs = h
last_kept-le day (d ∷ ds) n h hs = elim (Bool-cases (ltb_date day d.observance.gregorian_date)) [
  | inl later ↦ rw later (last_kept-le d.observance.gregorian_date ds n hs.0 hs.1)
  | inr earlier ↦ rw earlier (last_kept-le day ds n h hs.1)
]

-- A date of a memorial is its last where no date of the memorial is later.
last-of-all :
    (day : Date) (ds : List KeptDate)
    → is_day (last_date_of ds) day ≡ true
    → All (λ c. kept_day c ≤ to_ordinal day) ds
unfolding last_date_of
last-of-all day [] h = tt
last-of-all day (d ∷ ds) h =
    let same : to_ordinal day ≡ to_ordinal (last_kept d.observance.gregorian_date ds) =
      ground arith in
    subst (λ n. AtMost n (d ∷ ds)) (sym same) (last_kept-ge d.observance.gregorian_date ds)

all-of-last :
    (d : KeptDate) (ds : List KeptDate)
    → Among d ds
    → All (λ c. kept_day c ≤ kept_day d) ds
    → is_day (last_date_of ds) d.observance.gregorian_date ≡ true
unfolding last_date_of
all-of-last d [] h all = absurd h
all-of-last d (c ∷ ds) h all =
    let ge = last_kept-ge c.observance.gregorian_date ds in
    let le = last_kept-le c.observance.gregorian_date ds (kept_day d) all.0 all.1 in
    let here : kept_day d ≤ to_ordinal (last_kept c.observance.gregorian_date ds) =
      All-Among (λ x. kept_day x ≤ to_ordinal (last_kept c.observance.gregorian_date ds)) (c ∷ ds)
        ge h in
    ground arith

module _ (start end : Date) (user agyary : ℕ) where
  -- The memorial is the caller's own, and its last date is one of the days asked for.
  pub record EndsIn (memorials : List KeptMemorial) (id : ℕ) : Type 0 where
    pub memorial : KeptMemorial
    pub its_id : memorial.id ≡ id
    pub stored : Among memorial memorials
    pub own : is_of user agyary memorial ≡ true
    pub last : KeptDate
    pub its_last : Among last memorial.observances
    pub is_last : All (λ c. kept_day c ≤ kept_day last) memorial.observances
    pub inside : Within start end last

  -- The calendar's feed closes each memorial once: no two closing notices are of one memorial,
  -- and a memorial has one exactly where it is the caller's own and the last of all its dates is
  -- one of the days asked for.
  pub calendar_feed-closes :
      (memorials : List KeptMemorial) (items : List Item)
      → calendar_feed user agyary start end memorials ≡ done items
      → Different (closing_ids items)
        × ((id : ℕ) → Among id (closing_ids items) ↔ EndsIn memorials id)
  unfolding calendar_feed number_in is_last_of
  calendar_feed-closes memorials items e =
      let rows = rows_of user agyary start end memorials in
      let (range, is) = demanded (not (ltb_date end start)) bad_range _ e in
      subst
        (λ x.
          Different (closing_ids x) × ((id : ℕ) → Among id (closing_ids x) ↔ EndsIn memorials id))
        (done_injective is)
        (
          Different-closing [] (sorted by_row rows),
          λ id. (
            λ h.
                let (row, at, ends) = closing-Ends id [] (sorted by_row rows) h in
                let (stored, own, its, inside) =
                  rows_of-Among start end user agyary memorials row
                    (Among-sorted_of by_row row rows at) in
                record {
                  memorial = row.0;
                  its_id = ends.0;
                  stored = stored;
                  own = own;
                  last = row.1;
                  its_last = its;
                  is_last = last-of-all row.1.observance.gregorian_date row.0.observances ends.1;
                  inside = inside;
                },
            λ c.
                let at =
                  Among-rows_of start end user agyary memorials c.memorial c.last c.stored c.own
                    c.its_last c.inside in
                elim (Ends-closing id [] (sorted by_row rows) (c.memorial, c.last)
                  (sorted_of-Among by_row (c.memorial, c.last) rows at)
                  (c.its_id, all-of-last c.last c.memorial.observances c.its_last c.is_last)) [
                    | inl none' ↦ absurd (let k : false ≡ true = none' in (cc))
                    | inr notice ↦ notice
                  ],
          ),
        )
