-- ===== src/Memorials/Rows.antt =====
-- The rows that the calendar's feed reads: the dates of the mobed's own memorials, in their order.
use agyary.Common.{
  ℕ, ◌≡◌, ap, subst, inl, inr, ◌⊎◌, List, [], ◌∷◌, ◌++◌, Bool, true, false, ◌&&◌, Bool-cases, Among,
}
use agyary.Dates.{Date, leb_date}
use agyary.Memorial.Keep.{insert_sorted, sorted}
use agyary.Memorials.Saving.{KeptDate, KeptMemorial}
use agyary.Memorials.Reading.{is_of, Row, rows_in, rows_of, by_row}

-- A test does not come out both ways.
pub both_ways : (b : Bool) → b ≡ true → b ≡ false → ⊥
both_ways b h k = cc

module _ {A : Type 0} (before : A → A → Bool) (x : A) where
  Among-insert : (y : A) (ys : List A) → Among x (insert_sorted before y ys) → Among x (y ∷ ys)
  unfolding insert_sorted
  Among-insert y [] h = h
  Among-insert y (z ∷ zs) h = elim (Bool-cases (before y z)) [
    | inl first ↦ rw first at h
    | inr after ↦ elim (let k : Among x (z ∷ insert_sorted before y zs) = rw after at h in k) [
      | inl it ↦ inr (inl it)
      | inr later ↦ elim (Among-insert y zs later) [ inl it ↦ inl it | inr k ↦ inr (inr k) ]
    ]
  ]

  insert-Among : (y : A) (ys : List A) → Among x (y ∷ ys) → Among x (insert_sorted before y ys)
  unfolding insert_sorted
  insert-Among y [] h = h
  insert-Among y (z ∷ zs) h = elim (Bool-cases (before y z)) [
    | inl first ↦ rw first h
    | inr after ↦ rw after (elim h [
      | inl it ↦ inr (insert-Among y zs (inl it))
      | inr k ↦ elim k [ inl it ↦ inl it | inr later ↦ inr (insert-Among y zs (inr later)) ]
    ])
  ]

  -- Sorting keeps what stands in the list, and adds nothing.
  pub Among-sorted_of : (ys : List A) → Among x (sorted before ys) → Among x ys
  unfolding sorted
  Among-sorted_of [] h = h
  Among-sorted_of (y ∷ ys) h = elim (Among-insert y (sorted before ys) h) [
    | inl it ↦ inl it
    | inr later ↦ inr (Among-sorted_of ys later)
  ]

  pub sorted_of-Among : (ys : List A) → Among x ys → Among x (sorted before ys)
  unfolding sorted
  sorted_of-Among [] h = h
  sorted_of-Among (y ∷ ys) (inl it) = insert-Among y (sorted before ys) (inl it)
  sorted_of-Among (y ∷ ys) (inr later) =
      insert-Among y (sorted before ys) (inr (sorted_of-Among ys later))

  Among-append : (ys zs : List A) → Among x (ys ++ zs) → Among x ys ⊎ Among x zs
  Among-append [] zs h = inr h
  Among-append (y ∷ ys) zs (inl it) = inl (inl it)
  Among-append (y ∷ ys) zs (inr later) = elim (Among-append ys zs later) [
    | inl k ↦ inl (inr k)
    | inr k ↦ inr k
  ]

  append-Among : (ys zs : List A) → Among x ys ⊎ Among x zs → Among x (ys ++ zs)
  append-Among [] zs (inl k) = absurd k
  append-Among [] zs (inr k) = k
  append-Among (y ∷ ys) zs (inl (inl it)) = inl it
  append-Among (y ∷ ys) zs (inl (inr k)) = inr (append-Among ys zs (inl k))
  append-Among (y ∷ ys) zs (inr k) = inr (append-Among ys zs (inr k))

module _ (start end : Date) where
  abbrev pub Within : KeptDate → Type 0
  Within d =
      (leb_date start d.observance.gregorian_date && leb_date d.observance.gregorian_date end)
      ≡ true

  rows_in-Among :
      (m : KeptMemorial) (ds : List KeptDate) (row : Row)
      → Among row (rows_in start end m ds)
      → (row.0 ≡ m) × Among row.1 ds × Within row.1
  unfolding rows_in
  rows_in-Among m [] row h = absurd h
  rows_in-Among m (d ∷ ds) row h =
      elim (Bool-cases
        (leb_date start d.observance.gregorian_date && leb_date d.observance.gregorian_date end)) [
          | inl inside ↦
              elim (let k : Among row ((m, d) ∷ rows_in start end m ds) = rw inside at h in k) [
                | inl it ↦ (ap (λ r. r.0) it, inl (ap (λ r. r.1) it), rw it inside)
                | inr later ↦ let (a, b, c) = rows_in-Among m ds row later in (a, inr b, c)
              ]
          | inr outside ↦ let (a, b, c) = rows_in-Among m ds row (rw outside at h) in (a, inr b, c)
        ]

  Among-rows_in :
      (m : KeptMemorial) (ds : List KeptDate) (d : KeptDate)
      → Among d ds
      → Within d
      → Among (m, d) (rows_in start end m ds)
  unfolding rows_in
  Among-rows_in m [] d h inside = absurd h
  Among-rows_in m (c ∷ ds) d h inside =
      elim (Bool-cases
        (leb_date start c.observance.gregorian_date && leb_date c.observance.gregorian_date end)) [
          | inl in_range ↦ rw in_range (elim h [
            | inl it ↦ inl (ap (λ x. (m, x)) it)
            | inr later ↦ inr (Among-rows_in m ds d later inside)
          ])
          | inr out ↦ rw out (elim h [
            | inl it ↦ absurd (both_ways _ (rw it at inside) out)
            | inr later ↦ Among-rows_in m ds d later inside
          ])
        ]

  module _ (user agyary : ℕ) where
    -- The rows are the dates in range of the caller's own memorials, all of them.
    pub rows_of-Among :
        (memorials : List KeptMemorial) (row : Row)
        → Among row (rows_of user agyary start end memorials)
        → Among row.0 memorials
          × (is_of user agyary row.0 ≡ true)
          × Among row.1 row.0.observances
          × Within row.1
    unfolding rows_of
    rows_of-Among [] row h = absurd h
    rows_of-Among (m ∷ memorials) row h = elim (Bool-cases (is_of user agyary m)) [
      | inl own ↦
          elim (Among-append by_row row (rows_in start end m m.observances) _ (rw own at h)) [
            | inl it ↦
                let (its, at, inside) = rows_in-Among m m.observances row it in
                (inl its, rw its own, rw its at, inside)
            | inr later ↦ let (a, b, c, w) = rows_of-Among memorials row later in (inr a, b, c, w)
          ]
      | inr other ↦
          let (a, b, c, w) = rows_of-Among memorials row (rw other at h) in (inr a, b, c, w)
    ]

    pub Among-rows_of :
        (memorials : List KeptMemorial) (m : KeptMemorial) (d : KeptDate)
        → Among m memorials
        → is_of user agyary m ≡ true
        → Among d m.observances
        → Within d
        → Among (m, d) (rows_of user agyary start end memorials)
    unfolding rows_of
    Among-rows_of [] m d h own at inside = absurd h
    Among-rows_of (n ∷ memorials) m d h own at inside = elim (Bool-cases (is_of user agyary n)) [
      | inl its ↦ rw its (
          append-Among by_row (m, d) (rows_in start end n n.observances) _
            (elim h [
              | inl it ↦ inl (
                  subst (λ k. Among (m, d) (rows_in start end k k.observances)) it
                    (Among-rows_in m m.observances d at inside))
              | inr later ↦ inr (Among-rows_of memorials m d later own at inside)
            ]))
      | inr other ↦ rw other (elim h [
        | inl it ↦ absurd (both_ways _ (rw it at own) other)
        | inr later ↦ Among-rows_of memorials m d later own at inside
      ])
    ]
