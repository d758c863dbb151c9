-- ===== src/Memorial/Counting.antt =====
-- Counting by Roj and Mah, `count_from` of calendar/memorial.py.
use agyary.Common.{
  ℕ, ◌+◌, ◌-◌, ◌*◌, ◌/◌, ◌%◌, ◌≤◌, ◌≡◌, ◌↔◌, ◌∙◌, ◌⊎◌, inl, inr, ok, ℤ, pos, negsuc, ◌+ℤ◌,
  floor_div, floor_mod, floor_div_parts, floor_mod-lt, parts_of_eq, eq_of_parts, int_laws, arith,
}
use agyary.Memorial.{Death, cycle_ordinal, start_of, count_from, position}

-- A death that the calendar has: a Roj of a Mah, or a Gatha day in the place of a thirteenth Mah.
pub data IsDeath (d : Death) : Type 0 where
  on_roj : (1 ≤ d.mah) × (d.mah ≤ 12) × (1 ≤ d.roj) × (d.roj ≤ 30) → IsDeath d
  on_gatha : (d.mah ≡ 13) × (1 ≤ d.roj) × (d.roj ≤ 6) → IsDeath d

start_of-cases :
    (d : Death) (s b : ℤ)
    → start_of d ≡ ok (s, b)
    → ((1 ≤ d.mah)
        × (d.mah ≤ 12)
        × (1 ≤ d.roj)
        × (d.roj ≤ 30)
        × (s ≡ pos (cycle_ordinal d.mah d.roj))
        × (b ≡ d.year))
      ⊎ ((d.mah ≡ 13) × (1 ≤ d.roj) × (d.roj ≤ 6) × (s ≡ negsuc 0) × (b ≡ d.year +ℤ pos 1))
unfolding start_of
start_of-cases d s b e = ground arith

-- `_start` accepts a death exactly when it is on a Roj of 1 to 30 of a Mah of 1 to 12, or on a Gatha
-- day of 1 to 6.
pub start_of-IsDeath : (d : Death) → ((r : ℤ × ℤ) × (start_of d ≡ ok r)) ↔ IsDeath d
unfolding start_of
start_of-IsDeath d = (λ (r, e). accepted r e, refused)
  where
    accepted : (r : ℤ × ℤ) → start_of d ≡ ok r → IsDeath d
    accepted (s, b) e = elim (start_of-cases d s b e) [
      | inl (a, b', c, f, g, h) ↦ on_roj (a, b', c, f)
      | inr (a, b', c, g, h) ↦ on_gatha (a, b', c)
    ]

    of_roj :
        (1 ≤ d.mah) × (d.mah ≤ 12) × (1 ≤ d.roj) × (d.roj ≤ 30)
        → start_of d ≡ ok (pos (cycle_ordinal d.mah d.roj), d.year)
    of_roj h = ground arith

    of_gatha :
        (d.mah ≡ 13) × (1 ≤ d.roj) × (d.roj ≤ 6) → start_of d ≡ ok (negsuc 0, d.year +ℤ pos 1)
    of_gatha h = ground arith

    refused : IsDeath d → (r : ℤ × ℤ) × (start_of d ≡ ok r)
    refused (on_roj h) = ((pos (cycle_ordinal d.mah d.roj), d.year), of_roj h)
    refused (on_gatha h) = ((negsuc 0, d.year +ℤ pos 1), of_gatha h)

module _ (d : Death) (n : ℕ) (s b : ℤ) (started : start_of d ≡ ok (s, b)) where
  abbrev steps : ℤ
  steps = s +ℤ pos (n - 1)

  count_from_parts :
      (roj mah : ℕ) (year : ℤ)
      → count_from d n ≡ ok (roj, mah, year)
      → (1 ≤ n)
        × (roj ≡ floor_mod steps 360 % 30 + 1)
        × (mah ≡ floor_mod steps 360 / 30 + 1)
        × (year ≡ b +ℤ floor_div steps 360)
  unfolding count_from
  count_from_parts roj mah year e = ground (arith, started)

  -- The day that `count_from` answers is a Roj of a Mah, and counting back from it to the death gives the number that
  -- was asked for: `_position` undoes `count_from`.
  pub position-count_from :
      (roj mah : ℕ) (year : ℤ)
      → count_from d n ≡ ok (roj, mah, year)
      → (1 ≤ roj) × (roj ≤ 30) × (1 ≤ mah) × (mah ≤ 12) × (position roj mah year s b ≡ pos n)
  unfolding position cycle_ordinal
  position-count_from roj mah year e =
      let (lo, re, me, ye) = count_from_parts roj mah year e in
      let r = floor_mod-lt steps 360 (omega arith) in
      let q = floor_div_parts steps 360 (omega arith) in
      let back : (mah - 1) * 30 + (roj - 1) ≡ floor_mod steps 360 = omega arith in
      (
        omega arith,
        omega arith,
        omega arith,
        omega arith,
        eq_of_parts _ _ (omega (int_laws, parts_of_eq _ _ ye)),
      )

steps_of : (c k : ℕ) → pos c +ℤ pos (1 + 30 * k - 1) ≡ pos (c + 30 * k)
steps_of c k = eq_of_parts _ _ (omega int_laws)

-- Every thirty days the count is on the Roj of the death again, one Mah on: the k-th month after a
-- death on a Roj and Mah is that Roj, k Mahs later, with the years carried.
pub count_from-months :
    (d : Death) (k : ℕ)
    → (1 ≤ d.mah) × (d.mah ≤ 12) × (1 ≤ d.roj) × (d.roj ≤ 30)
    → count_from d (1 + 30 * k)
      ≡ ok (d.roj, (d.mah - 1 + k) % 12 + 1, d.year +ℤ pos ((d.mah - 1 + k) / 12))
unfolding count_from start_of cycle_ordinal floor_mod floor_div
count_from-months d k h =
    let c = (d.mah - 1) * 30 + (d.roj - 1) in
    let r : (c + 30 * k) % 360 % 30 + 1 ≡ d.roj = omega arith in
    let m : (c + 30 * k) % 360 / 30 ≡ (d.mah - 1 + k) % 12 = omega arith in
    let y : (c + 30 * k) / 360 ≡ (d.mah - 1 + k) / 12 = omega arith in ground (arith, steps_of c k)

-- So the k-th year after it is that Roj and that Mah, k years later.
pub count_from-years :
    (d : Death) (k : ℕ)
    → (1 ≤ d.mah) × (d.mah ≤ 12) × (1 ≤ d.roj) × (d.roj ≤ 30)
    → count_from d (1 + 360 * k) ≡ ok (d.roj, d.mah, d.year +ℤ pos k)
count_from-years d k h =
    let n : 1 + 360 * k ≡ 1 + 30 * (12 * k) = omega arith in
    let m : (d.mah - 1 + 12 * k) % 12 + 1 ≡ d.mah = omega arith in
    let y : (d.mah - 1 + 12 * k) / 12 ≡ k = omega arith in
    rw n (count_from-months d (12 * k) h ∙ rw (m, y))
