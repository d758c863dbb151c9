-- ===== src/Guardrails/Caps.antt =====
-- A reminder that no cap forbids leaves every count within its cap.
use agyary.Common.{
  ℕ, ◌+◌, ◌≤◌, ◌≡◌, Option, none, some, List, [], ◌∷◌, false, ◌==◌, if◌then◌else◌, arith,
}
use agyary.Guardrails.{Limits, Usage, count_of, set_count, count_one, at_cap, blocker, add}

-- Every count of the usage is within its cap.
pub record Within (limits : Limits) (used : Usage) : Type 0 where
  pub today_in : used.today ≤ limits.daily_cap
  pub month_in : used.month ≤ limits.monthly_cap
  pub mobed_in : (m : ℕ) → count_of m used.per_mobed ≤ limits.per_mobed_daily_cap
  pub agyary_in : (a : ℕ) → count_of a used.per_agyary ≤ limits.per_agyary_daily_cap

pub count_of-set_count :
    (k key n : ℕ) (counts : List (ℕ × ℕ))
    → count_of k (set_count key n counts) ≡ (if key == k then n else count_of k counts)
unfolding count_of set_count
count_of-set_count k key n [] = ground arith
count_of-set_count k key n ((j, m) ∷ rest) = ground (arith, count_of-set_count k key n rest)

capped :
    (owner : Option ℕ) (counts : List (ℕ × ℕ)) (cap k : ℕ)
    → ((m : ℕ) → count_of m counts ≤ cap)
    → at_cap owner counts cap ≡ false
    → count_of k (count_one owner counts) ≤ cap
unfolding count_one at_cap
capped none counts cap k h e = h k
capped (some key) counts cap k h e =
    ground (arith, h k, h key, count_of-set_count k key (count_of key counts + 1) counts)

-- Where every count is within its cap and `blocker` names no cap, `add` leaves every count within
-- its cap: today's, the month's, and those of every mobed and every fire temple.
pub add-Within :
    (limits : Limits) (used : Usage) (owner_id agyary_id owner_cap : Option ℕ)
    → Within limits used
    → blocker limits used owner_id agyary_id owner_cap ≡ none
    → Within limits (add used owner_id agyary_id)
unfolding add blocker
add-Within limits used o a c w e = record {
  today_in = ground arith;
  month_in = ground arith;
  mobed_in = λ m. capped o used.per_mobed limits.per_mobed_daily_cap m w.mobed_in (ground arith);
  agyary_in =
      λ m. capped a used.per_agyary limits.per_agyary_daily_cap m w.agyary_in (ground arith);
}
