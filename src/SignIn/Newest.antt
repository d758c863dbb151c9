-- ===== src/SignIn/Newest.antt =====
-- The newest code of a number stays the newest when its row is written.
use agyary.Common.{
  ℕ, ◌≡◌, refl, sym, ap, ◌∙◌, ◌⊎◌, inl, inr, Option, none, some, Option-cases, some_injective, List,
  [], ◌∷◌, true, false, ◌==◌, Bool-cases, arith,
}
use agyary.SignIn.{LoginOtp, comes_after, newer, is_sent_to, newest_sent, save_otp}

-- The newest of some rows is not after this one.
abbrev Behind : LoginOtp → Option LoginOtp → Type 0
Behind row none = Unit
Behind row (some p) = comes_after p row ≡ false

-- The newest of some saved rows is the saved one, or stands before it.
abbrev Before : LoginOtp → Option LoginOtp → Type 0
Before new none = Unit
Before new (some p) = (p ≡ new) ⊎ (comes_after new p ≡ true)

newer-Behind :
    (row o : LoginOtp) (q : Option LoginOtp)
    → comes_after (newer o q) row ≡ false
    → (comes_after o row ≡ false) × Behind row q
unfolding newer comes_after
newer-Behind row o none h = (h, tt)
newer-Behind row o (some p) h = (ground arith, ground arith)

newer-Before :
    (new o : LoginOtp) (q : Option LoginOtp)
    → (o ≡ new) ⊎ (comes_after new o ≡ true)
    → Before new q
    → Before new (some (newer o q))
unfolding newer
newer-Before new o none h k = h
newer-Before new o (some p) h k = elim (Bool-cases (comes_after p o)) [
  | inl later ↦ rw later k
  | inr not_later ↦ rw not_later h
]

newer-new : (new : LoginOtp) (q : Option LoginOtp) → Before new q → newer new q ≡ new
unfolding newer comes_after
newer-new new none k = refl
newer-new new (some p) (inl same) = rw same (ground arith)
newer-new new (some p) (inr earlier) =
    let not_later : comes_after p new ≡ false = ground arith in rw not_later

module _ (phone : ℕ) (row new : LoginOtp) (same_id : new.id ≡ row.id)
    (same_time : new.created_at ≡ row.created_at) (is_to : is_sent_to phone new ≡ true) where
  comes_after-other :
      (o : LoginOtp)
      → (o.id == new.id) ≡ false
      → comes_after o row ≡ false
      → comes_after new o ≡ true
  unfolding comes_after
  comes_after-other o other h = ground arith

  save_otp-Before :
      (otps : List LoginOtp)
      → Behind row (newest_sent phone otps)
      → Before new (newest_sent phone (save_otp new otps))
  unfolding newest_sent save_otp
  save_otp-Before [] h = tt
  save_otp-Before (o ∷ otps) h = elim (Bool-cases (is_sent_to phone o)) [
    | inl to ↦
        let (head, rest) = newer-Behind row o (newest_sent phone otps) (rw to at h) in
        let later = save_otp-Before otps rest in
        elim (Bool-cases (o.id == new.id)) [
          | inl own ↦
              rw (own, is_to)
                (newer-Before new new (newest_sent phone (save_otp new otps)) (inl refl) later)
          | inr other ↦
              rw (other, to)
                (newer-Before new o (newest_sent phone (save_otp new otps))
                  (inr (comes_after-other o other head)) later)
        ]
    | inr not_to ↦
        let later = save_otp-Before otps (rw not_to at h) in
        elim (Bool-cases (o.id == new.id)) [
          | inl own ↦
              rw (own, is_to)
                (newer-Before new new (newest_sent phone (save_otp new otps)) (inl refl) later)
          | inr other ↦ rw (other, not_to) later
        ]
  ]

  newest_sent-head :
      (o : LoginOtp) (otps : List LoginOtp)
      → (o.id == new.id) ≡ true
      → Before new (newest_sent phone (save_otp new otps))
      → newest_sent phone (save_otp new (o ∷ otps)) ≡ some new
  unfolding newest_sent save_otp
  newest_sent-head o otps own before =
      rw (own, is_to) (ap some (newer-new new (newest_sent phone (save_otp new otps)) before))

  newest_sent-tail :
      (o : LoginOtp) (otps : List LoginOtp)
      → (o.id == new.id) ≡ false
      → (is_sent_to phone o ≡ false) ⊎ (comes_after new o ≡ true)
      → newest_sent phone (save_otp new otps) ≡ some new
      → newest_sent phone (save_otp new (o ∷ otps)) ≡ some new
  unfolding newest_sent save_otp newer
  newest_sent-tail o otps other (inl not_to) later = rw (other, not_to) later
  newest_sent-tail o otps other (inr earlier) later = elim (Bool-cases (is_sent_to phone o)) [
    | inl to ↦ rw (other, to, later, earlier)
    | inr not_to ↦ rw (other, not_to) later
  ]

  after_row : (o : LoginOtp) → comes_after row o ≡ true → comes_after new o ≡ true
  unfolding comes_after
  after_row o h = ground arith

  -- The newest is the head: it is the row that is replaced.
  newest_sent-own :
      (o : LoginOtp) (otps : List LoginOtp)
      → o ≡ row
      → Behind row (newest_sent phone otps)
      → newest_sent phone (save_otp new (o ∷ otps)) ≡ some new
  newest_sent-own o otps same behind =
      let ids : o.id ≡ new.id = ap (λ p. p.id) same ∙ sym same_id in
      let own : (o.id == new.id) ≡ true = ground arith in
      newest_sent-head o otps own (save_otp-Before otps behind)

  -- The newest is in the tail, and stands after the head where that was sent to the number.
  newest_sent-later :
      (o : LoginOtp) (otps : List LoginOtp)
      → (is_sent_to phone o ≡ false) ⊎ (comes_after row o ≡ true)
      → newest_sent phone (save_otp new otps) ≡ some new
      → newest_sent phone (save_otp new (o ∷ otps)) ≡ some new
  newest_sent-later o otps place later = elim (Bool-cases (o.id == new.id)) [
    | inl own ↦ newest_sent-head o otps own (rw later (inl refl))
    | inr other ↦
        newest_sent-tail o otps other
          (elim place [ inl not_to ↦ inl not_to | inr earlier ↦ inr (after_row o earlier) ]) later
  ]

  -- The saved row is the newest where the row that it replaces was.
  pub newest_sent-save :
      (otps : List LoginOtp)
      → newest_sent phone otps ≡ some row
      → newest_sent phone (save_otp new otps) ≡ some new
  unfolding newest_sent newer
  newest_sent-save [] found = absurd (let e : none ≡ some row = found in (cc))
  newest_sent-save (o ∷ otps) found = elim (Bool-cases (is_sent_to phone o)) [
    | inr not_to ↦
        newest_sent-later o otps (inl not_to) (newest_sent-save otps (rw not_to at found))
    | inl to ↦ elim (Option-cases (newest_sent phone otps)) [
      | inl alone ↦
          let same : some o ≡ some row = rw (to, alone) at found in
          newest_sent-own o otps (some_injective same) (rw alone tt)
      | inr (p, others) ↦ elim (Bool-cases (comes_after p o)) [
        | inl later ↦
            let same : some p ≡ some row = rw (to, others, later) at found in
            newest_sent-later o otps (inr (rw (some_injective same) at later))
              (newest_sent-save otps (others ∙ same))
        | inr not_later ↦
            let same : some o ≡ some row = rw (to, others, not_later) at found in
            newest_sent-own o otps (some_injective same)
              (rw others (rw (some_injective same) at not_later))
      ]
    ]
  ]
