-- ===== src/SignIn/Guesses.antt =====
-- The check of a code keeps the promise of a lock, over any run of guesses at one number.
use agyary.Common.{
  ℕ, suc, ◌+◌, ◌-◌, ◌≡◌, ◌≤◌, refl, sym, ap, ◌∙◌, inl, inr, Option, none, some, is_some,
  Option-cases, some_injective, List, [], ◌∷◌, ◌++◌, map, Bool, true, false, not, ◌||◌, leb, ◌==◌,
  Bool-cases, if◌then◌else◌, arith, Text,
}
use mathlib.Core.List.{map-append}
use agyary.SignIn.{
  LoginOtp, max_attempts, newer, comes_after, is_sent_to, newest_sent, save_otp, is_dead, is_code,
  guess, check_row, verify_code,
}
use agyary.SignIn.Newest.{newest_sent-save}
use agyary.SignIn.Lock.{
  Lock, armed, opened, attempt, attempts, successes, attempts-once, attempts-spent, wrong,
}

-- The lock that a row stands for.
unfoldable pub lock_of : LoginOtp → Lock
lock_of row = if is_some row.consumed_at then opened else armed (max_attempts - row.attempts)

newest_sent-to :
    (phone : ℕ) (otps : List LoginOtp) (row : LoginOtp)
    → newest_sent phone otps ≡ some row
    → is_sent_to phone row ≡ true
unfolding newest_sent newer
newest_sent-to phone [] row found = absurd (let e : none ≡ some row = found in (cc))
newest_sent-to phone (o ∷ otps) row found = elim (Bool-cases (is_sent_to phone o)) [
  | inr not_to ↦ newest_sent-to phone otps row (rw not_to at found)
  | inl to ↦ elim (Option-cases (newest_sent phone otps)) [
    | inl alone ↦
        let same : some o ≡ some row = rw (to, alone) at found in rw (some_injective same) at to
    | inr (p, others) ↦ elim (Bool-cases (comes_after p o)) [
      | inl later ↦
          let same : some p ≡ some row = rw (to, others, later) at found in
          newest_sent-to phone otps row (others ∙ same)
      | inr not_later ↦
          let same : some o ≡ some row = rw (to, others, not_later) at found in
          rw (some_injective same) at to
    ]
  ]
]

attempt-opened : (q : Option Bool) → (opened, false) ≡ attempt q opened
attempt-opened none = refl
attempt-opened (some right) = refl

attempt-armed : (q : Option Bool) → (armed 0, false) ≡ attempt q (armed 0)
attempt-armed none = refl
attempt-armed (some right) = refl

module _ (digest : ℕ → ℕ → Text → ℕ) (is_decimal : ℕ → Bool) (phone : ℕ) where
  -- What a call tries, at a code with this salt, this digest and this end: `none` where the text is
  -- no code, or the code has expired.
  unfoldable pub tries : ℕ → ℕ → ℕ → Text × ℕ → Option Bool
  tries salt code_hash expires_at (code, now) =
      if leb expires_at now || not (is_code is_decimal code)
      then none
      else some (digest salt phone code == code_hash)

  -- The answers of some calls in a row, with no new code in between.
  unfoldable pub verify_codes : List (Text × ℕ) → List LoginOtp → List Bool
  verify_codes [] otps = []
  verify_codes ((code, now) ∷ calls) otps =
      let (after, answer) = verify_code digest is_decimal phone code now otps in
      answer ∷ verify_codes calls after

  -- A call as a try of the lock.
  record Tried (row : LoginOtp) (call : Text × ℕ) (end : List LoginOtp × Bool) : Type 0 where
    pub new : LoginOtp
    pub found : newest_sent phone end.0 ≡ some new
    pub same_salt : new.salt ≡ row.salt
    pub same_hash : new.code_hash ≡ row.code_hash
    pub same_end : new.expires_at ≡ row.expires_at
    pub tried :
        (lock_of new, end.1)
        ≡ attempt (tries row.salt row.code_hash row.expires_at call) (lock_of row)

  guess-Tried :
      (row : LoginOtp) (code : Text) (now : ℕ)
      → is_dead now row ≡ false
      → is_code is_decimal code ≡ true
      → (lock_of (guess digest phone code now row).0, (guess digest phone code now row).1)
        ≡ attempt (tries row.salt row.code_hash row.expires_at (code, now)) (lock_of row)
  unfolding guess lock_of tries is_dead
  guess-Tried row code now alive is =
      let unspent : is_some row.consumed_at ≡ false = ground arith in
      let in_time : leb row.expires_at now ≡ false = ground arith in
      let left : max_attempts - row.attempts ≡ suc (max_attempts - (row.attempts + 1)) =
        ground arith in
      elim (Bool-cases (digest row.salt phone code == row.code_hash)) [
        | inl right ↦ rw (right, unspent, in_time, is, left)
        | inr miss ↦ rw (miss, unspent, in_time, is, left)
      ]

  -- A guess changes the tries and the time of use only.
  guess-same :
      (row : LoginOtp) (code : Text) (now : ℕ)
      → let new = (guess digest phone code now row).0 in
        (new.id ≡ row.id)
        × (new.created_at ≡ row.created_at)
        × (is_sent_to phone new ≡ is_sent_to phone row)
        × (new.salt ≡ row.salt)
        × (new.code_hash ≡ row.code_hash)
        × (new.expires_at ≡ row.expires_at)
  unfolding guess is_sent_to
  guess-same row code now = elim (Bool-cases (digest row.salt phone code == row.code_hash)) [
    | inl right ↦ rw right (refl, refl, refl, refl, refl, refl)
    | inr miss ↦ rw miss (refl, refl, refl, refl, refl, refl)
  ]

  -- A dead row answers no, and its lock would.
  dead-Tried :
      (row : LoginOtp) (code : Text) (now : ℕ)
      → is_dead now row ≡ true
      → (lock_of row, false)
        ≡ attempt (tries row.salt row.code_hash row.expires_at (code, now)) (lock_of row)
  unfolding lock_of tries is_dead
  dead-Tried row code now dead = elim (Bool-cases (is_some row.consumed_at)) [
    | inl spent ↦ rw spent (attempt-opened _)
    | inr unspent ↦ elim (Bool-cases (leb row.expires_at now)) [
      | inl late ↦ rw late
      | inr in_time ↦
          let nothing_left : max_attempts - row.attempts ≡ 0 = ground arith in
          rw (unspent, nothing_left) (attempt-armed _)
    ]
  ]

  no_code-tries :
      (row : LoginOtp) (code : Text) (now : ℕ)
      → is_code is_decimal code ≡ false
      → tries row.salt row.code_hash row.expires_at (code, now) ≡ none
  unfolding tries
  no_code-tries row code now is_none = elim (Bool-cases (leb row.expires_at now)) [
    | inl late ↦ rw late
    | inr in_time ↦ rw (in_time, is_none)
  ]

  -- One call at the newest code of a number is one try of its lock.
  verify_code-Tried :
      (row : LoginOtp) (call : Text × ℕ) (otps : List LoginOtp)
      → newest_sent phone otps ≡ some row
      → Tried row call (verify_code digest is_decimal phone call.0 call.1 otps)
  unfolding verify_code check_row
  verify_code-Tried row (code, now) otps found = elim (Bool-cases (is_code is_decimal code)) [
    | inr is_none ↦ rw is_none (same_row (rw (no_code-tries row code now is_none)))
    | inl is ↦ elim (Bool-cases (is_dead now row)) [
      | inl dead ↦ rw (is, found, dead) (same_row (dead-Tried row code now dead))
      | inr alive ↦
          let new = (guess digest phone code now row).0 in
          let (ids, times, to, salts, hashes, ends) = guess-same row code now in
          let stays : newest_sent phone (save_otp new otps) ≡ some new =
            newest_sent-save phone row new ids times (to ∙ newest_sent-to phone otps row found) otps
              found in
          rw (is, found, alive)
            (record {
              new = new;
              found = stays;
              same_salt = salts;
              same_hash = hashes;
              same_end = ends;
              tried = guess-Tried row code now alive is;
            })
    ]
  ]
    where
      same_row :
          (lock_of row, false)
            ≡ attempt (tries row.salt row.code_hash row.expires_at (code, now)) (lock_of row)
          → Tried row (code, now) (otps, false)
      same_row tried = record {
        new = row;
        found = found;
        same_salt = refl;
        same_hash = refl;
        same_end = refl;
        tried = tried;
      }

  -- Over any calls for a number that has a live or dead code, with no new code in between, the
  -- answers are those of a lock with the tries that the newest code has left: a call tries it where
  -- its text is six digits and the code has not expired.
  pub verify_codes-refines :
      (calls : List (Text × ℕ)) (otps : List LoginOtp) (row : LoginOtp)
      → newest_sent phone otps ≡ some row
      → verify_codes calls otps
        ≡ attempts (map (tries row.salt row.code_hash row.expires_at) calls) (lock_of row)
  unfolding verify_codes
  verify_codes-refines [] otps row found = refl
  verify_codes-refines (call ∷ calls) otps row found =
      let end = verify_code digest is_decimal phone call.0 call.1 otps in
      let t = verify_code-Tried row call otps found in
      let rest : verify_codes calls end.0
          ≡ attempts (map (tries row.salt row.code_hash row.expires_at) calls) (lock_of t.new) =
        rw (sym t.same_salt, sym t.same_hash, sym t.same_end)
          (verify_codes-refines calls end.0 t.new t.found) in
      rw rest (
        ap (λ p. p.1 ∷ attempts (map (tries row.salt row.code_hash row.expires_at) calls) p.0)
          t.tried)

  none-answers :
      (calls : List (Text × ℕ)) (otps : List LoginOtp)
      → newest_sent phone otps ≡ none
      → successes (verify_codes calls otps) ≡ 0
  unfolding verify_codes verify_code check_row
  none-answers [] otps missing = refl
  none-answers (call ∷ calls) otps missing =
      let idle : verify_code digest is_decimal phone call.0 call.1 otps ≡ (otps, false) =
        elim (Bool-cases (is_code is_decimal call.0)) [
          | inl is ↦ rw (is, missing)
          | inr is_none ↦ rw is_none
        ] in
      rw idle (none-answers calls otps missing)

  -- Of any calls for one number with no new code in between, one is let in at most.
  pub verify_codes-once :
      (calls : List (Text × ℕ)) (otps : List LoginOtp) → successes (verify_codes calls otps) ≤ 1
  verify_codes-once calls otps = elim (Option-cases (newest_sent phone otps)) [
    | inl missing ↦ omega (arith, none-answers calls otps missing)
    | inr (row, found) ↦
        rw (verify_codes-refines calls otps row found)
          (attempts-once (map (tries row.salt row.code_hash row.expires_at) calls) (lock_of row))
  ]

  -- Where the newest code of a number is not used yet and the wrong tries at it, those among
  -- some calls and those that were counted before, are five or more, the calls after them let
  -- nobody in, be it with the right code.
  pub verify_codes-spent :
      (calls later : List (Text × ℕ)) (otps : List LoginOtp) (row : LoginOtp)
      → newest_sent phone otps ≡ some row
      → row.consumed_at ≡ none
      → max_attempts
        ≤ wrong (map (tries row.salt row.code_hash row.expires_at) calls) + row.attempts
      → successes (verify_codes (calls ++ later) otps) ≡ successes (verify_codes calls otps)
  verify_codes-spent calls later otps row found unused spent =
      let kind = tries row.salt row.code_hash row.expires_at in
      let its_lock : lock_of row ≡ armed (max_attempts - row.attempts) =
        unfold lock_of in rw unused in
      rw
        (
          verify_codes-refines (calls ++ later) otps row found,
          verify_codes-refines calls otps row found,
          its_lock,
          map-append kind calls later,
        )
        (attempts-spent (map kind calls) (map kind later) (max_attempts - row.attempts)
          (omega arith))
