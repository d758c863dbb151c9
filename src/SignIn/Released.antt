-- ===== src/SignIn/Released.antt =====
-- A phone is given to a browser only for a message that came from that phone.
use agyary.Common.{
  ℕ, ◌≡◌, refl, sym, ◌∙◌, subst, ◌⊎◌, inl, inr, Option, none, some, is_some, Option-cases,
  some_injective, List, [], ◌∷◌, Bool, true, false, not, ◌||◌, Bool-cases, Text, arith,
}
use agyary.SignIn.{LoginOtp, verify_code}
use agyary.SignIn.Verify.{otp_verify, code_or_stripped, extract_code}
use agyary.SignIn.Attempts.{
  WaLoginAttempt, peek, start, create_claimed, consume, released_by, peek_claimed_phone,
  process_sign_in, process_nameless, wa_login_confirm, wa_login_poll, poll_row,
}
use agyary.SignIn.Grounds.{
  Event, message_from, number_typed, code_typed, Grounds, nobody, waiting, done, proven, Proven,
  Messaged, Grounded, Grounded-later, drop_expired-All, consume-All, peek-All,
}
use agyary.SignIn.Writes.{
  verify_code-Proven, wa_login_confirm-Grounded, process_sign_in-Grounded,
  process_nameless-Grounded, end_poll-Grounded,
}

-- What the webhook, the routes and the other sign-in do to the table, and what is logged of it.
pub data Step (is_decimal : ℕ → Bool) (code_digest : ℕ → ℕ → Text → ℕ) (digest : ℕ → Text → ℕ)
    (rows : List WaLoginAttempt) (log : List Event)
    : List WaLoginAttempt × List Event → Type 0 where
  starts :
      (id : ℕ) (code : Text) (hash ttl now : ℕ) (after : List WaLoginAttempt)
      → start true id code hash ttl now rows ≡ some after
      → Step is_decimal code_digest digest rows log (after, log)
  receives :
      (asks is_sent : Bool) (number code : Text) (phone : ℕ) (wa_user_id : Option ℕ) (now : ℕ)
      → Step is_decimal code_digest digest rows log (
        (process_sign_in digest asks is_sent number code phone wa_user_id now rows).0,
        message_from code phone asks is_sent number ∷ log,
      )
  receives_nameless :
      (code : Text) (wa_user_id : Option ℕ) (now : ℕ)
      → Step is_decimal code_digest digest rows log (process_nameless code wa_user_id now rows, log)
  types_code :
      (id : ℕ) (code : Text) (hash ttl phone : ℕ) (typed : Text) (now : ℕ) (otps : List LoginOtp)
      → Step is_decimal code_digest digest rows log (
        (otp_verify is_decimal code_digest id code hash ttl phone typed now otps rows).1,
        code_typed phone typed now otps ∷ log,
      )
  types :
      (number : Text) (hash now : ℕ)
      → Step is_decimal code_digest digest rows log
          ((wa_login_confirm digest number hash now rows).0, number_typed hash number ∷ log)
  polls :
      (hash : ℕ) → Step is_decimal code_digest digest rows log ((wa_login_poll hash rows).0, log)
  consumes : (hash : ℕ) → Step is_decimal code_digest digest rows log (consume hash rows, log)

-- The tables that are reached from an empty one.
pub data Reached (is_decimal : ℕ → Bool) (code_digest : ℕ → ℕ → Text → ℕ) (digest : ℕ → Text → ℕ)
    : List WaLoginAttempt × List Event → Type 0 where
  empty : Reached is_decimal code_digest digest ([], [])
  after_step :
      (rows : List WaLoginAttempt) (log : List Event) (next : List WaLoginAttempt × List Event)
      → Reached is_decimal code_digest digest (rows, log)
      → Step is_decimal code_digest digest rows log next
      → Reached is_decimal code_digest digest next

module _ (is_decimal : ℕ → Bool) (code_digest : ℕ → ℕ → Text → ℕ) (digest : ℕ → Text → ℕ) where
  start-Grounded :
      (id : ℕ) (code : Text) (hash ttl now : ℕ) (log : List Event)
      (rows after : List WaLoginAttempt)
      → start true id code hash ttl now rows ≡ some after
      → Grounded is_decimal code_digest digest log rows
      → Grounded is_decimal code_digest digest log after
  unfolding start
  start-Grounded id code hash ttl now log rows after e g =
      subst (Grounded is_decimal code_digest digest log) (some_injective e)
        (nobody refl, drop_expired-All (Grounds is_decimal code_digest digest log) now rows g)

  -- A claimed attempt is made only for a code that proves its phone.
  otp_verify-Grounded :
      (id : ℕ) (code : Text) (hash ttl phone : ℕ) (typed : Text) (now : ℕ) (otps : List LoginOtp)
      (log : List Event) (rows : List WaLoginAttempt)
      → Grounded is_decimal code_digest digest log rows
      → Grounded is_decimal code_digest digest
          (code_typed phone typed now otps ∷ log)
          (otp_verify is_decimal code_digest id code hash ttl phone typed now otps rows).1
  unfolding otp_verify create_claimed
  otp_verify-Grounded id code hash ttl phone typed now otps log rows g =
      let all = Grounded-later is_decimal code_digest digest _ log rows g in
      elim (Bool-cases
        (verify_code code_digest is_decimal phone
          (code_or_stripped is_decimal typed (extract_code is_decimal typed)) now otps).1) [
            | inl right ↦ rw right (
              proven phone refl
                  (verify_code-Proven is_decimal code_digest digest log phone typed now otps right),
              all,
            )
            | inr miss ↦ rw miss all
          ]

  Step-Grounded :
      (rows : List WaLoginAttempt) (log : List Event) (next : List WaLoginAttempt × List Event)
      → Grounded is_decimal code_digest digest log rows
      → Step is_decimal code_digest digest rows log next
      → Grounded is_decimal code_digest digest next.1 next.0
  unfolding wa_login_poll
  Step-Grounded rows log next g (starts id code hash ttl now after e) =
      start-Grounded id code hash ttl now log rows after e g
  Step-Grounded rows log next g (receives asks is_sent number code phone wa_user_id now) =
      process_sign_in-Grounded is_decimal code_digest digest log rows g asks is_sent number code
        phone wa_user_id now
  Step-Grounded rows log next g (receives_nameless code wa_user_id now) =
      process_nameless-Grounded is_decimal code_digest digest log rows g code wa_user_id now
  Step-Grounded rows log next g (types_code id code hash ttl phone typed now otps) =
      otp_verify-Grounded id code hash ttl phone typed now otps log rows g
  Step-Grounded rows log next g (types number hash now) =
      wa_login_confirm-Grounded is_decimal code_digest digest log rows g number hash now
  Step-Grounded rows log next g (polls hash) =
      end_poll-Grounded is_decimal code_digest digest log rows g hash (poll_row (peek hash rows))
  Step-Grounded rows log next g (consumes hash) =
      consume-All (Grounds is_decimal code_digest digest log) hash rows g

  pub Reached-Grounded :
      (w : List WaLoginAttempt × List Event)
      → Reached is_decimal code_digest digest w
      → Grounded is_decimal code_digest digest w.1 w.0
  Reached-Grounded w empty = tt
  Reached-Grounded w (after_step rows log next r s) =
      Step-Grounded rows log next (Reached-Grounded (rows, log) r) s

released_by-row :
    (row : WaLoginAttempt) (phone : ℕ)
    → released_by (some row) ≡ some phone
    → (row.claimed_phone ≡ some phone) × (is_some row.confirm_hash ≡ false)
unfolding released_by
released_by-row row phone e =
    elim (Bool-cases (not (is_some row.claimed_at) || is_some row.confirm_hash)) [
      | inl held ↦ absurd (let f : none ≡ some phone = rw held at e in (cc))
      | inr free ↦ (rw free at e, ground arith)
    ]

-- Why a phone may be given to the browser that started an attempt.
abbrev pub MayRelease :
    (ℕ → Bool) → (ℕ → ℕ → Text → ℕ) → (ℕ → Text → ℕ) → List Event → WaLoginAttempt → ℕ → Type 0
MayRelease is_decimal code_digest digest log row phone =
    Proven is_decimal code_digest digest log phone
    ⊎ Messaged is_decimal code_digest digest log row phone

module _ (is_decimal : ℕ → Bool) (code_digest : ℕ → ℕ → Text → ℕ) (digest : ℕ → Text → ℕ) where
  Grounds-MayRelease :
      (log : List Event) (row : WaLoginAttempt) (phone : ℕ)
      → row.claimed_phone ≡ some phone
      → is_some row.confirm_hash ≡ false
      → Grounds is_decimal code_digest digest log row
      → MayRelease is_decimal code_digest digest log row phone
  Grounds-MayRelease log row phone its open_row (nobody n) =
      absurd (let f : none ≡ some phone = sym n ∙ its in (cc))
  Grounds-MayRelease log row phone its open_row (waiting p number claimed kept m) =
      absurd (let f : true ≡ false = rw kept at open_row in (cc))
  Grounds-MayRelease log row phone its open_row (done p claimed m) = inr (
      subst (Messaged is_decimal code_digest digest log row) (some_injective (sym claimed ∙ its)) m)
  Grounds-MayRelease log row phone its open_row (proven p claimed c) =
      inl (subst (Proven is_decimal code_digest digest log) (some_injective (sym claimed ∙ its)) c)

  -- In every table that the steps reach, a phone is given to a browser only by the attempt of its
  -- secret, and only where a text was typed for that phone whose code has the digest of a code that
  -- was kept for the phone, not used, not expired and not guessed at five times; or where a message
  -- with the attempt's code came from that phone and the confirmation was off or could not be sent,
  -- or a number was typed with the attempt's secret that has the digest of the number sent for that
  -- message.
  pub peek_claimed_phone-MayRelease :
      (rows : List WaLoginAttempt) (log : List Event) (hash phone : ℕ)
      → Reached is_decimal code_digest digest (rows, log)
      → peek_claimed_phone hash rows ≡ some phone
      → (row : WaLoginAttempt) × (peek hash rows ≡ some row)
        × MayRelease is_decimal code_digest digest log row phone
  unfolding peek_claimed_phone
  peek_claimed_phone-MayRelease rows log hash phone r e = elim (Option-cases (peek hash rows)) [
    | inl missing ↦
        absurd (let f : none ≡ some phone = unfold released_by in rw missing at e in (cc))
    | inr (row, found) ↦
        let (its_phone, confirmed) = released_by-row row phone (rw found at e) in
        (
          row,
          found,
          Grounds-MayRelease log row phone its_phone confirmed
              (peek-All (Grounds is_decimal code_digest digest log) hash rows row found
                (Reached-Grounded is_decimal code_digest digest (rows, log) r)).0,
        )
  ]
