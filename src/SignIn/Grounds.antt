-- ===== src/SignIn/Grounds.antt =====
-- Why each attempt of a WhatsApp sign-in names its phone.
use agyary.Common.{
  ℕ, ◌<◌, ◌≡◌, refl, sym, ap, ◌∙◌, subst, ◌⊎◌, inl, inr, Option, none, some, is_some, Option-cases,
  some_injective, List, [], ◌∷◌, Bool, true, false, ◌&&◌, ◌||◌, ◌==◌, Bool-cases, Text, text_eq,
  text_eq_iff, strip, All, Among,
}
use agyary.SignIn.{LoginOtp, max_attempts}
use agyary.SignIn.Verify.{code_or_stripped, extract_code}
use agyary.SignIn.Attempts.{
  WaLoginAttempt, is_expired, drop_expired, find_code, peek, save_attempt, claim_row, claim,
  consume,
}

-- What came from outside so far, whatever the code made of it: a message with a code from a phone,
-- with whether the confirmation is on, whether the number went out, and which number that is; a
-- number that the browser with a secret typed; a text that was typed for a phone's code, with the
-- time and the codes that were kept then.
pub data Event : Type 0 where
  message_from : Text → ℕ → Bool → Bool → Text → Event
  number_typed : ℕ → Text → Event
  code_typed : ℕ → Text → ℕ → List LoginOtp → Event

module _ (is_decimal : ℕ → Bool) (code_digest : ℕ → ℕ → Text → ℕ) (digest : ℕ → Text → ℕ) where
  -- A text was typed for the phone whose code has the digest of a code that had been sent to that
  -- phone, was not used, not expired, and not guessed at five times.
  pub record Proven (log : List Event) (phone : ℕ) : Type 0 where
    pub text : Text
    pub now : ℕ
    pub otps : List LoginOtp
    pub otp : LoginOtp
    pub typed : Among (code_typed phone text now otps) log
    pub kept : Among otp otps
    pub its_phone : otp.phone ≡ phone
    pub right :
        code_digest otp.salt phone (code_or_stripped is_decimal text (extract_code is_decimal text))
        ≡ otp.code_hash
    pub unused : otp.consumed_at ≡ none
    pub alive : now < otp.expires_at
    pub tries_left : otp.attempts < max_attempts

  -- The number that was sent was not asked for, or a number with its digest was typed by the browser
  -- with the secret of the attempt.
  abbrev pub Confirmed : List Event → ℕ → Bool → Bool → Text → Type 0
  Confirmed log hash asks is_sent number =
      ((asks && is_sent) ≡ false)
      ⊎ ((text : Text) × Among (number_typed hash text) log
          × (digest hash (strip text) ≡ digest hash number))

  -- A message with the code of the attempt came from the phone, and is confirmed.
  pub record Messaged (log : List Event) (row : WaLoginAttempt) (phone : ℕ) : Type 0 where
    pub asks : Bool
    pub is_sent : Bool
    pub number : Text
    pub came : Among (message_from row.code phone asks is_sent number) log
    pub confirmed : Confirmed log row.poll_secret_hash asks is_sent number

  -- Why a row names its phone.
  pub data Grounds (log : List Event) (row : WaLoginAttempt) : Type 0 where
    nobody : row.claimed_phone ≡ none → Grounds log row
    waiting :
        (phone : ℕ) (number : Text)
        → row.claimed_phone ≡ some phone
        → row.confirm_hash ≡ some (digest row.poll_secret_hash number)
        → Among (message_from row.code phone true true number) log
        → Grounds log row
    done : (phone : ℕ) → row.claimed_phone ≡ some phone → Messaged log row phone → Grounds log row
    proven : (phone : ℕ) → row.claimed_phone ≡ some phone → Proven log phone → Grounds log row

  Confirmed-later :
      (e : Event) (log : List Event) (hash : ℕ) (asks is_sent : Bool) (number : Text)
      → Confirmed log hash asks is_sent number
      → Confirmed (e ∷ log) hash asks is_sent number
  Confirmed-later e log hash asks is_sent number (inl free) = inl free
  Confirmed-later e log hash asks is_sent number (inr (text, typed, same)) =
      inr (text, inr typed, same)

  pub Proven-later :
      (e : Event) (log : List Event) (phone : ℕ) → Proven log phone → Proven (e ∷ log) phone
  Proven-later e log phone p = record {
    text = p.text;
    now = p.now;
    otps = p.otps;
    otp = p.otp;
    typed = inr p.typed;
    kept = p.kept;
    its_phone = p.its_phone;
    right = p.right;
    unused = p.unused;
    alive = p.alive;
    tries_left = p.tries_left;
  }

  pub Grounds-later :
      (e : Event) (log : List Event) (row : WaLoginAttempt)
      → Grounds log row
      → Grounds (e ∷ log) row
  Grounds-later e log row (nobody n) = nobody n
  Grounds-later e log row (waiting phone number p h m) = waiting phone number p h (inr m)
  Grounds-later e log row (done phone p m) = done phone p (record {
    asks = m.asks;
    is_sent = m.is_sent;
    number = m.number;
    came = inr m.came;
    confirmed = Confirmed-later e log row.poll_secret_hash m.asks m.is_sent m.number m.confirmed;
  })
  Grounds-later e log row (proven phone p c) = proven phone p (Proven-later e log phone c)

  abbrev pub Grounded : List Event → List WaLoginAttempt → Type 0
  Grounded log rows = All (Grounds log) rows

  pub Grounded-later :
      (e : Event) (log : List Event) (rows : List WaLoginAttempt)
      → Grounded log rows
      → Grounded (e ∷ log) rows
  Grounded-later e log [] g = tt
  Grounded-later e log (row ∷ rows) g = (Grounds-later e log row g.0, Grounded-later e log rows g.1)

module _ (P : WaLoginAttempt → Type 0) where
  pub save_attempt-All :
      (row : WaLoginAttempt) (rows : List WaLoginAttempt)
      → P row
      → All P rows
      → All P (save_attempt row rows)
  unfolding save_attempt
  save_attempt-All row [] g gs = tt
  save_attempt-All row (other ∷ rows) g gs = elim (Bool-cases (other.id == row.id)) [
    | inl own ↦ rw own (g, save_attempt-All row rows g gs.1)
    | inr not_own ↦ rw not_own (gs.0, save_attempt-All row rows g gs.1)
  ]

  pub drop_expired-All :
      (now : ℕ) (rows : List WaLoginAttempt) → All P rows → All P (drop_expired now rows)
  unfolding drop_expired
  drop_expired-All now [] g = tt
  drop_expired-All now (row ∷ rows) g = elim (Bool-cases (is_expired now row)) [
    | inl old ↦ rw old (drop_expired-All now rows g.1)
    | inr live ↦ rw live (g.0, drop_expired-All now rows g.1)
  ]

  pub consume-All : (hash : ℕ) (rows : List WaLoginAttempt) → All P rows → All P (consume hash rows)
  unfolding consume
  consume-All hash [] g = tt
  consume-All hash (row ∷ rows) g = elim (Bool-cases (row.poll_secret_hash == hash)) [
    | inl its ↦ rw its (consume-All hash rows g.1)
    | inr others ↦ rw others (g.0, consume-All hash rows g.1)
  ]

  -- The row of a secret is one of the rows, and has that secret.
  pub peek-All :
      (hash : ℕ) (rows : List WaLoginAttempt) (row : WaLoginAttempt)
      → peek hash rows ≡ some row
      → All P rows
      → P row × ((row.poll_secret_hash == hash) ≡ true)
  unfolding peek
  peek-All hash [] row found g = absurd (let e : none ≡ some row = found in (cc))
  peek-All hash (other ∷ rows) row found g = elim (Bool-cases (other.poll_secret_hash == hash)) [
    | inl its ↦
        let same : other ≡ row = some_injective (rw its at found) in
        (subst P same g.0, subst (λ r. (r.poll_secret_hash == hash) ≡ true) same its)
    | inr not_its ↦ peek-All hash rows row (rw not_its at found) g.1
  ]

find_code-code :
    (code : Text) (rows : List WaLoginAttempt) (row : WaLoginAttempt)
    → find_code code rows ≡ some row
    → row.code ≡ code
unfolding find_code
find_code-code code [] row found = absurd (let e : none ≡ some row = found in (cc))
find_code-code code (other ∷ rows) row found = elim (Bool-cases (text_eq other.code code)) [
  | inl its ↦
      let same : some other ≡ some row = rw its at found in
      ap (λ r. r.code) (sym (some_injective same)) ∙ (text_eq_iff other.code code).0 its
  | inr not_its ↦ find_code-code code rows row (rw not_its at found)
]

-- A claimed row has the code and the phone of the message.
pub claim-row :
    (code : Text) (phone wa_user_id : Option ℕ) (now : ℕ) (rows : List WaLoginAttempt)
    (row : WaLoginAttempt)
    → claim code phone wa_user_id now rows ≡ some row
    → (row.code ≡ code) × (row.claimed_phone ≡ phone)
unfolding claim claim_row
claim-row code phone wa_user_id now rows row found = elim (Option-cases (find_code code rows)) [
  | inl missing ↦ absurd (let e : none ≡ some row = rw missing at found in (cc))
  | inr (old, its) ↦ elim (Bool-cases (is_some old.claimed_at || is_expired now old)) [
    | inl late ↦ absurd (let e : none ≡ some row = rw (its, late) at found in (cc))
    | inr live ↦
        let same : some (record old {
          claimed_phone = phone;
          claimed_wa_user_id = wa_user_id;
          claimed_at = some now;
        })
            ≡ some row =
          rw (its, live) at found in
        rw (← some_injective same) (find_code-code code rows old its, refl)
  ]
]
