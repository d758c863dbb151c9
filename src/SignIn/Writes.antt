-- ===== src/SignIn/Writes.antt =====
-- Each operation of a WhatsApp sign-in leaves attempts whose phones have their grounds.
use agyary.Common.{
  ℕ, ◌+◌, ◌≡◌, refl, sym, ap, ◌∙◌, subst, inl, inr, Option, none, some, is_some, Option-cases, List,
  [], ◌∷◌, Bool, true, false, not, ◌||◌, leb, ◌==◌, Bool-cases, Text, strip, Among, some_injective,
  arith,
}
use agyary.SignIn.{
  LoginOtp, comes_after, newer, is_sent_to, newest_sent, is_dead, is_code, guess, check_row,
  verify_code,
}
use agyary.SignIn.Verify.{code_or_stripped, extract_code}
use agyary.SignIn.Attempts.{
  WaLoginAttempt, confirm_max_attempts, is_expired, peek, claim, require_confirmation, check_number,
  confirm, ask, process_sign_in, process_nameless, confirm_attempt, wa_login_confirm, end_poll,
  save_claimed, confirm_kept, Polled, no_number, still_pending, asks_number, released,
}
use agyary.SignIn.Grounds.{
  Event, message_from, number_typed, code_typed, Grounds, nobody, waiting, done, proven, Proven,
  Grounded, Proven-later, Grounds-later, Grounded-later, save_attempt-All, consume-All, peek-All,
  claim-row,
}

-- The newest code of a phone is one that was kept, and is of that phone.
newest_sent-Among :
    (phone : ℕ) (otps : List LoginOtp) (o : LoginOtp)
    → newest_sent phone otps ≡ some o
    → Among o otps × (o.phone ≡ phone)
unfolding newest_sent is_sent_to newer
newest_sent-Among phone [] o e = absurd (cc)
newest_sent-Among phone (p ∷ otps) o e = elim (Bool-cases (is_sent_to phone p)) [
  | inr other ↦ let (at, its) = newest_sent-Among phone otps o (rw other at e) in (inr at, its)
  | inl own ↦ elim (Option-cases (newest_sent phone otps)) [
    | inl no_other ↦
        let same : p ≡ o = some_injective (rw (own, no_other) at e) in
        (inl (sym same), subst (λ x. x.phone ≡ phone) same (ground arith))
    | inr (q, found) ↦ elim (Bool-cases (comes_after q p)) [
      | inl later ↦
          let same : q ≡ o = some_injective (rw (own, found, later) at e) in
          let (at, its) = newest_sent-Among phone otps o (found ∙ ap some same) in (inr at, its)
      | inr earlier ↦
          let same : p ≡ o = some_injective (rw (own, found, earlier) at e) in
          (inl (sym same), subst (λ x. x.phone ≡ phone) same (ground arith))
    ]
  ]
]

is_none : {A : Type 0} (o : Option A) → is_some o ≡ false → o ≡ none
is_none none h = refl
is_none (some a) h = absurd (cc)

module _ (is_decimal : ℕ → Bool) (code_digest : ℕ → ℕ → Text → ℕ) (digest : ℕ → Text → ℕ) where
  -- A text that `verify_code` lets in proves the phone.
  pub verify_code-Proven :
      (log : List Event) (phone : ℕ) (text : Text) (now : ℕ) (otps : List LoginOtp)
      → (verify_code code_digest is_decimal phone
          (code_or_stripped is_decimal text (extract_code is_decimal text))
          now
          otps).1
        ≡ true
      → Proven is_decimal code_digest digest (code_typed phone text now otps ∷ log) phone
  unfolding verify_code check_row guess is_dead
  verify_code-Proven log phone text now otps e =
      let code = code_or_stripped is_decimal text (extract_code is_decimal text) in
      elim (Bool-cases (not (is_code is_decimal code))) [
        | inl bad ↦ absurd (let k : false ≡ true = rw bad at e in (cc))
        | inr fine ↦ elim (Option-cases (newest_sent phone otps)) [
          | inl none_sent ↦ absurd (let k : false ≡ true = rw (fine, none_sent) at e in (cc))
          | inr (o, found) ↦ elim (Bool-cases (is_dead now o)) [
            | inl dead ↦ absurd (let k : false ≡ true = rw (fine, found, dead) at e in (cc))
            | inr alive ↦ elim (Bool-cases (code_digest o.salt phone code == o.code_hash)) [
              | inr miss ↦
                  absurd (let k : false ≡ true = rw (fine, found, alive, miss) at e in (cc))
              | inl right ↦
                  let (at, its) = newest_sent-Among phone otps o found in
                  record {
                    text = text;
                    now = now;
                    otps = otps;
                    otp = o;
                    typed = inl refl;
                    kept = at;
                    its_phone = its;
                    right = ground arith;
                    unused = is_none o.consumed_at (ground arith);
                    alive = ground arith;
                    tries_left = ground arith;
                  }
            ]
          ]
        ]
      ]

  abbrev G : List Event → WaLoginAttempt → Type 0
  G = Grounds is_decimal code_digest digest

  abbrev later : (e : Event) (log : List Event) (row : WaLoginAttempt) → G log row → G (e ∷ log) row
  later = Grounds-later is_decimal code_digest digest

  -- One more try, right or wrong, of a number that was typed by the browser of the row.
  check_number-Grounds :
      (number : Text) (log : List Event) (row : WaLoginAttempt) (hash : ℕ)
      → row.confirm_hash ≡ some hash
      → G log row
      → G (number_typed row.poll_secret_hash number ∷ log) (check_number digest number row hash).0
  unfolding check_number
  check_number-Grounds number log row hash kept g =
      elim (Bool-cases (digest row.poll_secret_hash (strip number) == hash)) [
        | inl right ↦ rw right (typed (ground (arith, right)) g)
        | inr miss ↦ rw miss (counted (later (number_typed row.poll_secret_hash number) log row g))
      ]
    where
      typed :
          digest row.poll_secret_hash (strip number) ≡ hash
          → G log row
          → G
              (number_typed row.poll_secret_hash number ∷ log)
              (record row { confirm_hash = none; confirm_attempts = row.confirm_attempts + 1 })
      typed same (nobody n) = nobody n
      typed same (waiting phone sent p k m) = done phone p (record {
        asks = true;
        is_sent = true;
        number = sent;
        came = inr m;
        confirmed = inr (number, inl refl, same ∙ some_injective (sym kept ∙ k));
      })
      typed same (done phone p m) = done phone p (record {
        asks = m.asks;
        is_sent = m.is_sent;
        number = m.number;
        came = inr m.came;
        confirmed = elim m.confirmed [
          | inl free ↦ inl free
          | inr (text, at, its) ↦ inr (text, inr at, its)
        ];
      })
      typed same (proven phone p c) = proven phone p (
          Proven-later is_decimal code_digest digest (number_typed row.poll_secret_hash number) log
            phone c)

      counted :
          G (number_typed row.poll_secret_hash number ∷ log) row
          → G
              (number_typed row.poll_secret_hash number ∷ log)
              (record row { confirm_attempts = row.confirm_attempts + 1 })
      counted (nobody n) = nobody n
      counted (waiting phone sent p k m) = waiting phone sent p k m
      counted (done phone p m) = done phone p (record {
        asks = m.asks;
        is_sent = m.is_sent;
        number = m.number;
        came = m.came;
        confirmed = m.confirmed;
      })
      counted (proven phone p c) = proven phone p c

  confirm_kept-Grounds :
      (number : Text) (now : ℕ) (log : List Event) (row : WaLoginAttempt) (kept : Option ℕ)
      → row.confirm_hash ≡ kept
      → G log row
      → G
          (number_typed row.poll_secret_hash number ∷ log)
          (confirm_kept digest number now row kept).0
  unfolding confirm_kept
  confirm_kept-Grounds number now log row none its g =
      later (number_typed row.poll_secret_hash number) log row g
  confirm_kept-Grounds number now log row (some hash) its g =
      elim (Bool-cases (leb confirm_max_attempts row.confirm_attempts || is_expired now row)) [
        | inl dead ↦ rw dead (later (number_typed row.poll_secret_hash number) log row g)
        | inr alive ↦ rw alive (check_number-Grounds number log row hash its g)
      ]

  module _ (log : List Event) (rows : List WaLoginAttempt)
      (g : Grounded is_decimal code_digest digest log rows) where
    pub wa_login_confirm-Grounded :
        (number : Text) (hash now : ℕ)
        → Grounded is_decimal code_digest digest
            (number_typed hash number ∷ log)
            (wa_login_confirm digest number hash now rows).0
    unfolding wa_login_confirm confirm_attempt confirm
    wa_login_confirm-Grounded number hash now =
        let all =
          Grounded-later is_decimal code_digest digest (number_typed hash number) log rows g in
        elim (Option-cases (peek hash rows)) [
          | inl missing ↦ rw missing all
          | inr (row, found) ↦
              let (its, own) = peek-All (G log) hash rows row found g in
              let secret : row.poll_secret_hash ≡ hash = ground (arith, own) in
              elim (Bool-cases
                (not (is_some row.claimed_phone) || not (is_some row.confirm_hash))) [
                  | inl out ↦ rw (found, out) all
                  | inr waits ↦
                      rw (found, waits)
                        (save_attempt-All (G (number_typed hash number ∷ log)) _ rows
                          (subst
                            (λ h.
                              G (number_typed h number ∷ log)
                                (confirm_kept digest number now row row.confirm_hash).0)
                            secret
                            (confirm_kept-Grounds number now log row row.confirm_hash refl its))
                          all)
                ]
        ]

    ask-Grounded :
        (asks is_sent : Bool) (number code : Text) (phone : ℕ) (row : WaLoginAttempt)
        → row.code ≡ code
        → row.claimed_phone ≡ some phone
        → Grounded is_decimal code_digest digest
            (message_from code phone asks is_sent number ∷ log)
            (ask digest asks is_sent number (some row) rows).0
    unfolding ask require_confirmation
    ask-Grounded false is_sent number code phone row its_code its_phone =
        save_attempt-All _ row rows
          (done phone its_phone (record {
            asks = false;
            is_sent = is_sent;
            number = number;
            came = inl (ap (λ c. message_from c phone false is_sent number) its_code);
            confirmed = inl refl;
          }))
          (Grounded-later is_decimal code_digest digest _ log rows g)
    ask-Grounded true true number code phone row its_code its_phone =
        save_attempt-All _ _ rows
          (waiting phone number its_phone refl
            (inl (ap (λ c. message_from c phone true true number) its_code)))
          (Grounded-later is_decimal code_digest digest _ log rows g)
    ask-Grounded true false number code phone row its_code its_phone =
        save_attempt-All _ _ rows
          (done phone its_phone (record {
            asks = true;
            is_sent = false;
            number = number;
            came = inl (ap (λ c. message_from c phone true false number) its_code);
            confirmed = inl refl;
          }))
          (Grounded-later is_decimal code_digest digest _ log rows g)

    pub process_sign_in-Grounded :
        (asks is_sent : Bool) (number code : Text) (phone : ℕ) (wa_user_id : Option ℕ) (now : ℕ)
        → Grounded is_decimal code_digest digest
            (message_from code phone asks is_sent number ∷ log)
            (process_sign_in digest asks is_sent number code phone wa_user_id now rows).0
    unfolding process_sign_in
    process_sign_in-Grounded asks is_sent number code phone wa_user_id now =
        elim (Option-cases (claim code (some phone) wa_user_id now rows)) [
          | inl missing ↦
              unfold ask in rw missing (Grounded-later is_decimal code_digest digest _ log rows g)
          | inr (row, claimed) ↦
              let (its_code, its_phone) =
                claim-row code (some phone) wa_user_id now rows row claimed in
              rw claimed (ask-Grounded asks is_sent number code phone row its_code its_phone)
        ]

    pub process_nameless-Grounded :
        (code : Text) (wa_user_id : Option ℕ) (now : ℕ)
        → Grounded is_decimal code_digest digest log (process_nameless code wa_user_id now rows)
    unfolding process_nameless save_claimed
    process_nameless-Grounded code wa_user_id now =
        elim (Option-cases (claim code none wa_user_id now rows)) [
          | inl missing ↦ rw missing g
          | inr (row, claimed) ↦ rw claimed (
              save_attempt-All (G log) row rows
                (nobody (claim-row code none wa_user_id now rows row claimed).1) g)
        ]

    pub end_poll-Grounded :
        (hash : ℕ) (told : Polled)
        → Grounded is_decimal code_digest digest log (end_poll hash rows told).0
    unfolding end_poll
    end_poll-Grounded hash no_number = consume-All (G log) hash rows g
    end_poll-Grounded hash still_pending = g
    end_poll-Grounded hash asks_number = g
    end_poll-Grounded hash (released phone) = g
