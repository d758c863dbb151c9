-- ===== src/SignIn/Attempts.antt =====
-- services/wa_login.py: the sign-in in which the mobed messages us, and the routes that use it.
use agyary.Common.{
  ℕ, ◌+◌, Option, none, some, is_some, List, [], ◌∷◌, Bool, true, false, not, ◌||◌, ltb, leb, ◌==◌,
  if◌then◌else◌, Text, text_eq, strip,
}

-- A row of wa_login_attempts. Secrets, digests and numbers of phones stand as numbers.
pub record WaLoginAttempt : Type 0 where
  pub id : ℕ
  pub code : Text
  pub poll_secret_hash : ℕ
  pub expires_at : ℕ
  pub claimed_phone : Option ℕ
  pub claimed_at : Option ℕ
  pub claimed_wa_user_id : Option ℕ
  pub confirm_hash : Option ℕ
  pub confirm_attempts : ℕ

abbrev pub confirm_max_attempts : ℕ
confirm_max_attempts = 5

unfoldable pub is_expired : ℕ → WaLoginAttempt → Bool
is_expired now row = ltb row.expires_at now

-- The sweep of `start`
unfoldable pub drop_expired : ℕ → List WaLoginAttempt → List WaLoginAttempt
drop_expired now [] = []
drop_expired now (row ∷ rows) =
    let rest = drop_expired now rows in if is_expired now row then rest else row ∷ rest

unfoldable pub find_code : Text → List WaLoginAttempt → Option WaLoginAttempt
find_code code [] = none
find_code code (row ∷ rows) =
    let later = find_code code rows in if text_eq row.code code then some row else later

-- `peek`, of the digest of the secret
unfoldable pub peek : ℕ → List WaLoginAttempt → Option WaLoginAttempt
peek hash [] = none
peek hash (row ∷ rows) =
    let later = peek hash rows in if row.poll_secret_hash == hash then some row else later

-- The row with the id of a row becomes that row.
unfoldable pub save_attempt : WaLoginAttempt → List WaLoginAttempt → List WaLoginAttempt
save_attempt row [] = []
save_attempt row (other ∷ rows) =
    (if other.id == row.id then row else other) ∷ save_attempt row rows

abbrev pub new_attempt : ℕ → Text → ℕ → ℕ → Option ℕ → Option ℕ → WaLoginAttempt
new_attempt id code hash expires_at phone claimed_at = record {
  id = id;
  code = code;
  poll_secret_hash = hash;
  expires_at = expires_at;
  claimed_phone = phone;
  claimed_at = claimed_at;
  claimed_wa_user_id = none;
  confirm_hash = none;
  confirm_attempts = 0;
}

-- `start`, where the number to message is configured: the sweep and the new row.
unfoldable pub start :
    Bool → ℕ → Text → ℕ → ℕ → ℕ → List WaLoginAttempt → Option (List WaLoginAttempt)
start configured id code hash ttl now rows =
    if not configured
    then none
    else some (new_attempt id code hash (now + ttl) none none ∷ drop_expired now rows)

unfoldable pub create_claimed : ℕ → Text → ℕ → ℕ → ℕ → ℕ → List WaLoginAttempt → List WaLoginAttempt
create_claimed id code hash ttl phone now rows =
    new_attempt id code hash (now + ttl) (some phone) (some now) ∷ rows

unfoldable pub claim_row : Option ℕ → Option ℕ → ℕ → Option WaLoginAttempt → Option WaLoginAttempt
claim_row phone wa_user_id now none = none
claim_row phone wa_user_id now (some row) =
    if is_some row.claimed_at || is_expired now row
    then none
    else some (record row {
      claimed_phone = phone;
      claimed_wa_user_id = wa_user_id;
      claimed_at = some now;
    })

-- The claimed row, which is to be saved.
unfoldable pub claim : Text → Option ℕ → Option ℕ → ℕ → List WaLoginAttempt → Option WaLoginAttempt
claim code phone wa_user_id now rows = claim_row phone wa_user_id now (find_code code rows)

-- `consume`
unfoldable pub consume : ℕ → List WaLoginAttempt → List WaLoginAttempt
consume hash [] = []
consume hash (row ∷ rows) =
    let rest = consume hash rows in if row.poll_secret_hash == hash then rest else row ∷ rest

unfoldable pub save_claimed : Option WaLoginAttempt → List WaLoginAttempt → List WaLoginAttempt
save_claimed none rows = rows
save_claimed (some row) rows = save_attempt row rows

-- A message whose number WhatsApp withheld.
unfoldable pub process_nameless : Text → Option ℕ → ℕ → List WaLoginAttempt → List WaLoginAttempt
process_nameless code wa_user_id now rows = save_claimed (claim code none wa_user_id now rows) rows

-- The phone of an attempt that waits for no number.
unfoldable pub released_by : Option WaLoginAttempt → Option ℕ
released_by none = none
released_by (some row) =
    if not (is_some row.claimed_at) || is_some row.confirm_hash then none else row.claimed_phone

unfoldable pub peek_claimed_phone : ℕ → List WaLoginAttempt → Option ℕ
peek_claimed_phone hash rows = released_by (peek hash rows)

-- What became of a message with a code in it: no live attempt, or the attempt is claimed, and a
-- number was sent to the phone or was not.
pub data Claimed : Type 0 where
  no_attempt : Claimed
  number_asked not_asked : ℕ → Claimed

-- What the browser is told.
pub data Polled : Type 0 where
  still_pending no_number asks_number : Polled
  released : ℕ → Polled

-- `digest hash number` is the digest of a confirmation number, salted by that of the secret.
module _ (digest : ℕ → Text → ℕ) where
  unfoldable pub require_confirmation : Text → WaLoginAttempt → WaLoginAttempt
  require_confirmation number row = record row {
    confirm_hash = some (digest row.poll_secret_hash number);
    confirm_attempts = 0;
  }

  -- A number that is typed is checked against the digest that is kept.
  unfoldable pub check_number : Text → WaLoginAttempt → ℕ → WaLoginAttempt × Bool
  check_number number row hash =
      if digest row.poll_secret_hash (strip number) == hash
      then (record row { confirm_hash = none; confirm_attempts = row.confirm_attempts + 1 }, true)
      else (record row { confirm_attempts = row.confirm_attempts + 1 }, false)

  unfoldable pub confirm_kept : Text → ℕ → WaLoginAttempt → Option ℕ → WaLoginAttempt × Bool
  confirm_kept number now row none = (row, false)
  confirm_kept number now row (some hash) =
      if leb confirm_max_attempts row.confirm_attempts || is_expired now row
      then (row, false)
      else check_number number row hash

  unfoldable pub confirm : Text → ℕ → WaLoginAttempt → WaLoginAttempt × Bool
  confirm number now row = confirm_kept number now row row.confirm_hash

  -- The end of `_process_message`: `asks` says that the confirmation is on and can be sent, and
  -- `is_sent` that it was.
  unfoldable pub ask :
      Bool
      → Bool
      → Text
      → Option WaLoginAttempt
      → List WaLoginAttempt
      → List WaLoginAttempt × Claimed
  ask asks is_sent number none rows = (rows, no_attempt)
  ask asks is_sent number (some row) rows =
      if not asks
      then (save_attempt row rows, not_asked row.id)
      else if is_sent
      then (save_attempt (require_confirmation number row) rows, number_asked row.id)
      else (
        save_attempt (record (require_confirmation number row) { confirm_hash = none }) rows,
        not_asked row.id,
      )

  unfoldable pub process_sign_in :
      Bool
      → Bool
      → Text
      → Text
      → ℕ
      → Option ℕ
      → ℕ
      → List WaLoginAttempt
      → List WaLoginAttempt × Claimed
  process_sign_in asks is_sent number code phone wa_user_id now rows =
      ask asks is_sent number (claim code (some phone) wa_user_id now rows) rows

  -- The guard of the route, and the call of `confirm`.
  unfoldable pub confirm_attempt :
      Text → ℕ → Option WaLoginAttempt → List WaLoginAttempt → List WaLoginAttempt × Option ℕ
  confirm_attempt number now none rows = (rows, none)
  confirm_attempt number now (some row) rows =
      if not (is_some row.claimed_phone) || not (is_some row.confirm_hash)
      then (rows, none)
      else let (after, right) = confirm number now row in
        (save_attempt after rows, (if right then some row.id else none))

  -- The route of a typed number: the rows, and the attempt that it finished.
  unfoldable pub wa_login_confirm :
      Text → ℕ → ℕ → List WaLoginAttempt → List WaLoginAttempt × Option ℕ
  wa_login_confirm number hash now rows = confirm_attempt number now (peek hash rows) rows

unfoldable pub poll_row : Option WaLoginAttempt → Polled
poll_row none = still_pending
poll_row (some row) = elim row.claimed_at [
  | none ↦ still_pending
  | some at ↦ elim row.claimed_phone [
    | none ↦ no_number
    | some phone ↦ (if is_some row.confirm_hash then asks_number else released phone)
  ]
]

-- An attempt that was claimed with no number is spent.
unfoldable pub end_poll : ℕ → List WaLoginAttempt → Polled → List WaLoginAttempt × Polled
end_poll hash rows no_number = (consume hash rows, no_number)
end_poll hash rows told = (rows, told)

unfoldable pub wa_login_poll : ℕ → List WaLoginAttempt → List WaLoginAttempt × Polled
wa_login_poll hash rows = end_poll hash rows (poll_row (peek hash rows))
