-- ===== src/Sessions.antt =====
-- services/mobed_auth.py: the sessions of signed-in devices, and the refresh tokens that name them.
pub mod Replayed
use agyary.Common.{
  ℕ, zero, suc, ◌+◌, ◌*◌, Option, none, some, is_some, List, [], ◌∷◌, Bool, true, false, not, ◌&&◌,
  ◌||◌, ltb, leb, ◌==◌, if◌then◌else◌,
}

-- A row of user_sessions, with times in seconds.
pub record UserSession : Type 0 where
  pub id : ℕ
  pub user_id : ℕ
  pub generation : ℕ
  pub created_at : ℕ
  pub last_used_at : ℕ
  pub revoked_at : Option ℕ

-- The claims of a decoded token.
pub record Claims : Type 0 where
  pub sub : ℕ
  pub sid : Option ℕ
  pub gen : Option ℕ
  pub exp : ℕ

-- A user, with the time before which tokens with no session are refused.
pub record Account : Type 0 where
  pub id : ℕ
  pub tokens_valid_after : Option ℕ

pub record SessionSettings : Type 0 where
  pub session_max_days : ℕ
  pub refresh_token_days : ℕ
  pub legacy_tokens_until : ℕ

pub record Auth : Type 0 where
  pub sessions : List UserSession
  pub accounts : List Account
  pub next_id : ℕ

-- What `rotate` gives: a session, or TokenError.
pub data Rotated : Type 0 where
  rotated : UserSession → Rotated
  refused : Rotated

-- `ROTATE_GRACE`
abbrev pub rotate_grace : ℕ
rotate_grace = 30

unfoldable pub find_session : ℕ → List UserSession → Option UserSession
find_session sid [] = none
find_session sid (s ∷ sessions) =
    let later = find_session sid sessions in if s.id == sid then some s else later

unfoldable pub save_session : UserSession → List UserSession → List UserSession
save_session s [] = []
save_session s (t ∷ sessions) = (if t.id == s.id then s else t) ∷ save_session s sessions

unfoldable pub find_account : ℕ → List Account → Option Account
find_account uid [] = none
find_account uid (a ∷ accounts) =
    let later = find_account uid accounts in if a.id == uid then some a else later

unfoldable pub save_account : Account → List Account → List Account
save_account a [] = []
save_account a (b ∷ accounts) = (if b.id == a.id then a else b) ∷ save_account a accounts

-- `session.revoked_at = now`
abbrev pub revoke : ℕ → UserSession → UserSession
revoke now s = record s { revoked_at = some now }

abbrev pub new_session : ℕ → ℕ → ℕ → UserSession
new_session id uid now = record {
  id = id;
  user_id = uid;
  generation = 0;
  created_at = now;
  last_used_at = now;
  revoked_at = none;
}

unfoldable pub start_session : ℕ → ℕ → Auth → Auth × UserSession
start_session uid now auth = (
  record auth {
    sessions = new_session auth.next_id uid now ∷ auth.sessions;
    next_id = suc auth.next_id;
  },
  new_session auth.next_id uid now,
)

-- `gen == session.generation - 1`, of a generation that may be missing
unfoldable pub is_last_generation : Option ℕ → ℕ → Bool
is_last_generation none generation = false
is_last_generation (some gen) generation = suc gen == generation

unfoldable pub is_generation : Option ℕ → ℕ → Bool
is_generation none generation = false
is_generation (some gen) generation = gen == generation

-- `day_of` is the UTC date of a time, as a number of days.
module _ (settings : SessionSettings) (day_of : ℕ → ℕ) where
  unfoldable pub session_ends : UserSession → ℕ
  session_ends s = s.created_at + settings.session_max_days * 86400

  unfoldable pub stands : ℕ → ℕ → UserSession → Bool
  stands uid now s = not (is_some s.revoked_at) && s.user_id == uid && ltb now (session_ends s)

  unfoldable pub if_stands : ℕ → ℕ → Option UserSession → Option UserSession
  if_stands uid now none = none
  if_stands uid now (some s) = if stands uid now s then some s else none

  unfoldable pub live_named : Option ℕ → ℕ → ℕ → List UserSession → Option UserSession
  live_named none uid now sessions = none
  live_named (some sid) uid now sessions = if_stands uid now (find_session sid sessions)

  unfoldable pub live_session : Claims → ℕ → List UserSession → Option UserSession
  live_session claims now sessions = live_named claims.sid claims.sub now sessions

  -- `issued < after`, of a token that was issued the refresh window before its expiry
  unfoldable pub is_issued_before : ℕ → Option ℕ → Bool
  is_issued_before exp none = false
  is_issued_before exp (some after) = ltb exp (after + settings.refresh_token_days * 86400)

  unfoldable pub adopt_for : Claims → ℕ → Option Account → Auth → Auth × Rotated
  adopt_for claims now none auth = (auth, refused)
  adopt_for claims now (some user) auth =
      if is_issued_before claims.exp user.tokens_valid_after
      then (auth, refused)
      else let (started, session) = start_session user.id now auth in
        (
          record started {
            accounts =
                save_account (record user { tokens_valid_after = some now }) started.accounts;
          },
          rotated session,
        )

  unfoldable pub adopt_legacy : Claims → ℕ → Auth → Auth × Rotated
  adopt_legacy claims now auth =
      if ltb settings.legacy_tokens_until (day_of now)
      then (auth, refused)
      else adopt_for claims now (find_account claims.sub auth.accounts) auth

  unfoldable pub rotate_session : Option ℕ → ℕ → UserSession → Auth → Auth × Rotated
  rotate_session gen now s auth =
      if is_last_generation gen s.generation && ltb now (s.last_used_at + rotate_grace)
      then (auth, rotated s)
      else if not (is_generation gen s.generation)
      then (record auth { sessions = save_session (revoke now s) auth.sessions }, refused)
      else let moved : UserSession = record s {
        generation = suc s.generation;
        last_used_at = now;
      } in
        (record auth { sessions = save_session moved auth.sessions }, rotated moved)

  unfoldable pub rotate_live : Option ℕ → ℕ → Option UserSession → Auth → Auth × Rotated
  rotate_live gen now none auth = (auth, refused)
  rotate_live gen now (some s) auth = rotate_session gen now s auth

  unfoldable pub rotate : Claims → ℕ → Auth → Auth × Rotated
  rotate claims now auth =
      if not (is_some claims.sid)
      then adopt_legacy claims now auth
      else rotate_live claims.gen now (live_session claims now auth.sessions) auth

-- `end_session`, of a session that may be missing
unfoldable pub end_found : ℕ → Option UserSession → List UserSession → List UserSession
end_found now none sessions = sessions
end_found now (some s) sessions =
    if is_some s.revoked_at then sessions else save_session (revoke now s) sessions

unfoldable pub end_session : Option ℕ → ℕ → List UserSession → List UserSession
end_session none now sessions = sessions
end_session (some sid) now sessions = end_found now (find_session sid sessions) sessions

-- A session is the one to keep.
unfoldable pub is_kept : Option ℕ → UserSession → Bool
is_kept none s = false
is_kept (some keep) s = s.id == keep

-- The query's rows that are not kept.
unfoldable pub is_ended : ℕ → Option ℕ → UserSession → Bool
is_ended uid keep s = s.user_id == uid && not (is_some s.revoked_at) && not (is_kept keep s)

-- The sessions, and how many were ended.
unfoldable pub end_others : ℕ → Option ℕ → ℕ → List UserSession → List UserSession × ℕ
end_others uid keep now [] = ([], 0)
end_others uid keep now (s ∷ sessions) =
    let (others, ended) = end_others uid keep now sessions in
    if is_ended uid keep s then (revoke now s ∷ others, suc ended) else (s ∷ others, ended)

unfoldable pub end_all_sessions : Account → Option ℕ → ℕ → Auth → Auth × ℕ
end_all_sessions user keep now auth =
    let (sessions, ended) = end_others user.id keep now auth.sessions in
    (
      record auth {
        sessions = sessions;
        accounts = save_account (record user { tokens_valid_after = some now }) auth.accounts;
      },
      ended,
    )

-- `user.tokens_valid_after = now`, of a user that may be missing
unfoldable pub refuse_legacy : ℕ → Option Account → List Account → List Account
refuse_legacy now none accounts = accounts
refuse_legacy now (some user) accounts =
    save_account (record user { tokens_valid_after = some now }) accounts

unfoldable pub end_token : Claims → ℕ → Auth → Auth
end_token claims now auth =
    if is_some claims.sid
    then record auth { sessions = end_session claims.sid now auth.sessions }
    else record auth {
      accounts = refuse_legacy now (find_account claims.sub auth.accounts) auth.accounts;
    }
