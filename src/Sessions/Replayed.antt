-- ===== src/Sessions/Replayed.antt =====
-- A refresh token that comes back ends its session.
use agyary.Common.{
  ℕ, ◌+◌, ◌≡◌, refl, sym, ap, ◌∙◌, inl, inr, none, some, Option-cases, some_injective, List, [],
  ◌∷◌, true, false, ◌&&◌, ltb, ◌==◌, Bool-cases, arith,
}
use agyary.Sessions.{
  UserSession, Claims, SessionSettings, Auth, refused, rotate_grace, find_session, save_session,
  revoke, is_last_generation, is_generation, stands, if_stands, live_named, live_session,
  rotate_session, rotate_live, rotate,
}

find_session-id :
    (sid : ℕ) (sessions : List UserSession) (s : UserSession)
    → find_session sid sessions ≡ some s
    → s.id ≡ sid
unfolding find_session
find_session-id sid [] s found = absurd (let e : none ≡ some s = found in (cc))
find_session-id sid (t ∷ sessions) s found = elim (Bool-cases (t.id == sid)) [
  | inl its ↦
      let same : some t ≡ some s = rw its at found in
      let ids : t.id ≡ sid = ground arith in ap (λ u. u.id) (sym (some_injective same)) ∙ ids
  | inr not_its ↦ find_session-id sid sessions s (rw not_its at found)
]

-- The saved session is found where one with its id was.
find_session-save :
    (sid : ℕ) (new s : UserSession) (sessions : List UserSession)
    → new.id ≡ sid
    → find_session sid sessions ≡ some s
    → find_session sid (save_session new sessions) ≡ some new
unfolding find_session save_session
find_session-save sid new s [] same found = absurd (let e : none ≡ some s = found in (cc))
find_session-save sid new s (t ∷ sessions) same found = elim (Bool-cases (t.id == sid)) [
  | inl its ↦
      let own : (t.id == new.id) ≡ true = ground arith in
      let is : (new.id == sid) ≡ true = ground arith in rw (own, is)
  | inr not_its ↦
      let other : (t.id == new.id) ≡ false = ground arith in
      rw (other, not_its) (find_session-save sid new s sessions same (rw not_its at found))
]

module _ (settings : SessionSettings) (day_of : ℕ → ℕ) where
  revoked-dead :
      (sid uid later now : ℕ) (s : UserSession) (sessions : List UserSession)
      → find_session sid sessions ≡ some (revoke now s)
      → if_stands settings day_of uid later (find_session sid sessions) ≡ none
  unfolding if_stands stands
  revoked-dead sid uid later now s sessions found = rw found

  live_named-found :
      (sid uid now : ℕ) (sessions : List UserSession) (s : UserSession)
      → live_named settings day_of (some sid) uid now sessions ≡ some s
      → find_session sid sessions ≡ some s
  unfolding live_named if_stands
  live_named-found sid uid now sessions s live = elim (Option-cases (find_session sid sessions)) [
    | inl missing ↦ absurd (let e : none ≡ some s = rw missing at live in (cc))
    | inr (t, found) ↦ elim (Bool-cases (stands settings day_of uid now t)) [
      | inl good ↦ found ∙ (rw (found, good) at live)
      | inr bad ↦ absurd (let e : none ≡ some s = rw (found, bad) at live in (cc))
    ]
  ]

  -- A token of a live session that is neither of its generation nor, within the grace after the last
  -- use, of the one before is refused, and afterwards no token that names the session is live at any
  -- time.
  pub rotate-replayed :
      (claims other : Claims) (sid now later : ℕ) (s : UserSession) (auth : Auth)
      → claims.sid ≡ some sid
      → other.sid ≡ some sid
      → live_session settings day_of claims now auth.sessions ≡ some s
      → is_generation claims.gen s.generation ≡ false
      → (is_last_generation claims.gen s.generation && ltb now (s.last_used_at + rotate_grace))
        ≡ false
      → let end = rotate settings day_of claims now auth in
        (end.1 ≡ refused) × (live_session settings day_of other later end.0.sessions ≡ none)
  unfolding rotate rotate_live rotate_session live_session live_named
  rotate-replayed claims other sid now later s auth names names' live old late =
      let live' : live_named settings day_of (some sid) claims.sub now auth.sessions ≡ some s =
        rw names at live in
      let found = live_named-found sid claims.sub now auth.sessions s live' in
      let gone =
        find_session-save sid (revoke now s) s auth.sessions
          (find_session-id sid auth.sessions s found) found in
      let dead =
        revoked-dead sid other.sub later now s (save_session (revoke now s) auth.sessions) gone in
      rw (names, live', late, old, names') (refl, dead)
