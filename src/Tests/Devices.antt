-- ===== src/Tests/Devices.antt =====
-- A device whose refresh token comes back after it was spent.
use agyary.Common.{ℕ, ◌≡◌, refl, none, some, [], ◌∷◌, false}
use agyary.Sessions.{
  UserSession, Claims, SessionSettings, Auth, refused, find_session, new_session,
  is_last_generation, is_generation, session_ends, stands, if_stands, live_named, live_session,
  rotate,
}
use agyary.Sessions.Replayed.{rotate-replayed}

abbrev settings : SessionSettings
settings = record { session_max_days = 180; refresh_token_days = 60; legacy_tokens_until = 0 }

abbrev day_of : ℕ → ℕ
day_of t = 0

abbrev device : UserSession
device = record (new_session 4 7 1000) { generation = 3; last_used_at = 5000 }

abbrev auth : Auth
auth = record { sessions = new_session 5 8 1000 ∷ device ∷ []; accounts = []; next_id = 6 }

-- A copy of the token of the first generation, and the token in use.
abbrev copied : Claims
copied = record { sub = 7; sid = some 4; gen = some 1; exp = 5184000 }

abbrev in_use : Claims
in_use = record { sub = 7; sid = some 4; gen = some 3; exp = 5184000 }

live_run : live_session settings day_of copied 6000 auth.sessions ≡ some device
unfolding live_session live_named if_stands find_session stands session_ends
live_run = refl

old_run : is_generation copied.gen device.generation ≡ false
unfolding is_generation
old_run = refl

late_run : is_last_generation copied.gen device.generation ≡ false
unfolding is_last_generation
late_run = refl

rotate-replayed_example :
    ((rotate settings day_of copied 6000 auth).1 ≡ refused)
    × (live_session settings day_of in_use 6001 (rotate settings day_of copied 6000 auth).0.sessions
        ≡ none)
unfolding is_last_generation
rotate-replayed_example =
    rotate-replayed settings day_of copied in_use 4 6000 6001 device auth refl refl live_run old_run
      late_run
