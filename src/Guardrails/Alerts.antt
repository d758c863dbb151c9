-- ===== src/Guardrails/Alerts.antt =====
-- Two alerts of one kind to one admin are six hours apart.
use agyary.Common.{
  ℕ, ◌+◌, ◌≤◌, ◌≡◌, ◌⊎◌, inl, inr, List, [], ◌∷◌, false, ◌&&◌, ◌==◌, Bool-cases, arith, All,
}
use agyary.Guardrails.{Title, same_title, Alert, alert_dedupe, has_recent, alert_admins}

-- The alert b is to another user or of another title, or is at least six hours older than `now`.
abbrev pub Clear : ℕ → Title → ℕ → Alert → Type 0
Clear uid title now b =
    ((b.user_id == uid && same_title b.title title) ≡ false) ⊎ (b.created_at + alert_dedupe ≤ now)

-- Of two alerts of one title to one user, the one left later is at least six hours later.
abbrev pub Spaced : List Alert → Type 0
Spaced [] = Unit
Spaced (a ∷ alerts) = All (Clear a.user_id a.title a.created_at) alerts × Spaced alerts

Clear-not_recent :
    (uid : ℕ) (title : Title) (now : ℕ) (alerts : List Alert)
    → has_recent uid title now alerts ≡ false
    → All (Clear uid title now) alerts
unfolding has_recent
Clear-not_recent uid title now [] h = tt
Clear-not_recent uid title now (a ∷ alerts) h =
    (ground arith, Clear-not_recent uid title now alerts (ground arith))

-- Where any two alerts of one title to one user are at least six hours apart, they still are after
-- `alert_admins`, at whatever time it runs.
pub alert_admins-Spaced :
    (admins : List ℕ) (title : Title) (now : ℕ) (alerts : List Alert)
    → Spaced alerts
    → Spaced (alert_admins admins title now alerts)
unfolding alert_admins
alert_admins-Spaced [] title now alerts s = s
alert_admins-Spaced (uid ∷ admins) title now alerts s =
    elim (Bool-cases (has_recent uid title now alerts)) [
      | inl y ↦ rw y (alert_admins-Spaced admins title now alerts s)
      | inr n ↦ rw n (
          alert_admins-Spaced admins title now
            (record { user_id = uid; title = title; created_at = now } ∷ alerts)
            (Clear-not_recent uid title now alerts n, s))
    ]
