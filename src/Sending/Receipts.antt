-- ===== src/Sending/Receipts.antt =====
-- `apply_status` of services/reminder_sender.py: Meta's delivery receipts.
use agyary.Common.{
  some_injective, ℕ, ◌≡◌, ◌≢◌, refl, ◌⊎◌, inl, inr, Option, none, some, List, [], ◌∷◌, Bool, true,
  false, leb, ◌==◌, Bool-cases, Option-cases, if◌then◌else◌, All, subst,
}
use agyary.Sending.{
  Status, pending, sending, sent, delivered, read, failed, is_pending, Notification,
  could_not_deliver, save,
}
use agyary.Sending.Once.{Once, Settled, save-Settled}

-- The status of a receipt.
pub data Receipt : Type 0 where
  was_delivered was_read has_failed other_status : Receipt

-- `_RANK.get(status, 0)`
unfoldable pub rank : Status → ℕ
rank sent = 1
rank delivered = 2
rank read = 3
rank _ = 0

unfoldable pub is_failed : Status → Bool
is_failed failed = true
is_failed _ = false

-- `n.delivered_at or now`
unfoldable pub or_now : Option ℕ → ℕ → Option ℕ
or_now none now = some now
or_now (some t) now = some t

-- The row after a receipt.
unfoldable pub apply_receipt : Receipt → ℕ → Notification → Notification
apply_receipt has_failed now n =
    if is_failed n.status
    then n
    else record n { status = failed; error_message = some could_not_deliver; updated_at = now }
apply_receipt was_delivered now n =
    if leb (rank delivered) (rank n.status)
    then n
    else record n { status = delivered; delivered_at = some now; updated_at = now }
apply_receipt was_read now n = if leb (rank read) (rank n.status) then n else record n {
  status = read;
  read_at = some now;
  delivered_at = or_now n.delivered_at now;
  updated_at = now;
}
apply_receipt other_status now n = n

unfoldable pub has_message : ℕ → Notification → Bool
has_message key n = elim n.wa_message_id [ none ↦ false | some m ↦ m == key ]

unfoldable pub find_message : ℕ → List Notification → Option Notification
find_message key [] = none
find_message key (n ∷ rows) =
    let later = find_message key rows in if has_message key n then some n else later

-- A receipt for the row with this message id; one for another message changes nothing.
unfoldable pub apply_status : ℕ → Receipt → ℕ → List Notification → List Notification
apply_status key receipt now rows = elim (find_message key rows) [
  | none ↦ rows
  | some n ↦ save (apply_receipt receipt now n) rows
]

-- A receipt that comes again changes nothing more.
pub apply_receipt-again :
    (receipt : Receipt) (now later : ℕ) (n : Notification)
    → apply_receipt receipt later (apply_receipt receipt now n) ≡ apply_receipt receipt now n
unfolding apply_receipt rank is_failed
apply_receipt-again has_failed now later n = elim (Bool-cases (is_failed n.status)) [
  | inl y ↦ rw (y, y) refl
  | inr no' ↦ rw no' refl
]
apply_receipt-again was_delivered now later n =
    elim (Bool-cases (leb (rank delivered) (rank n.status))) [
      | inl y ↦ rw (y, y) refl
      | inr no' ↦ rw no' refl
    ]
apply_receipt-again was_read now later n = elim (Bool-cases (leb (rank read) (rank n.status))) [
  | inl y ↦ rw (y, y) refl
  | inr no' ↦ rw no' refl
]
apply_receipt-again other_status now later n = refl

abbrev BothRead : ℕ → ℕ → Notification → Type 0
BothRead now later n =
    ((apply_receipt was_read later (apply_receipt was_delivered now n)).status ≡ read)
    × ((apply_receipt was_delivered later (apply_receipt was_read now n)).status ≡ read)

BothRead-status :
    (s : Status) (now later : ℕ) (n : Notification) → n.status ≡ s → BothRead now later n
unfolding apply_receipt rank
BothRead-status pending now later n e = rw e (refl, refl)
BothRead-status sending now later n e = rw e (refl, refl)
BothRead-status sent now later n e = rw e (refl, refl)
BothRead-status delivered now later n e = rw e (refl, refl)
BothRead-status read now later n e = rw e (refl, refl)
BothRead-status failed now later n e = rw e (refl, refl)

-- A delivered and a read receipt leave a row with the same status in either order: it is read.
pub apply_receipt-order :
    (now later : ℕ) (n : Notification)
    → ((apply_receipt was_read later (apply_receipt was_delivered now n)).status ≡ read)
      × ((apply_receipt was_delivered later (apply_receipt was_read now n)).status ≡ read)
apply_receipt-order now later n = BothRead-status n.status now later n refl

find_message-settled :
    (key : ℕ) (rows : List Notification) (n : Notification) (x : ℕ)
    → find_message key rows ≡ some n
    → All (λ m. (m.id ≢ x) ⊎ (is_pending m.status ≡ false)) rows
    → (n.id ≢ x) ⊎ (is_pending n.status ≡ false)
unfolding find_message
find_message-settled key [] n x e s = absurd (cc)
find_message-settled key (m ∷ rows) n x e s = elim (Bool-cases (has_message key m)) [
  | inl y ↦
      let same : m ≡ n = some_injective (rw y at e) in
      subst (λ r. (r.id ≢ x) ⊎ (is_pending r.status ≡ false)) same s.0
  | inr no' ↦ find_message-settled key rows n x (rw no' at e) s.1
]

receipt-settled :
    (receipt : Receipt) (now : ℕ) (n : Notification) (x : ℕ)
    → (n.id ≢ x) ⊎ (is_pending n.status ≡ false)
    → ((apply_receipt receipt now n).id ≢ x)
      ⊎ (is_pending (apply_receipt receipt now n).status ≡ false)
unfolding apply_receipt is_pending
receipt-settled has_failed now n x h = elim (Bool-cases (is_failed n.status)) [
  | inl y ↦ rw y h
  | inr no' ↦ rw no' (inr refl)
]
receipt-settled was_delivered now n x h = elim (Bool-cases (leb (rank delivered) (rank n.status))) [
  | inl y ↦ rw y h
  | inr no' ↦ rw no' (inr refl)
]
receipt-settled was_read now n x h = elim (Bool-cases (leb (rank read) (rank n.status))) [
  | inl y ↦ rw y h
  | inr no' ↦ rw no' (inr refl)
]
receipt-settled other_status now n x h = h

every_row :
    (key : ℕ) (receipt : Receipt) (now : ℕ) (rows : List Notification) (n : Notification)
    (ids : List ℕ)
    → find_message key rows ≡ some n
    → All (Settled rows) ids
    → All (Settled (save (apply_receipt receipt now n) rows)) ids
every_row key receipt now rows n [] e s = tt
every_row key receipt now rows n (x ∷ ids) e s = (
  save-Settled (apply_receipt receipt now n) rows x
      (receipt-settled receipt now n x (find_message-settled key rows n x e s.0)) s.0,
  every_row key receipt now rows n ids e s.1,
)

-- A receipt, whatever it says and whichever message it is for, keeps this true: the reminders that
-- Meta accepted, or may have accepted, are all different, and no row of one of them is pending.
pub apply_status-Once :
    (key : ℕ) (receipt : Receipt) (now : ℕ) (rows : List Notification) (reached : List ℕ)
    → Once rows reached
    → Once (apply_status key receipt now rows) reached
unfolding apply_status
apply_status-Once key receipt now rows reached o = elim (Option-cases (find_message key rows)) [
  | inl missing ↦ rw (apply_status, missing) o
  | inr (n, found) ↦
      rw (apply_status, found)
        (record {
          distinct = o.distinct;
          settled = every_row key receipt now rows n reached found o.settled;
        })
]
