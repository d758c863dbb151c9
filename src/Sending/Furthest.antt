-- ===== src/Sending/Furthest.antt =====
-- What a run of Meta's receipts for one message leaves of its row.
use agyary.Common.{
  some_injective, ℕ, ◌≡◌, ◌≢◌, refl, sym, ap, ◌∙◌, subst, ◌⊎◌, inl, inr, none, some, List, [], ◌∷◌,
  true, false, ltb, ◌==◌, Bool-cases, Option-cases, if◌then◌else◌, All, Among, arith,
}
use agyary.Sending.{Status, pending, sending, sent, delivered, read, failed, Notification, save}
use agyary.Sending.Receipts.{
  Receipt, was_delivered, was_read, has_failed, other_status, rank, apply_receipt, has_message,
  find_message, apply_status,
}

-- Some receipts of one message in the order in which they come, each with its time.
unfoldable pub apply_statuses : ℕ → List (ℕ × Receipt) → List Notification → List Notification
apply_statuses key [] rows = rows
apply_statuses key ((now, receipt) ∷ receipts) rows =
    apply_statuses key receipts (apply_status key receipt now rows)

-- How far a receipt says that the message has got: sent, delivered, read.
abbrev pub stage : Receipt → ℕ
stage was_delivered = 2
stage was_read = 3
stage has_failed = 0
stage other_status = 0

abbrev pub further : ℕ → ℕ → ℕ
further a b = if ltb a b then b else a

-- The furthest that a row was or its receipts say.
unfoldable pub furthest : ℕ → List (ℕ × Receipt) → ℕ
furthest at [] = at
furthest at ((now, receipt) ∷ receipts) = furthest (further at (stage receipt)) receipts

abbrev pub IsNoFailure : Receipt → Type 0
IsNoFailure has_failed = ⊥
IsNoFailure _ = Unit

-- How far a row has got: read is further than delivered, and that further than sent.
abbrev pub stage_of : Status → ℕ
stage_of sent = 1
stage_of delivered = 2
stage_of read = 3
stage_of _ = 0

-- A row after receipts: the same row, as far as the furthest of them.
pub record Moved (n m : Notification) (receipts : List (ℕ × Receipt)) : Type 0 where
  pub same_id : m.id ≡ n.id
  pub same_message : m.wa_message_id ≡ n.wa_message_id
  pub same_recipient : m.recipient_id ≡ n.recipient_id
  pub as_far : stage_of m.status ≡ furthest (stage_of n.status) receipts

abbrev StagedBy : Receipt → ℕ → Notification → Type 0
StagedBy receipt now n =
    stage_of (apply_receipt receipt now n).status ≡ further (stage_of n.status) (stage receipt)

apply_receipt-StagedBy :
    (receipt : Receipt) (now : ℕ) (n : Notification) (s : Status)
    → IsNoFailure receipt
    → n.status ≡ s
    → StagedBy receipt now n
unfolding apply_receipt rank
apply_receipt-StagedBy has_failed now n s h e = absurd h
apply_receipt-StagedBy other_status now n pending h e = rw e refl
apply_receipt-StagedBy other_status now n sending h e = rw e refl
apply_receipt-StagedBy other_status now n sent h e = rw e refl
apply_receipt-StagedBy other_status now n delivered h e = rw e refl
apply_receipt-StagedBy other_status now n read h e = rw e refl
apply_receipt-StagedBy other_status now n failed h e = rw e refl
apply_receipt-StagedBy was_delivered now n pending h e = rw e refl
apply_receipt-StagedBy was_delivered now n sending h e = rw e refl
apply_receipt-StagedBy was_delivered now n sent h e = rw e refl
apply_receipt-StagedBy was_delivered now n delivered h e = rw e refl
apply_receipt-StagedBy was_delivered now n read h e = rw e refl
apply_receipt-StagedBy was_delivered now n failed h e = rw e refl
apply_receipt-StagedBy was_read now n pending h e = rw e refl
apply_receipt-StagedBy was_read now n sending h e = rw e refl
apply_receipt-StagedBy was_read now n sent h e = rw e refl
apply_receipt-StagedBy was_read now n delivered h e = rw e refl
apply_receipt-StagedBy was_read now n read h e = rw e refl
apply_receipt-StagedBy was_read now n failed h e = rw e refl

abbrev SameRow : Notification → Notification → Type 0
SameRow n m =
    (m.id ≡ n.id) × (m.wa_message_id ≡ n.wa_message_id) × (m.recipient_id ≡ n.recipient_id)

apply_receipt-SameRow :
    (receipt : Receipt) (now : ℕ) (n : Notification) → SameRow n (apply_receipt receipt now n)
unfolding apply_receipt
apply_receipt-SameRow has_failed now n = ground arith
apply_receipt-SameRow was_delivered now n = ground arith
apply_receipt-SameRow was_read now n = ground arith
apply_receipt-SameRow other_status now n = (refl, refl, refl)

-- The row that is found has the message's id, and where none is found no row has it.
find_message-found :
    (key : ℕ) (rows : List Notification) (n : Notification)
    → find_message key rows ≡ some n
    → Among n rows × (n.wa_message_id ≡ some key)
unfolding find_message has_message
find_message-found key [] n e = absurd (cc)
find_message-found key (m ∷ rows) n e = elim (Bool-cases (has_message key m)) [
  | inl its ↦
      let same : m ≡ n = some_injective (rw its at e) in
      (inl (sym same), subst (λ r. r.wa_message_id ≡ some key) same (ground arith))
  | inr other ↦ let (at, is) = find_message-found key rows n (rw other at e) in (inr at, is)
]

find_message-missing :
    (key : ℕ) (rows : List Notification)
    → find_message key rows ≡ none
    → All (λ m. m.wa_message_id ≢ some key) rows
unfolding find_message has_message
find_message-missing key [] e = tt
find_message-missing key (m ∷ rows) e = elim (Bool-cases (has_message key m)) [
  | inl its ↦ absurd (let k : some m ≡ none = rw its at e in (cc))
  | inr other ↦ (λ is. ground arith, find_message-missing key rows (rw other at e))
]

-- The row that was saved is the one that is found after it.
find_message-save :
    (key : ℕ) (rows : List Notification) (n m : Notification)
    → find_message key rows ≡ some n
    → m.id ≡ n.id
    → m.wa_message_id ≡ n.wa_message_id
    → find_message key (save m rows) ≡ some m
unfolding find_message save has_message
find_message-save key [] n m e same_id same_message = absurd (cc)
find_message-save key (r ∷ rows) n m e same_id same_message =
    let (at, its) = find_message-found key (r ∷ rows) n e in
    let its_message : has_message key m ≡ true = rw (same_message ∙ its) (ground arith) in
    elim (Bool-cases (r.id == m.id)) [
      | inl own ↦ rw own (rw its_message refl)
      | inr other ↦ rw other (elim (Bool-cases (has_message key r)) [
        | inl first ↦
            let same : r ≡ n = some_injective (rw first at e) in
            let ids : r.id ≡ m.id = ap (λ x. x.id) same ∙ sym same_id in
            absurd (ground (arith, ids, other))
        | inr later ↦ rw later (find_message-save key rows n m (rw later at e) same_id same_message)
      ])
    ]

save-save :
    (m k : Notification) (rows : List Notification)
    → k.id ≡ m.id
    → save k (save m rows) ≡ save k rows
unfolding save
save-save m k [] same = refl
save-save m k (r ∷ rows) same = elim (Bool-cases (r.id == m.id)) [
  | inl own ↦
      let first : (m.id == k.id) ≡ true = ground (arith, same) in
      let second : (r.id == k.id) ≡ true = ground (arith, same, own) in
      rw (own, second) (rw first (ap (λ rest. k ∷ rest) (save-save m k rows same)))
  | inr other ↦
      let second : (r.id == k.id) ≡ false = ground (arith, same, other) in
      rw (other, second) (ap (λ rest. r ∷ rest) (save-save m k rows same))
]

-- One receipt for a row that is found.
apply_status-found :
    (key now : ℕ) (receipt : Receipt) (rows : List Notification) (n : Notification)
    → find_message key rows ≡ some n
    → apply_status key receipt now rows ≡ save (apply_receipt receipt now n) rows
unfolding apply_status
apply_status-found key now receipt rows n e = rw (apply_status, e) refl

apply_statuses-missing :
    (key : ℕ) (receipts : List (ℕ × Receipt)) (rows : List Notification)
    → find_message key rows ≡ none
    → apply_statuses key receipts rows ≡ rows
unfolding apply_statuses apply_status
apply_statuses-missing key [] rows e = refl
apply_statuses-missing key ((now, receipt) ∷ receipts) rows e =
    rw (apply_status, e) (apply_statuses-missing key receipts rows e)

apply_statuses-found :
    (key now : ℕ) (receipt : Receipt) (receipts : List (ℕ × Receipt)) (rows : List Notification)
    (n : Notification)
    → All (λ (r : ℕ × Receipt). IsNoFailure r.1) ((now, receipt) ∷ receipts)
    → find_message key rows ≡ some n
    → (m : Notification) × Moved n m ((now, receipt) ∷ receipts)
      × (apply_statuses key ((now, receipt) ∷ receipts) rows ≡ save m rows)
unfolding apply_statuses furthest
apply_statuses-found key now receipt [] rows n plain e =
    let m = apply_receipt receipt now n in
    let (id, message, recipient) = apply_receipt-SameRow receipt now n in
    (
      m,
      record {
        same_id = id;
        same_message = message;
        same_recipient = recipient;
        as_far = apply_receipt-StagedBy receipt now n n.status plain.0 refl;
      },
      apply_status-found key now receipt rows n e,
    )
apply_statuses-found key now receipt ((later, next) ∷ receipts) rows n plain e =
    let m = apply_receipt receipt now n in
    let (id, message, recipient) = apply_receipt-SameRow receipt now n in
    let saved = apply_status-found key now receipt rows n e in
    let found = find_message-save key rows n m e id message in
    let (k, moved, end) =
      apply_statuses-found key later next receipts (save m rows) m plain.1 found in
    (
      k,
      record {
        same_id = moved.same_id ∙ id;
        same_message = moved.same_message ∙ message;
        same_recipient = moved.same_recipient ∙ recipient;
        as_far =
            moved.as_far
            ∙ ap (λ at. furthest at ((later, next) ∷ receipts))
                (apply_receipt-StagedBy receipt now n n.status plain.0 refl);
      },
      ap (λ l. apply_statuses key ((later, next) ∷ receipts) l) saved
          ∙ end
          ∙ save-save m k rows moved.same_id,
    )

-- Receipts for one message, none of a failure, in any order and however often each comes, leave its
-- row as far as the furthest of them or as it was, whichever is further, with the ids it had; no
-- other row is touched, and where no row has the message nothing is.
pub apply_statuses-Furthest :
    (key now : ℕ) (receipt : Receipt) (receipts : List (ℕ × Receipt)) (rows : List Notification)
    → All (λ (r : ℕ × Receipt). IsNoFailure r.1) ((now, receipt) ∷ receipts)
    → let after = apply_statuses key ((now, receipt) ∷ receipts) rows in
      (All (λ m. m.wa_message_id ≢ some key) rows × (after ≡ rows))
      ⊎ ((n : Notification) × (m : Notification) × Among n rows
          × (n.wa_message_id ≡ some key)
          × Moved n m ((now, receipt) ∷ receipts)
          × (after ≡ save m rows))
apply_statuses-Furthest key now receipt receipts rows plain =
    elim (Option-cases (find_message key rows)) [
      | inl missing ↦ inl (
        find_message-missing key rows missing,
        apply_statuses-missing key ((now, receipt) ∷ receipts) rows missing,
      )
      | inr (n, found) ↦
          let (at, its) = find_message-found key rows n found in
          let (m, moved, end) = apply_statuses-found key now receipt receipts rows n plain found in
          inr (n, m, at, its, moved, end)
    ]
