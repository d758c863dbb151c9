-- ===== src/Sending/Consent.antt =====
-- A reminder is handed to Meta only where the family's consent stands at that moment.
use agyary.Common.{
  some_injective, ℕ, zero, suc, ◌+◌, ◌≡◌, refl, sym, ap, ◌∙◌, inl, inr, Option, none, some, List,
  [], ◌∷◌, Bool, true, false, not, ◌&&◌, ◌||◌, ltb, leb, ◌==◌, Bool-cases, Option-cases,
  if◌then◌else◌, arith, All, Among, subst, is_some,
}
use agyary.Sending.{
  is_sending, Notification, Customer, Settings, Reply, Outcome, accepted, account_problem,
  permanent, unknown, transient, post, next_pending, max_attempts, stuck_sending, withdrawn,
  withdrawn_by, turned_off_for, same_owner, owner_of, find_customer,
}
use agyary.Sending.Loop.{
  Pause, Run, stop, again, pause, give_up, is_late, miss_late, miss_withdrawn, mark_sending,
  breaker, count_sent, add_streak, keep_pending, after_post, round, next_round, send_loop,
  close_row, close_stuck, start_call, send_pending,
}
use agyary.Sending.Once.{Next-cases, result}

-- The row is of a record of the customers that is active, has not said STOP, has reminders on, and
-- is the record of the mobed who made the memorial.
pub record Consented (owners : List (ℕ × ℕ)) (customers : List Customer) (n : Notification)
    : Type 0 where
  pub customer : Customer
  pub on_file : Among customer customers
  pub active : customer.is_active ≡ true
  pub not_stopped : customer.reminders_stopped_at ≡ none
  pub enabled : customer.reminders_enabled ≡ true
  pub recipient : n.recipient_id ≡ some customer.id
  pub owner : ℕ
  pub owner_is : owner_of owners n ≡ some owner
  pub own : customer.owner_user_id ≡ some owner

find_customer-Among :
    (key : ℕ) (customers : List Customer) (c : Customer)
    → find_customer key customers ≡ some c
    → Among c customers × (c.id ≡ key)
unfolding find_customer
find_customer-Among key [] c e = absurd (cc)
find_customer-Among key (d ∷ customers) c e = elim (Bool-cases (d.id == key)) [
  | inl hit ↦
      let same : d ≡ c = some_injective (rw hit at e) in
      (inl (sym same), rw (← same) (ground arith))
  | inr miss ↦ let (at, is) = find_customer-Among key customers c (rw miss at e) in (inr at, is)
]

-- What no reason to withdraw means of a record.
consent_parts :
    (o own stopped : Option ℕ) (active enabled : Bool) (key : ℕ)
    → withdrawn_by o (
        some (record {
          id = key;
          owner_user_id = own;
          is_active = active;
          reminders_enabled = enabled;
          reminders_stopped_at = stopped;
        }))
      ≡ none
    → (active ≡ true)
      × (stopped ≡ none)
      × (enabled ≡ true)
      × ((owner : ℕ) × (o ≡ some owner) × (own ≡ some owner))
unfolding withdrawn_by turned_off_for same_owner
consent_parts o own stopped false enabled key e = absurd (cc)
consent_parts o own (some t) true enabled key e = absurd (cc)
consent_parts none own none true enabled key e = absurd (cc)
consent_parts (some w) none none true enabled key e = absurd (cc)
consent_parts (some w) (some v) none true false key e = absurd (ground arith)
consent_parts (some w) (some v) none true true key e =
    let same : v ≡ w = ground arith in (refl, refl, refl, (w, refl, ap some same))

Consented-find :
    (owners : List (ℕ × ℕ)) (customers : List Customer) (n : Notification) (key : ℕ)
    → n.recipient_id ≡ some key
    → withdrawn_by (owner_of owners n) (find_customer key customers) ≡ none
    → Consented owners customers n
unfolding withdrawn_by
Consented-find owners customers n key to e = elim (Option-cases (find_customer key customers)) [
  | inl missing ↦
      absurd (let h : withdrawn_by (owner_of owners n) none ≡ none = rw missing at e in (cc))
  | inr (c, found) ↦
      let (at, is) = find_customer-Among key customers c found in
      let (a, s, en, (w, ow, own')) =
        consent_parts (owner_of owners n) c.owner_user_id c.reminders_stopped_at c.is_active
          c.reminders_enabled c.id (rw found at e) in
      record {
        customer = c;
        on_file = at;
        active = a;
        not_stopped = s;
        enabled = en;
        recipient = to ∙ ap some (sym is);
        owner = w;
        owner_is = ow;
        own = own';
      }
]

withdrawn-Consented :
    (owners : List (ℕ × ℕ)) (customers : List Customer) (n : Notification)
    → withdrawn owners customers n ≡ none
    → Consented owners customers n
unfolding withdrawn withdrawn_by owner_of
withdrawn-Consented owners customers n e = elim (Option-cases n.recipient_id) [
  | inl nobody ↦
      absurd (let h : withdrawn_by (owner_of owners n) none ≡ none = rw nobody at e in (cc))
  | inr (key, to) ↦ Consented-find owners customers n key to (rw to at e)
]

module _ (settings : Settings) (owners : List (ℕ × ℕ)) (local_day local_hour : ℕ → ℕ)
    (customers : ℕ → List Customer) (reply : ℕ → Notification → Reply) (now : ℕ) where
  -- Each row handed to Meta in this call had consent in its round.
  abbrev Allowed : Run → Type 0
  Allowed run = All (λ p. Consented owners (customers p.0) p.1) run.posted

  breaker-posted :
      (run : Run)
      → (result (breaker settings owners local_day local_hour customers reply now run)).posted
        ≡ run.posted
  unfolding breaker pause
  breaker-posted run = elim (Bool-cases (leb settings.breaker_failures run.streak)) [
    | inl y ↦ rw y refl
    | inr n ↦ rw n refl
  ]

  after_post-posted :
      (outcome : Outcome) (n : Notification) (run : Run)
      → (result (
          after_post settings owners local_day local_hour customers reply now outcome n run)).posted
        ≡ run.posted
  unfolding after_post count_sent keep_pending give_up add_streak pause
  after_post-posted (accepted message_id) n run = breaker-posted _
  after_post-posted (account_problem code) n run = refl
  after_post-posted (permanent code) n run = breaker-posted _
  after_post-posted unknown n run = breaker-posted _
  after_post-posted transient n run = elim (Bool-cases (leb max_attempts (n.retry_count + 1))) [
    | inl y ↦ rw y (breaker-posted _)
    | inr no' ↦ rw no' refl
  ]

  round-Allowed :
      (paused : Option Pause) (r : ℕ) (n : Notification) (run : Run)
      → Allowed run
      → Allowed
          (result (round settings owners local_day local_hour customers reply now paused r n run))
  unfolding round miss_late miss_withdrawn mark_sending
  round-Allowed paused r n run o =
      elim (Bool-cases (is_late settings owners local_day local_hour customers reply now n)) [
        | inl y ↦ rw y o
        | inr no' ↦
            rw no'
              (elim paused
                as (λ p. Allowed (
                  result (
                    if is_some p then stop run else elim (withdrawn owners (customers r) n) [
                      | some why ↦ again (
                          miss_withdrawn settings owners local_day local_hour customers reply now
                            why n run)
                      | none ↦
                          after_post settings owners local_day local_hour customers reply now
                            (post (reply r n)) n
                            (mark_sending settings owners local_day local_hour customers reply now r
                              n run)
                    ]))) [
                      | some p ↦ o
                      | none ↦ elim (Option-cases (withdrawn owners (customers r) n)) [
                        | inl go ↦ rw go (
                            subst (All (λ p. Consented owners (customers p.0) p.1))
                              (sym (
                                after_post-posted (post (reply r n)) n (
                                  mark_sending settings owners local_day local_hour customers reply
                                    now r n run)))
                              (withdrawn-Consented owners (customers r) n go, o))
                        | inr (why, is) ↦ rw is o
                      ]
                    ])
      ]

  next_round-Allowed :
      (paused : Option Pause) (r : ℕ) (run : Run)
      → Allowed run
      → Allowed (
          result (next_round settings owners local_day local_hour customers reply now paused r run))
  unfolding next_round
  next_round-Allowed paused r run o = elim (Option-cases (next_pending now run.rows)) [
    | inl none_left ↦ rw (result, none_left) o
    | inr (n, found) ↦ rw (result, found) (round-Allowed paused r n run o)
  ]

  send_loop-Allowed :
      (paused : Option Pause) (fuel : ℕ) (run done : Run)
      → Allowed run
      → send_loop settings owners local_day local_hour customers reply now paused fuel run
        ≡ some done
      → Allowed done
  unfolding send_loop
  send_loop-Allowed paused zero run done o e = absurd (cc)
  send_loop-Allowed paused (suc fuel) run done o e =
      let kept = next_round-Allowed paused fuel run o in
      elim (Next-cases
        (next_round settings owners local_day local_hour customers reply now paused fuel run)) [
          | inl (r, is) ↦
              let end : some r ≡ some done = rw (send_loop, is) at e in
              subst Allowed (some_injective end) (rw is at kept)
          | inr (r, is) ↦
              send_loop-Allowed paused fuel r done (rw is at kept) (rw (send_loop, is) at e)
        ]

  close_stuck-posted :
      (rows : List Notification) (run : Run)
      → (close_stuck settings owners local_day local_hour customers reply now rows run).posted
        ≡ run.posted
  unfolding close_stuck close_row give_up
  close_stuck-posted [] run = refl
  close_stuck-posted (n ∷ rows) run =
      close_stuck-posted rows _
      ∙ elim (Bool-cases (is_sending n.status && ltb (n.updated_at + stuck_sending) now)) [
        | inl y ↦ rw y refl
        | inr no' ↦ rw no' refl
      ]

  -- STOP wins: for each row that a call of `send_pending` hands to Meta, the records read in that
  -- round hold one of the recipient that is active and the memorial's mobed's own, that has reminders
  -- on, and that has not said STOP.
  pub send_pending-Consented :
      (run done : Run)
      → send_pending settings owners local_day local_hour customers reply now run ≡ some done
      → All (λ p. Consented owners (customers p.0) p.1) done.posted
  unfolding send_pending start_call
  send_pending-Consented run done e =
      elim (Bool-cases (not settings.is_live || not settings.has_credentials)) [
        | inl off ↦
            let end : some (start_call run) ≡ some done = rw off at e in
            subst Allowed (some_injective end) tt
        | inr on ↦
            send_loop-Allowed run.paused _ _ done
              (subst (All (λ p. Consented owners (customers p.0) p.1))
                (sym (close_stuck-posted run.rows (start_call run))) tt)
              (rw on at e)
      ]
