-- ===== src/Sending/Ends.antt =====
-- The loop of `send_pending` ends: the fuel that it is given is enough.
use agyary.Common.{
  ℕ, zero, suc, ◌+◌, ◌≤◌, ◌<◌, ◌≡◌, refl, inl, inr, Option, none, some, List, [], ◌∷◌, true, false,
  not, ◌&&◌, ◌||◌, leb, ◌==◌, Bool-cases, Option-cases, if◌then◌else◌, arith, is_some,
}
use agyary.Sending.{
  is_pending, Notification, Customer, Settings, Reply, Outcome, accepted, account_problem,
  permanent, unknown, transient, post, next_pending, save, max_attempts, withdrawn,
}
use agyary.Sending.Loop.{
  Pause, Run, Next, stop, again, give_up, is_late, miss_late, miss_withdrawn, mark_sending, breaker,
  count_sent, add_streak, keep_pending, after_post, round, next_round, send_loop, pending_count,
  start_call, send_pending,
}
use agyary.Sending.Once.{Next-cases}

save-count_le :
    (n : Notification) (rows : List Notification)
    → is_pending n.status ≡ false
    → pending_count (save n rows) ≤ pending_count rows
unfolding save pending_count
save-count_le n [] h = omega arith
save-count_le n (m ∷ rows) h = elim (Bool-cases (m.id == n.id)) [
  | inl y ↦ rw (y, h) (omega (arith, save-count_le n rows h))
  | inr no' ↦ rw no' (omega (arith, save-count_le n rows h))
]

save-count_lt_suc :
    (n : Notification) (rows : List Notification)
    → is_pending n.status ≡ false
    → pending_count (save n rows) < suc (pending_count rows)
save-count_lt_suc n rows h = omega (arith, save-count_le n rows h)

-- The row that was pending no longer is.
save-count_lt :
    (now : ℕ) (rows : List Notification) (n m : Notification)
    → next_pending now rows ≡ some n
    → m.id ≡ n.id
    → is_pending m.status ≡ false
    → pending_count (save m rows) < pending_count rows
unfolding next_pending save pending_count
save-count_lt now [] n m e i h = absurd (cc)
save-count_lt now (a ∷ rows) n m e i h =
    elim (Bool-cases (is_pending a.status && leb a.scheduled_at now)) [
      | inl y ↦
          let same : some a ≡ some n = rw y at e in
          let own : a.id ≡ m.id = cc in
          let hit : (a.id == m.id) ≡ true = ground arith in
          let was : is_pending a.status ≡ true = ground arith in
          rw (hit, h, was) (omega (arith, save-count_le m rows h))
      | inr no' ↦
          let less = save-count_lt now rows n m (rw no' at e) i h in
          elim (Bool-cases (a.id == m.id)) [
            | inl hit ↦ rw (hit, h) (omega (arith, less))
            | inr miss ↦ rw miss (omega (arith, less))
          ]
    ]

abbrev left : Run → ℕ
left run = pending_count run.rows

-- What a round leaves pending, where the loop goes on.
abbrev Fewer : ℕ → Next → Type 0
Fewer k (stop run) = Unit
Fewer k (again run) = left run < k

Fewer-le : (j k : ℕ) (x : Next) → j ≤ k → Fewer j x → Fewer k x
Fewer-le j k (stop run) h f = tt
Fewer-le j k (again run) h f = omega (arith, f)

module _ (settings : Settings) (owners : List (ℕ × ℕ)) (local_day local_hour : ℕ → ℕ)
    (customers : ℕ → List Customer) (reply : ℕ → Notification → Reply) (now : ℕ) where
  breaker-Fewer :
      (run : Run) (k : ℕ)
      → left run < k
      → Fewer k (breaker settings owners local_day local_hour customers reply now run)
  unfolding breaker
  breaker-Fewer run k h = elim (Bool-cases (leb settings.breaker_failures run.streak)) [
    | inl y ↦ rw y tt
    | inr n ↦ rw n h
  ]

  after_post-Fewer :
      (outcome : Outcome) (n : Notification) (run : Run)
      → Fewer
          (suc (left run))
          (after_post settings owners local_day local_hour customers reply now outcome n run)
  unfolding after_post count_sent keep_pending give_up add_streak is_pending
  after_post-Fewer (accepted message_id) n run =
      breaker-Fewer _ _ (save-count_lt_suc _ run.rows refl)
  after_post-Fewer (account_problem code) n run = tt
  after_post-Fewer (permanent code) n run = breaker-Fewer _ _ (save-count_lt_suc _ run.rows refl)
  after_post-Fewer unknown n run = breaker-Fewer _ _ (save-count_lt_suc _ run.rows refl)
  after_post-Fewer transient n run = elim (Bool-cases (leb max_attempts (n.retry_count + 1))) [
    | inl y ↦ rw y (breaker-Fewer _ _ (save-count_lt_suc _ run.rows refl))
    | inr no' ↦ rw no' tt
  ]

  round-Fewer :
      (paused : Option Pause) (r : ℕ) (n : Notification) (run : Run) (k : ℕ)
      → next_pending now run.rows ≡ some n
      → left run ≤ k
      → Fewer k (round settings owners local_day local_hour customers reply now paused r n run)
  unfolding round miss_late miss_withdrawn mark_sending is_pending
  round-Fewer paused r n run k found h =
      let less : (m : Notification)
          → m.id ≡ n.id
          → is_pending m.status ≡ false
          → pending_count (save m run.rows) < k =
        λ m i p. omega (arith, save-count_lt now run.rows n m found i p) in
      elim (Bool-cases (is_late settings owners local_day local_hour customers reply now n)) [
        | inl y ↦ rw y (less _ refl refl)
        | inr no' ↦
            rw no'
              (elim paused
                as (λ p. Fewer k (
                  if is_some p then stop run else elim (withdrawn owners (customers r) n) [
                    | some why ↦ again (
                        miss_withdrawn settings owners local_day local_hour customers reply now why
                          n run)
                    | none ↦
                        after_post settings owners local_day local_hour customers reply now
                          (post (reply r n)) n
                          (mark_sending settings owners local_day local_hour customers reply now r n
                            run)
                  ])) [
                    | some p ↦ tt
                    | none ↦ elim (Option-cases (withdrawn owners (customers r) n)) [
                      | inl go ↦ rw go (
                          Fewer-le _ k
                            (after_post settings owners local_day local_hour customers reply now
                              (post (reply r n)) n
                              (mark_sending settings owners local_day local_hour customers reply now
                                r n run))
                            (less _ refl refl)
                            (after_post-Fewer (post (reply r n)) n (
                              mark_sending settings owners local_day local_hour customers reply now
                                r n run)))
                      | inr (why, is) ↦ rw is (less _ refl refl)
                    ]
                  ])
      ]

  next_round-Fewer :
      (paused : Option Pause) (r : ℕ) (run : Run) (k : ℕ)
      → left run ≤ k
      → Fewer k (next_round settings owners local_day local_hour customers reply now paused r run)
  unfolding next_round
  next_round-Fewer paused r run k h = elim (Option-cases (next_pending now run.rows)) [
    | inl none_left ↦ rw (Fewer, none_left) tt
    | inr (n, found) ↦ rw (Fewer, found) (round-Fewer paused r n run k found h)
  ]

  send_loop_ends :
      (paused : Option Pause) (fuel : ℕ) (run : Run)
      → left run < fuel
      → (done : Run) × (send_loop settings owners local_day local_hour customers reply now paused
            fuel run
          ≡ some done)
  unfolding send_loop
  send_loop_ends paused zero run h = absurd (omega arith)
  send_loop_ends paused (suc fuel) run h =
      let fewer = next_round-Fewer paused fuel run fuel (omega arith) in
      elim (Next-cases
        (next_round settings owners local_day local_hour customers reply now paused fuel run)) [
          | inl (r, is) ↦ rw (send_loop, is) (r, refl)
          | inr (r, is) ↦
              rw (send_loop, is)
                (send_loop_ends paused fuel r (let k : left r < fuel = rw is at fewer in k))
        ]

  -- Every call of `send_pending` ends with a result, whatever the rows, the families' records and
  -- the replies of Meta are.
  pub send_pending_ends :
      (run : Run)
      → (done : Run) × (send_pending settings owners local_day local_hour customers reply now run
          ≡ some done)
  unfolding send_pending
  send_pending_ends run = elim (Bool-cases (not settings.is_live || not settings.has_credentials)) [
    | inl off ↦ rw off (start_call run, refl)
    | inr on ↦ rw on (send_loop_ends _ _ _ (omega arith))
  ]
