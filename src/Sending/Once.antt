-- ===== src/Sending/Once.antt =====
-- No reminder reaches Meta twice: what was accepted, or may have been, is never pending again.
use agyary.Common.{
  Fresh, some_injective, ℕ, zero, suc, ◌+◌, ◌≡◌, ◌≢◌, refl, sym, ◌⊎◌, inl, inr, Option, none, some,
  List, [], ◌∷◌, true, false, Bool, not, ◌&&◌, ◌||◌, ltb, leb, ◌==◌, Bool-cases, Option-cases,
  if◌then◌else◌, arith, All, subst, is_some,
}
use agyary.Sending.{
  is_pending, is_sending, Notification, Customer, Settings, Reply, Outcome, accepted,
  account_problem, permanent, unknown, transient, post, sending, not_connected, no_answer, answered,
  next_pending, save, max_attempts, stuck_sending, withdrawn,
}
use agyary.Sending.Loop.{
  Pause, Run, Next, stop, again, pause, give_up, is_late, miss_late, miss_withdrawn, mark_sending,
  breaker, count_sent, add_streak, keep_pending, after_post, round, next_round, send_loop,
  close_row, close_stuck, start_call, send_pending,
}

-- No row with this id is pending.
abbrev pub Settled : List Notification → ℕ → Type 0
Settled rows x = All (λ n. (n.id ≢ x) ⊎ (is_pending n.status ≡ false)) rows

abbrev pub Distinct : List ℕ → Type 0
Distinct [] = Unit
Distinct (x ∷ ids) = Fresh x ids × Distinct ids

-- The ids that Meta has, or may have, are all different, and no row with one of them is pending.
pub record Once (rows : List Notification) (reached : List ℕ) : Type 0 where
  pub distinct : Distinct reached
  pub settled : All (Settled rows) reached

pub save-Settled :
    (n : Notification) (rows : List Notification) (x : ℕ)
    → (n.id ≢ x) ⊎ (is_pending n.status ≡ false)
    → Settled rows x
    → Settled (save n rows) x
unfolding save
save-Settled n [] x h s = tt
save-Settled n (m ∷ rows) x h s = elim (Bool-cases (m.id == n.id)) [
  | inl y ↦ rw y (h, save-Settled n rows x h s.1)
  | inr no' ↦ rw no' (s.0, save-Settled n rows x h s.1)
]

save-Settled_own :
    (n : Notification) (rows : List Notification)
    → is_pending n.status ≡ false
    → Settled (save n rows) n.id
unfolding save
save-Settled_own n [] h = tt
save-Settled_own n (m ∷ rows) h = elim (Bool-cases (m.id == n.id)) [
  | inl y ↦ rw y (inr h, save-Settled_own n rows h)
  | inr no' ↦ rw no' (inl (ground arith), save-Settled_own n rows h)
]

save_every :
    (n : Notification) (rows : List Notification) (ids : List ℕ)
    → is_pending n.status ≡ false
    → All (Settled rows) ids
    → All (Settled (save n rows)) ids
save_every n rows [] h s = tt
save_every n rows (x ∷ ids) h s = (save-Settled n rows x (inr h) s.0, save_every n rows ids h s.1)

save_every_new :
    (n : Notification) (rows : List Notification) (ids : List ℕ)
    → Fresh n.id ids
    → All (Settled rows) ids
    → All (Settled (save n rows)) ids
save_every_new n rows [] f s = tt
save_every_new n rows (x ∷ ids) f s =
    (save-Settled n rows x (inl (λ e. f.0 (sym e))) s.0, save_every_new n rows ids f.1 s.1)

-- Saving a row that is not pending, saving one that Meta does not have, and adding its id.
pub save-Once :
    (n : Notification) (rows : List Notification) (ids : List ℕ)
    → is_pending n.status ≡ false
    → Once rows ids
    → Once (save n rows) ids
save-Once n rows ids h o = record {
  distinct = o.distinct;
  settled = save_every n rows ids h o.settled;
}

save-Once_new :
    (n : Notification) (rows : List Notification) (ids : List ℕ)
    → Fresh n.id ids
    → Once rows ids
    → Once (save n rows) ids
save-Once_new n rows ids f o = record {
  distinct = o.distinct;
  settled = save_every_new n rows ids f o.settled;
}

save-Once_reached :
    (n : Notification) (rows : List Notification) (ids : List ℕ)
    → is_pending n.status ≡ false
    → Fresh n.id ids
    → Once rows ids
    → Once (save n rows) (n.id ∷ ids)
save-Once_reached n rows ids h f o = record {
  distinct = (f, o.distinct);
  settled = (save-Settled_own n rows h, save_every n rows ids h o.settled);
}

-- The next row is none that Meta has.
next_pending-ne :
    (now : ℕ) (rows : List Notification) (n : Notification) (x : ℕ)
    → next_pending now rows ≡ some n
    → Settled rows x
    → x ≢ n.id
unfolding next_pending
next_pending-ne now [] n x e s = absurd (cc)
next_pending-ne now (m ∷ rows) n x e s =
    elim (Bool-cases (is_pending m.status && leb m.scheduled_at now)) [
      | inl y ↦
          let same : some m ≡ some n = rw y at e in
          elim s.0 [ inl ne ↦ λ q. ne (cc) | inr p ↦ absurd (ground arith) ]
      | inr no' ↦ next_pending-ne now rows n x (rw no' at e) s.1
    ]

next_pending-Fresh :
    (now : ℕ) (rows : List Notification) (n : Notification) (ids : List ℕ)
    → next_pending now rows ≡ some n
    → All (Settled rows) ids
    → Fresh n.id ids
next_pending-Fresh now rows n [] e s = tt
next_pending-Fresh now rows n (x ∷ ids) e s =
    (next_pending-ne now rows n x e s.0, next_pending-Fresh now rows n ids e s.1)

pub Next-cases : (x : Next) → ((r : Run) × (x ≡ stop r)) ⊎ ((r : Run) × (x ≡ again r))
Next-cases (stop r) = inl (r, refl)
Next-cases (again r) = inr (r, refl)

-- How a round leaves the run, whether or not the loop goes on.
abbrev pub result : Next → Run
result (stop run) = run
result (again run) = run

-- Whether Meta may have the message: the answer is a 200, or none came to a request that went out.
unfoldable pub may_have : Reply → Bool
may_have not_connected = false
may_have no_answer = true
may_have (answered status_code message_id code) = status_code == 200

-- The ids of the reminders that Meta may have.
unfoldable pub taken : List (ℕ × Reply) → List ℕ
taken [] = []
taken ((id, reply) ∷ replies) = if may_have reply then id ∷ taken replies else taken replies

taken-has :
    (id : ℕ) (reply : Reply) (replies : List (ℕ × Reply))
    → may_have reply ≡ true
    → taken ((id, reply) ∷ replies) ≡ id ∷ taken replies
unfolding taken
taken-has id reply replies h = rw h

taken-lacks :
    (id : ℕ) (reply : Reply) (replies : List (ℕ × Reply))
    → may_have reply ≡ false
    → taken ((id, reply) ∷ replies) ≡ taken replies
unfolding taken
taken-lacks id reply replies h = rw h

-- The outcomes of a message that Meta may have.
data MayBeIn : Outcome → Type 0 where
  is_in : (message_id : Option ℕ) → MayBeIn (accepted message_id)
  is_lost : MayBeIn unknown

post-MayBeIn : (reply : Reply) → may_have reply ≡ true → MayBeIn (post reply)
unfolding may_have post
post-MayBeIn not_connected h = absurd (cc)
post-MayBeIn no_answer h = is_lost
post-MayBeIn (answered status_code message_id code) h = rw h (is_in message_id)

abbrev pub OnceRun : Run → Type 0
OnceRun run = Once run.rows (taken run.replies)

module _ (settings : Settings) (owners : List (ℕ × ℕ)) (local_day local_hour : ℕ → ℕ)
    (customers : ℕ → List Customer) (reply : ℕ → Notification → Reply) (now : ℕ) where
  breaker-Once :
      (run : Run)
      → OnceRun run
      → OnceRun (result (breaker settings owners local_day local_hour customers reply now run))
  unfolding breaker pause
  breaker-Once run o = elim (Bool-cases (leb settings.breaker_failures run.streak)) [
    | inl y ↦ rw y o
    | inr n ↦ rw n o
  ]

  -- Where Meta cannot have the message, and where it may.
  after_post-Once :
      (outcome : Outcome) (n : Notification) (run : Run)
      → Fresh n.id (taken run.replies)
      → OnceRun run
      → OnceRun (
          result
            (after_post settings owners local_day local_hour customers reply now outcome n run))
  unfolding after_post count_sent keep_pending give_up add_streak pause is_pending
  after_post-Once (accepted message_id) n run f o =
      breaker-Once _ (save-Once _ run.rows (taken run.replies) refl o)
  after_post-Once (account_problem code) n run f o =
      save-Once_new _ run.rows (taken run.replies) f o
  after_post-Once (permanent code) n run f o =
      breaker-Once _ (save-Once _ run.rows (taken run.replies) refl o)
  after_post-Once unknown n run f o =
      breaker-Once _ (save-Once _ run.rows (taken run.replies) refl o)
  after_post-Once transient n run f o = elim (Bool-cases (leb max_attempts (n.retry_count + 1))) [
    | inl y ↦ rw y (breaker-Once _ (save-Once _ run.rows (taken run.replies) refl o))
    | inr no' ↦ rw no' (save-Once_new _ run.rows (taken run.replies) f o)
  ]

  after_post-Once-taken :
      (outcome : Outcome) (n : Notification) (run : Run) (ids : List ℕ)
      → MayBeIn outcome
      → n.id ∷ ids ≡ taken run.replies
      → Fresh n.id ids
      → Once run.rows ids
      → OnceRun (
          result
            (after_post settings owners local_day local_hour customers reply now outcome n run))
  unfolding after_post count_sent give_up is_pending
  after_post-Once-taken (accepted message_id) n run ids m is f o =
      breaker-Once _ (subst (Once _) is (save-Once_reached _ run.rows ids refl f o))
  after_post-Once-taken unknown n run ids m is f o =
      breaker-Once _ (subst (Once _) is (save-Once_reached _ run.rows ids refl f o))
  after_post-Once-taken (account_problem code) n run ids m is f o = elim m [ ]
  after_post-Once-taken (permanent code) n run ids m is f o = elim m [ ]
  after_post-Once-taken transient n run ids m is f o = elim m [ ]

  posted-Once :
      (r : ℕ) (n : Notification) (run : Run)
      → Fresh n.id (taken run.replies)
      → OnceRun run
      → OnceRun (
          result (
            after_post settings owners local_day local_hour customers reply now
              (post (reply r n))
              n
              (mark_sending settings owners local_day local_hour customers reply now r n run)))
  unfolding mark_sending is_pending
  posted-Once r n run f o =
      let marked = mark_sending settings owners local_day local_hour customers reply now r n run in
      let kept =
        save-Once (record n { status = sending; updated_at = now }) run.rows (taken run.replies)
          refl o in
      elim (Bool-cases (may_have (reply r n))) [
        | inl had ↦
            after_post-Once-taken (post (reply r n)) n marked (taken run.replies)
              (post-MayBeIn (reply r n) had) (sym (taken-has n.id (reply r n) run.replies had)) f
              kept
        | inr not_had ↦
            let same = sym (taken-lacks n.id (reply r n) run.replies not_had) in
            after_post-Once (post (reply r n)) n marked (subst (Fresh n.id) same f)
              (subst (Once marked.rows) same kept)
      ]

  round-Once :
      (paused : Option Pause) (r : ℕ) (n : Notification) (run : Run)
      → Fresh n.id (taken run.replies)
      → OnceRun run
      → OnceRun
          (result (round settings owners local_day local_hour customers reply now paused r n run))
  unfolding round miss_late miss_withdrawn is_pending
  round-Once paused r n run f o =
      elim (Bool-cases (is_late settings owners local_day local_hour customers reply now n)) [
        | inl y ↦ rw y (save-Once _ run.rows (taken run.replies) refl o)
        | inr no' ↦
            rw no'
              (elim paused
                as (λ p. OnceRun (
                  result (
                    if is_some p then stop run else elim (withdrawn owners (customers r) n) [
                      | some why ↦ again (
                          miss_withdrawn settings owners local_day local_hour customers reply now
                            why n run)
                      | none ↦
                          after_post settings owners local_day local_hour customers reply now
                            (post (reply r n)) n
                            (mark_sending settings owners local_day local_hour customers reply now r
                              n run)
                    ]))) [
                      | some p ↦ o
                      | none ↦ elim (Option-cases (withdrawn owners (customers r) n)) [
                        | inl go ↦ rw go (posted-Once r n run f o)
                        | inr (why, is) ↦ rw is (save-Once _ run.rows (taken run.replies) refl o)
                      ]
                    ])
      ]

  next_round-Once :
      (paused : Option Pause) (r : ℕ) (run : Run)
      → OnceRun run
      → OnceRun (
          result (next_round settings owners local_day local_hour customers reply now paused r run))
  unfolding next_round
  next_round-Once paused r run o = elim (Option-cases (next_pending now run.rows)) [
    | inl none_left ↦ rw (result, none_left) o
    | inr (n, found) ↦
        rw (result, found)
          (round-Once paused r n run
            (next_pending-Fresh now run.rows n (taken run.replies) found o.settled) o)
  ]

  send_loop-Once :
      (paused : Option Pause) (fuel : ℕ) (run done : Run)
      → OnceRun run
      → send_loop settings owners local_day local_hour customers reply now paused fuel run
        ≡ some done
      → OnceRun done
  unfolding send_loop
  send_loop-Once paused zero run done o e = absurd (cc)
  send_loop-Once paused (suc fuel) run done o e =
      let kept = next_round-Once paused fuel run o in
      elim (Next-cases
        (next_round settings owners local_day local_hour customers reply now paused fuel run)) [
          | inl (r, is) ↦
              let end : some r ≡ some done = rw (send_loop, is) at e in
              subst OnceRun (some_injective end) (rw is at kept)
          | inr (r, is) ↦
              send_loop-Once paused fuel r done (rw is at kept) (rw (send_loop, is) at e)
        ]

  close_row-Once :
      (n : Notification) (run : Run)
      → OnceRun run
      → OnceRun (close_row settings owners local_day local_hour customers reply now n run)
  unfolding close_row give_up is_pending
  close_row-Once n run o =
      elim (Bool-cases (is_sending n.status && ltb (n.updated_at + stuck_sending) now)) [
        | inl y ↦ rw y (save-Once _ run.rows (taken run.replies) refl o)
        | inr no' ↦ rw no' o
      ]

  close_stuck-Once :
      (rows : List Notification) (run : Run)
      → OnceRun run
      → OnceRun (close_stuck settings owners local_day local_hour customers reply now rows run)
  unfolding close_stuck
  close_stuck-Once [] run o = o
  close_stuck-Once (n ∷ rows) run o = close_stuck-Once rows _ (close_row-Once n run o)

  -- A call of `send_pending` keeps this true of the posts of all calls: the reminders whose post was
  -- answered by a 200, or went out and was not answered, are all different, none posted twice, and
  -- no row of one of them is pending.
  pub send_pending-Once :
      (run done : Run)
      → Once run.rows (taken run.replies)
      → send_pending settings owners local_day local_hour customers reply now run ≡ some done
      → Once done.rows (taken done.replies)
  unfolding send_pending start_call
  send_pending-Once run done o e =
      elim (Bool-cases (not settings.is_live || not settings.has_credentials)) [
        | inl off ↦
            let end : some (start_call run) ≡ some done = rw off at e in
            subst OnceRun (some_injective end) o
        | inr on ↦
            send_loop-Once run.paused _ _ done (close_stuck-Once run.rows (start_call run) o)
              (rw on at e)
      ]
