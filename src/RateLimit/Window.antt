-- ===== src/RateLimit/Window.antt =====
-- No key is admitted more often in a window than it may be.
use agyary.Common.{
  some_injective, ℕ, suc, ◌≤◌, ◌<◌, ◌≡◌, refl, ap, ◌∙◌, inl, inr, none, some, List, [], ◌∷◌, length,
  leb, Bool-cases, arith, subst,
}
use agyary.RateLimit.{recent, hits_of, set_hits, enforce_key}

hits_of-set_hits :
    (key : ℕ) (hits : List ℕ) (store : List (ℕ × List ℕ))
    → hits_of key (set_hits key hits store) ≡ hits
unfolding hits_of set_hits
hits_of-set_hits key hits [] = ground arith
hits_of-set_hits key hits ((k, old) ∷ store) = ground (arith, hits_of-set_hits key hits store)

-- A later window over what an earlier one kept is the later window over all.
recent-recent :
    (window before now : ℕ) (hits : List ℕ)
    → before ≤ now
    → recent window now (recent window before hits) ≡ recent window now hits
unfolding recent
recent-recent window before now [] h = refl
recent-recent window before now (t ∷ hits) h =
    ground (arith, recent-recent window before now hits h)

-- The store agrees with the history of a key's admitted requests on every window that ends at or
-- after the last of them, and the requests of each such window are no more than the limit.
pub record Bounded (max_requests window last : ℕ) (history hits : List ℕ) : Type 0 where
  pub agrees : (now : ℕ) → last ≤ now → recent window now hits ≡ recent window now history
  pub few : (now : ℕ) → last ≤ now → length (recent window now history) ≤ max_requests

recent-few :
    (window before now : ℕ) (hits : List ℕ)
    → before ≤ now
    → length (recent window now hits) ≤ length (recent window before hits)
unfolding recent
recent-few window before now [] h = omega arith
recent-few window before now (t ∷ hits) h = ground (arith, recent-few window before now hits h)

recent-cons :
    (window now t : ℕ) (hits : List ℕ)
    → length (recent window now (t ∷ hits)) ≤ suc (length (recent window now hits))
unfolding recent
recent-cons window now t hits = ground arith

recent-same :
    (window now t : ℕ) (hits others : List ℕ)
    → recent window now hits ≡ recent window now others
    → recent window now (t ∷ hits) ≡ recent window now (t ∷ others)
unfolding recent
recent-same window now t hits others e = rw e refl

admitted :
    (max_requests window now key : ℕ) (store after : List (ℕ × List ℕ))
    → enforce_key max_requests window now key store ≡ some after
    → (length (recent window now (hits_of key store)) < max_requests)
      × (hits_of key after ≡ now ∷ recent window now (hits_of key store))
unfolding enforce_key
admitted max_requests window now key store after e =
    elim (Bool-cases (leb max_requests (length (recent window now (hits_of key store))))) [
      | inl full ↦ absurd (let h : none ≡ some after = rw full at e in (cc))
      | inr free ↦
          let is : some (set_hits key (now ∷ recent window now (hits_of key store)) store)
              ≡ some after =
            rw free at e in
          (
            ground arith,
            subst (λ s. hits_of key s ≡ now ∷ recent window now (hits_of key store))
                (some_injective is) (hits_of-set_hits key _ store),
          )
    ]

-- An admitted request keeps the bound, where its time is not before the last one's: with it the
-- requests of the key admitted in any window that ends at or after its time are no more than the limit.
pub enforce_key-Bounded :
    (max_requests window last now key : ℕ) (history : List ℕ) (store after : List (ℕ × List ℕ))
    → last ≤ now
    → Bounded max_requests window last history (hits_of key store)
    → enforce_key max_requests window now key store ≡ some after
    → Bounded max_requests window now (now ∷ history) (hits_of key after)
enforce_key-Bounded max_requests window last now key history store after h b e =
    let (free, made) = admitted max_requests window now key store after e in
    rw made (record {
      agrees = λ t k.
          recent-same window t now (recent window now (hits_of key store)) history
            (recent-recent window now t (hits_of key store) k ∙ b.agrees t (omega arith));
      few = λ t k. omega (
        arith,
        recent-cons window t now history,
        free,
        recent-few window now t (hits_of key store) k,
        ap length (b.agrees t (omega arith)),
      );
    })

pub recent-one : (window now t : ℕ) → length (recent window now (t ∷ [])) ≤ 1
unfolding recent
recent-one window now t = ground arith
