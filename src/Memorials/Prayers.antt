-- ===== src/Memorials/Prayers.antt =====
-- The prayers of the dates of a memorial: services that the fire temple offers.
use agyary.Common.{
  ℕ, ◌≡◌, refl, ap, ◌∙◌, subst, inl, inr, Option, none, some, List, [], ◌∷◌, true, false, not, ◌&&◌,
  ◌||◌, ◌==◌, Bool-cases, some_injective, All, map, Text, arith,
}
use agyary.Memorial.{
  blank_code, day_code, year_code, month_code, parab_code, fravroj_code, birthday_code, Code,
}
use agyary.Memorials.{
  Outcome, done, >>=-eq-done, done_injective, demanded, no_prayer, date_without_prayer,
}
use agyary.Memorials.Plan.{has_none}
use agyary.Memorials.Saving.{
  Service, get_service_by_id, unique, with_service, found_services, same_ℤ, validated_services,
  code_in, is_anniversary, resolve_overrides, override_of, is_jashan, usual_services,
  chosen_services, or_usual, code_eq,
}

-- A service that the fire temple offers, by its id.
abbrev pub Offers : ℕ → List Service → Service → Type 0
Offers agyary services s = get_service_by_id agyary s.id services ≡ some s

get_service_by_id-id :
    (agyary id : ℕ) (services : List Service) (s : Service)
    → get_service_by_id agyary id services ≡ some s
    → s.id ≡ id
unfolding get_service_by_id
get_service_by_id-id agyary id [] s e = cc
get_service_by_id-id agyary id (t ∷ services) s e =
    elim (Bool-cases (t.id == id && t.agyary_id == agyary && t.is_active)) [
      | inl it ↦ let same : t ≡ s = some_injective (rw it at e) in rw (← same) (ground arith)
      | inr other ↦ get_service_by_id-id agyary id services s (rw other at e)
    ]

with_service-done :
    (o : Option Service) (others : Outcome (List Service)) (found : List Service)
    → with_service o others ≡ done found
    → (s : Service) × (rest : List Service) × (o ≡ some s)
      × (others ≡ done rest)
      × (s ∷ rest ≡ found)
unfolding with_service
with_service-done none others found e = absurd (cc)
with_service-done (some s) others found e =
    let (rest, is, made) = >>=-eq-done others _ e in (s, rest, refl, is, done_injective made)

found_services-Offers :
    (agyary : ℕ) (services : List Service) (ids : List ℕ) (found : List Service)
    → found_services agyary services ids ≡ done found
    → All (Offers agyary services) found
unfolding found_services
found_services-Offers agyary services [] found e =
    subst (All (Offers agyary services)) (done_injective e) tt
found_services-Offers agyary services (id ∷ ids) found e =
    let (s, rest, at, others, made) =
      with_service-done (get_service_by_id agyary id services) (found_services agyary services ids)
        found e in
    subst (All (Offers agyary services)) made (
      (
        ap (λ i. get_service_by_id agyary i services) (get_service_by_id-id agyary id services s at)
            ∙ at,
        found_services-Offers agyary services ids rest others,
      ))

-- What is validated is offered.
pub validated_services-Offers :
    (agyary : ℕ) (services : List Service) (ids : List ℕ) (found : List Service)
    → validated_services agyary services ids ≡ done found
    → All (Offers agyary services) found
unfolding validated_services
validated_services-Offers agyary services ids found e =
    found_services-Offers agyary services (unique [] ids) found
      (demanded (not (has_none (unique [] ids))) no_prayer _ e).1

-- The prayers that are set for single dates.
abbrev pub SetPrayers :
    ℕ → List Service → List (Code × List ℕ) → List (Code × List Service) → Type 0
SetPrayers agyary services wished overrides =
    All (λ o. (code_in o.0 (map (λ w. w.0) wished) ≡ true) × All (Offers agyary services) o.1)
      overrides

code_in-more :
    (code c : Code) (cs : List Code) → code_in code cs ≡ true → code_in code (c ∷ cs) ≡ true
unfolding code_in
code_in-more code c cs h = ground arith

SetPrayers-more :
    (agyary : ℕ) (services : List Service) (w : Code × List ℕ) (wished : List (Code × List ℕ))
    (overrides : List (Code × List Service))
    → SetPrayers agyary services wished overrides
    → SetPrayers agyary services (w ∷ wished) overrides
SetPrayers-more agyary services w wished [] h = tt
SetPrayers-more agyary services w wished (o ∷ overrides) h = (
  (code_in-more o.0 w.0 (map (λ w. w.0) wished) h.0.0, h.0.1),
  SetPrayers-more agyary services w wished overrides h.1,
)

code_eq_refl : (c : Code) → code_eq c c ≡ true
unfolding code_eq same_ℤ
code_eq_refl blank_code = refl
code_eq_refl (day_code n) = ground arith
code_eq_refl (year_code n) = ground arith
code_eq_refl (month_code n) = ground arith
code_eq_refl (parab_code n y) = ground arith
code_eq_refl (fravroj_code y n) = ground arith
code_eq_refl (birthday_code y) = ground arith

code_in_head : (c : Code) (cs : List Code) → code_in c (c ∷ cs) ≡ true
unfolding code_in
code_in_head c cs = rw (code_eq_refl c)

-- The prayers of single dates are offered, for dates that were asked for.
pub resolve_overrides-SetPrayers :
    (agyary : ℕ) (services : List Service) (kept : List Code) (wished : List (Code × List ℕ))
    (overrides : List (Code × List Service))
    → resolve_overrides agyary services kept wished ≡ done overrides
    → SetPrayers agyary services wished overrides
unfolding resolve_overrides
resolve_overrides-SetPrayers agyary services kept [] overrides e =
    subst (SetPrayers agyary services []) (done_injective e) tt
resolve_overrides-SetPrayers agyary services kept ((code, ids) ∷ wished) overrides e =
    elim (Bool-cases (code_in code kept)) [
      | inr gone ↦
          SetPrayers-more agyary services (code, ids) wished overrides
            (resolve_overrides-SetPrayers agyary services kept wished overrides (rw gone at e))
      | inl there ↦
          let (has_some, e1) =
            demanded (not (has_none ids)) date_without_prayer _ (rw there at e) in
          let (found, offered, e2) = >>=-eq-done (validated_services agyary services ids) _ e1 in
          let (others, rest, made) =
            >>=-eq-done (resolve_overrides agyary services kept wished) _ e2 in
          subst (SetPrayers agyary services ((code, ids) ∷ wished)) (done_injective made) (
            (
              (
                code_in_head code (map (λ w. w.0) wished),
                validated_services-Offers agyary services ids found offered,
              ),
              SetPrayers-more agyary services (code, ids) wished others
                  (resolve_overrides-SetPrayers agyary services kept wished others rest),
            ))
    ]

code_eq-eq : (a b : Code) → code_eq a b ≡ true → a ≡ b
unfolding code_eq same_ℤ
code_eq-eq blank_code blank_code h = refl
code_eq-eq (day_code a) (day_code b) h = ground arith
code_eq-eq (year_code a) (year_code b) h = ground arith
code_eq-eq (month_code a) (month_code b) h = ground arith
code_eq-eq (parab_code a y) (parab_code b z) h = ground arith
code_eq-eq (fravroj_code y a) (fravroj_code z b) h = ground arith
code_eq-eq (birthday_code y) (birthday_code z) h = ground arith
code_eq-eq _ _ h = cc

-- A date has the prayers that were set for it, which are offered, and no others are set.
pub override_of-Offers :
    (agyary : ℕ) (services : List Service) (wished : List (Code × List ℕ))
    (overrides : List (Code × List Service)) (code : Code)
    → SetPrayers agyary services wished overrides
    → All (Offers agyary services) (override_of code overrides)
unfolding override_of
override_of-Offers agyary services wished [] code h = tt
override_of-Offers agyary services wished ((c, found) ∷ overrides) code h =
    elim (Bool-cases (code_eq c code)) [
      | inl it ↦ rw it h.0.1
      | inr other ↦ rw other (override_of-Offers agyary services wished overrides code h.1)
    ]

pub override_of_none :
    (agyary : ℕ) (services : List Service) (wished : List (Code × List ℕ))
    (overrides : List (Code × List Service)) (code : Code)
    → SetPrayers agyary services wished overrides
    → code_in code (map (λ w. w.0) wished) ≡ false
    → override_of code overrides ≡ []
unfolding override_of
override_of_none agyary services wished [] code h unset = refl
override_of_none agyary services wished ((c, found) ∷ overrides) code h unset =
    elim (Bool-cases (code_eq c code)) [
      | inl it ↦ absurd (
          let k : code_in code (map (λ w. w.0) wished) ≡ true =
            subst (λ x. code_in x (map (λ w. w.0) wished) ≡ true) (code_eq-eq c code it) h.0.0 in
          (cc))
      | inr other ↦ rw other (override_of_none agyary services wished overrides code h.1 unset)
    ]

module _ (lower_case : Text → Text) where
  -- Jashan stands among the prayers of anniversaries only.
  abbrev pub JashanFits : Code → List Service → Type 0
  JashanFits code services =
      All (λ s. is_jashan lower_case s ≡ true → is_anniversary code ≡ true) services

  pub usual_services-fit :
      (agyary : ℕ) (table : List Service) (code : Code) (services : List Service)
      → All (Offers agyary table) services
      → All (Offers agyary table) (usual_services lower_case code services)
        × JashanFits code (usual_services lower_case code services)
  unfolding usual_services
  usual_services-fit agyary table code [] h = (tt, tt)
  usual_services-fit agyary table code (s ∷ services) h =
      let (offered, fits) = usual_services-fit agyary table code services h.1 in
      elim (Bool-cases (not (is_jashan lower_case s) || is_anniversary code)) [
        | inl stays ↦ rw stays ((h.0, offered), ((λ jashan. rw jashan at stays), fits))
        | inr goes ↦ rw goes (offered, fits)
      ]

  or_usual-Offers :
      (agyary : ℕ) (table found usual : List Service)
      → All (Offers agyary table) found
      → All (Offers agyary table) usual
      → All (Offers agyary table) (or_usual found usual)
  unfolding or_usual
  or_usual-Offers agyary table [] usual h k = k
  or_usual-Offers agyary table (s ∷ found) usual h k = h

  -- The prayers of a date are offered, and Jashan is among them only on an anniversary, where the
  -- prayers were not set for that date.
  pub chosen_services-fit :
      (agyary : ℕ) (table : List Service) (wished : List (Code × List ℕ))
      (overrides : List (Code × List Service)) (services : List Service) (code : Code)
      → SetPrayers agyary table wished overrides
      → All (Offers agyary table) services
      → All (Offers agyary table) (chosen_services lower_case overrides services code)
        × (code_in code (map (λ w. w.0) wished) ≡ false
            → JashanFits code (chosen_services lower_case overrides services code))
  unfolding chosen_services or_usual
  chosen_services-fit agyary table wished overrides services code h k =
      let (offered, fits) = usual_services-fit agyary table code services k in
      (
        or_usual-Offers agyary table (override_of code overrides)
            (usual_services lower_case code services)
            (override_of-Offers agyary table wished overrides code h) offered,
        λ unset. rw (override_of_none agyary table wished overrides code h unset) fits,
      )
