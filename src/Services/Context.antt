-- ===== src/Services/Context.antt =====
-- service/service.go, service/utils.go and user_service/user_utils.go: what a request carries, who
-- makes it, and the authorizations by role and by creator. A request reads one clock; the roles are
-- the answer of FetchUserRoles during the request.
use flux_backend.Common.{
  ℕ, Bool, true, Option, some, List, Text, text, Text_eq, ◌≡◌, refl, ◌⊎◌, ◌↔◌, inl, inr, contains,
  ◌==◌, Bool-cases, ◌*◌, ℕ_eq, eq_sound, eq_refl, ap, ◌∙◌, sym, subst,
}
use flux_backend.Services.Result.{
  Result, ok, err, flux, ◌>>=◌, require, present, bind-ok, require-ok, present-ok, ok-injective,
}
use flux_backend.Errors.FluxError.{internal, unauthorized}

pub record Claims : Type 0 where
  pub user_id : ℕ
  pub user_name : Text

-- Nanoseconds since the zero time.Time.
abbrev pub minutes : ℕ → ℕ
minutes n = n * 60000000000

abbrev pub role_manager : Text
role_manager = text "role_manager"

abbrev pub role_hc : Text
role_hc = text "role_hc"

-- A request: the claims in its context, the clock, and the roles that FetchUserRoles answers.
pub record Caller : Type 0 where
  pub claims : Option Claims
  pub now : ℕ
  pub fetch_user_roles : ℕ → Result (List Text)

unfoldable pub get_claims_from_context : Caller → Result Claims
get_claims_from_context c = present c.claims internal

unfoldable pub authorize_user_role : Caller → Text → Result (Unit {0})
authorize_user_role c role = do
  claims ← get_claims_from_context c
  roles ← c.fetch_user_roles claims.user_id
  require (contains roles role) unauthorized

-- The second step of AuthorizeCreatorAccess: any failure to be `role_hc` leads to the comparison.
abbrev creator_check : Result (Unit {0}) → Bool → Result (Unit {0})
creator_check (ok u) same = ok tt
creator_check (err e) same = require same unauthorized

unfoldable pub authorize_creator_access : Caller → ℕ → Result (Unit {0})
authorize_creator_access c creator_id = do
  claims ← get_claims_from_context c
  creator_check (authorize_user_role c role_hc) (claims.user_id == creator_id)

-- Who has a role: the specification that the authorizations are held against.
pub record HasRole (c : Caller) (role : Text) : Type 0 where
  pub who : Claims
  pub roles : List Text
  pub known_claims : c.claims ≡ some who
  pub fetched : c.fetch_user_roles who.user_id ≡ ok roles
  pub held : contains roles role ≡ true

pub record IsUser (c : Caller) (id : ℕ) : Type 0 where
  pub who : Claims
  pub known_claims : c.claims ≡ some who
  pub same_id : who.user_id ≡ id

authorize_user_role-known :
    (c : Caller) (role : Text) (who : Claims) (roles : List Text)
    → c.claims ≡ some who
    → c.fetch_user_roles who.user_id ≡ ok roles
    → authorize_user_role c role ≡ require (contains roles role) unauthorized
unfolding authorize_user_role get_claims_from_context
authorize_user_role-known c role who roles s f = rw (s, f) refl

-- A role is granted exactly to the users who hold it.
pub authorize_user_role_iff :
    (c : Caller) (role : Text) → (authorize_user_role c role ≡ ok tt) ↔ HasRole c role
unfolding authorize_user_role get_claims_from_context
authorize_user_role_iff c role = (forth, back)
  where
    forth : authorize_user_role c role ≡ ok tt → HasRole c role
    forth h =
        let whose = bind-ok (get_claims_from_context c) _ h in
        let fetch = bind-ok (c.fetch_user_roles whose.0.user_id) _ whose.2 in
        record {
          who = whose.0;
          roles = fetch.0;
          known_claims = present-ok c.claims internal whose.1;
          fetched = fetch.1;
          held = require-ok (contains fetch.0 role) unauthorized fetch.2;
        }

    back : HasRole c role → authorize_user_role c role ≡ ok tt
    back h =
        authorize_user_role-known c role h.who h.roles h.known_claims h.fetched
        ∙ ap (λ b. require b unauthorized) h.held

-- A caller whose roles are known and do not include the role is unauthorized.
-- A caller who has a role has it among the roles that are known.
pub HasRole-contains :
    (c : Caller) (role : Text) (who : Claims) (roles : List Text)
    → c.claims ≡ some who
    → c.fetch_user_roles who.user_id ≡ ok roles
    → HasRole c role
    → contains roles role ≡ true
HasRole-contains c role who roles s f h =
    let somebody : some h.who ≡ some who = sym h.known_claims ∙ s in
    let same : h.who ≡ who = cc in
    let fetched : ok h.roles ≡ ok roles =
      sym h.fetched ∙ ap (λ w. c.fetch_user_roles w.user_id) same ∙ f in
    subst (λ r. contains r role ≡ true) (ok-injective fetched) h.held

pub authorize_user_role-unheld :
    (c : Caller) (role : Text) (who : Claims) (roles : List Text)
    → c.claims ≡ some who
    → c.fetch_user_roles who.user_id ≡ ok roles
    → ¬ HasRole c role
    → authorize_user_role c role ≡ err (flux unauthorized)
authorize_user_role-unheld c role who roles s f unheld = elim (Bool-cases (contains roles role)) [
  | inl held ↦
      absurd
        (unheld (record { who = who; roles = roles; known_claims = s; fetched = f; held = held }))
  | inr n ↦ authorize_user_role-known c role who roles s f ∙ ap (λ b. require b unauthorized) n
]

creator_check-ok :
    (r : Result (Unit {0})) (same : Bool)
    → creator_check r same ≡ ok tt
    → (r ≡ ok tt) ⊎ (same ≡ true)
creator_check-ok (ok u) same h = inl refl
creator_check-ok (err e) same h = inr (require-ok same unauthorized h)

creator_check-same : (r : Result (Unit {0})) → creator_check r true ≡ ok tt
creator_check-same (ok u) = refl
creator_check-same (err e) = refl

authorize_creator_access-known :
    (c : Caller) (id : ℕ) (who : Claims)
    → c.claims ≡ some who
    → authorize_creator_access c id
      ≡ creator_check (authorize_user_role c role_hc) (who.user_id == id)
unfolding authorize_creator_access get_claims_from_context
authorize_creator_access-known c id who e =
    ap
      (λ o.
        present o internal
        >>= (λ w. creator_check (authorize_user_role c role_hc) (w.user_id == id)))
      e

-- The access of a creator is granted exactly to the creator and to the holders of `role_hc`, even
-- where the roles cannot be fetched.
pub authorize_creator_access_iff :
    (c : Caller) (id : ℕ)
    → (authorize_creator_access c id ≡ ok tt) ↔ (HasRole c role_hc ⊎ IsUser c id)
unfolding authorize_creator_access get_claims_from_context
authorize_creator_access_iff c id = (forth, λ h. elim h [ inl r ↦ by_role r | inr u ↦ by_id u ])
  where
    by_role : HasRole c role_hc → authorize_creator_access c id ≡ ok tt
    by_role r =
        authorize_creator_access-known c id r.who r.known_claims
        ∙ ap (λ a. creator_check a (r.who.user_id == id)) ((authorize_user_role_iff c role_hc).1 r)

    by_id : IsUser c id → authorize_creator_access c id ≡ ok tt
    by_id u =
        authorize_creator_access-known c id u.who u.known_claims
        ∙ rw (u.same_id, eq_refl id) (creator_check-same (authorize_user_role c role_hc))

    forth : authorize_creator_access c id ≡ ok tt → HasRole c role_hc ⊎ IsUser c id
    forth h =
        let whose = bind-ok (get_claims_from_context c) _ h in
        elim (creator_check-ok (authorize_user_role c role_hc) (whose.0.user_id == id) whose.2) [
          | inl r ↦ inl ((authorize_user_role_iff c role_hc).0 r)
          | inr same ↦ inr (record {
            who = whose.0;
            known_claims = present-ok c.claims internal whose.1;
            same_id = eq_sound whose.0.user_id id same;
          })
        ]
