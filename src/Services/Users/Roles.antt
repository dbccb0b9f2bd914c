-- ===== src/Services/Users/Roles.antt =====
-- user_service/user_utils.go: FetchUserRoles, with its cache. The cache is that of the package
-- golang-lru, an interface here; its documented behaviour is that a lookup changes no entry, that an
-- entry that was added is found, and that adding may drop other entries but changes none.
use flux_backend.Common.{
  ℕ, ◌≡◌, refl, sym, ◌∙◌, ap, Option, none, some, List, [], ◌∷◌, Text, text, ◌⊎◌, inl, inr, All,
}
use flux_backend.Errors.{DbError}
use flux_backend.Errors.FluxError.{internal}
use flux_backend.Services.Result.{Result, ok, err, flux, Answer}

pub record Lru (Cache : Type 0) : Type 0 where
  pub find : Cache → ℕ → Option (List Text)
  pub touch : Cache → ℕ → Cache
  pub put : Cache → ℕ → List Text → Cache

pub record LruLaws (Cache : Type 0) (lru : Lru Cache) : Type 0 where
  pub find-touch : (c : Cache) (i j : ℕ) → lru.find (lru.touch c i) j ≡ lru.find c j
  pub find-add :
      (c : Cache) (i j : ℕ) (roles found : List Text)
      → lru.find (lru.put c i roles) j ≡ some found
      → ((i ≡ j) × (found ≡ roles)) ⊎ (lru.find c j ≡ some found)

-- Every user has the role `User`, and those of the table.
abbrev pub all_roles : List Text → List Text
all_roles roles = text "User" ∷ roles

module _ (Cache : Type 0) (lru : Lru Cache) where
  -- The roles behind a miss are stored.
  abbrev pub from_db : Cache → ℕ → Answer (List Text) → Result (List Text) × Cache
  from_db c id (inl e) = (err (flux internal), c)
  from_db c id (inr roles) = (ok (all_roles roles), lru.put c id (all_roles roles))

  abbrev pub from_cache :
      Cache → ℕ → Answer (List Text) → Option (List Text) → Result (List Text) × Cache
  from_cache c id answer (some roles) = (ok roles, c)
  from_cache c id answer none = from_db c id answer

  -- Get counts as a use of the entry. `answer` is what the query for the roles answers.
  unfoldable pub fetch_user_roles : Cache → ℕ → Answer (List Text) → Result (List Text) × Cache
  fetch_user_roles c id answer = from_cache (lru.touch c id) id answer (lru.find c id)

  -- Calls one after the other, each with what its query answers, if it is made.
  unfoldable pub fetch_many :
      Cache → List (ℕ × Answer (List Text)) → List (Result (List Text)) × Cache
  fetch_many c [] = ([], c)
  fetch_many c ((id, answer) ∷ calls) =
      let one = fetch_user_roles c id answer in
      let rest = fetch_many one.1 calls in (one.0 ∷ rest.0, rest.1)

  -- The cache holds what the table says.
  abbrev pub IsCoherent : (ℕ → List Text) → Cache → Type 0
  IsCoherent roles c =
      (id : ℕ) (found : List Text) → lru.find c id ≡ some found → found ≡ all_roles (roles id)

  module _ (laws : LruLaws Cache lru) (roles : ℕ → List Text) where
    touch-IsCoherent : (c : Cache) (id : ℕ) → IsCoherent roles c → IsCoherent roles (lru.touch c id)
    touch-IsCoherent c id good j found h = good j found (sym (laws.find-touch c id j) ∙ h)

    add-IsCoherent :
        (c : Cache) (id : ℕ)
        → IsCoherent roles c
        → IsCoherent roles (lru.put c id (all_roles (roles id)))
    add-IsCoherent c id good j found h =
        elim (laws.find-add c id j (all_roles (roles id)) found h) [
          | inl (same, new) ↦ new ∙ ap (λ i. all_roles (roles i)) same
          | inr old ↦ good j found old
        ]

    -- A query fails, or answers what the table says.
    abbrev pub IsFaithful : ℕ → Answer (List Text) → Type 0
    IsFaithful id answer = (answer ≡ inr (roles id)) ⊎ ((e : DbError) × (answer ≡ inl e))

    -- A call returns the roles of the table, or the query fails and the call with it.
    abbrev pub Returns : ℕ → Answer (List Text) → Result (List Text) → Type 0
    Returns id answer r =
        (r ≡ ok (all_roles (roles id)))
        ⊎ ((r ≡ err (flux internal)) × ((e : DbError) × (answer ≡ inl e)))

    -- The calls and their results correspond.
    abbrev pub AllReturn : List (ℕ × Answer (List Text)) → List (Result (List Text)) → Type 0
    AllReturn [] [] = Unit
    AllReturn [] (r ∷ rs) = ⊥
    AllReturn (call ∷ calls) [] = ⊥
    AllReturn ((id, answer) ∷ calls) (r ∷ rs) = Returns id answer r × AllReturn calls rs

    -- One call answers as the table does, and keeps the cache coherent.
    fetch-from :
        (c : Cache) (id : ℕ) (o : Option (List Text)) (answer : Answer (List Text))
        → IsCoherent roles c
        → lru.find c id ≡ o
        → IsFaithful id answer
        → Returns id answer (from_cache (lru.touch c id) id answer o).0
          × IsCoherent roles (from_cache (lru.touch c id) id answer o).1
    fetch-from c id (some found) answer good h faithful =
        (inl (ap ok (good id found h)), touch-IsCoherent c id good)
    fetch-from c id none answer good h (inr (e, fails)) =
        rw fails (inr (refl, (e, refl)), touch-IsCoherent c id good)
    fetch-from c id none answer good h (inl says) =
        rw says (inl refl, add-IsCoherent (lru.touch c id) id (touch-IsCoherent c id good))

    -- With a coherent cache, and while the table keeps the roles of every user, every call of a sequence
    -- returns the roles of the table, or, where its query fails, possibly an internal error, whatever
    -- the cache drops; and the cache stays coherent.
    pub fetch_many-refines :
        (c : Cache) (calls : List (ℕ × Answer (List Text)))
        → IsCoherent roles c
        → All (λ x. IsFaithful x.0 x.1) calls
        → AllReturn calls (fetch_many c calls).0 × IsCoherent roles (fetch_many c calls).1
    unfolding fetch_many fetch_user_roles
    fetch_many-refines c [] good faithful = (tt, good)
    fetch_many-refines c ((id, answer) ∷ calls) good faithful =
        let one = fetch-from c id (lru.find c id) answer good refl faithful.0 in
        let rest =
          fetch_many-refines (from_cache (lru.touch c id) id answer (lru.find c id)).1 calls one.1
            faithful.1 in
        ((one.0, rest.0), rest.1)
