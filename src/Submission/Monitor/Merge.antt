-- ===== src/Submission/Monitor/Merge.antt =====
-- updateEntriesIntoDB: the two-pointer loop over the entries of Codeforces and of the database, both
-- sorted by the id of the submission.
use flux_backend.Common.{
  ℕ, Bool, true, false, not, none, some, List, [], ◌∷◌, ◌++◌, ◌≡◌, refl, sym, ap, ap₂, ◌∙◌, inl,
  inr, arith, if◌then◌else◌, find?, All, Bool-cases, ◌==◌,
}
use flux_backend.Common.Int.{ℤ, ltbℤ, ◌<ℤ◌, ◌≤ℤ◌, ℤ_eq}
use flux_backend.Submission.Model.{CfSubStatus, CfSubResult, equal}

-- The six slices that the loop appends to, row by row: the entry of Codeforces and the submission.
abbrev Row : Type 0
Row = CfSubStatus × ℕ

-- The rest of the loop once the heads of both lists are compared.
pub changes : List CfSubStatus → List CfSubResult → List Row
changes [] ds = []
changes (h ∷ hs) [] = []
changes (h ∷ hs) (d ∷ ds) =
    let later = changes (h ∷ hs) ds in
    let skipped = changes hs (d ∷ ds) in
    let both = changes hs ds in
    if ltbℤ d.status.cf_sub_id h.cf_sub_id
    then later
    else if ltbℤ h.cf_sub_id d.status.cf_sub_id
    then skipped
    else if not (equal h d.status)
    then (h, d.submission_id) ∷ both
    else both

-- What is to be updated, said without the order of the lists: each entry of Codeforces that the
-- database has under the same id with another status.
pub change_of : List CfSubResult → CfSubStatus → List Row
change_of ds h = elim (find? (λ d. d.status.cf_sub_id == h.cf_sub_id) ds) [
  | none ↦ []
  | some d ↦ if not (equal h d.status) then (h, d.submission_id) ∷ [] else []
]

pub all_changes : List CfSubStatus → List CfSubResult → List Row
all_changes [] ds = []
all_changes (h ∷ hs) ds = change_of ds h ++ all_changes hs ds

-- Sorted by id, and no id twice.
abbrev pub Ascending {ℓ} : {A : Type ℓ} → (A → ℤ) → List A → Type 0
Ascending key [] = Unit
Ascending key (x ∷ xs) = All (λ y. key x <ℤ key y) xs × Ascending key xs

change_of-drop :
    (h : CfSubStatus) (d : CfSubResult) (ds : List CfSubResult)
    → d.status.cf_sub_id <ℤ h.cf_sub_id
    → change_of (d ∷ ds) h ≡ change_of ds h
unfolding change_of
change_of-drop h d ds l = ground arith

all_changes-drop :
    (hs : List CfSubStatus) (d : CfSubResult) (ds : List CfSubResult)
    → All (λ h. d.status.cf_sub_id <ℤ h.cf_sub_id) hs
    → all_changes hs (d ∷ ds) ≡ all_changes hs ds
unfolding all_changes
all_changes-drop [] d ds l = refl
all_changes-drop (h ∷ hs) d ds l =
    ap₂ ◌++◌ (change_of-drop h d ds l.0) (all_changes-drop hs d ds l.1)

all_changes-nil : (hs : List CfSubStatus) → all_changes hs [] ≡ []
unfolding all_changes change_of
all_changes-nil [] = refl
all_changes-nil (h ∷ hs) = all_changes-nil hs

change_of-absent :
    (h : CfSubStatus) (ds : List CfSubResult)
    → All (λ d. h.cf_sub_id <ℤ d.status.cf_sub_id) ds
    → change_of ds h ≡ []
unfolding change_of
change_of-absent h [] l = refl
change_of-absent h (d ∷ ds) l = ground (arith, change_of-absent h ds l.1)

below_each {ℓ} :
    {A : Type ℓ} (key : A → ℤ) (a b : ℤ) (xs : List A)
    → a ≤ℤ b
    → All (λ x. b <ℤ key x) xs
    → All (λ x. a <ℤ key x) xs
below_each key a b [] l h = tt
below_each key a b (x ∷ xs) l h = (omega arith, below_each key a b xs l h.1)

change_of-match :
    (h : CfSubStatus) (d : CfSubResult) (ds : List CfSubResult)
    → ltbℤ d.status.cf_sub_id h.cf_sub_id ≡ false
    → ltbℤ h.cf_sub_id d.status.cf_sub_id ≡ false
    → change_of (d ∷ ds) h ≡ (if not (equal h d.status) then (h, d.submission_id) ∷ [] else [])
unfolding change_of
change_of-match h d ds l m = ground arith

step_over :
    (h : CfSubStatus) (hs : List CfSubStatus) (ds : List CfSubResult) (rows : List Row)
    → change_of ds h ≡ []
    → rows ≡ all_changes hs ds
    → rows ≡ all_changes (h ∷ hs) ds
unfolding all_changes
step_over h hs ds rows e r = rw e r

meet :
    (h : CfSubStatus) (hs : List CfSubStatus) (ds : List CfSubResult) (b : Bool) (row : Row)
    (rows : List Row)
    → change_of ds h ≡ (if b then row ∷ [] else [])
    → rows ≡ all_changes hs ds
    → (if b then row ∷ rows else rows) ≡ all_changes (h ∷ hs) ds
unfolding all_changes
meet h hs ds true row rows e r = rw e (ap (◌∷◌ row) r)
meet h hs ds false row rows e r = rw e r

-- On lists that are sorted by id with no id twice, the two-pointer loop collects exactly the entries
-- of Codeforces that the database has under the same id with another status, each with the
-- submission that the database names, in the order of their ids.
pub changes-eq-all_changes :
    (hs : List CfSubStatus) (ds : List CfSubResult)
    → Ascending (λ h. h.cf_sub_id) hs
    → Ascending (λ d. d.status.cf_sub_id) ds
    → changes hs ds ≡ all_changes hs ds
unfolding changes
changes-eq-all_changes [] ds sh sd = unfold all_changes in refl
changes-eq-all_changes (h ∷ hs) [] sh sd = sym (all_changes-nil (h ∷ hs))
changes-eq-all_changes (h ∷ hs) (d ∷ ds) sh sd =
    let later = changes-eq-all_changes (h ∷ hs) ds sh sd.1 in
    let skipped = changes-eq-all_changes hs (d ∷ ds) sh.1 sd in
    let both = changes-eq-all_changes hs ds sh.1 sd.1 in
    elim (Bool-cases (ltbℤ d.status.cf_sub_id h.cf_sub_id)) [
      | inl e ↦
          let below =
            below_each (λ (x : CfSubStatus). x.cf_sub_id) d.status.cf_sub_id h.cf_sub_id hs in
          rw (e, changes)
            (later ∙ sym (all_changes-drop (h ∷ hs) d ds (ground arith, below (ground arith) sh.0)))
      | inr e ↦ elim (Bool-cases (ltbℤ h.cf_sub_id d.status.cf_sub_id)) [
        | inl f ↦
            let above =
              below_each (λ (x : CfSubResult). x.status.cf_sub_id) h.cf_sub_id d.status.cf_sub_id
                ds in
            rw (e, changes)
              (rw f (
                step_over h hs (d ∷ ds) (changes hs (d ∷ ds))
                  (change_of-absent h (d ∷ ds) (ground arith, above (ground arith) sd.0)) skipped))
        | inr f ↦
            let below =
              below_each (λ (x : CfSubStatus). x.cf_sub_id) d.status.cf_sub_id h.cf_sub_id hs in
            rw (e, changes)
              (rw f (
                meet h hs (d ∷ ds) (not (equal h d.status)) (h, d.submission_id) (changes hs ds)
                  (change_of-match h d ds e f)
                  (both ∙ sym (all_changes-drop hs d ds (below (ground arith) sh.0)))))
      ]
    ]
