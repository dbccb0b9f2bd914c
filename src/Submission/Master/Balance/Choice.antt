-- ===== src/Submission/Master/Balance/Choice.antt =====
-- The choice of the slave with the fewest submissions.
use flux_backend.Common.{
  ℕ, suc, ◌+◌, Bool, some, List, [], ◌∷◌, ◌≡◌, refl, sym, ap, ◌∙◌, arith, Text_eq, ℕ_eq, get_elem?,
  if◌then◌else◌, Bool-cases, inl, inr, All, subst,
}
use flux_backend.Common.Int.{ltbℤ, ◌≤ℤ◌}
use flux_backend.Submission.Master.{Slave, least_from}

-- The loop over the slaves ends with a place of the whole list and the slave there.
pub least_from-place :
    (xs : List Slave) (best_i : ℕ) (best : Slave) (i : ℕ) (ss : List Slave)
    → get_elem? xs best_i ≡ some best
    → ((j : ℕ) → get_elem? ss j ≡ get_elem? xs (i + j))
    → get_elem? xs (least_from best_i best i ss).0 ≡ some (least_from best_i best i ss).1
unfolding least_from
least_from-place xs bi b i [] e h = e
least_from-place xs bi b i (s ∷ ss) e h =
    let next : (j : ℕ) → get_elem? ss j ≡ get_elem? xs (suc i + j) = λ j.
      let shift : i + suc j ≡ suc i + j = omega arith in
      subst (λ n. get_elem? ss j ≡ get_elem? xs n) shift (h (suc j)) in
    elim (Bool-cases (ltbℤ s.num_act_subs b.num_act_subs)) [
      | inl t ↦
          let same : i + 0 ≡ i = omega arith in
          let here = subst (λ n. get_elem? xs n ≡ some s) same (sym (h 0)) in
          rw t (least_from-place xs i s (suc i) ss here next)
      | inr f ↦ rw f (least_from-place xs bi b (suc i) ss e next)
    ]

pub least_from-cons :
    (best_i : ℕ) (best : Slave) (i : ℕ) (s : Slave) (ss : List Slave)
    → least_from best_i best i (s ∷ ss) ≡ (
        if ltbℤ s.num_act_subs best.num_act_subs
        then least_from i s (suc i) ss
        else least_from best_i best (suc i) ss)
unfolding least_from
least_from-cons bi b i s ss = refl

abbrev pub Below : List Slave → Slave → ℕ × Slave → Type 0
Below ss b r =
    (r.1.num_act_subs ≤ℤ b.num_act_subs) × All (λ t. r.1.num_act_subs ≤ℤ t.num_act_subs) ss

-- No slave has fewer submissions than the one that the loop ends with.
pub least_from-least :
    (best_i : ℕ) (best : Slave) (i : ℕ) (ss : List Slave)
    → Below ss best (least_from best_i best i ss)
unfolding least_from
least_from-least bi b i [] = (omega arith, tt)
least_from-least bi b i (s ∷ ss) = elim (Bool-cases (ltbℤ s.num_act_subs b.num_act_subs)) [
  | inl t ↦
      let h = least_from-least i s (suc i) ss in
      let e =
        least_from-cons bi b i s ss
        ∙ ap (λ (c : Bool). if c then least_from i s (suc i) ss else least_from bi b (suc i) ss)
            t in
      subst (Below (s ∷ ss) b) (sym e) (ground (arith, h.0), (h.0, h.1))
  | inr f ↦
      let h = least_from-least bi b (suc i) ss in
      let e =
        least_from-cons bi b i s ss
        ∙ ap (λ (c : Bool). if c then least_from i s (suc i) ss else least_from bi b (suc i) ss)
            f in
      subst (Below (s ∷ ss) b) (sym e) (h.0, (ground (arith, h.0), h.1))
]
