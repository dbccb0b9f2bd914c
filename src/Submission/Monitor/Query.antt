-- ===== src/Submission/Monitor/Query.antt =====
-- What a monitor makes of the answer of Codeforces, and when it asks.
use flux_backend.Common.{
  true, false, not, Option, none, some, List, [], ◌∷◌, ◌≡◌, refl, ap, arith, Text, text, Text_eq,
  ◌==◌, if◌then◌else◌, any, map, Bool-cases, eq_sound, inl, inr, All,
}
use flux_backend.Common.Int.{ℤ}
use flux_backend.Submission.Model.{CfSubStatus, is_cf_sub_sink_state}
use flux_backend.Submission.Monitor.{CfBotMonitor, should_query_cf, refresh_status, is_cold_start}

-- The decoded response; a failure before that is `none` below.
pub record Response : Type 0 where
  pub status : Text
  pub result : List CfSubStatus

-- The loop over the result. Go's loop variable `stat` is a copy of the element: the assignment
-- changes the copy, which the next round replaces, and the slice keeps its elements.
fill_verdicts : List CfSubStatus → List CfSubStatus
fill_verdicts [] = []
fill_verdicts (elem ∷ rest) =
    let stat = if elem.verdict == [] then record elem { verdict = text "TESTING" } else elem in
    elem ∷ fill_verdicts rest

unfoldable pub query_submissions : Option Response → Option (List CfSubStatus)
unfolding fill_verdicts
query_submissions none = none
query_submissions (some r) =
    if r.status == text "FAILED"
    then none
    else if r.status == text "OK"
    then some (fill_verdicts r.result)
    else none

fill_verdicts_same : (l : List CfSubStatus) → fill_verdicts l ≡ l
unfolding fill_verdicts
fill_verdicts_same [] = refl
fill_verdicts_same (x ∷ xs) = ap (◌∷◌ x) (fill_verdicts_same xs)

ok_case :
    (status : Text)
    → status ≡ text "OK"
    → {l result : List CfSubStatus} → l ≡ result
    → (if status == text "FAILED" then none else if status == text "OK" then some l else none)
      ≡ (if status == text "OK" then some result else none)
ok_case status e same = rw (e, same)

-- A response with status OK passes through as it is: no empty verdict is replaced. Any other status,
-- or no response, is a failure.
pub query_submissions_lem :
    (r : Option Response)
    → query_submissions r
      ≡ elim r [ none ↦ none | some s ↦ (if s.status == text "OK" then some s.result else none) ]
unfolding query_submissions
query_submissions_lem none = refl
query_submissions_lem (some r) = elim (Bool-cases (r.status == text "OK")) [
  | inl e ↦ ok_case r.status (eq_sound r.status (text "OK") e) (fill_verdicts_same r.result)
  | inr e ↦ ground arith
]

none_open :
    (es : List (ℤ × CfSubStatus))
    → All (λ x. is_cf_sub_sink_state (x.1).verdict ≡ true) es
    → any (λ x. not (is_cf_sub_sink_state (x.1).verdict)) es ≡ false
none_open [] h = refl
none_open (e ∷ es) h = ground (arith, none_open es h.1)

-- A monitor whose record holds no unfinished submission, and is not empty, does not ask Codeforces:
-- whatever the answer would be, it goes on with what it has and changes nothing.
pub refresh_status-idle :
    (m : CfBotMonitor) (e : ℤ × CfSubStatus) (es : List (ℤ × CfSubStatus))
    (answer : Option (List CfSubStatus))
    → m.sub_stat_map ≡ e ∷ es
    → All (λ x. is_cf_sub_sink_state (x.1).verdict ≡ true) (e ∷ es)
    → refresh_status m answer ≡ (m, some (map (λ x. x.1) m.sub_stat_map))
unfolding refresh_status should_query_cf
refresh_status-idle m e es answer shape finished =
    let cold : is_cold_start m ≡ false = rw (shape, is_cold_start) refl in
    let settled : should_query_cf m ≡ false =
      rw (shape, should_query_cf) (none_open (e ∷ es) finished) in
    ground (arith, settled, cold)
