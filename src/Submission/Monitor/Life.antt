-- ===== src/Submission/Monitor/Life.antt =====
-- When a monitor ends its life.
use flux_backend.Common.{
  ℕ, ◌+◌, ◌<◌, Bool, true, false, List, [], ◌∷◌, ◌++◌, ◌≡◌, refl, sym, ap, ◌⊎◌, ◌≢◌, arith,
  if◌then◌else◌, ltb, ◌↔◌, ◌∙◌,
}
use flux_backend.Submission.Model.{Body, stop, keep_alive}
use flux_backend.Submission.Monitor.{CfBotMonitor, process_mail, tick, cycle, five_minutes}

-- The bot manager's signals: whether it is a stop, and its time.
abbrev pub signal : Bool × ℕ → Body
signal (true, t) = stop t
signal (false, t) = keep_alive t

pub process_signals : CfBotMonitor → List (Bool × ℕ) → CfBotMonitor
process_signals m [] = m
process_signals m (s ∷ ss) = process_signals (process_mail 0 m (signal s)) ss

abbrev pub later_of : Bool × ℕ → Bool × ℕ → Bool × ℕ
later_of best s = if ltb best.1 s.1 then s else best

-- The kind and time of the latest signal, starting from what is known; ties go to the earlier entry.
pub latest : Bool × ℕ → List (Bool × ℕ) → Bool × ℕ
latest best [] = best
latest best (s ∷ ss) = latest (later_of best s) ss

abbrev pub decision : CfBotMonitor → Bool × ℕ
decision m = (m.stop_decision.end_life, m.stop_decision.lts_signal)

decision-signal :
    (m : CfBotMonitor) (k : Bool) (t : ℕ)
    → decision (process_mail 0 m (signal (k, t))) ≡ later_of (decision m) (k, t)
unfolding process_mail
decision-signal m true t = ground arith
decision-signal m false t = ground arith

-- A monitor follows the latest signal: after any sequence of stop and keep-alive signals its
-- decision to end and the time of its latest signal are those of the latest one, or, if none of them
-- is later than what it had, those that it had.
pub process_signals-latest :
    (ss : List (Bool × ℕ)) (m : CfBotMonitor)
    → decision (process_signals m ss) ≡ latest (decision m) ss
unfolding process_signals latest
process_signals-latest [] m = refl
process_signals-latest ((k, t) ∷ ss) m =
    process_signals-latest ss (process_mail 0 m (signal (k, t)))
    ∙ ap (λ b. latest b ss) (decision-signal m k t)

later_of_comm :
    (best a b : Bool × ℕ) → a.1 ≢ b.1 → later_of (later_of best a) b ≡ later_of (later_of best b) a
later_of_comm (k, t) (ka, ta) (kb, tb) ne = ground arith

-- The order of arrival plays no part: two signals of different times may change places anywhere in a
-- sequence, and the monitor comes to the same decision.
pub process_signals-reorder :
    (m : CfBotMonitor) (xs ys : List (Bool × ℕ)) (a b : Bool × ℕ)
    → a.1 ≢ b.1
    → decision (process_signals m (xs ++ a ∷ b ∷ ys))
      ≡ decision (process_signals m (xs ++ b ∷ a ∷ ys))
unfolding process_signals
process_signals-reorder m [] ys a b ne =
    process_signals-latest (a ∷ b ∷ ys) m ∙ (swapped ∙ sym (process_signals-latest (b ∷ a ∷ ys) m))
  where
    swapped : latest (decision m) (a ∷ b ∷ ys) ≡ latest (decision m) (b ∷ a ∷ ys)
    swapped = unfold latest in ap (λ c. latest c ys) (later_of_comm (decision m) a b ne)
process_signals-reorder m (x ∷ xs) ys a b ne =
    process_signals-reorder (process_mail 0 m (signal x)) xs ys a b ne

-- At a tick a monitor goes on exactly if it has not been told to end, or less than five minutes have
-- passed since its latest stop decision.
pub tick_goes_on_iff :
    (now : ℕ) (m : CfBotMonitor)
    → (tick now m ≡ cycle) ↔ (
        (m.stop_decision.end_life ≡ false)
        ⊎ (now < m.stop_decision.lts_stop_decision + five_minutes))
unfolding tick
tick_goes_on_iff now m = (λ h. ground arith, λ h. ground arith)
