-- ===== src/Submission/BotManager/RoundRobin.antt =====
-- A slave goes round its bots in turn.
use native.Mathlib.Nat.{mod-lt, mod-add-mod}
use flux_backend.Common.{
  ℕ, zero, suc, ◌+◌, ◌%◌, ◌<◌, some, List, [], ◌∷◌, ◌≡◌, refl, arith, length, get_elem?, inl,
  lookup, ℕ_eq,
}
use flux_backend.Common.Int.{ℤ}
use flux_backend.Submission.Model.{Bot}
use flux_backend.Submission.BotManager.{NyxSlaveDist, NyxBotMgr, next_bot, next_index, get_bot}

pub uses : ℕ → NyxSlaveDist → NyxSlaveDist
uses zero d = d
uses (suc k) d = (next_bot (uses k d)).0

get_elem?-lt {ℓ} :
    {A : Type ℓ} (xs : List A) (i : ℕ) → i < length xs → (a : A) × (get_elem? xs i ≡ some a)
get_elem?-lt [] i h = elim h [ ]
get_elem?-lt (x ∷ xs) zero h = (x, refl)
get_elem?-lt (x ∷ xs) (suc i) h = get_elem?-lt xs i (omega arith)

next_index-lt : (i : ℤ) (n : ℕ) → 0 < n → next_index i n < n
next_index-lt (ℤ.pos i) n h = mod-lt (i + 1) h
next_index-lt (ℤ.negsuc i) n h = h

-- A slave that has bots always gets one: the index is never out of range, whatever was used last and
-- however many bots were taken away since.
pub get_bot_total :
    (mgr : NyxBotMgr) (slave_id : ℕ) (d : NyxSlaveDist)
    → lookup slave_id mgr.distribution ≡ some d
    → 0 < length d.bots
    → (b : Bot) × ((get_bot mgr slave_id).1 ≡ inl (some b))
unfolding get_bot
get_bot_total mgr slave_id d found h =
    let n = length d.bots in
    let (b, e) =
      get_elem?-lt d.bots (next_index d.last_used_bot n) (next_index-lt d.last_used_bot n h) in
    (b, ground arith)

uses-bots : (k : ℕ) (d : NyxSlaveDist) → (uses k d).bots ≡ d.bots
unfolding uses next_bot
uses-bots zero d = refl
uses-bots (suc k) d = uses-bots k d

turn : (i j k n : ℕ) → i ≡ (j + k) % n → (i + 1) % n ≡ (j + suc k) % n
turn i j k n e = rw e (grind (arith, mod-add-mod (j + k) n 1))

next_index-uses :
    (k : ℕ) (d : NyxSlaveDist)
    → 0 < length d.bots
    → next_index (uses k d).last_used_bot (length d.bots)
      ≡ (next_index d.last_used_bot (length d.bots) + k) % length d.bots
unfolding uses next_bot
next_index-uses zero d h = let lt = next_index-lt d.last_used_bot (length d.bots) h in grind arith
next_index-uses (suc k) d h =
    let n = length d.bots in
    rw (uses-bots k d) (
      turn (next_index (uses k d).last_used_bot n) (next_index d.last_used_bot n) k n
        (next_index-uses k d h))

-- Bots are used in turn: with n bots, the call after k others gets the bot k places further on,
-- counted round the list; so any n calls in a row use every place once.
pub next_bot_turn :
    (k : ℕ) (d : NyxSlaveDist)
    → 0 < length d.bots
    → (next_bot (uses k d)).1
      ≡ get_elem? d.bots ((next_index d.last_used_bot (length d.bots) + k) % length d.bots)
unfolding next_bot
next_bot_turn k d h = rw (uses-bots k d, next_index-uses k d h)
