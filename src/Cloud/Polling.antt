-- ===== src/Cloud/Polling.antt =====
-- The loops of linux-script/*.py that ask again until an answer or a deadline:
-- `while time.monotonic() < deadline: …; time.sleep(interval)`.
use predictive_autoscaling_k.Cloud.{no_fuel}
use predictive_autoscaling_k.Cloud.Effects.{Host, Script, monotonic, raise, return, sleep, ◌>>=◌}
use predictive_autoscaling_k.Common.{Option, if◌then◌else◌, ltb, none, some, suc, zero, ℕ}
use predictive_autoscaling_k.Common.Int.{ℤ}

-- What a round of a loop comes to: a result, or the loop's variables for the next round.
pub data Turn (S A : Type 0) : Type 0 where
  finished : A → Turn S A
  again : S → Turn S A

-- The end of a round: out of the loop, or the pause and the next rounds.
abbrev pub go_on :
    {W S A : Type 0} → Host W → ℤ → (S → Script W (Option A)) → Turn S A → Script W (Option A)
go_on host interval next_rounds (finished a) = return (some a)
go_on host interval next_rounds (again s) = do _ ← sleep host interval; next_rounds s

module _ {W S A : Type 0} (host : Host W) (deadline : ℕ) (interval : ℤ)
    (round : S → Script W (Turn S A)) where
  -- The loop, on fuel; no result when the deadline has passed.
  unfoldable pub poll : ℕ → S → Script W (Option A)
  poll zero s = raise no_fuel
  poll (suc fuel) s = do
    now ← monotonic host
    if ltb now deadline
        then (do turn ← round s; go_on host interval (poll fuel) turn)
        else return none

-- What follows the loop: its result, or what is done after the deadline.
abbrev pub after_deadline : {W A : Type 0} → Script W A → Option A → Script W A
after_deadline otherwise (some a) = return a
after_deadline otherwise none = otherwise
