-- ===== src/Cloud/Effects.antt =====
-- linux-script/*.py: what the scripts do to the world outside: `api_call`, `run_command`, `time.monotonic`
-- and `time.sleep`, on a host that is a parameter, with a log of the calls, the newest first.
use predictive_autoscaling_k.Cloud.{
  Failure, Json, Outcome, api_failed, command_failed, command_not_found, raised, returned,
  script_error, value_error,
}
use predictive_autoscaling_k.Common.{
  Bool, List, Option, String, false, if◌then◌else◌, none, some, string_Eq, true, zero, ℕ, ◌*◌, ◌∷◌,
}
use predictive_autoscaling_k.Common.Int.{negsuc, pos, ℤ}

-- Times are in nanoseconds, as `time.monotonic_ns` gives them.
abbrev pub seconds : ℕ → ℕ
seconds n = n * 1000000000

pub data Method : Type 0 where
  http_get http_patch http_post http_delete : Method

pub record Request : Type 0 where
  pub method : Method
  pub path : String
  pub body : Option Json

-- An exit code of 0.
abbrev pub is_success : ℤ → Bool
is_success (pos zero) = true
is_success _ = false

-- What becomes of a request: a body that `json.loads` reads, an HTTP or a connection error, or a body that is
-- not JSON.
pub data Reply : Type 0 where
  body_read : Json → Reply
  failed_request bad_body : Reply

-- The world that a script runs in. `respond` gives `null` for an empty body; `execute` has no exit code for a command that does not exist.
pub record Host (W : Type 0) : Type 0 where
  pub clock : W → ℕ
  pub look : W → W
  pub pause : ℕ → W → W
  pub respond : Request → W → Reply × W
  pub execute : List String → W → Option ℤ × W
  pub repr : Json → String

-- `refused` is a request without an answer that the script can read.
pub data Event : Type 0 where
  answered : Request → Json → Event
  refused : Request → Event
  ran : List String → ℤ → Event

pub record State (W : Type 0) : Type 0 where
  pub world : W
  pub log : List Event

abbrev pub Script : Type 0 → Type 0 → Type 0
Script W A = State W → Outcome A × State W

-- What comes after a statement: the rest of the script, or nothing after an exception.
abbrev pub proceed : {W Read Made : Type 0} → (Read → Script W Made) → Outcome Read → Script W Made
proceed next (returned r) s = next r s
proceed next (raised why) s = (raised why, s)

infixl 5 ◌>>=◌
abbrev pub ◌>>=◌ : {W Read Made : Type 0} → Script W Read → (Read → Script W Made) → Script W Made
◌>>=◌ first next s = let (outcome, s') = first s in proceed next outcome s'

module _ {W A : Type 0} where
  abbrev pub return : A → Script W A
  return a s = (returned a, s)

  abbrev pub raise : Failure → Script W A
  raise why s = (raised why, s)

  abbrev pub lift : Outcome A → Script W A
  lift outcome s = (outcome, s)

module _ {W : Type 0} where
  abbrev pub log_response : Request → List Event → Reply × W → Outcome Json × State W
  log_response request log (body_read content, w) =
      (returned content, record { world = w; log = answered request content ∷ log })
  log_response request log (failed_request, w) =
      (raised (script_error api_failed), record { world = w; log = refused request ∷ log })
  log_response request log (bad_body, w) =
      (raised value_error, record { world = w; log = refused request ∷ log })

  abbrev pub log_exit : List String → List Event → Option ℤ × W → Outcome ℤ × State W
  log_exit args log (some code, w) =
      (returned code, record { world = w; log = ran args code ∷ log })
  log_exit args log (none, w) = (raised command_not_found, record { world = w; log = log })

module _ {W : Type 0} (host : Host W) where
  -- `time.monotonic()`
  unfoldable pub monotonic : Script W ℕ
  monotonic s = (returned (host.clock s.world), record s { world = host.look s.world })

  -- `time.sleep`, which refuses a negative length.
  unfoldable pub sleep : ℤ → Script W (Unit {0})
  sleep (pos n) s = (returned tt, record s { world = host.pause (seconds n) s.world })
  sleep (negsuc n) s = (raised value_error, s)

  unfoldable pub api_call : Method → String → Option Json → Script W Json
  api_call method path body s =
      let request : Request = record { method = method; path = path; body = body } in
      log_response request s.log (host.respond request s.world)

  -- `run_command(args, check=False)`, with the exit code.
  unfoldable pub run_unchecked : List String → Script W ℤ
  run_unchecked args s = log_exit args s.log (host.execute args s.world)

  -- `run_command(args)`: an exit code that is not 0 is an exception.
  unfoldable pub run_command : List String → Script W (Unit {0})
  run_command args = do
    code ← run_unchecked args
    if is_success code then return tt else raise (command_failed code)
