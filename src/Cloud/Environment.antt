-- ===== src/Cloud/Environment.antt =====
-- linux-script/*.py: `require_env`, `get_int_env` and `get_bool_env`. A variable is given as `strip`, `lower`
-- and `int` leave it.
use predictive_autoscaling_k.Cloud.{
  Failure, Outcome, bad_boolean, bad_integer, command_failed, command_not_found, missing_variable,
  raised, returned, script_error,
}
use predictive_autoscaling_k.Cloud.Effects.{is_success, seconds}
use predictive_autoscaling_k.Common.{
  Bool, Option, String, false, if◌then◌else◌, none, some, string_Eq, suc, true, ℕ, ◌+◌, ◌-◌, ◌==◌,
  ◌||◌,
}
use predictive_autoscaling_k.Common.Int.{negsuc, pos, ℤ}

pub data IntVariable : Type 0 where
  unset not_integer : IntVariable
  integer : ℤ → IntVariable

-- `require_env`
unfoldable pub require_env : Option String → Outcome String
require_env none = raised (script_error missing_variable)
require_env (some value) =
    if value == "" then raised (script_error missing_variable) else returned value

unfoldable pub get_int_env : IntVariable → ℤ → Outcome ℤ
get_int_env unset default = returned default
get_int_env not_integer default = raised (script_error bad_integer)
get_int_env (integer n) default = returned n

abbrev pub or_default : Option String → String → String
or_default none default = default
or_default (some value) default = value

-- The default is `false`.
unfoldable pub get_bool_env : Option String → Outcome Bool
get_bool_env variable =
    let value = or_default variable "false" in
    if value == "1" || value == "true" || value == "yes" || value == "on"
    then returned true
    else if value == "0" || value == "false" || value == "no" || value == "off"
    then returned false
    else raised (script_error bad_boolean)

-- `deadline = time.monotonic() + timeout`. Where the sum is below 0 no reading of the clock is before it.
abbrev pub deadline_after : ℕ → ℤ → ℕ
deadline_after now (pos n) = now + seconds n
deadline_after now (negsuc n) = now - seconds (suc n)

-- How a process ends: with an exit code, or with an exception that nothing catches.
pub data Exit : Type 0 where
  exited : ℤ → Exit
  uncaught : Failure → Exit

-- The `except` clauses around a `main` that returns 0. `returncode or 1` is the exit code of the command.
unfoldable pub exit_of : Outcome (Unit {0}) → Exit
exit_of (returned _) = exited (pos 0)
exit_of (raised (script_error why)) = exited (pos 1)
exit_of (raised (command_failed code)) = exited (if is_success code then pos 1 else code)
exit_of (raised command_not_found) = exited (pos 1)
exit_of (raised why) = uncaught why

-- The path of the list of the instances.
abbrev pub list_path : String
list_path = "/instances?per_page=500"
