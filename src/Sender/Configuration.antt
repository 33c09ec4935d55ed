-- ===== src/Sender/Configuration.antt =====
-- `load_runtime_config` with `_get_int`, `_get_float` and `_get_bool`: the sender's configuration out of the
-- environment. A variable is given as the standard library reads it.
use mathlib.Core.Path.{subst}
use predictive_autoscaling_k.Common.{
  Bool, Option, String, arith, false, if◌then◌else◌, leb, none, not, refl, some, string_Eq, suc,
  true, zero, ℕ, ◌<◌, ◌==◌, ◌||◌, ◌≡◌, ◌≤◌,
}
use predictive_autoscaling_k.Common.Int.{ltb_ℤ, negsuc, pos, pos_part, ℤ}

-- An environment variable that should be an integer, and one that should be a float.
pub data IntVariable : Type 0 where
  unset not_integer : IntVariable
  integer : ℤ → IntVariable

-- A float: `dyadic m e` is m / 2 ^ e, which every finite one is; `infinite true` is the positive infinity.
pub data Float : Type 0 where
  nan : Float
  infinite : Bool → Float
  dyadic : ℤ → ℕ → Float

pub data FloatVariable : Type 0 where
  absent not_float : FloatVariable
  float : Float → FloatVariable

-- `value <= 0`, which nan is not.
unfoldable pub at_most_zero : Float → Bool
at_most_zero nan = false
at_most_zero (infinite positive) = not positive
at_most_zero (dyadic m e) = not (ltb_ℤ (pos 0) m)

-- `target_host` without the slashes at its end; the two modes stripped and in lower case.
pub record Environment : Type 0 where
  pub target_host : Option String
  pub dispatch_mode : Option String
  pub response_mode : Option String
  pub progress_log_interval : IntVariable
  pub request_log_flush_interval : IntVariable
  pub max_inflight_variable : IntVariable
  pub backlog_capacity_variable : IntVariable
  pub backlog_max_age_seconds : FloatVariable
  pub request_timeout_seconds : FloatVariable
  pub connect_timeout_seconds : FloatVariable
  pub worker_count_variable : IntVariable
  pub worker_index_variable : IntVariable

pub data ConfigError : Type 0 where
  empty_host bad_dispatch_mode bad_response_mode bad_integer bad_float : ConfigError
  below_minimum not_above_zero worker_index_out_of_range : ConfigError

pub data Checked {ℓ} (A : Type ℓ) : Type ℓ where
  valid : A → Checked A
  invalid : ConfigError → Checked A

infixl 5 ◌>>=◌
abbrev pub ◌>>=◌ {ℓ κ} :
    {Read : Type ℓ} {Built : Type κ} → Checked Read → (Read → Checked Built) → Checked Built
checked >>= build = elim checked [ valid r ↦ build r | invalid why ↦ invalid why ]

-- `_get_int`, and the bound that follows it.
unfoldable pub get_int : IntVariable → ℤ → Checked ℤ
get_int unset default = valid default
get_int not_integer default = invalid bad_integer
get_int (integer n) default = valid n

unfoldable pub at_least : ℕ → ℤ → Checked ℕ
at_least minimum n = if ltb_ℤ n (pos minimum) then invalid below_minimum else valid (pos_part n)

unfoldable pub get_float : FloatVariable → Float → Checked Float
get_float absent default = valid default
get_float not_float default = invalid bad_float
get_float (float x) default = valid x

-- `if value <= 0: raise`
unfoldable pub above_zero : Float → Checked (Unit {0})
unfolding at_most_zero
above_zero x = if at_most_zero x then invalid not_above_zero else valid tt

abbrev pub text_of : Option String → String → String
text_of none default = default
text_of (some s) default = s

unfoldable pub check_host : String → Checked (Unit {0})
check_host host = if host == "" then invalid empty_host else valid tt

unfoldable pub check_dispatch_mode : String → Checked Bool
check_dispatch_mode mode =
    if mode == "burst"
    then valid true
    else if mode == "spread"
    then valid false
    else invalid bad_dispatch_mode

unfoldable pub check_response_mode : String → Checked (Unit {0})
check_response_mode mode =
    if mode == "release" || mode == "close" then valid tt else invalid bad_response_mode

-- `WORKER_INDEX`, which has no default.
unfoldable pub check_worker_index : ℕ → IntVariable → Checked (Option ℕ)
check_worker_index worker_count unset = valid none
check_worker_index worker_count not_integer = invalid bad_integer
check_worker_index worker_count (integer (negsuc n)) = invalid worker_index_out_of_range
check_worker_index worker_count (integer (pos n)) =
    if leb worker_count n then invalid worker_index_out_of_range else valid (some n)

-- The fields of `SenderConfig` that can be refused. The default of the request timeout is the float next to
-- 0.2.
pub record RuntimeConfig : Type 0 where
  pub burst : Bool
  pub max_inflight : ℕ
  pub backlog_capacity : ℕ
  pub backlog_max_age_seconds : Float
  pub request_timeout_seconds : Float
  pub connect_timeout_seconds : Float
  pub progress_log_interval_sec : ℕ
  pub request_log_flush_interval_sec : ℕ
  pub worker_count : ℕ
  pub worker_index : Option ℕ

unfoldable pub load_runtime_config : Environment → Checked RuntimeConfig
unfolding get_int at_least get_float above_zero check_host check_dispatch_mode check_response_mode
    check_worker_index
load_runtime_config env = do
  _ ← check_host (text_of env.target_host "http://silkeste.fun")
  burst_mode ← check_dispatch_mode (text_of env.dispatch_mode "spread")
  _ ← check_response_mode (text_of env.response_mode "release")
  progress_raw ← get_int env.progress_log_interval (pos 60)
  progress_seconds ← at_least 1 progress_raw
  flush_raw ← get_int env.request_log_flush_interval (pos 60)
  flush_seconds ← at_least 1 flush_raw
  inflight_raw ← get_int env.max_inflight_variable (pos 2000)
  inflight ← at_least 1 inflight_raw
  capacity_raw ← get_int env.backlog_capacity_variable (pos 0)
  capacity ← at_least 0 capacity_raw
  age ← get_float env.backlog_max_age_seconds (dyadic (pos 1) 0)
  _ ← above_zero age
  request_timeout ← get_float env.request_timeout_seconds (dyadic (pos 3602879701896397) 54)
  connect_timeout ← get_float env.connect_timeout_seconds request_timeout
  _ ← above_zero request_timeout
  _ ← above_zero connect_timeout
  workers_raw ← get_int env.worker_count_variable (pos 1)
  workers ← at_least 1 workers_raw
  index ← check_worker_index workers env.worker_index_variable
  valid (record {
    burst = burst_mode;
    max_inflight = inflight;
    backlog_capacity = capacity;
    backlog_max_age_seconds = age;
    request_timeout_seconds = request_timeout;
    connect_timeout_seconds = connect_timeout;
    progress_log_interval_sec = progress_seconds;
    request_log_flush_interval_sec = flush_seconds;
    worker_count = workers;
    worker_index = index;
  })

-- The value is above zero, or nan.
abbrev pub IsAboveOrNan : Float → Type 0
IsAboveOrNan nan = Unit {0}
IsAboveOrNan (infinite positive) = positive ≡ true
IsAboveOrNan (dyadic (pos n) e) = 0 < n
IsAboveOrNan (dyadic (negsuc n) e) = ⊥

-- What the rest of the program relies on.
pub record IsRunnable (c : RuntimeConfig) : Type 0 where
  pub some_token : 0 < c.max_inflight
  pub some_age : IsAboveOrNan c.backlog_max_age_seconds
  pub some_request_timeout : IsAboveOrNan c.request_timeout_seconds
  pub some_connect_timeout : IsAboveOrNan c.connect_timeout_seconds
  pub some_progress_interval : 0 < c.progress_log_interval_sec
  pub some_flush_interval : 0 < c.request_log_flush_interval_sec
  pub some_worker : 0 < c.worker_count
  pub own_index : (i : ℕ) → c.worker_index ≡ some i → i < c.worker_count

valid-injective {ℓ} : {A : Type ℓ} (a b : A) → valid a ≡ valid b → a ≡ b
valid-injective a b h = cc

-- A property of the value, when there is one.
abbrev Ensures {ℓ} : {A : Type ℓ} → (A → Type 0) → Checked A → Type 0
Ensures P (valid a) = P a
Ensures P (invalid why) = Unit {0}

>>=-Ensures {ℓ κ} :
    {A : Type ℓ} {B : Type κ} (P : B → Type 0) (checked : Checked A) (build : A → Checked B)
    → ((a : A) → checked ≡ valid a → Ensures P (build a))
    → Ensures P (checked >>= build)
>>=-Ensures P (valid a) build h = h a refl
>>=-Ensures P (invalid why) build h = tt

Ensures-valid {ℓ} :
    {A : Type ℓ} (P : A → Type 0) (checked : Checked A) (a : A)
    → Ensures P checked
    → checked ≡ valid a
    → P a
Ensures-valid P (valid b) a h e = subst P (valid-injective b a e) h
Ensures-valid P (invalid why) a h e = cc

at_least-valid : (m : ℕ) (z : ℤ) (n : ℕ) → at_least m z ≡ valid n → m ≤ n
unfolding at_least
at_least-valid m (pos k) n h = ground arith
at_least-valid m (negsuc k) n h = ground arith

above_zero-valid : (x : Float) (u : Unit {0}) → above_zero x ≡ valid u → IsAboveOrNan x
unfolding above_zero
above_zero-valid nan u h = tt
above_zero-valid (infinite positive) u h = ground arith
above_zero-valid (dyadic (pos zero) e) u h =
    let refused : invalid not_above_zero ≡ valid u = h in absurd cc
above_zero-valid (dyadic (pos (suc n)) e) u h = omega arith
above_zero-valid (dyadic (negsuc n) e) u h = absurd (ground (arith, h))

check_worker_index-valid :
    (workers : ℕ) (v : IntVariable) (index : Option ℕ) (i : ℕ)
    → check_worker_index workers v ≡ valid index
    → index ≡ some i
    → i < workers
unfolding check_worker_index
check_worker_index-valid workers unset index i h e = cc
check_worker_index-valid workers not_integer index i h e = cc
check_worker_index-valid workers (integer (negsuc n)) index i h e = cc
check_worker_index-valid workers (integer (pos n)) index i h e = ground arith

load_runtime_config-Ensures : (env : Environment) → Ensures IsRunnable (load_runtime_config env)
unfolding load_runtime_config
load_runtime_config-Ensures env =
    let P = IsRunnable in
    >>=-Ensures P (check_host (text_of env.target_host "http://silkeste.fun")) _ λ _ _.
      >>=-Ensures P (check_dispatch_mode (text_of env.dispatch_mode "spread")) _ λ burst_mode _.
        >>=-Ensures P (check_response_mode (text_of env.response_mode "release")) _ λ _ _.
          >>=-Ensures P (get_int env.progress_log_interval (pos 60)) _ λ p _.
            >>=-Ensures P (at_least 1 p) _ λ progress ep.
              >>=-Ensures P (get_int env.request_log_flush_interval (pos 60)) _ λ f _.
                >>=-Ensures P (at_least 1 f) _ λ flush_seconds ef.
                  >>=-Ensures P (get_int env.max_inflight_variable (pos 2000)) _ λ m _.
                    >>=-Ensures P (at_least 1 m) _ λ inflight em.
                      >>=-Ensures P (get_int env.backlog_capacity_variable (pos 0)) _ λ b _.
                        >>=-Ensures P (at_least 0 b) _ λ capacity _.
                          >>=-Ensures P (get_float env.backlog_max_age_seconds (dyadic (pos 1) 0)) _
                            λ a _. >>=-Ensures P (above_zero a) _ λ u ea.
                              >>=-Ensures P
                                (get_float env.request_timeout_seconds
                                  (dyadic (pos 3602879701896397) 54))
                                _
                                λ r _.
                                  >>=-Ensures P (get_float env.connect_timeout_seconds r) _ λ t _.
                                    >>=-Ensures P (above_zero r) _ λ v er.
                                      >>=-Ensures P (above_zero t) _ λ w et.
                                        >>=-Ensures P (get_int env.worker_count_variable (pos 1)) _
                                          λ k _. >>=-Ensures P (at_least 1 k) _ λ workers ew.
                                            >>=-Ensures P
                                              (check_worker_index workers env.worker_index_variable)
                                              _
                                              λ index ei. record {
                                                some_token = at_least-valid 1 m inflight em;
                                                some_age = above_zero-valid a u ea;
                                                some_request_timeout = above_zero-valid r v er;
                                                some_connect_timeout = above_zero-valid t w et;
                                                some_progress_interval =
                                                    at_least-valid 1 p progress ep;
                                                some_flush_interval =
                                                    at_least-valid 1 f flush_seconds ef;
                                                some_worker = at_least-valid 1 k workers ew;
                                                own_index = λ i e.
                                                    check_worker_index-valid workers
                                                      env.worker_index_variable index i ei e;
                                              }

-- A configuration that is read out of the environment has at least one token and one worker, at least a
-- second between reports and between flushes, and a worker index below the number of workers. Its backlog age
-- and its two timeouts are above zero, or nan, which the tests let through.
pub load_runtime_config-IsRunnable :
    (env : Environment) (c : RuntimeConfig) → load_runtime_config env ≡ valid c → IsRunnable c
load_runtime_config-IsRunnable env c h =
    Ensures-valid IsRunnable (load_runtime_config env) c (load_runtime_config-Ensures env) h
