-- ===== src/Cloud/Promptness.antt =====
-- A polling loop finds in time what is there in time, on a host that loses little time.
use predictive_autoscaling_k.Cloud.{Json, returned}
use predictive_autoscaling_k.Cloud.Clock.{IsSteady}
use predictive_autoscaling_k.Cloud.Effects.{
  Event, Host, Method, Reply, Request, Script, State, answered, api_call, bad_body, body_read,
  failed_request, log_response, monotonic, return, seconds, sleep, ◌>>=◌,
}
use predictive_autoscaling_k.Cloud.Polling.{Turn, again, finished, go_on, poll}
use predictive_autoscaling_k.Common.{
  Bool, Bool-cases, List, Option, String, arith, if◌then◌else◌, inl, inr, leb, ltb, none, refl,
  some, suc, true, zero, ℕ, ◌*◌, ◌+◌, ◌<◌, ◌∷◌, ◌≡◌, ◌≤◌, ◌⊎◌,
}
use predictive_autoscaling_k.Common.Int.{pos}

-- No call takes longer than `lag`, and `time.sleep` lasts longer than it is asked to by that at most.
pub record IsPrompt {W : Type 0} (host : Host W) (lag : ℕ) : Type 0 where
  pub soon_looked : (w : W) → host.clock (host.look w) ≤ host.clock w + lag
  pub soon_awake : (n : ℕ) (w : W) → host.clock (host.pause n w) ≤ host.clock w + n + lag
  pub soon_answered :
      (request : Request) (w : W) → host.clock (host.respond request w).1 ≤ host.clock w + lag

log_response-answered :
    {W : Type 0} (request : Request) (log : List Event) (p : Reply × W) (content : Json)
    → p.0 ≡ body_read content
    → log_response request log p
      ≡ (returned content, record { world = p.1; log = answered request content ∷ log })
log_response-answered request log (body_read found, w) content h =
    let same : found ≡ content = cc in rw same refl
log_response-answered request log (failed_request, w) content h = absurd cc
log_response-answered request log (bad_body, w) content h = absurd cc

-- A call that the API answers.
pub api_call-answered :
    {W : Type 0} (host : Host W) (method : Method) (path : String) (body : Option Json)
    (s : State W) (content : Json)
    → (host.respond (record { method = method; path = path; body = body }) s.world).0
      ≡ body_read content
    → api_call host method path body s ≡ (
      returned content,
      record {
        world = (host.respond (record { method = method; path = path; body = body }) s.world).1;
        log = answered (record { method = method; path = path; body = body }) content ∷ s.log;
      },
    )
unfolding api_call
api_call-answered host method path body s content h = log_response-answered _ s.log _ content h

module _ {W A B : Type 0} where
  -- The script after a statement that returned.
  pub >>=-returned :
      (first : Script W A) (next : A → Script W B) (s : State W) (a : A)
      → (first s).0 ≡ returned a
      → (first >>= next) s ≡ next a (first s).1
  >>=-returned first next s a h = rw h refl

if-taken :
    {W A : Type 0} (b : Bool) (this that : Script W A) (s : State W)
    → b ≡ true
    → (if b then this else that) s ≡ this s
if-taken b this that s h = rw h refl

module _ {W : Type 0} (host : Host W) (steady : IsSteady host) (lag : ℕ)
    (prompt : IsPrompt host lag) where
  -- A round ends the loop from `settled` on; before, it may ask for another round, soon.
  pub record IsAwaited {S A : Type 0} (round : S → Script W (Turn S A)) (settled : ℕ) : Type 0 where
    pub ready :
        (s : S) (state : State W)
        → settled ≤ host.clock state.world
        → (a : A) × ((round s state).0 ≡ returned (finished a))
    pub early :
        (s : S) (state : State W)
        → ((a : A) × ((round s state).0 ≡ returned (finished a)))
          ⊎ ((s' : S) × ((round s state).0 ≡ returned (again s'))
              × (host.clock state.world ≤ host.clock (round s state).1.world)
              × (host.clock (round s state).1.world ≤ host.clock state.world + lag))

  module _ {S A : Type 0} (deadline i settled : ℕ) (round : S → Script W (Turn S A))
      (awaited : IsAwaited round settled)
      (slack : settled + seconds (suc i) + 2 * lag < deadline) where
    pub poll-finds :
        (fuel : ℕ) (s : S) (state : State W)
        → host.clock state.world < deadline
        → deadline ≤ host.clock state.world + seconds fuel
        → (a : A) × ((poll host deadline (pos (suc i)) round (suc fuel) s state).0
            ≡ returned (some a))
    unfolding poll monotonic sleep
    poll-finds zero s state before enough = absurd (omega (arith, before, enough))
    poll-finds (suc fuel) s state before enough =
        let looked : State W = record state { world = host.look state.world } in
        let rounds = poll host deadline (pos (suc i)) round (suc fuel) in
        let taken =
          if-taken (ltb (host.clock state.world) deadline)
            (round s >>= go_on host (pos (suc i)) rounds) (return none) looked
            (ground (arith, before)) in
        rw taken (elim (Bool-cases (leb settled (host.clock looked.world))) [
          | inl late ↦
              let (a, done) = awaited.ready s looked (ground (arith, late)) in
              (
                a,
                rw
                    (>>=-returned (round s) (go_on host (pos (suc i)) rounds) looked (finished a)
                      done)
                    refl,
              )
          | inr soon ↦ elim (awaited.early s looked) [
            | inl (a, done) ↦ (
              a,
              rw (>>=-returned (round s) (go_on host (pos (suc i)) rounds) looked (finished a) done)
                  refl,
            )
            | inr (s', more, later, soon_done) ↦
                let after = (round s looked).1 in
                let awake : State W = record after {
                  world = host.pause (seconds (suc i)) after.world;
                } in
                let slept = prompt.soon_awake (seconds (suc i)) after.world in
                let rested = steady.pauses (seconds (suc i)) after.world in
                let (a, done) =
                  poll-finds fuel s' awake (ground (arith, soon, soon_done, slept, slack))
                    (omega (arith, enough, later, rested, steady.looks state.world)) in
                (
                  a,
                  rw
                      (>>=-returned (round s) (go_on host (pos (suc i)) rounds) looked (again s')
                        more)
                      done,
                )
          ]
        ])
