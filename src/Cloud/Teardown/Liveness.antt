-- ===== src/Cloud/Teardown/Liveness.antt =====
-- `detach_vm_from_lb` comes back in time when the load balancer carries out the PATCH in time.
use mathlib.Core.Path.{subst}
use predictive_autoscaling_k.Cloud.{Json, returned, script_error, timed_out}
use predictive_autoscaling_k.Cloud.Clock.{IsSteady}
use predictive_autoscaling_k.Cloud.Effects.{
  Host, Request, State, answered, body_read, http_get, http_patch, monotonic, raise, seconds, ◌>>=◌,
}
use predictive_autoscaling_k.Cloud.Environment.{deadline_after}
use predictive_autoscaling_k.Cloud.Polling.{after_deadline, again, finished, poll}
use predictive_autoscaling_k.Cloud.Promptness.{
  >>=-returned, IsAwaited, IsPrompt, api_call-answered, poll-finds,
}
use predictive_autoscaling_k.Cloud.Teardown.{Config}
use predictive_autoscaling_k.Cloud.Teardown.Balancer.{
  LbSummary, build_detach_payload, lb_has_instance, parse_lb_summary,
}
use predictive_autoscaling_k.Cloud.Teardown.Run.{balancer_path, detach_round, detach_vm_from_lb}
use predictive_autoscaling_k.Common.{
  Bool, Bool-cases, String, ap, arith, false, if◌then◌else◌, inl, inr, none, refl, some, suc, sym,
  zero, ℕ, ◌*◌, ◌+◌, ◌<◌, ◌∷◌, ◌≡◌, ◌≤◌,
}
use predictive_autoscaling_k.Common.Int.{pos, ℤ}

module _ {W : Type 0} (host : Host W) (config : Config) (instance_id : String) where
  abbrev reading : Request
  reading = record { method = http_get; path = balancer_path config; body = none }

  -- What a response of the load balancer says, where the parsers of the script accept it.
  abbrev pub Says : Bool → Json → Type 0
  Says attached content =
      (lb_has_instance host.repr content instance_id ≡ returned attached)
      × ((summary : LbSummary) × (parse_lb_summary host.repr content ≡ returned summary))
      × ((payload : Json) × (build_detach_payload host.repr content instance_id ≡ returned payload))

  -- The API answers, and from `settled` on the load balancer is without the instance.
  pub record IsDetaching (settled : ℕ) : Type 0 where
    pub reads :
        (w : W)
        → (content : Json) × (attached : Bool) × ((host.respond reading w).0 ≡ body_read content)
          × Says attached content
          × (settled ≤ host.clock w → attached ≡ false)
    pub accepts :
        (payload : Json) (w : W)
        → (content : Json) × ((host.respond
              (record { method = http_patch; path = balancer_path config; body = some payload })
              w).0
            ≡ body_read content)

module _ {W : Type 0} (host : Host W) (steady : IsSteady host) (config : Config)
    (instance_id : String) (lag : ℕ) (prompt : IsPrompt host lag) (settled : ℕ)
    (detaching : IsDetaching host config instance_id settled) where
  -- A round of the loop, by what the load balancer says.
  detach_round-reads :
      (u : Unit {0}) (state : State W) (content : Json) (attached : Bool)
      → (host.respond (reading host config instance_id) state.world).0 ≡ body_read content
      → Says host config instance_id attached content
      → detach_round host config instance_id u state ≡ (
        returned (if attached then again tt else finished tt),
        record {
          world = (host.respond (reading host config instance_id) state.world).1;
          log = answered (reading host config instance_id) content ∷ state.log;
        },
      )
  unfolding detach_round
  detach_round-reads u state content attached given (has, (summary, parsed), payload) =
      rw
        (
          api_call-answered host http_get (balancer_path config) none state content given,
          parsed,
          has,
        )
        refl

  detach_round-IsAwaited :
      IsAwaited host steady lag prompt (detach_round host config instance_id) settled
  detach_round-IsAwaited = record {
    ready = λ u state late.
        let (content, attached, given, says, gone) = detaching.reads state.world in
        (tt, rw (detach_round-reads u state content attached given says, gone late) refl);
    early = λ u state.
        let (content, attached, given, says, gone) = detaching.reads state.world in
        let later = steady.responds (reading host config instance_id) state.world in
        let soon = prompt.soon_answered (reading host config instance_id) state.world in
        elim (Bool-cases attached) [
          | inr absent ↦
              inl (tt, rw (detach_round-reads u state content attached given says, absent) refl)
          | inl still ↦ inr (
            tt,
            rw (detach_round-reads u state content attached given says, still) refl,
            rw (detach_round-reads u state content attached given says) later,
            rw (detach_round-reads u state content attached given says) soon,
          )
        ];
  }

  module _ (t i : ℕ) (timeout : config.wait_timeout_seconds ≡ pos t)
      (interval : config.wait_interval_seconds ≡ pos (suc i)) (small : lag < seconds t) where
    -- The loop after the PATCH.
    wait-returns :
        (fuel : ℕ) (state : State W)
        → t < fuel
        → settled + seconds (suc i) + 2 * lag < host.clock state.world + seconds t
        → ((monotonic host >>= λ now.
              poll host
                (deadline_after now config.wait_timeout_seconds)
                config.wait_interval_seconds
                (detach_round host config instance_id)
                fuel
                tt
              >>= after_deadline (raise (script_error timed_out)))
            state).0
          ≡ returned tt
    unfolding monotonic
    wait-returns zero state enough slack = absurd (omega (arith, enough))
    wait-returns (suc fuel) state enough slack =
        let now = host.clock state.world in
        let looked : State W = record state { world = host.look state.world } in
        let soon = prompt.soon_looked state.world in
        let (u, found) =
          poll-finds host steady lag prompt (now + seconds t) i settled
            (detach_round host config instance_id) detach_round-IsAwaited slack fuel tt looked
            (omega (arith, soon, small)) (omega (arith, enough, steady.looks state.world)) in
        let loop = λ (z y : ℤ).
          poll host (deadline_after now z) y (detach_round host config instance_id) (suc fuel) tt in
        let done =
          subst (λ z. (loop z config.wait_interval_seconds looked).0 ≡ returned (some u))
            (sym timeout)
            (subst (λ y. (loop (pos t) y looked).0 ≡ returned (some u)) (sym interval) found) in
        ap (λ p. p.0)
          (>>=-returned (loop config.wait_timeout_seconds config.wait_interval_seconds)
            (after_deadline (raise (script_error timed_out))) looked (some u) done)

    -- `detach_vm_from_lb` returns without an error, on a host whose clock does not run back and where every GET of the load balancer and every PATCH
    -- is answered, with an answer that the parsers accept; no call takes longer than `lag`, which is shorter than
    -- the timeout; the fuel is more than the timeout has seconds; the interval is at
    -- least a second; and the load balancer drops the instance so long before the deadline that an
    -- interval and two delays of the host fit in between.
    pub detach_vm_from_lb-returns :
        (fuel : ℕ) (state : State W)
        → t < fuel
        → settled + seconds (suc i) + 2 * lag < host.clock state.world + seconds t
        → (detach_vm_from_lb host fuel config instance_id state).0 ≡ returned tt
    unfolding detach_vm_from_lb
    detach_vm_from_lb-returns fuel state enough slack =
        let (content, attached, given, (has, summary, (payload, built)), gone) =
          detaching.reads state.world in
        let first_world = (host.respond (reading host config instance_id) state.world).1 in
        let (reply, accepted) = detaching.accepts payload first_world in
        elim (Bool-cases attached) [
          | inr out ↦
              rw
                (
                  api_call-answered host http_get (balancer_path config) none state content given,
                  has,
                  out,
                )
                refl
          | inl attached_still ↦
              rw
                (
                  api_call-answered host http_get (balancer_path config) none state content given,
                  has,
                  attached_still,
                  built,
                  api_call-answered host http_patch (balancer_path config) (some payload)
                      (record {
                        world = first_world;
                        log = answered (reading host config instance_id) content ∷ state.log;
                      })
                      reply accepted,
                )
                (wait-returns fuel _ enough (
                  omega (
                    arith,
                    slack,
                    steady.responds (reading host config instance_id) state.world,
                    steady.responds
                        (record {
                          method = http_patch;
                          path = balancer_path config;
                          body = some payload;
                        })
                        first_world,
                  )))
        ]
