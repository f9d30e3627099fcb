-- ===== src/Console/Fleet/Sweeps.antt =====
-- What holds of the cores after a pass over a plan (console/api/voidz_console/services/quota.py).
use voidz.Prelude.{
  ◌≡◌, refl, sym, String, Bool, true, false, List, [], ◌∷◌, ◌==◌, ==_iff, string_eq, Bool-cases,
  inl, inr,
}
use mathlib.Core.Path.{subst}
use voidz.Prelude.Result.{Result, ok, raise}
use voidz.Core.Admin.{Core}
use voidz.Console.Fleet.{
  Cores, put_core, Delivery, delivered, lost, unanswered, garbled, Reply, replied, worker_error,
  json_error, handled, worker_call, World, next_call, next_region, push_protocols, push_region,
  push_plan,
}

-- A property of a core that no handler of the pass ends.
abbrev pub Keeps {κ} : (Core → Type κ) → (String → Core → Result Core) → Type κ
Keeps P handler =
    (proto : String) (core after : Core) → handler proto core ≡ ok after → P core → P after

module _ {κ} (P : Core → Type κ) where
  handled-keeps :
      (result : Result Core) (core : Core)
      → ((after : Core) → result ≡ ok after → P core → P after)
      → P core
      → P (handled result core)
  unfolding handled
  handled-keeps (ok after) core keeps h = keeps after refl h
  handled-keeps (raise e) core keeps h = h

  worker_call-keeps :
      (d : Delivery) (result : Result Core) (core : Core)
      → ((after : Core) → result ≡ ok after → P core → P after)
      → P core
      → P (worker_call d result core).1
  unfolding worker_call
  worker_call-keeps delivered (ok after) core keeps h = keeps after refl h
  worker_call-keeps delivered (raise e) core keeps h = h
  worker_call-keeps lost result core keeps h = h
  worker_call-keeps unanswered result core keeps h = handled-keeps result core keeps h
  worker_call-keeps (garbled false) result core keeps h = h
  worker_call-keeps (garbled true) result core keeps h = handled-keeps result core keeps h

  next_call-keeps :
      (reply : Reply) (rest : Result Bool × Core) (after : Core)
      → P rest.1
      → P after
      → P (next_call reply rest after).1
  unfolding next_call
  next_call-keeps replied rest after h now = h
  next_call-keeps worker_error rest after h now = h
  next_call-keeps json_error rest after h now = now

  next_region-keeps :
      (region : Result Bool) (rest : Result Bool × Cores) (cores : Cores) (j : String)
      → P (rest.1 j)
      → P (cores j)
      → P ((next_region region rest cores).1 j)
  unfolding next_region
  next_region-keeps (raise e) rest cores j h now = now
  next_region-keeps (ok true) rest cores j h now = h
  next_region-keeps (ok false) rest cores j h now = h

  module _ (handler : String → Core → Result Core) (keeps : Keeps P handler) where
    pub push_protocols-keeps :
        (delivery : String → Delivery) (protos : List String) (core : Core)
        → P core
        → P (push_protocols delivery handler protos core).1
    unfolding push_protocols
    push_protocols-keeps delivery [] core h = h
    push_protocols-keeps delivery (proto ∷ protos) core h =
        let called = worker_call (delivery proto) (handler proto core) core in
        let first =
          worker_call-keeps (delivery proto) (handler proto core) core (keeps proto core) h in
        next_call-keeps called.0 (push_protocols delivery handler protos called.1) called.1
          (push_protocols-keeps delivery protos called.1 first) first

    pub push_region-keeps :
        (w : World) (i : String) (protos : List String) (core : Core)
        → P core
        → P (push_region w i handler protos core).1
    unfolding push_region
    push_region-keeps w i protos core h = elim (Bool-cases (w.running i)) [
      | inl up ↦ rw up (push_protocols-keeps (w.delivery i) protos core h)
      | inr down ↦ rw down h
    ]

    put_core-keeps :
        (i : String) (core : Core) (cores : Cores) (j : String)
        → (i ≡ j → P core)
        → P (cores j)
        → P (put_core i core cores j)
    unfolding put_core
    put_core-keeps i core cores j new old = elim (Bool-cases (i == j)) [
      | inl same ↦ rw same (new ((==_iff i j).0 same))
      | inr other ↦ rw other old
    ]

    pub push_plan-keeps :
        (w : World) (protos is : List String) (cores : Cores) (j : String)
        → P (cores j)
        → P ((push_plan w handler protos is cores).1 j)
    unfolding push_plan
    push_plan-keeps w protos [] cores j h = h
    push_plan-keeps w protos (i ∷ is) cores j h =
        let pushed = push_region w i handler protos (cores i) in
        let cores' = put_core i pushed.1 cores in
        let here =
          put_core-keeps i pushed.1 cores j
            (λ e. push_region-keeps w i protos (cores i) (subst (λ k. P (cores k)) (sym e) h)) h in
        next_region-keeps pushed.0 (push_plan w handler protos is cores') cores' j
          (push_plan-keeps w protos is cores' j here) here
