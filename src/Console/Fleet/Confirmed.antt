-- ===== src/Console/Fleet/Confirmed.antt =====
-- What a pass over a plan has done where every call was answered
-- (console/api/voidz_console/services/quota.py).
use voidz.Prelude.{
  ◌≡◌, refl, sym, String, Bool, true, false, List, [], ◌∷◌, ==_refl, string_eq, if◌then◌else◌, All,
  Bool-cases, inl, inr,
}
use mathlib.Core.Path.{subst}
use voidz.Prelude.Result.{Result, ok, raise}
use voidz.Core.Admin.{Core}
use voidz.Console.Fleet.{
  Cores, put_core, Delivery, delivered, lost, unanswered, garbled, Reply, replied, worker_error,
  json_error, worker_call, World, failed, next_call, next_region, push_protocols, push_region,
  push_plan,
}
use voidz.Console.Fleet.Sweeps.{Keeps, push_protocols-keeps, push_plan-keeps}

failed-false : (rest : Result Bool) → failed rest ≡ ok true → ⊥
unfolding failed
failed-false (ok b) e = cc
failed-false (raise x) e = cc

next_call-true :
    (reply : Reply) (rest : Result Bool × Core) (after : Core)
    → (next_call reply rest after).0 ≡ ok true
    → (reply ≡ replied) × (rest.0 ≡ ok true) × ((next_call reply rest after).1 ≡ rest.1)
unfolding next_call
next_call-true replied rest after e = (refl, e, refl)
next_call-true worker_error rest after e = absurd (failed-false rest.0 e)
next_call-true json_error rest after e = cc

next_region-true :
    (region : Result Bool) (rest : Result Bool × Cores) (cores : Cores)
    → (next_region region rest cores).0 ≡ ok true
    → (region ≡ ok true) × (rest.0 ≡ ok true) × ((next_region region rest cores).1 ≡ rest.1)
unfolding next_region
next_region-true (raise x) rest cores e = cc
next_region-true (ok true) rest cores e = (refl, e, refl)
next_region-true (ok false) rest cores e = absurd (failed-false rest.0 e)

worker_call-replied :
    (d : Delivery) (result : Result Core) (core : Core)
    → (worker_call d result core).0 ≡ replied
    → result ≡ ok (worker_call d result core).1
unfolding worker_call
worker_call-replied delivered (ok after) core e = refl
worker_call-replied delivered (raise x) core e = cc
worker_call-replied lost result core e = cc
worker_call-replied unanswered result core e = cc
worker_call-replied (garbled false) result core e = cc
worker_call-replied (garbled true) result core e = cc

pub All-weaken {ℓ κ μ} :
    {A : Type ℓ} (P : A → Type κ) (Q : A → Type μ) (xs : List A)
    → ((x : A) → P x → Q x)
    → All P xs
    → All Q xs
All-weaken P Q [] f h = tt
All-weaken P Q (x ∷ xs) f h = (f x h.0, All-weaken P Q xs f h.1)

pub put_core_same : (i : String) (core : Core) (cores : Cores) → put_core i core cores i ≡ core
unfolding put_core
put_core_same i core cores = rw (==_refl i)

module _ {κ} (Q : String → Core → Type κ) (handler : String → Core → Result Core)
    (makes : (proto : String) (core after : Core) → handler proto core ≡ ok after → Q proto after)
    (keeps : (proto : String) → Keeps (Q proto) handler) where
  push_protocols-done :
      (delivery : String → Delivery) (protos : List String) (core : Core)
      → (push_protocols delivery handler protos core).0 ≡ ok true
      → All (λ p. Q p (push_protocols delivery handler protos core).1) protos
  unfolding push_protocols
  push_protocols-done delivery [] core e = tt
  push_protocols-done delivery (proto ∷ protos) core e =
      let called = worker_call (delivery proto) (handler proto core) core in
      let rest = push_protocols delivery handler protos called.1 in
      let (answered, others, same) = next_call-true called.0 rest called.1 e in
      let made =
        makes proto core called.1
          (worker_call-replied (delivery proto) (handler proto core) core answered) in
      subst (λ c. All (λ p. Q p c) (proto ∷ protos)) (sym same)
        (
          push_protocols-keeps (Q proto) handler (keeps proto) delivery protos called.1 made,
          push_protocols-done delivery protos called.1 others,
        )

  pub push_region-done :
      (w : World) (i : String) (protos : List String) (core : Core)
      → (push_region w i handler protos core).0 ≡ ok true
      → (w.running i ≡ true) × All (λ p. Q p (push_region w i handler protos core).1) protos
  unfolding push_region
  push_region-done w i protos core e = elim (Bool-cases (w.running i)) [
    | inl up ↦ (
      up,
      subst
          (λ b.
            All
              (λ p.
                Q p
                  (if b
                    then push_protocols (w.delivery i) handler protos core
                    else (ok false, core)).1)
              protos)
          (sym up) (push_protocols-done (w.delivery i) protos core (rw up at e)),
    )
    | inr down ↦ (let no : ok false ≡ ok true = rw down at e in cc)
  ]

  pub push_plan-done :
      (w : World) (protos is : List String) (cores : Cores)
      → (push_plan w handler protos is cores).0 ≡ ok true
      → All
          (λ i.
            (w.running i ≡ true)
            × All (λ p. Q p ((push_plan w handler protos is cores).1 i)) protos)
          is
  unfolding push_plan
  push_plan-done w protos [] cores e = tt
  push_plan-done w protos (i ∷ is) cores e =
      let pushed = push_region w i handler protos (cores i) in
      let cores' = put_core i pushed.1 cores in
      let rest = push_plan w handler protos is cores' in
      let (first, others, same) = next_region-true pushed.0 rest cores' e in
      let (up, done) = push_region-done w i protos (cores i) first in
      subst (λ c. All (λ j. (w.running j ≡ true) × All (λ p. Q p (c j)) protos) (i ∷ is)) (sym same)
        (
          (
            up,
            All-weaken (λ p. Q p (cores' i)) (λ p. Q p (rest.1 i)) protos
                (λ p h. push_plan-keeps (Q p) handler (keeps p) w protos is cores' i h)
                (subst (λ c. All (λ p. Q p c) protos) (sym (put_core_same i pushed.1 cores)) done),
          ),
          push_plan-done w protos is cores' others,
        )
