-- ===== src/Console/Pipelines/Rows.antt =====
-- A pipeline deletes no row (console/api/voidz_console/services/deployments.py).
use voidz.Prelude.{
  ℕ, ◌≡◌, ◌∙◌, String, Option, some, ◌==◌, string_eq, arith, Bool-cases, Option-cases, inl, inr,
}
use voidz.Prelude.Result.{Exn}
use voidz.Prelude.Dict
use voidz.Prelude.Dict.{Dict, get-put}
use voidz.Console.Deploy.{
  Status, Tables, update_row, set_instance, set_deployment, with_status, moved, ended, follow,
  finish_deployment,
}
use voidz.Console.Pipelines.{Site, provision_default_link}

abbrev pub IsThere {ℓ} : {V : Type ℓ} → String → Dict String V → Type ℓ
IsThere {V = V} id rows = (row : V) × (Dict.get id rows ≡ some row)

pub update_row-IsThere {ℓ} :
    {V : Type ℓ} (id j : String) (f : V → V) (rows : Dict String V)
    → IsThere j rows
    → IsThere j (update_row id f rows)
unfolding update_row
update_row-IsThere id j f rows (row, there) = elim (Option-cases (Dict.get id rows)) [
  | inl absent ↦ (row, rw (absent, update_row) there)
  | inr (old, found) ↦ elim (Bool-cases (id == j)) [
    | inl same ↦ (f old, rw (found, update_row) (get-put id j (f old) rows ∙ rw same))
    | inr other ↦ (row, rw (found, update_row) (get-put id j (f old) rows ∙ rw (other, there)))
  ]
]

module _ (dep id : String) where
  -- the deployment and the instance have their rows
  abbrev pub HasRows : Tables → Type 0
  HasRows t = IsThere dep t.deployments × IsThere id t.instances

  pub set_instance-HasRows :
      (i : String) (status : Status) (t : Tables) → HasRows t → HasRows (set_instance i status t)
  unfolding set_instance
  set_instance-HasRows i status t (d, inst) =
      (d, update_row-IsThere i id (with_status status) t.instances inst)

  follow-HasRows :
      (i : String) (status : Status) (t : Tables) → HasRows t → HasRows (follow i status t)
  unfolding follow
  follow-HasRows i status t h = elim (Option-cases (Dict.get i t.deployments)) [
    | inl absent ↦ rw (absent, follow) h
    | inr (d, there) ↦ rw (there, follow) (set_instance-HasRows d.instance_id status t h)
  ]

  pub set_deployment-HasRows :
      (i : String) (status : Status) (t : Tables) → HasRows t → HasRows (set_deployment i status t)
  unfolding set_deployment
  set_deployment-HasRows i status t (d, inst) =
      follow-HasRows i status (record t { deployments = update_row i (moved status) t.deployments })
        (update_row-IsThere i dep (moved status) t.deployments d, inst)

  pub finish_deployment-HasRows :
      (i : String) (status : Status) (error : Option Exn) (now : ℕ) (t : Tables)
      → HasRows t
      → HasRows (finish_deployment i status error now t)
  unfolding finish_deployment
  finish_deployment-HasRows i status error now t (d, inst) =
      follow-HasRows i status
        (record t { deployments = update_row i (ended status error now) t.deployments })
        (update_row-IsThere i dep (ended status error now) t.deployments d, inst)

  pub provision_default_link-HasRows :
      (site : Site) (i : String) (t : Tables)
      → HasRows t
      → HasRows (provision_default_link site i t)
  unfolding provision_default_link
  provision_default_link-HasRows site i t h = elim (Option-cases (Dict.get i t.instances)) [
    | inl absent ↦ rw (absent, provision_default_link) h
    | inr (inst, there) ↦ rw (there, provision_default_link) (ground (arith, h))
  ]
