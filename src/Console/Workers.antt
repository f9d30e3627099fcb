-- ===== src/Console/Workers.antt =====
-- `pick_worker` of console/api/voidz_console/services/workers.py.
use voidz.Prelude.{
  ℕ, ◌*◌, max, String, Bool, true, ◌||◌, List, [], ◌∷◌, Option, none, some, keep, leb, ltb,
  if◌then◌else◌, ◌==◌, string_eq,
}

-- A row of `workers` that is enabled and online.
pub record WorkerRow : Type 0 where
  pub node_id : String
  pub region : String
  pub instances : Option ℕ
  pub capacity : Option ℕ

-- The condition of the query: a worker that is not full.
unfoldable pub has_room : WorkerRow → Bool
has_room w = elim w.instances [
  | none ↦ true
  | some n ↦ elim w.capacity [ none ↦ true | some c ↦ ltb n c ]
]

-- `r["region"] == region` where a region is wanted
unfoldable pub in_region : Option String → WorkerRow → Bool
in_region none w = true
in_region (some region) w = region == "" || w.region == region

unfoldable pub load : WorkerRow → ℕ
load w = elim w.instances [ none ↦ 0 | some n ↦ n ]

unfoldable pub slots : WorkerRow → ℕ
slots w = elim w.capacity [ none ↦ 1 | some c ↦ max c 1 ]

-- The first row with the smallest ratio of load to slots.
unfoldable pub least_loaded : WorkerRow → List WorkerRow → WorkerRow
least_loaded best [] = best
least_loaded best (w ∷ ws) =
    let kept = least_loaded best ws in
    let other = least_loaded w ws in
    if leb (load best * slots w) (load w * slots best) then kept else other

-- The node, where `default_node` is the worker of the console itself.
unfoldable pub pick_worker : String → Option String → List WorkerRow → String
pick_worker default_node region rows = elim (keep (in_region region) (keep has_room rows)) [
  | [] ↦ default_node
  | w ∷ ws ↦ (least_loaded w ws).node_id
]
