-- ===== src/Core/Debounce.antt =====
-- `StateStore.schedule_save` of core/voidz_core/state.py, on one event loop: a task runs alone up
-- to its next `await` that waits, and the only one is the sleep. The save after the sleep does
-- not wait, so it is one step with the test that follows it.
pub mod Settles
use voidz.Prelude.{ℕ, zero, suc, ◌+◌, ◌-◌, ◌≤◌, ◌≡◌, Bool, true, false, if◌then◌else◌}

pub record Saver : Type 0 where
  -- how many edits the links have seen, and how many of them the last save tried to write
  pub edits : ℕ
  pub tried : ℕ
  -- how many saves were tried
  pub saves : ℕ
  -- the tasks that `create_task` has made and that have not run yet
  pub tasks : ℕ
  -- `_pending`: a task sleeps. `_dirty_again`
  pub pending : Bool
  pub dirty_again : Bool

abbrev pub idle : Saver
idle = record { edits = 0; tried = 0; saves = 0; tasks = 0; pending = false; dirty_again = false }

-- A handler edits the links and calls `_schedule_save`.
unfoldable pub edit : Saver → Saver
edit s = record s { edits = s.edits + 1; tasks = s.tasks + 1 }

-- `save`, whether it writes or meets an OSError
unfoldable pub tried_now : Saver → Saver
tried_now s = record s { tried = s.edits; saves = s.saves + 1 }

-- A task runs from its start to its return or its sleep.
unfoldable pub start : Saver → Saver
start s =
    let begun : Saver = record s { tasks = s.tasks - 1 } in
    if s.pending
    then record begun { dirty_again = true }
    else record begun { pending = true; dirty_again = false }

-- The sleeper wakes: it saves, and returns or sleeps again.
unfoldable pub wake : Saver → Saver
unfolding tried_now
wake s =
    if s.dirty_again
    then record (tried_now s) { dirty_again = false }
    else record (tried_now s) { pending = false }

-- The tasks that have not run yet start, one after the other.
unfoldable pub start_all : ℕ → Saver → Saver
start_all zero s = s
start_all (suc n) s = start_all n (start s)

-- The sleeper wakes until it returns, at most `n` times.
unfoldable pub drain : ℕ → Saver → Saver
drain zero s = s
drain (suc n) s = let rest = drain n (wake s) in if s.pending then rest else s

-- What the loop runs, in any order; `flush` is the handler of `/core/api/state/flush`.
pub data Tick : Saver → Saver → Type 0 where
  edited : (s : Saver) → Tick s (edit s)
  started : (s : Saver) → 1 ≤ s.tasks → Tick s (start s)
  woken : (s : Saver) → s.pending ≡ true → Tick s (wake s)
  flushed : (s : Saver) → Tick s (tried_now s)

pub data Run : Saver → Type 0 where
  boot : Run idle
  tick : {s t : Saver} → Run s → Tick s t → Run t
