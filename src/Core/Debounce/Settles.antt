-- ===== src/Core/Debounce/Settles.antt =====
-- A save is tried behind every edit (core/voidz_core/state.py).
use voidz.Prelude.{ℕ, zero, suc, ◌+◌, ◌≤◌, ◌≡◌, refl, true, false, arith}
use voidz.Core.Debounce.{
  Saver, edit, tried_now, start, wake, start_all, drain, Tick, edited, started, woken, flushed, Run,
  boot, tick,
}

-- Nobody will save, so a save was tried with everything; and only a sleeper is told to go round again.
abbrev IsOwed : Saver → Type 0
IsOwed s =
    (s.pending ≡ false → s.tasks ≡ 0 → s.tried ≡ s.edits)
    × (s.pending ≡ false → s.dirty_again ≡ false)

tick-IsOwed : {s t : Saver} → Tick s t → IsOwed s → IsOwed t
unfolding edit tried_now start wake
tick-IsOwed (edited s) (done, clean) = (λ p e. absurd (omega (arith, e)), clean)
tick-IsOwed (started s more) (done, clean) = ground (arith, done, clean)
tick-IsOwed (woken s asleep) (done, clean) = ground (arith, done, clean)
tick-IsOwed (flushed s) (done, clean) = (λ p e. refl, clean)

-- At any moment of any run: when no task sleeps and none is about to start, the last save came
-- behind every edit.
pub Run-saved : {s : Saver} → Run s → s.pending ≡ false → s.tasks ≡ 0 → s.tried ≡ s.edits
Run-saved r = (Run-IsOwed r).0
  where
    Run-IsOwed : {s : Saver} → Run s → IsOwed s
    Run-IsOwed boot = (λ p e. refl, λ p. refl)
    Run-IsOwed (tick r t) = tick-IsOwed t (Run-IsOwed r)

start_all-Run :
    (n : ℕ) {s : Saver}
    → n ≡ s.tasks
    → Run s
    → Run (start_all n s)
      × ((start_all n s).tasks ≡ 0)
      × ((start_all n s).edits ≡ s.edits)
      × ((start_all n s).saves ≡ s.saves)
unfolding start_all start
start_all-Run zero e r = (r, omega (arith, e), refl, refl)
start_all-Run (suc n) {s = s} e r =
    let rest =
      start_all-Run n {s = start s} (ground arith) (tick r (started s (omega (arith, e)))) in
    ground (arith, rest)

drain_two :
    (s : Saver)
    → ((drain 2 s).pending ≡ false)
      × ((drain 2 s).tasks ≡ s.tasks)
      × ((drain 2 s).saves ≤ s.saves + 2)
      × ((drain 2 s).edits ≡ s.edits)
      × (s.pending ≡ true → (drain 2 s).tried ≡ s.edits)
      × (s.pending ≡ false → (drain 2 s).tried ≡ s.tried)
unfolding drain wake tried_now
drain_two s = ground arith

-- Whatever has happened, once no more edits come the debounce comes to rest: the tasks that wait
-- start, and after the sleeper has woken at most twice no task sleeps or waits, the last save was
-- tried with every edit in the links, and at most two saves were tried for all of them. Whether a
-- save that is tried reaches the disk is not part of this: one that meets an OSError is logged and
-- not tried again.
pub settles :
    {s : Saver}
    → Run s
    → let rest = drain 2 (start_all s.tasks s) in
      (rest.pending ≡ false)
      × (rest.tasks ≡ 0)
      × (rest.tried ≡ s.edits)
      × (rest.saves ≤ s.saves + 2)
settles {s = s} r =
    let (started_all, none_waits, edits_kept, saves_kept) = start_all-Run s.tasks {s = s} refl r in
    let two = drain_two (start_all s.tasks s) in
    let saved = Run-saved started_all in
    ground (arith, none_waits, edits_kept, saves_kept, two, saved)
