-- ===== src/Relay/Gate/Batches.antt =====
-- What `QuotaGate` counts and when (core/voidz_core/relay/base.py).
use voidz.Prelude.{
  ℕ, ◌+◌, ◌-◌, ◌≤◌, ◌<◌, ◌≡◌, refl, true, List, [], ◌∷◌, if◌then◌else◌, arith, ltb, Bool-cases, ◌⊎◌,
  inl, inr, Option, String,
}
use voidz.Core.Stats.{add_traffic}
use voidz.Relay.Gate.{
  Rates, Context, Now, Gate, init, account, next_batch, adapt, flush_due, add, flush,
  quota_min_batch, quota_max_batch,
}

next_batch_bounds :
    (target : ℕ) → (quota_min_batch ≤ next_batch target) × (next_batch target ≤ quota_max_batch)
unfolding next_batch
next_batch_bounds target = omega arith

module _ (r : Rates) where
  -- The batch size is between 32 KiB and 2 MiB, and less than a batch waits to be charged.
  pub record IsValid (g : Gate r) : Type 0 where
    pub low : quota_min_batch ≤ g.batch_bytes
    pub high : g.batch_bytes ≤ quota_max_batch
    pub waiting : g.pending < g.batch_bytes

  adapt_bounds :
      (n elapsed : ℕ) (g : Gate r)
      → IsValid g
      → (quota_min_batch ≤ (adapt r n elapsed g).batch_bytes)
        × ((adapt r n elapsed g).batch_bytes ≤ quota_max_batch)
  unfolding adapt
  adapt_bounds n elapsed g v = elim (Bool-cases (ltb 0 elapsed)) [
    | inl later ↦ rw later (
        next_batch_bounds (
          r.window_bytes (
            if r.is_zero g.rate_ewma
            then r.per_elapsed n elapsed
            else r.smooth g.rate_ewma (r.per_elapsed n elapsed))))
    | inr at_once ↦ rw at_once (v.low, v.high)
  ]

  flush_due-IsValid :
      (now : Now) (g : Gate r) (n : ℕ) (ctx : Context)
      → IsValid g
      → IsValid (flush_due r now g n ctx).1
  unfolding flush_due
  flush_due-IsValid now g n ctx v =
      let (low, high) = adapt_bounds n (now.monotonic - g.last_check) g v in
      record { low = low; high = high; waiting = omega arith }

  pub add-IsValid :
      (now : Now) (n : ℕ) (g : Gate r) (ctx : Context) → IsValid g → IsValid (add r now n g ctx).1
  unfolding add
  add-IsValid now n g ctx v = grind (arith, flush_due-IsValid)

  -- The bytes counted so far: those in the counters, and those that wait.
  abbrev counted : Gate r → Context → ℕ
  counted g ctx = ctx.stats.total_bytes + g.pending

  -- A gate that has refused keeps nothing back.
  abbrev Settled : Gate r → Type 0
  Settled g = (g.open_now ≡ true) ⊎ (g.pending ≡ 0)

  add-counted :
      (now : Now) (n : ℕ) (g : Gate r) (ctx : Context)
      → counted (add r now n g ctx).1 (add r now n g ctx).2
        ≡ counted g ctx + (if g.open_now then n else 0)
  unfolding add flush_due account add_traffic
  add-counted now n g ctx = ground arith

  add-Settled :
      (now : Now) (n : ℕ) (g : Gate r) (ctx : Context) → Settled g → Settled (add r now n g ctx).1
  unfolding add flush_due
  add-Settled now n g ctx h = ground arith

  flush-counted :
      (now : Now) (g : Gate r) (ctx : Context)
      → Settled g
      → (counted (flush r now g ctx).1 (flush r now g ctx).2 ≡ counted g ctx)
        × ((flush r now g ctx).1.pending ≡ 0)
  unfolding flush account add_traffic
  flush-counted now g ctx h = ground arith

  -- The frames of a connection, each with its time, through `add`.
  unfoldable pub pass_all : List (Now × ℕ) → Gate r → Context → Gate r × Context
  pass_all [] g ctx = (g, ctx)
  pass_all ((now, n) ∷ rest) g ctx = pass_all rest (add r now n g ctx).1 (add r now n g ctx).2

  -- The bytes of the frames that come while the gate has refused none.
  unfoldable pub taken : List (Now × ℕ) → Gate r → Context → ℕ
  taken [] g ctx = 0
  taken ((now, n) ∷ rest) g ctx =
      (if g.open_now then n else 0) + taken rest (add r now n g ctx).1 (add r now n g ctx).2

  pass_all-counted :
      (frames : List (Now × ℕ)) (g : Gate r) (ctx : Context)
      → Settled g
      → Settled (pass_all frames g ctx).0
        × (counted (pass_all frames g ctx).0 (pass_all frames g ctx).1
            ≡ counted g ctx + taken frames g ctx)
  unfolding pass_all taken
  pass_all-counted [] g ctx h = (h, omega arith)
  pass_all-counted ((now, n) ∷ rest) g ctx h =
      let (settled, later) =
        pass_all-counted rest (add r now n g ctx).1 (add r now n g ctx).2
          (add-Settled now n g ctx h) in
      (settled, omega (arith, later, add-counted now n g ctx))

  pass_all-IsValid :
      (frames : List (Now × ℕ)) (g : Gate r) (ctx : Context)
      → IsValid g
      → IsValid (pass_all frames g ctx).0
  unfolding pass_all
  pass_all-IsValid [] g ctx v = v
  pass_all-IsValid ((now, n) ∷ rest) g ctx v =
      pass_all-IsValid rest (add r now n g ctx).1 (add r now n g ctx).2 (add-IsValid now n g ctx v)

-- Whatever frames pass a new gate, the bytes of the frames that came while the gate had refused
-- none are counted once each: after the closing flush they are all in the traffic total, and none
-- waits. At each point the batch is between 32 KiB and 2 MiB, and less than one batch waits.
pub session_counted :
    (r : Rates) (frames : List (Now × ℕ)) (uuid : String) (conn_id : Option String) (start : ℕ)
    (ctx : Context) (now : Now)
    → ((flush r now
          (pass_all r frames (init r uuid conn_id start) ctx).0
          (pass_all r frames (init r uuid conn_id start) ctx).1).2.stats.total_bytes
        ≡ ctx.stats.total_bytes + taken r frames (init r uuid conn_id start) ctx)
      × ((flush r now
            (pass_all r frames (init r uuid conn_id start) ctx).0
            (pass_all r frames (init r uuid conn_id start) ctx).1).1.pending
          ≡ 0)
      × IsValid r (pass_all r frames (init r uuid conn_id start) ctx).0
session_counted r frames uuid conn_id start ctx now =
    let first : Gate r = init r uuid conn_id start in
    let valid : IsValid r first =
      unfold init in record { low = omega arith; high = omega arith; waiting = omega arith } in
    let nothing : first.pending ≡ 0 = unfold init in refl in
    let (settled, later) = pass_all-counted r frames first ctx (inr nothing) in
    let (kept, flushed) =
      flush-counted r now (pass_all r frames first ctx).0 (pass_all r frames first ctx).1 settled in
    (
      omega (arith, later, kept, flushed, nothing),
      flushed,
      pass_all-IsValid r frames first ctx valid,
    )
