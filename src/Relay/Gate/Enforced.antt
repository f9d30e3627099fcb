-- ===== src/Relay/Gate/Enforced.antt =====
-- How far `QuotaGate` lets a link pass its quota (core/voidz_core/relay/base.py).
use voidz.Prelude.{
  ℕ, ◌+◌, ◌-◌, ◌*◌, ◌≤◌, ◌<◌, ◌≡◌, ◌∙◌, ap, refl, true, false, List, [], ◌∷◌, some, All,
  if◌then◌else◌, arith, leb, ◌||◌, Bool-cases, inl, inr, String, string_eq, ==_refl, Bool,
}
use voidz.Prelude.Dict
use voidz.Prelude.Dict.{get-put}
use voidz.Core.Link.{Time, Link, is_allowed}
use voidz.Core.Store.{LinkStore, charged, use_bytes}
use voidz.Relay.Gate.{
  Rates, Context, Now, Gate, account, adapt, flush_due, add, quota_max_batch, quota_check_interval,
}
use voidz.Relay.Gate.Batches.{IsValid, add-IsValid}

module _ (r : Rates) where
  -- The bytes of the frames for which `add` returns true, which are the ones that a relay
  -- forwards.
  unfoldable pub forwarded : List (Now × ℕ) → Gate r → Context → ℕ
  forwarded [] g ctx = 0
  forwarded ((now, n) ∷ rest) g ctx =
      (if (add r now n g ctx).0 then n else 0)
      + forwarded rest (add r now n g ctx).1 (add r now n g ctx).2

  -- A gate that has refused lets nothing pass any more.
  closed-forwarded :
      (frames : List (Now × ℕ)) (g : Gate r) (ctx : Context)
      → g.open_now ≡ false
      → forwarded frames g ctx ≡ 0
  unfolding forwarded add
  closed-forwarded [] g ctx shut = refl
  closed-forwarded ((now, n) ∷ rest) g ctx shut =
      ground (arith, shut, closed-forwarded rest g ctx shut)

  under_quota :
      (t : Time) (link : Link)
      → 0 < link.limit_bytes
      → is_allowed t link ≡ true
      → link.used_bytes < link.limit_bytes
  unfolding is_allowed
  under_quota t link limited allowed = ground arith

  -- What a frame does: it is forwarded and waits to be charged, or it is forwarded and all that
  -- waited is charged to a link that is allowed, or it is refused and the gate stays shut.
  data Frame (n : ℕ) (t : Time) (g : Gate r) (ctx : Context) (link : Link)
      (o : Bool × Gate r × Context) : Type 0 where
    waits :
        o.0 ≡ true
        → o.1.uuid ≡ g.uuid
        → o.1.pending ≡ g.pending + n
        → o.2.links ≡ ctx.links
        → Frame n t g ctx link o
    charges :
        o.0 ≡ true
        → o.1.uuid ≡ g.uuid
        → o.1.pending ≡ 0
        → Dict.get g.uuid o.2.links ≡ some (charged (g.pending + n) link)
        → is_allowed t link ≡ true
        → Frame n t g ctx link o
    refuses : o.0 ≡ false → o.1.open_now ≡ false → Frame n t g ctx link o

  use_bytes-allowed :
      (t : Time) (uuid : String) (n : ℕ) (links : LinkStore) (link : Link)
      → Dict.get uuid links ≡ some link
      → use_bytes t uuid n links ≡ (
          if is_allowed t link
          then (true, Dict.put uuid (charged n link) links)
          else (false, links))
  unfolding use_bytes
  use_bytes-allowed t uuid n links link there = rw (use_bytes, there) refl

  adapt-uuid : (n elapsed : ℕ) (g : Gate r) → (adapt r n elapsed g).uuid ≡ g.uuid
  unfolding adapt
  adapt-uuid n elapsed g = ground arith

  flush_due-Frame :
      (now : Now) (n : ℕ) (g : Gate r) (ctx : Context) (link : Link)
      → Dict.get g.uuid ctx.links ≡ some link
      → Frame n now.time g ctx link (flush_due r now g (g.pending + n) ctx)
  unfolding flush_due account
  flush_due-Frame now n g ctx link there =
      let used = use_bytes-allowed now.time g.uuid (g.pending + n) ctx.links link there in
      elim (Bool-cases (is_allowed now.time link)) [
        | inl yes_on ↦
            let done : use_bytes now.time g.uuid (g.pending + n) ctx.links
                ≡ (true, Dict.put g.uuid (charged (g.pending + n) link) ctx.links) =
              rw yes_on at used in
            charges (ap (λ (o : Bool × LinkStore). o.0) done)
              (adapt-uuid (g.pending + n) (now.monotonic - g.last_check) g) refl
              (ap (λ (o : Bool × LinkStore). Dict.get g.uuid o.1) done
                ∙ (get-put g.uuid g.uuid (charged (g.pending + n) link) ctx.links
                    ∙ rw (==_refl g.uuid)))
              yes_on
        | inr off ↦
            let done : use_bytes now.time g.uuid (g.pending + n) ctx.links ≡ (false, ctx.links) =
              rw off at used in
            refuses (ap (λ (o : Bool × LinkStore). o.0) done)
              (ap (λ (o : Bool × LinkStore). o.0) done)
      ]

  add-Frame :
      (now : Now) (n : ℕ) (g : Gate r) (ctx : Context) (link : Link)
      → Dict.get g.uuid ctx.links ≡ some link
      → Frame n now.time g ctx link (add r now n g ctx)
  unfolding add
  add-Frame now n g ctx link there = elim (Bool-cases g.open_now) [
    | inr shut ↦ refuses (ground (arith, shut)) (ground (arith, shut))
    | inl is_open ↦
        elim (Bool-cases (
          leb g.batch_bytes (g.pending + n)
          || leb quota_check_interval (now.monotonic - g.last_check))) [
            | inl due ↦ simp (add, is_open, due) (flush_due-Frame now n g ctx link there)
            | inr early ↦ simp (add, is_open, early) (waits refl refl refl refl)
          ]
  ]

  found_at :
      (k j : String) (links links' : LinkStore) (link : Link)
      → k ≡ j
      → links' ≡ links
      → Dict.get j links ≡ some link
      → Dict.get k links' ≡ some link
  found_at k j links links' link e e' there = rw (e, e') there

  -- The bytes charged, waiting and still to be forwarded stay below `top`.
  bounded :
      (slack top : ℕ) (frames : List (Now × ℕ)) (g : Gate r) (ctx : Context) (link : Link)
      → IsValid r g
      → All (λ f. f.1 ≤ slack) frames
      → Dict.get g.uuid ctx.links ≡ some link
      → 0 < link.limit_bytes
      → link.used_bytes + quota_max_batch ≤ top
      → link.limit_bytes + quota_max_batch + quota_max_batch + slack ≤ top
      → g.pending + link.used_bytes + forwarded frames g ctx ≤ top
  unfolding forwarded
  bounded slack top [] g ctx link v small there limited under over =
      omega (arith, v.high, v.waiting, under)
  bounded slack top ((now, n) ∷ rest) g ctx link v small there limited under over =
      let o = add r now n g ctx in
      let v' : IsValid r o.1 = add-IsValid r now n g ctx v in
      elim (add-Frame now n g ctx link there) [
        | waits yes_on same pending links ↦
            let later =
              bounded slack top rest o.1 o.2 link v' small.1
                (found_at o.1.uuid g.uuid ctx.links o.2.links link same links there) limited under
                over in
            ground (arith, yes_on, pending, later)
        | charges yes_on same pending links allowed ↦
            let here = under_quota now.time link limited allowed in
            let later =
              bounded slack top rest o.1 o.2 (charged (g.pending + n) link) v' small.1
                (found_at o.1.uuid g.uuid o.2.links o.2.links _ same refl links) limited
                (omega (arith, here, small.0, v.high, v.waiting, over)) over in
            ground (arith, yes_on, pending, later)
        | refuses no_more shut ↦
            let none = closed-forwarded rest o.1 o.2 shut in
            ground (arith, no_more, none, v.high, v.waiting, under)
      ]

-- A gate in use charges its link in batches and learns of the quota only then. Still, on a link
-- with a quota that no one else uses, and with no frame larger than `slack` bytes, the frames that
-- the gate lets pass have at most as many bytes as the link had left, twice 2 MiB and `slack`.
pub quota_enforced :
    (r : Rates) (slack : ℕ) (frames : List (Now × ℕ)) (g : Gate r) (ctx : Context) (link : Link)
    → IsValid r g
    → All (λ f. f.1 ≤ slack) frames
    → Dict.get g.uuid ctx.links ≡ some link
    → 0 < link.limit_bytes
    → forwarded r frames g ctx
      ≤ (link.limit_bytes - link.used_bytes) + (2 * quota_max_batch + slack)
quota_enforced r slack frames g ctx link v small there limited = omega (
  arith,
  bounded r slack
      (link.used_bytes + ((link.limit_bytes - link.used_bytes) + (2 * quota_max_batch + slack)))
      frames g ctx link v small there limited (omega arith) (omega arith),
)
