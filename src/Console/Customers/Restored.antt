-- ===== src/Console/Customers/Restored.antt =====
-- The row of a customer behind a patch (console/api/voidz_console/routers/plans.py).
use voidz.Prelude.{
  ℕ, ◌≡◌, refl, ◌∙◌, String, Bool, true, false, not, ◌&&◌, ◌||◌, inl, inr, Option, none, some,
  string_eq, Bool-cases, arith,
}
use voidz.Prelude.Result.{ok}
use voidz.Prelude.Dict.{get}
use voidz.Console.Quota.{Customer, Plans, Uuid5}
use voidz.Console.Reconcile.{forget_pending_disable}
use voidz.Console.Customers.{
  CustomerPatch, Desk, Calls, set_row, expiry_behind, limit_behind, used_behind, touched_lifecycle,
  still_expired, still_over_quota, set_activity, is_restored, finish, patch_customer,
}
use voidz.Console.Customers.Edits.{
  called-row, after-ok, IsRow, at_desk, updated, done_at, set_name-IsRow, extend-IsRow,
  set_limit-IsRow, set_max_devices-IsRow, reset-IsRow,
}

module _ (uuid5 : Uuid5) (isoformat : ℕ → String) (plans : Plans) (calls : Calls) (now : ℕ)
    (id : String) (c : Customer) where
  set_activity-IsRow :
      {E : Option ℕ} {L U : ℕ} {A : Bool} (active : Bool) (d d' : Desk)
      → set_activity uuid5 isoformat plans calls now id c active d ≡ (ok tt, d')
      → IsRow id d E L U A
      → IsRow id d' E L U active
  unfolding set_activity forget_pending_disable
  set_activity-IsRow true d d' h i =
      let row = set_row id (λ x. record x { active = true }) d in
      let free : Desk = record row { quota = forget_pending_disable id row.quota } in
      at_desk id free d' (called-row id _ free d' h) (
        at_desk id row free refl (
          updated id (λ x. record x { active = true }) d i.row i.there i.expires i.limits i.uses
            refl))
  set_activity-IsRow false d d' h i =
      at_desk id (set_row id (λ x. record x { active = false }) d) d' (called-row id _ _ d' h) (
        updated id (λ x. record x { active = false }) d i.row i.there i.expires i.limits i.uses
          refl)

  -- Whether a customer is to be on: as the patch says; or as it was, and on again if an edit of
  -- its end, its limit or its usage leaves it neither expired nor over its quota.
  unfoldable pub active_behind : CustomerPatch → Option Bool → Option ℕ → ℕ → ℕ → Bool
  active_behind p (some active) expires_at limit used = active
  active_behind p none expires_at limit used =
      c.active
      || (touched_lifecycle p
          && not (still_expired calls.checked_at expires_at)
          && not (still_over_quota limit used))

  with_active :
      {E : Option ℕ} {L U : ℕ} (d : Desk) (A B : Bool)
      → A ≡ B
      → IsRow id d E L U A
      → IsRow id d E L U B
  with_active d A B e i = record {
    row = i.row;
    there = i.there;
    expires = i.expires;
    limits = i.limits;
    uses = i.uses;
    is_active = i.is_active ∙ e;
  }

  turned_on :
      (p : CustomerPatch)
      → is_restored uuid5 isoformat plans calls now id c p ≡ true
      → true
        ≡ active_behind p none
            (expiry_behind now p.extend c.expires_at)
            (limit_behind p.limit_bytes c.limit_bytes)
            (used_behind p.reset_usage c.used_bytes_cached)
  unfolding is_restored active_behind
  turned_on p on = ground (arith, on)

  left_as_is :
      (p : CustomerPatch)
      → is_restored uuid5 isoformat plans calls now id c p ≡ false
      → c.active
        ≡ active_behind p none
            (expiry_behind now p.extend c.expires_at)
            (limit_behind p.limit_bytes c.limit_bytes)
            (used_behind p.reset_usage c.used_bytes_cached)
  unfolding is_restored active_behind
  left_as_is p off = ground (arith, off)

  finish-IsRow :
      (p : CustomerPatch) (o : Option Bool) (d d' : Desk)
      → finish uuid5 isoformat plans calls now id c p o d ≡ (ok tt, d')
      → IsRow id d
          (expiry_behind now p.extend c.expires_at)
          (limit_behind p.limit_bytes c.limit_bytes)
          (used_behind p.reset_usage c.used_bytes_cached)
          c.active
      → IsRow id d'
          (expiry_behind now p.extend c.expires_at)
          (limit_behind p.limit_bytes c.limit_bytes)
          (used_behind p.reset_usage c.used_bytes_cached)
          (active_behind p o
            (expiry_behind now p.extend c.expires_at)
            (limit_behind p.limit_bytes c.limit_bytes)
            (used_behind p.reset_usage c.used_bytes_cached))
  unfolding finish active_behind
  finish-IsRow p (some active) d d' h i = set_activity-IsRow active d d' h i
  finish-IsRow p none d d' h i =
      elim (Bool-cases (is_restored uuid5 isoformat plans calls now id c p)) [
        | inl yes_on ↦
            with_active d' _ _ (turned_on p yes_on)
              (set_activity-IsRow true d d' (rw yes_on at h) i)
        | inr stays ↦ with_active d' _ _ (left_as_is p stays) (done_at id d d' (rw stays at h) i)
      ]

  -- After a patch that raises nothing, the row of the customer has the end, the limit and the
  -- usage that the patch gives, and is on as the patch says; or, where the patch does not say it,
  -- it is on if it was, and on again exactly if the patch touches one of these and the row is now
  -- neither expired nor over its quota. Why it was off does not count: a customer whom an admin has
  -- disabled, and who breached no limit, is on again too.
  pub patch_customer-IsRow :
      (p : CustomerPatch) (d d' : Desk)
      → get id d.quota.customers ≡ some c
      → patch_customer uuid5 isoformat plans calls now id c p d ≡ (ok tt, d')
      → IsRow id d'
          (expiry_behind now p.extend c.expires_at)
          (limit_behind p.limit_bytes c.limit_bytes)
          (used_behind p.reset_usage c.used_bytes_cached)
          (active_behind p p.active
            (expiry_behind now p.extend c.expires_at)
            (limit_behind p.limit_bytes c.limit_bytes)
            (used_behind p.reset_usage c.used_bytes_cached))
  unfolding patch_customer
  patch_customer-IsRow p d d' e h =
      let (d1, h1, r1) = after-ok _ _ d' h in
      let (d2, h2, r2) = after-ok _ _ d' r1 in
      let (d3, h3, r3) = after-ok _ _ d' r2 in
      let (d4, h4, r4) = after-ok _ _ d' r3 in
      let (d5, h5, r5) = after-ok _ _ d' r4 in
      finish-IsRow p p.active d5 d' r5 (
        reset-IsRow uuid5 isoformat plans calls now id c c.used_bytes_cached p.reset_usage d4 d5 h5
          (set_max_devices-IsRow uuid5 isoformat plans calls now id c p.max_devices d3 d4 h4 (
            set_limit-IsRow uuid5 isoformat plans calls now id c c.limit_bytes p.limit_bytes d2 d3
              h3
              (extend-IsRow uuid5 isoformat plans calls now id c p.extend d1 d2 h2 (
                set_name-IsRow uuid5 isoformat plans calls now id c p.name d d1 h1 (record {
                  row = c;
                  there = e;
                  expires = refl;
                  limits = refl;
                  uses = refl;
                  is_active = refl;
                }))))))
