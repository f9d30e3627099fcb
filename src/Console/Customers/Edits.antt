-- ===== src/Console/Customers/Edits.antt =====
-- What the edits of a patch make of the row of a customer (console/api/voidz_console/routers/plans.py).
use voidz.Prelude.{
  ℕ, ◌≡◌, refl, sym, ap, ◌∙◌, String, Bool, true, false, inl, inr, [], ◌∷◌, Option, none, some,
  take, ltb, ==_refl, string_eq, if◌then◌else◌, Bool-cases,
}
use voidz.Prelude.Integers.{ℤ, pos, negsuc}
use voidz.Prelude.Result.{Result, ok, raise, http}
use voidz.Prelude.Dict.{get, get-put}
use voidz.Relay.Bytes.{Text}
use voidz.Core.Admin.{Patch}
use voidz.Console.Fleet.{Cores, World}
use voidz.Console.Quota.{Customer, Plans, Uuid5}
use voidz.Console.Reconcile.{update_customer}
use voidz.Console.Customers.{
  Desk, Step, Calls, after, set_row, called, unlock, expiry_behind, limit_behind, used_behind,
  set_name, patch_links, extend, set_limit, set_max_devices, reset,
}

abbrev pub row_of : String → Desk → Option Customer
row_of id d = get id d.quota.customers

pub set_row-row :
    (id : String) (f : Customer → Customer) (d : Desk) (x : Customer)
    → row_of id d ≡ some x
    → row_of id (set_row id f d) ≡ some (f x)
unfolding set_row update_customer
set_row-row id f d x e =
    rw (e, update_customer)
      (get-put id id (f x) d.quota.customers
        ∙ ap (λ (b : Bool). if b then some (f x) else get id d.quota.customers) (==_refl id))

-- A call that raises nothing leaves the row.
pub called-row :
    {A : Type 0} (id : String) (o : Result A × Cores) (d d' : Desk)
    → called o d ≡ (ok tt, d')
    → row_of id d' ≡ row_of id d
unfolding called
called-row id (raise e, cores) d d' h = let no : raise e ≡ ok tt = ap (λ (s : Step). s.0) h in cc
called-row id (ok v, cores) d d' h = sym (ap (λ (s : Step). row_of id s.1) h)

-- A chain that raises nothing raised nothing in its first step.
pub after-ok :
    (st : Step) (next : Desk → Step) (d' : Desk)
    → after st next ≡ (ok tt, d')
    → (d : Desk) × (st ≡ (ok tt, d)) × (next d ≡ (ok tt, d'))
unfolding after
after-ok (raise e, d) next d' h = let no : raise e ≡ ok tt = ap (λ (s : Step). s.0) h in cc
after-ok (ok v, d) next d' h = (d, refl, h)

pub same_desk : (d d' : Desk) → ◌≡◌ {A = Step} (ok tt, d) (ok tt, d') → d ≡ d'
same_desk d d' h = ap (λ (s : Step). s.1) h

pub refused :
    {B : Type 0} (code : ℕ) (d d' : Desk) → ◌≡◌ {A = Step} (raise (http code), d) (ok tt, d') → B
refused code d d' h =
    let no : ◌≡◌ {A = Result (Unit {0})} (raise (http code)) (ok tt) = ap (λ (s : Step). s.0) h in
    cc

module _ (id : String) where
  -- The row of the customer, by its end, its limit, its usage and whether it is active.
  pub record IsRow (d : Desk) (expires_at : Option ℕ) (limit used : ℕ) (active : Bool)
      : Type 0 where
    pub row : Customer
    pub there : row_of id d ≡ some row
    pub expires : row.expires_at ≡ expires_at
    pub limits : row.limit_bytes ≡ limit
    pub uses : row.used_bytes_cached ≡ used
    pub is_active : row.active ≡ active

  -- The same row in another state, and the row that a statement has set.
  pub at_desk :
      {E : Option ℕ} {L U : ℕ} {A : Bool} (d d' : Desk)
      → row_of id d' ≡ row_of id d
      → IsRow d E L U A
      → IsRow d' E L U A
  at_desk d d' same i = record {
    row = i.row;
    there = same ∙ i.there;
    expires = i.expires;
    limits = i.limits;
    uses = i.uses;
    is_active = i.is_active;
  }

  -- What an UPDATE makes of the row, with what it says of its fields.
  pub updated :
      {E : Option ℕ} {L U : ℕ} {A : Bool} (f : Customer → Customer) (d : Desk) (x : Customer)
      → row_of id d ≡ some x
      → (f x).expires_at ≡ E
      → (f x).limit_bytes ≡ L
      → (f x).used_bytes_cached ≡ U
      → (f x).active ≡ A
      → IsRow (set_row id f d) E L U A
  updated f d x e ee el eu ea = record {
    row = f x;
    there = set_row-row id f d x e;
    expires = ee;
    limits = el;
    uses = eu;
    is_active = ea;
  }

  -- A step that returns leaves a desk of its own.
  pub done_at :
      {E : Option ℕ} {L U : ℕ} {A : Bool} (d d' : Desk)
      → ◌≡◌ {A = Step} (ok tt, d) (ok tt, d')
      → IsRow d E L U A
      → IsRow d' E L U A
  done_at d d' h i = at_desk d d' (ap (row_of id) (sym (same_desk d d' h))) i

module _ (uuid5 : Uuid5) (isoformat : ℕ → String) (plans : Plans) (calls : Calls) (now : ℕ)
    (id : String) (c : Customer) where
  pub patched_at :
      {E : Option ℕ} {L U : ℕ} {A : Bool} (w : World) (patch : Patch) (d d' : Desk)
      → patch_links uuid5 isoformat plans calls now id c w patch d ≡ (ok tt, d')
      → IsRow id d E L U A
      → IsRow id d' E L U A
  unfolding patch_links
  patched_at w patch d d' h i = at_desk id d d' (called-row id _ d d' h) i

  pub set_name-IsRow :
      {E : Option ℕ} {L U : ℕ} {A : Bool} (name : Option Text) (d d' : Desk)
      → set_name uuid5 isoformat plans calls now id c name d ≡ (ok tt, d')
      → IsRow id d E L U A
      → IsRow id d' E L U A
  unfolding set_name
  set_name-IsRow none d d' h i = done_at id d d' h i
  set_name-IsRow (some []) d d' h i = done_at id d d' h i
  set_name-IsRow (some (ch ∷ name)) d d' h i = done_at id _ d' h (
      updated id (λ x. record x { name = take 60 (ch ∷ name) }) d i.row i.there i.expires i.limits
        i.uses i.is_active)

  pub extend-IsRow :
      {L U : ℕ} {A : Bool} (o : Option (Option ℤ)) (d d' : Desk)
      → extend uuid5 isoformat plans calls now id c o d ≡ (ok tt, d')
      → IsRow id d c.expires_at L U A
      → IsRow id d' (expiry_behind now o c.expires_at) L U A
  unfolding extend expiry_behind
  extend-IsRow none d d' h i = done_at id d d' h i
  extend-IsRow (some none) d d' h i = refused 400 d d' h
  extend-IsRow (some (some span)) d d' h i = patched_at calls.expiry _ _ d' h (
      updated id (λ x. record x { expires_at = expiry_behind now (some (some span)) c.expires_at })
        d i.row i.there refl i.limits i.uses i.is_active)

  pub set_limit-IsRow :
      {E : Option ℕ} {U : ℕ} {A : Bool} (limit : ℕ) (o : Option (Option ℕ)) (d d' : Desk)
      → set_limit uuid5 isoformat plans calls now id c o d ≡ (ok tt, d')
      → IsRow id d E limit U A
      → IsRow id d' E (limit_behind o limit) U A
  unfolding set_limit limit_behind
  set_limit-IsRow limit none d d' h i = done_at id d d' h i
  set_limit-IsRow limit (some none) d d' h i = refused 400 d d' h
  set_limit-IsRow limit (some (some n)) d d' h i = done_at id _ d' h (
      updated id (λ x. record x { limit_bytes = n }) d i.row i.there i.expires refl i.uses
        i.is_active)

  unlock-row : (d : Desk) → row_of id (unlock id d) ≡ row_of id d
  unfolding unlock
  unlock-row d = refl

  pub set_max_devices-IsRow :
      {E : Option ℕ} {L U : ℕ} {A : Bool} (o : Option (Option ℤ)) (d d' : Desk)
      → set_max_devices uuid5 isoformat plans calls now id c o d ≡ (ok tt, d')
      → IsRow id d E L U A
      → IsRow id d' E L U A
  unfolding set_max_devices
  set_max_devices-IsRow none d d' h i = done_at id d d' h i
  set_max_devices-IsRow (some none) d d' h i = refused 400 d d' h
  set_max_devices-IsRow (some (some (negsuc n))) d d' h i = refused 400 d d' h
  set_max_devices-IsRow (some (some (pos n))) d d' h i = elim (Bool-cases (ltb 50 n)) [
    | inl many ↦ refused 400 d d' (rw many at h)
    | inr few ↦
        let (d1, pushed, rest) = after-ok _ _ d' (rw few at h) in
        done_at id _ d' rest (
          at_desk id d1 _ (unlock-row d1) (
            patched_at calls.devices _ _ d1 pushed (
              updated id (λ x. record x { max_devices = n }) d i.row i.there i.expires i.limits
                i.uses i.is_active)))
  ]

  pub reset-IsRow :
      {E : Option ℕ} {L : ℕ} {A : Bool} (used : ℕ) (b : Bool) (d d' : Desk)
      → reset uuid5 isoformat plans calls now id c b d ≡ (ok tt, d')
      → IsRow id d E L used A
      → IsRow id d' E L (used_behind b used) A
  unfolding reset used_behind
  reset-IsRow used false d d' h i = done_at id d d' h i
  reset-IsRow used true d d' h i = patched_at calls.reset _ _ d' h (
      updated id (λ x. record x { used_bytes_cached = 0 }) d i.row i.there i.expires i.limits refl
        i.is_active)
