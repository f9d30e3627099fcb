-- ===== src/Tests/Accounts.antt =====
-- A patch of a customer at a concrete input.
use voidz.Prelude.{
  String, ◌≤◌, ◌==◌, count_if, ◌≡◌, refl, true, false, [], ◌∷◌, none, some, string_eq,
}
use voidz.Prelude.Dict
use voidz.Prelude.Result.{ok}
use voidz.Core.Tracker
use voidz.Core.Admin.{Core}
use voidz.Core.Debounce.{idle}
use voidz.Console.Fleet
use voidz.Console.Fleet.{World, delivered}
use voidz.Console.Quota
use voidz.Console.Quota.{Customer, Plans}
use voidz.Console.Customers
use voidz.Console.Customers.{CustomerPatch, Desk, Calls, patch_customer}
use voidz.Console.Customers.Edits.{IsRow}
use voidz.Console.Auth
use voidz.Console.Auth.Cap.{create_session-cap}
use voidz.Console.Customers.Restored.{active_behind, patch_customer-IsRow}

-- Disabled over its quota.
abbrev over : Customer
over = record {
  plan_id = "p";
  name = [];
  sub_token = "s";
  cred_uuid = "u";
  ss_cipher = none;
  ss_password = none;
  limit_bytes = 100;
  used_bytes_cached = 120;
  expires_at = some 2000;
  active = false;
  note = [];
  max_devices = 0;
}

abbrev core : Core
core = record { links = []; connections = Tracker.empty; saver = idle; closed = [] }

abbrev desk : Desk
desk = record {
  quota = record { customers = ("c", over) ∷ []; pending = []; cores = λ _. core };
  presence = [];
  locks = [];
}

abbrev higher_limit : CustomerPatch
higher_limit = record {
  name = none;
  extend = none;
  limit_bytes = some (some 500);
  max_devices = none;
  reset_usage = false;
  active = none;
}

abbrev up : World
up = record { running = λ _. true; delivery = λ _ _. delivered }

abbrev calls : Calls
calls = record { expiry = up; devices = up; reset = up; active = up; checked_at = 1001 }

abbrev plans : Plans
plans = ("p", record { protocols = "vless" ∷ []; instances = []; region_label = λ _. [] }) ∷ []

abbrev raised : Desk
raised = (patch_customer (λ s. s) (λ _. "later") plans calls 1000 "c" over higher_limit desk).1

raised_returns :
    patch_customer (λ s. s) (λ _. "later") plans calls 1000 "c" over higher_limit desk
    ≡ (ok tt, raised)
unfolding patch_customer Customers.called Fleet.push_plan Quota.set_customer_active Customers.after
    Customers.set_name Customers.extend Customers.set_limit Customers.set_max_devices
    Customers.reset Customers.finish Customers.is_restored Customers.set_activity
    Quota.plan_instances Quota.plan_protocols Dict.get
raised_returns = refl

over_is_there : Dict.get "c" desk.quota.customers ≡ some over
unfolding Dict.get
over_is_there = refl

patch_customer-IsRow_example : IsRow "c" raised (some 2000) 500 120 true
unfolding Customers.expiry_behind Customers.limit_behind Customers.used_behind active_behind
    Customers.touched_lifecycle Customers.still_expired Customers.still_over_quota
patch_customer-IsRow_example =
    patch_customer-IsRow (λ s. s) (λ _. "later") plans calls 1000 "c" over higher_limit desk raised
      over_is_there raised_returns

-- A user with one session logs in again.
abbrev one_login : Auth.Logins
one_login = ("h1", record { user_id = "u"; created_at = 5; expires_at = 90 }) ∷ []

create_session-cap_example :
    (count_if
        (λ (row : String × Auth.Login). row.1.user_id == "u")
        (Auth.create_session (λ t. "h2") (1 ∷ []) "u" 7 one_login).1
      ≤ 100)
    × ((k : String) (other : Auth.Login)
        → Dict.get k one_login ≡ some other
        → (other.user_id == "u") ≡ false
        → Dict.get k (Auth.create_session (λ t. "h2") (1 ∷ []) "u" 7 one_login).1 ≡ some other)
unfolding Dict.get
create_session-cap_example = create_session-cap (λ t. "h2") (1 ∷ []) "u" 7 one_login (refl, tt) refl
