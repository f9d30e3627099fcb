-- ===== src/Tests/Control.antt =====
-- The rate limiter of the console, the endpoint token and the worker's ports at concrete inputs.
use voidz.Prelude.{
  ℕ, zero, suc, ◌≤◌, ◌<◌, ◌≡◌, ◌≢◌, ◌↔◌, refl, String, true, false, List, [], ◌∷◌, none, some,
  length, ltb, arith, contains, nat_eq, string_eq, list_eq, list_beq,
}
use voidz.Prelude.Dict
use voidz.Console.RateLimit.{
  Rule, Hits, Served, start, checked, check, is_allowed, refuse, drop_old, window_of,
}
use voidz.Console.RateLimit.Sliding.{count_recent, count_within, check_exact, Served-within}
use voidz.Console.ClientIp.{Headers, header_of}
use voidz.DirectToken.{Text, Hmac, encode, decode}
use voidz.DirectToken.RoundTrip.{decode_exact}
use voidz.Worker.Ports.{PortAllocator, release}
use voidz.Prelude.Texts.{codes}
use voidz.Worker.Driver.{LaunchSpec, Driver, done, driver_error}
use voidz.Worker.Docker
use voidz.Worker.Process
use voidz.Worker.Process.{Machine}
use voidz.Worker.Process.Orphans.{remove_orphan}
use voidz.Worker.Reserved.{IsSound, process-IsSound}

abbrev rule : Rule
rule = record { limit = 1; window_ms = 1000 }

-- allowed at 100, refused at 600
abbrev one_hit : Hits
one_hit = ("ip", 100 ∷ []) ∷ []

abbrev log : List (String × ℕ)
log = ("ip", 100) ∷ []

two_checks : Served rule one_hit log 600
unfolding check is_allowed refuse drop_old window_of Dict.get Dict.put
two_checks = checked "ip" 600 (omega arith) (checked "ip" 100 (omega arith) start)

check_exact_example :
    is_allowed ((check "ip" rule 1100 one_hit).0) ≡ ltb (count_recent rule 1100 "ip" log) 1
check_exact_example = check_exact rule one_hit log 600 two_checks "ip" 1100 (omega arith)

Served-within_example : count_within rule 1000 "ip" log ≤ 1
Served-within_example = Served-within rule one_hit log 600 two_checks 1000 "ip"

abbrev zeros : ℕ → Text
zeros zero = []
zeros (suc n) = 48 ∷ zeros n

abbrev hmac : Hmac
hmac = record { hexdigest = λ key msg. zeros 64; length-hexdigest = λ key msg. refl }

decode_exact_example :
    (decode hmac (105 ∷ zeros 24) [] ≡ some (105 ∷ []))
    ↔ ((105 ∷ zeros 24 ≡ encode hmac (105 ∷ []) []) × (0 < length {A = ℕ} (105 ∷ [])))
decode_exact_example = decode_exact hmac (105 ∷ zeros 24) [] (105 ∷ [])

abbrev ports : PortAllocator
ports = record { first_port = 19000; last_port = 19001; used = 19000 ∷ [] }

abbrev spec_of : String → LaunchSpec
spec_of id = record {
  instance_id = codes id;
  deployment_id = [];
  core_version = codes "latest";
  api_token = codes "core token";
  public_host = [];
  cpu_limit = 500;
  memory_mb = 256;
  max_processes = 128;
  port = none;
}

-- a launch, a second one that fails, and a removal
abbrev docker_runs : Driver Text
docker_runs =
    (Docker.remove (codes "a") (done tt)
      (Docker.launch (λ _. true) (spec_of "b") driver_error
        (Docker.launch (λ _. true) (spec_of "a") (done tt)
          (record {
            ports = record { first_port = 19000; last_port = 19001; used = [] };
            handles = [];
          })).1).1).1

abbrev no_processes : Machine
no_processes = record {
  driver = record {
    ports = record { first_port = 19000; last_port = 19001; used = [] };
    handles = [];
  };
  alive = [];
}

abbrev two_processes : Machine
two_processes =
    (Process.launch (λ _. true) (spec_of "b") (done 8)
      (Process.launch (λ _. true) (spec_of "a") (done 7) no_processes).1).1

process-IsSound_example : IsSound (Process.remove (codes "a") two_processes).1.driver
process-IsSound_example = process-IsSound ((Process.remove (codes "a") two_processes).1) (
    Process.removed (codes "a") (
      Process.launched (λ _. true) (spec_of "b") (done 8)
        (Process.launched (λ _. true) (spec_of "a") (done 7) (Process.start 19000 19001))))

abbrev one_process : Machine
one_process = record {
  driver = record {
    ports = record { first_port = 19000; last_port = 19001; used = 19000 ∷ [] };
    handles = (codes "a", record { reference = 7; port = 19000; api_token = [] }) ∷ [];
  };
  alive = 7 ∷ [];
}

a-is_there :
    Dict.get (codes "a") one_process.driver.handles
    ≡ some (record { reference = 7; port = 19000; api_token = [] })
unfolding Dict.get list_beq
a-is_there = refl

remove_orphan_example :
    ((Process.remove (codes "a") one_process).1.alive ≡ 7 ∷ [])
    × (Process.status (codes "a") ((Process.remove (codes "a") one_process).1) ≡ none)
    × ((Process.remove (codes "a") one_process).1.driver.ports
        ≡ release 19000 one_process.driver.ports)
    × (contains ((Process.stop (codes "a") one_process).1.alive) 7 ≡ false)
remove_orphan_example =
    remove_orphan (codes "a") one_process (record { reference = 7; port = 19000; api_token = [] })
      a-is_there

-- a proxy's address, and a wrong secret
abbrev forwarded : Headers
forwarded = ("x-forwarded-for", 49 ∷ 44 ∷ 50 ∷ []) ∷ ("x-voidz-edge-secret", 7 ∷ []) ∷ []

wrong_secret : header_of "x-voidz-edge-secret" forwarded ≢ 8 ∷ []
unfolding header_of Dict.get
wrong_secret same = cc same
