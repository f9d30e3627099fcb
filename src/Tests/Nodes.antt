-- ===== src/Tests/Nodes.antt =====
-- The worker's service and its proxy at concrete inputs.
use voidz.Prelude.{
  All, false, ℕ, zero, suc, ◌≡◌, refl, String, true, [], ◌∷◌, ◌++◌, none, some, contains, any,
  nat_eq, string_eq, list_eq, list_beq, ◌⊎◌,
}
use voidz.Prelude.Dict
use voidz.Prelude.Result.{ok}
use voidz.Prelude.Texts.{codes}
use voidz.Relay.Bytes.{Text}
use voidz.Console.ClientIp
use voidz.Console.ClientIp.{Headers}
use voidz.DirectToken
use voidz.DirectToken.{Hmac}
use voidz.Worker.Driver.{Handle, done}
use voidz.Worker.Ports
use voidz.Worker.Process
use voidz.Worker.Process.{Machine}
use voidz.Worker.Reserved.{process-IsSound}
use voidz.Worker.Backends.{SystemAnswer, process_api}
use voidz.Worker.Registry
use voidz.Worker.Registry.{Entry, written, load}
use voidz.Worker.Service.{
  LaunchBody, Worker, launch_instance, launch_spec, relaunch_known_instances, is_known, answered,
  launch_behind, entry_of, text_or, number_or,
}
use voidz.Worker.Service.Relaunch.{Fails, machine_at, relaunch_restores}
use voidz.Worker.Service.Lifetimes.{Life, first, Life-Agrees}
use voidz.Worker.Service.Handlers.{launch_instance-Life}
use voidz.Worker.Service.Leak.{IsLost, redeploy_leaks}
use voidz.Worker.Proxy
use voidz.Worker.Proxy.{Incoming, Forwarded, direct_http_proxy, forward_headers}
use voidz.Worker.Proxy.Rewriting.{values, forward_headers_exact}
use voidz.Worker.Proxy.Direct.{is_plain, IsRouted, direct_http-IsRouted}

abbrev no_instances : Machine
no_instances = record {
  driver = record {
    ports = record { first_port = 19000; last_port = 19001; used = [] };
    handles = [];
  };
  alive = [];
}

abbrev body : LaunchBody
body = record {
  deployment_id = codes "d1";
  core_version = [];
  core_api_token = [];
  public_host = [];
  cpu_limit = 0;
  memory_mb = 512;
  max_processes = 0;
}

abbrev answers : SystemAnswer
answers = record { port_is_free = λ _. true; spawn = done 7 }

abbrev new_worker : Worker Machine
new_worker = record { machine = no_instances; registry = none }

abbrev deployed : Worker Machine
deployed =
    (launch_instance process_api (codes "a") body (codes "t") answers answers written new_worker).1

deployed_once : Life process_api deployed
unfolding process_api
deployed_once =
    launch_instance-Life process_api (codes "a") body (codes "t") answers answers new_worker
      (λ e. cc) (first no_instances refl)

-- The row that the launch saved.
abbrev row : Entry
row = record {
  deployment_id = codes "d1";
  core_version = codes "latest";
  api_token = codes "t";
  public_host = [];
  cpu_limit = 500;
  memory_mb = 512;
  max_processes = 128;
  port = 19000;
}

row_is_there : Dict.get (codes "a") (load deployed.registry) ≡ some row
unfolding launch_instance launch_spec answered launch_behind is_known process_api Process.launch
    Process.spawned Ports.allocate Ports.first_free Ports.candidates Ports.range contains
    Registry.save_instance load Registry.write_text Dict.get Dict.put list_beq entry_of text_or
    number_or
row_is_there = refl

relaunch_restores_example :
    ((h : Handle ℕ) × (Dict.get (codes "a") (
          (relaunch_known_instances process_api
            (λ _. (codes "u", answers))
            (record deployed { machine = no_instances })).machine.driver.handles)
        ≡ some h)
      × (h.api_token ≡ codes "t"))
    ⊎ Fails process_api
        (codes "a")
        row
        (codes "u", answers)
        (machine_at process_api
          (codes "a")
          (λ _. (codes "u", answers))
          (load deployed.registry)
          no_instances)
unfolding process_api
relaunch_restores_example =
    relaunch_restores process_api no_instances (λ _. (codes "u", answers)) deployed (codes "a") row
      refl (Life-Agrees process_api deployed deployed_once) row_is_there

abbrev one_instance : Machine
one_instance =
    (Process.launch (λ _. true) (launch_spec (codes "a") body (codes "t")) (done 7) no_instances).1

abbrev running_worker : Worker Machine
running_worker = record { machine = one_instance; registry = none }

handle_of_a :
    Dict.get (codes "a") one_instance.driver.handles
    ≡ some (record { reference = 7; port = 19000; api_token = codes "t" })
unfolding Process.launch Process.spawned Ports.allocate Ports.first_free Ports.candidates
    Ports.range contains launch_spec Dict.get Dict.put list_beq text_or number_or
handle_of_a = refl

redeploy_leaks_example :
    IsLost 19000
      (launch_instance process_api
        (codes "a")
        body
        (codes "u")
        answers
        answers
        written
        running_worker).1.machine.driver
redeploy_leaks_example =
    redeploy_leaks (codes "a") body (codes "u") answers answers written running_worker
      (record { reference = 7; port = 19000; api_token = codes "t" }) handle_of_a
      (process-IsSound one_instance (
        Process.launched (λ _. true) (launch_spec (codes "a") body (codes "t")) (done 7)
          (Process.start 19000 19001)))

-- A client that names an address, its own authorization and a user agent.
abbrev client_headers : Headers
client_headers =
    ("x-forwarded-for", codes "1.2.3.4")
    ∷ ("authorization", codes "Bearer guess")
    ∷ ("user-agent", codes "v2ray")
    ∷ []

forward_headers_exact_example :
    (values "x-forwarded-for" (forward_headers client_headers (codes "9.9.9.9") (some (codes "t")))
      ≡ codes "9.9.9.9" ∷ [])
    × (values "x-real-ip" (forward_headers client_headers (codes "9.9.9.9") (some (codes "t")))
        ≡ codes "9.9.9.9" ∷ [])
    × (values "authorization" (forward_headers client_headers (codes "9.9.9.9") (some (codes "t")))
        ≡ values "authorization" (Proxy.authorization (some (codes "t"))))
    × (values "host" (forward_headers client_headers (codes "9.9.9.9") (some (codes "t"))) ≡ [])
    × (values "content-length" (forward_headers client_headers (codes "9.9.9.9") (some (codes "t")))
        ≡ [])
    × ((name : String)
        → Proxy.is_passed name ≡ true
        → values name (forward_headers client_headers (codes "9.9.9.9") (some (codes "t")))
          ≡ values name client_headers)
forward_headers_exact_example =
    forward_headers_exact client_headers (codes "9.9.9.9") (some (codes "t"))

-- A code that is 64 times the digit 0.
abbrev zeros : ℕ → Text
zeros zero = []
zeros (suc n) = 48 ∷ zeros n

abbrev hmac : Hmac
hmac = record { hexdigest = λ key msg. zeros 64; length-hexdigest = λ key msg. refl }

abbrev incoming : Incoming
incoming = record { path = codes "ws/u1"; headers = client_headers; peer = codes "10.0.0.7" }

abbrev sent_on : Forwarded
sent_on = record {
  port = 19000;
  path = codes "/ws/u1";
  headers = forward_headers client_headers (codes "1.2.3.4") (some (codes "t"));
  streamed = true;
}

request_forwarded :
    direct_http_proxy process_api
      (λ t. t)
      []
      (codes "s")
      (λ p. p)
      hmac
      (codes "a" ++ zeros 24)
      incoming
      answers
      one_instance
    ≡ ok sent_on
unfolding direct_http_proxy Proxy.forward_http Proxy.is_public_client_path Proxy.starts_with
    Proxy.port_of Proxy.token_of Proxy.origin_client_ip process_api Process.status Process.launch
    Process.spawned Ports.allocate Ports.first_free Ports.candidates Ports.range contains
    launch_spec Dict.get Dict.put list_beq text_or number_or any DirectToken.decode
    DirectToken.tag_of ClientIp.real_client_ip ClientIp.from_edge ClientIp.proxied_ip
    ClientIp.header_of ClientIp.first_given ClientIp.before_comma
request_forwarded = refl

direct_http-IsRouted_example :
    (id : Text) × (h : Handle ℕ) × (ip : Text) × IsRouted process_api
      (λ t. t)
      []
      (codes "s")
      hmac
      (codes "a" ++ zeros 24)
      incoming
      one_instance
      id
      h
      ip
    × (sent_on ≡ record {
      port = h.port;
      path = codes "/" ++ incoming.path;
      headers = forward_headers incoming.headers ip (some h.api_token);
      streamed = true;
    })
    × (All (λ c. is_plain c ≡ true) incoming.path
        → (sent_on.path ≡ codes "/" ++ incoming.path)
          × (Proxy.starts_with (codes "/core/") sent_on.path ≡ false))
direct_http-IsRouted_example =
    direct_http-IsRouted process_api (λ t. t) [] (codes "s") hmac (λ p. p) (codes "a" ++ zeros 24)
      incoming answers one_instance sent_on (λ path h. refl) request_forwarded
