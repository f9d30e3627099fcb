-- ===== src/Tests/Deploy.antt =====
-- A deployment (console/api/voidz_console/services/deployments.py) at concrete inputs.
use voidz.Prelude.{◌≡◌, refl, true, false, [], ◌∷◌, none, some, any, leb, if◌then◌else◌, string_eq}
use voidz.Prelude.Dict
use voidz.Prelude.Result.{ok, raise, runtime_error}
use voidz.Console.Deploy.{
  queued, Deployment, Instance, Tables, answered, no_answer, update_row, set_instance,
  set_deployment, finish_deployment, follow, ended, resume, health_checks, after_probe,
  require_healthy,
}
use voidz.Console.Workers.{pick_worker}
use voidz.Console.Pipelines.{
  Site, Railway, run_pipeline, pipeline, pipeline_local, settle, is_railway, set_node,
  finish_running, provision_default_link, created_links, selected, pretty,
}
use voidz.Console.Pipelines.Runs.{IsEnded, run_pipeline-IsEnded}

abbrev deployment : Deployment
deployment = record {
  instance_id = "i";
  version = 1;
  status = queued;
  error = none;
  started_at = some 1000;
  finished_at = none;
  duration_ms = none;
  node_id = none;
}

abbrev instance_row : Instance
instance_row = record {
  name = "relay";
  status = queued;
  provider = some "local";
  provider_ref = none;
  protocol = some "vless-ws";
  protocols = [];
}

abbrev tables : Tables
tables = record {
  deployments = ("d", deployment) ∷ [];
  instances = ("i", instance_row) ∷ [];
  domains = [];
  links = [];
}

-- The worker does not answer the first probe, and the instance is healthy from the third on.
abbrev site : Site
site = record {
  now = 9000;
  workers = [];
  default_node = "local";
  region = none;
  launch = ok tt;
  probe = λ n. if leb 3 n then answered true true else no_answer;
  post = λ proto. some "u";
}

abbrev no_railway : Railway
no_railway = record {
  configured = false;
  create_service = raise runtime_error;
  create_domain = raise runtime_error;
  configure_service = raise runtime_error;
  restart_service = raise runtime_error;
  start_service = raise runtime_error;
  latest_deployment = λ n. ok none;
  stop_service = ok tt;
  public = λ n. no_answer;
}

run_pipeline-IsEnded_example :
    IsEnded site no_railway "d" "i" (run_pipeline site no_railway "d" "i" instance_row false tables)
unfolding Dict.get
run_pipeline-IsEnded_example =
    run_pipeline-IsEnded site no_railway "d" "i" instance_row false tables deployment instance_row
      refl refl

-- The run reaches `running` after 8 seconds, with the link of the new instance.
run_pipeline_links :
    (run_pipeline site no_railway "d" "i" instance_row false tables).links
    ≡ record { instance_id = "i"; link_uuid = "u"; label = "relay · VLESS" } ∷ []
unfolding run_pipeline pipeline pipeline_local settle is_railway set_node finish_running
    provision_default_link created_links selected pretty update_row set_instance set_deployment
    finish_deployment follow ended resume health_checks after_probe require_healthy Dict.get
    Dict.put pick_worker any
run_pipeline_links = refl
