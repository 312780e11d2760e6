-- ===== src/Tests/Requests.antt =====
-- Requests to the configuration UI.
use calendar_bridge.Base.{refl, String, false, none, some, [], string_eq, ◌==◌, if◌then◌else◌}
use calendar_bridge.Base.Dict
use calendar_bridge.Disk.{
  system, next_call, become, create, chmod, write_file, sync_file, touch, moved, rename,
  remove_file, sync_entries, free_name, make_temp, create_temp, contents_of, read_file, Survives,
  in_live, kept,
}
use calendar_bridge.AtomicFile.{temp_path, or_close, sync_dir, replace, with_temp, write}
use calendar_bridge.Config.Files.{
  Net, count_colons, accept, check_parsed, load_bytes, load_text, load, save_text, save_checked,
  save,
}
use calendar_bridge.WebUi.Http.{Request, World, write_json, write_error}
use calendar_bridge.WebUi.Handlers.{
  Packages, Server, is_no_webhook, merged_web_ui, merged, answer_saved, put_loaded, put_decoded,
  handle_put_config,
}
use calendar_bridge.WebUi.Server.{handler}
use calendar_bridge.WebUi.Guarded.{Verdict, handler-Verdict}
use calendar_bridge.WebUi.Update.{Left, handle_put_config-Left}
use calendar_bridge.Tests.Disks.{here, dotted, saved_file}
use calendar_bridge.Tests.Settings.{tally, parse_url, pair_config, problem_of, filled}
use calendar_bridge.Tests.Pages.{explain, yaml, machine}

abbrev packages : Packages
packages = record {
  durations = tally;
  parse_url = parse_url;
  explain = explain;
  yaml = yaml;
  paths = here;
  decode = λ body. some (pair_config, "");
  is_ended = λ rest. rest == "";
  error_text = λ e. "failed";
}

abbrev server : Server (Unit {0})
server = record { config_path = "c.yaml"; auth_token = "secret"; sync_fn = none; status = none }

abbrev world : World (Unit {0})
world = record { machine = machine; syncing = false; rest = tt }

abbrev request : String → String → String → Request
request method path authorization = record {
  method = method;
  path = path;
  host = "127.0.0.1:8090";
  authorization = authorization;
  fetch_site = "same-origin";
  origin = "";
  body = "{}";
}

abbrev loopback : Net
loopback = record {
  split_host_port = λ addr. if addr == "127.0.0.1:8090" then some "127.0.0.1" else none;
  parse_ip = λ host. some (host == "127.0.0.1");
}

handler-Verdict_example :
    Verdict packages server loopback
      (λ text. text)
      (request "PUT" "/api/config" "bearer secret")
      world
      (handler packages server loopback
        (λ text. text)
        (λ req. none)
        (λ w. (none, w))
        (request "PUT" "/api/config" "bearer secret")
        world)
handler-Verdict_example =
    handler-Verdict packages server loopback (λ text. text) (λ req. none) (λ w. (none, w))
      (request "PUT" "/api/config" "bearer secret") world (λ text same. same) refl refl

put_left :
    Survives
      (handle_put_config packages server
        (request "PUT" "/api/config" "bearer secret")
        []
        world).1.machine.disk
      "c.yaml"
      (some "two: accounts")
unfolding problem_of filled handle_put_config put_decoded put_loaded answer_saved load read_file
    contents_of load_text load_bytes count_colons check_parsed accept merged merged_web_ui
    is_no_webhook save save_checked save_text write with_temp replace create_temp make_temp
    free_name create system next_call become chmod write_file sync_file touch moved rename or_close
    sync_dir sync_entries remove_file Dict.lookup Dict.insert Dict.update Dict.remove string_eq
    temp_path write_json write_error
put_left = in_live (some "two: accounts") (kept (saved_file "two: accounts"))

handle_put_config-Left_example : Left packages server machine "{}" (some "two: accounts")
handle_put_config-Left_example =
    handle_put_config-Left packages server [] world (some "two: accounts") dotted
      (request "PUT" "/api/config" "bearer secret") put_left
