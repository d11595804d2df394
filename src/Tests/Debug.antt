-- ===== src/Tests/Debug.antt =====
-- host_modules/debug_info.py at concrete inputs.
use sonic_host_services.Base.{◌≡◌, refl, true, false, Option, some, [], ◌∷◌}
use sonic_host_services.Base.Text.{Text, codes, text_eq, startswith, occurs, lstrip, rstrip}
use sonic_host_services.Host.DebugInfo.Redirect.{invocation, before, after}
use sonic_host_services.Host.DebugInfo.{
  Host, Env, fields, Request, critical, artifact, deleted, contains, collect, collect_artifacts,
  refresh, gather, run_commands, run_command, collect_counter_artifacts, collect_teamdctl_data,
  teamdctl_each, copy_host_files, save_persistent_storage, ack,
}
use sonic_host_services.Host.DebugInfo.Archives.{collect-ack}
use sonic_host_services.Host.DebugInfo.Frozen.{Frozen, calls, collecting, acking, calls-Frozen}

-- The pipe of the netstat command is one of its words, and not a pipe.
netstat : (invocation (codes "netstat -a | grep t >> f")).actual_cmd ≡ codes "netstat -a | grep t"
unfolding invocation before after lstrip rstrip occurs startswith
netstat = refl

abbrev env : Env
env = record {
  makes = λ log dir. true;
  runs = λ log i. some 0;
  is_there = λ log path. false;
  now = λ log. codes "now";
  portchannels = λ log. some (codes "P" ∷ []);
  teamdctl_raises = λ log trk. true;
  remains = λ log paths. [];
  metadata = λ log. fields (some (codes "h")) (some (codes "b"));
  creates_flag = λ log. true;
  getsize = λ log path. some 7;
  free = λ log. 0;
  makes_nonvolatile = λ log. true;
  copies_artifact = λ log name. true;
  removes = λ log path. true;
  removes_outside = λ path h. (h, true);
}

abbrev host : Host
host = record {
  hostname = codes "switch";
  board_type = [];
  log = [];
  nonvolatile_saved = false;
  saved = [];
  archives = [];
}

abbrev request : Option Request
request = some (record { log_level = critical; use_persistent_storage = true })

abbrev path : Text
path = codes "/tmp/dump/h_1.tar.gz"

collected : (collect env request (codes "1") host).1 ≡ (0, artifact path)
unfolding collect collect_artifacts refresh gather run_commands run_command
    collect_counter_artifacts collect_teamdctl_data teamdctl_each copy_host_files
    save_persistent_storage text_eq
collected = refl

collect-ack_example :
    ((ack env path (collect env request (codes "1") host).0).1 ≡ (0, deleted))
    × (contains path (ack env path (collect env request (codes "1") host).0).0.archives ≡ false)
collect-ack_example = collect-ack env request (codes "1") path host collected refl

abbrev flagged : Host
flagged = record host { nonvolatile_saved = true; saved = codes "old.tar.gz" ∷ [] }

calls-Frozen_example :
    Frozen (calls env (collecting request (codes "1") ∷ acking path ∷ []) flagged) flagged
unfolding occurs startswith
calls-Frozen_example =
    calls-Frozen env (collecting request (codes "1") ∷ acking path ∷ []) flagged refl
      (tt, (refl, tt))
