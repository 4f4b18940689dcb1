-- ===== src/Tests/Startup.antt =====
-- The start of the driver, its end after a signal, and the logger.
use panfs_container_storage.Base.{
  ℕ, suc, ◌-◌, ◌≡◌, refl, ◌↔◌, ◌⊎◌, inl, inr, ◌≤◌, ◌+◌, String, Bool, true, false, Option, none,
  some, List, [], ◌∷◌,
}
use panfs_container_storage.Base.Texts.{Text, codes}
use panfs_container_storage.Jsonlog.{Runtime, level_error}
use panfs_container_storage.Jsonlog.Lines.{
  Message, debug, info, error, newlines, enabled, log_all, IsOneLine, log_all-newlines,
}
use panfs_container_storage.Driver.Mounter.{MountInterface, panfs_mounter}
use panfs_container_storage.Driver.Provider.{ssh_provider, fake_provider}
use panfs_container_storage.Driver.Mounter.Sanity.{sanity_mounter}
use panfs_container_storage.Driver.NodeLabel.{Node, node_get_info, shut_down}
use panfs_container_storage.Driver.NodeLabel.Laws.{started}
use panfs_container_storage.Driver.Server.{
  Driver, State, query, probe, create_volume, volume_call, Call,
}
use panfs_container_storage.Driver.Startup.{
  Environment, Config, Parts, main_driver, crashed, exited, main_exit,
}
use panfs_container_storage.Driver.Startup.Laws.{CannotStart, main_exit-cases}
use panfs_container_storage.Driver.Serving.{
  ServeResult, graceful, server_stopped, failed, Grpc, IsDocumented, Main, serving, returned,
  Handler, waiting, signalled, unlabelled, stopping, System, listening, Move, serve, come_back,
  receive, signal, unlabel, stop, Step, accepted, moved, Reach, start, later, Moves, stay, go,
}
use panfs_container_storage.Driver.Serving.Consistent.{HasStopped, IsReturned}
use panfs_container_storage.Driver.Serving.Shutdown.{HasUnlabelled, returned-stops}
use panfs_container_storage.Driver.Serving.Returns.{signalled-returns}
use panfs_container_storage.Driver.Serving.Label.{label, label-removed, label-back}
use panfs_container_storage.Tests.Inputs.{empty_fake, uuid, runner, unmarshal, pvc}

-- A node in a cluster, and one whose service account is missing.
abbrev cluster : Environment
cluster = record {
  csi_sanity_mode = "";
  host = "node-1";
  hostname = none;
  in_cluster_config = none;
  new_for_config = none;
}

abbrev bare_node : Environment
bare_node = record cluster { in_cluster_config = some (codes "not in a cluster") }

abbrev config : Config
config = record { endpoint = "/tmp/csi.sock"; driver_name = "com.vdura.csi.panfs"; version = "1.0" }

abbrev no_mounts : MountInterface
no_mounts = record {
  State = List String;
  is_likely_not_mount_point = λ target s. (true, none);
  is_mount_point = λ target s. (false, none);
  mount = λ source target type options s. (none, target ∷ s);
  cleanup_mount_point = λ target s. (none, []);
  mkdir_all = λ path s. (none, s);
}

abbrev parts : Parts
parts = record {
  uuid = uuid;
  runner = runner;
  unmarshal = unmarshal;
  mount = no_mounts;
  fake_mount = record {
    mount = λ source target type options s. (none, target ∷ s);
    unmount = λ target s. (none, []);
  };
}

main_exit-cases_example :
    ((main_exit (main_driver parts config bare_node) none ≡ crashed) ↔ CannotStart bare_node)
    × ((main_exit (main_driver parts config bare_node) none ≡ exited 0)
        ↔ ((¬ CannotStart bare_node) × (◌≡◌ {A = Option Text} none none)))
    × ((main_exit (main_driver parts config bare_node) none ≡ exited 1)
        ↔ ((¬ CannotStart bare_node) × ((e : Text) × (none ≡ some e))))
main_exit-cases_example = main_exit-cases parts config bare_node none

abbrev plugin : Driver
plugin = record {
  name = "com.vdura.csi.panfs";
  version = "1.0";
  host = "node-1";
  endpoint = "/tmp/csi.sock";
  panfs = ssh_provider runner unmarshal;
  mounter = panfs_mounter no_mounts;
  has_client = true;
}

abbrev trial : Environment
trial = record bare_node { csi_sanity_mode = "true" }

abbrev sanity_plugin : Driver
sanity_plugin = record plugin {
  panfs = fake_provider uuid;
  mounter = sanity_mounter no_mounts parts.fake_mount;
  has_client = false;
}

abbrev plugin_calls : List Call
plugin_calls = query probe ∷ volume_call (create_volume pvc) ∷ []

abbrev plugin_state : State sanity_plugin
plugin_state = record { panfs = empty_fake; mounter = []; node = started }

-- A server of gRPC: whether it is stopped, and the number of its pending RPCs.
abbrev grpc : Grpc
grpc = record {
  State = Bool × ℕ;
  new_server = (false, 0);
  is_stopped = λ s. s.0;
  pending = λ s. s.1;
  accept = λ s. (s.0, suc s.1);
  finish = λ s. (s.0, s.1 - 1);
  graceful_stop = λ s. (true, s.1);
  returns = λ r s. elim r [ failed e ↦ Unit | _ ↦ s.0 ≡ true ];
}

grpc-IsDocumented : IsDocumented grpc
grpc-IsDocumented = record {
  new = refl;
  accepts = λ s. refl;
  accepts_on = λ s. refl;
  finishes = λ s. refl;
  finishes_on = λ s. refl;
  stops = λ s. refl;
  stops_none = λ s. refl;
  graceful_stopped = λ s r. r;
  server_stopped_stopped = λ s r. r;
  comes_back = λ s e n. (graceful, e);
}

-- One RPC is pending.
abbrev at : Main → Handler → Bool → Node → System grpc
at main handler stopped node = record {
  main = main;
  handler = handler;
  server = (stopped, 1);
  node = node;
}

abbrev unset : Node
unset = shut_down true none started

signal_came : Reach grpc plugin (at serving signalled false started)
signal_came =
    later (later (later start (moved (serve refl))) (accepted refl refl)) (moved (signal refl))

label_gone : Reach grpc plugin (at serving unlabelled false unset)
label_gone = later signal_came (moved (unlabel none refl))

server_stopped_at : Reach grpc plugin (at serving stopping true unset)
server_stopped_at = later label_gone (moved (stop refl))

run_returned : Reach grpc plugin (at (returned none) stopping true unset)
unfolding panfs_container_storage.Driver.Serving.after_serve
run_returned = later server_stopped_at (moved (come_back graceful refl refl))

signalled-returns_example :
    (1 ≤ 7)
    × (IsReturned serving
        ⊎ ((u : System grpc) × Move grpc plugin (at serving unlabelled false unset) u))
signalled-returns_example =
    signalled-returns grpc grpc-IsDocumented plugin (at serving signalled false started) signal_came
      (λ h. cc) 1 (at serving unlabelled false unset) (go (unlabel none refl) stay)

returned-stops_example :
    HasStopped stopping
    × (true ≡ true)
    × HasUnlabelled grpc grpc-IsDocumented plugin (at (returned none) stopping true unset)
returned-stops_example =
    returned-stops grpc grpc-IsDocumented plugin (at (returned none) stopping true unset)
      run_returned refl

label-removed_example :
    (u : System grpc) × Move grpc plugin (at serving signalled false started) u
    × (u.handler ≡ unlabelled)
    × ((n : ℕ) (t : System grpc) → Moves grpc plugin n u t → label t.node ≡ none)
label-removed_example =
    label-removed grpc plugin (at serving signalled false started) signal_came refl refl

abbrev late : Node
late = (node_get_info true none "node-1" unset).1

label-back_example :
    Step grpc plugin (at serving unlabelled false unset) (at serving unlabelled false late)
    × (label late ≡ some "true")
label-back_example =
    label-back grpc plugin grpc-IsDocumented (at serving unlabelled false unset) label_gone refl
      refl refl 1 (at serving stopping true late) (go (stop refl) stay)

-- Lines without their message, and an encoder that always works.
abbrev runtime : Runtime (Unit {0})
runtime = record {
  now = λ moment. "2025-01-01T00:00:00Z";
  stack = [];
  marshal = λ entry. inl (codes "{}");
}

runtime-IsOneLine : IsOneLine runtime level_error
unfolding newlines
runtime-IsOneLine entry text (inl same) = let braces : codes "{}" ≡ text = cc in rw (← braces) refl
runtime-IsOneLine entry text (inr other) = cc

abbrev messages : List (Message (Unit {0}))
messages = debug (codes "d") none ∷ info (codes "i") none ∷ error (codes "e") none ∷ []

log_all-newlines_example :
    newlines (log_all runtime level_error 0 messages [])
    ≡ newlines [] + enabled level_error messages
log_all-newlines_example = log_all-newlines runtime level_error runtime-IsOneLine 0 messages []
