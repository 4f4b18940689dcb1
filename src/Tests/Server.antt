-- ===== src/Tests/Server.antt =====
-- The calls about volumes, one after another and overlapping.
use panfs_container_storage.Base.{ℕ, ◌==◌, if◌then◌else◌, ◌≡◌, refl, true, none, List, [], ◌∷◌}
use panfs_container_storage.Base.GoMap.{find}
use panfs_container_storage.Utils.Context.{get_sc_key}
use panfs_container_storage.Driver.Validators.{validate_create_volume_request, validate_req_secrets}
use panfs_container_storage.Pancli.Fake
use panfs_container_storage.Driver.Server.{
  Driver, State, query, probe, create_volume, controller_expand_volume,
  validate_volume_capabilities, volume_call, node_publish_volume, node_get_info, node_call, Call,
  serve_all,
}
use panfs_container_storage.Driver.Server.Frames.{volume_calls, volume_answers}
use panfs_container_storage.Driver.Server.Overlap.{creation, validation, begun, Pool, run}
use panfs_container_storage.Driver.Server.Volumes.{ServesAll}
use panfs_container_storage.Driver.Server.Volumes.Linear.{calls_of, answers_of, run-ServesAll}
use panfs_container_storage.Driver.Server.Volumes.Handlers.{view}
use panfs_container_storage.Driver.Server.Volumes.Refine.{serve_all-ServesAll}
use panfs_container_storage.Driver.NodeLabel.Laws.{started}
use panfs_container_storage.Tests.Inputs.{
  uuid, show, sanity, empty_fake, pvc, growth, question, mounter, os, publication,
}

abbrev driver : Driver
driver = record {
  name = "com.vdura.csi.panfs";
  version = "1.0";
  host = "node-1";
  endpoint = "/tmp/csi.sock";
  panfs = sanity;
  mounter = mounter;
  has_client = true;
}

abbrev calls : List Call
calls =
    query probe
    ∷ volume_call (create_volume pvc)
    ∷ node_call (node_get_info none)
    ∷ volume_call (create_volume pvc)
    ∷ node_call (node_publish_volume os publication)
    ∷ volume_call (controller_expand_volume growth)
    ∷ []

abbrev first_state : State driver
first_state = record { panfs = empty_fake; mounter = []; node = started }

serve_all-ServesAll_example :
    ServesAll
      (volume_calls calls)
      (volume_answers calls (serve_all show driver calls first_state).0)
      (λ name. none)
      (view (serve_all show driver calls first_state).1.panfs)
serve_all-ServesAll_example = serve_all-ServesAll uuid show driver calls [] started

-- Two calls that create one volume, and a validation between the two steps of the second.
abbrev pool : Pool show driver
pool = record {
  phases = λ i. begun (if i == 2 then validation question else creation pvc);
  state = empty_fake;
}

abbrev schedule : List ℕ
schedule = 0 ∷ 1 ∷ 2 ∷ 1 ∷ []

run-ServesAll_example :
    ServesAll
      (calls_of (run show driver schedule pool).0)
      (answers_of (run show driver schedule pool).0)
      (view empty_fake)
      (view (run show driver schedule pool).1.state)
run-ServesAll_example = run-ServesAll uuid show driver schedule pool tt (λ i. tt)

in_order :
    calls_of (run show driver schedule pool).0
    ≡ create_volume pvc ∷ validate_volume_capabilities question ∷ create_volume pvc ∷ []
unfolding calls_of run validate_create_volume_request find get_sc_key validate_req_secrets
    Fake.create_volume
in_order = refl
