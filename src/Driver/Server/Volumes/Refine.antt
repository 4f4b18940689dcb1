-- ===== src/Driver/Server/Volumes/Refine.antt =====
-- The sanity mode of the server keeps the promises about volumes, in every run.
use panfs_container_storage.Base.{ℕ, String, none, List, [], ◌∷◌}
use panfs_container_storage.Base.Texts.{Text}
use panfs_container_storage.Pancli.Fake.{Fake, new_fake, find_volume}
use panfs_container_storage.Pancli.Fake.Laws.{HasUniqueNames}
use panfs_container_storage.Driver.Csi.{VolumeCapability}
use panfs_container_storage.Driver.Provider.{fake_provider}
use panfs_container_storage.Driver.Controller.Sanity.{
  create_volume-keeps, delete_volume-keeps, controller_expand_volume-keeps,
}
use panfs_container_storage.Driver.NodeLabel.{Node}
use panfs_container_storage.Driver.Server.{Driver, State, VolumeCall, Call, serve_volume, serve_all}
use panfs_container_storage.Driver.Server.Frames.{
  volume_calls, volume_answers, volumes_alone, serve_all-volumes,
}
use panfs_container_storage.Driver.Server.Volumes.{Serves, ServesAll, done, step}
use panfs_container_storage.Driver.Server.Volumes.Handlers.{
  view, create_volume-Serves, delete_volume-Serves,
}
use panfs_container_storage.Driver.Server.Volumes.Confirmed.{
  validate_capabilities-Serves, expand_volume-Serves,
}

module _ (uuid : ℕ → String) (show : VolumeCapability → Text) (d : Driver) where
  -- The driver of the sanity mode.
  abbrev pub sanity_driver : Driver
  sanity_driver = record d { panfs = fake_provider uuid }

  pub serve_volume-Serves :
      (c : VolumeCall) (s : Fake)
      → HasUniqueNames s.volumes
      → let answered = serve_volume show sanity_driver c s in
        Serves c answered.0 (view s) (view answered.1) × HasUniqueNames answered.1.volumes
  unfolding serve_volume
  serve_volume-Serves (VolumeCall.create_volume req) s u =
      (create_volume-Serves uuid show req s u, create_volume-keeps uuid show req s u)
  serve_volume-Serves (VolumeCall.delete_volume req) s u =
      (delete_volume-Serves uuid req s u, delete_volume-keeps uuid req s u)
  serve_volume-Serves (VolumeCall.validate_volume_capabilities req) s u =
      let (serves, kept) = validate_capabilities-Serves uuid show req s in (serves, rw kept u)
  serve_volume-Serves (VolumeCall.controller_expand_volume req) s u =
      (expand_volume-Serves uuid req s u, controller_expand_volume-keeps uuid req s u)

  volumes_alone-ServesAll :
      (calls : List VolumeCall) (s : Fake)
      → HasUniqueNames s.volumes
      → let answered = volumes_alone show sanity_driver calls s in
        ServesAll calls answered.0 (view s) (view answered.1)
  unfolding volumes_alone
  volumes_alone-ServesAll [] s u = done
  volumes_alone-ServesAll (c ∷ calls) s u =
      let (served, unique) = serve_volume-Serves c s u in
      step served (volumes_alone-ServesAll calls _ unique)

  -- The sanity mode implements the catalogue: in a run from the start, with any other calls between
  -- them, each call about volumes changes what GetVolume finds, and is answered, in one of the ways
  -- that `Serves` allows for that call.
  pub serve_all-ServesAll :
      (calls : List Call) (m : d.mounter.State) (n : Node)
      → let start : State sanity_driver = record { panfs = new_fake; mounter = m; node = n } in
        let answered = serve_all show sanity_driver calls start in
        ServesAll
          (volume_calls calls)
          (volume_answers calls answered.0)
          (λ name. none)
          (view answered.1.panfs)
  unfolding find_volume
  serve_all-ServesAll calls m n =
      let alone =
        serve_all-volumes show sanity_driver calls
          (record { panfs = new_fake; mounter = m; node = n }) in
      let all = volumes_alone-ServesAll (volume_calls calls) new_fake tt in rw alone at all
