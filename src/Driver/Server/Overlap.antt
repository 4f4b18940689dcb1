-- ===== src/Driver/Server/Overlap.antt =====
-- Calls about volumes that overlap, as gRPC serves them: each call of the storage provider is one
-- step, and the steps of the calls interleave in any order. Only CreateVolume can take two steps.
-- A handler reads the volume that a call returned through its pointer, and the in-memory client
-- returns the pointers that it keeps. Only ExpandVolume writes through them: the calls that overlap
-- here are the other three, for which the volume at the return is the volume that is read.
use panfs_container_storage.Base.{
  ℕ, ◌≡◌, ◌↔◌, refl, inl, inr, ◌==◌, Option, none, some, List, [], ◌∷◌, ◌++◌, if◌then◌else◌,
  Option-cases, Bool-cases,
}
use panfs_container_storage.Base.Texts.{Text}
use panfs_container_storage.Base.Results.{Result, ok, err, panic, is_already_exist}
use panfs_container_storage.Utils.Parser.{Volume}
use panfs_container_storage.Driver.Csi.{
  Code, status, VolumeCapability, CreateVolumeRequest, DeleteVolumeRequest,
  ValidateVolumeCapabilitiesRequest,
}
use panfs_container_storage.Driver.Validators.{validate_create_volume_request, validate_req_secrets}
use panfs_container_storage.Driver.Validators.Check.{◌>>◌, both}
use panfs_container_storage.Driver.Validators.Requests.{
  validate_create_volume_request_iff, validate_req_secrets_iff,
}
use panfs_container_storage.Driver.Controller.Create.{
  IsAcceptable, validate_volume_capabilities_iff,
}
use panfs_container_storage.Driver.Controller
use panfs_container_storage.Driver.Controller.{
  validate_volume_capabilities, quota_parameters, reply_existing, answer_create, provision,
}
use panfs_container_storage.Driver.Controller.Overlap.{
  Progress, creating, getting, answered, after_create,
}
use panfs_container_storage.Driver.Server.{
  Driver, VolumeCall, create_volume, delete_volume, Answer, volume, serve_volume,
}
use panfs_container_storage.Driver.Server

-- A call about volumes other than ControllerExpandVolume.
pub data Overlapping : Type 0 where
  creation : CreateVolumeRequest → Overlapping
  deletion : DeleteVolumeRequest → Overlapping
  validation : ValidateVolumeCapabilitiesRequest → Overlapping

abbrev pub call_of : Overlapping → VolumeCall
call_of (creation req) = create_volume req
call_of (deletion req) = delete_volume req
call_of (validation req) = Server.validate_volume_capabilities req

-- Where a call stands: not begun, behind panfs.CreateVolume and before panfs.GetVolume, or answered.
pub data Phase : Type 0 where
  begun : Overlapping → Phase
  looking : CreateVolumeRequest → Phase
  done : VolumeCall → Answer → Phase

abbrev pub phase_of : CreateVolumeRequest → Progress → Phase
phase_of req creating = begun (creation req)
phase_of req getting = looking req
phase_of req (answered r) = done (create_volume req) (volume r)

-- The calls that a step answers.
abbrev pub finished : Phase → List (VolumeCall × Answer)
finished (begun c) = []
finished (looking req) = []
finished (done c a) = (c, a) ∷ []

abbrev pub emitted : Phase → Phase → List (VolumeCall × Answer)
emitted (begun c) after = finished after
emitted (looking req) after = finished after
emitted (done c a) after = []

module _ (show : VolumeCapability → Text) (d : Driver) where
  -- What the validation of CreateVolume objects to.
  unfoldable pub refusal_of : CreateVolumeRequest → Option Text
  unfolding validate_volume_capabilities
  refusal_of req =
      validate_create_volume_request req
      >> validate_volume_capabilities show req.volume_capabilities
      >> validate_req_secrets req.secrets

  -- The first step of CreateVolume, from what the validation objects to.
  abbrev pub validated : CreateVolumeRequest → d.panfs.State → Option Text → Phase × d.panfs.State
  validated req s (some m) = (done (create_volume req) (volume (status Code.invalid_argument m)), s)
  validated req s none =
      let made = d.panfs.create_volume req.name (quota_parameters req) req.secrets s in
      (phase_of req (after_create req made.0), made.1)

  unfoldable pub begin_create : CreateVolumeRequest → d.panfs.State → Phase × d.panfs.State
  unfolding refusal_of after_create quota_parameters
  begin_create req s = validated req s (refusal_of req)

  abbrev at_once : VolumeCall → d.panfs.State → Phase × d.panfs.State
  at_once c s = let served = serve_volume show d c s in (done c served.0, served.1)

  unfoldable pub take : Phase → d.panfs.State → Phase × d.panfs.State
  unfolding begin_create serve_volume reply_existing
  take (begun (creation req)) s = begin_create req s
  take (begun (deletion req)) s = at_once (delete_volume req) s
  take (begun (validation req)) s = at_once (Server.validate_volume_capabilities req) s
  take (looking req) s =
      let found = d.panfs.get_volume req.name req.secrets s in
      (done (create_volume req) (volume (reply_existing req found.0)), found.1)
  take (done c a) s = (done c a, s)

  -- Any number of calls, over the provider's state.
  pub record Pool : Type 0 where
    pub phases : ℕ → Phase
    pub state : d.panfs.State

  -- The calls that the schedule names take a step, one after another; the calls that were answered,
  -- in the order of their answers.
  unfoldable pub run : List ℕ → Pool → List (VolumeCall × Answer) × Pool
  unfolding take
  run [] c = ([], c)
  run (i ∷ schedule) c =
      let next = take (c.phases i) c.state in
      let rest =
        run schedule
          (record { phases = λ j. if j == i then next.0 else c.phases j; state = next.1 }) in
      (emitted (c.phases i) next.0 ++ rest.0, rest.1)

  refusal_of-create_volume :
      (req : CreateVolumeRequest) (s : d.panfs.State) (v c x : Option Text)
      → validate_create_volume_request req ≡ v
      → validate_volume_capabilities show req.volume_capabilities ≡ c
      → validate_req_secrets req.secrets ≡ x
      → Controller.create_volume d.panfs show req s ≡ elim (refusal_of req) [
        | some m ↦ (status Code.invalid_argument m, s)
        | none ↦ provision d.panfs req s
      ]
  unfolding refusal_of Controller.create_volume
  refusal_of-create_volume req s none none none v c x = rw (v, c, x) refl
  refusal_of-create_volume req s (some m) c' x' v c x = rw v refl
  refusal_of-create_volume req s none (some m) x' v c x = rw (v, c) refl
  refusal_of-create_volume req s none none (some m) v c x = rw (v, c, x) refl

  -- The validation objects to nothing exactly if the request is acceptable.
  pub refusal_of_iff : (req : CreateVolumeRequest) → (refusal_of req ≡ none) ↔ IsAcceptable req
  unfolding refusal_of
  refusal_of_iff req =
      let all =
        both
          (both (validate_create_volume_request_iff req)
            (validate_volume_capabilities_iff show req.volume_capabilities))
          (validate_req_secrets_iff req.secrets) in
      (
        λ e.
            let (((fields, parameters), capabilities), secrets) = all.0 e in
            record {
              fields = fields;
              parameters = parameters;
              capabilities = capabilities;
              secrets = secrets;
            },
        λ a. all.1 (((a.fields, a.parameters), a.capabilities), a.secrets),
      )

  pub begin_create-validated :
      (req : CreateVolumeRequest) (s : d.panfs.State)
      → begin_create req s ≡ validated req s (refusal_of req)
  unfolding begin_create
  begin_create-validated req s = refl

  looked :
      (req : CreateVolumeRequest) (made : Result (Option Volume)) (t : d.panfs.State)
      → take (phase_of req (after_create req made)) t ≡ (
        done (create_volume req) (volume (answer_create d.panfs req made t).0),
        (answer_create d.panfs req made t).1,
      )
  unfolding take after_create answer_create
  looked req (ok (some vol)) t = refl
  looked req (ok none) t = refl
  looked req panic t = refl
  looked req (err e) t = elim (Bool-cases (is_already_exist e)) [
    | inl y ↦ rw y refl
    | inr n ↦ rw n refl
  ]

  -- A call whose two steps come one right after the other is served as the handler serves it.
  take-serve_volume :
      (c : Overlapping) (s : d.panfs.State)
      → take (take (begun c) s).0 (take (begun c) s).1 ≡ at_once (call_of c) s
  unfolding take serve_volume provision
  take-serve_volume (creation req) s =
      let whole = refusal_of-create_volume req s _ _ _ refl refl refl in
      elim (Option-cases (refusal_of req)) [
        | inr (m, e) ↦
            let served = rw e at whole in rw (begin_create-validated req s, e, served) refl
        | inl e ↦
            let made = d.panfs.create_volume req.name (quota_parameters req) req.secrets s in
            let served = rw e at whole in
            rw (begin_create-validated req s, e, served) (looked req made.0 made.1)
      ]
  take-serve_volume (deletion req) s = refl
  take-serve_volume (validation req) s = refl
