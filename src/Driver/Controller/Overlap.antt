-- ===== src/Driver/Controller/Overlap.antt =====
-- Calls of CreateVolume in pkg/driver/controller.go that overlap: each provider call is one step,
-- and the steps of the calls interleave in any order. The handler reads the volume of a call through
-- its pointer; no ExpandVolume overlaps here, so it reads the volume as the call returned it.
pub mod Once
use panfs_container_storage.Base.{
  ℕ, String, ◌^◌, ◌<◌, ◌≤◌, ◌+◌, ◌-◌, ◌≡◌, ◌≢◌, refl, sym, ◌∙◌, ap, ◌⊎◌, inl, inr, ◌==◌, ==_iff,
  none, some, Option, List, [], ◌∷◌, arith, if◌then◌else◌, Bool-cases,
}
use panfs_container_storage.Base.Int.{abs}
use panfs_container_storage.Base.Results.{Result, ok, err, panic, is_already_exist}
use panfs_container_storage.Utils.Parser.{Volume}
use panfs_container_storage.Pancli.Fake.{Fake, find_volume}
use panfs_container_storage.Driver.Csi.{
  Code, Reply, reply, status, panicked, get_required_bytes, get_limit_bytes, CreateVolumeRequest,
  CsiVolume,
}
use panfs_container_storage.Driver.Provider.{StorageProvider, fake_provider}
use panfs_container_storage.Driver.Controller.{
  unexpected_internal, created_volume, reply_existing, quota_parameters, answer_create, provision,
}
use panfs_container_storage.Driver.Controller.Quotas.{made-Fits}
use panfs_container_storage.Driver.Controller.Repeat.{
  made_by, after, provider_free, provider_taken, provider_found, reply_existing_fit, after_find,
}

-- Where a call stands behind its validation: before panfs.CreateVolume, before panfs.GetVolume, or
-- answered.
pub data Progress : Type 0 where
  creating getting : Progress
  answered : Reply CsiVolume → Progress

unfoldable pub after_create : CreateVolumeRequest → Result (Option Volume) → Progress
after_create req (ok (some vol)) = answered (reply (created_volume req.name vol))
after_create req (ok none) = answered panicked
after_create req panic = answered panicked
after_create req (err e) =
    if is_already_exist e then getting else answered (status Code.internal unexpected_internal)

-- How often a schedule names a call, and how many steps a call has left at most.
unfoldable pub times : ℕ → List ℕ → ℕ
times i [] = 0
times i (j ∷ schedule) = (if i == j then 1 else 0) + times i schedule

unfoldable pub left : Progress → ℕ
left creating = 2
left getting = 1
left (answered r) = 0

module _ (P : StorageProvider) (req : CreateVolumeRequest) where
  unfoldable pub step : Progress → P.State → Progress × P.State
  unfolding after_create
  step creating s =
      let done = P.create_volume req.name (quota_parameters req) req.secrets s in
      (after_create req done.0, done.1)
  step getting s =
      let found = P.get_volume req.name req.secrets s in
      (answered (reply_existing req found.0), found.1)
  step (answered r) s = (answered r, s)

  -- Two steps of one call, with nothing between them, are the handler.
  step-provision :
      (s : P.State)
      → step (step creating s).0 (step creating s).1
        ≡ (answered (provision P req s).0, (provision P req s).1)
  unfolding step after_create provision answer_create
  step-provision s = go (P.create_volume req.name (quota_parameters req) req.secrets s)
    where
      go :
          (done : Result (Option Volume) × P.State)
          → step (after_create req done.0) done.1 ≡ (
            answered (answer_create P req done.0 done.1).0,
            (answer_create P req done.0 done.1).1,
          )
      go (ok (some vol), t) = refl
      go (ok none, t) = refl
      go (panic, t) = refl
      go (err e, t) = elim (Bool-cases (is_already_exist e)) [
        | inl y ↦ rw y refl
        | inr n ↦ rw n refl
      ]

  -- Any number of calls with this request, over one provider.
  pub record Calls : Type 0 where
    pub progress : ℕ → Progress
    pub state : P.State

  -- The calls named by the schedule take a step, one after another.
  unfoldable pub interleave : List ℕ → Calls → Calls
  unfolding step
  interleave [] c = c
  interleave (i ∷ schedule) c =
      let done = step (c.progress i) c.state in
      interleave schedule
        (record { progress = λ j. if j == i then done.0 else c.progress j; state = done.1 })

  step-left : (p : Progress) (s : P.State) → left (step p s).0 ≤ left p - 1
  unfolding step after_create left
  step-left creating s = go (P.create_volume req.name (quota_parameters req) req.secrets s).0
    where
      go : (done : Result (Option Volume)) → left (after_create req done) ≤ 1
      go (ok (some vol)) = omega arith
      go (ok none) = omega arith
      go panic = omega arith
      go (err e) = elim (Bool-cases (is_already_exist e)) [
        | inl y ↦ rw y (omega arith)
        | inr n ↦ rw n (omega arith)
      ]
  step-left getting s = omega arith
  step-left (answered r) s = omega arith

  pub interleave-left :
      (schedule : List ℕ) (c : Calls) (i : ℕ)
      → left ((interleave schedule c).progress i) ≤ left (c.progress i) - times i schedule
  unfolding interleave times
  interleave-left [] c i = omega arith
  interleave-left (j ∷ schedule) c i =
      let done = step (c.progress j) c.state in
      let next : Calls = record {
        progress = λ k. if k == j then done.0 else c.progress k;
        state = done.1;
      } in
      let rest = interleave-left schedule next i in
      elim (Bool-cases (i == j)) [
        | inl t ↦
            let same = ap (λ k. left (c.progress k)) ((==_iff i j).0 t) in
            let lower = rw t at rest in
            rw t (omega (arith, lower, same, step-left (c.progress j) c.state))
        | inr f ↦ let kept = rw f at rest in rw f (omega (arith, kept))
      ]
