-- ===== src/Driver/Server/Volumes/Linear.antt =====
-- Overlapping calls about volumes in the sanity mode, other than expansions, are linearizable.
use panfs_container_storage.Base.{
  ℕ, String, ◌≡◌, refl, ◌⊎◌, inl, inr, ◌==◌, List, [], ◌∷◌, if◌then◌else◌, Option-cases, Bool-cases,
}
use panfs_container_storage.Base.Texts.{Text}
use panfs_container_storage.Pancli.Fake.{Fake, find_volume}
use panfs_container_storage.Pancli.Fake.Laws.{HasUniqueNames}
use panfs_container_storage.Pancli.Fake.Operations.{
  create_volume_free, create_volume-find, new_volume-name, get_volume_found, get_volume_missing,
}
use panfs_container_storage.Driver.Csi.{VolumeCapability, CreateVolumeRequest}
use panfs_container_storage.Driver.Controller.{quota_parameters}
use panfs_container_storage.Driver.Controller.Create.{IsAcceptable}
use panfs_container_storage.Driver.Controller.Overlap.{after_create}
use panfs_container_storage.Driver.Controller.Repeat.{made_by, after, provider_free, provider_taken}
use panfs_container_storage.Driver.Server.{
  Driver, VolumeCall, create_volume, delete_volume, controller_expand_volume, Answer, serve_volume,
}
use panfs_container_storage.Driver.Server
use panfs_container_storage.Driver.Server.Overlap.{
  creation, deletion, validation, Phase, begun, looking, done, emitted, refusal_of, refusal_of_iff,
  begin_create, begin_create-validated, take, Pool, run,
}
use panfs_container_storage.Driver.Server.Volumes.{
  Catalogue, Serves, created, vanished, not_created, ServesAll,
}
use panfs_container_storage.Driver.Server.Volumes as Promise
use panfs_container_storage.Driver.Server.Volumes.Handlers.{view, existing-Serves}
use panfs_container_storage.Driver.Server.Volumes.Refine.{sanity_driver, serve_volume-Serves}

-- The calls of a log, and their answers.
unfoldable pub calls_of : List (VolumeCall × Answer) → List VolumeCall
calls_of [] = []
calls_of ((c, a) ∷ log) = c ∷ calls_of log

unfoldable pub answers_of : List (VolumeCall × Answer) → List Answer
answers_of [] = []
answers_of ((c, a) ∷ log) = a ∷ answers_of log

ServesAll-same :
    (calls : List VolumeCall) (answers : List Answer) (s t : Fake) (h : Catalogue)
    → t ≡ s
    → ServesAll calls answers (view t) h
    → ServesAll calls answers (view s) h
ServesAll-same calls answers s t h same all = rw same at all

module _ (uuid : ℕ → String) (show : VolumeCapability → Text) (d : Driver) where
  -- A call between its two steps has passed the validation.
  abbrev pub IsSound : Phase → Type 0
  IsSound (begun c) = Unit
  IsSound (looking req) = IsAcceptable req
  IsSound (done c a) = Unit

  -- A step keeps the names unique. It answers no call and changes nothing, or it answers one, as is
  -- promised for it.
  abbrev IsGood : Phase → Fake → Phase × Fake → Type 0
  IsGood p s next =
      HasUniqueNames next.1.volumes
      × IsSound next.0
      × (((emitted p next.0 ≡ []) × (next.1 ≡ s))
          ⊎ ((c : VolumeCall) × (a : Answer) × (emitted p next.0 ≡ (c, a) ∷ [])
              × Serves c a (view s) (view next.1)))

  begin_create-IsGood :
      (req : CreateVolumeRequest) (s : Fake)
      → HasUniqueNames s.volumes
      → IsGood (begun (creation req)) s (begin_create show (sanity_driver uuid show d) req s)
  unfolding after_create
  begin_create-IsGood req s u =
      rw (begin_create-validated show (sanity_driver uuid show d) req s)
        (elim (Option-cases (refusal_of show (sanity_driver uuid show d) req)) [
          | inr (m, e) ↦
              let bad : ¬ IsAcceptable req =
                λ a. cc ((refusal_of_iff show (sanity_driver uuid show d) req).1 a) in
              rw e (u, tt, inr (create_volume req, _, refl, not_created req m bad (λ n. refl)))
          | inl e ↦
              let a = (refusal_of_iff show (sanity_driver uuid show d) req).0 e in
              elim (Option-cases (find_volume req.name s.volumes)) [
                | inl free ↦
                    let (_, found, unique) =
                      create_volume-find uuid req.name (quota_parameters req) req.secrets s
                        (after uuid req s) (made_by uuid req s) u
                        (create_volume_free uuid req.name (quota_parameters req) req.secrets s
                          free) in
                    let named =
                      new_volume-name uuid (uuid s.drawn) req.name (quota_parameters req) in
                    rw (e, provider_free uuid req s free)
                      (
                        unique,
                        tt,
                        inr (
                          create_volume req,
                          _,
                          refl,
                          created req (made_by uuid req s) a free named found,
                        ),
                      )
                | inr (w, taken) ↦
                    rw (e, provider_taken uuid req s w taken) (u, a, inl (refl, refl))
              ]
        ])

  take-IsGood :
      (p : Phase) (s : Fake)
      → HasUniqueNames s.volumes
      → IsSound p
      → IsGood p s (take show (sanity_driver uuid show d) p s)
  unfolding take
  take-IsGood (begun (creation req)) s u sound = begin_create-IsGood req s u
  take-IsGood (begun (deletion req)) s u sound =
      let (serves, unique) = serve_volume-Serves uuid show d (delete_volume req) s u in
      (unique, tt, inr (delete_volume req, _, refl, serves))
  take-IsGood (begun (validation req)) s u sound =
      let (serves, unique) =
        serve_volume-Serves uuid show d (Server.validate_volume_capabilities req) s u in
      (unique, tt, inr (Server.validate_volume_capabilities req, _, refl, serves))
  take-IsGood (looking req) s u a = elim (Option-cases (find_volume req.name s.volumes)) [
    | inl n ↦
        rw (get_volume_missing req.name req.secrets s n)
          (u, tt, inr (create_volume req, _, refl, vanished req _ a n (λ name. refl)))
    | inr (w, e) ↦
        rw (get_volume_found req.name req.secrets s w e)
          (u, tt, inr (create_volume req, _, refl, existing-Serves req s w a e))
  ]
  take-IsGood (done c a) s u sound = (u, tt, inl (refl, refl))

  -- In the sanity mode, any number of overlapping calls of CreateVolume, DeleteVolume and
  -- ValidateVolumeCapabilities, whose calls of the in-memory client are one step each and interleave
  -- in any order, are linearizable: the answers that they have given, and what GetVolume
  -- then finds, are as if the answered calls had been served one after another in the order of their
  -- answers, each as `Serves` allows. At first no two volumes have one name, and a call that stands
  -- between its two steps has passed the validation.
  pub run-ServesAll :
      (schedule : List ℕ) (c : Pool show (sanity_driver uuid show d))
      → HasUniqueNames c.state.volumes
      → ((i : ℕ) → IsSound (c.phases i))
      → let ends = run show (sanity_driver uuid show d) schedule c in
        ServesAll (calls_of ends.0) (answers_of ends.0) (view c.state) (view ends.1.state)
  unfolding run calls_of answers_of
  run-ServesAll [] c u sound = Promise.done
  run-ServesAll (i ∷ schedule) c u sound =
      let next = take show (sanity_driver uuid show d) (c.phases i) c.state in
      let (unique, passed, way) = take-IsGood (c.phases i) c.state u (sound i) in
      let pool : Pool show (sanity_driver uuid show d) = record {
        phases = λ j. if j == i then next.0 else c.phases j;
        state = next.1;
      } in
      let sound_after : (j : ℕ) → IsSound (pool.phases j) =
        λ j. elim (Bool-cases (j == i)) [ inl t ↦ rw t passed | inr f ↦ rw f (sound j) ] in
      let rest = run-ServesAll schedule pool unique sound_after in
      elim way [
        | inl (quiet, same) ↦ rw quiet (ServesAll-same _ _ c.state next.1 _ same rest)
        | inr (call, answer, told, serves) ↦ rw told (Promise.step serves rest)
      ]
