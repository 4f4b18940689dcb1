-- ===== src/Driver/Server/Frames.antt =====
-- The calls about volumes in a sequence of calls of the server, on their own.
use panfs_container_storage.Base.{◌≡◌, refl, ap, List, [], ◌∷◌}
use panfs_container_storage.Base.Texts.{Text}
use panfs_container_storage.Driver.Csi.{VolumeCapability}
use panfs_container_storage.Driver.Server.{
  Driver, State, query, refusal, VolumeCall, volume_call, node_call, Call, Answer, serve_volume,
  serve, serve_all,
}

-- The calls about volumes, and their answers, in their order.
unfoldable pub volume_calls : List Call → List VolumeCall
volume_calls [] = []
volume_calls (volume_call c ∷ calls) = c ∷ volume_calls calls
volume_calls (query q ∷ calls) = volume_calls calls
volume_calls (refusal r ∷ calls) = volume_calls calls
volume_calls (node_call c ∷ calls) = volume_calls calls

unfoldable pub volume_answers : List Call → List Answer → List Answer
volume_answers [] answers = []
volume_answers (c ∷ calls) [] = []
volume_answers (volume_call c ∷ calls) (a ∷ answers) = a ∷ volume_answers calls answers
volume_answers (query q ∷ calls) (a ∷ answers) = volume_answers calls answers
volume_answers (refusal r ∷ calls) (a ∷ answers) = volume_answers calls answers
volume_answers (node_call c ∷ calls) (a ∷ answers) = volume_answers calls answers

module _ (show : VolumeCapability → Text) (d : Driver) where
  unfoldable pub volumes_alone : List VolumeCall → d.panfs.State → List Answer × d.panfs.State
  volumes_alone [] s = ([], s)
  volumes_alone (c ∷ calls) s =
      let done = serve_volume show d c s in
      let rest = volumes_alone calls done.1 in (done.0 ∷ rest.0, rest.1)

  pub serve_all-volumes :
      (calls : List Call) (s : State d)
      → volumes_alone (volume_calls calls) s.panfs
        ≡ (volume_answers calls (serve_all show d calls s).0, (serve_all show d calls s).1.panfs)
  unfolding serve_all serve volume_calls volume_answers volumes_alone
  serve_all-volumes [] s = refl
  serve_all-volumes (query q ∷ calls) s = serve_all-volumes calls s
  serve_all-volumes (refusal r ∷ calls) s = serve_all-volumes calls s
  serve_all-volumes (volume_call c ∷ calls) s =
      let done = serve_volume show d c s.panfs in
      ap (λ (rest : List Answer × d.panfs.State). (done.0 ∷ rest.0, rest.1))
        (serve_all-volumes calls (record s { panfs = done.1 }))
  serve_all-volumes (node_call c ∷ calls) s = serve_all-volumes calls _
