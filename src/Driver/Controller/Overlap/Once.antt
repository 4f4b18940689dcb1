-- ===== src/Driver/Controller/Overlap/Once.antt =====
-- Overlapping calls of CreateVolume with one request, in the sanity mode.
use panfs_container_storage.Base.{
  ℕ, String, ◌^◌, ◌<◌, ◌≤◌, ◌≡◌, ◌≢◌, refl, sym, ◌∙◌, ap, ◌⊎◌, inl, inr, ◌==◌, none, List, [], ◌∷◌,
  arith, Bool-cases,
}
use panfs_container_storage.Base.Int.{abs}
use panfs_container_storage.Pancli.Fake.{Fake, find_volume}
use panfs_container_storage.Driver.Csi.{
  Reply, reply, get_required_bytes, get_limit_bytes, CreateVolumeRequest, CsiVolume,
}
use panfs_container_storage.Driver.Provider.{fake_provider}
use panfs_container_storage.Driver.Controller.{created_volume}
use panfs_container_storage.Driver.Controller.Quotas.{made-Fits}
use panfs_container_storage.Driver.Controller.Repeat.{
  made_by, after, provider_free, provider_taken, provider_found, reply_existing_fit, after_find,
}
use panfs_container_storage.Driver.Controller.Overlap.{
  Progress, creating, getting, answered, after_create, times, left, step, Calls, interleave,
  interleave-left,
}

left-answered : (p : Progress) → left p ≤ 0 → (r : Reply CsiVolume) × (p ≡ answered r)
unfolding left
left-answered creating h = absurd (omega (arith, h))
left-answered getting h = absurd (omega (arith, h))
left-answered (answered r) h = (r, refl)

unanswered : {r : Reply CsiVolume} → creating ≢ answered r
unanswered h = cc

ungotten : {r : Reply CsiVolume} → getting ≢ answered r
ungotten h = cc

module _ (uuid : ℕ → String) (req : CreateVolumeRequest) where
  -- The response for the volume that is made in the state.
  abbrev pub response : Fake → CsiVolume
  response s = created_volume req.name (made_by uuid req s)

  -- A call that has not answered yet, or with that response.
  abbrev IsFine : Fake → Progress → Type 0
  IsFine s p = (p ≡ creating) ⊎ (p ≡ getting) ⊎ (p ≡ answered (reply (response s)))

  abbrev Fakes : Type 0
  Fakes = Calls (fake_provider uuid) req

  -- No call has taken a step, or one of them has made the volume.
  abbrev IsOnce : Fake → Fakes → Type 0
  IsOnce s c =
      (((i : ℕ) → c.progress i ≡ creating) × (c.state ≡ s))
      ⊎ (((i : ℕ) → IsFine s (c.progress i)) × (c.state ≡ after uuid req s))

  module _ (s : Fake) (free : find_volume req.name s.volumes ≡ none)
      (r : abs (get_required_bytes req.capacity_range) < 2 ^ 53)
      (l : abs (get_limit_bytes req.capacity_range) < 2 ^ 53) where
    step_free :
        step (fake_provider uuid) req creating s ≡ (answered (reply (response s)), after uuid req s)
    unfolding step after_create
    step_free = rw (provider_free uuid req s free) refl

    step_made :
        (p : Progress)
        → IsFine s p
        → IsFine s (step (fake_provider uuid) req p (after uuid req s)).0
          × ((step (fake_provider uuid) req p (after uuid req s)).1 ≡ after uuid req s)
    unfolding step after_create
    step_made creating f =
        let taken =
          provider_taken uuid req (after uuid req s) (made_by uuid req s)
            (after_find uuid req s free) in
        rw taken (inr (inl refl), refl)
    step_made getting f =
        let found =
          provider_found uuid req (after uuid req s) (made_by uuid req s)
            (after_find uuid req s free) in
        let fits =
          reply_existing_fit uuid req (made_by uuid req s) (made-Fits (uuid s.drawn) req r l) in
        rw found (inr (inr (ap answered fits)), refl)
    step_made (answered x) f = (f, refl)

    interleave-IsOnce :
        (schedule : List ℕ) (c : Fakes)
        → IsOnce s c
        → IsOnce s (interleave (fake_provider uuid) req schedule c)
    unfolding interleave
    interleave-IsOnce [] c once = once
    interleave-IsOnce (i ∷ schedule) c (inl (quiet, same)) = interleave-IsOnce schedule _ (
        inr (
          λ j. elim (Bool-cases (j == i)) [
            | inl t ↦
                rw (t, quiet i, same) (inr (inr (ap (λ (x : Progress × Fake). x.0) step_free)))
            | inr f ↦ rw f (inl (quiet j))
          ],
          rw (quiet i, same) (ap (λ (x : Progress × Fake). x.1) step_free),
        ))
    interleave-IsOnce (i ∷ schedule) c (inr (fine, same)) =
        let (better, kept) = step_made (c.progress i) (fine i) in
        interleave-IsOnce schedule _ (
          inr (
            λ j. elim (Bool-cases (j == i)) [ inl t ↦ rw (t, same) better | inr f ↦ rw f (fine j) ],
            rw same kept,
          ))

    -- A call that has been answered has the one response, and the volume has been made once.
    interleave-same :
        (schedule : List ℕ) (i : ℕ) (answer : Reply CsiVolume)
        → let ends =
            interleave
              (fake_provider uuid)
              req
              schedule
              (record { progress = λ j. creating; state = s }) in
          ends.progress i ≡ answered answer
          → (answer ≡ reply (response s)) × (ends.state ≡ after uuid req s)
    interleave-same schedule i answer h =
        elim (interleave-IsOnce schedule (record { progress = λ j. creating; state = s })
          (inl (λ j. refl, refl))) [
            | inl (quiet, _) ↦ absurd (unanswered (sym (quiet i) ∙ h))
            | inr (fine, made) ↦ elim (fine i) [
              | inl e ↦ absurd (unanswered (sym e ∙ h))
              | inr (inl e) ↦ absurd (ungotten (sym e ∙ h))
              | inr (inr e) ↦ (cc e, made)
            ]
          ]

    -- In the sanity mode, any number of overlapping calls of CreateVolume with one request that has
    -- passed validation, of sizes below 2^53 bytes and under a new name, whose calls of the in-memory
    -- client interleave in any order: every call that could take two steps has been answered, all of
    -- them with the same response, and just one volume has been made.
    pub interleave-answered :
        (schedule : List ℕ) (i : ℕ)
        → 2 ≤ times i schedule
        → let ends =
            interleave
              (fake_provider uuid)
              req
              schedule
              (record { progress = λ j. creating; state = s }) in
          (ends.progress i ≡ answered (reply (response s))) × (ends.state ≡ after uuid req s)
    unfolding left
    interleave-answered schedule i twice =
        let begun : Fakes = record { progress = λ j. creating; state = s } in
        let few = interleave-left (fake_provider uuid) req schedule begun i in
        let (answer, e) = left-answered _ (omega (arith, few, twice)) in
        let (same, made) = interleave-same schedule i answer e in (e ∙ ap answered same, made)
