-- ===== src/Pancli/Client/Listing.antt =====
-- A volume that MarshalVolumeToPasXML of pkg/utils/parser.go writes, read again by GetVolume of
-- pkg/pancli/pancli_ssh.go.
use panfs_container_storage.Base.{
  ℕ, Char, code, String, ◌≡◌, ◌≢◌, refl, ◌⊎◌, inl, inr, ◌==◌, ==_iff, ◌∷◌, [], ap, ◌∙◌, Bool-cases,
}
use panfs_container_storage.Base.GoMap.{GoMap}
use panfs_container_storage.Base.Results.{Result, ok}
use panfs_container_storage.Utils.Parser.{
  Volume, VolumeList, volume_name, marshal_volume_to_pas_xml,
}
use panfs_container_storage.Pancli.Client.{
  SshRunner, Unmarshal, named, all_named, parse_list_volumes, decode, checked_list, first_volume,
  get_volume,
}

-- The listing of one volume that MarshalVolumeToPasXML builds.
abbrev pub listing_of : Volume → VolumeList
listing_of v = record { version = "6.0.0"; volumes = v ∷ []; supported_urls = [] }

-- encoding/xml reads the contents of a listing that it has written.
abbrev pub IsReadBack : (VolumeList → Result String) → Unmarshal → VolumeList → Type 0
IsReadBack marshal unmarshal list = (out : String) → marshal list ≡ ok out → unmarshal out ≡ ok list

-- What is left of a name behind a slash at its head, if there is one.
abbrev pub IsBare : String → String → Type 0
IsBare name bare =
    ((c : Char) × (code c ≡ b'/') × (name ≡ String.◌∷◌ c bare))
    ⊎ ((name ≡ bare) × ((c : Char) (rest : String) → name ≡ String.◌∷◌ c rest → code c ≢ b'/'))

unfoldable first_code : String → ℕ
first_code String.[] = 0
first_code (String.◌∷◌ c s) = code c

volume_name-IsBare : (name : String) → IsBare name (volume_name name)
unfolding volume_name first_code
volume_name-IsBare String.[] = inr (refl, λ c rest h. cc)
volume_name-IsBare (String.◌∷◌ c s) = elim (Bool-cases (code c == b'/')) [
  | inl t ↦ rw t (inl (c, (==_iff (code c) b'/').0 t, refl))
  | inr f ↦ rw f (
      inr (
        refl,
        λ d rest h e.
            let slash : code c ≡ b'/' = ap first_code h ∙ e in
            let yes = (==_iff (code c) b'/').1 slash in cc,
      ))
]

-- When the realm prints what MarshalVolumeToPasXML wrote for a volume, and encoding/xml reads the
-- contents of that listing back, GetVolume returns the volume, without a slash at the head of its
-- name.
pub get_volume-marshalled :
    (R : SshRunner) (marshal : VolumeList → Result String) (unmarshal : Unmarshal) (v : Volume)
    → IsReadBack marshal unmarshal (listing_of v)
    → (name out : String) (secrets : GoMap) (s s' : R.State)
    → marshal_volume_to_pas_xml marshal v ≡ ok out
    → R.run_command secrets ("pasxml" ∷ "volumes" ∷ "volume" ∷ name ∷ []) s ≡ (ok out, s')
    → (bare : String) × IsBare v.name bare
      × (get_volume R unmarshal name secrets s ≡ (ok (record v { name = bare }), s'))
unfolding get_volume marshal_volume_to_pas_xml checked_list first_volume decode parse_list_volumes
    named all_named
get_volume-marshalled R marshal unmarshal v inverse name out secrets s s' written printed =
    let read = inverse out written in
    (
      volume_name v.name,
      volume_name-IsBare v.name,
      rw (printed, decode, parse_list_volumes, read) refl,
    )
