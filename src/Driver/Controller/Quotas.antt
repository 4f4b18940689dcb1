-- ===== src/Driver/Controller/Quotas.antt =====
-- The volume that the client of the sanity mode makes for CreateVolume, and its quotas.
use panfs_container_storage.Base.{
  ◌^◌, ◌<◌, String, ◌≡◌, ◌≢◌, refl, sym, ◌∙◌, ap, inl, inr, false, none, some, arith, str_eq,
  eq_iff,
}
use panfs_container_storage.Base.Texts.{str_eq-cases}
use panfs_container_storage.Base.Int.{ℤ, pos, negsuc, abs}
use panfs_container_storage.Base.Decimal.{parse_int, format_int}
use panfs_container_storage.Base.Decimal.RoundTrip.{IsInt64, parse_int-format_int}
use panfs_container_storage.Base.GoMap.{
  Entries, lookup, value_at, lookup-insert_self, lookup-insert_ne,
}
use panfs_container_storage.Utils.Context.{get_sc_key}
use panfs_container_storage.Utils.Convert.{bytes_string_to_gb, bytes_to_gb, gb_to_bytes}
use panfs_container_storage.Utils.Convert.RoundTrip.{gb_to_bytes-bytes_to_gb}
use panfs_container_storage.Utils.Parser.{Volume}
use panfs_container_storage.Pancli.Fake.{new_volume, or_default}
use panfs_container_storage.Driver.Csi.{get_required_bytes, get_limit_bytes, CreateVolumeRequest}
use panfs_container_storage.Driver.Validators.Requests.{Fits}
use panfs_container_storage.Driver.Controller.{entries_of, quota_parameters}

hard-ne-soft : get_sc_key "soft" ≢ get_sc_key "hard"
unfolding get_sc_key
hard-ne-soft = λ e. absurd (cc ((eq_iff "panfs.csi.vdura.com/soft" "panfs.csi.vdura.com/hard").1 e))

value_at_found : (k v : String) (m : Entries) → lookup k m ≡ some v → value_at k (some m) ≡ v
unfolding value_at
value_at_found k v m e = rw e

-- The quotas that are passed on are the requested sizes, in decimals.
quota_parameters-soft :
    (req : CreateVolumeRequest)
    → value_at (get_sc_key "soft") (some (quota_parameters req))
      ≡ format_int (get_required_bytes req.capacity_range)
unfolding quota_parameters
quota_parameters-soft req = value_at_found (get_sc_key "soft") _ _ (
    lookup-insert_ne (get_sc_key "soft") (get_sc_key "hard") _ _ hard-ne-soft
    ∙ lookup-insert_self (get_sc_key "soft") _ (entries_of req.parameters))

quota_parameters-hard :
    (req : CreateVolumeRequest)
    → value_at (get_sc_key "hard") (some (quota_parameters req))
      ≡ format_int (get_limit_bytes req.capacity_range)
unfolding quota_parameters
quota_parameters-hard req =
    value_at_found (get_sc_key "hard") _ _ (lookup-insert_self (get_sc_key "hard") _ _)

IsInt64-of_small : (a : ℤ) → abs a < 2 ^ 53 → IsInt64 a
IsInt64-of_small (pos n) h = omega arith
IsInt64-of_small (negsuc n) h = omega arith

parse_int-nil : parse_int "" ≡ none
unfolding parse_int
parse_int-nil = refl

bytes_string_to_gb_of :
    (s : String) (a : ℤ) → parse_int s ≡ some a → bytes_string_to_gb s ≡ bytes_to_gb a
unfolding bytes_string_to_gb
bytes_string_to_gb_of s a e = ground arith

or_default_other : (s d : String) → str_eq s "" ≡ false → or_default s d ≡ s
or_default_other s d e = rw e refl

-- A size below 2^53 bytes in decimals is a quota of as many bytes.
quota_bytes :
    (a : ℤ) → abs a < 2 ^ 53 → gb_to_bytes (bytes_string_to_gb (or_default (format_int a) "0")) ≡ a
quota_bytes a h = elim (str_eq-cases (format_int a) "") [
  | inl (_, same) ↦
      absurd (cc (parse_int-format_int a (IsInt64-of_small a h), ap parse_int same, parse_int-nil))
  | inr (f, _) ↦
      ap (λ s. gb_to_bytes (bytes_string_to_gb s)) (or_default_other (format_int a) "0" f)
      ∙ ap gb_to_bytes
          (bytes_string_to_gb_of (format_int a) a (parse_int-format_int a (IsInt64-of_small a h)))
      ∙ gb_to_bytes-bytes_to_gb a h
]

-- The volume that the fake client makes has the requested quotas.
module _ (id : String) (req : CreateVolumeRequest) where
  abbrev pub made : Volume
  made = new_volume id req.name (quota_parameters req)

  pub made-soft :
      abs (get_required_bytes req.capacity_range) < 2 ^ 53
      → gb_to_bytes made.soft ≡ get_required_bytes req.capacity_range
  unfolding new_volume
  made-soft h =
      ap (λ text. gb_to_bytes (bytes_string_to_gb (or_default text "0")))
        (quota_parameters-soft req)
      ∙ quota_bytes (get_required_bytes req.capacity_range) h

  pub made-hard :
      abs (get_limit_bytes req.capacity_range) < 2 ^ 53
      → gb_to_bytes made.hard ≡ get_limit_bytes req.capacity_range
  unfolding new_volume
  made-hard h =
      ap (λ text. gb_to_bytes (bytes_string_to_gb (or_default text "0")))
        (quota_parameters-hard req)
      ∙ quota_bytes (get_limit_bytes req.capacity_range) h

  pub made-Fits :
      abs (get_required_bytes req.capacity_range) < 2 ^ 53
      → abs (get_limit_bytes req.capacity_range) < 2 ^ 53
      → Fits req.capacity_range made
  made-Fits r l = (inr (rw (made-soft r) (omega arith)), inr (sym (made-hard l)))
