-- ===== src/Driver/Validators.antt =====
-- pkg/driver/validators.go. A validator's error is its message, `none` the nil error.
pub mod Check
pub mod StripeUnit
pub mod Rules
pub mod Requests
use panfs_container_storage.Base.{
  String, ◌<>◌, Bool, true, false, not, ◌&&◌, ◌||◌, Option, none, some, List, [], ◌∷◌, ◌++◌, str_eq,
  if◌then◌else◌, is_empty,
}
use panfs_container_storage.Base.Texts.{Text, codes, join, contains_string}
use panfs_container_storage.Base.Int.{ℤ, pos, ltb_ℤ, eqb_ℤ}
use panfs_container_storage.Base.Decimal.{parse_int, format_int}
use panfs_container_storage.Base.GoMap.{GoMap, find, value_at}
use panfs_container_storage.Utils.Context.{get_sc_key}
use panfs_container_storage.Utils.Context.Secret
use panfs_container_storage.Utils.Convert.{gb_to_bytes}
use panfs_container_storage.Utils.Parser.{Volume}
use panfs_container_storage.Driver.Csi.{
  CapacityRange, get_required_bytes, get_limit_bytes, CreateVolumeRequest,
}
use Check.{◌>>◌, refuse_if, if_present}
use StripeUnit.{validate_stripe_unit}

abbrev pub layout_list : List String
layout_list = "raid6+" ∷ "raid5+" ∷ "raid10+" ∷ "raid5" ∷ "raid10" ∷ []

abbrev pub perm_list : List String
perm_list =
    "none" ∷ "read-only" ∷ "write-only" ∷ "execute-only" ∷ "read-write" ∷ "read-execute"
    ∷ "write-execute" ∷ "all" ∷ []

unfoldable pub validate_volume_capacity : Option CapacityRange → Volume → Option Text
validate_volume_capacity capacity vol =
    let required = get_required_bytes capacity in
    let soft_bytes = gb_to_bytes vol.soft in
    let limit = get_limit_bytes capacity in
    let hard_bytes = gb_to_bytes vol.hard in
    do
      refuse_if (not (eqb_ℤ required (pos 0)) && ltb_ℤ soft_bytes required) (
          codes (
            "requiredBytes bytes ("
            <> format_int required
            <> ") exceeds soft quota bytes ("
            <> format_int soft_bytes
            <> ")"))
      refuse_if (not (eqb_ℤ limit (pos 0)) && not (eqb_ℤ limit hard_bytes)) (
          codes (
            "limit bytes ("
            <> format_int limit
            <> ") not equal to hard quota bytes ("
            <> format_int hard_bytes
            <> ")"))
      none

abbrev must_be_provided : String → Text
must_be_provided key = codes (get_sc_key key <> " must be provided")

abbrev must_be_one_of : String → List String → Text
must_be_one_of key list = codes (get_sc_key key <> " must be one of: [" <> join list " " <> "]")

unfoldable pub validate_encryption_parameter : String → Bool
unfolding contains_string
validate_encryption_parameter input =
    contains_string ("on" ∷ "off" ∷ "aes-xts-256" ∷ "none" ∷ []) input

-- strconv.Atoi, and the test that follows it.
abbrev integer : String → String → Text → (ℤ → Bool) → Option Text
integer key val message is_bad = elim (parse_int val) [
  | none ↦ some (codes (get_sc_key key <> " is not integer"))
  | some n ↦ refuse_if (is_bad n) message
]

unfoldable pub validate_volume_parameters : GoMap → Option Text
unfolding validate_encryption_parameter join
validate_volume_parameters m = do
  if_present (get_sc_key "bladeset") m
      (λ val. refuse_if (str_eq val "") (must_be_provided "bladeset"))
  if_present (get_sc_key "volservice") m
      (λ val. refuse_if (str_eq val "") (must_be_provided "volservice"))
  if_present (get_sc_key "layout") m (λ val.
      refuse_if (not (contains_string layout_list val)) (must_be_one_of "layout" layout_list))
  if_present (get_sc_key "maxwidth") m (λ val.
      integer "maxwidth" val (codes (get_sc_key "maxwidth" <> " must be greater then 0"))
        (λ n. ltb_ℤ n (pos 1)))
  if_present (get_sc_key "stripeunit") m (λ val.
      refuse_if (not (validate_stripe_unit val))
        (codes (get_sc_key "stripeunit" <> " is not valid")))
  if_present (get_sc_key "rgwidth") m (λ val.
      integer "rgwidth" val
        (codes (get_sc_key "rgwidth" <> " must be between 3 and 20 (inclusive)"))
        (λ n. ltb_ℤ n (pos 3) || ltb_ℤ (pos 20) n))
  if_present (get_sc_key "rgdepth") m (λ val.
      integer "rgdepth" val (codes (get_sc_key "rgdepth" <> " must be greater then 0"))
        (λ n. ltb_ℤ n (pos 1)))
  if_present (get_sc_key "user") m (λ val. refuse_if (str_eq val "") (must_be_provided "user"))
  if_present (get_sc_key "group") m (λ val. refuse_if (str_eq val "") (must_be_provided "group"))
  if_present (get_sc_key "uperm") m
      (λ val. refuse_if (not (contains_string perm_list val)) (must_be_one_of "uperm" perm_list))
  if_present (get_sc_key "gperm") m
      (λ val. refuse_if (not (contains_string perm_list val)) (must_be_one_of "gperm" perm_list))
  if_present (get_sc_key "operm") m
      (λ val. refuse_if (not (contains_string perm_list val)) (must_be_one_of "operm" perm_list))
  if_present (get_sc_key "encryption") m (λ val.
      refuse_if (not (validate_encryption_parameter val))
        (codes (get_sc_key "encryption" <> " must be 'on' or 'off'")))
  none

unfoldable pub validate_create_volume_request : CreateVolumeRequest → Option Text
unfolding validate_volume_parameters
validate_create_volume_request req =
    let required = get_required_bytes req.capacity_range in
    let limit = get_limit_bytes req.capacity_range in
    do
      refuse_if (str_eq req.name "") (codes "name must be provided")
      refuse_if (is_empty req.volume_capabilities) (codes "volume_capabilities must be provided")
      refuse_if req.has_content_source
          (codes "create volume request with content source is not supported")
      refuse_if (ltb_ℤ required (pos 0))
          (codes ("required_bytes (" <> format_int required <> ") cannot be less than zero"))
      refuse_if (ltb_ℤ limit (pos 0))
          (codes ("limit_bytes (" <> format_int limit <> ") cannot be less than zero"))
      refuse_if (ltb_ℤ limit required && not (eqb_ℤ limit (pos 0))) (
          codes (
            "required_bytes ("
            <> format_int required
            <> ") should not be greater than limit_bytes ("
            <> format_int limit
            <> ")"))
      validate_volume_parameters req.parameters

abbrev has : String → GoMap → Bool
has key m = elim (find key m) [ none ↦ false | some _ ↦ true ]

abbrev is_nil : GoMap → Bool
is_nil none = true
is_nil (some m) = false

unfoldable pub validate_req_secrets : GoMap → Option Text
unfolding find value_at
validate_req_secrets secrets = do
  refuse_if (is_nil secrets) (codes "secrets must be provided")
  refuse_if (not (has Secret.realm_address secrets)) (codes "missing realm_ip in secrets")
  refuse_if (not (has Secret.username secrets)) (codes "missing user in secrets")
  refuse_if
      (str_eq (value_at Secret.password secrets) ""
        && str_eq (value_at Secret.private_key secrets) "")
      (codes
        "no valid authentication credentials provided in secrets, either password or public key is required")
  none
