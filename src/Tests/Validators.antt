-- ===== src/Tests/Validators.antt =====
-- The validators and the conversions.
use panfs_container_storage.Base.{
  none, ℕ, false, ◌<>◌, ◌≡◌, ◌<◌, ◌≤◌, ◌*◌, ◌+◌, ◌^◌, ◌%◌, ◌↔◌, true, arith,
}
use panfs_container_storage.Base.Int.{ℤ, pos, signed}
use panfs_container_storage.Base.Decimal.{format_ℕ}
use panfs_container_storage.Utils.Convert.{bytes_to_gb, gb_to_bytes, hundredths}
use panfs_container_storage.Utils.Convert.Range.{gb_to_bytes-near}
use panfs_container_storage.Utils.Convert.Decimals.{hundredths-near}
use panfs_container_storage.Driver.Validators.{validate_create_volume_request}
use panfs_container_storage.Driver.Validators.Rules.{HasValidParameters}
use panfs_container_storage.Driver.Validators.Requests.{
  HasValidFields, validate_create_volume_request_iff,
}
use panfs_container_storage.Tests.Inputs.{pvc}
use panfs_container_storage.Driver.Validators.StripeUnit.{validate_stripe_unit}
use panfs_container_storage.Driver.Validators.StripeUnit.Overflow.{megabytes_iff}

validate_create_volume_request_iff_example :
    (validate_create_volume_request pvc ≡ none)
    ↔ (HasValidFields pvc × HasValidParameters pvc.parameters)
validate_create_volume_request_iff_example = validate_create_volume_request_iff pvc

megabytes_iff_example :
    (validate_stripe_unit (format_ℕ 18014398509481985 <> "M") ≡ true)
    ↔ ((0 < 18014398509481985 % 2 ^ 54) × (18014398509481985 % 2 ^ 54 ≤ 4))
megabytes_iff_example = megabytes_iff 18014398509481985 (omega arith) (omega arith)

hundredths-near_example :
    (2 * (hundredths (bytes_to_gb (pos 1073741825)) * 2 ^ 30) ≤ 2 * (1073741825 * 100) + 2 ^ 30)
    × (2 * (1073741825 * 100) ≤ 2 * (hundredths (bytes_to_gb (pos 1073741825)) * 2 ^ 30) + 2 ^ 30)
hundredths-near_example = hundredths-near 1073741825 (omega arith)

-- A size that does not fit into 53 bits.
abbrev large : ℤ
large = pos (2 ^ 62 + 1)

gb_to_bytes-near_example :
    (m : ℕ) × (gb_to_bytes (bytes_to_gb large) ≡ signed false m)
    × (m ≤ 2 ^ 62 + 1 + 512)
    × (2 ^ 62 + 1 ≤ m + 512)
gb_to_bytes-near_example = gb_to_bytes-near large (omega arith)
