-- ===== src/Driver/Validators/Requests.antt =====
-- What the validators of requests, of secrets and of an existing volume let pass, stated without
-- the tests of pkg/driver/validators.go.
use panfs_container_storage.Base.{
  String, ◌≡◌, ◌≢◌, refl, ◌↔◌, ◌⊎◌, inl, inr, Bool, false, not, ◌&&◌, Option, none, some, List, [],
  ◌∷◌, arith, str_eq, eq_iff, is_empty, Option-cases,
}
use panfs_container_storage.Base.Texts.{Text}
use panfs_container_storage.Base.Int.{ℤ, pos, ◌≤ℤ◌, ltb_ℤ, eqb_ℤ}
use panfs_container_storage.Base.GoMap.{GoMap, find, value_at}
use panfs_container_storage.Utils.Context.Secret
use panfs_container_storage.Utils.Convert.{gb_to_bytes}
use panfs_container_storage.Utils.Parser.{Volume}
use panfs_container_storage.Driver.Csi.{
  CapacityRange, get_required_bytes, get_limit_bytes, VolumeCapability, CreateVolumeRequest,
}
use panfs_container_storage.Driver.Validators.{
  validate_volume_capacity, validate_create_volume_request, has, is_nil, validate_req_secrets,
}
use panfs_container_storage.Driver.Validators.Check.{refuse_if, both, refuse_if-eq-none}
use panfs_container_storage.Driver.Validators.Rules.{
  HasValidParameters, validate_volume_parameters_iff,
}

refused :
    {P : Type 0} (b : Bool) (message : Text) → (b ≡ false) ↔ P → (refuse_if b message ≡ none) ↔ P
refused b message h = let r = refuse_if-eq-none b message in (λ e. h.0 (r.0 e), λ p. r.1 (h.1 p))

name-test : (name : String) → (str_eq name "" ≡ false) ↔ (name ≢ "")
name-test name = ground (arith, eq_iff name "")

pub caps-test : (caps : List VolumeCapability) → (is_empty caps ≡ false) ↔ (caps ≢ [])
caps-test [] = (λ h. cc, λ h. absurd (h refl))
caps-test (c ∷ caps) = (λ h. cc, λ h. refl)

same-test : (b : Bool) → (b ≡ false) ↔ (b ≡ false)
same-test b = (λ h. h, λ h. h)

nonneg-test : (a : ℤ) → (ltb_ℤ a (pos 0) ≡ false) ↔ (pos 0 ≤ℤ a)
nonneg-test a = ground arith

order-test :
    (required limit : ℤ)
    → ((ltb_ℤ limit required && not (eqb_ℤ limit (pos 0))) ≡ false)
      ↔ ((limit ≡ pos 0) ⊎ (required ≤ℤ limit))
order-test required limit = ground arith

-- What a request must satisfy, apart from its parameters: a name, a capability, no content source,
-- and a range of sizes that are not negative, the limit at least the requirement if there is one.
pub record HasValidFields (req : CreateVolumeRequest) : Type 0 where
  pub named : req.name ≢ ""
  pub capable : req.volume_capabilities ≢ []
  pub no_source : req.has_content_source ≡ false
  pub required_nonneg : pos 0 ≤ℤ get_required_bytes req.capacity_range
  pub limit_nonneg : pos 0 ≤ℤ get_limit_bytes req.capacity_range
  pub ordered :
      (get_limit_bytes req.capacity_range ≡ pos 0)
      ⊎ (get_required_bytes req.capacity_range ≤ℤ get_limit_bytes req.capacity_range)

-- A create request passes exactly if its fields are valid and so are its parameters.
pub validate_create_volume_request_iff :
    (req : CreateVolumeRequest)
    → (validate_create_volume_request req ≡ none)
      ↔ (HasValidFields req × HasValidParameters req.parameters)
unfolding validate_create_volume_request
validate_create_volume_request_iff req =
    let (passed, passes) = both (refused (str_eq req.name "") _ (name-test req.name)) (
      both (refused (is_empty req.volume_capabilities) _ (caps-test req.volume_capabilities)) (
        both (refused req.has_content_source _ (same-test req.has_content_source)) (
          both (refused _ _ (nonneg-test (get_required_bytes req.capacity_range))) (
            both (refused _ _ (nonneg-test (get_limit_bytes req.capacity_range))) (
              both
                (refused _ _ (
                  order-test (get_required_bytes req.capacity_range)
                    (get_limit_bytes req.capacity_range)))
                (validate_volume_parameters_iff req.parameters)))))) in
    (
      λ e.
          let p = passed e in
          (
            record {
              named = p.0;
              capable = p.1.0;
              no_source = p.1.1.0;
              required_nonneg = p.1.1.1.0;
              limit_nonneg = p.1.1.1.1.0;
              ordered = p.1.1.1.1.1.0;
            },
            p.1.1.1.1.1.1,
          ),
      λ (f, ps). passes (
        f.named,
        (f.capable, (f.no_source, (f.required_nonneg, (f.limit_nonneg, (f.ordered, ps))))),
      ),
    )

nothing : ◌≡◌ {A = Option Text} none none ↔ Unit {0}
nothing = (λ _. tt, λ _. refl)

has-test :
    (key : String) (m : GoMap) → (not (has key m) ≡ false) ↔ ((v : String) × (find key m ≡ some v))
has-test key m = elim (Option-cases (find key m)) [
  | inl e ↦ (λ h. absurd (ground arith), λ (v, h). cc)
  | inr (v, e) ↦ (λ h. (v, e), λ h. ground arith)
]

credentials-test :
    (secret private_key : String)
    → ((str_eq secret "" && str_eq private_key "") ≡ false) ↔ ((secret ≢ "") ⊎ (private_key ≢ ""))
credentials-test secret private_key = ground (arith, eq_iff secret "", eq_iff private_key "")

is_nil_of_found : (key v : String) (m : GoMap) → find key m ≡ some v → is_nil m ≡ false
unfolding find
is_nil_of_found key v none h = cc
is_nil_of_found key v (some m) h = refl

-- The secrets name a realm and a user, and the password or the private key is not empty.
abbrev pub HasValidSecrets : GoMap → Type 0
HasValidSecrets secrets =
    (realm : String) × (find Secret.realm_address secrets ≡ some realm)
    × (user : String) × (find Secret.username secrets ≡ some user)
    × ((value_at Secret.password secrets ≢ "") ⊎ (value_at Secret.private_key secrets ≢ ""))

-- Secrets pass exactly if the map is not nil, it names a realm and a user, and the password or the
-- private key is not empty.
pub validate_req_secrets_iff :
    (secrets : GoMap) → (validate_req_secrets secrets ≡ none) ↔ HasValidSecrets secrets
unfolding validate_req_secrets
validate_req_secrets_iff secrets =
    let (passed, passes) = both (refused (is_nil secrets) _ (same-test (is_nil secrets))) (
      both (refused _ _ (has-test Secret.realm_address secrets)) (
        both (refused _ _ (has-test Secret.username secrets)) (
          both
            (refused _ _ (
              credentials-test (value_at Secret.password secrets)
                (value_at Secret.private_key secrets)))
            nothing))) in
    (
      λ e. let p = passed e in (p.1.0.0, p.1.0.1, p.1.1.0.0, p.1.1.0.1, p.1.1.1.0),
      λ (realm, r, user, u, c). passes (
        is_nil_of_found Secret.realm_address realm secrets r,
        ((realm, r), ((user, u), (c, tt))),
      ),
    )

required-test :
    (required soft : ℤ)
    → ((not (eqb_ℤ required (pos 0)) && ltb_ℤ soft required) ≡ false)
      ↔ ((required ≡ pos 0) ⊎ (required ≤ℤ soft))
required-test required soft = ground arith

limit-test :
    (limit hard : ℤ)
    → ((not (eqb_ℤ limit (pos 0)) && not (eqb_ℤ limit hard)) ≡ false)
      ↔ ((limit ≡ pos 0) ⊎ (limit ≡ hard))
limit-test limit hard = ground arith

-- An existing volume fits a range of sizes.
abbrev pub Fits : Option CapacityRange → Volume → Type 0
Fits range vol =
    ((get_required_bytes range ≡ pos 0) ⊎ (get_required_bytes range ≤ℤ gb_to_bytes vol.soft))
    × ((get_limit_bytes range ≡ pos 0) ⊎ (get_limit_bytes range ≡ gb_to_bytes vol.hard))

-- An existing volume fits a range exactly if the required size is 0 or within the soft quota, and
-- the limit is 0 or equal to the hard quota.
pub validate_volume_capacity_iff :
    (range : Option CapacityRange) (vol : Volume)
    → (validate_volume_capacity range vol ≡ none) ↔ Fits range vol
unfolding validate_volume_capacity
validate_volume_capacity_iff range vol =
    let (passed, passes) =
      both (refused _ _ (required-test (get_required_bytes range) (gb_to_bytes vol.soft)))
        (both (refused _ _ (limit-test (get_limit_bytes range) (gb_to_bytes vol.hard))) nothing) in
    (λ e. ((passed e).0, (passed e).1.0), λ (r, l). passes (r, (l, tt)))
