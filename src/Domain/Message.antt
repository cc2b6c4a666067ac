-- ===== src/Domain/Message.antt =====
-- Formatted text (`fmt.Sprintf`, `fmt.Errorf`) and the sentinel errors of
-- internal/core/domain/errors.go. A formatted text is its format and its arguments; how the
-- arguments are rendered is the library's business.
use dependency_firewall.Base.{
  Bool, Float64, List, Option, String, [], false, if◌then◌else◌, inl, inr, none, refl, some, true,
  ℤ, ◌<>◌, ◌≡◌, ◌⊎◌,
}

pub data Arg : Type 0 where
  text : String → Arg
  int : ℤ → Arg
  float : Float64 → Arg

pub record Message : Type 0 where
  pub format : String
  pub args : List Arg

abbrev pub plain : String → Message
plain s = record { format = s; args = [] }

abbrev pub no_message : Message
no_message = plain ""

-- The sentinels that callers look for with `errors.Is`.
pub data Sentinel : Type 0 where
  tenant_not_found tenant_name_conflict policy_not_found policy_name_conflict : Sentinel
  policy_version_not_found policy_delete_enabled policy_in_use deprecated_policy_config : Sentinel
  unsupported_policy_schema_version invalid_policy policy_violation : Sentinel
  policy_upstream_incompatible upstream_not_found upstream_name_conflict : Sentinel
  upstream_registry_conflict upstream_in_use unsupported_upstream_capability : Sentinel
  upstream_policy_conflict upstream_auth_invalid upstream_auth_key_unavailable : Sentinel
  upstream_auth_transport_insecure upstream_unavailable enrichment_failed : Sentinel
  audit_unavailable bundle_unavailable artifact_not_found invalid_artifact_ref : Sentinel
  cache_miss unauthorized : Sentinel

-- An error value: the sentinel that it wraps, if any, and its own text.
pub record Error : Type 0 where
  pub sentinel : Option Sentinel
  pub message : Message

-- fmt.Errorf("%w: ...", sentinel, ...)
abbrev pub wrap : Sentinel → Message → Error
wrap s m = record { sentinel = some s; message = m }

-- fmt.Errorf("...", ...)
abbrev pub errorf : Message → Error
errorf m = record { sentinel = none; message = m }

-- fmt.Errorf("what: %w", e)
abbrev pub annotate : String → Error → Error
annotate what e = record e {
  message = record e.message { format = (what <> ": ") <> e.message.format };
}

abbrev pub is_deprecated : Error → Bool
is_deprecated e = elim e.sentinel [
  | none ↦ false
  | some s ↦ elim s [ deprecated_policy_config ↦ true | _ ↦ false ]
]

abbrev pub is_cache_miss : Error → Bool
is_cache_miss e = elim e.sentinel [
  | none ↦ false
  | some s ↦ elim s [ cache_miss ↦ true | _ ↦ false ]
]

-- What a fallible function returns.
pub data Result {ℓ} (A : Type ℓ) : Type ℓ where
  err : Error → Result A
  ok : A → Result A

-- `if err != nil { return err }`, and the code that follows it with the value
infixl 5 ◌>>=◌ ◌>>◌
abbrev pub ◌>>=◌ {ℓ κ} : {X : Type ℓ} {Y : Type κ} → Result X → (X → Result Y) → Result Y
r >>= continuation = elim r [ err e ↦ err e | ok x ↦ continuation x ]

abbrev pub ◌>>◌ {κ} : {Y : Type κ} → Result (Unit {0}) → Result Y → Result Y
check >> next = elim check [ err e ↦ err e | ok _ ↦ next ]

-- `if !test { return ..., e }`
abbrev pub require : Bool → Error → Result (Unit {0})
require test e = if test then ok tt else err e

module _ {ℓ κ} {X : Type ℓ} {Y : Type κ} (continuation : X → Result Y) where
  -- Code that succeeds has succeeded up to each of its points.
  pub >>=-eq-ok :
      (r : Result X) (y : Y)
      → (r >>= continuation) ≡ ok y
      → (x : X) × (r ≡ ok x) × (continuation x ≡ ok y)
  >>=-eq-ok (err e) y h = cc
  >>=-eq-ok (ok x) y h = (x, refl, h)

pub Result-cases {ℓ} :
    {X : Type ℓ} (r : Result X) → ((x : X) × (r ≡ ok x)) ⊎ ((e : Error) × (r ≡ err e))
Result-cases (ok x) = inl (x, refl)
Result-cases (err e) = inr (e, refl)

abbrev pub is_ok {ℓ} : {X : Type ℓ} → Result X → Bool
is_ok (ok x) = true
is_ok (err e) = false

pub is_ok-value {ℓ} : {X : Type ℓ} (r : Result X) → is_ok r ≡ true → (x : X) × (r ≡ ok x)
is_ok-value (ok x) h = (x, refl)
is_ok-value (err e) h = cc
