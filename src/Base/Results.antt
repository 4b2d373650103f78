-- ===== src/Base/Results.antt =====
-- What a Go call ends in: a value, an error value, or a panic. An error is named for the text that
-- the source gives it; `external` is an error that a library returned.
use mathlib.Core.Logic.{◌⊎◌, inl, inr}
use mathlib.Core.Path.{◌≡◌, refl}
use mathlib.Core.Option.{Option, none, some}
use iothub.Base.Text.{Str}

pub data Error : Type 0 where
  malformed_connection_string blank_uri zero_duration blank_shared_access_key : Error
  token_not_supported credentials_required transport_required already_connected closed : Error
  blank_name nil_payload method_registered method_not_registered : Error
  malformed_topic malformed_direct_method_topic malformed_twin_topic no_rid many_values : Error
  not_connected invalid_qos request_failed timed_out : Error
  empty_device_id empty_method_name empty_payload no_symmetric_key unknown_ack : Error
  status_code_type bad_response mismatched_message_id value_type partition_ids_type : Error
  invalid_usage odd_arguments no_authentication expected_redirect not_implemented : Error
  hostname_required device_id_required no_connection_string unknown_transport bad_input : Error
  external : Str → Error

pub data Outcome {ℓ} (A : Type ℓ) : Type ℓ where
  ok : A → Outcome A
  fail : Error → Outcome A
  panic : Outcome A

infixl 5 ◌>>=◌
abbrev pub ◌>>=◌ {ℓ κ} : {A : Type ℓ} {B : Type κ} → Outcome A → (A → Outcome B) → Outcome B
panic >>= next = panic
fail e >>= next = fail e
ok value >>= next = next value

infixl 5 ◌>>◌
abbrev pub ◌>>◌ {κ} : {B : Type κ} → Outcome (Unit {0}) → Outcome B → Outcome B
first >> rest = first >>= λ _. rest

abbrev pub or_fail {ℓ} : {A : Type ℓ} → Option A → Error → Outcome A
or_fail none e = fail e
or_fail (some a) e = ok a

-- A chain that returned did so at each link.
pub >>=-eq-ok {ℓ κ} :
    {A : Type ℓ} {B : Type κ} (r : Outcome A) (next : A → Outcome B) {value : B}
    → (r >>= next) ≡ ok value
    → (a : A) × (r ≡ ok a) × (next a ≡ ok value)
>>=-eq-ok panic next h = cc
>>=-eq-ok (fail e) next h = cc
>>=-eq-ok (ok a) next h = (a, refl, h)

pub Outcome-cases {ℓ} :
    {A : Type ℓ} (r : Outcome A)
    → ((a : A) × (r ≡ ok a)) ⊎ ((e : Error) × (r ≡ fail e)) ⊎ (r ≡ panic)
Outcome-cases (ok a) = inl (a, refl)
Outcome-cases (fail e) = inr (inl (e, refl))
Outcome-cases panic = inr (inr refl)
