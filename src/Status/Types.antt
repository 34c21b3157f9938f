-- ===== src/Status/Types.antt =====
-- status/api/api.go and what the status client reads of a credential (verifiable): results that may
-- panic, the values of custom fields, and the interface of a validator.
use vc_go.Prelude.{List, Option, none, some, Str}
use vc_go.Prelude.Int.{ℤ}
use vc_go.Prelude.Dicts.{Dict, lookup}

-- What a Go call ends with: a value, an error, or a panic.
pub data Result (E A : Type 0) : Type 0 where
  ok : A → Result E A
  err : E → Result E A
  panic : Result E A

infixl 5 ◌>>=◌
abbrev pub ◌>>=◌ : {E A B : Type 0} → Result E A → (A → Result E B) → Result E B
panic >>= next = panic
err cause >>= next = err cause
ok value >>= next = next value

infixl 5 ◌>>◌
abbrev pub ◌>>◌ : {E B : Type 0} → Result E (Unit {0}) → Result E B → Result E B
checked >> after = checked >>= λ _. after

-- A decoded JSON value, as far as the status code tells values apart.
pub data Value : Type 0 where
  null : Value
  text : Str → Value
  other : Value

-- `fields[name]`: nil where the name is missing.
unfoldable pub field : Dict Value → Str → Value
field fields name = elim (lookup name fields) [ none ↦ null | some v ↦ v ]

pub record TypedId : Type 0 where
  pub id : Str
  pub type : Str
  pub custom_fields : Dict Value

pub record Issuer : Type 0 where
  pub id : Str

pub record Subject : Type 0 where
  pub id : Str
  pub custom_fields : Dict Value

-- `CredentialContents`: the fields that the status client reads.
pub record Contents : Type 0 where
  pub status : Option TypedId
  pub issuer : Option Issuer
  pub subject : List Subject

-- The errors of the status packages; `external` is one of a function that the client calls.
pub data Error : Type 0 where
  missing_status status_not_supported unsupported_type bad_uri bad_index : Error
  missing_field : Str → Error
  position_invalid issuer_mismatch decode_failed revoked : Error
  external : Error

-- The interface `api.Validator`.
pub record Validator : Type 0 where
  pub validate_status : Option TypedId → Result Error (Unit {0})
  pub get_status_vc_uri : TypedId → Result Error Str
  pub get_status_list_index : TypedId → Result Error ℤ
