-- ===== src/SdJwt/Types.antt =====
-- sdjwt/common: decoded JSON, disclosures, errors, and the data of a traversal (types.go).
use vc_go.Prelude.{ℕ, Bool, List, [], ◌∷◌, Str}
use vc_go.Prelude.Dicts.{Dict}

-- A decoded JSON value; `number` stands for numbers and Booleans, which the code does not look into.
mutual
  pub data Value : Type 0 where
    null : Value
    number : ℕ → Value
    text : Str → Value
    array : Items → Value
    object : Fields → Value

  pub data Items : Type 0 where
    nil : Items
    item : Value → Items → Items

  pub data Fields : Type 0 where
    end : Fields
    field : Str → Value → Fields → Fields

unfoldable pub entries : Fields → Dict Value
entries end = []
entries (field k v fs) = (k, v) ∷ entries fs

unfoldable pub fields_of : Dict Value → Fields
fields_of [] = end
fields_of ((k, v) ∷ m) = field k v (fields_of m)

unfoldable pub items_of : List Value → Items
items_of [] = nil
items_of (v ∷ vs) = item v (items_of vs)

pub data Error : Type 0 where
  sd_alg_missing sd_alg_not_text not_an_array item_not_text invalid_array_struct : Error
  cnf_missing cnf_not_object : Error
  alg_not_supported : Str → Error
  digest_repeated wrong_disclosure claim_exists digest_not_found : Str → Error
  hash_not_available base64_failed json_failed disclosure_too_short salt_not_text name_not_text :
      Error
  jwt_invalid times_invalid holder_required jwk_missing jwk_invalid holder_jwt_invalid : Error
  holder_proof_invalid binding_invalid nonce_mismatch audience_mismatch : Error
  salt_failed marshal_failed sd_key_present : Error
  unexpected_key_binding no_disclosures binding_failed : Error
  disclosure_not_found : Str → Error
  alg_missing alg_none typ_missing unexpected_output : Error
  alg_not_allowed unexpected_typ : Str → Error
  duplicate_values : List Str → Error

-- `out_of_fuel` is for the model's recursion alone.
pub data Result (A : Type 0) : Type 0 where
  ok : A → Result A
  err : Error → Result A
  out_of_fuel : Result A

infixl 5 ◌>>=◌
abbrev pub ◌>>=◌ : {A B : Type 0} → Result A → (A → Result B) → Result B
err cause >>= next = err cause
out_of_fuel >>= next = out_of_fuel
ok value >>= next = next value

-- `crypto.Hash`, as far as the code takes it.
pub data Hash : Type 0 where
  sha256 sha384 sha512 : Hash

pub data Version : Type 0 where
  v2 v5 : Version

-- The constants for an object and for plain text are the same number.
pub data ClaimType : Type 0 where
  unknown array_element object_or_text : ClaimType

pub record DisclosureClaim : Type 0 where
  pub digest : Str
  pub disclosure : Str
  pub salt : Str
  pub elements : ℕ
  pub type : ClaimType
  pub version : Version
  pub name : Str
  pub value : Value
  pub is_value_parsed : Bool

-- `recursiveData`; the claims stand behind pointers, so a change of one is a change of the map.
pub record RecursiveData : Type 0 where
  pub disclosures : Dict DisclosureClaim
  pub nested_sd : List Str
  pub cleanup_digests_claims : Bool
