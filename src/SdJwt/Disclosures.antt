-- ===== src/SdJwt/Disclosures.antt =====
-- sdjwt/common/verification.go: the parsing of disclosures.
use vc_go.Prelude.{Bool, false, List, [], ◌∷◌, Option, none, some, if◌then◌else◌, length, Str}
use vc_go.Prelude.Dicts.{Dict, insert}
use vc_go.SdJwt.Types.{
  Value, null, text, object, Error, base64_failed, json_failed, disclosure_too_short, salt_not_text,
  name_not_text, hash_not_available, Result, ok, err, ◌>>=◌, Hash, v2, v5, unknown, array_element,
  object_or_text, DisclosureClaim,
}
use vc_go.SdJwt.Claims.{sd_key, key_exists_in_map}

-- What the disclosures rest on: `base64.RawURLEncoding`, the JSON decoder for an array, and the hash
-- functions that are linked in, with their sum in bytes.
pub record Codec : Type 0 where
  pub decode : Str → Option Str
  pub encode : Str → Str
  pub unmarshal : Str → Option (List Value)
  pub is_available : Hash → Bool
  pub sum : Hash → Str → Str

-- The value of an option, or the error.
abbrev pub require : {A : Type 0} → Error → Option A → Result A
require cause none = err cause
require cause (some a) = ok a

unfoldable pub text_of : Value → Option Str
text_of v = elim v [ text s ↦ some s | _ ↦ none ]

unfoldable pub enrich_with_array_element : DisclosureClaim → Value → DisclosureClaim
enrich_with_array_element claim v = record claim { value = v; type = array_element; version = v5 }

-- The version of a claim whose value is an object with digests in it.
unfoldable pub set_version : DisclosureClaim → Value → DisclosureClaim
set_version claim (object fs) =
    if key_exists_in_map sd_key fs then record claim { version = v5 } else claim
set_version claim v = claim

unfoldable pub enrich_with_sd_element : DisclosureClaim → Value → Value → Result DisclosureClaim
enrich_with_sd_element claim name v = require name_not_text (text_of name) >>= λ n.
    ok (set_version (record claim { name = n; value = v; type = object_or_text }) v)

-- The switch over the number of elements: another number than two or three leaves the claim.
unfoldable pub enrich : DisclosureClaim → List Value → Result DisclosureClaim
enrich claim (salt ∷ v ∷ []) = ok (enrich_with_array_element claim v)
enrich claim (salt ∷ name ∷ v ∷ []) = enrich_with_sd_element claim name v
enrich claim _ = ok claim

module _ (codec : Codec) where
  unfoldable pub get_hash : Hash → Str → Result Str
  get_hash hash value =
      if codec.is_available hash
      then ok (codec.encode (codec.sum hash value))
      else err hash_not_available

  -- The first element, where there are two at least.
  unfoldable pub salt_of : List Value → Result Str
  salt_of [] = err disclosure_too_short
  salt_of (salt ∷ []) = err disclosure_too_short
  salt_of (salt ∷ second ∷ rest) = require salt_not_text (text_of salt)

  unfoldable pub get_disclosure_claim : Str → Hash → Result DisclosureClaim
  get_disclosure_claim disclosure hash =
      require base64_failed (codec.decode disclosure) >>= λ decoded.
      require json_failed (codec.unmarshal decoded) >>= λ parts. salt_of parts >>= λ salt.
      get_hash hash disclosure >>= λ digest.
      enrich
        (record {
          digest = digest;
          disclosure = disclosure;
          salt = salt;
          elements = length parts;
          type = unknown;
          version = v2;
          name = [];
          value = null;
          is_value_parsed = false;
        })
        parts

  unfoldable pub collect_claims :
      List Str → Hash → Dict DisclosureClaim → Result (Dict DisclosureClaim)
  collect_claims [] hash wrapped = ok wrapped
  collect_claims (disclosure ∷ disclosures) hash wrapped =
      get_disclosure_claim disclosure hash >>= λ claim.
      collect_claims disclosures hash (insert claim.digest claim wrapped)

  -- `getDisclosureClaims`: the claims by their digests.
  unfoldable pub claims_by_digest : List Str → Hash → Result (Dict DisclosureClaim)
  claims_by_digest disclosures hash = collect_claims disclosures hash []
