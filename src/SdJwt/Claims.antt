-- ===== src/SdJwt/Claims.antt =====
-- sdjwt/common/common.go: what is read of the claims of an SD-JWT.
use vc_go.Prelude.{
  Bool, false, ◌||◌, List, [], ◌∷◌, ◌++◌, Option, none, some, if◌then◌else◌, Str, codes, str_eq,
}
use vc_go.Prelude.Dicts.{lookup}
use vc_go.Requirement.Sets.{add_all}
use vc_go.SdJwt.Types.{
  Value, Items, Fields, null, text, array, object, nil, item, end, field, entries, sd_alg_missing,
  sd_alg_not_text, not_an_array, item_not_text, cnf_missing, cnf_not_object, alg_not_supported,
  Result, ok, err, ◌>>=◌, Hash, sha256, sha384, sha512,
}

abbrev pub sd_key : Str
sd_key = codes "_sd"

abbrev pub sd_algorithm_key : Str
sd_algorithm_key = codes "_sd_alg"

abbrev pub cnf_key : Str
cnf_key = codes "cnf"

abbrev pub array_element_digest_key : Str
array_element_digest_key = codes "..."

unfoldable pub get_key_from_vc : Str → Fields → Option Value
get_key_from_vc key claims = elim (lookup key (entries claims)) [
  | some v ↦ some v
  | none ↦ elim (lookup (codes "vc") (entries claims)) [
    | none ↦ none
    | some vc ↦ elim vc [ object fs ↦ lookup key (entries fs) | _ ↦ none ]
  ]
]

-- The value of the claims, or of the credential in them.
unfoldable pub get_claim : Str → Fields → Option Value
get_claim key claims = elim (lookup key (entries claims)) [
  | some v ↦ some v
  | none ↦ get_key_from_vc key claims
]

unfoldable pub get_sd_alg : Fields → Result Str
get_sd_alg claims = elim (get_claim sd_algorithm_key claims) [
  | none ↦ err sd_alg_missing
  | some v ↦ elim v [ text alg ↦ ok alg | _ ↦ err sd_alg_not_text ]
]

unfoldable pub get_cnf : Fields → Result Fields
get_cnf claims = elim (get_claim cnf_key claims) [
  | none ↦ err cnf_missing
  | some v ↦ elim v [ object cnf ↦ ok cnf | _ ↦ err cnf_not_object ]
]

-- `upper` is `strings.ToUpper`.
unfoldable pub parse_crypto_hash_alg : (Str → Str) → Str → Result Hash
parse_crypto_hash_alg upper sd_alg =
    let name = upper sd_alg in
    if str_eq name (codes "SHA-256")
    then ok sha256
    else if str_eq name (codes "SHA-384")
    then ok sha384
    else if str_eq name (codes "SHA-512")
    then ok sha512
    else err (alg_not_supported sd_alg)

-- `strings.ToLower(sdAlg.String())`; the other hashes, which are refused, are not in the type.
unfoldable pub format_crypto_hash_alg : Hash → Str
format_crypto_hash_alg sha256 = codes "sha-256"
format_crypto_hash_alg sha384 = codes "sha-384"
format_crypto_hash_alg sha512 = codes "sha-512"

unfoldable pub get_crypto_hash_from_claims : (Str → Str) → Fields → Result Hash
get_crypto_hash_from_claims upper claims =
    get_sd_alg claims >>= λ alg. parse_crypto_hash_alg upper alg

-- The loop of `stringArray`.
unfoldable pub texts_of : Items → Result (List Str)
texts_of nil = ok []
texts_of (item v vs) = elim v [ text s ↦ texts_of vs >>= λ ss. ok (s ∷ ss) | _ ↦ err item_not_text ]

unfoldable pub string_array : Value → Result (List Str)
string_array v = elim v [ null ↦ ok [] | array vs ↦ texts_of vs | _ ↦ err not_an_array ]

-- The digest of an object with the one key "...".
unfoldable pub single_digest : Value → Option Str
single_digest v = elim v [
  | object fs ↦ elim fs [
    | end ↦ none
    | field k w rest ↦ elim rest [
      | end ↦
          if str_eq k array_element_digest_key
          then elim w [ text digest ↦ some digest | _ ↦ none ]
          else none
      | field _ _ _ ↦ none
    ]
  ]
  | _ ↦ none
]

unfoldable pub single_digests : Items → List Str
single_digests nil = []
single_digests (item v vs) =
    let rest = single_digests vs in elim (single_digest v) [ none ↦ rest | some d ↦ d ∷ rest ]

unfoldable pub array_digests : Fields → List Str
array_digests end = []
array_digests (field k v fs) =
    let rest = array_digests fs in elim v [ array vs ↦ single_digests vs ++ rest | _ ↦ rest ]

-- The set of the digests, as the list of its keys.
unfoldable pub sd_digests : Fields → Result (List Str)
sd_digests claims = elim (lookup sd_key (entries claims)) [ none ↦ ok [] | some v ↦ string_array v ]

-- A set, as the list of its keys.
unfoldable pub slice_to_map : List Str → List Str
slice_to_map ids = add_all [] ids

unfoldable pub get_disclosure_digests : Fields → Result (List Str)
get_disclosure_digests claims =
    sd_digests claims >>= λ digests. ok (slice_to_map (digests ++ array_digests claims))

unfoldable pub key_exists_in_map : Str → Fields → Bool
key_exists_in_map key end = false
key_exists_in_map key (field k (object inner) fs) =
    let deep = key_exists_in_map key inner in
    let rest = key_exists_in_map key fs in str_eq k key || deep || rest
key_exists_in_map key (field k v fs) = let rest = key_exists_in_map key fs in str_eq k key || rest
