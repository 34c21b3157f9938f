-- ===== src/Status/Client.antt =====
-- status/status.go: `Client.VerifyStatus`.
use vc_go.Prelude.{ℕ, Bool, false, List, [], ◌∷◌, none, some, if◌then◌else◌, Str, str_eq, codes}
use vc_go.Prelude.Int.{ℤ}
use vc_go.Status.Types.{
  Result, ok, err, panic, ◌>>=◌, ◌>>◌, null, text, other, field, Subject, Contents, Error,
  missing_status, issuer_mismatch, decode_failed, revoked, Validator,
}
use vc_go.Status.Bitstring.{Codec, decode, bit_at}

abbrev pub encoded_list : Str
encoded_list = codes "encodedList"

-- `Client`, with the functions of its two interfaces; the resolver returns the contents of the status
-- list credential that it fetches.
pub record Client : Type 0 where
  pub validator_getter : Str → Result Error Validator
  pub resolve : Str → Result Error Contents

unfoldable pub same_issuer : Contents → Contents → Bool
same_issuer list_vc vc = elim (list_vc.issuer) [
  | none ↦ false
  | some i ↦ elim (vc.issuer) [ none ↦ false | some j ↦ str_eq i.id j.id ]
]

-- `credSubject[0].CustomFields["encodedList"].(string)`
unfoldable pub encoded : List Subject → Result Error Str
encoded [] = panic
encoded (s ∷ ss) = elim (field s.custom_fields encoded_list) [
  | null ↦ panic
  | text t ↦ ok t
  | other ↦ panic
]

unfoldable pub decode_bits : Codec → Str → Result Error (List ℕ)
decode_bits codec src = elim (decode codec src) [ none ↦ err decode_failed | some bits ↦ ok bits ]

unfoldable pub check_list : Codec → Contents → Contents → ℤ → Result Error (Unit {0})
check_list codec vc list_vc index =
    if same_issuer list_vc vc
    then (encoded list_vc.subject >>= λ src. decode_bits codec src >>= λ bits.
        bit_at bits index >>= λ bit_set. if bit_set then err revoked else ok tt)
    else err issuer_mismatch

unfoldable pub verify_status : Codec → Client → Contents → Result Error (Unit {0})
verify_status codec c vc = elim (vc.status) [
  | none ↦ err missing_status
  | some status ↦ do
    validator ← c.validator_getter status.type
    validator.validate_status (some status)
    index ← validator.get_status_list_index status
    uri ← validator.get_status_vc_uri status
    list_vc ← c.resolve uri
    check_list codec vc list_vc index
]
