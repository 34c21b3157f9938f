-- ===== src/Status/StatusList.antt =====
-- status/validator/statuslist2021/statuslist2021.go and status/validator/validator.go: the validator
-- for entries of the type StatusList2021Entry.
use vc_go.Prelude.{
  ℕ, ◌+◌, ◌-◌, ◌*◌, ◌^◌, ◌&&◌, List, [], ◌∷◌, Option, none, some, if◌then◌else◌, leb, ◌==◌, Str,
  codes, str_eq,
}
use vc_go.Prelude.Int.{ℤ, pos, negsuc}
use vc_go.Status.Types.{
  Result, ok, err, panic, ◌>>◌, null, text, other, field, TypedId, Error, missing_status,
  status_not_supported, unsupported_type, missing_field, bad_uri, bad_index, Validator,
}

abbrev pub status_list_2021_type : Str
status_list_2021_type = codes "StatusList2021Entry"

abbrev pub status_list_credential : Str
status_list_credential = codes "statusListCredential"

abbrev pub status_list_index : Str
status_list_index = codes "statusListIndex"

abbrev pub status_purpose : Str
status_purpose = codes "statusPurpose"

unfoldable pub is_missing_field : TypedId → Str → Result Error (Unit {0})
is_missing_field vc_status name = elim (field vc_status.custom_fields name) [
  | null ↦ err (missing_field name)
  | text s ↦ ok tt
  | other ↦ ok tt
]

unfoldable pub check_fields : TypedId → List Str → Result Error (Unit {0})
check_fields vc_status [] = ok tt
check_fields vc_status (name ∷ names) =
    is_missing_field vc_status name >> check_fields vc_status names

unfoldable pub validate_status : Option TypedId → Result Error (Unit {0})
validate_status none = err missing_status
validate_status (some vc_status) =
    if str_eq vc_status.type status_list_2021_type
    then check_fields vc_status (status_list_credential ∷ status_list_index ∷ status_purpose ∷ [])
    else err status_not_supported

unfoldable pub get_status_vc_uri : TypedId → Result Error Str
get_status_vc_uri vc_status = elim (field vc_status.custom_fields status_list_credential) [
  | null ↦ err bad_uri
  | text s ↦ ok s
  | other ↦ err bad_uri
]

-- `strconv.Atoi` on a 64-bit platform: an optional sign, then decimal digits, in range.
unfoldable pub digits : Str → ℕ → Option ℕ
digits [] acc = some acc
digits (c ∷ s) acc =
    let rest = digits s (acc * 10 + (c - b'0')) in if leb b'0' c && leb c b'9' then rest else none

unfoldable pub some_digits : Str → Option ℕ
some_digits [] = none
some_digits (c ∷ s) = digits (c ∷ s) 0

abbrev pub max_int : ℕ
max_int = 2 ^ 63 - 1

-- The integer -n.
unfoldable pub negative : ℕ → ℤ
negative n = if n == 0 then pos 0 else negsuc (n - 1)

unfoldable pub atoi : Str → Option ℤ
atoi [] = none
atoi (c ∷ s) =
    if c == b'-'
    then elim (some_digits s) [
      | none ↦ none
      | some n ↦ if leb n (max_int + 1) then some (negative n) else none
    ]
    else elim (some_digits (if c == b'+' then s else c ∷ s)) [
      | none ↦ none
      | some n ↦ if leb n max_int then some (pos n) else none
    ]

-- The type assertion to a string panics on any other value.
unfoldable pub get_status_list_index : TypedId → Result Error ℤ
get_status_list_index vc_status = elim (field vc_status.custom_fields status_list_index) [
  | null ↦ panic
  | text s ↦ elim (atoi s) [ none ↦ err bad_index | some i ↦ ok i ]
  | other ↦ panic
]

abbrev pub status_list_validator : Validator
status_list_validator = record {
  validate_status = validate_status;
  get_status_vc_uri = get_status_vc_uri;
  get_status_list_index = get_status_list_index;
}

unfoldable pub get_validator : Str → Result Error Validator
get_validator status_type =
    if str_eq status_type status_list_2021_type
    then ok status_list_validator
    else err unsupported_type
