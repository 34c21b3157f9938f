-- ===== src/Status/Verdict.antt =====
-- What the verdicts of `VerifyStatus` mean.
use vc_go.Prelude.{
  ℕ, ◌≡◌, refl, ◌↔◌, inl, inr, Bool, true, false, List, some, Bool-cases, Option-cases,
  if◌then◌else◌, Str,
}
use mathlib.Core.Path.{subst}
use vc_go.Prelude.Int.{ℤ}
use vc_go.Status.Types.{
  Result, ok, err, panic, ◌>>=◌, ◌>>◌, other, field, TypedId, Contents, Error, revoked, Validator,
}
use vc_go.Status.Bitstring.{Codec, bit_at}
use vc_go.Status.StatusList.{
  status_list_index, status_list_validator, get_status_list_index, validate_status,
}
use vc_go.Status.Client.{Client, same_issuer, encoded, decode_bits, check_list, verify_status}

-- The value that a first step hands to the next one.
abbrev pub Passes : {E A B : Type 0} → Result E A → (A → Result E B) → B → Type 0
Passes {A} first next b = (value : A) × (first ≡ ok value) × (next value ≡ ok b)

pub >>=-Passes :
    {E A B : Type 0} (first : Result E A) (next : A → Result E B) {b : B}
    → (first >>= next) ≡ ok b
    → Passes first next b
>>=-Passes panic next bound = cc
>>=-Passes (err cause) next bound = cc
>>=-Passes (ok value) next bound = (value, refl, bound)

>>-eq-ok :
    {E B : Type 0} (m : Result E (Unit {0})) (k : Result E B) {b : B}
    → (m >> k) ≡ ok b
    → (m ≡ ok tt) × (k ≡ ok b)
>>-eq-ok (ok tt) k h = (refl, h)
>>-eq-ok (err e) k h = cc
>>-eq-ok panic k h = cc

-- Everything that a verdict rests on: the credential's status entry is valid for its validator, the
-- status list credential that it names is fetched, the two have one issuer, and the bit at the
-- entry's index in the decoded list is `bit`.
pub record Evidence (codec : Codec) (c : Client) (vc : Contents) (bit : Bool) : Type 0 where
  pub status : TypedId
  pub validator : Validator
  pub index : ℤ
  pub uri : Str
  pub list_vc : Contents
  pub src : Str
  pub bits : List ℕ
  pub has_status : vc.status ≡ some status
  pub has_validator : c.validator_getter status.type ≡ ok validator
  pub is_valid : validator.validate_status (some status) ≡ ok tt
  pub has_index : validator.get_status_list_index status ≡ ok index
  pub has_uri : validator.get_status_vc_uri status ≡ ok uri
  pub fetched : c.resolve uri ≡ ok list_vc
  pub issued : same_issuer list_vc vc ≡ true
  pub has_list : encoded list_vc.subject ≡ ok src
  pub decoded : decode_bits codec src ≡ ok bits
  pub has_bit : bit_at bits index ≡ ok bit

module _ (codec : Codec) (c : Client) (vc : Contents) where
  -- With the evidence at hand the verdict follows the bit.
  verify_status-Evidence :
      (bit : Bool)
      → Evidence codec c vc bit
      → verify_status codec c vc ≡ (if bit then err revoked else ok tt)
  unfolding verify_status check_list same_issuer
  verify_status-Evidence bit e = rw (
    e.has_status, e.has_validator, e.is_valid, e.has_index, e.has_uri, e.fetched, e.issued,
    e.has_list, e.decoded, e.has_bit,
  )

pub verdict-ok :
    (bit : Bool) {r : Result Error (Unit {0})}
    → r ≡ ok tt
    → (if bit then err revoked else ok tt) ≡ r
    → bit ≡ false
verdict-ok true e h = cc
verdict-ok false e h = refl

-- What a check against a fetched list has gone through when it finds nothing wrong.
pub record Checked (codec : Codec) (vc list_vc : Contents) (index : ℤ) : Type 0 where
  pub issued : same_issuer list_vc vc ≡ true
  pub src : Str
  pub has_list : encoded list_vc.subject ≡ ok src
  pub bits : List ℕ
  pub decoded : decode_bits codec src ≡ ok bits
  pub has_bit : bit_at bits index ≡ ok false

module _ (codec : Codec) (c : Client) (vc : Contents) where
  check_list-Checked :
      (list_vc : Contents) (index : ℤ)
      → check_list codec vc list_vc index ≡ ok tt
      → Checked codec vc list_vc index
  unfolding check_list same_issuer
  check_list-Checked list_vc index h = elim (Bool-cases (same_issuer list_vc vc)) [
    | inl same ↦
        let list = >>=-Passes (encoded list_vc.subject) _ (rw same at h) in
        let bits = >>=-Passes (decode_bits codec list.0) _ list.2 in
        let bit = >>=-Passes (bit_at bits.0 index) _ bits.2 in
        record {
          issued = same;
          src = list.0;
          has_list = list.1;
          bits = bits.0;
          decoded = bits.1;
          has_bit = subst (λ b. bit_at bits.0 index ≡ ok b) (verdict-ok bit.0 refl bit.2) bit.1;
        }
    | inr differ ↦ let bad = rw differ at h in cc
  ]

  -- A credential is found not revoked only on evidence of a bit that is not set.
  ok-Evidence : verify_status codec c vc ≡ ok tt → Evidence codec c vc false
  unfolding verify_status check_list same_issuer
  ok-Evidence h = elim (Option-cases vc.status) [
    | inl missing ↦ let bad = rw missing at h in cc
    | inr (status, has) ↦
        let v = >>=-Passes (c.validator_getter status.type) _ (rw has at h) in
        let valid = >>-eq-ok (v.0.validate_status (some status)) _ v.2 in
        let index = >>=-Passes (v.0.get_status_list_index status) _ valid.1 in
        let uri = >>=-Passes (v.0.get_status_vc_uri status) _ index.2 in
        let list_vc = >>=-Passes (c.resolve uri.0) _ uri.2 in
        let checked = check_list-Checked list_vc.0 index.0 list_vc.2 in
        record {
          status = status;
          validator = v.0;
          index = index.0;
          uri = uri.0;
          list_vc = list_vc.0;
          src = checked.src;
          bits = checked.bits;
          has_status = has;
          has_validator = v.1;
          is_valid = valid.0;
          has_index = index.1;
          has_uri = uri.1;
          fetched = list_vc.1;
          issued = checked.issued;
          has_list = checked.has_list;
          decoded = checked.decoded;
          has_bit = checked.has_bit;
        }
  ]

  -- `VerifyStatus` returns no error exactly when there is evidence of a bit that is not set: a valid
  -- status entry, a fetched list of the same issuer, and a clear bit at the entry's index.
  pub verify_status-ok_iff : (verify_status codec c vc ≡ ok tt) ↔ Evidence codec c vc false
  verify_status-ok_iff = (ok-Evidence, verify_status-Evidence codec c vc false)

  get_status_list_index-panic :
      (status : TypedId)
      → field status.custom_fields status_list_index ≡ other
      → get_status_list_index status ≡ panic
  unfolding get_status_list_index
  get_status_list_index-panic status index = rw (get_status_list_index, index)

  validator-panic :
      (status : TypedId)
      → field status.custom_fields status_list_index ≡ other
      → status_list_validator.get_status_list_index status ≡ panic
  validator-panic = get_status_list_index-panic

  -- A status list entry that `ValidateStatus` accepts makes `VerifyStatus` panic when its
  -- statusListIndex is present and is not a string.
  pub verify_status-panic :
      (status : TypedId)
      → vc.status ≡ some status
      → c.validator_getter status.type ≡ ok status_list_validator
      → validate_status (some status) ≡ ok tt
      → field status.custom_fields status_list_index ≡ other
      → verify_status codec c vc ≡ panic
  unfolding verify_status check_list same_issuer
  verify_status-panic status has getter valid index =
      rw (has, getter, valid, validator-panic status index)
