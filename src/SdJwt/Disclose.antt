-- ===== src/SdJwt/Disclose.antt =====
-- sdjwt/common/verification.go: `discloseClaimValue`. It calls itself on the fields of an object, and on
-- the value of a disclosure whose digest it meets; the second kind of call takes fuel.
use vc_go.Prelude.{
  ℕ, zero, suc, Bool, true, false, ◌&&◌, ◌||◌, List, [], ◌∷◌, ◌++◌, map, Option, none, some,
  if◌then◌else◌, ◌==◌, Str, str_eq, length,
}
use vc_go.Prelude.Dicts.{Dict, lookup, insert}
use vc_go.Requirement.Sets.{has}
use vc_go.SdJwt.Types.{
  Value, Items, Fields, null, text, array, object, nil, item, end, field, entries, fields_of,
  items_of, invalid_array_struct, digest_repeated, wrong_disclosure, claim_exists, Result, ok, err,
  out_of_fuel, ◌>>=◌, DisclosureClaim, RecursiveData,
}
use vc_go.SdJwt.Claims.{sd_key, sd_algorithm_key, array_element_digest_key, string_array}
use vc_go.SdJwt.Disclosures.{require, text_of}

-- How the value of a claim is disclosed.
abbrev pub Disclosing : Type 0
Disclosing = Value → RecursiveData → Result (Value × RecursiveData)

-- What an object has under "...".
unfoldable pub array_element_digest : Value → Option Value
array_element_digest v = elim v [
  | object fs ↦ lookup array_element_digest_key (entries fs)
  | _ ↦ none
]

unfoldable pub add_nested : Str → RecursiveData → RecursiveData
add_nested digest s = record s { nested_sd = s.nested_sd ++ digest ∷ [] }

-- A digest is taken once.
unfoldable pub take_digest : Str → RecursiveData → Result RecursiveData
take_digest digest s =
    if has s.nested_sd digest then err (digest_repeated digest) else ok (add_nested digest s)

unfoldable pub is_null : Value → Bool
is_null v = elim v [ null ↦ true | _ ↦ false ]

unfoldable pub store_claim : Str → DisclosureClaim → RecursiveData → RecursiveData
store_claim key claim s = record s { disclosures = insert key claim s.disclosures }

unfoldable pub set_parsed : DisclosureClaim → Value → DisclosureClaim
set_parsed claim v = record claim { value = v; is_value_parsed = true }

module _ (go : Disclosing) where
  -- The claim behind the key, whose value after the call is returned.
  unfoldable pub set_disclosure_claim_value :
      Str → DisclosureClaim → RecursiveData → Result (Value × RecursiveData)
  set_disclosure_claim_value key claim s = elim (claim.is_value_parsed) [
    | true ↦ ok (claim.value, s)
    | false ↦ go claim.value s >>= λ (v, t). ok (v, store_claim key (set_parsed claim v) t)
  ]

  -- The claim of a digest must have as many elements as the place of the digest asks for.
  unfoldable pub disclose_claim :
      ℕ → Str → DisclosureClaim → RecursiveData → Result (Value × RecursiveData)
  disclose_claim elements digest claim s = elim (claim.elements == elements) [
    | false ↦ err (wrong_disclosure digest)
    | true ↦ set_disclosure_claim_value digest claim s
  ]

  -- The value that an element of an array leaves, none where it is dropped.
  unfoldable pub disclose_element :
      Value → Str → RecursiveData → Result (Option Value × RecursiveData)
  disclose_element v digest s = take_digest digest s >>= λ t. elim (lookup digest t.disclosures) [
    | none ↦ ok (if t.cleanup_digests_claims then none else some v, t)
    | some claim ↦ disclose_claim 2 digest claim t >>= λ (w, u). ok (some w, u)
  ]

  unfoldable pub disclose_item : Value → RecursiveData → Result (Option Value × RecursiveData)
  disclose_item v s = elim (array_element_digest v) [
    | none ↦ ok (some v, s)
    | some w ↦ require invalid_array_struct (text_of w) >>= λ digest. disclose_element v digest s
  ]

  unfoldable pub disclose_items : Items → RecursiveData → Result (List Value × RecursiveData)
  disclose_items nil s = ok ([], s)
  disclose_items (item v vs) s = disclose_item v s >>= λ (kept, t).
      disclose_items vs t >>= λ (ws, u). ok (elim kept [ none ↦ ws | some w ↦ w ∷ ws ], u)

  -- A claim under a name that is not taken.
  unfoldable pub add_claim : Str → Value → Dict Value → Result (Dict Value)
  add_claim name v new = elim (lookup name new) [
    | some _ ↦ err (claim_exists name)
    | none ↦ ok (insert name v new)
  ]

  -- The loop over the digests of an object: its new values, and the digests without a disclosure.
  unfoldable pub disclose_digests :
      List Str
      → Dict Value
      → List Str
      → RecursiveData
      → Result (Dict Value × List Str × RecursiveData)
  disclose_digests [] new missing s = ok (new, missing, s)
  disclose_digests (digest ∷ digests) new missing s = take_digest digest s >>= λ t.
      elim (lookup digest t.disclosures) [
        | none ↦ disclose_digests digests new (missing ++ digest ∷ []) t
        | some claim ↦ disclose_claim 3 digest claim t >>= λ (v, u).
            add_claim claim.name v new >>= λ added. disclose_digests digests added missing u
      ]

  unfoldable pub keep_missing : List Str → Dict Value → RecursiveData → Dict Value
  keep_missing [] new s = new
  keep_missing (digest ∷ digests) new s =
      if s.cleanup_digests_claims
      then new
      else insert sd_key (array (items_of (map text (digest ∷ digests)))) new

  unfoldable pub disclose_sd : Dict Value → RecursiveData → Result (Dict Value × RecursiveData)
  disclose_sd claims s = elim (lookup sd_key claims) [
    | none ↦ ok ([], s)
    | some v ↦ string_array v >>= λ digests.
        disclose_digests digests [] [] s >>= λ (new, missing, t). ok (keep_missing missing new t, t)
  ]

  -- The keys that the loop over the claims passes by.
  unfoldable pub is_skipped : Str → RecursiveData → Bool
  is_skipped k s = str_eq k sd_key || (str_eq k sd_algorithm_key && s.cleanup_digests_claims)

  -- A value that is nil is left out, but its name must be free as well.
  unfoldable pub add_value : Str → Value → Dict Value → Result (Dict Value)
  add_value k v new = add_claim k v new >>= λ added. ok (if is_null v then new else added)

  unfoldable pub array_of : List Value → Value
  array_of [] = null
  array_of (v ∷ vs) = array (items_of (v ∷ vs))

  unfoldable mutual
    pub disclose_value : Value → RecursiveData → Result (Value × RecursiveData)
    disclose_value (array vs) s = disclose_items vs s >>= λ (ws, t). ok (array_of ws, t)
    disclose_value (object fs) s = disclose_sd (entries fs) s >>= λ (new, t).
        disclose_fields fs new t >>= λ (all, u). ok (object (fields_of all), u)
    disclose_value v s = ok (v, s)

    pub disclose_fields : Fields → Dict Value → RecursiveData → Result (Dict Value × RecursiveData)
    disclose_fields end new s = ok (new, s)
    disclose_fields (field k v fs) new s = elim (is_skipped k s) [
      | true ↦ disclose_fields fs new s
      | false ↦
          disclose_value v s >>= λ (w, t). add_value k w new >>= λ added. disclose_fields fs added t
    ]

-- The value of each disclosure is opened with one unit of fuel less.
unfoldable pub disclose : ℕ → Disclosing
disclose zero = disclose_value (λ v s. out_of_fuel)
disclose (suc fuel) = disclose_value (disclose fuel)

-- `discloseClaimValue`
unfoldable pub disclose_claim_value : Disclosing
disclose_claim_value v s = disclose (length s.disclosures) v s
