-- ===== src/SdJwt/Builder.antt =====
-- sdjwt/issuer: the disclosures and digests of an SD-JWT by the builder of v2.go.
use vc_go.Prelude.{
  ℕ, zero, suc, Bool, true, false, List, [], ◌∷◌, ◌++◌, map, Option, if◌then◌else◌, Str,
}
use vc_go.Prelude.Dicts.{Dict, insert}
use vc_go.Requirement.Sets.{has}
use vc_go.SdJwt.Types.{
  Value, Fields, text, array, object, end, field, fields_of, items_of, salt_failed, marshal_failed,
  sd_key_present, Result, ok, err, ◌>>=◌, Hash,
}
use vc_go.SdJwt.Claims.{sd_key, key_exists_in_map}
use vc_go.SdJwt.Disclosures.{Codec, require, get_hash}

-- What the builder reads of `newOpts`; the salt function is in the generator.
pub record NewOpts : Type 0 where
  pub hash_alg : Hash
  pub add_decoy_digests : Bool
  pub structured_claims : Bool
  pub non_sd_claims_map : List Str

-- The sources of chance, with their state: salts, the number of decoys, and the order of digests; and
-- the JSON encoder for a disclosure.
pub record Generator (State : Type 0) : Type 0 where
  pub get_salt : State → Option (Str × State)
  pub decoy_count : State → ℕ × State
  pub shuffle : List Str → State → List Str × State
  pub marshal : List Value → Option Str

-- The fields of `DisclosureEntity` that the builder sets.
pub record DisclosureEntity : Type 0 where
  pub result : Str
  pub salt : Str

-- What the loop over the claims of an object has made so far.
pub record Level : Type 0 where
  pub nested : List DisclosureEntity
  pub own : List DisclosureEntity
  pub digests : Dict Value

abbrev pub empty_level : Level
empty_level = record { nested = []; own = []; digests = [] }

unfoldable pub path_of : Str → Str → Str
path_of [] key = key
path_of (c ∷ path) key = (c ∷ path) ++ b'.' ∷ key

module _ {State : Type 0} (codec : Codec) (gen : Generator State) (opts : NewOpts) where
  unfoldable pub create_disclosure : Str → Value → State → Result (DisclosureEntity × State)
  create_disclosure key value s = require salt_failed (gen.get_salt s) >>= λ (salt, t).
      require marshal_failed (gen.marshal (text salt ∷ text key ∷ value ∷ [])) >>= λ bytes.
      ok (record { result = codec.encode bytes; salt = [] }, t)

  unfoldable pub create_decoys : ℕ → State → Result (List DisclosureEntity × State)
  create_decoys zero s = ok ([], s)
  create_decoys (suc n) s = require salt_failed (gen.get_salt s) >>= λ (salt, t).
      create_decoys n t >>= λ (decoys, u). ok (record { result = salt; salt = salt } ∷ decoys, u)

  unfoldable pub create_decoy_disclosures : State → Result (List DisclosureEntity × State)
  create_decoy_disclosures s = elim (opts.add_decoy_digests) [
    | false ↦ ok ([], s)
    | true ↦ let (n, t) = gen.decoy_count s in create_decoys n t
  ]

  unfoldable pub create_digest : DisclosureEntity → Result Str
  create_digest disclosure = get_hash codec opts.hash_alg disclosure.result

  unfoldable pub hash_all : List DisclosureEntity → Result (List Str)
  hash_all [] = ok []
  hash_all (d ∷ ds) = create_digest d >>= λ digest. hash_all ds >>= λ digests. ok (digest ∷ digests)

  unfoldable pub create_digests : List DisclosureEntity → State → Result (List Str × State)
  create_digests ds s = hash_all ds >>= λ digests. ok (gen.shuffle digests s)

  -- A claim that is not taken apart: it is kept as it is, or disclosed.
  unfoldable pub create_leaf : Str → Str → Value → Level → State → Result (Level × State)
  create_leaf path key value level s = elim (has opts.non_sd_claims_map path) [
    | true ↦ ok (record level { digests = insert key value level.digests }, s)
    | false ↦ create_disclosure key value s >>= λ (d, t).
        ok (record level { own = level.own ++ d ∷ [] }, t)
  ]

  unfoldable pub close_level :
      Level → List DisclosureEntity → State → Result (List DisclosureEntity × Dict Value × State)
  close_level level decoys s = create_digests (level.own ++ decoys) s >>= λ (digests, t). ok (
    level.nested ++ level.own,
    insert sd_key (array (items_of (map text digests))) level.digests,
    t,
  )

  unfoldable mutual
    pub create_claims : Str → Fields → Level → State → Result (Level × State)
    create_claims path end level s = ok (level, s)
    create_claims path (field key value claims) level s =
        create_claim (path_of path key) key value level s >>= λ (made, t).
        create_claims path claims made t

    pub create_claim : Str → Str → Value → Level → State → Result (Level × State)
    create_claim path key (object claims) level s = elim (opts.structured_claims) [
      | true ↦ create_decoy_disclosures s >>= λ (decoys, s1).
          create_claims path claims empty_level s1 >>= λ (inner, s2).
          close_level inner decoys s2 >>= λ (ds, digests, t). ok (
            record level {
              nested = level.nested ++ ds;
              digests = insert key (object (fields_of digests)) level.digests;
            },
            t,
          )
      | false ↦ create_leaf path key (object claims) level s
    ]
    create_claim path key value level s = create_leaf path key value level s

  -- An object inside is treated the same way by `create_claim`.
  unfoldable pub create_disclosures_and_digests :
      Str → Fields → State → Result (List DisclosureEntity × Dict Value × State)
  create_disclosures_and_digests path claims s = create_decoy_disclosures s >>= λ (decoys, t).
      create_claims path claims empty_level t >>= λ (level, u). close_level level decoys u

  -- The check of `New`, and its disclosures with the claims that go into the payload.
  unfoldable pub create_sd_claims : Fields → State → Result (List Str × Fields × State)
  create_sd_claims claims s =
      if key_exists_in_map sd_key claims
      then err sd_key_present
      else (create_disclosures_and_digests [] claims s >>= λ (ds, digests, t).
          ok (map (λ d. d.result) ds, fields_of digests, t))
