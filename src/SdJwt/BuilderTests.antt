-- ===== src/SdJwt/BuilderTests.antt =====
-- Concrete runs of the builder of sdjwt/issuer/v2.go.
use vc_go.Prelude.{
  ℕ, suc, ◌≡◌, refl, true, List, [], ◌∷◌, ◌++◌, Option, none, some, codes, Str, str_eq,
}
use vc_go.Prelude.Dicts.{lookup, insert}
use vc_go.Requirement.Sets.{has}
use vc_go.SdJwt.Types.{
  Value, Fields, text, array, object, nil, item, end, field, fields_of, items_of, ok, sha256,
}
use vc_go.SdJwt.Claims.{key_exists_in_map}
use vc_go.SdJwt.Disclosures.{Codec, get_hash}
use vc_go.SdJwt.Builder.{
  NewOpts, Generator, path_of, create_disclosure, create_decoys, create_decoy_disclosures,
  create_digest, hash_all, create_digests, create_leaf, close_level, create_claims,
  create_disclosures_and_digests, create_sd_claims,
}

program : Unit {0}
unfolding str_eq lookup insert has fields_of items_of key_exists_in_map get_hash path_of
    create_disclosure create_decoys create_decoy_disclosures create_digest hash_all create_digests
    create_leaf close_level create_claims create_disclosures_and_digests create_sd_claims
program = tt

-- A disclosure is encoded as its salt and its name.
abbrev marshal : List Value → Option Str
marshal (text salt ∷ text key ∷ value ∷ []) = some (salt ++ key)
marshal _ = none

abbrev codec : Codec
codec = record {
  decode = λ s. some s;
  encode = λ s. s;
  unmarshal = λ s. none;
  is_available = λ h. true;
  sum = λ h s. s;
}

-- The salts are counted, there is one decoy at each level, and the digests keep their order.
abbrev generator : Generator ℕ
generator = record {
  get_salt = λ n. some (n ∷ [], suc n);
  decoy_count = λ n. (1, n);
  shuffle = λ digests n. (digests, n);
  marshal = marshal;
}

abbrev opts : NewOpts
opts = record {
  hash_alg = sha256;
  add_decoy_digests = true;
  structured_claims = true;
  non_sd_claims_map = codes "degree.type" ∷ [];
}

abbrev claims : Fields
claims =
    field (codes "degree")
      (object
        (field (codes "type") (text (codes "BSc")) (field (codes "name") (text (codes "MIT")) end)))
      (field (codes "id") (text (codes "did:a")) end)

-- The decoys are among the digests and not among the disclosures.
built :
    create_sd_claims codec generator opts claims 0
    ≡ ok (
      (2 ∷ codes "name") ∷ (3 ∷ codes "id") ∷ [],
      field
          (codes "degree")
          (object (
            field (codes "type") (text (codes "BSc")) (
              field
                (codes "_sd")
                (array (item (text (2 ∷ codes "name")) (item (text (1 ∷ [])) nil)))
                end)))
          (field
            (codes "_sd")
            (array (item (text (3 ∷ codes "id")) (item (text (0 ∷ [])) nil)))
            end),
      4,
    )
unfolding program
built = refl
