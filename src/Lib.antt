-- ===== src/Lib.antt =====
-- vc-go: verifiable credentials in Go. This library models the parts of it that decide: which
-- descriptors of a presentation definition are answered with which credentials (presexch),
-- whether a credential is revoked (status), whether a document's data integrity proof holds
-- (dataintegrity), which disclosures of an SD-JWT count (sdjwt), which proofs a checker accepts
-- (proof/checker), and what the in-memory stores keep (legacy/mem).
--
-- Parts and files:
-- * presexch/internal/requirementlogic. Requirement/Sets is stringset.go, Requirement/Logic the tree of
--   requirements, Requirement/Iterator the iterator over subsets of descriptors. A Go map is a list
--   of keys or an association list without an order that the code could see; the `big.Int` of the
--   iterator is a natural number. Proofs: Masks reads a state as a choice of descriptors, Search is
--   the loop of `incrementUntilValid`, Enumeration a run of `Next` calls, Widen, Exclusion, Indices
--   and Removal the arithmetic of `excludeDescriptors`, Positions and Ahead what an exclusion keeps,
--   Satisfaction the meaning of the requirement tree.
-- * presexch/definition.go. Presexch/Requirements builds the tree (`toRequirement`, `makeRequirement`,
--   `toLogic`, `getAllDescriptors`), Presexch/Apply is `applyRequirement`: it asks the iterator for a
--   choice, filters credentials for each of its descriptors, and excludes the first that nothing
--   fills. `limitDisclosure` sets the disclosures of SD-JWT credentials in place, so the credentials
--   are a state that each evaluation returns; what an error leaves of them is not kept. Proofs: History
--   for the evaluations of a search, Scan, Steps and Pass for the inner loop, Ends for its errors,
--   Round, Keeps, Solution, Complete and Answer for the outer loop, Keyed and Found for the map of
--   descriptors.
-- * status. Status/Types holds results, JSON values and the fields read of a credential, Status/Bitstring
--   is internal/bitstring, Status/StatusList the validator, Status/Client is `VerifyStatus`. Proofs:
--   Bits and Verdict.
-- * dataintegrity. Integrity/Models holds proofs, options and suites, Integrity/Method is `resolveVM` of
--   signer.go, Integrity/Verifier is `VerifyProof`, `AddProof` and the constructors. The options stand
--   behind a pointer, so each call returns them as it leaves them. Proofs: Steps, Listed, Resolution
--   and Accepted for verification, Signed for `AddProof`.
-- * legacy/mem/mem.go. Storage/Types has entries, stores and errors, Storage/Store the operations of a
--   store, Storage/Query queries, Storage/Cursor the iterator, Storage/Provider the provider, whose
--   stores lie on a heap, since handles share them. Each call is one step; the locks are not modelled.
--   Proofs: Entries for reads after writes, Common and Matches for queries, Iteration for a client's
--   loop, Methods and Handles for the invariant, Closing for handles of closed stores.
-- * sdjwt/common and sdjwt/verifier. SdJwt/Types has decoded JSON, disclosures and errors, SdJwt/Claims
--   what is read of claims, SdJwt/Disclosures the parsing of disclosures, SdJwt/Disclose the traversal
--   `discloseClaimValue`, SdJwt/Verification the checks and `CopyMap`, SdJwt/Format the combined formats,
--   SdJwt/Verifier `Parse` and SdJwt/Options its options. The claims behind pointers are a map in the
--   state of the traversal. Proofs: Mentions and Unseen for digests, Keeping, Steps and Traversal for
--   the invariant and the fuel, Parsed, Covered and Total for the checks, Issued, Bound and Accepted for `Parse`,
--   Formats for the round trips. SdJwt/Holder and SdJwt/HolderOptions are
--   sdjwt/holder, and Presented says what a verifier reads of
--   a holder's presentation. SdJwt/Builder is the builder of sdjwt/issuer/v2.go, with salts, decoys and
--   the order of digests from a generator with a state.
-- * proof/checker. Checker/Types has keys, descriptors, the checker's tables and their options,
--   Checker/Lookup the searches in them and `convertToPublicKey`, Checker/Check the checks. Proofs: Found
--   for the searches, Accepted for the checks.
-- * util/json/json.go. Util/Json has the copies, splits and merges of JSON objects; Util/Objects says
--   what they return under each key.
-- * Prelude has strings as lists of bytes, association lists, integers and tests over native numbers.
--
-- Loops on fuel: `Next` has 2 ^ n + 1 steps for n descriptors, since every 2 ^ n consecutive states
-- hold one that chooses nothing; `applyRequirement` has 2 ^ n + 1 rounds, since each brings the state
-- closer to the end; `discloseClaimValue` has one opening for each disclosure, since it meets a digest
-- once. All are shown to be enough.
--
-- Parameters: the filters of credentials (`filterCredentialsThatMatchDescriptor`, `limitDisclosure`,
-- `frameCreds`), which rest on JSON schema and JSON-LD libraries; base64 and gzip; the fetch of a
-- status list; gjson, sjson and the parsing of times; the suites and the DID resolver; JSON, hashes,
-- JWT proofs and times (`VerifyJWT`) for SD-JWTs; the resolver of methods and the verifiers of
-- signatures. The filters stand for any behaviour that returns an error, or a match and the credentials
-- as it leaves them. Machine integers that only count or compare are ℤ or ℕ; a duration keeps its wrap-around. A panic is a
-- value of the result. Not modelled: parsing and JSON-LD processing of credentials, cryptography,
-- the rest of the issuer of SD-JWTs, the creation of proofs, DID resolution.
pub mod Prelude
pub mod Requirement
pub mod Presexch
pub mod Status
pub mod Integrity
pub mod Util
pub mod Storage
pub mod SdJwt
pub mod Checker
