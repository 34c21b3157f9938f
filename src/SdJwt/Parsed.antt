-- ===== src/SdJwt/Parsed.antt =====
-- sdjwt/common: the claims that `getDisclosureClaims` parses, before their values are disclosed.
use mathlib.Core.Path.{subst}
use vc_go.Prelude.{
  ◌≡◌, ◌∙◌, refl, sym, ap, inl, inr, Bool, true, false, List, [], ◌∷◌, some, arith, Bool-cases, Str,
  str_eq, str_eq_iff, str_eq_self,
}
use vc_go.Prelude.Dicts.{Dict, lookup, insert, keys, lookup-insert}
use vc_go.Requirement.Sets.{has}
use vc_go.SdJwt.Types.{
  base64_failed, json_failed, name_not_text, Value, Fields, null, number, text, array, object, end,
  field, Result, ok, err, out_of_fuel, ◌>>=◌, Hash, DisclosureClaim,
}
use vc_go.SdJwt.Claims.{sd_key, key_exists_in_map}
use vc_go.SdJwt.Disclosures.{
  Codec, require, text_of, salt_of, get_hash, enrich, enrich_with_array_element,
  enrich_with_sd_element, set_version, get_disclosure_claim, collect_claims,
}
use vc_go.SdJwt.Verification.{copy_map, copy_value, check_parsed, traversal}
use vc_go.SdJwt.Keeping.{IsKept}

mutual
  unfolding copy_map

  pub copy_map-same : (fs : Fields) → copy_map fs ≡ fs
  copy_map-same end = refl
  copy_map-same (field k v fs) = cc (copy_value-same v, copy_map-same fs)

  copy_value-same : (v : Value) → copy_value v ≡ v
  copy_value-same null = refl
  copy_value-same (number n) = refl
  copy_value-same (text t) = refl
  copy_value-same (array vs) = refl
  copy_value-same (object fs) = ap object (copy_map-same fs)

pub then-ok :
    {A B : Type 0} {b : B} (first : Result A) (next : A → Result B)
    → (first >>= next) ≡ ok b
    → (a : A) × (first ≡ ok a) × (next a ≡ ok b)
then-ok (err cause) next h = cc
then-ok out_of_fuel next h = cc
then-ok (ok a) next h = (a, refl, h)

pub Fresh : DisclosureClaim → Type 0
Fresh c = c.is_value_parsed ≡ false

set_version-Fresh : (c : DisclosureClaim) (v : Value) → Fresh c → Fresh (set_version c v)
unfolding Fresh set_version
set_version-Fresh c null fresh = fresh
set_version-Fresh c (number n) fresh = fresh
set_version-Fresh c (text t) fresh = fresh
set_version-Fresh c (array vs) fresh = fresh
set_version-Fresh c (object fs) fresh = elim (Bool-cases (key_exists_in_map sd_key fs)) [
  | inl deep ↦ rw deep fresh
  | inr flat ↦ rw flat fresh
]

ok-same : {A : Type 0} {a b : A} → ok a ≡ ok b → a ≡ b
ok-same h = cc

-- What is filled in of a claim leaves it unparsed.
enrich-Fresh : (c d : DisclosureClaim) (vs : List Value) → Fresh c → enrich c vs ≡ ok d → Fresh d
unfolding enrich enrich_with_array_element enrich_with_sd_element Fresh
enrich-Fresh c d [] fresh h = subst Fresh (ok-same h) fresh
enrich-Fresh c d (x ∷ []) fresh h = subst Fresh (ok-same h) fresh
enrich-Fresh c d (x ∷ v ∷ []) fresh h = subst Fresh (ok-same h) fresh
enrich-Fresh c d (x ∷ name ∷ v ∷ []) fresh h =
    let (n, _, h1) = then-ok (require name_not_text (text_of name)) _ h in
    subst Fresh (ok-same h1) (set_version-Fresh _ v fresh)
enrich-Fresh c d (x ∷ y ∷ z ∷ w ∷ vs) fresh h = subst Fresh (ok-same h) fresh

module _ (codec : Codec) (hash : Hash) where
  get_disclosure_claim-Fresh :
      (x : Str) (c : DisclosureClaim) → get_disclosure_claim codec x hash ≡ ok c → Fresh c
  unfolding get_disclosure_claim Fresh
  get_disclosure_claim-Fresh x c h =
      let (decoded, _, h1) = then-ok (require base64_failed (codec.decode x)) _ h in
      let (parts, _, h2) = then-ok (require json_failed (codec.unmarshal decoded)) _ h1 in
      let (salt, _, h3) = then-ok (salt_of codec parts) _ h2 in
      let (digest, _, h4) = then-ok (get_hash codec hash x) _ h3 in enrich-Fresh _ c parts refl h4

  pub AllFresh : Dict DisclosureClaim → Type 0
  AllFresh m = (k : Str) (c : DisclosureClaim) → lookup k m ≡ some c → Fresh c

  insert-AllFresh :
      (d : Str) (c : DisclosureClaim) (m : Dict DisclosureClaim)
      → Fresh c
      → AllFresh m
      → AllFresh (insert d c m)
  unfolding AllFresh
  insert-AllFresh d c m fresh all k b found = elim (Bool-cases (str_eq d k)) [
    | inl same ↦
        let stored = rw same at (lookup-insert d k c m) in let e : c ≡ b = cc in subst Fresh e fresh
    | inr other ↦ let old = rw other at (lookup-insert d k c m) in all k b (sym old ∙ found)
  ]

  collect_claims-AllFresh :
      (xs : List Str) (m claims : Dict DisclosureClaim)
      → AllFresh m
      → collect_claims codec xs hash m ≡ ok claims
      → AllFresh claims
  unfolding collect_claims
  collect_claims-AllFresh [] m claims all h = subst AllFresh (ok-same h) all
  collect_claims-AllFresh (x ∷ xs) m claims all h =
      let (c, read, rest) = then-ok (get_disclosure_claim codec x hash) _ h in
      collect_claims-AllFresh xs (insert c.digest c m) claims
        (insert-AllFresh c.digest c m (get_disclosure_claim-Fresh x c read) all) rest

  pub claims_by_digest-AllFresh :
      (xs : List Str) (claims : Dict DisclosureClaim)
      → collect_claims codec xs hash [] ≡ ok claims
      → AllFresh claims
  unfolding AllFresh lookup
  claims_by_digest-AllFresh xs claims h = collect_claims-AllFresh xs [] claims (λ k c found. cc) h

  -- Each disclosure has its digest among the keys.
  collect_claims-keeps :
      (xs : List Str) (m claims : Dict DisclosureClaim) (k : Str)
      → collect_claims codec xs hash m ≡ ok claims
      → ((c : DisclosureClaim) × (lookup k m ≡ some c))
      → (c : DisclosureClaim) × (lookup k claims ≡ some c)
  unfolding collect_claims
  collect_claims-keeps [] m claims k h (c, found) = (c, ap (lookup k) (sym (ok-same h)) ∙ found)
  collect_claims-keeps (x ∷ xs) m claims k h (c, found) =
      let (d, _, rest) = then-ok (get_disclosure_claim codec x hash) _ h in
      collect_claims-keeps xs (insert d.digest d m) claims k rest
        (elim (Bool-cases (str_eq d.digest k)) [
          | inl same ↦ (d, rw (lookup-insert d.digest k d m, same) refl)
          | inr other ↦ (c, rw (lookup-insert d.digest k d m, other) found)
        ])

  pub collect_claims-digest :
      (xs : List Str) (m claims : Dict DisclosureClaim) (x : Str)
      → collect_claims codec xs hash m ≡ ok claims
      → has xs x ≡ true
      → (c : DisclosureClaim) × (b : DisclosureClaim) × (get_disclosure_claim codec x hash ≡ ok c)
        × (lookup c.digest claims ≡ some b)
  unfolding collect_claims has
  collect_claims-digest [] m claims x h there = cc
  collect_claims-digest (y ∷ xs) m claims x h there =
      let (c, read, rest) = then-ok (get_disclosure_claim codec y hash) _ h in
      elim (Bool-cases (str_eq y x)) [
        | inl same ↦
            let (b, found) =
              collect_claims-keeps xs (insert c.digest c m) claims c.digest rest
                (c, rw (lookup-insert c.digest c.digest c m, str_eq_self c.digest) refl) in
            (
              c,
              b,
              subst (λ z. get_disclosure_claim codec z hash ≡ ok c) ((str_eq_iff y x).0 same) read,
              found,
            )
        | inr other ↦ collect_claims-digest xs (insert c.digest c m) claims x rest (ground arith)
      ]

  pub start-IsKept :
      (known : Str → Type 0) (claims : Dict DisclosureClaim) (cleanup : Bool)
      → AllFresh claims
      → IsKept known claims (traversal claims cleanup)
  unfolding AllFresh Fresh
  start-IsKept known claims cleanup all = record {
    same_keys = refl;
    untouched = λ k c found _. found;
    parsed = λ k c found done. absurd (ground (arith, all k c found, done));
  }

pub check_parsed-lookup :
    (m : Dict DisclosureClaim) (k : Str) (c : DisclosureClaim)
    → check_parsed m ≡ ok tt
    → lookup k m ≡ some c
    → c.is_value_parsed ≡ true
unfolding check_parsed lookup
check_parsed-lookup [] k c h found = cc
check_parsed-lookup ((j, b) ∷ m) k c h found = elim (Bool-cases b.is_value_parsed) [
  | inl done ↦
      let rest : check_parsed m ≡ ok tt = rw (done, check_parsed) at h in
      elim (Bool-cases (str_eq j k)) [
        | inl here ↦
            let e : b ≡ c = cc (rw (here, lookup) at found) in
            subst (λ x. x.is_value_parsed ≡ true) e done
        | inr away ↦ check_parsed-lookup m k c rest (rw (away, lookup) at found)
      ]
  | inr fresh ↦ absurd (ground (arith, h, fresh))
]

pub lookup-has :
    {V : Type 0} (k : Str) (m : Dict V) → has (keys m) k ≡ true → (v : V) × (lookup k m ≡ some v)
unfolding lookup has
lookup-has k [] h = cc
lookup-has k ((j, w) ∷ m) h = elim (Bool-cases (str_eq j k)) [
  | inl here ↦ (w, rw here refl)
  | inr away ↦ let (v, found) = lookup-has k m (ground arith) in (v, rw away found)
]
