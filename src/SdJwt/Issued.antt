-- ===== src/SdJwt/Issued.antt =====
-- The checks of an issuer's JWT: its algorithm, and no disclosure twice.
use vc_go.Prelude.{
  ◌≡◌, refl, ◌≢◌, inl, inr, true, false, List, [], ◌∷◌, some, arith, Bool-cases, Str, codes, str_eq,
  str_eq_iff, str_eq_self,
}
use vc_go.Requirement.Sets.{has}
use vc_go.Requirement.Positions.{NoDup}
use vc_go.SdJwt.Types.{duplicate_values, alg_missing, ok, err}
use vc_go.SdJwt.Disclosures.{require}
use vc_go.SdJwt.Verification.{Headers, verify_signing_alg, collect_duplicates, check_for_duplicates}
use vc_go.SdJwt.Keeping.{require-some}
use vc_go.SdJwt.Parsed.{then-ok}

-- The header names an algorithm of the list other than "none".
pub record IsSecure (headers : Headers) (algs : List Str) : Type 0 where
  pub alg : Str
  pub named : headers.algorithm ≡ some alg
  pub signed : alg ≢ codes "none"
  pub allowed : has algs alg ≡ true

pub verify_signing_alg-IsSecure :
    (headers : Headers) (algs : List Str)
    → verify_signing_alg headers algs ≡ ok tt
    → IsSecure headers algs
unfolding verify_signing_alg
verify_signing_alg-IsSecure headers algs h =
    let (alg, named, h1) = then-ok (require alg_missing headers.algorithm) _ h in
    elim (Bool-cases (str_eq alg (codes "none"))) [
      | inl bad ↦ absurd (ground (arith, h1, bad))
      | inr good ↦ record {
        alg = alg;
        named = require-some alg_missing headers.algorithm named;
        signed = λ e. absurd (ground (arith, good, (str_eq_iff alg (codes "none")).1 e));
        allowed = ground (arith, h1, good);
      }
    ]

collect_duplicates-NoDup :
    (xs seen : List Str)
    → collect_duplicates xs seen ≡ []
    → NoDup xs × ((x : Str) → has xs x ≡ true → has seen x ≡ false)
unfolding collect_duplicates has
collect_duplicates-NoDup [] seen h = (tt, λ x e. cc)
collect_duplicates-NoDup (y ∷ xs) seen h = elim (Bool-cases (has seen y)) [
  | inl again ↦ absurd (ground (arith, h, again))
  | inr first ↦
      let (nodup, apart) =
        collect_duplicates-NoDup xs (y ∷ seen) (rw (first, collect_duplicates) at h) in
      (
        (ground (arith, apart y, str_eq_self y), nodup),
        λ x listed. ground (arith, listed, apart x, first, str_eq_iff y x),
      )
]

pub check_for_duplicates-NoDup : (xs : List Str) → check_for_duplicates xs ≡ ok tt → NoDup xs
unfolding check_for_duplicates
check_for_duplicates-NoDup xs h =
    (collect_duplicates-NoDup xs [] (no_duplicates (collect_duplicates xs []) h)).0
  where
    no_duplicates :
        (ds : List Str)
        → elim ds [ [] ↦ ok tt | ◌∷◌ e es ↦ err (duplicate_values (e ∷ es)) ] ≡ ok tt
        → ds ≡ []
    no_duplicates [] h = refl
    no_duplicates (e ∷ es) h = cc
