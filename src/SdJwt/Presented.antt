-- ===== src/SdJwt/Presented.antt =====
-- What a verifier reads of a presentation that a holder creates.
use mathlib.Core.Path.{subst}
use vc_go.Prelude.{
  ℕ, ◌≡◌, ◌∙◌, refl, sym, inl, inr, true, false, List, [], ◌∷◌, Option, none, some, arith,
  Bool-cases, ◌==◌, Str, str_eq, str_eq_iff,
}
use vc_go.Prelude.Strings.{split_byte, contains_byte, cons_head}
use vc_go.Requirement.Sets.{has, init_from_slice, has-init_from_slice}
use vc_go.SdJwt.Types.{binding_failed, ok}
use vc_go.SdJwt.Claims.{slice_to_map}
use vc_go.SdJwt.Format.{
  CombinedFormatForPresentation, parse_issuance, issuance_of_parts, serialize_presentation,
  parse_presentation,
}
use vc_go.SdJwt.Formats.{AllPlain, parse-serialize_presentation}
use vc_go.SdJwt.Holder.{
  HolderEnvironment, check_any, check_selected, create_holder_verification, create_presentation,
}
use vc_go.SdJwt.Keeping.{require-some}
use vc_go.SdJwt.Parsed.{then-ok}

-- The parts of a text have no separator in them.
cons_head-AllPlain :
    (a : ℕ) (ps : List Str) → (a == b'~') ≡ false → AllPlain ps → AllPlain (cons_head a ps)
unfolding contains_byte
cons_head-AllPlain a [] other h = (ground (arith, other), tt)
cons_head-AllPlain a (p ∷ ps) other (plain, h) = (ground (arith, other, plain), h)

split_byte-AllPlain : (s : Str) → AllPlain (split_byte b'~' s)
unfolding split_byte contains_byte
split_byte-AllPlain [] = (refl, tt)
split_byte-AllPlain (a ∷ s) = elim (Bool-cases (a == b'~')) [
  | inl here ↦ rw here (refl, split_byte-AllPlain s)
  | inr other ↦ rw other (cons_head-AllPlain a (split_byte b'~' s) other (split_byte-AllPlain s))
]

has-AllPlain :
    (ps : List Str) (p : Str) → AllPlain ps → has ps p ≡ true → contains_byte b'~' p ≡ false
unfolding has
has-AllPlain [] p h listed = cc
has-AllPlain (q ∷ ps) p (plain, h) listed = elim (Bool-cases (str_eq q p)) [
  | inl same ↦ subst (λ x. contains_byte b'~' x ≡ false) ((str_eq_iff q p).0 same) plain
  | inr other ↦ has-AllPlain ps p h (ground (arith, listed, other))
]

parse_issuance-AllPlain :
    (s : Str) → AllPlain ((parse_issuance s).sdjwt ∷ (parse_issuance s).disclosures)
unfolding parse_issuance issuance_of_parts contains_byte
parse_issuance-AllPlain s = of_parts (split_byte b'~' s) (split_byte-AllPlain s)
  where
    of_parts :
        (ps : List Str)
        → AllPlain ps
        → AllPlain ((issuance_of_parts ps).sdjwt ∷ (issuance_of_parts ps).disclosures)
    of_parts [] h = (refl, tt)
    of_parts (p ∷ ps) h = h

-- All are among the disclosures.
abbrev pub AllListed : List Str → List Str → Type 0
AllListed ds [] = Unit
AllListed ds (c ∷ cs) = (has ds c ≡ true) × AllListed ds cs

check_selected-AllListed : (ds cs : List Str) → check_selected ds cs ≡ ok tt → AllListed ds cs
unfolding check_selected slice_to_map init_from_slice
check_selected-AllListed ds [] h = tt
check_selected-AllListed ds (c ∷ cs) h = elim (Bool-cases (has (slice_to_map ds) c)) [
  | inl listed ↦ (
    sym (has-init_from_slice ds c) ∙ listed,
    check_selected-AllListed ds cs (rw (listed, check_selected) at h),
  )
  | inr missing ↦ absurd (ground (arith, h, missing))
]

AllListed-AllPlain : (ds cs : List Str) → AllPlain ds → AllListed ds cs → AllPlain cs
AllListed-AllPlain ds [] h listed = tt
AllListed-AllPlain ds (c ∷ cs) h (first, listed) =
    (has-AllPlain ds c h first, AllListed-AllPlain ds cs h listed)

module _ {BindingInfo : Type 0} (env : HolderEnvironment BindingInfo)
    (signed_plain : (info : BindingInfo) (s : Str)
      → env.sign info ≡ some s
      → contains_byte b'~' s ≡ false) where
  holder_plain :
      (info : Option BindingInfo) (s : Str)
      → create_holder_verification env info ≡ ok s
      → contains_byte b'~' s ≡ false
  unfolding create_holder_verification contains_byte
  holder_plain none [] h = refl
  holder_plain none (c ∷ s) h = cc
  holder_plain (some info) s h = signed_plain info s (require-some binding_failed (env.sign info) h)

  -- Where binding JWTs have no `~`, a verifier that parses a presentation which `CreatePresentation`
  -- returns reads the issuer's JWT of the combined format for issuance, the claims to disclose, which
  -- are all among its disclosures, and the holder's JWT.
  pub parse_presentation-create_presentation :
      (combined presented : Str) (claims_to_disclose : List Str) (info : Option BindingInfo)
      → create_presentation env combined claims_to_disclose info ≡ ok presented
      → (holder : Str) × (create_holder_verification env info ≡ ok holder)
        × AllListed (parse_issuance combined).disclosures claims_to_disclose
        × (parse_presentation presented ≡ record {
          sdjwt = (parse_issuance combined).sdjwt;
          disclosures = claims_to_disclose;
          holder_verification = holder;
        })
  unfolding create_presentation
  parse_presentation-create_presentation combined presented cs info h =
      let cfi = parse_issuance combined in
      let (_, _, h1) = then-ok (check_any cfi.disclosures) _ h in
      let (_, selected, h2) = then-ok (check_selected cfi.disclosures cs) _ h1 in
      let (holder, held, h3) = then-ok (create_holder_verification env info) _ h2 in
      let listed = check_selected-AllListed cfi.disclosures cs selected in
      let (plain, all_plain) = parse_issuance-AllPlain combined in
      let cf : CombinedFormatForPresentation = record {
        sdjwt = cfi.sdjwt;
        disclosures = cs;
        holder_verification = holder;
      } in
      let same : serialize_presentation cf ≡ presented = cc in
      let read =
        parse-serialize_presentation cf
          (plain, AllListed-AllPlain cfi.disclosures cs all_plain listed)
          (holder_plain info holder held) in
      (holder, held, listed, subst (λ t. parse_presentation t ≡ cf) same read)
