-- ===== src/SdJwt/Formats.antt =====
-- Parsing a combined format that was serialized returns its parts.
use vc_go.Prelude.{◌≡◌, ◌∙◌, refl, sym, ap, false, List, [], ◌∷◌, ◌++◌, arith, Str}
use vc_go.Prelude.Strings.{split_byte, contains_byte}
use vc_go.SdJwt.Format.{
  CombinedFormatForIssuance, CombinedFormatForPresentation, append_disclosures, serialize_issuance,
  last_separator, serialize_presentation, issuance_of_parts, parse_issuance, all_but_last,
  last_part, presentation_of_parts, parse_presentation,
}

-- No part has the separator in it.
abbrev pub AllPlain : List Str → Type 0
AllPlain [] = Unit
AllPlain (p ∷ ps) = (contains_byte b'~' p ≡ false) × AllPlain ps

-- The parts, each behind a separator.
separated : List Str → Str
separated [] = []
separated (p ∷ ps) = b'~' ∷ (p ++ separated ps)

append_assoc : (s t u : Str) → (s ++ t) ++ u ≡ s ++ (t ++ u)
append_assoc [] t u = refl
append_assoc (a ∷ s) t u = ap (λ x. a ∷ x) (append_assoc s t u)

append_nil : (s : Str) → s ++ [] ≡ s
append_nil [] = refl
append_nil (a ∷ s) = ap (λ x. a ∷ x) (append_nil s)

append_disclosures-separated :
    (s : Str) (ps : List Str) → append_disclosures s ps ≡ s ++ separated ps
unfolding append_disclosures separated
append_disclosures-separated s [] = sym (append_nil s)
append_disclosures-separated s (p ∷ ps) =
    append_disclosures-separated (s ++ b'~' ∷ p) ps ∙ append_assoc s (b'~' ∷ p) (separated ps)

separated-append : (ps : List Str) (q : Str) → separated ps ++ b'~' ∷ q ≡ separated (ps ++ q ∷ [])
unfolding separated
separated-append [] q = ap (λ x. b'~' ∷ x) (sym (append_nil q))
separated-append (p ∷ ps) q =
    ap (λ x. b'~' ∷ x)
      (append_assoc p (separated ps) (b'~' ∷ q) ∙ ap (λ x. p ++ x) (separated-append ps q))

-- A part without the separator ends where the separator stands, or at the end.
split_byte-plain : (p : Str) → contains_byte b'~' p ≡ false → split_byte b'~' p ≡ p ∷ []
unfolding split_byte contains_byte
split_byte-plain [] h = refl
split_byte-plain (a ∷ p) h = ground (arith, split_byte-plain p)

split_byte-part :
    (p s : Str)
    → contains_byte b'~' p ≡ false
    → split_byte b'~' (p ++ b'~' ∷ s) ≡ p ∷ split_byte b'~' s
unfolding split_byte contains_byte
split_byte-part [] s h = refl
split_byte-part (a ∷ p) s h = ground (arith, split_byte-part p s)

split_byte-separated :
    (p : Str) (ps : List Str) → AllPlain (p ∷ ps) → split_byte b'~' (p ++ separated ps) ≡ p ∷ ps
unfolding separated
split_byte-separated p [] (plain, _) = rw (append_nil p) (split_byte-plain p plain)
split_byte-separated p (q ∷ ps) (plain, rest) =
    split_byte-part p (q ++ separated ps) plain ∙ ap (λ x. p ∷ x) (split_byte-separated q ps rest)

-- Parsing the combined format for issuance of parts without `~` returns them.
pub parse-serialize_issuance :
    (cf : CombinedFormatForIssuance)
    → AllPlain (cf.sdjwt ∷ cf.disclosures)
    → parse_issuance (serialize_issuance cf) ≡ cf
unfolding parse_issuance serialize_issuance issuance_of_parts
parse-serialize_issuance cf h =
    rw
      (
        append_disclosures-separated cf.sdjwt cf.disclosures,
        split_byte-separated cf.sdjwt cf.disclosures h,
      )
      refl

all_but_last-append : (ps : List Str) (q : Str) → all_but_last (ps ++ q ∷ []) ≡ ps
unfolding all_but_last
all_but_last-append [] q = refl
all_but_last-append (p ∷ []) q = refl
all_but_last-append (p ∷ o ∷ ps) q = ap (λ x. p ∷ x) (all_but_last-append (o ∷ ps) q)

last_part-append : (ps : List Str) (q : Str) → last_part (ps ++ q ∷ []) ≡ q
unfolding last_part
last_part-append [] q = refl
last_part-append (p ∷ []) q = refl
last_part-append (p ∷ o ∷ ps) q = last_part-append (o ∷ ps) q

AllPlain-append :
    (ps : List Str) (q : Str) → AllPlain ps → contains_byte b'~' q ≡ false → AllPlain (ps ++ q ∷ [])
AllPlain-append [] q h plain = (plain, tt)
AllPlain-append (p ∷ ps) q (first, h) plain = (first, AllPlain-append ps q h plain)

present_parts :
    (s : Str) (ds : List Str) (q : Str)
    → AllPlain (s ∷ ds)
    → contains_byte b'~' q ≡ false
    → parse_presentation (append_disclosures s ds ++ b'~' ∷ q)
      ≡ record { sdjwt = s; disclosures = ds; holder_verification = q }
unfolding parse_presentation presentation_of_parts
present_parts s ds q (first, h) plain =
    rw
      (
        append_disclosures-separated s ds,
        append_assoc s (separated ds) (b'~' ∷ q),
        separated-append ds q,
        split_byte-separated s (ds ++ q ∷ []) (first, AllPlain-append ds q h plain),
        all_but_last-append ds q,
        last_part-append ds q,
      )
      refl

-- Parsing the combined format for presentation of parts without `~` returns them.
pub parse-serialize_presentation :
    (cf : CombinedFormatForPresentation)
    → AllPlain (cf.sdjwt ∷ cf.disclosures)
    → contains_byte b'~' cf.holder_verification ≡ false
    → parse_presentation (serialize_presentation cf) ≡ cf
unfolding serialize_presentation last_separator append_disclosures parse_presentation
    presentation_of_parts all_but_last last_part
parse-serialize_presentation cf h plain = by_shape cf.disclosures cf.holder_verification h plain
  where
    by_shape :
        (ds : List Str) (q : Str)
        → AllPlain (cf.sdjwt ∷ ds)
        → contains_byte b'~' q ≡ false
        → parse_presentation (append_disclosures cf.sdjwt ds ++ last_separator ds q ++ q)
          ≡ record { sdjwt = cf.sdjwt; disclosures = ds; holder_verification = q }
    by_shape [] [] h plain =
        rw (append_nil cf.sdjwt, append_nil cf.sdjwt, split_byte-plain cf.sdjwt h.0) refl
    by_shape [] (c ∷ q) h plain =
        rw (append_assoc cf.sdjwt (b'~' ∷ []) (c ∷ q)) (present_parts cf.sdjwt [] (c ∷ q) h plain)
    by_shape (d ∷ ds) q h plain =
        rw (append_assoc (append_disclosures cf.sdjwt (d ∷ ds)) (b'~' ∷ []) q)
          (present_parts cf.sdjwt (d ∷ ds) q h plain)
