-- ===== src/SdJwt/Format.antt =====
-- sdjwt/common/common.go: the combined formats for issuance and presentation.
use vc_go.Prelude.{List, [], ◌∷◌, ◌++◌, Str}
use vc_go.Prelude.Strings.{split_byte}

pub record CombinedFormatForIssuance : Type 0 where
  pub sdjwt : Str
  pub disclosures : List Str

pub record CombinedFormatForPresentation : Type 0 where
  pub sdjwt : Str
  pub disclosures : List Str
  pub holder_verification : Str

-- The loop of both `Serialize` methods.
unfoldable pub append_disclosures : Str → List Str → Str
append_disclosures presentation [] = presentation
append_disclosures presentation (disclosure ∷ disclosures) =
    append_disclosures (presentation ++ b'~' ∷ disclosure) disclosures

unfoldable pub serialize_issuance : CombinedFormatForIssuance → Str
serialize_issuance cf = append_disclosures cf.sdjwt cf.disclosures

-- The separator before the last part, which is left out where both other parts are empty.
unfoldable pub last_separator : List Str → Str → Str
last_separator [] [] = []
last_separator disclosures holder = b'~' ∷ []

unfoldable pub serialize_presentation : CombinedFormatForPresentation → Str
serialize_presentation cf =
    append_disclosures cf.sdjwt cf.disclosures
    ++ last_separator cf.disclosures cf.holder_verification
    ++ cf.holder_verification

-- `strings.Split` returns one part at least.
unfoldable pub issuance_of_parts : List Str → CombinedFormatForIssuance
issuance_of_parts [] = record { sdjwt = []; disclosures = [] }
issuance_of_parts (sdjwt ∷ parts) = record { sdjwt = sdjwt; disclosures = parts }

unfoldable pub parse_issuance : Str → CombinedFormatForIssuance
parse_issuance combined = issuance_of_parts (split_byte b'~' combined)

unfoldable pub all_but_last : List Str → List Str
all_but_last [] = []
all_but_last (p ∷ []) = []
all_but_last (p ∷ q ∷ ps) = p ∷ all_but_last (q ∷ ps)

unfoldable pub last_part : List Str → Str
last_part [] = []
last_part (p ∷ []) = p
last_part (p ∷ q ∷ ps) = last_part (q ∷ ps)

unfoldable pub presentation_of_parts : List Str → CombinedFormatForPresentation
presentation_of_parts [] = record { sdjwt = []; disclosures = []; holder_verification = [] }
presentation_of_parts (sdjwt ∷ parts) = record {
  sdjwt = sdjwt;
  disclosures = all_but_last parts;
  holder_verification = last_part parts;
}

unfoldable pub parse_presentation : Str → CombinedFormatForPresentation
parse_presentation combined = presentation_of_parts (split_byte b'~' combined)
