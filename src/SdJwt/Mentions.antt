-- ===== src/SdJwt/Mentions.antt =====
-- Where a digest stands in decoded JSON: the places that `discloseClaimValue` looks at.
use vc_go.Prelude.{◌≡◌, true, false, List, some, Str, str_eq}
use vc_go.Prelude.Dicts.{Dict, lookup}
use vc_go.Requirement.Sets.{has}
use vc_go.SdJwt.Types.{
  Value, Items, Fields, text, array, object, item, field, entries, ok, DisclosureClaim,
}
use vc_go.SdJwt.Claims.{sd_key, string_array}
use vc_go.SdJwt.Disclose.{array_element_digest}

pub data ItemMentions (d : Str) : Items → Type 0 where
  here :
      {v : Value} {vs : Items} → array_element_digest v ≡ some (text d) → ItemMentions d (item v vs)
  there : {v : Value} {vs : Items} → ItemMentions d vs → ItemMentions d (item v vs)

mutual
  pub data Mentions (d : Str) : Value → Type 0 where
    in_array : {vs : Items} → ItemMentions d vs → Mentions d (array vs)
    in_sd :
        {fs : Fields} (v : Value) (ds : List Str)
        → lookup sd_key (entries fs) ≡ some v
        → string_array v ≡ ok ds
        → has ds d ≡ true
        → Mentions d (object fs)
    in_field : {fs : Fields} → FieldMentions d fs → Mentions d (object fs)

  pub data FieldMentions (d : Str) : Fields → Type 0 where
    here :
        {k : Str} {v : Value} {fs : Fields}
        → str_eq k sd_key ≡ false
        → Mentions d v
        → FieldMentions d (field k v fs)
    there :
        {k : Str} {v : Value} {fs : Fields} → FieldMentions d fs → FieldMentions d (field k v fs)

-- The digests that are reached from a value: those that it mentions, and those that the disclosure of
-- a reached digest mentions.
pub data Reached (claims : Dict DisclosureClaim) (v : Value) : Str → Type 0 where
  listed : {d : Str} → Mentions d v → Reached claims v d
  nested :
      {e d : Str} (c : DisclosureClaim)
      → Reached claims v e
      → lookup e claims ≡ some c
      → Mentions d c.value
      → Reached claims v d
