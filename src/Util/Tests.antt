-- ===== src/Util/Tests.antt =====
-- Concrete runs of util/json.
use vc_go.Prelude.{ℕ, ◌≡◌, refl, [], ◌∷◌, none, some, codes, str_eq}
use vc_go.Prelude.Dicts.{IsMap, Dict, lookup, insert, delete}
use vc_go.Requirement.Sets.{has}
use vc_go.Util.Json.{
  copy_where, split_json_obj, shallow_copy_obj, delete_all, copy_except, select_from, select_fields,
  add_custom_fields,
}
use vc_go.Util.Objects.{lookup-add_custom_fields, lookup-copy_except, lookup-split}

program : Unit {0}
unfolding str_eq lookup insert delete has copy_where split_json_obj shallow_copy_obj delete_all
    copy_except select_from select_fields add_custom_fields
program = tt

abbrev object : Dict ℕ
object = (codes "id", 1) ∷ (codes "type", 2) ∷ (codes "name", 3) ∷ []

main :
    (split_json_obj object (codes "type" ∷ [])
      ≡ ((codes "type", 2) ∷ [], (codes "id", 1) ∷ (codes "name", 3) ∷ []))
    × (select_fields 0 object (codes "name" ∷ codes "age" ∷ [])
        ≡ (codes "name", 3) ∷ (codes "age", 0) ∷ [])
unfolding program
main = (refl, refl)

object-IsMap : IsMap object
unfolding program
object-IsMap = (refl, (refl, (refl, tt)))

lookup-split_example :
    (lookup (codes "id") (split_json_obj object (codes "type" ∷ [])).0 ≡ none)
    × (lookup (codes "id") (split_json_obj object (codes "type" ∷ [])).1 ≡ some 1)
    × (lookup (codes "id") (
          add_custom_fields
            (split_json_obj object (codes "type" ∷ [])).0
            (split_json_obj object (codes "type" ∷ [])).1)
        ≡ some 1)
unfolding program
lookup-split_example = lookup-split object (codes "type" ∷ []) (codes "id") object-IsMap

lookup-copy_except_example : lookup (codes "id") (copy_except object (codes "id" ∷ [])) ≡ none
unfolding program
lookup-copy_except_example = lookup-copy_except object (codes "id" ∷ []) (codes "id") object-IsMap

lookup-add_custom_fields_example :
    lookup (codes "id") (add_custom_fields ((codes "id", 7) ∷ []) object) ≡ some 7
unfolding program
lookup-add_custom_fields_example =
    lookup-add_custom_fields ((codes "id", 7) ∷ []) object (codes "id") object-IsMap
