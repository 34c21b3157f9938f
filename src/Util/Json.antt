-- ===== src/Util/Json.antt =====
-- util/json/json.go: copies, splits and merges of JSON objects. A loop over a Go map takes its entries
-- in the order of the association list; a function that changes its argument returns it.
use vc_go.Prelude.{Bool, true, not, List, [], ◌∷◌, Option, none, some, if◌then◌else◌, Str}
use vc_go.Prelude.Dicts.{Dict, lookup, insert, delete}
use vc_go.Requirement.Sets.{has}

module _ {V : Type 0} where
  -- Assigns the entries whose key passes the test.
  unfoldable pub copy_where : (Str → Bool) → Dict V → Dict V → Dict V
  copy_where p [] out = out
  copy_where p ((k, v) ∷ m) out = copy_where p m (if p k then insert k v out else out)

  unfoldable pub split_json_obj : Dict V → List Str → Dict V × Dict V
  split_json_obj json flds =
      (copy_where (λ k. has flds k) json [], copy_where (λ k. not (has flds k)) json [])

  unfoldable pub shallow_copy_obj : Dict V → Dict V
  shallow_copy_obj json = copy_where (λ k. true) json []

  unfoldable pub delete_all : Dict V → List Str → Dict V
  delete_all json [] = json
  delete_all json (fld ∷ flds) = delete_all (delete fld json) flds

  unfoldable pub copy_except : Dict V → List Str → Dict V
  copy_except json flds = delete_all (shallow_copy_obj json) flds

  -- `nil_value` is what Go reads under a key that is missing.
  unfoldable pub select_from : V → Dict V → List Str → Dict V → Dict V
  select_from nil_value json [] out = out
  select_from nil_value json (fld ∷ flds) out =
      select_from nil_value json flds
        (insert fld (elim (lookup fld json) [ none ↦ nil_value | some v ↦ v ]) out)

  unfoldable pub select_fields : V → Dict V → List Str → Dict V
  select_fields nil_value json flds = select_from nil_value json flds []

  unfoldable pub add_custom_fields : Dict V → Dict V → Dict V
  add_custom_fields obj [] = obj
  add_custom_fields obj ((k, v) ∷ cf) =
      add_custom_fields (elim (lookup k obj) [ none ↦ insert k v obj | some _ ↦ obj ]) cf

  -- `to_map` is `ToMap`, which marshals a value and parses the result.
  unfoldable pub merge_custom_fields :
      {A : Type 0} → (A → Option (Dict V)) → A → Dict V → Option (Dict V)
  merge_custom_fields to_map v cf = elim (to_map v) [
    | none ↦ none
    | some kf ↦ some (add_custom_fields kf cf)
  ]

  unfoldable pub marshal_with_custom_fields :
      {A B : Type 0} → (A → Option (Dict V)) → (Dict V → Option B) → A → Dict V → Option B
  marshal_with_custom_fields to_map marshal v cf = elim (merge_custom_fields to_map v cf) [
    | none ↦ none
    | some vm ↦ marshal vm
  ]

  -- The last loop: the entries that the value does not have.
  unfoldable pub collect_custom : Dict V → Dict V → Dict V → Dict V
  collect_custom vf [] cf = cf
  collect_custom vf ((k, v) ∷ af) cf =
      collect_custom vf af (elim (lookup k vf) [ none ↦ insert k v cf | some _ ↦ cf ])

  -- The value and the custom fields. `parse` reads the value, `to_map` marshals it and reads it as a
  -- map, and `parse_map` reads the data as a map.
  unfoldable pub unmarshal_with_custom_fields :
      {A B : Type 0}
      → (B → Option A)
      → (A → Option (Dict V))
      → (B → Option (Dict V))
      → B
      → Dict V
      → Option (A × Dict V)
  unmarshal_with_custom_fields parse to_map parse_map source cf = elim (parse source) [
    | none ↦ none
    | some v ↦ elim (to_map v) [
      | none ↦ none
      | some vf ↦ elim (parse_map source) [
        | none ↦ none
        | some af ↦ some (v, collect_custom vf af cf)
      ]
    ]
  ]
