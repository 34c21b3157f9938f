-- ===== src/Storage/Provider.antt =====
-- legacy/mem/mem.go: `Provider`. Handles share the stores that they point at, so the stores lie on a
-- heap: a handle is the address of a store, and the provider's map leads from names to addresses.
use vc_go.Prelude.{
  ℕ, List, [], ◌∷◌, ◌++◌, map, none, some, if◌then◌else◌, length, get_elem?, set, Str,
}
use vc_go.Prelude.Dicts.{Dict, lookup, insert, delete}
use vc_go.Prelude.Strings.{contains_byte}
use vc_go.Storage.Types.{
  MemStore, empty_name, store_not_found, invalid_tag_name, Result, ok, err, ◌>>=◌,
}

pub record Memory : Type 0 where
  pub stores : List MemStore
  pub dbs : Dict ℕ

unfoldable pub new_provider : Memory
new_provider = record { stores = []; dbs = [] }

unfoldable pub empty_store : Str → MemStore
empty_store name = record { name = name; db = []; config = [] }

-- `lower` is `strings.ToLower`.
module _ (lower : Str → Str) where
  unfoldable pub open_named : Str → Memory → ℕ × Memory
  open_named store_name w = elim (lookup store_name w.dbs) [
    | some a ↦ (a, w)
    | none ↦ (
      length w.stores,
      record {
        stores = w.stores ++ empty_store store_name ∷ [];
        dbs = insert store_name (length w.stores) w.dbs;
      },
    )
  ]

  unfoldable pub open_store : Str → Memory → Result (ℕ × Memory)
  open_store [] w = err empty_name
  open_store (c ∷ name) w = ok (open_named (lower (c ∷ name)) w)

  unfoldable pub check_tag_names : List Str → Result (Unit {0})
  check_tag_names [] = ok tt
  check_tag_names (tag_name ∷ tag_names) =
      if contains_byte b':' tag_name
      then err (invalid_tag_name tag_name)
      else check_tag_names tag_names

  unfoldable pub set_store_config : Str → List Str → Memory → Result Memory
  set_store_config name tag_names w = check_tag_names tag_names >>= λ _.
      elim (lookup (lower name) w.dbs) [
        | none ↦ err store_not_found
        | some a ↦ elim (get_elem? w.stores a) [
          | none ↦ err store_not_found
          | some m ↦ ok (record w { stores = set w.stores a (record m { config = tag_names }) })
        ]
      ]

  unfoldable pub get_store_config : Str → Memory → Result (List Str)
  get_store_config name w = elim (lookup (lower name) w.dbs) [
    | none ↦ err store_not_found
    | some a ↦ elim (get_elem? w.stores a) [ none ↦ err store_not_found | some m ↦ ok m.config ]
  ]

unfoldable pub get_open_stores : Memory → List ℕ
get_open_stores w = map (λ e. e.1) w.dbs

unfoldable pub close_provider : Memory → Memory
close_provider w = record w { dbs = [] }

unfoldable pub remove_store : Str → Memory → Memory
remove_store name w = elim (lookup name w.dbs) [
  | none ↦ w
  | some a ↦ record w { dbs = delete name w.dbs }
]

-- The store's own `Close` calls `removeStore` with its name.
unfoldable pub close_store : ℕ → Memory → Memory
close_store a w = elim (get_elem? w.stores a) [ none ↦ w | some m ↦ remove_store m.name w ]

-- A method through a handle.
unfoldable pub change_store : ℕ → (MemStore → Result MemStore) → Memory → Result Memory
change_store a method w = elim (get_elem? w.stores a) [
  | none ↦ err store_not_found
  | some m ↦ method m >>= λ m'. ok (record w { stores = set w.stores a m' })
]

unfoldable pub read_store : {A : Type 0} → ℕ → (MemStore → Result A) → Memory → Result A
read_store a method w = elim (get_elem? w.stores a) [
  | none ↦ err store_not_found
  | some m ↦ method m
]
