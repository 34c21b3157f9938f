-- ===== src/Storage/Cursor.antt =====
-- legacy/mem/mem.go: `memIterator`.
use vc_go.Prelude.{
  ℕ, ◌+◌, Bool, true, false, ◌||◌, List, [], map, Option, none, some, if◌then◌else◌, length,
  get_elem?, ◌==◌, Str,
}
use vc_go.Prelude.Dicts.{Dict, keys}
use vc_go.Storage.Types.{Tag, DbEntry, iterator_exhausted, Result, ok, err}

pub record MemIterator : Type 0 where
  pub current_index : ℕ
  pub current_key : Str
  pub current_db_entry : DbEntry
  pub keys : List Str
  pub db_entries : List DbEntry

abbrev pub zero_entry : DbEntry
zero_entry = record { value = []; tags = [] }

-- What `Query` returns for its keys and entries.
unfoldable pub new_iterator : Dict DbEntry → MemIterator
new_iterator found = record {
  current_index = 0;
  current_key = [];
  current_db_entry = zero_entry;
  keys = keys found;
  db_entries = map (λ e. e.1) found;
}

-- `Next`; none for an index out of range, which panics.
unfoldable pub move_next : MemIterator → Option (Bool × MemIterator)
move_next m =
    if length m.db_entries == m.current_index || length m.db_entries == 0
    then some (false, record m { db_entries = [] })
    else elim (get_elem? m.keys m.current_index) [
      | none ↦ none
      | some k ↦ elim (get_elem? m.db_entries m.current_index) [
        | none ↦ none
        | some e ↦ some (
          true,
          record m { current_key = k; current_db_entry = e; current_index = m.current_index + 1 },
        )
      ]
    ]

unfoldable pub current_key_of : MemIterator → Result Str
current_key_of m = if length m.db_entries == 0 then err iterator_exhausted else ok m.current_key

unfoldable pub current_value : MemIterator → Result Str
current_value m =
    if length m.db_entries == 0 then err iterator_exhausted else ok m.current_db_entry.value

unfoldable pub current_tags : MemIterator → Result (List Tag)
current_tags m =
    if length m.db_entries == 0 then err iterator_exhausted else ok m.current_db_entry.tags

unfoldable pub total_items : MemIterator → ℕ
total_items m = length m.keys
