-- ===== src/Storage/Types.antt =====
-- legacy/mem/mem.go: entries, stores and errors.
use vc_go.Prelude.{List, Str}
use vc_go.Prelude.Dicts.{Dict}

-- `spi.Tag`
pub record Tag : Type 0 where
  pub name : Str
  pub value : Str

-- A value that is stored is never nil.
pub record DbEntry : Type 0 where
  pub value : Str
  pub tags : List Tag

-- `memStore`; `config` holds the tag names of the configuration.
pub record MemStore : Type 0 where
  pub name : Str
  pub db : Dict DbEntry
  pub config : List Str

pub data Error : Type 0 where
  empty_name store_not_found data_not_found empty_key nil_value no_keys no_operations : Error
  invalid_tag_name invalid_tag_value : Str → Error
  invalid_expression page_not_supported sort_not_supported iterator_exhausted : Error

pub data Result (A : Type 0) : Type 0 where
  ok : A → Result A
  err : Error → Result A

infixl 5 ◌>>=◌
abbrev pub ◌>>=◌ : {A B : Type 0} → Result A → (A → Result B) → Result B
err cause >>= next = err cause
ok value >>= next = next value
