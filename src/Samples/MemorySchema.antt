-- ===== src/Samples/MemorySchema.antt =====
-- A schema as two functions from names.
use events_api.Common.{String, refl, Option, none, some, ◌==◌, if◌then◌else◌}
use events_api.Common.Result.{Result, ok, raise, other_error}
use events_api.External.Schema.{Table, Index, Schema, SchemaLaws, index_without}

pub record Names : Type 0 where
  pub tables : String → Option Table
  pub indexes : String → Option Index

-- what is at a name, replaced
abbrev put {ℓ} : {A : Type ℓ} → String → A → (String → A) → String → A
put n a f m = if n == m then a else f m

-- an operation that wants a name to be free, or to be taken
abbrev where_free {ℓ} : {A : Type ℓ} → Option A → Names → Names → Result (Unit {0}) × Names
where_free none new old = (ok tt, new)
where_free (some a) new old = (raise other_error, old)

abbrev where_taken {ℓ} : {A : Type ℓ} → Option A → Names → Names → Result (Unit {0}) × Names
where_taken none new old = (raise other_error, old)
where_taken (some a) new old = (ok tt, new)

abbrev pub memory_schema : Schema
memory_schema = record {
  State = Names;
  create_table = λ n t s. where_free (s.tables n) (record s { tables = put n (some t) s.tables }) s;
  drop_table = λ n s.
      where_taken (s.tables n)
        (record { tables = put n none s.tables; indexes = λ i. index_without n (s.indexes i) }) s;
  create_index =
      λ n x s. where_free (s.indexes n) (record s { indexes = put n (some x) s.indexes }) s;
  drop_index = λ n s. where_taken (s.indexes n) (record s { indexes = put n none s.indexes }) s;
  table = λ n s. s.tables n;
  index = λ n s. s.indexes n;
}

pub memory_schema_laws : SchemaLaws memory_schema
memory_schema_laws = record {
  table-created = λ n t s h. rw h (refl, λ m. refl, λ i. refl);
  table-dropped = λ n t s h. rw h (refl, λ m. refl, λ i. refl);
  index-created = λ n x t s h g. rw h (refl, λ i. refl, λ m. refl);
  index-dropped = λ n x s h. rw h (refl, λ i. refl, λ m. refl);
}
