-- ===== src/External/Schema.antt =====
-- Alembic's operations on the schema of a PostgreSQL database, and SQLAlchemy's descriptions of
-- tables.
use events_api.Common.{ℕ, String, ◌≡◌, Bool, Option, none, some, List, ◌==◌, if◌then◌else◌}
use events_api.Common.Result.{Result, ok}

pub data ColumnType : Type 0 where
  uuid timestamptz integer json : ColumnType
  -- a text of at most so many characters
  string : ℕ → ColumnType

-- `current_timestamp`: the server default is CURRENT_TIMESTAMP.
pub record Column : Type 0 where
  pub name : String
  pub column_type : ColumnType
  pub nullable : Bool
  pub current_timestamp : Bool

-- A foreign key of a column: the table that it refers to, whose key is `id`, ON DELETE CASCADE.
pub record ForeignKey : Type 0 where
  pub column : String
  pub target : String

pub record Table : Type 0 where
  pub columns : List Column
  pub primary_key : String
  pub foreign_keys : List ForeignKey

pub record Index : Type 0 where
  pub on : String
  pub indexed : List String
  pub unique : Bool

pub record Schema : Type 1 where
  pub State : Type 0
  pub create_table : String → Table → State → Result (Unit {0}) × State
  pub drop_table : String → State → Result (Unit {0}) × State
  pub create_index : String → Index → State → Result (Unit {0}) × State
  pub drop_index : String → State → Result (Unit {0}) × State
  pub table : String → State → Option Table
  pub index : String → State → Option Index

abbrev pub index_without : String → Option Index → Option Index
index_without name none = none
index_without name (some i) = if name == i.on then none else some i

-- A name can be created that is not there, and dropped that is; a table is dropped with its
-- indexes.
pub record SchemaLaws (S : Schema) : Type 0 where
  pub table-created :
      (n : String) (t : Table) (s : S.State)
      → S.table n s ≡ none
      → ((S.create_table n t s).0 ≡ ok tt)
        × ((m : String)
            → S.table m (S.create_table n t s).1 ≡ (if n == m then some t else S.table m s))
        × ((i : String) → S.index i (S.create_table n t s).1 ≡ S.index i s)
  pub table-dropped :
      (n : String) (t : Table) (s : S.State)
      → S.table n s ≡ some t
      → ((S.drop_table n s).0 ≡ ok tt)
        × ((m : String) → S.table m (S.drop_table n s).1 ≡ (if n == m then none else S.table m s))
        × ((i : String) → S.index i (S.drop_table n s).1 ≡ index_without n (S.index i s))
  pub index-created :
      (n : String) (x : Index) (t : Table) (s : S.State)
      → S.index n s ≡ none
      → S.table x.on s ≡ some t
      → ((S.create_index n x s).0 ≡ ok tt)
        × ((i : String)
            → S.index i (S.create_index n x s).1 ≡ (if n == i then some x else S.index i s))
        × ((m : String) → S.table m (S.create_index n x s).1 ≡ S.table m s)
  pub index-dropped :
      (n : String) (x : Index) (s : S.State)
      → S.index n s ≡ some x
      → ((S.drop_index n s).0 ≡ ok tt)
        × ((i : String) → S.index i (S.drop_index n s).1 ≡ (if n == i then none else S.index i s))
        × ((m : String) → S.table m (S.drop_index n s).1 ≡ S.table m s)
