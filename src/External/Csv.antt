-- ===== src/External/Csv.antt =====
-- `csv.writer` and `csv.DictReader`: a file of a header and rows that is written is read back.
use events_api.Common.{String, ◌≡◌, false, some, List, [], ◌∷◌, map, ◌==◌}
use events_api.Common.Result.{ok}
use events_api.Events.Import.{CsvRow, CsvFile}

-- the dict of a row under the names of its columns
abbrev pub dict_row : List String → List String → CsvRow
dict_row [] values = []
dict_row (name ∷ names) [] = []
dict_row (name ∷ names) (value ∷ values) = (name, some value) ∷ dict_row names values

pub record Csv : Type 0 where
  pub write : List String → List (List String) → CsvFile

pub record CsvLaws (c : Csv) : Type 0 where
  pub line :
      (name : String) (names : List String) (rows : List (List String))
      → ((c.write (name ∷ names) rows).header_line == "") ≡ false
  pub header :
      (names : List String) (rows : List (List String)) → (c.write names rows).header ≡ ok names
  pub rows :
      (names : List String) (rows : List (List String))
      → (c.write names rows).rows names ≡ map (λ row. ok (dict_row names row)) rows
