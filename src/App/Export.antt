-- ===== src/App/Export.antt =====
use Prim.Native.String.{◌++◌ as text_append}
use psychron.App.{Reply, Stamp, describe_quality, http_error, parse_range, reply}
use psychron.App.Routes.{with_range}
use psychron.Base.{
  Bool, List, Option, String, [], false, if◌then◌else◌, leb, ltb, none, some, str_eq, true, ℕ, ◌*◌,
  ◌++◌, ◌||◌, ◌∷◌,
}
use psychron.Database.{Database}
use psychron.Instant.{Instant}
use psychron.Psychrometrics.{Arithmetic, Derivation, derive}
use psychron.Queries.{count_readings, stream_readings}
use psychron.Raise.{Error, Result, ok, raise}
use psychron.Telemetry.{ResolvedReading}

-- backend/src/psychron/api/app.py: the export and its preview. A generator is the list of what it
-- yields with the exception that ends it, if one does. The encoders of CSV, JSON and spreadsheets
-- are parameters.

abbrev pub Yields : Type 0 → Type 0
Yields A = List A × Option Error

-- a row of the export
pub record ExportRow (F : Type 0) : Type 0 where
  pub row : ResolvedReading F
  pub derived : Derivation F
  pub flags : List String

module _ {F : Type 0} (num : Arithmetic F) where
  abbrev pub then_yields : ExportRow F → Yields (ExportRow F) → Yields (ExportRow F)
  then_yields row (rows, ended) = (row ∷ rows, ended)

  unfoldable pub derive_rows : List (ResolvedReading F) → Yields (ExportRow F)
  unfolding derive describe_quality
  derive_rows [] = ([], none)
  derive_rows (r ∷ rows) =
      let rest = derive_rows rows in
      elim (derive num r.temperature_c r.humidity_pct) [
        | raise e ↦ ([], some e)
        | ok derived ↦
            then_yields (record { row = r; derived = derived; flags = describe_quality r.quality })
              rest
      ]

  unfoldable pub export_rows : String → Instant → Instant → Database F → Yields (ExportRow F)
  unfolding derive_rows stream_readings
  export_rows device_id start stop db = derive_rows (stream_readings device_id start stop db)

  -- `json_stream`, after its head: a comma before each row but the first, and the end, which is not
  -- reached past an exception
  unfoldable pub json_rows : (ExportRow F → String) → Bool → List (ExportRow F) → List String
  json_rows dumps first [] = []
  json_rows dumps first (row ∷ rows) =
      text_append (if first then "" else ",") (dumps row) ∷ json_rows dumps false rows

  unfoldable pub json_stream :
      (ExportRow F → String) → String → Yields (ExportRow F) → Yields String
  unfolding json_rows
  json_stream dumps head (rows, none) = (head ∷ json_rows dumps true rows ++ ("]}" ∷ []), none)
  json_stream dumps head (rows, some e) = (head ∷ json_rows dumps true rows, some e)

-- what `export` answers with
pub data Download : Type 0 where
  csv_file json_file spreadsheet : Download

abbrev pub spreadsheet_limit : ℕ
spreadsheet_limit = 200000

module _ {F : Type 0} where
  -- the choice of `export`, once the range is let through
  unfoldable pub choose_download :
      String → String → Database F → Instant → Instant → Result (Reply Download)
  unfolding count_readings
  choose_download fmt device_id db start stop =
      if str_eq fmt "csv"
      then ok (reply csv_file)
      else if str_eq fmt "json"
      then ok (reply json_file)
      else if str_eq fmt "xlsx" || str_eq fmt "excel"
      then (if ltb spreadsheet_limit (count_readings device_id start stop db)
          then ok (http_error 413)
          else ok (reply spreadsheet))
      else ok (http_error 400)

  -- `GET /api/export`
  unfoldable pub export :
      (String → Result Stamp)
      → String
      → String
      → Option String
      → Option String
      → Instant
      → Database F
      → Result (Reply Download)
  unfolding choose_download parse_range
  export fromisoformat fmt device_id frm to now db =
      with_range (choose_download fmt device_id db) (parse_range fromisoformat frm to now)

  -- `GET /api/export/preview`: the rows, the estimate in bytes, and whether a spreadsheet is offered
  unfoldable pub export_preview :
      (String → Result Stamp)
      → String
      → Option String
      → Option String
      → Instant
      → Database F
      → Result (Reply (ℕ × ℕ × Bool))
  unfolding count_readings parse_range
  export_preview fromisoformat device_id frm to now db =
      with_range
        (λ start stop.
          let rows = count_readings device_id start stop db in
          ok (reply (rows, rows * 180, leb rows spreadsheet_limit)))
        (parse_range fromisoformat frm to now)
