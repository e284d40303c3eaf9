-- ===== src/Tests/Failing.antt =====
-- `CsvProcessor::handle` (src/impl/CsvProcessor.cpp) of a file with a row that fails.
use csv_to_kafka_using_cpp.Prelude.{
  false, none, some, List, [], ◌∷◌, ◌++◌, ◌≡◌, ◌∙◌, refl, arith, if◌then◌else◌, is_empty,
}
use csv_to_kafka_using_cpp.Prelude.Text.{Text, codes, text_eq, assign}
use csv_to_kafka_using_cpp.Prelude.Dict.{find}
use csv_to_kafka_using_cpp.Prelude.Int.{pos, negsuc, stol}
use csv_to_kafka_using_cpp.Prelude.Result.{ok, throws, Exception, std_exception}
use csv_to_kafka_using_cpp.Csv.Row.{CsvRow, empty_row, set_columns, parse_line}
use csv_to_kafka_using_cpp.Csv.Row.Split.{parse_line-split}
use csv_to_kafka_using_cpp.Csv.Row.Fields.{split, action, fields_of, store_columns}
use csv_to_kafka_using_cpp.Csv.Stream.{cut, getline, good}
use csv_to_kafka_using_cpp.Csv.Iterator.{header_columns, read_columns}
use csv_to_kafka_using_cpp.Csv.Iterator.ByLine.{lines_from, lines_of, body_of, first_row}
use csv_to_kafka_using_cpp.Transformers.{operations}
use csv_to_kafka_using_cpp.Util.{string_datum, create_datum_for_type}
use csv_to_kafka_using_cpp.Config.Schemas.{Avro, SchemaConfig, field_name, type_name, string_schema}
use csv_to_kafka_using_cpp.Processor.State.{Library, World, Message, value}
use csv_to_kafka_using_cpp.Processor.Publish.{is_older}
use csv_to_kafka_using_cpp.Processor.Publish.Filling.{
  row_old, throwing, filled, stopped, Fills, no_columns, fills, aged, not_set, unchecked, young,
  old,
}
use csv_to_kafka_using_cpp.Processor.Publish.Messages.{
  full_then_taken, frame, Sends, all_sent, sends, stops, no_more, taken,
}
use csv_to_kafka_using_cpp.Processor.Handle.{Directory, Site, handle}
use csv_to_kafka_using_cpp.Processor.Handle.Files.{IsMoved}
use csv_to_kafka_using_cpp.Processor.Handle.Messages.{handle-LinesSend}
use csv_to_kafka_using_cpp.Processor.Handle.Rows.{LinesSend, no_lines, line_sends}
use csv_to_kafka_using_cpp.Tests.Instances.{floats, avro, datum_text, library}

abbrev refusal : Exception
refusal = std_exception (codes "no value")

-- An Avro that refuses an empty value.
abbrev strict_avro : Avro floats
strict_avro = record avro {
  set_field =
      λ r name d. if is_empty (datum_text d) then throws refusal else ok (r ++ (name, d) ∷ []);
}

-- The age in the column `id` is at most 20000 days.
abbrev strict : Library
strict = record library { avro = strict_avro; max_age_config = some (codes "id", pos 20000) }

abbrev topic : SchemaConfig strict_avro
topic = record {
  name = codes "a";
  key_column = codes "id";
  columns = codes "id" ∷ codes "name" ∷ [];
  column_map = [];
  column_type_transforms = [];
  schema = (codes "name", string_schema) ∷ [];
  schema_id = pos 1;
}

abbrev world : World strict
world = record {
  m_schemas = (codes "a", topic) ∷ [];
  registry = none;
  responses = full_then_taken 1 [] ∷ [];
  produced = [];
  polls = 0;
  flushes = 0;
  readings = 0;
  old_count = 0;
  interrupted = false;
}

abbrev path : Text
path = codes "in/a.csv"

abbrev content : Text
content = codes "id,name\n7,x\n8,\n-99999999,y\n"

abbrev files : Directory
files p = if text_eq p path then some content else none

abbrev site : Site strict
site = record { files = files; active_processors = 3; world = world; reports = [] }

there : files path ≡ some content
unfolding text_eq
there = refl

abbrev header : List Text
header = codes "id" ∷ codes "name" ∷ []

file_lines : lines_of (body_of content) ≡ codes "7,x" ∷ codes "8," ∷ codes "-99999999,y" ∷ []
unfolding lines_from cut
file_lines = refl

file_row : first_row content ≡ record empty_row { m_columns = header }
unfolding set_columns header_columns read_columns getline good cut
file_row = refl

abbrev row_seven : CsvRow
row_seven = record {
  m_line = codes "7,x";
  m_fields = codes "7" ∷ codes "x" ∷ [];
  m_data = [];
  m_columns = header;
  m_map_data = assign (assign (λ _. []) (codes "id") (codes "7")) (codes "name") (codes "x");
}

abbrev row_eight : CsvRow
row_eight = record {
  m_line = codes "8,";
  m_fields = codes "8" ∷ [] ∷ [];
  m_data = [];
  m_columns = header;
  m_map_data = assign (assign row_seven.m_map_data (codes "id") (codes "8")) (codes "name") [];
}

abbrev row_early : CsvRow
row_early = record {
  m_line = codes "-99999999,y";
  m_fields = codes "-99999999" ∷ codes "y" ∷ [];
  m_data = [];
  m_columns = header;
  m_map_data =
      assign (assign row_eight.m_map_data (codes "id") (codes "-99999999")) (codes "name")
        (codes "y");
}

early_fields : fields_of (codes "-99999999,y") ≡ codes "-99999999" ∷ codes "y" ∷ []
unfolding split action
early_fields = refl

seven_fields : fields_of (codes "7,x") ≡ codes "7" ∷ codes "x" ∷ []
unfolding split action
seven_fields = refl

eight_fields : fields_of (codes "8,") ≡ codes "8" ∷ [] ∷ []
unfolding split action
eight_fields = refl

seven_read :
    parse_line (record empty_row { m_line = codes "7,x"; m_columns = header }) ≡ ok row_seven
unfolding store_columns
seven_read = parse_line-split _ ∙ rw seven_fields refl

eight_read : parse_line (record row_seven { m_line = codes "8," }) ≡ ok row_eight
unfolding store_columns
eight_read = parse_line-split _ ∙ rw eight_fields refl

early_read : parse_line (record row_eight { m_line = codes "-99999999,y" }) ≡ ok row_early
unfolding store_columns
early_read = parse_line-split _ ∙ rw early_fields refl

abbrev messages : List Message
messages = record { topic = codes "a"; value = frame (pos 1) (codes "7x"); key = codes "7" } ∷ []

seven-Fills :
    Fills strict topic row_seven topic.columns [] 0
      (filled
        ((codes "id", string_datum (codes "7")) ∷ (codes "name", string_datum (codes "x")) ∷ []))
      1
unfolding assign text_eq field_name type_name create_datum_for_type find stol is_older
seven-Fills =
    fills _ (young (codes "id") (pos 20000) (pos 7) refl refl refl refl) refl refl
      (fills _ (unchecked refl) refl refl no_columns)

seven-Sends : Sends strict row_seven [] world.m_schemas 0 messages none 1
unfolding assign text_eq
seven-Sends = sends _ (codes "7x") seven-Fills refl refl all_sent

-- The value of the second field is refused, behind the check of the age.
eight-Fills : Fills strict topic row_eight topic.columns [] 1 (stopped (throwing refusal)) 2
unfolding assign text_eq field_name type_name create_datum_for_type find stol is_older
eight-Fills =
    fills _ (young (codes "id") (pos 20000) (pos 8) refl refl refl refl) refl refl
      (not_set (unchecked refl) refl refl)

early-Fills : Fills strict topic row_early topic.columns [] 2 (stopped row_old) 3
unfolding assign text_eq field_name find stol is_older
early-Fills = aged (old (codes "id") (pos 20000) (negsuc 99999998) refl refl refl refl)

file-LinesSend :
    LinesSend strict [] world.m_schemas
      (lines_of (body_of content))
      (first_row content)
      0
      messages
      1
      3
unfolding operations
file-LinesSend =
    rw (file_lines, file_row)
      (line_sends row_seven seven_read seven-Sends (
        line_sends row_eight eight_read (stops eight-Fills)
          (line_sends row_early early_read (stops early-Fills) no_lines)))

handle-LinesSend_example :
    ((handle strict [] path site).1 ≡ value tt)
    × ((handle strict [] path site).0.world.produced ≡ site.world.produced ++ messages)
    × ((handle strict [] path site).0.world.responses ≡ [])
    × IsMoved path content site.files (handle strict [] path site).0.files
    × ((handle strict [] path site).0.active_processors ≡ site.active_processors)
handle-LinesSend_example =
    handle-LinesSend strict [] path content site there (omega arith) file-LinesSend
      (taken 1 [] no_more) (omega arith)
