-- ===== src/Admin/Layout/Edits.antt =====
-- internal/admin/policy.go: the edits of the policy's text, from `appendProject` to `consumeNewline`.
-- `json_text` and `json_argv` stand for `json.Marshal` of a text and of a list of texts. A slice with
-- bounds out of order, at which Go panics, is the error `out_of_range`.
pub mod Bounds
pub mod Removal
pub mod Place
pub mod Steps
pub mod Confined
use Prim.Native.String
use secrets_broker.Base.{
  ℕ, zero, suc, ◌+◌, ◌-◌, String, not, ◌&&◌, ◌||◌, Option, none, some, List, [], ◌∷◌, ◌==◌, eqb,
  ltb, if◌then◌else◌, length, Result, ok, err, reject, ◌>>=◌, ◌>>◌,
}
use secrets_broker.Go.{contains, join, is_blank}
use secrets_broker.Go.Slices.{text_length, text_take, text_drop, starts_line, ends_line, has_suffix}
use secrets_broker.Config.{Project, approval_allowlisted_prompt}
use secrets_broker.Admin.Layout.Lines.{
  Span, find_all, header_match, project_header, allow_header, argv_match, field_match,
}

pub data LayoutError : Type 0 where
  one_block_per_project project_outside several_approvals : LayoutError
  one_field_expected : String → LayoutError
  one_block_per_entry entry_outside one_argv_per_entry overlapping out_of_range : LayoutError

-- `text[from:to]`.
unfoldable pub slice : String → ℕ → ℕ → Result LayoutError String
slice text from to =
    if ltb to from || ltb (text_length text) to
    then err out_of_range
    else ok (text_take (to - from) (text_drop from text))

-- The line ending of the file.
unfoldable pub newline_of : String → String
newline_of text = if contains text "\r\n" then "\r\n" else "\n"

-- A header with the position at which its block ends: the next header, or the end of the text.
pub record Block : Type 0 where
  pub header : Span
  pub stop : ℕ

unfoldable pub block_at : List Span → ℕ → ℕ → Option Block
block_at [] end index = none
block_at (h ∷ []) end zero = some (record { header = h; stop = end })
block_at (h ∷ g ∷ rest) end zero = some (record { header = h; stop = g.start })
block_at (h ∷ rest) end (suc index) = block_at rest end index

pub or_outside : LayoutError → Option Block → Result LayoutError Block
or_outside e none = err e
or_outside e (some b) = ok b

project_headers : String → List Span
project_headers text = find_all (header_match project_header) text

unfoldable pub project_block : String → ℕ → ℕ → Result LayoutError Block
unfolding project_headers or_outside
project_block text count index = do
  reject (not (eqb (length (project_headers text)) count)) one_block_per_project
  or_outside project_outside (block_at (project_headers text) (text_length text) index)

-- `projectBlockBounds`.
unfoldable pub project_block_bounds : String → ℕ → ℕ → Result LayoutError Span
unfolding project_block
project_block_bounds text count index = do
  block ← project_block text count index
  ok (record { start = block.header.stop; stop = block.stop })

-- The text with `value` in the place of the characters from `from` up to `to`.
unfoldable pub splice : String → ℕ → ℕ → String → Result LayoutError String
unfolding slice
splice text from to value = do
  front ← slice text 0 from
  back ← slice text to (text_length text)
  ok (String.◌++◌ front (String.◌++◌ value back))

-- A newline in front of what is put after `front`, unless it ends a line or is empty.
open_line : String → String → String
open_line newline front = if is_blank front || ends_line front then "" else newline

pub put_line : String → ℕ → String → Result LayoutError String
unfolding open_line slice splice
put_line text at line = do
  front ← slice text 0 at
  splice text at at (String.◌++◌ (open_line (newline_of text) front) line)

first_start : ℕ → List Span → ℕ
first_start end [] = end
first_start end (h ∷ rest) = h.start

-- `replaceApproval`, by the matches of the field and of the headers in the block from `start` up to `end`.
approval_line : String → String → String
approval_line text approval =
    String.◌++◌ (String.◌++◌ (String.◌++◌ "approval = \"" approval) "\"") (newline_of text)

pub replace_matched : String → Span → String → List Span → List Span → Result LayoutError String
unfolding splice put_line first_start approval_line
replace_matched text b approval [] allows =
    put_line text (b.start + first_start (b.stop - b.start) allows) (approval_line text approval)
replace_matched text b approval (m ∷ []) allows =
    splice text (b.start + m.start) (b.start + m.stop)
      (String.◌++◌ (String.◌++◌ "\"" approval) "\"")
replace_matched text b approval (m ∷ n ∷ ms) allows = err several_approvals

unfoldable pub replace_approval : String → ℕ → ℕ → String → Result LayoutError String
unfolding replace_matched slice project_block_bounds
replace_approval text count index approval = do
  b ← project_block_bounds text count index
  block ← slice text b.start b.stop
  replace_matched text b approval (find_all (field_match "approval") block)
      (find_all (header_match allow_header) block)

-- `replaceProjectField`.
pub replace_single : String → ℕ → String → String → List Span → Result LayoutError String
unfolding splice
replace_single text start field encoded (m ∷ []) =
    splice text (start + m.start) (start + m.stop) encoded
replace_single text start field encoded _ = err (one_field_expected field)

module _ (json_text : String → String) where
  unfoldable pub replace_project_field :
      String → ℕ → ℕ → String → String → Result LayoutError String
  unfolding replace_single slice project_block_bounds
  replace_project_field text count index field value = do
    b ← project_block_bounds text count index
    block ← slice text b.start b.stop
    replace_single text b.start field (json_text value) (find_all (field_match field) block)

  -- `appendProject`.
  closed_text : String → String → String
  closed_text newline text =
      if is_blank text || has_suffix text newline then text else String.◌++◌ text newline

  spaced_text : String → String → String
  spaced_text newline text =
      if is_blank text || has_suffix text (String.◌++◌ newline newline)
      then text
      else String.◌++◌ text newline

  project_lines : Project → List String
  project_lines p =
      "[[projects]]"
      ∷ String.◌++◌ "alias = " (json_text p.alias)
      ∷ String.◌++◌ "bws_project_id = " (json_text p.bws_project_id)
      ∷ String.◌++◌ "token_entry = " (json_text p.token_entry)
      ∷ String.◌++◌ "working_dir = " (json_text p.working_dir)
      ∷ String.◌++◌ (String.◌++◌ "approval = \"" approval_allowlisted_prompt) "\""
      ∷ []

  unfoldable pub append_project : String → Project → String
  unfolding closed_text spaced_text project_lines
  append_project text p =
      let newline = newline_of text in
      String.◌++◌ (spaced_text newline (closed_text newline text))
        (String.◌++◌ (join (project_lines p) newline) newline)

module _ (json_argv : List String → String) where
  entry_lines : String → List String → String
  entry_lines newline argv =
      String.◌++◌ "  [[projects.allow]]"
        (String.◌++◌ newline (String.◌++◌ "  argv = " (String.◌++◌ (json_argv argv) newline)))

  -- `insertAllowEntry`.
  unfoldable pub insert_allow_entry : String → ℕ → ℕ → ℕ → List String → Result LayoutError String
  unfolding entry_lines put_line slice project_block_bounds
  insert_allow_entry text count index allow_count argv = do
    b ← project_block_bounds text count index
    block ← slice text b.start b.stop
    reject (not (eqb (length (find_all (header_match allow_header) block)) allow_count))
        one_block_per_entry
    put_line text b.stop (entry_lines (newline_of text) argv)

-- `consumeNewline`.
unfoldable pub consume_newline : String → ℕ → ℕ
consume_newline text index = if starts_line (text_drop index text) then index + 1 else index

pub single_argv : List Span → Result LayoutError Span
single_argv (m ∷ []) = ok m
single_argv _ = err one_argv_per_entry

-- The spans of one entry to remove, its header's and its argv's; `block` begins at `start` of the text.
entry_spans : String → ℕ → String → List Span → ℕ → Result LayoutError (Span × Span)
unfolding single_argv slice or_outside
entry_spans text start block headers index = do
  entry ← or_outside entry_outside (block_at headers (text_length block) index)
  section ← slice block entry.header.stop entry.stop
  m ← single_argv (find_all argv_match section)
  ok (
    record {
      start = start + entry.header.start;
      stop = consume_newline text (start + entry.header.stop);
    },
    record {
      start = start + entry.header.stop + m.start;
      stop = consume_newline text (start + entry.header.stop + m.stop);
    },
  )

pub all_spans : String → ℕ → String → List Span → List ℕ → Result LayoutError (List Span)
unfolding entry_spans
all_spans text start block headers [] = ok []
all_spans text start block headers (index ∷ rest) = do
  pair ← entry_spans text start block headers index
  spans ← all_spans text start block headers rest
  ok (pair.0 ∷ pair.1 ∷ spans)

-- What is left of the text from `cursor` on when the spans are cut out.
unfoldable pub cut_spans : String → ℕ → List Span → Result LayoutError String
unfolding slice
cut_spans text cursor [] = slice text cursor (text_length text)
cut_spans text cursor (s ∷ rest) = do
  reject (ltb s.start cursor) overlapping
  front ← slice text cursor s.start
  back ← cut_spans text s.stop rest
  ok (String.◌++◌ front back)

-- `removeAllowEntries`.
unfoldable pub remove_allow_entries : String → ℕ → ℕ → ℕ → List ℕ → Result LayoutError String
unfolding all_spans cut_spans slice project_block_bounds
remove_allow_entries text count index allow_count remove = do
  b ← project_block_bounds text count index
  block ← slice text b.start b.stop
  let headers = find_all (header_match allow_header) block
  reject (not (eqb (length headers) allow_count)) one_block_per_entry
  spans ← all_spans text b.start block headers remove
  cut_spans text 0 spans

-- `removeProjectSpan`.
unfoldable pub remove_project_span : String → ℕ → ℕ → Result LayoutError String
unfolding splice project_block
remove_project_span text count index = do
  block ← project_block text count index
  splice text block.header.start block.stop ""
