-- ===== src/Admin/Layout/Lines.antt =====
-- internal/admin/policy.go: the patterns of the lines, and the search for all their matches.
pub mod Within
pub mod Starts
use Prim.Native.String
use secrets_broker.Base.{
  ℕ, ◌+◌, ◌-◌, String, code, Bool, true, false, ◌||◌, Option, none, some, List, [], ◌∷◌, ◌==◌, eqb,
  if◌then◌else◌,
}
use secrets_broker.Go.Slices.{text_length}

-- The characters from one position up to another; also `byteSpan`.
pub record Span : Type 0 where
  pub start : ℕ
  pub stop : ℕ

-- `[\t ]*`.
unfoldable pub skip_blanks : String → String
skip_blanks String.[] = ""
skip_blanks (String.◌∷◌ c s) =
    let rest = skip_blanks s in if eqb (code c) 9 || eqb (code c) 32 then rest else String.◌∷◌ c s

-- A fixed text at the front: what follows it.
unfoldable pub strip_text : String → String → Option String
strip_text String.[] s = some s
strip_text (String.◌∷◌ p ps) String.[] = none
strip_text (String.◌∷◌ p ps) (String.◌∷◌ c s) =
    let rest = strip_text ps s in if eqb (code p) (code c) then rest else none

-- `[^\r\n]*\r?$`, in a line.
unfoldable pub is_line_text : String → Bool
is_line_text String.[] = true
is_line_text (String.◌∷◌ c s) =
    let rest = is_line_text s in if eqb (code c) 13 then s == "" else rest

-- `(?:#[^\r\n]*)?\r?$`, in a line.
unfoldable pub is_comment : String → Bool
unfolding is_line_text
is_comment String.[] = true
is_comment (String.◌∷◌ c s) = if eqb (code c) b'#' then is_line_text s else String.◌∷◌ c s == "\r"

unfoldable pub is_tail : String → Bool
unfolding skip_blanks is_comment
is_tail s = is_comment (skip_blanks s)

-- A line's match, by the text that must follow its fixed part.
when_tail : Option String → String → Option Span
unfolding is_tail
when_tail none line = none
when_tail (some rest) line =
    if is_tail rest then some (record { start = 0; stop = text_length line }) else none

-- `projectHeaderPattern` and `allowHeaderPattern`, by the text of the header.
unfoldable pub header_match : String → String → Option Span
unfolding when_tail skip_blanks strip_text
header_match header line = when_tail (strip_text header (skip_blanks line)) line

abbrev pub project_header : String
project_header = "[[projects]]"

abbrev pub allow_header : String
allow_header = "[[projects.allow]]"

-- `[\t ]*field[\t ]*=`: what follows it.
strip_equals : Option String → Option String
unfolding skip_blanks strip_text
strip_equals none = none
strip_equals (some s) = strip_text "=" (skip_blanks s)

unfoldable pub strip_key : String → String → Option String
unfolding strip_equals skip_blanks strip_text
strip_key field line = strip_equals (strip_text field (skip_blanks line))

-- `argvPattern`.
argv_value : Option String → String → Option Span
unfolding is_line_text
argv_value none line = none
argv_value (some rest) line =
    if is_line_text rest then some (record { start = 0; stop = text_length line }) else none

unfoldable pub argv_match : String → Option Span
unfolding argv_value strip_key
argv_match line = argv_value (strip_key "argv" line) line

-- `"(?:\\.|[^"\\\r\n])*"` after its first character, in a line: what follows the closing quote. The
-- flag says that a backslash stands in front.
unfoldable pub after_double : Bool → String → Option String
after_double escaped String.[] = none
after_double true (String.◌∷◌ c s) = after_double false s
after_double false (String.◌∷◌ c s) =
    let plain = after_double false s in
    let escaping = after_double true s in
    if eqb (code c) b'"'
    then some s
    else if eqb (code c) 92
    then escaping
    else if eqb (code c) 13
    then none
    else plain

-- `'[^'\r\n]*'` after its first character, in a line.
unfoldable pub after_single : String → Option String
after_single String.[] = none
after_single (String.◌∷◌ c s) =
    let rest = after_single s in
    if eqb (code c) 39 then some s else if eqb (code c) 13 then none else rest

unfoldable pub after_quoted : String → Option String
unfolding after_double after_single
after_quoted String.[] = none
after_quoted (String.◌∷◌ c s) =
    if eqb (code c) b'"'
    then after_double false s
    else if eqb (code c) 39
    then after_single s
    else none

-- The value that stands between `value` and `rest`, both ends of the line.
value_span : String → String → Option String → Option Span
unfolding is_tail
value_span line value none = none
value_span line value (some rest) =
    if is_tail rest
    then some (record {
      start = text_length line - text_length value;
      stop = text_length line - text_length rest;
    })
    else none

value_match : String → Option String → Option Span
unfolding value_span skip_blanks after_quoted
value_match line none = none
value_match line (some s) = value_span line (skip_blanks s) (after_quoted (skip_blanks s))

-- `approvalPattern` and the pattern of `replaceProjectField`: the span of the quoted value.
unfoldable pub field_match : String → String → Option Span
unfolding value_match strip_key
field_match field line = value_match line (strip_key field line)

-- `FindAllIndex` and `FindAllSubmatchIndex`: the matches of all lines, in order. `line` holds what was
-- read of the line that begins at `start`.
add_match : ℕ → Option Span → List Span → List Span
add_match start none rest = rest
add_match start (some m) rest = record { start = start + m.start; stop = start + m.stop } ∷ rest

unfoldable pub find_from : (String → Option Span) → ℕ → String → String → List Span
unfolding add_match
find_from matches start line String.[] = add_match start (matches line) []
find_from matches start line (String.◌∷◌ c s) =
    let next = find_from matches (start + text_length line + 1) "" s in
    let longer = find_from matches start (String.◌++◌ line (String.◌∷◌ c String.[])) s in
    if eqb (code c) 10 then add_match start (matches line) next else longer

unfoldable pub find_all : (String → Option Span) → String → List Span
unfolding find_from
find_all matches text = find_from matches 0 "" text
