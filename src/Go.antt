-- ===== src/Go.antt =====
-- What the program uses of Go's standard library on texts: `strings` and `path/filepath` (Unix).
-- A Go string is the native text of its characters; the program's texts come out of JSON and TOML
-- decoders, which yield valid UTF-8.
pub mod Paths
pub mod Quoting
pub mod Order
pub mod Blank
pub mod Printing
pub mod Slices
use Prim.Native.String
use Prim.Native.String.{len}
use secrets_broker.Base.{
  ℕ, String, code, Bool, true, false, ◌||◌, List, [], ◌∷◌, eqb, if◌then◌else◌, ◌==◌,
}

abbrev pub is_blank : String → Bool
is_blank s = s == ""

-- `len(s) > limit`, in bytes.
unfoldable pub byte_length : String → ℕ
byte_length s = len s

-- `filepath.IsAbs`.
unfoldable pub is_abs : String → Bool
is_abs String.[] = false
is_abs (String.◌∷◌ c s) = eqb (code c) b'/'

-- `strings.Split(s, sep)` for a separator of one character, by its code.
split_from : ℕ → String → String → List String
split_from sep cur String.[] = cur ∷ []
split_from sep cur (String.◌∷◌ c s) =
    let closed = cur ∷ split_from sep "" s in
    let longer = split_from sep (String.◌++◌ cur (String.◌∷◌ c String.[])) s in
    if eqb (code c) sep then closed else longer

unfoldable pub split : ℕ → String → List String
unfolding split_from
split sep s = split_from sep "" s

-- `strings.HasPrefix`.
unfoldable pub has_prefix : String → String → Bool
has_prefix s String.[] = true
has_prefix String.[] (String.◌∷◌ p ps) = false
has_prefix (String.◌∷◌ c s) (String.◌∷◌ p ps) =
    if eqb (code c) (code p) then has_prefix s ps else false

-- `strings.Contains`.
unfoldable pub contains : String → String → Bool
unfolding has_prefix
contains String.[] part = has_prefix String.[] part
contains (String.◌∷◌ c s) part = has_prefix (String.◌∷◌ c s) part || contains s part

-- `strings.Join`.
unfoldable pub join : List String → String → String
join [] sep = ""
join (s ∷ []) sep = s
join (s ∷ t ∷ rest) sep = String.◌++◌ s (String.◌++◌ sep (join (t ∷ rest) sep))

-- `strings.TrimRight(s, "\n")`: a newline goes if nothing but newlines follows it.
unfoldable pub trim_newlines : String → String
trim_newlines String.[] = ""
trim_newlines (String.◌∷◌ c s) =
    let rest = trim_newlines s in
    if eqb (code c) 10 then (if rest == "" then "" else String.◌∷◌ c rest) else String.◌∷◌ c rest
