-- ===== src/Web/Forms.antt =====
-- internal/adminweb/controls.go: the checks of a posted form.
use secrets_broker.Base.{
  ℕ, zero, suc, ◌+◌, ◌*◌, ◌-◌, String, code, Option, none, some, Bool, true, false, not, ◌&&◌, ◌||◌,
  List, [], ◌∷◌, any, all, length, leb, ltb, eqb, ◌==◌, if◌then◌else◌,
}
use secrets_broker.Go.{is_blank, byte_length, is_abs}
use secrets_broker.Go.Printing.{all_print}
use secrets_broker.Admin.Editor.{ProjectInput}

-- `url.Values`: each name once, with its values.
abbrev pub Form : Type 0
Form = List (String × List String)

unfoldable pub values : Form → String → List String
values [] name = []
values ((n, vs) ∷ rest) name = let later = values rest name in if n == name then vs else later

abbrev pub first_value : List String → String
first_value [] = ""
first_value (v ∷ vs) = v

-- `Get`, and the values of a name.
unfoldable pub form_value : Form → String → String
unfolding values
form_value form name = first_value (values form name)

unfoldable pub valid_fields : Form → List String → Bool
valid_fields form names =
    all
      (λ f. any (λ n. n == f.0) ("csrf" ∷ "alias" ∷ names) && (f.0 == "argv" || eqb (length f.1) 1))
      form

-- `strconv.Atoi`, of what can be an index: the sign is optional, and a value beyond 64 bits is an error, as
-- is a negative one here.
digits_value : ℕ → String → Option ℕ
digits_value acc String.[] = some acc
digits_value acc (String.◌∷◌ c s) =
    let more = digits_value (acc * 10 + (code c - b'0')) s in
    if leb b'0' (code c) && leb (code c) b'9' then more else none

within_int : Option ℕ → Option ℕ
within_int none = none
within_int (some n) = if ltb n 9_223_372_036_854_775_808 then some n else none

unsigned : String → Option ℕ
unfolding digits_value within_int
unsigned s = if is_blank s then none else within_int (digits_value 0 s)

zero_only : Option ℕ → Option ℕ
zero_only none = none
zero_only (some n) = if eqb n 0 then some 0 else none

unfoldable pub index_value : String → Option ℕ
unfolding unsigned zero_only
index_value String.[] = none
index_value (String.◌∷◌ c s) =
    if eqb (code c) b'+'
    then unsigned s
    else if eqb (code c) b'-'
    then zero_only (unsigned s)
    else unsigned (String.◌∷◌ c s)

unfoldable pub entry_at : List (List String) → ℕ → Option (List String)
entry_at [] index = none
entry_at (argv ∷ rest) zero = some argv
entry_at (argv ∷ rest) (suc index) = entry_at rest index

module _ (is_print : ℕ → Bool) where
  unfoldable pub printable : String → ℕ → Bool → Bool
  printable value limit empty =
      if not empty && is_blank value || ltb limit (byte_length value)
      then false
      else all_print is_print value

  unfoldable pub valid_input : ProjectInput → Bool
  unfolding printable
  valid_input input =
      printable input.alias 256 false
      && printable input.bws_project_id 128 false
      && printable input.token_entry 256 false
      && printable input.working_dir 4096 false
      && is_abs input.working_dir

  -- The loop over the arguments, of which only the first must not be empty.
  unfoldable pub printable_argv : Bool → List String → Bool
  unfolding printable
  printable_argv empty [] = true
  printable_argv empty (arg ∷ rest) = printable arg 4096 empty && printable_argv true rest
