-- ===== src/Go/Quoting.antt =====
-- `strconv.QuoteToASCII`, `strconv.Quote` and the decimal and hexadecimal printing of `fmt`.
-- Which characters beyond ASCII are printable (`unicode.IsPrint`) is a parameter.
use secrets_broker.Base.{
  ℕ, zero, suc, ◌/◌, ◌%◌, String, Char, code, ◌≡◌, refl, Bool, true, ◌&&◌, ◌||◌, List, [], ◌∷◌, leb,
  ltb, eqb, All, arith, if◌then◌else◌,
}

abbrev hex_digits : List Char
hex_digits =
    "0" ∷ "1" ∷ "2" ∷ "3" ∷ "4" ∷ "5" ∷ "6" ∷ "7" ∷ "8" ∷ "9" ∷ "a" ∷ "b" ∷ "c" ∷ "d" ∷ "e" ∷ "f"
    ∷ []

-- The element at a position, and the last one beyond the end.
digit_at : List Char → ℕ → Char
digit_at [] i = "0"
digit_at (d ∷ ds) zero = d
digit_at (d ∷ ds) (suc i) = digit_at ds i

-- `%0kx`: the `k` last hexadecimal digits, in front of `rest`.
hex : ℕ → ℕ → String → String
unfolding digit_at
hex zero n rest = rest
hex (suc k) n rest = hex k (n / 16) (String.◌∷◌ (digit_at hex_digits (n % 16)) rest)

-- `%d`; `n` has at most `n + 1` digits.
decimal_from : ℕ → ℕ → String → String
decimal_from zero n rest = rest
decimal_from (suc fuel) n rest =
    let digit = String.◌∷◌ (digit_at hex_digits (n % 10)) rest in
    let more = decimal_from fuel (n / 10) digit in if ltb n 10 then digit else more

unfoldable pub decimal : ℕ → String
unfolding decimal_from digit_at
decimal n = decimal_from (suc n) n ""

abbrev pub is_ascii_print : ℕ → Bool
is_ascii_print c = leb 32 c && leb c 126

-- One character that is neither a quote, a backslash nor printable, in front of `rest`.
escape_special : Char → String → String
escape_special c rest =
    if eqb (code c) 7
    then String.◌∷◌ "\\" (String.◌∷◌ "a" rest)
    else if eqb (code c) 8
    then String.◌∷◌ "\\" (String.◌∷◌ "b" rest)
    else if eqb (code c) 12
    then String.◌∷◌ "\\" (String.◌∷◌ "f" rest)
    else if eqb (code c) 10
    then String.◌∷◌ "\\" (String.◌∷◌ "n" rest)
    else if eqb (code c) 13
    then String.◌∷◌ "\\" (String.◌∷◌ "r" rest)
    else if eqb (code c) 9
    then String.◌∷◌ "\\" (String.◌∷◌ "t" rest)
    else if eqb (code c) 11
    then String.◌∷◌ "\\" (String.◌∷◌ "v" rest)
    else if ltb (code c) 32 || eqb (code c) 127
    then String.◌∷◌ "\\" (String.◌∷◌ "x" (hex 2 (code c) rest))
    else if ltb (code c) 0x10000
    then String.◌∷◌ "\\" (String.◌∷◌ "u" (hex 4 (code c) rest))
    else String.◌∷◌ "\\" (String.◌∷◌ "U" (hex 8 (code c) rest))

-- One character of a quoted text, in front of `rest`.
escape : (ℕ → Bool) → Char → String → String
escape printable c rest =
    if eqb (code c) b'"' || eqb (code c) 92
    then String.◌∷◌ "\\" (String.◌∷◌ c rest)
    else if printable (code c)
    then String.◌∷◌ c rest
    else escape_special c rest

escape_all : (ℕ → Bool) → String → String
escape_all printable String.[] = "\""
escape_all printable (String.◌∷◌ c s) = escape printable c (escape_all printable s)

unfoldable pub quote_to_ascii : String → String
unfolding escape_all escape escape_special hex digit_at
quote_to_ascii s = String.◌∷◌ "\"" (escape_all is_ascii_print s)

-- `%q`.
unfoldable pub quote : (ℕ → Bool) → String → String
unfolding escape_all escape escape_special hex digit_at
quote is_print s =
    String.◌∷◌ "\"" (escape_all (λ c. if ltb c 128 then is_ascii_print c else is_print c) s)

-- Every character of the text is printable ASCII.
abbrev pub IsPrintable : String → Type 0
IsPrintable String.[] = Unit
IsPrintable (String.◌∷◌ c s) = (is_ascii_print (code c) ≡ true) × IsPrintable s

digit_at-print :
    (ds : List Char) (i : ℕ)
    → All (λ d. is_ascii_print (code d) ≡ true) ds
    → is_ascii_print (code (digit_at ds i)) ≡ true
unfolding digit_at
digit_at-print [] i h = refl
digit_at-print (d ∷ ds) zero h = h.0
digit_at-print (d ∷ ds) (suc i) h = digit_at-print ds i h.1

hex_digit-print : (i : ℕ) → is_ascii_print (code (digit_at hex_digits i)) ≡ true
hex_digit-print i = digit_at-print hex_digits i (ground arith)

hex-IsPrintable : (k n : ℕ) (rest : String) → IsPrintable rest → IsPrintable (hex k n rest)
unfolding hex
hex-IsPrintable zero n rest h = h
hex-IsPrintable (suc k) n rest h = hex-IsPrintable k (n / 16) _ (hex_digit-print (n % 16), h)

escape_special-IsPrintable :
    (c : Char) (rest : String) → IsPrintable rest → IsPrintable (escape_special c rest)
unfolding escape_special
escape_special-IsPrintable c rest h = ground (
  arith,
  hex-IsPrintable 2 (code c) rest h,
  hex-IsPrintable 4 (code c) rest h,
  hex-IsPrintable 8 (code c) rest h,
)

escape-IsPrintable :
    (c : Char) (rest : String) → IsPrintable rest → IsPrintable (escape is_ascii_print c rest)
unfolding escape
escape-IsPrintable c rest h = ground (arith, escape_special-IsPrintable c rest h)

escape_all-IsPrintable : (s : String) → IsPrintable (escape_all is_ascii_print s)
unfolding escape_all
escape_all-IsPrintable String.[] = (refl, tt)
escape_all-IsPrintable (String.◌∷◌ c s) = escape-IsPrintable c _ (escape_all-IsPrintable s)

pub quote_to_ascii-IsPrintable : (s : String) → IsPrintable (quote_to_ascii s)
unfolding quote_to_ascii
quote_to_ascii-IsPrintable s = (refl, escape_all-IsPrintable s)

quote_line : quote_to_ascii "a\n\"b\" é" ≡ "\"a\\n\\\"b\\\" \\u00e9\""
unfolding quote_to_ascii
quote_line = refl
