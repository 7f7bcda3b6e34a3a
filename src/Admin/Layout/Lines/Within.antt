-- ===== src/Admin/Layout/Lines/Within.antt =====
-- Where the matches of the patterns lie.
use Prim.Native.String
use secrets_broker.Base.{
  ℕ, ◌+◌, ◌≤◌, String, code, ◌≡◌, refl, Bool, true, false, Option, none, some, List, [], ◌∷◌, arith,
  eqb, Bool-cases, inl, inr,
}
use mathlib.Core.Path.{subst}
use secrets_broker.Go.Slices.{text_length, length-append}
use secrets_broker.Admin.Layout.Lines.{
  Span, skip_blanks, strip_text, when_tail, header_match, strip_equals, strip_key, argv_value,
  argv_match, after_double, after_single, after_quoted, value_span, value_match, field_match,
  add_match, find_from, find_all,
}

-- Every match of a line lies in it.
abbrev pub IsBounded : (String → Option Span) → Type 0
IsBounded matches =
    (line : String) (m : Span)
    → matches line ≡ some m
    → (m.start ≤ m.stop) × (m.stop ≤ text_length line)

-- The spans follow each other between two positions.
abbrev pub Within : ℕ → ℕ → List Span → Type 0
Within low high [] = low ≤ high
Within low high (s ∷ rest) = (low ≤ s.start) × (s.start ≤ s.stop) × Within s.stop high rest

Within-lower :
    (low low' high : ℕ) (spans : List Span)
    → low' ≤ low
    → Within low high spans
    → Within low' high spans
Within-lower low low' high [] h w = omega arith
Within-lower low low' high (s ∷ rest) h w = (omega arith, w.1, w.2)

length-skip_blanks : (s : String) → text_length (skip_blanks s) ≤ text_length s
unfolding skip_blanks text_length
length-skip_blanks String.[] = omega arith
length-skip_blanks (String.◌∷◌ c s) = ground (arith, length-skip_blanks s)

length-strip_text :
    (part s : String) (r : String) → strip_text part s ≡ some r → text_length r ≤ text_length s
unfolding strip_text text_length
length-strip_text String.[] s r h = ground arith
length-strip_text (String.◌∷◌ p ps) String.[] r h = cc
length-strip_text (String.◌∷◌ p ps) (String.◌∷◌ c s) r h = ground (arith, length-strip_text ps s r)

length-after_double :
    (escaped : Bool) (s : String) (r : String)
    → after_double escaped s ≡ some r
    → text_length r ≤ text_length s
unfolding after_double text_length
length-after_double true String.[] r h = cc
length-after_double false String.[] r h = cc
length-after_double true (String.◌∷◌ c s) r h = ground (arith, length-after_double false s r)
length-after_double false (String.◌∷◌ c s) r h =
    ground (arith, length-after_double false s r, length-after_double true s r)

length-after_single :
    (s : String) (r : String) → after_single s ≡ some r → text_length r ≤ text_length s
unfolding after_single text_length
length-after_single String.[] r h = cc
length-after_single (String.◌∷◌ c s) r h = ground (arith, length-after_single s r)

length-after_quoted :
    (s : String) (r : String) → after_quoted s ≡ some r → text_length r ≤ text_length s
unfolding after_quoted text_length
length-after_quoted String.[] r h = cc
length-after_quoted (String.◌∷◌ c s) r h =
    ground (arith, length-after_double false s r, length-after_single s r)

when_tail-in_line :
    (rest : Option String) (line : String) (m : Span)
    → when_tail rest line ≡ some m
    → (m.start ≤ m.stop) × (m.stop ≤ text_length line)
unfolding when_tail
when_tail-in_line none line m h = cc
when_tail-in_line (some r) line m h = ground arith

pub header_match-IsBounded : (header : String) → IsBounded (header_match header)
unfolding header_match
header_match-IsBounded header line m h =
    when_tail-in_line (strip_text header (skip_blanks line)) line m h

argv_value-in_line :
    (rest : Option String) (line : String) (m : Span)
    → argv_value rest line ≡ some m
    → (m.start ≤ m.stop) × (m.stop ≤ text_length line)
unfolding argv_value
argv_value-in_line none line m h = cc
argv_value-in_line (some r) line m h = ground arith

pub argv_match-IsBounded : IsBounded argv_match
unfolding argv_match
argv_match-IsBounded line m h = argv_value-in_line (strip_key "argv" line) line m h

length-strip_equals :
    (o : Option String) (n : ℕ)
    → ((s : String) → o ≡ some s → text_length s ≤ n)
    → (r : String) → strip_equals o ≡ some r
    → text_length r ≤ n
unfolding strip_equals
length-strip_equals none n k r h = cc
length-strip_equals (some s) n k r h =
    omega (arith, k s refl, length-skip_blanks s, length-strip_text "=" (skip_blanks s) r h)

length-strip_key :
    (field line : String) (r : String)
    → strip_key field line ≡ some r
    → text_length r ≤ text_length line
unfolding strip_key
length-strip_key field line r h =
    length-strip_equals (strip_text field (skip_blanks line)) (text_length line)
      (λ s e.
        omega (arith, length-skip_blanks line, length-strip_text field (skip_blanks line) s e))
      r h

value_span-in_line :
    (line value : String) (rest : Option String)
    → text_length value ≤ text_length line
    → ((r : String) → rest ≡ some r → text_length r ≤ text_length value)
    → (m : Span) → value_span line value rest ≡ some m
    → (m.start ≤ m.stop) × (m.stop ≤ text_length line)
unfolding value_span
value_span-in_line line value none n k m h = cc
value_span-in_line line value (some r) n k m h = ground (arith, k r refl)

value_match-in_line :
    (line : String) (o : Option String)
    → ((s : String) → o ≡ some s → text_length s ≤ text_length line)
    → (m : Span) → value_match line o ≡ some m
    → (m.start ≤ m.stop) × (m.stop ≤ text_length line)
unfolding value_match
value_match-in_line line none k m h = cc
value_match-in_line line (some s) k m h =
    value_span-in_line line (skip_blanks s) (after_quoted (skip_blanks s))
      (omega (arith, k s refl, length-skip_blanks s))
      (λ r e. length-after_quoted (skip_blanks s) r e) m h

pub field_match-IsBounded : (field : String) → IsBounded (field_match field)
unfolding field_match
field_match-IsBounded field line m h =
    value_match-in_line line (strip_key field line) (λ s e. length-strip_key field line s e) m h

add_match-Within :
    (start length high : ℕ) (o : Option Span) (rest : List Span)
    → ((m : Span) → o ≡ some m → (m.start ≤ m.stop) × (m.stop ≤ length))
    → Within (start + length) high rest
    → Within start high (add_match start o rest)
unfolding add_match
add_match-Within start length high none rest b w =
    Within-lower (start + length) start high rest (omega arith) w
add_match-Within start length high (some m) rest b w =
    let (ordered, within) = b m refl in
    (
      omega arith,
      omega arith,
      Within-lower (start + length) (start + m.stop) high rest (omega arith) w,
    )

find_from-Within :
    (matches : String → Option Span) (bounded : IsBounded matches) (start : ℕ) (line s : String)
    → Within start (start + text_length line + text_length s) (find_from matches start line s)
unfolding find_from text_length
find_from-Within matches bounded start line String.[] =
    add_match-Within start (text_length line) _ (matches line) [] (bounded line) (omega arith)
find_from-Within matches bounded start line (String.◌∷◌ c s) = elim (Bool-cases (eqb (code c) 10)) [
  | inl e ↦ rw e (
      add_match-Within start (text_length line) _ (matches line) _ (bounded line) (
        Within-lower (start + text_length line + 1) _ _ _ (omega arith) (
          subst
            (λ n.
              Within (start + text_length line + 1) n
                (find_from matches (start + text_length line + 1) "" s))
            (omega arith) (find_from-Within matches bounded (start + text_length line + 1) "" s))))
  | inr e ↦ rw e (
      subst
        (λ n.
          Within start n (find_from matches start (String.◌++◌ line (String.◌∷◌ c String.[])) s))
        (omega (arith, length-append line (String.◌∷◌ c String.[])))
        (find_from-Within matches bounded start (String.◌++◌ line (String.◌∷◌ c String.[])) s))
]

-- The matches in a text follow each other within it.
pub find_all-Within :
    (matches : String → Option Span) (s : String)
    → IsBounded matches
    → Within 0 (text_length s) (find_all matches s)
unfolding find_all text_length
find_all-Within matches s bounded =
    subst (λ n. Within 0 n (find_from matches 0 "" s)) (omega arith)
      (find_from-Within matches bounded 0 "" s)
