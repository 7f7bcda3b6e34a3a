-- ===== src/Token/Trimming.antt =====
-- What internal/token takes for the token: a file's text without the newlines at its end.
use Prim.Native.String.append
use Prim.Native.String.{◌++◌ as ◌+s◌}
use mathlib.Core.Path.{subst}
use secrets_broker.Base.{
  String, Char, code, ◌≡◌, refl, ap, sym, ◌∙◌, ◌≢◌, ◌⊎◌, inl, inr, Option, none, some, Bool-cases,
  eqb, ◌==◌, eq_iff, arith, ok,
}
use secrets_broker.Go.{is_blank, trim_newlines}
use secrets_broker.Go.Blank.{ne_of_is_blank}
use secrets_broker.Token.{resolve_file, not_empty}

-- The text is nothing but newlines, and the text's last character is not a newline.
abbrev pub IsNewlines : String → Type 0
IsNewlines String.[] = Unit
IsNewlines (String.◌∷◌ c s) = (code c ≡ 10) × IsNewlines s

abbrev pub EndsWell : String → Type 0
EndsWell String.[] = ⊥
EndsWell (String.◌∷◌ c String.[]) = code c ≢ 10
EndsWell (String.◌∷◌ c (String.◌∷◌ d s)) = EndsWell (String.◌∷◌ d s)

EndsWell-cons : (c : Char) (t : String) → EndsWell t → EndsWell (String.◌∷◌ c t)
EndsWell-cons c String.[] h = absurd h
EndsWell-cons c (String.◌∷◌ d u) h = h

EndsWell-last : (c : Char) (t : String) → t ≡ "" → code c ≢ 10 → EndsWell (String.◌∷◌ c t)
EndsWell-last c t e n = subst (λ u. EndsWell (String.◌∷◌ c u)) (sym e) n

trim-split : (s : String) → (rest : String) × (s ≡ trim_newlines s +s rest) × IsNewlines rest
unfolding trim_newlines
trim-split String.[] = ("", refl, tt)
trim-split (String.◌∷◌ c s) =
    let (rest, same, newlines) = trim-split s in
    elim (Bool-cases (eqb (code c) 10)) [
      | inr other ↦
          rw other
            (rest, ap (String.◌∷◌ c) same ∙ sym (append.cons c (trim_newlines s) rest), newlines)
      | inl newline ↦ elim (Bool-cases (trim_newlines s == "")) [
        | inr more ↦
            rw (newline, more)
              (rest, ap (String.◌∷◌ c) same ∙ sym (append.cons c (trim_newlines s) rest), newlines)
        | inl blank ↦
            let gone : rest ≡ s =
              sym (append.nil rest)
              ∙ sym (same ∙ ap (λ x. x +s rest) ((eq_iff (trim_newlines s) "").0 blank)) in
            rw (newline, blank)
              (
                String.◌∷◌ c s,
                sym (append.nil (String.◌∷◌ c s)),
                (ground arith, subst IsNewlines gone newlines),
              )
      ]
    ]

trim-EndsWell : (s : String) → (trim_newlines s ≡ "") ⊎ EndsWell (trim_newlines s)
unfolding trim_newlines
trim-EndsWell String.[] = inl refl
trim-EndsWell (String.◌∷◌ c s) = elim (Bool-cases (eqb (code c) 10)) [
  | inr other ↦ elim (trim-EndsWell s) [
    | inl blank ↦ rw other (inr (EndsWell-last c (trim_newlines s) blank (ground arith)))
    | inr well ↦ rw other (inr (EndsWell-cons c (trim_newlines s) well))
  ]
  | inl newline ↦ elim (Bool-cases (trim_newlines s == "")) [
    | inl blank ↦ rw (newline, blank) (inl refl)
    | inr more ↦ elim (trim-EndsWell s) [
      | inl blank ↦ ground (arith, more, blank, eq_iff (trim_newlines s) "")
      | inr well ↦ rw (newline, more) (inr (EndsWell-cons c (trim_newlines s) well))
    ]
  ]
]

not_empty-eq_ok :
    (value token : String) → not_empty value ≡ ok token → (value ≡ token) × (value ≢ "")
not_empty-eq_ok value token h = elim (Bool-cases (is_blank value)) [
  | inl blank ↦ ground (arith, h, blank)
  | inr full ↦ (ground (arith, h, full), ne_of_is_blank full)
]

-- A token that the file resolver yields is what the file holds in front of some newlines, it is not empty,
-- and it does not end in a newline. A file that cannot be read, or holds nothing else, yields no token.
pub resolve_file-eq_ok :
    (content : Option String) (token : String)
    → resolve_file content ≡ ok token
    → (rest : String) × (content ≡ some (token +s rest)) × IsNewlines rest × EndsWell token
unfolding resolve_file
resolve_file-eq_ok none token h = cc
resolve_file-eq_ok (some s) token h =
    let (same, full) = not_empty-eq_ok (trim_newlines s) token h in
    let (rest, whole, newlines) = trim-split s in
    elim (trim-EndsWell s) [
      | inl blank ↦ absurd (full blank)
      | inr well ↦
          (rest, ap some (whole ∙ ap (λ x. x +s rest) same), newlines, subst EndsWell same well)
    ]
