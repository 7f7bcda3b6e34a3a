-- ===== src/Admin/Layout/Lines/Starts.antt =====
-- The positions at which the headers begin.
use Prim.Native.String
use text.Mathlib.TextLemmas.{nil-append, cons-append, append_assoc}
use secrets_broker.Base.{
  ℕ, suc, ◌+◌, ◌<◌, String, Char, code, ◌≡◌, refl, ap, sym, ◌∙◌, false, Option, none, some, List,
  [], All, arith, eqb, Bool-cases, inl, inr,
}
use secrets_broker.Go.Slices.{text_length, text_drop, starts_line, drop-drop, drop-append-cons}
use secrets_broker.Admin.Layout.Lines.{
  Span, header_match, when_tail, skip_blanks, strip_text, project_header, add_match, find_from,
  find_all,
}

-- A match is from the beginning of a line that is not empty.
abbrev IsWhole : (String → Option Span) → Type 0
IsWhole matches =
    (line : String) (m : Span) → matches line ≡ some m → (m.start ≡ 0) × (0 < text_length line)

when_tail-start :
    (rest : Option String) (line : String) (m : Span) → when_tail rest line ≡ some m → m.start ≡ 0
unfolding when_tail
when_tail-start none line m h = cc
when_tail-start (some r) line m h = ground arith

pub project_header-IsWhole : IsWhole (header_match project_header)
unfolding header_match skip_blanks strip_text when_tail text_length
project_header-IsWhole String.[] m h = cc
project_header-IsWhole (String.◌∷◌ c s) m h = (
  when_tail-start (strip_text project_header (skip_blanks (String.◌∷◌ c s))) (String.◌∷◌ c s) m h,
  omega arith,
)

starts_line-append :
    (line s : String) → 0 < text_length line → starts_line (String.◌++◌ line s) ≡ starts_line line
unfolding starts_line text_length
starts_line-append String.[] s h = absurd (omega arith)
starts_line-append (String.◌∷◌ c l) s h = rw (cons-append c l s)

-- No header begins with the end of a line.
abbrev pub BeginsLine : String → Span → Type 0
BeginsLine text g = starts_line (text_drop g.start text) ≡ false

no_line : starts_line "" ≡ false
unfolding starts_line
no_line = refl

module _ (text : String) (matches : String → Option Span) (whole : IsWhole matches) where
  add_match-BeginsLine :
      (start : ℕ) (line s : String) (found : Option Span) (rest : List Span)
      → matches line ≡ found
      → text_drop start text ≡ String.◌++◌ line s
      → starts_line line ≡ false
      → All (BeginsLine text) rest
      → All (BeginsLine text) (add_match start found rest)
  unfolding add_match
  add_match-BeginsLine start line s none rest e at_start plain h = h
  add_match-BeginsLine start line s (some m) rest e at_start plain h =
      let (zero_start, long) = whole line m e in
      let here : start + m.start ≡ start = omega (arith, zero_start) in
      (
        ap (λ k. starts_line (text_drop k text)) here
            ∙ (ap starts_line at_start ∙ (starts_line-append line s long ∙ plain)),
        h,
      )

  longer-plain :
      (line : String) (c : Char)
      → eqb (code c) 10 ≡ false
      → starts_line line ≡ false
      → starts_line (String.◌++◌ line (String.◌∷◌ c String.[])) ≡ false
  unfolding starts_line
  longer-plain String.[] c e h = rw (nil-append (String.◌∷◌ c String.[])) e
  longer-plain (String.◌∷◌ d l) c e h = rw (cons-append d l (String.◌∷◌ c String.[])) h

  find_from-BeginsLine :
      (start : ℕ) (line s : String)
      → text_drop start text ≡ String.◌++◌ line s
      → starts_line line ≡ false
      → All (BeginsLine text) (find_from matches start line s)
  unfolding find_from
  find_from-BeginsLine start line String.[] at_start plain =
      add_match-BeginsLine start line "" (matches line) [] refl at_start plain tt
  find_from-BeginsLine start line (String.◌∷◌ c s) at_start plain =
      elim (Bool-cases (eqb (code c) 10)) [
        | inl e ↦ rw e (
            add_match-BeginsLine start line (String.◌∷◌ c s) (matches line) _ refl at_start plain (
              find_from-BeginsLine (start + text_length line + 1) "" s
                (ap (λ k. text_drop k text) (next_line (text_length line))
                  ∙ (sym (drop-drop start (suc (text_length line)) text)
                      ∙ (ap (text_drop (suc (text_length line))) at_start
                          ∙ (drop-append-cons line c s ∙ sym (nil-append s)))))
                no_line))
        | inr e ↦ rw e (
            find_from-BeginsLine start (String.◌++◌ line (String.◌∷◌ c String.[])) s
              (at_start
                ∙ sym (
                    append_assoc line (String.◌∷◌ c String.[]) s
                    ∙ ap (String.◌++◌ line) (single s)))
              (longer-plain line c e plain))
      ]
    where
      next_line : (n : ℕ) → start + n + 1 ≡ start + suc n
      next_line n = omega arith

      single : (s : String) → String.◌++◌ (String.◌∷◌ c String.[]) s ≡ String.◌∷◌ c s
      single s = cons-append c String.[] s ∙ ap (λ t. String.◌∷◌ c t) (nil-append s)

  pub find_all-BeginsLine : All (BeginsLine text) (find_all matches text)
  unfolding find_all text_drop
  find_all-BeginsLine = find_from-BeginsLine 0 "" text (sym (nil-append text)) no_line
