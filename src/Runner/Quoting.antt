-- ===== src/Runner/Quoting.antt =====
-- Quoted words come back out of the shell as they went in.
use Prim.Native.String.{◌++◌ as ◌+s◌}
use Prim.Native.String.append
use text.Mathlib.TextLemmas.{append_assoc, append-nil}
use text.Mathlib.TextEquality.{Char-path}
use secrets_broker.Base.{
  String, Char, code, ◌≡◌, refl, ap, ◌∙◌, Option, some, true, false, Bool-cases, inl, inr, List, [],
  ◌∷◌, map, eqb, arith,
}
use secrets_broker.Go.{join}
use secrets_broker.Runner.{replace_quotes, shell_quote}
use secrets_broker.Runner.Shell.{gap, word, quoted, read, sh_words, add, end_word}

-- A text in front of the word that is read.
abbrev prepend : String → Option (List String) → Option (List String)
prepend String.[] r = r
prepend (String.◌∷◌ c s) r = add c (prepend s r)

read-quote_char :
    (c : Char) (rest : String)
    → eqb (code c) 39 ≡ false
    → read quoted (String.◌∷◌ c rest) ≡ add c (read quoted rest)
unfolding read
read-quote_char c rest e = rw (e, read)

-- The four characters that stand for a quote.
read-escaped_quote :
    (rest : String)
    → read quoted (String.◌∷◌ "'" (String.◌∷◌ "\\" (String.◌∷◌ "'" (String.◌∷◌ "'" rest))))
      ≡ add "'" (read quoted rest)
unfolding read
read-escaped_quote rest = refl

read-leave : (rest : String) → read quoted (String.◌∷◌ "'" rest) ≡ read word rest
unfolding read
read-leave rest = refl

quote_char : (c : Char) → eqb (code c) 39 ≡ true → c ≡ "'"
quote_char c e = Char-path c "'" (ground arith)

-- Between quotes, the escaped text and the closing quote give the text back.
read-replace_quotes :
    (s rest : String)
    → read quoted (replace_quotes s +s String.◌∷◌ "'" rest) ≡ prepend s (read word rest)
unfolding replace_quotes
read-replace_quotes String.[] rest = rw (append.nil (String.◌∷◌ "'" rest)) (read-leave rest)
read-replace_quotes (String.◌∷◌ c s) rest = elim (Bool-cases (eqb (code c) 39)) [
  | inl e ↦
      rw (e, append.cons, append.cons, append.cons, append.cons, read-escaped_quote, quote_char c e)
        (ap (add "'") (read-replace_quotes s rest))
  | inr e ↦ rw (e, append.cons, read-quote_char c _ e) (ap (add c) (read-replace_quotes s rest))
]

prepend-new_word : (s : String) (ws : List String) → prepend s (some ("" ∷ ws)) ≡ some (s ∷ ws)
prepend-new_word String.[] ws = refl
prepend-new_word (String.◌∷◌ c s) ws = ap (add c) (prepend-new_word s ws)

read-enter : (rest : String) → read gap (String.◌∷◌ "'" rest) ≡ read quoted rest
unfolding read
read-enter rest = refl

read-shell_quote : (s rest : String) → read gap (shell_quote s +s rest) ≡ prepend s (read word rest)
unfolding shell_quote
read-shell_quote s rest =
    rw (append.cons, read-enter, append_assoc (replace_quotes s) "'" rest, append.cons, append.nil)
      (read-replace_quotes s rest)

read-last : (s : String) → read gap (shell_quote s) ≡ some (s ∷ [])
unfolding read
read-last s = rw (← append-nil (shell_quote s)) (read-shell_quote s "" ∙ prepend-new_word s [])

read-space : (rest : String) → read word (" " +s rest) ≡ end_word (read gap rest)
unfolding read
read-space rest = rw (append.cons, append.nil)

-- The shell splits the quoted words of any command, joined by spaces, into exactly that command's
-- words, whatever characters they hold.
pub sh_words-join-shell_quote :
    (argv : List String) → sh_words (join (map shell_quote argv) " ") ≡ some argv
unfolding sh_words join
sh_words-join-shell_quote [] = refl
sh_words-join-shell_quote (s ∷ []) = read-last s
sh_words-join-shell_quote (s ∷ t ∷ rest) =
    read-shell_quote s _
    ∙ ap (prepend s) (
        read-space (join (map shell_quote (t ∷ rest)) " ")
        ∙ ap end_word (sh_words-join-shell_quote (t ∷ rest)))
    ∙ prepend-new_word s (t ∷ rest)
