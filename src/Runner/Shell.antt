-- ===== src/Runner/Shell.antt =====
-- How `sh` splits a line into words, for lines of plain characters, single quotes and backslashes. It
-- is the reference that the quoting of `Runner` is held to: `bws run` joins the words after `--` with
-- spaces and hands the line to `sh -c`. A character with any other meaning to `sh` makes the line
-- unreadable here, and so does a quote or a backslash that nothing follows.
use secrets_broker.Base.{
  ℕ, String, Char, code, ◌≡◌, refl, Option, none, some, Bool, ◌&&◌, ◌||◌, List, [], ◌∷◌, eqb, leb,
  if◌then◌else◌,
}

-- Between two words, in one, between quotes, and behind a backslash.
pub data Mode : Type 0 where
  gap word quoted escaped : Mode

-- Letters, digits and `_ - . / : , + @`.
unfoldable pub is_plain : ℕ → Bool
is_plain c =
    leb b'a' c && leb c b'z'
    || leb b'A' c && leb c b'Z'
    || leb b'0' c && leb c b'9'
    || eqb c b'_'
    || eqb c b'-'
    || eqb c b'.'
    || eqb c b'/'
    || eqb c b':'
    || eqb c b','
    || eqb c b'+'
    || eqb c b'@'

-- What a character does: it is skipped, ends a word, changes the mode, or is a character of the word.
pub data Move : Type 0 where
  skip close enter leave escape literal refuse : Move

-- A character outside quotes.
unfoldable pub outside : Move → ℕ → Move
unfolding is_plain
outside space c =
    if eqb c b' '
    then space
    else if eqb c 39
    then enter
    else if eqb c 92
    then escape
    else if is_plain c
    then literal
    else refuse

unfoldable pub move : Mode → ℕ → Move
unfolding outside
move gap c = outside skip c
move word c = outside close c
move quoted c = if eqb c 39 then leave else literal
move escaped c = if eqb c 10 then refuse else literal

-- The mode behind a character of a word.
abbrev pub stay : Mode → Mode
stay gap = word
stay word = word
stay quoted = quoted
stay escaped = word

-- A character in front of the word that is read.
abbrev pub add : Char → Option (List String) → Option (List String)
add c none = none
add c (some []) = none
add c (some (w ∷ ws)) = some (String.◌∷◌ c w ∷ ws)

abbrev pub end_word : Option (List String) → Option (List String)
end_word none = none
end_word (some ws) = some ("" ∷ ws)

-- In every mode but `gap` the first word of the answer is the rest of the word that is being read.
unfoldable pub read : Mode → String → Option (List String)
unfolding move
read gap String.[] = some []
read word String.[] = some ("" ∷ [])
read quoted String.[] = none
read escaped String.[] = none
read m (String.◌∷◌ c s) = elim (move m (code c)) [
  | skip ↦ read gap s
  | close ↦ end_word (read gap s)
  | enter ↦ read quoted s
  | leave ↦ read word s
  | escape ↦ read escaped s
  | literal ↦ add c (read (stay m) s)
  | refuse ↦ none
]

unfoldable pub sh_words : String → Option (List String)
unfolding read
sh_words line = read gap line

two_words : sh_words "a  'b c'\\''d' ''" ≡ some ("a" ∷ "b c'd" ∷ "" ∷ [])
unfolding sh_words
two_words = refl

substitution_refused : sh_words "echo $(id)" ≡ none
unfolding sh_words
substitution_refused = refl
