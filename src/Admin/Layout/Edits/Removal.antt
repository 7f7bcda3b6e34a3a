-- ===== src/Admin/Layout/Edits/Removal.antt =====
-- The positions at which `remove_allow_entries` cuts.
use secrets_broker.Base.{
  ℕ, ◌+◌, ◌≤◌, ◌<◌, String, ◌≡◌, true, List, [], ◌∷◌, arith, ltb, All, ok, >>=-eq-ok, ok_inj, refl,
}
use mathlib.Core.Path.{subst}
use secrets_broker.Go.Slices.{text_length, text_drop, length-drop, starts_line}
use secrets_broker.Admin.Layout.Lines.{Span, find_all, header_match, allow_header, argv_match}
use secrets_broker.Admin.Layout.Lines.Within.{Within, header_match-IsBounded, argv_match-IsBounded}
use secrets_broker.Admin.Layout.Edits.{
  slice, block_at, or_outside, entry_outside, consume_newline, single_argv, entry_spans, all_spans,
  cut_spans, remove_allow_entries, one_block_per_entry, overlapping,
}
use secrets_broker.Admin.Layout.Edits.Bounds.{
  Safe, Safe->>=, Safe-reject, slice-Safe, length-slice, block_at-bounds, or_outside-eq-ok,
  or_outside-Safe, block-Safe, matches-Within,
}

starts_line-pos : (s : String) → starts_line s ≡ true → 0 < text_length s
unfolding starts_line text_length
starts_line-pos String.[] h = cc
starts_line-pos (String.◌∷◌ c s) h = omega arith

consume_newline-le :
    (text : String) (index : ℕ)
    → index ≤ text_length text
    → consume_newline text index ≤ text_length text
unfolding consume_newline
consume_newline-le text index h =
    ground (arith, starts_line-pos (text_drop index text), length-drop index text)

-- Both ends of a span lie in the text.
abbrev InText : String → Span → Type 0
InText text s = (s.start ≤ text_length text) × (s.stop ≤ text_length text)

single_argv-eq-ok : (matches : List Span) (m : Span) → single_argv matches ≡ ok m → matches ≡ m ∷ []
unfolding single_argv
single_argv-eq-ok [] m h = cc
single_argv-eq-ok (n ∷ []) m h = cc
single_argv-eq-ok (n ∷ k ∷ rest) m h = cc

single_argv-Safe : (matches : List Span) → Safe (single_argv matches)
unfolding single_argv
single_argv-Safe [] h = cc
single_argv-Safe (n ∷ []) h = cc
single_argv-Safe (n ∷ k ∷ rest) h = cc

pub single_argv-bounds :
    (matches : List Span) (n : ℕ) (m : Span)
    → Within 0 n matches
    → single_argv matches ≡ ok m
    → (m.start ≤ m.stop) × (m.stop ≤ n)
single_argv-bounds matches n m w h =
    let one : Within 0 n (m ∷ []) = subst (Within 0 n) (single_argv-eq-ok matches m h) w in
    (one.1, one.2)

-- The block that the spans are sought in, as a part of the text.
module _ (text : String) (start : ℕ) (block : String) (headers : List Span)
    (inside : start + text_length block ≤ text_length text)
    (headers-Within : Within 0 (text_length block) headers) where
  entry_spans-Safe : (index : ℕ) → Safe (entry_spans text start block headers index)
  unfolding entry_spans
  entry_spans-Safe index =
      Safe->>= (or_outside entry_outside (block_at headers (text_length block) index)) _
        (or_outside-Safe entry_outside _ (λ e. cc))
        (λ entry e.
          let (x, y, z, w) =
            block_at-bounds 0 (text_length block) headers index entry headers-Within
              (or_outside-eq-ok entry_outside _ entry e) in
          Safe->>= (slice block entry.header.stop entry.stop) _ (slice-Safe block _ _ z w)
            (λ section e'.
              Safe->>= (single_argv (find_all argv_match section)) _ (single_argv-Safe _)
                (λ m e'' h. cc)))

  entry_spans-InText :
      (index : ℕ) (pair : Span × Span)
      → entry_spans text start block headers index ≡ ok pair
      → InText text pair.0 × InText text pair.1
  unfolding entry_spans
  entry_spans-InText index pair h =
      let (entry, found, h1) =
        >>=-eq-ok (or_outside entry_outside (block_at headers (text_length block) index)) _ h in
      let (x, y, z, w) =
        block_at-bounds 0 (text_length block) headers index entry headers-Within
          (or_outside-eq-ok entry_outside _ entry found) in
      let (section, cut, h2) = >>=-eq-ok (slice block entry.header.stop entry.stop) _ h1 in
      let (_, _, long) = length-slice block entry.header.stop entry.stop section cut in
      let (m, single, same) = >>=-eq-ok (single_argv (find_all argv_match section)) _ h2 in
      let (u, v) =
        single_argv-bounds (find_all argv_match section) (text_length section) m
          (matches-Within argv_match section (text_length section) argv_match-IsBounded refl)
          single in
      let a = consume_newline-le text (start + entry.header.stop) (omega arith) in
      let b = consume_newline-le text (start + entry.header.stop + m.stop) (omega arith) in
      subst (λ p. InText text p.0 × InText text p.1) (ok_inj same)
        ((omega arith, a), (omega arith, b))

  all_spans-Safe : (remove : List ℕ) → Safe (all_spans text start block headers remove)
  unfolding all_spans
  all_spans-Safe [] = λ h. cc
  all_spans-Safe (index ∷ rest) =
      Safe->>= (entry_spans text start block headers index) _ (entry_spans-Safe index) (λ pair e.
        Safe->>= (all_spans text start block headers rest) _ (all_spans-Safe rest)
          (λ spans e' h. cc))

  all_spans-InText :
      (remove : List ℕ) (spans : List Span)
      → all_spans text start block headers remove ≡ ok spans
      → All (InText text) spans
  unfolding all_spans
  all_spans-InText [] spans h = subst (All (InText text)) (ok_inj h) tt
  all_spans-InText (index ∷ rest) spans h =
      let (pair, found, h1) = >>=-eq-ok (entry_spans text start block headers index) _ h in
      let (more, found', same) = >>=-eq-ok (all_spans text start block headers rest) _ h1 in
      let (a, b) = entry_spans-InText index pair found in
      subst (All (InText text)) (ok_inj same) (a, (b, all_spans-InText rest more found'))

cut_spans-Safe :
    (text : String) (cursor : ℕ) (spans : List Span)
    → cursor ≤ text_length text
    → All (InText text) spans
    → Safe (cut_spans text cursor spans)
unfolding cut_spans
cut_spans-Safe text cursor [] h v = slice-Safe text cursor (text_length text) h (omega arith)
cut_spans-Safe text cursor (s ∷ rest) h v =
    Safe-reject (ltb s.start cursor) overlapping _ (λ e. cc)
      (λ ordered.
        Safe->>= (slice text cursor s.start) _ (slice-Safe text cursor s.start (ground arith) v.0.0)
          (λ front e'.
            Safe->>= (cut_spans text s.stop rest) _ (cut_spans-Safe text s.stop rest v.0.1 v.1)
              (λ back e'' k. cc)))

pub remove_allow_entries-Safe :
    (text : String) (count index allow_count : ℕ) (remove : List ℕ)
    → Safe (remove_allow_entries text count index allow_count remove)
unfolding remove_allow_entries
remove_allow_entries-Safe text count index allow_count remove =
    block-Safe text count index _ λ b block x y e.
      let headers = find_all (header_match allow_header) block in
      let inside : b.start + text_length block ≤ text_length text = omega arith in
      let within =
        matches-Within (header_match allow_header) block (text_length block)
          (header_match-IsBounded allow_header) refl in
      Safe-reject _ one_block_per_entry _ (λ h. cc)
        (λ _.
          Safe->>= (all_spans text b.start block headers remove) _
            (all_spans-Safe text b.start block headers inside within remove)
            (λ spans e'.
              cut_spans-Safe text 0 spans (omega arith)
                (all_spans-InText text b.start block headers inside within remove spans e')))
