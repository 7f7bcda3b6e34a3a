-- ===== src/Admin/Layout/Edits/Steps.antt =====
-- What the steps of the edits leave of the text, by the places at which they cut and paste.
use Prim.Native.String.{◌++◌ as ◌+s◌}
use text.Mathlib.TextLemmas.{append_assoc}
use mathlib.Core.Path.{subst}
use secrets_broker.Base.{
  ℕ, ◌+◌, ◌-◌, ◌≤◌, String, ◌≡◌, refl, ap, sym, ◌∙◌, false, List, [], ◌∷◌, All, arith, ok,
  >>=-eq-ok, reject->>-eq-ok, ok_inj, eqb, ltb, eqb-eq_iff, Bool-cases, inl, inr,
}
use secrets_broker.Go.Slices.{text_length, text_take, text_drop, starts_line, take-append-drop}
use secrets_broker.Admin.Layout.Lines.{Span, find_all, argv_match}
use secrets_broker.Admin.Layout.Lines.Within.{Within, argv_match-IsBounded}
use secrets_broker.Admin.Layout.Edits.{
  slice, block_at, or_outside, entry_outside, first_start, replace_matched, replace_single,
  consume_newline, single_argv, entry_spans, all_spans, cut_spans, overlapping,
}
use secrets_broker.Admin.Layout.Edits.Bounds.{
  Within-le, block_at-bounds, or_outside-eq-ok, length-slice, matches-Within,
}
use secrets_broker.Admin.Layout.Edits.Removal.{single_argv-bounds}
use secrets_broker.Admin.Layout.Edits.Place.{
  IsBlock, Reworks, splice-Reworks, put_line-Reworks, drop-from, front-eq-ok, back-eq-ok,
}

module _ (text : String) (index start stop : ℕ) (place : IsBlock text index start stop) where
  pub replace_matched-Reworks :
      (b : Span) (approval new : String) (matches allows : List Span)
      → start ≤ b.start
      → b.start ≤ b.stop
      → b.stop ≤ stop
      → Within 0 (b.stop - b.start) matches
      → Within 0 (b.stop - b.start) allows
      → replace_matched text b approval matches allows ≡ ok new
      → Reworks text index new
  unfolding replace_matched first_start
  replace_matched-Reworks b approval new [] [] x y z w v h =
      put_line-Reworks text index start stop (b.start + (b.stop - b.start)) _ new place
        (omega arith) (omega arith) h
  replace_matched-Reworks b approval new [] (s ∷ rest) x y z w v h =
      put_line-Reworks text index start stop (b.start + s.start) _ new place (omega arith)
        (omega (arith, Within-le s.stop (b.stop - b.start) rest v.2)) h
  replace_matched-Reworks b approval new (m ∷ []) allows x y z w v h =
      splice-Reworks text index start stop (b.start + m.start) (b.start + m.stop) _ new place
        (omega arith) (omega arith) h
  replace_matched-Reworks b approval new (m ∷ n ∷ ms) allows x y z w v h = cc

  pub replace_single-Reworks :
      (b : Span) (field encoded new : String) (matches : List Span)
      → start ≤ b.start
      → b.start ≤ b.stop
      → b.stop ≤ stop
      → Within 0 (b.stop - b.start) matches
      → replace_single text b.start field encoded matches ≡ ok new
      → Reworks text index new
  unfolding replace_single
  replace_single-Reworks b field encoded new [] x y z w h = cc
  replace_single-Reworks b field encoded new (m ∷ []) x y z w h =
      splice-Reworks text index start stop (b.start + m.start) (b.start + m.stop) encoded new place
        (omega arith) (omega arith) h
  replace_single-Reworks b field encoded new (m ∷ n ∷ ms) x y z w h = cc

  -- Both ends of a span lie in the block.
  abbrev pub InBlock : Span → Type 0
  InBlock s = (start ≤ s.start) × (s.stop ≤ stop)

  cut_spans-tail :
      (cursor : ℕ) (spans : List Span) (new : String)
      → cursor ≤ stop
      → All InBlock spans
      → cut_spans text cursor spans ≡ ok new
      → (m : String) × (new ≡ (m +s text_drop stop text))
  unfolding cut_spans
  cut_spans-tail cursor [] new x v h = (
    text_take (stop - cursor) (text_drop cursor text),
    back-eq-ok text cursor new h ∙ drop-from cursor stop text x,
  )
  cut_spans-tail cursor (s ∷ rest) new x v h =
      let (_, h1) = reject->>-eq-ok (ltb s.start cursor) overlapping _ h in
      let (front, _, h2) = >>=-eq-ok (slice text cursor s.start) _ h1 in
      let (back, f, same) = >>=-eq-ok (cut_spans text s.stop rest) _ h2 in
      let (m, tail) = cut_spans-tail s.stop rest back v.0.1 v.1 f in
      (
        front +s m,
        sym (ok_inj same)
            ∙ (ap (λ t. front +s t) tail ∙ sym (append_assoc front m (text_drop stop text))),
      )

  pub cut_spans-Reworks :
      (spans : List Span) (new : String)
      → start ≤ stop
      → All InBlock spans
      → cut_spans text 0 spans ≡ ok new
      → Reworks text index new
  unfolding cut_spans text_drop
  cut_spans-Reworks [] new x v h =
      let middle = text_take (stop - start) (text_drop start text) in
      record {
        start = start;
        stop = stop;
        block = place;
        middle = middle;
        same =
            back-eq-ok text 0 new h
            ∙ (sym (take-append-drop start text)
                ∙ ap (λ t. text_take start text +s t) (drop-from start stop text x));
      }
  cut_spans-Reworks (s ∷ rest) new x v h =
      let (_, h1) = reject->>-eq-ok (ltb s.start 0) overlapping _ h in
      let (front, f, h2) = >>=-eq-ok (slice text 0 s.start) _ h1 in
      let (back, g, same) = >>=-eq-ok (cut_spans text s.stop rest) _ h2 in
      let (m, tail) = cut_spans-tail s.stop rest back v.0.1 v.1 g in
      let before = text_take (s.start - start) (text_drop start text) in
      record {
        start = start;
        stop = stop;
        block = place;
        middle = before +s m;
        same =
            sym (ok_inj same)
            ∙ (ap (λ t. t +s back) (front-eq-ok text start s.start front v.0.0 f)
                ∙ (ap (λ t. (text_take start text +s before) +s t) tail
                    ∙ (append_assoc (text_take start text) before _
                        ∙ ap (λ t. text_take start text +s t)
                            (sym (append_assoc before m (text_drop stop text))))));
      }

  consume_newline-within :
      (at : ℕ)
      → starts_line (text_drop stop text) ≡ false
      → at ≤ stop
      → consume_newline text at ≤ stop
  unfolding consume_newline
  consume_newline-within at begins x = elim (Bool-cases (eqb at stop)) [
    | inl e ↦
        let same = (eqb-eq_iff at stop).0 e in
        let plain : starts_line (text_drop at text) ≡ false =
          ap (λ k. starts_line (text_drop k text)) same ∙ begins in
        rw plain x
    | inr e ↦ ground arith
  ]

  module _ (from : ℕ) (block : String) (headers : List Span) (after : start ≤ from)
      (inside : from + text_length block ≤ stop)
      (begins : starts_line (text_drop stop text) ≡ false)
      (headers-Within : Within 0 (text_length block) headers) where
    entry_spans-InBlock :
        (i : ℕ) (pair : Span × Span)
        → entry_spans text from block headers i ≡ ok pair
        → InBlock pair.0 × InBlock pair.1
    unfolding entry_spans
    entry_spans-InBlock i pair h =
        let (entry, found, h1) =
          >>=-eq-ok (or_outside entry_outside (block_at headers (text_length block) i)) _ h in
        let (x, y, z, w) =
          block_at-bounds 0 (text_length block) headers i entry headers-Within
            (or_outside-eq-ok entry_outside _ entry found) in
        let (section, cut, h2) = >>=-eq-ok (slice block entry.header.stop entry.stop) _ h1 in
        let (_, _, long) = length-slice block entry.header.stop entry.stop section cut in
        let (m, single, same) = >>=-eq-ok (single_argv (find_all argv_match section)) _ h2 in
        let (u, v) =
          single_argv-bounds (find_all argv_match section) (text_length section) m
            (matches-Within argv_match section (text_length section) argv_match-IsBounded refl)
            single in
        let a = consume_newline-within (from + entry.header.stop) begins (omega arith) in
        let b = consume_newline-within (from + entry.header.stop + m.stop) begins (omega arith) in
        subst (λ p. InBlock p.0 × InBlock p.1) (ok_inj same) ((omega arith, a), (omega arith, b))

    pub all_spans-InBlock :
        (remove : List ℕ) (spans : List Span)
        → all_spans text from block headers remove ≡ ok spans
        → All InBlock spans
    unfolding all_spans
    all_spans-InBlock [] spans h = subst (All InBlock) (ok_inj h) tt
    all_spans-InBlock (i ∷ rest) spans h =
        let (pair, found, h1) = >>=-eq-ok (entry_spans text from block headers i) _ h in
        let (more, found', same) = >>=-eq-ok (all_spans text from block headers rest) _ h1 in
        let (a, b) = entry_spans-InBlock i pair found in
        subst (All InBlock) (ok_inj same) (a, (b, all_spans-InBlock rest more found'))
