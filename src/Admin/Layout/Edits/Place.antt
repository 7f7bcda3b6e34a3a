-- ===== src/Admin/Layout/Edits/Place.antt =====
-- The block of a project in the text, and the texts that differ in it only.
use Prim.Native.String.{◌++◌ as ◌+s◌}
use text.Mathlib.TextLemmas.{append_assoc}
use mathlib.Core.Path.{subst}
use secrets_broker.Base.{
  ℕ, zero, suc, ◌+◌, ◌-◌, ◌≤◌, String, ◌≡◌, refl, ap, sym, ◌∙◌, false, Option, some, List, [], ◌∷◌,
  ◌++◌, All, length, arith, Result, ok, err, >>=-eq-ok, reject->>-eq-ok, ok_inj, ◌≢◌, length,
}
use secrets_broker.Go.Slices.{
  text_length, text_take, text_drop, starts_line, take-append-drop, drop-drop, drop-length,
  take-length, take-split, length-drop,
}
use secrets_broker.Admin.Layout.Lines.{Span, find_all, header_match, project_header}
use secrets_broker.Admin.Layout.Lines.Starts.{
  BeginsLine, find_all-BeginsLine, project_header-IsWhole,
}
use secrets_broker.Admin.Layout.Edits.{
  LayoutError, out_of_range, slice, Block, block_at, splice, put_line, project_headers,
  project_block, project_block_bounds, one_block_per_project, project_outside,
}
use secrets_broker.Admin.Layout.Edits.Bounds.{Safe, or_outside-eq-ok, project_block-bounds}

-- The start of the next header, or the end of the text.
abbrev pub next_start : ℕ → List Span → ℕ
next_start end [] = end
next_start end (g ∷ rest) = g.start

-- The block of the project at the index, from its `[[projects]]` line up to the next one, or up to the end.
pub record IsBlock (text : String) (index start stop : ℕ) : Type 0 where
  pub earlier : List Span
  pub header : Span
  pub later : List Span
  pub headers : find_all (header_match project_header) text ≡ earlier ++ (header ∷ later)
  pub place : length earlier ≡ index
  pub from : start ≡ header.start
  pub to : stop ≡ next_start (text_length text) later

-- The new text has what stands before the project's block and what stands after it.
pub record Reworks (text : String) (index : ℕ) (new : String) : Type 0 where
  pub start : ℕ
  pub stop : ℕ
  pub block : IsBlock text index start stop
  pub middle : String
  pub same : new ≡ (text_take start text +s (middle +s text_drop stop text))

-- An edit that ends within the bounds of the text, by an error or by a text that differs in the project's
-- block only.
abbrev pub IsConfined : String → ℕ → Result LayoutError String → Type 0
IsConfined text index (err e) = e ≢ out_of_range
IsConfined text index (ok new) = Reworks text index new

pub Safe-IsConfined :
    (text : String) (index : ℕ) (r : Result LayoutError String)
    → Safe r
    → ((new : String) → r ≡ ok new → Reworks text index new)
    → IsConfined text index r
Safe-IsConfined text index (err e) s k = λ h. s (ap err h)
Safe-IsConfined text index (ok new) s k = k new refl

abbrev Parts : List Span → ℕ → ℕ → Block → Type 0
Parts headers end index b =
    (earlier : List Span) × (later : List Span) × (headers ≡ earlier ++ (b.header ∷ later))
    × (length earlier ≡ index)
    × (b.stop ≡ next_start end later)

some_inj : {A : Type 0} {a b : A} → Path (Option A) (some a) (some b) → a ≡ b
some_inj h = cc h

block_at-Parts :
    (headers : List Span) (end index : ℕ) (b : Block)
    → block_at headers end index ≡ some b
    → Parts headers end index b
unfolding block_at
block_at-Parts [] end index b h = cc
block_at-Parts (s ∷ []) end zero b h =
    subst (Parts (s ∷ []) end 0) (some_inj h) ([], [], refl, refl, refl)
block_at-Parts (s ∷ g ∷ rest) end zero b h =
    subst (Parts (s ∷ g ∷ rest) end 0) (some_inj h) ([], g ∷ rest, refl, refl, refl)
block_at-Parts (s ∷ []) end (suc index) b h = cc
block_at-Parts (s ∷ g ∷ rest) end (suc index) b h =
    let (earlier, later, same, place, to) = block_at-Parts (g ∷ rest) end index b h in
    (s ∷ earlier, later, ap (λ xs. s ∷ xs) same, omega (arith, place), to)

block_at-BeginsLine :
    (text : String) (headers : List Span) (end index : ℕ) (b : Block)
    → starts_line (text_drop end text) ≡ false
    → All (BeginsLine text) headers
    → block_at headers end index ≡ some b
    → starts_line (text_drop b.stop text) ≡ false
unfolding block_at
block_at-BeginsLine text [] end index b last begin h = cc
block_at-BeginsLine text (s ∷ []) end zero b last begin h =
    subst (λ x. starts_line (text_drop x.stop text) ≡ false) (some_inj h) last
block_at-BeginsLine text (s ∷ g ∷ rest) end zero b last begin h =
    subst (λ x. starts_line (text_drop x.stop text) ≡ false) (some_inj h) begin.1.0
block_at-BeginsLine text (s ∷ []) end (suc index) b last begin h = cc
block_at-BeginsLine text (s ∷ g ∷ rest) end (suc index) b last begin h =
    block_at-BeginsLine text (g ∷ rest) end index b last begin.1 h

drop-end : (text : String) → starts_line (text_drop (text_length text) text) ≡ false
unfolding starts_line
drop-end text = rw (drop-length (text_length text) text (omega arith))

-- A project's block as the edits find it.
pub record Found (text : String) (index : ℕ) (b : Block) : Type 0 where
  pub block : IsBlock text index b.header.start b.stop
  pub ordered : b.header.start ≤ b.header.stop
  pub long : b.header.stop ≤ b.stop
  pub inside : b.stop ≤ text_length text
  pub begins : starts_line (text_drop b.stop text) ≡ false

pub project_block-Found :
    (text : String) (count index : ℕ) (b : Block)
    → project_block text count index ≡ ok b
    → Found text index b
unfolding project_block project_headers
project_block-Found text count index b h =
    let (_, found) = reject->>-eq-ok _ one_block_per_project _ h in
    let here = or_outside-eq-ok project_outside _ b found in
    let (x, y, z) = project_block-bounds text count index b h in
    let (earlier, later, same, place, to) = block_at-Parts _ (text_length text) index b here in
    record {
      block = record {
        earlier = earlier;
        header = b.header;
        later = later;
        headers = same;
        place = place;
        from = refl;
        to = to;
      };
      ordered = x;
      long = y;
      inside = z;
      begins =
          block_at-BeginsLine text _ (text_length text) index b (drop-end text)
            (find_all-BeginsLine text (header_match project_header) project_header-IsWhole) here;
    }

pub project_block_bounds-Found :
    (text : String) (count index : ℕ) (b : Span)
    → project_block_bounds text count index ≡ ok b
    → (block : Block) × Found text index block
      × (b.start ≡ block.header.stop)
      × (b.stop ≡ block.stop)
unfolding project_block_bounds
project_block_bounds-Found text count index b h =
    let (block, found, same) = >>=-eq-ok (project_block text count index) _ h in
    (
      block,
      project_block-Found text count index block found,
      ap (λ x. x.start) (sym (ok_inj same)),
      ap (λ x. x.stop) (sym (ok_inj same)),
    )

-- What is taken up to a later position, and what is left from an earlier one.
take-upto :
    (start from : ℕ) (text : String)
    → start ≤ from
    → text_take from text
      ≡ (text_take start text +s text_take (from - start) (text_drop start text))
take-upto start from text h =
    ap (λ k. text_take k text) (sum start from h) ∙ take-split start (from - start) text
  where
    sum : (a b : ℕ) → a ≤ b → b ≡ a + (b - a)
    sum a b h = omega (arith, h)

pub drop-from :
    (from stop : ℕ) (text : String)
    → from ≤ stop
    → text_drop from text ≡ (text_take (stop - from) (text_drop from text) +s text_drop stop text)
drop-from from stop text h =
    sym (take-append-drop (stop - from) (text_drop from text))
    ∙ ap (λ t. text_take (stop - from) (text_drop from text) +s t)
        (drop-drop from (stop - from) text ∙ ap (λ k. text_drop k text) (sum from stop h))
  where
    sum : (a b : ℕ) → a ≤ b → a + (b - a) ≡ b
    sum a b h = omega (arith, h)

slice-eq-ok :
    (text : String) (from to : ℕ) (s : String)
    → slice text from to ≡ ok s
    → text_take (to - from) (text_drop from text) ≡ s
unfolding slice
slice-eq-ok text from to s h = ground (arith, h)

pub front-eq-ok :
    (text : String) (start from : ℕ) (s : String)
    → start ≤ from
    → slice text 0 from ≡ ok s
    → s ≡ (text_take start text +s text_take (from - start) (text_drop start text))
unfolding text_drop
front-eq-ok text start from s h e =
    sym (slice-eq-ok text 0 from s e)
    ∙ (ap (λ k. text_take k text) (less from) ∙ take-upto start from text h)
  where
    less : (n : ℕ) → n - 0 ≡ n
    less n = omega arith

pub back-eq-ok :
    (text : String) (from : ℕ) (s : String)
    → slice text from (text_length text) ≡ ok s
    → s ≡ text_drop from text
back-eq-ok text from s e =
    sym (slice-eq-ok text from (text_length text) s e)
    ∙ take-length (text_length text - from) (text_drop from text)
        (omega (arith, length-drop from text))

pub splice-Reworks :
    (text : String) (index start stop : ℕ) (from to : ℕ) (value new : String)
    → IsBlock text index start stop
    → start ≤ from
    → to ≤ stop
    → splice text from to value ≡ ok new
    → Reworks text index new
unfolding splice
splice-Reworks text index start stop from to value new b x y h =
    let (front, f, h1) = >>=-eq-ok (slice text 0 from) _ h in
    let (back, g, same) = >>=-eq-ok (slice text to (text_length text)) _ h1 in
    let before = text_take (from - start) (text_drop start text) in
    let after = text_take (stop - to) (text_drop to text) in
    let tail : back ≡ (after +s text_drop stop text) =
      back-eq-ok text to back g ∙ drop-from to stop text y in
    record {
      start = start;
      stop = stop;
      block = b;
      middle = before +s (value +s after);
      same =
          sym (ok_inj same)
          ∙ (ap (λ s. s +s (value +s back)) (front-eq-ok text start from front x f)
              ∙ (ap (λ s. (text_take start text +s before) +s (value +s s)) tail
                  ∙ (append_assoc (text_take start text) before _
                      ∙ ap (λ s. text_take start text +s s)
                          (ap (λ s. before +s s)
                              (sym (append_assoc value after (text_drop stop text)))
                            ∙ sym (append_assoc before (value +s after) (text_drop stop text))))));
    }

pub put_line-Reworks :
    (text : String) (index start stop : ℕ) (at : ℕ) (line new : String)
    → IsBlock text index start stop
    → start ≤ at
    → at ≤ stop
    → put_line text at line ≡ ok new
    → Reworks text index new
unfolding put_line
put_line-Reworks text index start stop at line new b x y h =
    let (front, f, h1) = >>=-eq-ok (slice text 0 at) _ h in
    splice-Reworks text index start stop at at _ new b x y h1
