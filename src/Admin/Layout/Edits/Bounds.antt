-- ===== src/Admin/Layout/Edits/Bounds.antt =====
-- The positions of the edits: none of the slices is out of range, so that no edit panics.
use secrets_broker.Base.{
  ℕ, zero, suc, ◌+◌, ◌-◌, ◌≤◌, String, ◌≡◌, refl, ◌≢◌, Bool, true, false, not, Option, none, some,
  List, [], ◌∷◌, arith, eqb, length, Result, ok, err, reject, ◌>>=◌, ◌>>◌, >>=-eq-ok,
  reject->>-eq-ok,
}
use mathlib.Core.Path.{subst}
use secrets_broker.Go.Slices.{text_length, text_take, text_drop, length-take, length-drop}
use secrets_broker.Admin.Layout.Lines.{
  Span, find_all, header_match, project_header, allow_header, field_match,
}
use secrets_broker.Admin.Layout.Lines.Within.{
  Within, find_all-Within, header_match-IsBounded, field_match-IsBounded, IsBounded,
}
use secrets_broker.Admin.Layout.Edits.{
  LayoutError, out_of_range, slice, Block, block_at, or_outside, project_headers, project_block,
  project_block_bounds, splice, put_line, first_start, replace_matched, replace_approval,
  replace_single, replace_project_field, insert_allow_entry, remove_project_span,
  one_block_per_project, project_outside, one_block_per_entry, entry_lines, newline_of,
}

abbrev pub Safe {ℓ} : {A : Type ℓ} → Result LayoutError A → Type ℓ
Safe r = r ≢ err out_of_range

module _ {ℓ κ} {A : Type ℓ} {B : Type κ} where
  pub Safe->>= :
      (m : Result LayoutError A) (next : A → Result LayoutError B)
      → Safe m
      → ((x : A) → m ≡ ok x → Safe (next x))
      → Safe (m >>= next)
  Safe->>= (ok x) next s k = k x refl
  Safe->>= (err e) next s k = λ h. s (cc h)

pub Safe-reject {ℓ} :
    {B : Type ℓ} (test : Bool) (e : LayoutError) (rest : Result LayoutError B)
    → e ≢ out_of_range
    → (test ≡ false → Safe rest)
    → Safe (reject test e >> rest)
Safe-reject true e rest s k h = s (cc h)
Safe-reject false e rest s k h = k refl h

slice-ok :
    (text : String) (from to : ℕ)
    → from ≤ to
    → to ≤ text_length text
    → slice text from to ≡ ok (text_take (to - from) (text_drop from text))
unfolding slice
slice-ok text from to h k = ground arith

-- A slice in range is as long as its bounds say.
pub length-slice :
    (text : String) (from to : ℕ) (s : String)
    → slice text from to ≡ ok s
    → (from ≤ to) × (to ≤ text_length text) × (text_length s ≡ to - from)
unfolding slice
length-slice text from to s h =
    ground (arith, length-take (to - from) (text_drop from text), length-drop from text)

pub slice-Safe :
    (text : String) (from to : ℕ) → from ≤ to → to ≤ text_length text → Safe (slice text from to)
slice-Safe text from to h k e = let same = slice-ok text from to h k in cc

splice-Safe :
    (text : String) (from to : ℕ) (value : String)
    → from ≤ text_length text
    → to ≤ text_length text
    → Safe (splice text from to value)
unfolding splice
splice-Safe text from to value h k =
    rw (slice-ok text 0 from (omega arith) h, slice-ok text to (text_length text) k (omega arith))
      (λ e. cc)

put_line-Safe :
    (text : String) (at : ℕ) (line : String) → at ≤ text_length text → Safe (put_line text at line)
unfolding put_line
put_line-Safe text at line h =
    Safe->>= (slice text 0 at) _ (slice-Safe text 0 at (omega arith) h)
      (λ front e. splice-Safe text at at _ h h)

pub Within-le : (low high : ℕ) (spans : List Span) → Within low high spans → low ≤ high
Within-le low high [] w = w
Within-le low high (s ∷ rest) w = omega (arith, Within-le s.stop high rest w.2)

-- A block lies between the positions of its headers.
pub block_at-bounds :
    (low high : ℕ) (headers : List Span) (index : ℕ) (b : Block)
    → Within low high headers
    → block_at headers high index ≡ some b
    → (low ≤ b.header.start)
      × (b.header.start ≤ b.header.stop)
      × (b.header.stop ≤ b.stop)
      × (b.stop ≤ high)
unfolding block_at
block_at-bounds low high [] index b w h = cc
block_at-bounds low high (s ∷ []) zero b w h = ground arith
block_at-bounds low high (s ∷ []) (suc index) b w h = cc
block_at-bounds low high (s ∷ t ∷ rest) zero b w h =
    ground (arith, Within-le t.stop high rest w.2.2)
block_at-bounds low high (s ∷ t ∷ rest) (suc index) b w h =
    ground (arith, block_at-bounds s.stop high (t ∷ rest) index b w.2)

pub or_outside-eq-ok :
    (e : LayoutError) (o : Option Block) (b : Block) → or_outside e o ≡ ok b → o ≡ some b
unfolding or_outside
or_outside-eq-ok e none b h = cc
or_outside-eq-ok e (some c) b h = cc

pub or_outside-Safe :
    (e : LayoutError) (o : Option Block) → e ≢ out_of_range → Safe (or_outside e o)
unfolding or_outside
or_outside-Safe e none s h = s (cc h)
or_outside-Safe e (some b) s h = cc

pub project_block-bounds :
    (text : String) (count index : ℕ) (b : Block)
    → project_block text count index ≡ ok b
    → (b.header.start ≤ b.header.stop) × (b.header.stop ≤ b.stop) × (b.stop ≤ text_length text)
unfolding project_block project_headers
project_block-bounds text count index b h =
    let (_, found) = reject->>-eq-ok _ one_block_per_project _ h in
    let (_, x, y, z) =
      block_at-bounds 0 (text_length text) (find_all (header_match project_header) text) index b
        (find_all-Within (header_match project_header) text (header_match-IsBounded project_header))
        (or_outside-eq-ok project_outside _ b found) in
    (x, y, z)

project_block-Safe : (text : String) (count index : ℕ) → Safe (project_block text count index)
unfolding project_block
project_block-Safe text count index =
    let found = block_at (project_headers text) (text_length text) index in
    Safe-reject (not (eqb (length (project_headers text)) count)) one_block_per_project
      (or_outside project_outside found) (λ e. cc)
      (λ _. or_outside-Safe project_outside found (λ e. cc))

project_block_bounds-Safe :
    (text : String) (count index : ℕ) → Safe (project_block_bounds text count index)
unfolding project_block_bounds
project_block_bounds-Safe text count index =
    Safe->>= (project_block text count index) _ (project_block-Safe text count index) (λ b e h. cc)

pub project_block_bounds-within :
    (text : String) (count index : ℕ) (b : Span)
    → project_block_bounds text count index ≡ ok b
    → (b.start ≤ b.stop) × (b.stop ≤ text_length text)
unfolding project_block_bounds
project_block_bounds-within text count index b h =
    let (block, found, same) = >>=-eq-ok (project_block text count index) _ h in
    let (x, y, z) = project_block-bounds text count index block found in ground arith

-- The rest of an edit, after the block's bounds and its text.
pub block-Safe {κ} :
    {B : Type κ} (text : String) (count index : ℕ) (next : Span → String → Result LayoutError B)
    → ((b : Span) (block : String)
        → b.start ≤ b.stop
        → b.stop ≤ text_length text
        → text_length block ≡ b.stop - b.start
        → Safe (next b block))
    → Safe
        (project_block_bounds text count index >>= λ b. slice text b.start b.stop >>= λ s. next b s)
block-Safe text count index next k =
    Safe->>= (project_block_bounds text count index) _ (project_block_bounds-Safe text count index)
      (λ b e.
        let (x, y) = project_block_bounds-within text count index b e in
        Safe->>= (slice text b.start b.stop) _ (slice-Safe text b.start b.stop x y)
          (λ block e'. k b block x y (length-slice text b.start b.stop block e').2))

replace_matched-Safe :
    (text : String) (b : Span) (approval : String) (matches allows : List Span)
    → b.start ≤ b.stop
    → b.stop ≤ text_length text
    → Within 0 (b.stop - b.start) matches
    → Within 0 (b.stop - b.start) allows
    → Safe (replace_matched text b approval matches allows)
unfolding replace_matched first_start
replace_matched-Safe text b approval [] [] x y w v =
    put_line-Safe text (b.start + (b.stop - b.start)) _ (omega arith)
replace_matched-Safe text b approval [] (s ∷ rest) x y w v =
    put_line-Safe text (b.start + s.start) _
      (omega (arith, Within-le s.stop (b.stop - b.start) rest v.2))
replace_matched-Safe text b approval (m ∷ []) allows x y w v =
    splice-Safe text (b.start + m.start) (b.start + m.stop) _ (omega arith) (omega arith)
replace_matched-Safe text b approval (m ∷ n ∷ ms) allows x y w v = λ e. cc

pub matches-Within :
    (matches : String → Option Span) (block : String) (n : ℕ)
    → IsBounded matches
    → text_length block ≡ n
    → Within 0 n (find_all matches block)
matches-Within matches block n bounded e =
    subst (λ k. Within 0 k (find_all matches block)) e (find_all-Within matches block bounded)

pub replace_approval-Safe :
    (text : String) (count index : ℕ) (approval : String)
    → Safe (replace_approval text count index approval)
unfolding replace_approval
replace_approval-Safe text count index approval = block-Safe text count index _ λ b block x y e.
    replace_matched-Safe text b approval _ _ x y
      (matches-Within (field_match "approval") block (b.stop - b.start)
        (field_match-IsBounded "approval") e)
      (matches-Within (header_match allow_header) block (b.stop - b.start)
        (header_match-IsBounded allow_header) e)

replace_single-Safe :
    (text : String) (b : Span) (field encoded : String) (matches : List Span)
    → b.start ≤ b.stop
    → b.stop ≤ text_length text
    → Within 0 (b.stop - b.start) matches
    → Safe (replace_single text b.start field encoded matches)
unfolding replace_single
replace_single-Safe text b field encoded [] x y w = λ e. cc
replace_single-Safe text b field encoded (m ∷ []) x y w =
    splice-Safe text (b.start + m.start) (b.start + m.stop) _ (omega arith) (omega arith)
replace_single-Safe text b field encoded (m ∷ n ∷ ms) x y w = λ e. cc

pub replace_project_field-Safe :
    (json_text : String → String) (text : String) (count index : ℕ) (field value : String)
    → Safe (replace_project_field json_text text count index field value)
unfolding replace_project_field
replace_project_field-Safe json_text text count index field value =
    block-Safe text count index _ λ b block x y e.
      replace_single-Safe text b field (json_text value) _ x y (
        matches-Within (field_match field) block (b.stop - b.start) (field_match-IsBounded field) e)

pub insert_allow_entry-Safe :
    (json_argv : List String → String) (text : String) (count index allow_count : ℕ)
    (argv : List String)
    → Safe (insert_allow_entry json_argv text count index allow_count argv)
unfolding insert_allow_entry
insert_allow_entry-Safe json_argv text count index allow_count argv =
    block-Safe text count index _ λ b block x y e.
      Safe-reject (not (eqb (length (find_all (header_match allow_header) block)) allow_count))
        one_block_per_entry (put_line text b.stop (entry_lines json_argv (newline_of text) argv))
        (λ h. cc) (λ _. put_line-Safe text b.stop (entry_lines json_argv (newline_of text) argv) y)

pub remove_project_span-Safe :
    (text : String) (count index : ℕ) → Safe (remove_project_span text count index)
unfolding remove_project_span
remove_project_span-Safe text count index =
    Safe->>= (project_block text count index) _ (project_block-Safe text count index) (λ b e.
      let (x, y, z) = project_block-bounds text count index b e in
      splice-Safe text b.header.start b.stop "" (omega arith) z)
