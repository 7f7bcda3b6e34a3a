-- ===== src/Admin/Layout/Edits/Confined.antt =====
-- Each edit of the text, and the block of the project that it is for.
use secrets_broker.Base.{
  ℕ, ◌-◌, String, refl, List, length, arith, >>=-eq-ok, reject->>-eq-ok, not, eqb,
}
use secrets_broker.Go.Slices.{text_length}
use secrets_broker.Admin.Layout.Lines.{find_all, header_match, allow_header, field_match}
use secrets_broker.Admin.Layout.Lines.Within.{header_match-IsBounded, field_match-IsBounded}
use secrets_broker.Admin.Layout.Edits.{
  slice, replace_approval, replace_project_field, insert_allow_entry, all_spans,
  remove_allow_entries, remove_project_span, project_block, project_block_bounds,
  one_block_per_entry,
}
use secrets_broker.Admin.Layout.Edits.Bounds.{
  length-slice, matches-Within, replace_approval-Safe, replace_project_field-Safe,
  insert_allow_entry-Safe, remove_project_span-Safe,
}
use secrets_broker.Admin.Layout.Edits.Removal.{remove_allow_entries-Safe}
use secrets_broker.Admin.Layout.Edits.Place.{
  IsConfined, Safe-IsConfined, project_block-Found, project_block_bounds-Found, splice-Reworks,
  put_line-Reworks,
}
use secrets_broker.Admin.Layout.Edits.Steps.{
  replace_matched-Reworks, replace_single-Reworks, cut_spans-Reworks, all_spans-InBlock,
}

module _ (text : String) (count index : ℕ) where
  replace_approval-IsConfined :
      (approval : String) → IsConfined text index (replace_approval text count index approval)
  unfolding replace_approval
  replace_approval-IsConfined approval =
      Safe-IsConfined text index _ (replace_approval-Safe text count index approval) λ new h.
        let (b, bounds, h1) = >>=-eq-ok (project_block_bounds text count index) _ h in
        let (block, found, from, to) = project_block_bounds-Found text count index b bounds in
        let (inner, cut, h2) = >>=-eq-ok (slice text b.start b.stop) _ h1 in
        let (x, y, long) = length-slice text b.start b.stop inner cut in
        replace_matched-Reworks text index block.header.start block.stop found.block b approval new
          _ _ (omega (arith, found.ordered, from)) x (omega (arith, to))
          (matches-Within (field_match "approval") inner (b.stop - b.start)
            (field_match-IsBounded "approval") long)
          (matches-Within (header_match allow_header) inner (b.stop - b.start)
            (header_match-IsBounded allow_header) long)
          h2

  replace_project_field-IsConfined :
      (json_text : String → String) (field value : String)
      → IsConfined text index (replace_project_field json_text text count index field value)
  unfolding replace_project_field
  replace_project_field-IsConfined json_text field value =
      Safe-IsConfined text index _
        (replace_project_field-Safe json_text text count index field value)
        λ new h.
          let (b, bounds, h1) = >>=-eq-ok (project_block_bounds text count index) _ h in
          let (block, found, from, to) = project_block_bounds-Found text count index b bounds in
          let (inner, cut, h2) = >>=-eq-ok (slice text b.start b.stop) _ h1 in
          let (x, y, long) = length-slice text b.start b.stop inner cut in
          replace_single-Reworks text index block.header.start block.stop found.block b field _ new
            _ (omega (arith, found.ordered, from)) x (omega (arith, to))
            (matches-Within (field_match field) inner (b.stop - b.start)
              (field_match-IsBounded field) long)
            h2

  insert_allow_entry-IsConfined :
      (json_argv : List String → String) (allow_count : ℕ) (argv : List String)
      → IsConfined text index (insert_allow_entry json_argv text count index allow_count argv)
  unfolding insert_allow_entry
  insert_allow_entry-IsConfined json_argv allow_count argv =
      Safe-IsConfined text index _
        (insert_allow_entry-Safe json_argv text count index allow_count argv)
        λ new h.
          let (b, bounds, h1) = >>=-eq-ok (project_block_bounds text count index) _ h in
          let (block, found, from, to) = project_block_bounds-Found text count index b bounds in
          let (inner, cut, h2) = >>=-eq-ok (slice text b.start b.stop) _ h1 in
          let (_, h3) =
            reject->>-eq-ok
              (not (eqb (length (find_all (header_match allow_header) inner)) allow_count))
              one_block_per_entry _ h2 in
          put_line-Reworks text index block.header.start block.stop b.stop _ new found.block
            (omega (arith, found.ordered, found.long, to)) (omega (arith, to)) h3

  remove_allow_entries-IsConfined :
      (allow_count : ℕ) (remove : List ℕ)
      → IsConfined text index (remove_allow_entries text count index allow_count remove)
  unfolding remove_allow_entries
  remove_allow_entries-IsConfined allow_count remove =
      Safe-IsConfined text index _ (remove_allow_entries-Safe text count index allow_count remove)
        λ new h.
          let (b, bounds, h1) = >>=-eq-ok (project_block_bounds text count index) _ h in
          let (block, found, from, to) = project_block_bounds-Found text count index b bounds in
          let (inner, cut, h2) = >>=-eq-ok (slice text b.start b.stop) _ h1 in
          let (x, y, long) = length-slice text b.start b.stop inner cut in
          let headers = find_all (header_match allow_header) inner in
          let (_, h3) =
            reject->>-eq-ok (not (eqb (length headers) allow_count)) one_block_per_entry _ h2 in
          let (spans, all, h4) = >>=-eq-ok (all_spans text b.start inner headers remove) _ h3 in
          cut_spans-Reworks text index block.header.start block.stop found.block spans new
            (omega (arith, found.ordered, found.long))
            (all_spans-InBlock text index block.header.start block.stop found.block b.start inner
              headers (omega (arith, found.ordered, from)) (omega (arith, long, to)) found.begins
              (matches-Within (header_match allow_header) inner (text_length inner)
                (header_match-IsBounded allow_header) refl)
              remove spans all)
            h4

  remove_project_span-IsConfined : IsConfined text index (remove_project_span text count index)
  unfolding remove_project_span
  remove_project_span-IsConfined =
      Safe-IsConfined text index _ (remove_project_span-Safe text count index) λ new h.
        let (block, here, h1) = >>=-eq-ok (project_block text count index) _ h in
        let found = project_block-Found text count index block here in
        splice-Reworks text index block.header.start block.stop block.header.start block.stop "" new
          found.block (omega arith) (omega arith) h1

-- Whatever the text, the counts and the indices are, none of the edits of the policy's text slices it
-- out of range, and the text that one returns has exactly what stood before the block of the project
-- with the index and exactly what stood after it, the block being the text from that project's
-- `[[projects]]` line up to the next one or to the end: the edit of the approval mode, of a field, of an
-- allowlist entry to add or of some to remove, and of a project to remove.
pub edits-IsConfined :
    (json_text : String → String) (json_argv : List String → String) (text : String)
    (count index allow_count : ℕ) (approval field value : String) (argv : List String)
    (remove : List ℕ)
    → IsConfined text index (replace_approval text count index approval)
      × IsConfined text index (replace_project_field json_text text count index field value)
      × IsConfined text index (insert_allow_entry json_argv text count index allow_count argv)
      × IsConfined text index (remove_allow_entries text count index allow_count remove)
      × IsConfined text index (remove_project_span text count index)
edits-IsConfined json_text json_argv text count index allow_count approval field value argv remove =
    (
      replace_approval-IsConfined text count index approval,
      replace_project_field-IsConfined text count index json_text field value,
      insert_allow_entry-IsConfined text count index json_argv allow_count argv,
      remove_allow_entries-IsConfined text count index allow_count remove,
      remove_project_span-IsConfined text count index,
    )
