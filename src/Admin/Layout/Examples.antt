-- ===== src/Admin/Layout/Examples.antt =====
-- The edits on a small policy text.
use secrets_broker.Base.{String, [], ◌∷◌}
use secrets_broker.Admin.Layout.Edits.{
  replace_approval, replace_project_field, insert_allow_entry, remove_allow_entries,
  remove_project_span,
}
use secrets_broker.Admin.Layout.Edits.Place.{IsConfined}
use secrets_broker.Admin.Layout.Edits.Confined.{edits-IsConfined}

abbrev text : String
text =
    "# policy\n[[projects]]\nalias = \"a\"\napproval = 'never' # old\n  [[projects.allow]]\n  argv = [\"x\"]\n[[projects]] # two\r\nalias = \"b\"\n"

edits-IsConfined_example :
    IsConfined text 0 (replace_approval text 2 0 "prompt")
    × IsConfined text 0 (replace_project_field (λ s. s) text 2 0 "alias" "\"c\"")
    × IsConfined text 0 (insert_allow_entry (λ argv. "[]") text 2 0 1 [])
    × IsConfined text 0 (remove_allow_entries text 2 0 1 (0 ∷ []))
    × IsConfined text 0 (remove_project_span text 2 0)
edits-IsConfined_example =
    edits-IsConfined (λ s. s) (λ argv. "[]") text 2 0 1 "prompt" "alias" "\"c\"" [] (0 ∷ [])
