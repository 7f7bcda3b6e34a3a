-- ===== src/Projectlist.antt =====
-- internal/projectlist/result.go. The JSON decoder is a parameter: its items, or `none` for an error or
-- a `null`. `unicode.IsPrint` is a parameter too.
pub mod Listing
mod Examples
use secrets_broker.Base.{
  ℕ, String, Option, none, some, Bool, true, false, not, ◌||◌, List, [], ◌∷◌, any, length, ltb, eqb,
  if◌then◌else◌, ◌==◌, Result, Check, ok, err, reject, map_err, ◌>>=◌, ◌>>◌,
}
use secrets_broker.Go.{is_blank, byte_length}
use secrets_broker.Go.Printing.{all_print}

abbrev pub version : ℕ
version = 1

abbrev pub max_projects : ℕ
max_projects = 256

pub record ListedProject : Type 0 where
  pub id : String
  pub name : String

-- `Result`; its projects are `none` for a nil slice.
pub record ProjectList : Type 0 where
  pub version : ℕ
  pub projects : Option (List ListedProject)

-- The field `object` of an item: absent, a text, or any other JSON.
pub data ObjectField : Type 0 where
  absent other_json : ObjectField
  text : String → ObjectField

pub record Item : Type 0 where
  pub object : ObjectField
  pub id : String
  pub name : String

pub data ListError : Type 0 where
  invalid_list invalid_envelope invalid_text duplicate_id : ListError

abbrev pub is_project_object : ObjectField → Bool
is_project_object absent = true
is_project_object other_json = false
is_project_object (text object) = object == "project"

-- The loop of `FromBWS`.
unfoldable pub convert : List Item → Result ListError (List ListedProject)
convert [] = ok []
convert (item ∷ rest) = do
  reject (not (is_project_object item.object)) invalid_list
  converted ← convert rest
  ok (record { id = item.id; name = item.name } ∷ converted)

abbrev pub listed : List ListedProject → ProjectList
listed projects = record { version = version; projects = some projects }

module _ (is_print : ℕ → Bool) where
  -- `safeText`.
  unfoldable pub is_safe_text : String → ℕ → Bool
  is_safe_text s limit =
      if is_blank s || ltb limit (byte_length s) then false else all_print is_print s

  -- The loop of `Validate`, with the identifiers seen.
  unfoldable pub validate_items : List String → List ListedProject → Check ListError
  validate_items seen [] = ok tt
  validate_items seen (p ∷ rest) =
      reject (not (is_safe_text p.id 128) || not (is_safe_text p.name 256)) invalid_text
      >> (reject (any (λ a. a == p.id) seen) duplicate_id >> validate_items (p.id ∷ seen) rest)

  -- `Result.Validate`.
  unfoldable pub validate_listed : Option (List ListedProject) → Check ListError
  validate_listed none = err invalid_envelope
  validate_listed (some projects) =
      reject (ltb max_projects (length projects)) invalid_envelope >> validate_items [] projects

  unfoldable pub validate_list : ProjectList → Check ListError
  validate_list r =
      reject (not (eqb r.version version)) invalid_envelope >> validate_listed r.projects

  unfoldable pub from_items : Option (List Item) → Result ListError ProjectList
  from_items none = err invalid_list
  from_items (some items) = do
    projects ← convert items
    map_err (λ e. invalid_list) (validate_list (listed projects))
    ok (listed projects)

-- `FromBWS`.
unfoldable pub from_bws :
    (ℕ → Bool) → (String → Option (List Item)) → String → Result ListError ProjectList
from_bws is_print decode output = from_items is_print (decode output)
