-- ===== src/Projectlist/Listing.antt =====
-- Which listings internal/projectlist/result.go takes from BWS.
use mathlib.Core.Path.{subst}
use secrets_broker.Base.{
  ℕ, ◌≤◌, String, ◌≡◌, refl, ap, sym, ◌∙◌, ◌≢◌, ◌⊎◌, inl, inr, ◌↔◌, Option, none, some, Bool, true,
  false, Bool-cases, not, ◌||◌, Result, Check, List, [], ◌∷◌, All, any, any-eq_false_iff, length,
  map, ltb, ◌==◌, eq_iff, arith, ok, err, map_err, reject->>-eq-ok, >>-eq-ok, >>=-eq-ok,
}
use secrets_broker.Go.{is_blank, byte_length}
use secrets_broker.Go.Blank.{is_blank_of_ne, ne_of_is_blank}
use secrets_broker.Go.Printing.{IsPrintable, all_print_iff}
use secrets_broker.Projectlist.{
  ListedProject, ProjectList, ObjectField, absent, text, other_json, Item, ListError, invalid_list,
  invalid_envelope, invalid_text, duplicate_id, is_safe_text, validate_items, validate_listed,
  validate_list, is_project_object, convert, listed, from_items, from_bws,
}

abbrev pub entry_of : Item → ListedProject
entry_of item = record { id = item.id; name = item.name }

-- The item says that it is a project, or does not say what it is.
abbrev pub IsProjectItem : Item → Type 0
IsProjectItem item = (item.object ≡ absent) ⊎ (item.object ≡ text "project")

-- No project has the identifier of one before it; `seen` holds those from before the list.
abbrev pub HasFreshIds : List String → List ListedProject → Type 0
HasFreshIds seen [] = Unit
HasFreshIds seen (p ∷ rest) = All (λ a. a ≢ p.id) seen × HasFreshIds (p.id ∷ seen) rest

module _ (is_print : ℕ → Bool) where
  abbrev pub IsSafe : String → ℕ → Type 0
  IsSafe s limit = (s ≢ "") × (byte_length s ≤ limit) × IsPrintable is_print s

  abbrev pub IsEntry : ListedProject → Type 0
  IsEntry p = IsSafe p.id 128 × IsSafe p.name 256

  pub record IsListing (items : List Item) (r : ProjectList) : Type 0 where
    pub objects : All IsProjectItem items
    pub result : r ≡ listed (map entry_of items)
    pub bounded : length (map entry_of items) ≤ 256
    pub entries : All IsEntry (map entry_of items)
    pub fresh : HasFreshIds [] (map entry_of items)

  is_safe_text_iff :
      (s : String) (limit : ℕ) → (is_safe_text is_print s limit ≡ true) ↔ IsSafe s limit
  unfolding is_safe_text
  is_safe_text_iff s limit = elim (Bool-cases (is_blank s || ltb limit (byte_length s))) [
    | inl bad ↦ (λ h. ground (arith, h, bad), λ v. ground (arith, bad, is_blank_of_ne v.0, v.1))
    | inr good ↦ (
      λ h. (
        ne_of_is_blank (ground (arith, good)),
        ground (arith, good),
        (all_print_iff is_print s).0 (ground (arith, h, good)),
      ),
      λ v. rw good ((all_print_iff is_print s).1 v.2),
    )
  ]

  items_iff :
      (seen : List String) (ps : List ListedProject)
      → (validate_items is_print seen ps ≡ ok tt) ↔ (All IsEntry ps × HasFreshIds seen ps)
  unfolding validate_items
  items_iff seen [] = (λ h. (tt, tt), λ h. refl)
  items_iff seen (p ∷ ps) = (
    λ h.
        let (safe, h1) =
          reject->>-eq-ok
            (not (is_safe_text is_print p.id 128) || not (is_safe_text is_print p.name 256))
            invalid_text _ h in
        let (fresh, h2) =
          reject->>-eq-ok (any (λ a. a == p.id) seen) duplicate_id
            (validate_items is_print (p.id ∷ seen) ps) h1 in
        let (entries, freshes) = (items_iff (p.id ∷ seen) ps).0 h2 in
        (
          (
            (
              (is_safe_text_iff p.id 128).0 (ground arith),
              (is_safe_text_iff p.name 256).0 (ground arith),
            ),
            entries,
          ),
          ((any-eq_false_iff p.id seen).0 fresh, freshes),
        ),
    λ v.
        rw
          (
            (is_safe_text_iff p.id 128).1 v.0.0.0,
            (is_safe_text_iff p.name 256).1 v.0.0.1,
            (any-eq_false_iff p.id seen).1 v.1.0,
          )
          ((items_iff (p.id ∷ seen) ps).1 (v.0.1, v.1.1)),
  )

is_project_object_iff :
    (o : ObjectField) → (is_project_object o ≡ true) ↔ ((o ≡ absent) ⊎ (o ≡ text "project"))
is_project_object_iff absent = (λ h. inl refl, λ v. refl)
is_project_object_iff other_json = (λ h. cc, λ v. ground (arith, v))
is_project_object_iff (text s) =
    (λ h. inr (ap text ((eq_iff s "project").0 h)), λ v. ground (arith, v, eq_iff s "project"))

convert_iff :
    (items : List Item) (ps : List ListedProject)
    → (convert items ≡ ok ps) ↔ (All IsProjectItem items × (ps ≡ map entry_of items))
unfolding convert
convert_iff [] ps = (λ h. (tt, ground (arith, h)), λ v. ground (arith, v.1))
convert_iff (item ∷ rest) ps = (
  λ h.
      let (said, h1) = reject->>-eq-ok (not (is_project_object item.object)) invalid_list _ h in
      let (qs, same, last) = >>=-eq-ok (convert rest) _ h1 in
      let (objects, mapped) = (convert_iff rest qs).0 same in
      (
        ((is_project_object_iff item.object).0 (ground arith), objects),
        last_of qs last ∙ ap (λ xs. entry_of item ∷ xs) mapped,
      ),
  λ v.
      rw
        (
          (is_project_object_iff item.object).1 v.0.0,
          (convert_iff rest (map entry_of rest)).1 (v.0.1, refl),
        )
        (ap ok (sym v.1)),
)
  where
    last_of :
        (qs : List ListedProject)
        → ◌≡◌ {A = Result ListError (List ListedProject)} (ok (entry_of item ∷ qs)) (ok ps)
        → ps ≡ entry_of item ∷ qs
    last_of qs e = ground (arith, e)

map_err-eq-ok :
    {m : Check ListError} → map_err {F = ListError} (λ e. invalid_list) m ≡ ok tt → m ≡ ok tt
map_err-eq-ok {m = ok u} h = refl
map_err-eq-ok {m = err e} h = cc

ok_injective : {a b : ProjectList} → ◌≡◌ {A = Result ListError ProjectList} (ok a) (ok b) → a ≡ b
ok_injective e = ground (arith, e)

in_bounds : {n : ℕ} → n ≤ 256 → ltb 256 n ≡ false
in_bounds h = ground arith

module _ (is_print : ℕ → Bool) where
  validate_list_iff :
      (ps : List ListedProject)
      → (validate_list is_print (listed ps) ≡ ok tt)
        ↔ ((length ps ≤ 256) × All (IsEntry is_print) ps × HasFreshIds [] ps)
  unfolding validate_list validate_listed
  validate_list_iff ps = (
    λ h.
        let (few, each) =
          reject->>-eq-ok (ltb 256 (length ps)) invalid_envelope (validate_items is_print [] ps)
            h in
        let (entries, fresh) = (items_iff is_print [] ps).0 each in (ground arith, entries, fresh),
    λ v. rw (in_bounds v.0) ((items_iff is_print [] ps).1 (v.1, v.2)),
  )

  abbrev Checked : List ListedProject → Type 0
  Checked ps = (length ps ≤ 256) × All (IsEntry is_print) ps × HasFreshIds [] ps

  convert-IsListing :
      (items : List Item) (ps : List ListedProject) (r : ProjectList)
      → All IsProjectItem items
      → ps ≡ map entry_of items
      → Checked ps
      → listed ps ≡ r
      → IsListing is_print items r
  convert-IsListing items ps r objects mapped checked last =
      let (bounded, entries, fresh) = subst Checked mapped checked in
      record {
        objects = objects;
        result = sym last ∙ ap listed mapped;
        bounded = bounded;
        entries = entries;
        fresh = fresh;
      }

  from_items_iff :
      (found : Option (List Item)) (r : ProjectList)
      → (from_items is_print found ≡ ok r)
        ↔ ((items : List Item) × (found ≡ some items) × IsListing is_print items r)
  unfolding from_items
  from_items_iff none r = (λ h. cc, λ (items, e, v). cc)
  from_items_iff (some items) r = (
    λ h.
        let (ps, same, h1) = >>=-eq-ok (convert items) _ h in
        let (good, last) =
          >>-eq-ok (map_err (λ e. invalid_list) (validate_list is_print (listed ps)))
            (ok (listed ps)) h1 in
        let (objects, mapped) = (convert_iff items ps).0 same in
        (
          items,
          refl,
          convert-IsListing items ps r objects mapped
              ((validate_list_iff ps).0 (map_err-eq-ok good)) (ok_injective last),
        ),
    λ (items', e, v).
        let w : IsListing is_print items r =
          subst (λ xs. IsListing is_print xs r) (ground (arith, e)) v in
        rw
          (
            (convert_iff items _).1 (w.objects, refl),
            (validate_list_iff (map entry_of items)).1 (w.bounded, w.entries, w.fresh),
          )
          (ap ok (sym w.result)),
  )

-- A listing is taken exactly when the JSON decodes, every item says that it is a project or does not say
-- what it is, there are at most 256 of them, and their identifiers and names are printable, not empty and
-- of at most 128 and 256 bytes, with no identifier twice. The result then lists them all, in order.
pub from_bws-IsListing_iff :
    (is_print : ℕ → Bool) (decode : String → Option (List Item)) (output : String) (r : ProjectList)
    → (from_bws is_print decode output ≡ ok r)
      ↔ ((items : List Item) × (decode output ≡ some items) × IsListing is_print items r)
unfolding from_bws
from_bws-IsListing_iff is_print decode output r = from_items_iff is_print (decode output) r
