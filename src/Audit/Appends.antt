-- ===== src/Audit/Appends.antt =====
-- The log only grows, and by exactly the lines of the calls that succeed.
use Prim.Native.String
use text.Mathlib.TextLemmas.{append-nil, append_assoc}
use secrets_broker.Base.{
  ℕ, String, ◌≡◌, refl, sym, ap, ◌∙◌, ◌⊎◌, inl, inr, Bool, true, false, Option, none, some, List,
  [], ◌∷◌, All, Any, Result, Check, ok, err, if◌then◌else◌, >>=-eq-ok, >>-eq-ok, ok_inj,
}
use secrets_broker.Go.Slices.{text_take}
use secrets_broker.Securefile.{
  Node, FileError, open_append, created_or, open_file, validate_node, perm_077, is_symlink,
  not_opened,
}
use secrets_broker.Broker.{StartRecord}
use secrets_broker.Audit.{
  AuditRecord, AuditError, Machine, content_of, write_text, write_opened, append_line, start_line,
  start_drawn, start, finish_line, finish, LogCall, start_call, finish_call, log_call, log_calls,
}

-- The line of a call, empty where no identifier was drawn.
line_of_id : (AuditRecord → String) → Machine → StartRecord → Option String → String
line_of_id encode m rec none = ""
line_of_id encode m rec (some id) = String.◌++◌ (start_line encode m rec id) "\n"

pub call_line : (AuditRecord → String) → LogCall → String
unfolding line_of_id
call_line encode (start_call m rec) = line_of_id encode m rec m.new_id
call_line encode (finish_call m id rec) = String.◌++◌ (finish_line encode m id rec) "\n"

pub call_lines : (AuditRecord → String) → List LogCall → String
unfolding call_line
call_lines encode [] = ""
call_lines encode (c ∷ rest) = String.◌++◌ (call_line encode c) (call_lines encode rest)

-- A file that the machine makes is empty.
abbrev pub MakesEmpty : Machine → Type 0
MakesEmpty m = content_of m.created ≡ ""

abbrev pub CallMakesEmpty : LogCall → Type 0
CallMakesEmpty (start_call m rec) = MakesEmpty m
CallMakesEmpty (finish_call m id rec) = MakesEmpty m

-- A call adds a text behind the log: the whole line if it reports success.
abbrev Extends : String → Option Node → Option Node × Check AuditError → Type 0
Extends line file out =
    (added : String) × (content_of out.0 ≡ String.◌++◌ (content_of file) added)
    × (((e : AuditError) × (out.1 ≡ err e)) ⊎ (added ≡ line))

created_or-content :
    (m : Machine) (file : Option Node)
    → MakesEmpty m
    → content_of (created_or m.euid m.created file) ≡ content_of file
unfolding created_or
created_or-content m none empty = empty
created_or-content m (some n) empty = refl

open_file-content :
    (path : Option Node) (n : Node) → open_file path ≡ ok n → n.content ≡ content_of path
unfolding open_file
open_file-content none n h = cc
open_file-content (some x) n h = by_kind (is_symlink x.kind) h
  where
    by_kind : (b : Bool) → (if b then err not_opened else ok x) ≡ ok n → n.content ≡ x.content
    by_kind true k = cc
    by_kind false k = ap (λ y. y.content) (sym (ok_inj k))

open_append-content :
    (m : Machine) (file : Option Node) (n : Node)
    → open_append m.euid m.created file ≡ ok n
    → n.content ≡ content_of (created_or m.euid m.created file)
unfolding open_append
open_append-content m file n h =
    let (x, opened, h1) = >>=-eq-ok (open_file (created_or m.euid m.created file)) _ h in
    let (_, same) = >>-eq-ok (validate_node m.euid x perm_077 false) _ h1 in
    ap (λ y. y.content) (sym (ok_inj same)) ∙ open_file-content _ x opened

write_text-Extends :
    (m : Machine) (n : Node) (text : String) (fails : Option ℕ)
    → Extends text (some n) (some (write_text m n text fails).0, (write_text m n text fails).1)
unfolding write_text
write_text-Extends m n text (some count) = (text_take count text, refl, inl (_, refl))
write_text-Extends m n text none = (text, refl, inr refl)

write_opened-Extends :
    (m : Machine) (line : String) (file made : Option Node) (opened : Result FileError Node)
    → content_of made ≡ content_of file
    → ((n : Node) → opened ≡ ok n → n.content ≡ content_of made)
    → Extends (String.◌++◌ line "\n") file (write_opened m line made opened)
unfolding write_opened
write_opened-Extends m line file made (err e) same found =
    ("", same ∙ sym (append-nil (content_of file)), inl (_, refl))
write_opened-Extends m line file made (ok n) same found =
    let (added, grown, result) = write_text-Extends m n (String.◌++◌ line "\n") m.write_fails in
    (added, grown ∙ ap (λ t. String.◌++◌ t added) (found n refl ∙ same), result)

append_line-Extends :
    (m : Machine) (line : String) (file : Option Node)
    → MakesEmpty m
    → Extends (String.◌++◌ line "\n") file (append_line m line file)
unfolding append_line
append_line-Extends m line file empty =
    write_opened-Extends m line file (created_or m.euid m.created file) _
      (created_or-content m file empty) (open_append-content m file)

start_drawn-Extends :
    (encode : AuditRecord → String) (m : Machine) (rec : StartRecord) (id : Option String)
    (file : Option Node)
    → MakesEmpty m
    → Extends (line_of_id encode m rec id) file (start_drawn encode m rec id file)
unfolding start_drawn line_of_id
start_drawn-Extends encode m rec none file empty =
    ("", sym (append-nil (content_of file)), inl (_, refl))
start_drawn-Extends encode m rec (some id) file empty =
    append_line-Extends m (start_line encode m rec id) file empty

log_call-Extends :
    (encode : AuditRecord → String) (c : LogCall) (file : Option Node)
    → CallMakesEmpty c
    → Extends (call_line encode c) file (log_call encode c file)
unfolding log_call start finish call_line
log_call-Extends encode (start_call m rec) file empty =
    start_drawn-Extends encode m rec m.new_id file empty
log_call-Extends encode (finish_call m id rec) file empty =
    append_line-Extends m (finish_line encode m id rec) file empty

-- An error among the results.
abbrev pub HasError : List (Check AuditError) → Type 0
HasError results = Any (λ r. (e : AuditError) × (r ≡ err e)) results

-- Over any sequence of starts and finishes the audit log is only ever appended to, and unless one of the
-- calls reported an error, what is appended is exactly the line of each call, in their order. A log
-- file that has to be created is empty at first.
pub log_calls-Appends :
    (encode : AuditRecord → String) (calls : List LogCall) (file : Option Node)
    → All CallMakesEmpty calls
    → (added : String) × (content_of (log_calls encode calls file).0
        ≡ String.◌++◌ (content_of file) added)
      × (HasError (log_calls encode calls file).1 ⊎ (added ≡ call_lines encode calls))
unfolding log_calls call_lines
log_calls-Appends encode [] file empty = ("", sym (append-nil (content_of file)), inr refl)
log_calls-Appends encode (c ∷ rest) file empty =
    let (first, grown, one) = log_call-Extends encode c file empty.0 in
    let (more, grown', others) = log_calls-Appends encode rest (log_call encode c file).0 empty.1 in
    (
      String.◌++◌ first more,
      grown' ∙ ap (λ t. String.◌++◌ t more) grown ∙ append_assoc (content_of file) first more,
      elim one [
        | inl failed ↦ inl (inl failed)
        | inr same ↦ elim others [
          | inl failed ↦ inl (inr failed)
          | inr same' ↦ inr (λ i. String.◌++◌ (same i) (same' i))
        ]
      ],
    )
