-- ===== src/Go/Paths.antt =====
-- `filepath.Clean` on Unix, by its documented rules: repeated slashes and `.` go, an inner `..` takes
-- the element before it, and a `..` that begins a rooted path goes.
use Prim.Native.String
use secrets_broker.Base.{String, ◌≡◌, refl, Bool, ◌&&◌, ◌||◌, List, [], ◌∷◌, if◌then◌else◌, ◌==◌}
use mathlib.Core.List.{reverse}
use secrets_broker.Go.{is_abs, split, join}

-- One element; the stack of kept elements has its last at the head.
clean_step : Bool → List String → String → List String
clean_step rooted [] part =
    if part == "" || part == "." || (rooted && part == "..") then [] else part ∷ []
clean_step rooted (top ∷ below) part =
    if part == "" || part == "."
    then top ∷ below
    else if part == ".."
    then (if top == ".." then part ∷ top ∷ below else below)
    else part ∷ top ∷ below

clean_parts : Bool → List String → List String → List String
clean_parts rooted stack [] = reverse stack
clean_parts rooted stack (part ∷ parts) = clean_parts rooted (clean_step rooted stack part) parts

unfoldable pub clean : String → String
unfolding clean_step clean_parts is_abs split join
clean path =
    let rooted = is_abs path in
    let body = join (clean_parts rooted [] (split b'/' path)) "/" in
    if rooted then String.◌++◌ "/" body else if body == "" then "." else body

clean_inner : clean "/srv//app/./x/../y/" ≡ "/srv/app/y"
unfolding clean
clean_inner = refl
