-- ===== src/Std/Path.antt =====
-- `std::path::Path` on Unix, over the bytes of a path.
use tmux_rescue.Common.{
  Bool, List, Option, [], false, if◌then◌else◌, list_eq, none, not, num_eq, refl, some, true, ℕ,
  ◌&&◌, ◌==◌, ◌||◌, ◌∷◌, ◌≡◌,
}
use tmux_rescue.Std.Text.{Bytes, lit}

-- `slice::split(|byte| *byte == separator)`
unfoldable pub split : ℕ → Bytes → List Bytes
split separator [] = [] ∷ []
split separator (b ∷ bs) = elim (split separator bs) [
  | [] ↦ []
  | part ∷ parts ↦ if b == separator then [] ∷ part ∷ parts else (b ∷ part) ∷ parts
]

unfoldable pub is_absolute : Bytes → Bool
is_absolute [] = false
is_absolute (b ∷ bs) = b == b'/'

-- The part that decides `file_name`: the last one that is neither empty nor ".".
last_component : List Bytes → Option Bytes
last_component [] = none
last_component (part ∷ parts) = elim (last_component parts) [
  | some name ↦ some name
  | none ↦ if part == [] || part == lit "." then none else some part
]

-- `Path::file_name`: none for a path that ends in "..", or that has no named component.
unfoldable pub file_name : Bytes → Option Bytes
unfolding split last_component
file_name path = elim (last_component (split b'/' path)) [
  | none ↦ none
  | some name ↦ if name == lit ".." then none else some name
]

-- The parts between separators that are neither empty nor ".".
named_parts : List Bytes → List Bytes
named_parts [] = []
named_parts (part ∷ parts) =
    let rest = named_parts parts in if part == [] || part == lit "." then rest else part ∷ rest

abbrev first_is_dot : List Bytes → Bool
first_is_dot [] = false
first_is_dot (part ∷ _) = part == lit "."

-- `Path::components`, each as `Component::as_os_str` has it: "/" is the root, "." the current and
-- ".." the parent directory, and no other component has one of these spellings.
unfoldable pub components : Bytes → List Bytes
unfolding named_parts split is_absolute
components path =
    if is_absolute path
    then lit "/" ∷ named_parts (split b'/' path)
    else if first_is_dot (split b'/' path)
    then lit "." ∷ named_parts (split b'/' path)
    else named_parts (split b'/' path)

-- `Component::Normal`
abbrev pub is_normal : Bytes → Bool
is_normal component = not (component == lit "/" || component == lit "." || component == lit "..")

-- Equality of paths: that of their components.
unfoldable pub same_path : Bytes → Bytes → Bool
same_path path other = components path == components other

components_start_with : List Bytes → List Bytes → Bool
components_start_with path [] = true
components_start_with [] (_ ∷ _) = false
components_start_with (c ∷ path) (d ∷ base) = c == d && components_start_with path base

-- `Path::starts_with`
unfoldable pub starts_with : Bytes → Bytes → Bool
unfolding components_start_with
starts_with path base = components_start_with (components path) (components base)

-- The part of a file name after its last dot, unless that dot is its first byte.
after_last_dot : List Bytes → Option Bytes
after_last_dot [] = none
after_last_dot (last ∷ []) = some last
after_last_dot (_ ∷ last ∷ parts) = after_last_dot (last ∷ parts)

extension_of : List Bytes → Option Bytes
extension_of [] = none
extension_of (whole ∷ []) = none
extension_of ([] ∷ only ∷ []) = none
extension_of (_ ∷ parts) = after_last_dot parts

-- `Path::extension`
unfoldable pub extension : Bytes → Option Bytes
unfolding split extension_of after_last_dot
extension path = elim (file_name path) [ none ↦ none | some name ↦ extension_of (split b'.' name) ]

path_tests :
    (components (lit "./a//b/./../c") ≡ lit "." ∷ lit "a" ∷ lit "b" ∷ lit ".." ∷ lit "c" ∷ [])
    × (starts_with (lit "/store/x/../a.jsonl") (lit "/store/") ≡ true)
    × (starts_with (lit "/stores") (lit "/store") ≡ false)
    × (extension (lit "/store/a.b.jsonl") ≡ some (lit "jsonl"))
    × (extension (lit "/store/.jsonl") ≡ none)
unfolding components starts_with extension file_name
path_tests = (refl, refl, refl, refl, refl)

file_name_tests :
    (file_name (lit "/usr/bin/mdbook") ≡ some (lit "mdbook"))
    × (file_name (lit "bin//./") ≡ some (lit "bin"))
    × (file_name (lit "a/..") ≡ none)
    × (file_name (lit "/") ≡ none)
unfolding file_name
file_name_tests = (refl, refl, refl, refl)
