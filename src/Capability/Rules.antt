-- ===== src/Capability/Rules.antt =====
-- src/kernel/capability-kernel.js: lists of names with a wildcard, domains and paths.
use asynchronnous_agent_os.Prelude.{
  ◌-◌, Bool, false, ◌&&◌, ◌||◌, not, String, List, [], ◌∷◌, Option, none, some, str_eq,
  if◌then◌else◌, any,
}
use Prim.Native.String.{◌++◌, len, slice}
use text.Mathlib.Text.{starts_with}

-- What the code takes from its platform: `toLowerCase` and `posix.normalize`.
pub record Platform : Type 0 where
  pub lower : String → String
  pub posix_normalize : String → String

abbrev pub includes : String → List String → Bool
includes v xs = any (λ x. str_eq x v) xs

-- `[...new Set(values)]`, after the values that are seen.
unfoldable pub unique : List String → List String → List String
unique seen [] = []
unique seen (x ∷ xs) =
    let old = unique seen xs in
    let new = unique (x ∷ seen) xs in if includes x seen then old else x ∷ new

-- `list`, of a property that may be missing.
abbrev pub list : Option (List String) → List String
list none = []
list (some xs) = unique [] xs

abbrev pub allows : List String → String → Bool
allows parent v = includes "*" parent || includes v parent

abbrev pub ends_with : String → String → Bool
ends_with s t = str_eq (slice s (len s - len t) (len s)) t

-- `rule.slice(1)`
abbrev pub tail_of : String → String
tail_of s = slice s 1 (len s)

unfoldable pub domain_matches : Platform → String → String → Bool
domain_matches w rule hostname =
    let candidate = w.lower rule in
    let normalized = w.lower hostname in
    str_eq candidate "*"
    || (str_eq candidate normalized
        || (starts_with candidate "*." && ends_with normalized (tail_of candidate)))

-- `domain.replace(/^\*\./, 'probe.')`
abbrev pub probe : String → String
probe domain = if starts_with domain "*." then "probe." ++ slice domain 2 (len domain) else domain

-- `normalize`: null for a path that is absolute or leaves the root.
unfoldable pub normalize : Platform → String → Option String
normalize w value =
    let n = w.posix_normalize (if str_eq value "" then "." else value) in
    if starts_with n "/" || (str_eq n ".." || starts_with n "../") then none else some n

-- The comparison of two paths that are normalised.
abbrev pub is_below : String → String → Bool
is_below root path = str_eq root "." || (str_eq path root || starts_with path (root ++ "/"))

-- `!path`
abbrev pub is_missing : String → Bool
is_missing path = str_eq path ""

abbrev pub both_below : Option String → Option String → Bool
both_below (some root) (some path) =
    not (is_missing root) && (not (is_missing path) && is_below root path)
both_below _ _ = false

unfoldable pub path_within : Platform → String → String → Bool
path_within w root requested = both_below (normalize w root) (normalize w requested)
