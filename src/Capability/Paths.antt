-- ===== src/Capability/Paths.antt =====
-- Paths within a root that is within another are within the other.
use asynchronnous_agent_os.Prelude.{
  ◌+◌, ◌≡◌, refl, sym, ◌∙◌, ap, Bool, true, false, ◌||◌, String, Option, none, some, str_eq, eq_iff,
  arith, inl, inr, ◌⊎◌,
}
use Prim.Native.String.{◌++◌, count}
use text.Mathlib.Text.{starts_with}
use text.Mathlib.TextBridge.{IsPrefix}
use text.Mathlib.TextEquality.{starts_with_iff}
use text.Mathlib.TextLemmas.{append_assoc, length-append, length-eq-zero_iff}
use asynchronnous_agent_os.Capability.Rules.{
  Platform, is_below, is_missing, both_below, normalize, path_within,
}

abbrev slash : String → String
slash s = s ++ "/"

prefix_trans : (a b c : String) → IsPrefix a b → IsPrefix b c → IsPrefix a c
prefix_trans a b c (u, e) (v, f) = (u ++ v, sym (append_assoc a u v) ∙ ap (λ x. x ++ v) e ∙ f)

prefix_slash : (b c : String) → IsPrefix (slash b) c → IsPrefix b c
prefix_slash b c h = prefix_trans b (slash b) c ("/", refl) h

-- A path that stands under another is not the root itself.
not_root : (a : String) → is_missing a ≡ false → starts_with "." (slash a) ≡ true → ⊥
not_root a h e =
    let (u, f) = (starts_with_iff "." (slash a)).0 e in
    let size : count (slash a) + count u ≡ 1 = sym (length-append (slash a) u) ∙ ap count f in
    let size' : count (slash a) ≡ count a + 1 = length-append a "/" in
    let empty : a ≡ "" = (length-eq-zero_iff {l = a}).0 (omega (arith, size, size')) in
    let missing : is_missing a ≡ true = (eq_iff a "").1 empty in absurd (ground arith)

or_cases : (x y : Bool) → (x || y) ≡ true → (x ≡ true) ⊎ (y ≡ true)
or_cases true y h = inl refl
or_cases false y h = inr h

below_of_prefix : (a c : String) → IsPrefix (slash a) c → is_below a c ≡ true
below_of_prefix a c h = let e = (starts_with_iff c (slash a)).1 h in ground arith

is_below_trans :
    (a b c : String)
    → is_missing a ≡ false
    → is_below a b ≡ true
    → is_below b c ≡ true
    → is_below a c ≡ true
is_below_trans a b c m h g = elim (or_cases (str_eq a ".") _ h) [
  | inl root ↦ ground arith
  | inr h' ↦ elim (or_cases (str_eq b a) _ h') [
    | inl same ↦ let e : b ≡ a = (eq_iff b a).0 same in rw e at g
    | inr under ↦ elim (or_cases (str_eq b ".") _ g) [
      | inl root ↦ let e : b ≡ "." = (eq_iff b ".").0 root in absurd (not_root a m (rw e at under))
      | inr g' ↦ elim (or_cases (str_eq c b) _ g') [
        | inl same ↦ let e : c ≡ b = (eq_iff c b).0 same in rw e h
        | inr deep ↦ below_of_prefix a c (
            prefix_trans (slash a) b c ((starts_with_iff b (slash a)).0 under)
              (prefix_slash b c ((starts_with_iff c (slash b)).0 deep)))
      ]
    ]
  ]
]

both_below_trans :
    (x y z : Option String) → both_below x y ≡ true → both_below y z ≡ true → both_below x z ≡ true
both_below_trans none y z h g = ground arith
both_below_trans (some x) none z h g = ground arith
both_below_trans (some x) (some y) none h g = ground arith
both_below_trans (some x) (some y) (some z) h g =
    let m : is_missing x ≡ false = ground arith in
    let through = is_below_trans x y z m (ground arith) (ground arith) in ground arith

pub path_within_trans :
    (w : Platform) (a b c : String)
    → path_within w a b ≡ true
    → path_within w b c ≡ true
    → path_within w a c ≡ true
unfolding path_within
path_within_trans w a b c h g = both_below_trans (normalize w a) (normalize w b) (normalize w c) h g
