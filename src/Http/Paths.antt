-- ===== src/Http/Paths.antt =====
-- Texts and paths: prefixes, suffixes and parts, as the regular expressions and the methods of `String`
-- that packages/hub-core/src/server.ts and packages/hub-core/src/static.ts use find them.
use Prim.Native.Char.{code}
use text.Mathlib.TextEquality.{Char-path}
use text.Mathlib.TextLemmas.{cons-append, nil-append}
use pdatahub.Prelude.{
  String, none, some, inl, inr, Option, Bool, if◌then◌else◌, ◌≡◌, ◌==◌, starts_with, str_eq,
  str_append, ◌||◌, arith, Option-cases, ap₂, sym,
}

-- What stands behind a prefix.
unfoldable pub strip_prefix : String → String → Option String
strip_prefix String.[] s = some s
strip_prefix (String.◌∷◌ c p) String.[] = none
strip_prefix (String.◌∷◌ c p) (String.◌∷◌ d s) =
    let rest = strip_prefix p s in if code c == code d then rest else none

-- `s.includes(part)`
unfoldable pub includes : String → String → Bool
includes String.[] part = starts_with "" part
includes (String.◌∷◌ c s) part =
    let rest = includes s part in starts_with (String.◌∷◌ c s) part || rest

-- `s.endsWith(part)`
unfoldable pub ends_with : String → String → Bool
ends_with String.[] part = str_eq "" part
ends_with (String.◌∷◌ c s) part =
    let rest = ends_with s part in str_eq (String.◌∷◌ c s) part || rest

-- The longest part without a slash, and what follows: what `([^/]+)` matches in front of a slash or
-- the end.
unfoldable pub span_segment : String → String × String
span_segment String.[] = ("", "")
span_segment (String.◌∷◌ c s) =
    let (segment, rest) = span_segment s in
    if code c == b'/' then ("", String.◌∷◌ c s) else (String.◌∷◌ c segment, rest)

-- The group of `^before([^/]+)after$`, where `after` is empty or begins with a slash.
unfoldable pub capture : String → String → String → Option String
capture before after s = elim (strip_prefix before s) [
  | none ↦ none
  | some rest ↦
      let (segment, tail) = span_segment rest in
      if str_eq segment "" then none else if str_eq tail after then some segment else none
]

pub strip_prefix-append :
    (p s : String) {rest : String} → strip_prefix p s ≡ some rest → s ≡ str_append p rest
unfolding strip_prefix
strip_prefix-append String.[] s {rest} h = rw (nil-append rest) (ground (arith, h))
strip_prefix-append (String.◌∷◌ c p) String.[] h = cc
strip_prefix-append (String.◌∷◌ c p) (String.◌∷◌ d s) {rest} h =
    let same : code c ≡ code d = ground arith in
    let tail : strip_prefix p s ≡ some rest = ground arith in
    rw (cons-append c p rest)
      (ap₂ (λ x y. String.◌∷◌ x y) (Char-path d c (sym same)) (strip_prefix-append p s tail))

-- What matches the expression begins with its first part.
pub capture-append :
    (before after s : String) {segment : String}
    → capture before after s ≡ some segment
    → (rest : String) × (s ≡ str_append before rest)
unfolding capture
capture-append before after s h = elim (Option-cases (strip_prefix before s)) [
  | inl e ↦ absurd (ground (arith, e))
  | inr (rest, e) ↦ (rest, strip_prefix-append before s e)
]
