-- ===== src/Federation/Names/RoundTrip.antt =====
-- The names of federated tools: what is put into a name is read from it.
use Prim.Native.Char.{code}
use text.Mathlib.TextLemmas.{cons-append, nil-append}
use text.Mathlib.TextPositions.{starts_with-append}
use pdatahub.Delegations.Blob.{drop_chars, count_chars}
use pdatahub.Federation.Names.{
  split_at_sep, name_prefix, nonempty_pair, parse_federated_tool_name, federated_name,
}
use pdatahub.Prelude.{
  ◌≡◌, arith, str_append, eq_iff, some, true, false, refl, String, Bool, ◌≢◌, not, ◌==◌,
  if◌then◌else◌, ◌&&◌, ◌∙◌, ap,
}

-- A hub whose name can be told from what follows: `__` does not begin in it.
unfoldable pub is_plain : String → Bool
is_plain String.[] = true
is_plain (String.◌∷◌ c String.[]) = not (code c == b'_')
is_plain (String.◌∷◌ c (String.◌∷◌ d s)) =
    let rest = is_plain (String.◌∷◌ d s) in if code c == b'_' && code d == b'_' then false else rest

underscores : (s : String) → str_append "__" s ≡ String.◌∷◌ "_" (String.◌∷◌ "_" s)
underscores s =
    cons-append "_" "_" s
    ∙ ap (String.◌∷◌ "_") (cons-append "_" "" s ∙ ap (String.◌∷◌ "_") (nil-append s))

drop_chars-append : (s t : String) → drop_chars (count_chars s) (str_append s t) ≡ t
unfolding drop_chars count_chars
drop_chars-append String.[] t = nil-append t
drop_chars-append (String.◌∷◌ c s) t = rw (cons-append c s t) (drop_chars-append s t)

drop_prefix : (s : String) → drop_chars 11 (str_append name_prefix s) ≡ s
unfolding count_chars
drop_prefix s = drop_chars-append name_prefix s

split_at_sep-append :
    (hub tool : String)
    → is_plain hub ≡ true
    → split_at_sep (str_append hub (str_append "__" tool)) ≡ some (hub, tool)
unfolding split_at_sep is_plain
split_at_sep-append String.[] tool h = rw (nil-append (str_append "__" tool), underscores tool) refl
split_at_sep-append (String.◌∷◌ c String.[]) tool h =
    rw
      (cons-append c "" (str_append "__" tool), nil-append (str_append "__" tool), underscores tool)
      (ground arith)
split_at_sep-append (String.◌∷◌ c (String.◌∷◌ d s)) tool h =
    let rest = split_at_sep-append (String.◌∷◌ d s) tool (ground arith) in
    rw
      (
        cons-append c (String.◌∷◌ d s) (str_append "__" tool),
        cons-append d s (str_append "__" tool),
      )
      (ground (arith, rw (cons-append d s (str_append "__" tool)) at rest))

-- The name that a tool of a hub is listed under is read back as that hub and that tool, if neither is
-- empty and the hub's name has no two underscores in a row and does not end with one.
pub parse-federated_name :
    (hub tool : String)
    → is_plain hub ≡ true
    → hub ≢ ""
    → tool ≢ ""
    → parse_federated_tool_name (federated_name hub tool) ≡ some (hub, tool)
unfolding parse_federated_tool_name federated_name nonempty_pair
parse-federated_name hub tool plain h t =
    let rest = str_append hub (str_append "__" tool) in
    ground (
      arith,
      starts_with-append name_prefix rest,
      drop_prefix rest,
      split_at_sep-append hub tool plain,
      eq_iff hub "",
      eq_iff tool "",
    )
