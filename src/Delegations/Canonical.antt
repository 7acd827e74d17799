-- ===== src/Delegations/Canonical.antt =====
-- delegation.ts, `CanonicalJson`: one text for all orders of an object's keys. Keys are compared by code
-- points, which is the order of their UTF-16 units for texts below U+D800, as the source assumes.
pub mod KeyOrder
use Prim.Native.Char.{code}
use pdatahub.Prelude.{
  ltb, str_append, map, [], true, false, ok, err, Bool, String, List, if◌then◌else◌, Result, ◌∷◌,
  ◌==◌,
}

-- A value of the language: a number is the text that `JSON.stringify` gives it, and `non_finite` and
-- `unsupported` are those that it refuses.
mutual
  pub data Json : Type 0 where
    null : Json
    undefined : Json
    boolean : Bool → Json
    number : String → Json
    non_finite : String → Json
    string : String → Json
    array : Items → Json
    object : Fields → Json
    unsupported : String → Json

  pub data Items : Type 0 where
    nil : Items
    cons : Json → Items → Items

  pub data Fields : Type 0 where
    end : Fields
    field : String → Json → Fields → Fields

-- `s <= t` in the order of `sort`.
unfoldable pub str_le : String → String → Bool
str_le String.[] t = true
str_le (String.◌∷◌ c s) String.[] = false
str_le (String.◌∷◌ c s) (String.◌∷◌ d t) =
    let rest = str_le s t in
    if ltb (code c) (code d) then true else if code c == code d then rest else false

-- A key and the text of its value, or what is thrown there.
abbrev pub Part : Type 0
Part = String × Result String

unfoldable pub insert_part : Part → List Part → List Part
insert_part p [] = p ∷ []
insert_part p (q ∷ ps) =
    let rest = insert_part p ps in if str_le p.0 q.0 then p ∷ q ∷ ps else q ∷ rest

unfoldable pub sort_parts : List Part → List Part
unfolding insert_part
sort_parts [] = []
sort_parts (p ∷ ps) = insert_part p (sort_parts ps)

-- `parts.join(',')`
unfoldable pub join : List String → String
join [] = ""
join (s ∷ []) = s
join (s ∷ t ∷ ts) = str_append s (str_append "," (join (t ∷ ts)))

-- The texts, or the first error.
unfoldable pub all_ok : List (Result String) → Result (List String)
all_ok [] = ok []
all_ok (err e ∷ rs) = err e
all_ok (ok s ∷ rs) = elim (all_ok rs) [ ok ts ↦ ok (s ∷ ts) | err e ↦ err e ]

unfoldable pub wrap : String → String → Result (List String) → Result String
wrap before after (ok ts) = ok (str_append before (str_append (join ts) after))
wrap before after (err e) = err e

unfoldable pub is_undefined : Json → Bool
is_undefined undefined = true
is_undefined v = false

-- The text of the value at a key, where `undefined` has an error of its own.
unfoldable pub at_key : String → Json → Result String → Result String
unfolding is_undefined
at_key k v text =
    if is_undefined v
    then err (str_append "CanonicalJson: undefined value at key '" (str_append k "'"))
    else text

-- `JSON.stringify` of a text is the argument `quote`.
module _ (quote : String → String) where
  unfoldable pub pair_text : Part → Result String
  pair_text (k, ok s) = ok (str_append (quote k) (str_append ":" s))
  pair_text (k, err e) = err e

  unfoldable mutual
    unfolding pair_text sort_parts all_ok wrap at_key

    pub serialize_canonical : Json → Result String
    serialize_canonical null = ok "null"
    serialize_canonical undefined = err "CanonicalJson: undefined values are not permitted"
    serialize_canonical (boolean b) = ok (if b then "true" else "false")
    serialize_canonical (number s) = ok s
    serialize_canonical (non_finite s) = err (str_append "CanonicalJson: non-finite number " s)
    serialize_canonical (string s) = ok (quote s)
    serialize_canonical (array xs) = wrap "[" "]" (all_ok (item_texts xs))
    serialize_canonical (object fs) =
        wrap "{" "}" (all_ok (map pair_text (sort_parts (field_parts fs))))
    serialize_canonical (unsupported t) = err (str_append "CanonicalJson: unsupported type " t)

    pub item_texts : Items → List (Result String)
    item_texts nil = []
    item_texts (cons x xs) = serialize_canonical x ∷ item_texts xs

    pub field_parts : Fields → List Part
    field_parts end = []
    field_parts (field k v fs) = (k, at_key k v (serialize_canonical v)) ∷ field_parts fs
