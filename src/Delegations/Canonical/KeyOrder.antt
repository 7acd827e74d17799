-- ===== src/Delegations/Canonical/KeyOrder.antt =====
-- `CanonicalJson`: the order of an object's keys does not show in its text.
use Prim.Native.Char.{code}
use text.Mathlib.TextEquality.{Char-path}
use pdatahub.Delegations.Canonical.{
  Json, Items, Fields, str_le, Part, insert_part, sort_parts, serialize_canonical, item_texts,
  field_parts, at_key, is_undefined,
}
use pdatahub.Prelude.{◌≡◌, arith, ap₂, [], true, false, refl, String, List, ◌≢◌, ◌∷◌, ◌∙◌}

pub str_le-total : (s t : String) → str_le s t ≡ false → str_le t s ≡ true
unfolding str_le
str_le-total String.[] t h = cc
str_le-total (String.◌∷◌ c s) String.[] h = refl
str_le-total (String.◌∷◌ c s) (String.◌∷◌ d t) h = ground (arith, str_le-total s t)

pub str_le_trans : (s t u : String) → str_le s t ≡ true → str_le t u ≡ true → str_le s u ≡ true
unfolding str_le
str_le_trans String.[] t u h k = refl
str_le_trans (String.◌∷◌ c s) String.[] u h k = cc
str_le_trans (String.◌∷◌ c s) (String.◌∷◌ d t) String.[] h k = cc
str_le_trans (String.◌∷◌ c s) (String.◌∷◌ d t) (String.◌∷◌ e u) h k =
    ground (arith, str_le_trans s t u)

str_le_antisymm : (s t : String) → str_le s t ≡ true → str_le t s ≡ true → s ≡ t
unfolding str_le
str_le_antisymm String.[] String.[] h k = refl
str_le_antisymm String.[] (String.◌∷◌ d t) h k = cc
str_le_antisymm (String.◌∷◌ c s) String.[] h k = cc
str_le_antisymm (String.◌∷◌ c s) (String.◌∷◌ d t) h k =
    let same : code c ≡ code d = ground arith in
    ap₂ (λ a b. String.◌∷◌ a b) (Char-path c d same)
      (str_le_antisymm s t (ground (arith, same)) (ground (arith, same)))

insert_part-swap :
    (p q : Part) (ps : List Part)
    → p.0 ≢ q.0
    → insert_part p (insert_part q ps) ≡ insert_part q (insert_part p ps)
unfolding insert_part
insert_part-swap p q [] ne =
    ground (arith, str_le-total p.0 q.0, str_le-total q.0 p.0, str_le_antisymm p.0 q.0)
insert_part-swap p q (r ∷ ps) ne = ground (
  arith,
  insert_part-swap p q ps,
  str_le-total p.0 q.0,
  str_le-total q.0 p.0,
  str_le_antisymm p.0 q.0,
  str_le_trans p.0 q.0 r.0,
  str_le_trans q.0 p.0 r.0,
  str_le-total p.0 r.0,
  str_le-total q.0 r.0,
  str_le_trans p.0 r.0 q.0,
  str_le_trans q.0 r.0 p.0,
  str_le_trans r.0 p.0 q.0,
  str_le_trans r.0 q.0 p.0,
)

-- Values that differ in the order of keys only, at any depth.
mutual
  pub data Alike : Json → Json → Type 0 where
    same : (v : Json) → Alike v v
    arrays : {xs ys : Items} → AlikeItems xs ys → Alike (Json.array xs) (Json.array ys)
    objects : {fs gs : Fields} → AlikeFields fs gs → Alike (Json.object fs) (Json.object gs)

  pub data AlikeItems : Items → Items → Type 0 where
    nil : AlikeItems Items.nil Items.nil
    cons :
        {v w : Json} {xs ys : Items}
        → Alike v w
        → AlikeItems xs ys
        → AlikeItems (Items.cons v xs) (Items.cons w ys)

  pub data AlikeFields : Fields → Fields → Type 0 where
    end : AlikeFields Fields.end Fields.end
    field :
        (k : String) {v w : Json} {fs gs : Fields}
        → Alike v w
        → AlikeFields fs gs
        → AlikeFields (Fields.field k v fs) (Fields.field k w gs)
    swap :
        (k j : String) (v w : Json) (fs : Fields)
        → k ≢ j
        → AlikeFields
            (Fields.field k v (Fields.field j w fs))
            (Fields.field j w (Fields.field k v fs))
    trans : {fs gs hs : Fields} → AlikeFields fs gs → AlikeFields gs hs → AlikeFields fs hs

is_undefined-Alike : {v w : Json} → Alike v w → is_undefined v ≡ is_undefined w
unfolding is_undefined
is_undefined-Alike (Alike.same v) = refl
is_undefined-Alike (Alike.arrays xs) = refl
is_undefined-Alike (Alike.objects fs) = refl

module _ (quote : String → String) where
  mutual
    unfolding serialize_canonical sort_parts at_key

    canonical-Alike :
        {v w : Json} → Alike v w → serialize_canonical quote v ≡ serialize_canonical quote w
    canonical-Alike (Alike.same v) = refl
    canonical-Alike (Alike.arrays xs) = rw (items_alike xs)
    canonical-Alike (Alike.objects fs) = rw (parts_alike fs)

    items_alike : {xs ys : Items} → AlikeItems xs ys → item_texts quote xs ≡ item_texts quote ys
    items_alike AlikeItems.nil = refl
    items_alike (AlikeItems.cons a xs) = ap₂ (λ x y. x ∷ y) (canonical-Alike a) (items_alike xs)

    parts_alike :
        {fs gs : Fields}
        → AlikeFields fs gs
        → sort_parts (field_parts quote fs) ≡ sort_parts (field_parts quote gs)
    parts_alike AlikeFields.end = refl
    parts_alike (AlikeFields.field k a fs) =
        rw (parts_alike fs, canonical-Alike a, is_undefined-Alike a)
    parts_alike (AlikeFields.swap k j v w fs ne) =
        insert_part-swap _ _ (sort_parts (field_parts quote fs)) ne
    parts_alike (AlikeFields.trans a b) = parts_alike a ∙ parts_alike b

  -- Objects that differ only in the order of their keys, at any depth, have one canonical text, and
  -- throw the same error if they have none.
  pub serialize_canonical-Alike :
      {v w : Json} → Alike v w → serialize_canonical quote v ≡ serialize_canonical quote w
  serialize_canonical-Alike a = canonical-Alike a
