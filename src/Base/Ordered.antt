-- ===== src/Base/Ordered.antt =====
-- `sorted(set(...))` on texts, which Python orders by their code points.
use Prim.Native.Nat.{compare, Ordering}
use Prim.Native.Char.{code}
use Prim.Native.String.{String}
use mathlib.Core.List.{List, [], ◌∷◌}

-- The first text stands before the second, or is it, or stands after it.
unfoldable pub compare_text : String → String → Ordering
compare_text String.[] String.[] = Ordering.eq
compare_text String.[] (String.◌∷◌ c s) = Ordering.lt
compare_text (String.◌∷◌ c s) String.[] = Ordering.gt
compare_text (String.◌∷◌ c s) (String.◌∷◌ d t) =
    let rest = compare_text s t in elim (compare (code c) (code d)) [ Ordering.eq ↦ rest | o ↦ o ]

unfoldable pub insert_text : String → List String → List String
unfolding compare_text
insert_text s [] = s ∷ []
insert_text s (t ∷ ts) =
    let rest = insert_text s ts in
    elim (compare_text s t) [
      | Ordering.lt ↦ s ∷ t ∷ ts
      | Ordering.eq ↦ t ∷ ts
      | Ordering.gt ↦ t ∷ rest
    ]

unfoldable pub sorted_set : List String → List String
unfolding insert_text
sorted_set [] = []
sorted_set (s ∷ ss) = insert_text s (sorted_set ss)
