-- ===== src/Common/Sorted.antt =====
-- `sorted(d.items())` of a dictionary with texts as keys, and what a lookup sees of it.
use llm_router.Common.{List, String, ◌∷◌, [], if◌then◌else◌}
use llm_router.Common.Dict.{Dict}
use Prim.Native.String.{String}
use llm_router.Common.TextOrder.{str_leb}

module _ {ℓ} {V : Type ℓ} where
  insert_item : String → V → Dict String V → Dict String V
  insert_item k v [] = (k, v) ∷ []
  insert_item k v ((j, w) ∷ d) =
      if str_leb k j then (k, v) ∷ (j, w) ∷ d else (j, w) ∷ insert_item k v d

  unfoldable pub sorted_items : Dict String V → Dict String V
  unfolding insert_item
  sorted_items [] = []
  sorted_items ((k, v) ∷ d) = insert_item k v (sorted_items d)

-- `sorted(texts)`
unfoldable pub insert_text : String → List String → List String
insert_text s [] = s ∷ []
insert_text s (t ∷ ts) = if str_leb s t then s ∷ t ∷ ts else t ∷ insert_text s ts

unfoldable pub sorted_texts : List String → List String
unfolding insert_text
sorted_texts [] = []
sorted_texts (s ∷ ss) = insert_text s (sorted_texts ss)
