-- ===== src/Evaluation/Requests/Ordered.antt =====
-- A JSON value with its keys in order, as `json.loads` gives what `json.dumps` wrote with `sort_keys`.
use llm_router.Common.{String, if◌then◌else◌}
use llm_router.Common.Json.{
  Json, Fields, boolean, field, integer, real, text, end, array, object, Items, cons, null, nil,
}
use Prim.Native.String.{String}
use llm_router.Common.TextOrder.{str_leb}

unfoldable pub insert_field : String → Json → Fields → Fields
insert_field k v end = field k v end
insert_field k v (field j w fields) =
    if str_leb k j then field k v (field j w fields) else field j w (insert_field k v fields)

unfoldable mutual
  unfolding insert_field

  pub ordered : Json → Json
  ordered null = null
  ordered (boolean b) = boolean b
  ordered (integer z) = integer z
  ordered (real s) = real s
  ordered (text s) = text s
  ordered (array items) = array (ordered_items items)
  ordered (object fields) = object (ordered_fields fields)

  pub ordered_items : Items → Items
  ordered_items nil = nil
  ordered_items (cons j js) = cons (ordered j) (ordered_items js)

  pub ordered_fields : Fields → Fields
  ordered_fields end = end
  ordered_fields (field k v fields) = insert_field k (ordered v) (ordered_fields fields)
