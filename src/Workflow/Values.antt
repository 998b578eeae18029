-- ===== src/Workflow/Values.antt =====
-- src/runtime/workflow-engine.js: resolveValue and checkpoint, and the objects and arrays of
-- JavaScript that they use. The expansion of a text's placeholders is by regular expressions: it is
-- the parameter `expand`.
use asynchronnous_agent_os.Prelude.{ℕ, suc, ◌-◌, String, Option, none, some, str_eq, if◌then◌else◌}
use asynchronnous_agent_os.Json.{
  Json, null, boolean, number, text, array, object, Items, no_items, item, Fields, no_fields, field,
}
use asynchronnous_agent_os.Store.{Snapshot}

module _ (expand : Fields → String → Json) (variables : Fields) where
  unfoldable mutual
    pub resolve_value : Json → Json
    resolve_value null = null
    resolve_value (boolean b) = boolean b
    resolve_value (number n) = number n
    resolve_value (text t) = expand variables t
    resolve_value (array xs) = array (resolve_items xs)
    resolve_value (object fs) = object (resolve_fields fs)

    pub resolve_items : Items → Items
    resolve_items no_items = no_items
    resolve_items (item v xs) = item (resolve_value v) (resolve_items xs)

    pub resolve_fields : Fields → Fields
    resolve_fields no_fields = no_fields
    resolve_fields (field k v fs) = field k (resolve_value v) (resolve_fields fs)

-- `{ ...fields, [key]: value }`
unfoldable pub set_field : String → Json → Fields → Fields
set_field key value no_fields = field key value no_fields
set_field key value (field k v fs) =
    let rest = set_field key value fs in if str_eq k key then field key value fs else field k v rest

unfoldable pub get_field : String → Fields → Option Json
get_field key no_fields = none
get_field key (field k v fs) = if str_eq k key then some v else get_field key fs

unfoldable pub delete_field : String → Fields → Fields
delete_field key no_fields = no_fields
delete_field key (field k v fs) =
    let rest = delete_field key fs in if str_eq k key then rest else field k v rest

-- `{ ...left, ...right }`
unfoldable pub spread : Fields → Fields → Fields
spread left no_fields = left
spread left (field k v fs) = spread (set_field k v left) fs

unfoldable pub count_items : Items → ℕ
count_items no_items = 0
count_items (item v xs) = suc (count_items xs)

unfoldable pub push : Json → Items → Items
push v no_items = item v no_items
push v (item x xs) = item x (push v xs)

unfoldable pub drop_items : ℕ → Items → Items
drop_items (suc n) (item x xs) = drop_items n xs
drop_items _ xs = xs

-- `.slice(-24)`
abbrev pub last_24 : Items → Items
last_24 xs = drop_items (count_items xs - 24) xs

abbrev pub checkpoint : Snapshot → String → ℕ → Fields → Snapshot
checkpoint s type at detail = record s {
  checkpoints = last_24 (
      push
        (object
          (field "pc" (number s.pc) (field "step" (text type) (field "at" (number at) detail))))
        s.checkpoints);
}
