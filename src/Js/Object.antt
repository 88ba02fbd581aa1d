-- ===== src/Js/Object.antt =====
-- Plain objects as lists of entries with distinct keys, in the order in which they were made.
use copilot_sdk_swift.Prelude.{
  String, ◌≡◌, refl, Bool, true, false, ◌==◌, if◌then◌else◌, arith, eq_iff,
}
use copilot_sdk_swift.Js.Value.{Value, undefined, Fields, end, field, lookup}

-- `o[key] = value`
unfoldable pub put : String → Value → Fields → Fields
put k v end = field k v end
put k v (field j w fs) = let rest = put k v fs in if j == k then field j v fs else field j w rest

-- `delete o[key]`
unfoldable pub remove : String → Fields → Fields
remove k end = end
remove k (field j v fs) = let rest = remove k fs in if j == k then rest else field j v rest

-- `Object.assign(target, source)`, and `{ ...target, ...source }`
unfoldable pub assign : Fields → Fields → Fields
unfolding put
assign target end = target
assign target (field k v fs) = assign (put k v target) fs

-- `Object.keys(o).length > 0`
abbrev pub has_entries : Fields → Bool
has_entries end = false
has_entries (field k v fs) = true

pub lookup-put :
    (k j : String) (v : Value) (fs : Fields)
    → lookup j (put k v fs) ≡ (if k == j then v else lookup j fs)
unfolding lookup put
lookup-put k j v end = refl
lookup-put k j v (field i w fs) =
    ground (arith, eq_iff k j, eq_iff i k, eq_iff i j, lookup-put k j v fs)

pub lookup-remove :
    (k j : String) (fs : Fields)
    → lookup j (remove k fs) ≡ (if k == j then undefined else lookup j fs)
unfolding lookup remove
lookup-remove k j end = ground arith
lookup-remove k j (field i v fs) =
    ground (arith, eq_iff k j, eq_iff i k, eq_iff i j, lookup-remove k j fs)
