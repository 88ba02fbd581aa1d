-- ===== src/ToolResults.antt =====
-- `convertMcpCallToolResult` of nodejs/src/types.ts.
use copilot_sdk_swift.Prelude.{
  String, ◌≡◌, refl, Bool, true, false, ◌&&◌, List, [], ◌∷◌, ◌++◌, ◌==◌, if◌then◌else◌, ◌+++◌,
  arith, inl, inr, if-true,
}
use copilot_sdk_swift.Js.Value.{
  Value, str, arr, obj, Items, nil, cons, Fields, end, field, lookup, has, truthy, is_nullish,
  part_text,
}
use copilot_sdk_swift.Js.Outcome.{error, Outcome, ok, throw, ◌>>=◌, Outcome-cases}
use copilot_sdk_swift.Session.Tasks.{get_field, is_text, is_tool_result_object, tool_result}
use copilot_sdk_swift.Session.Ui.{get_field_or_undefined}

-- `textParts` and `binaryResults`
pub record Parts : Type 0 where
  pub texts : List Value
  pub binaries : List Value

abbrev push_text : Value → Parts → Parts
push_text v p = record p { texts = p.texts ++ v ∷ [] }

abbrev push_binary : Value → Parts → Parts
push_binary v p = record p { binaries = p.binaries ++ v ∷ [] }

abbrev image : Value → Value → Value
image contents mime =
    obj (field "data" contents (field "mimeType" mime (field "type" (str "image") end)))

abbrev or_octets : Value → Value
or_octets v = if is_nullish v then str "application/octet-stream" else v

abbrev resource_result : Value → Value
resource_result r = obj (
    field "data" (get_field_or_undefined "blob" r) (
      field "mimeType" (or_octets (get_field_or_undefined "mimeType" r))
        (field "type" (str "resource") (field "description" (get_field_or_undefined "uri" r) end))))

abbrev add_text : Value → Parts → Parts
add_text block p =
    let t = get_field_or_undefined "text" block in if is_text t then push_text t p else p

abbrev add_image : Value → Parts → Parts
add_image block p =
    let d = get_field_or_undefined "data" block in
    let mime = get_field_or_undefined "mimeType" block in
    if is_text d && truthy d && is_text mime then push_binary (image d mime) p else p

abbrev add_resource : Value → Parts → Parts
add_resource r p =
    let t = get_field_or_undefined "text" r in
    let p' = if truthy t then push_text t p else p in
    if truthy (get_field_or_undefined "blob" r) then push_binary (resource_result r) p' else p'

-- The `switch`, for a block and its type.
unfoldable pub add_block : Value → Value → Parts → Parts
add_block (str t) block p =
    if t == "text"
    then add_text block p
    else if t == "image"
    then add_image block p
    else if t == "resource"
    then add_resource (get_field_or_undefined "resource" block) p
    else p
add_block _ block p = p

-- The loop over the blocks; a block that is `undefined` or `null` has no type to read.
unfoldable pub add_blocks : Items → Parts → Outcome Parts
unfolding add_block
add_blocks nil p = ok p
add_blocks (cons block blocks) p =
    get_field "type" block >>= λ t. add_blocks blocks (add_block t block p)

-- `parts.join("\n")`
unfoldable pub join_lines : List Value → String
unfolding part_text
join_lines [] = ""
join_lines (v ∷ []) = part_text v
join_lines (v ∷ w ∷ vs) = part_text v +++ "\n" +++ join_lines (w ∷ vs)

abbrev as_items : List Value → Items
as_items [] = nil
as_items (v ∷ vs) = cons v (as_items vs)

abbrev binary_fields : List Value → Fields
binary_fields [] = end
binary_fields (v ∷ vs) = field "binaryResultsForLlm" (arr (as_items (v ∷ vs))) end

-- `callResult.isError ? "failure" : "success"`
abbrev result_type : Bool → Value
result_type true = str "failure"
result_type false = str "success"

abbrev result_of : Bool → Parts → Value
result_of is_error p = obj (
    field "textResultForLlm" (str (join_lines p.texts))
      (field "resultType" (result_type is_error) (binary_fields p.binaries)))

abbrev no_blocks : Parts
no_blocks = record { texts = []; binaries = [] }

abbrev blocks_of : Value → Outcome Parts
blocks_of (arr blocks) = add_blocks blocks no_blocks
blocks_of _ = throw (error "callResult.content is not iterable")

unfoldable pub convert_mcp_call_tool_result : Value → Outcome Value
unfolding add_blocks join_lines
convert_mcp_call_tool_result result = do
  content ← get_field "content" result
  parts ← blocks_of content
  ok (result_of (truthy (get_field_or_undefined "isError" result)) parts)

is_tool_result_object-result_of :
    (is_error : Bool) (p : Parts) → is_tool_result_object (result_of is_error p) ≡ true
unfolding is_tool_result_object lookup has
is_tool_result_object-result_of true p = refl
is_tool_result_object-result_of false p = refl

tool_result-result_of :
    (is_error : Bool) (p : Parts) → tool_result (result_of is_error p) ≡ result_of is_error p
unfolding tool_result
tool_result-result_of is_error p = if-true _ _ _ (is_tool_result_object-result_of is_error p)

-- What a tool returns by this conversion is what the CLI is sent: the result of a conversion that does not
-- throw counts as a tool result object, whatever the blocks are.
pub tool_result-convert_mcp_call_tool_result :
    (result converted : Value)
    → convert_mcp_call_tool_result result ≡ ok converted
    → (is_tool_result_object converted ≡ true) × (tool_result converted ≡ converted)
unfolding convert_mcp_call_tool_result
tool_result-convert_mcp_call_tool_result result converted h =
    elim (Outcome-cases (get_field "content" result)) [
      | inr (e, c) ↦ absurd (ground (arith, c, h))
      | inl (content, c) ↦ elim (Outcome-cases (blocks_of content)) [
        | inr (e, b) ↦ absurd (ground (arith, c, b, h))
        | inl (parts, b) ↦
            let is_error = truthy (get_field_or_undefined "isError" result) in
            let same : result_of is_error parts ≡ converted = ground (arith, c, b, h) in
            rw (← same)
              (is_tool_result_object-result_of is_error parts, tool_result-result_of is_error parts)
      ]
    ]
