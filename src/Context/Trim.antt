-- ===== src/Context/Trim.antt =====
-- The trimming of tool results in internal/agent/context.go: `compactToolResultText`,
-- `compactToolResultLength`, and the last loop of `contextMessages`.
pub mod Laws
use notch.Prelude.{
  ℕ, zero, suc, ◌+◌, ◌-◌, ◌*◌, ◌/◌, ◌≡◌, refl, Bool, true, false, List, [], ◌∷◌, ◌++◌, str_eq, leb,
  if◌then◌else◌, length, take, drop,
}
use notch.Go.Bytes.{Bytes, codes}
use notch.Go.Utf8.{valid_string}
use notch.Go.Strconv.{itoa}
use notch.Model.{Block, Message}

abbrev pub recent_tool_results_to_keep : ℕ
recent_tool_results_to_keep = 3

abbrev pub max_recent_tool_result_bytes : ℕ
max_recent_tool_result_bytes = 12000

abbrev pub max_old_tool_result_bytes : ℕ
max_old_tool_result_bytes = 4000

-- `for head > 0 && !utf8.ValidString(value[:head]) { head-- }`
unfoldable pub shrink_head : Bytes → ℕ → ℕ
shrink_head value zero = 0
shrink_head value (suc head) = elim (valid_string (take (suc head) value)) [
  | true ↦ suc head
  | false ↦ shrink_head value head
]

-- `for tail > 0 && !utf8.ValidString(value[len(value)-tail:]) { tail-- }`
unfoldable pub shrink_tail : Bytes → ℕ → ℕ
shrink_tail value zero = 0
shrink_tail value (suc tail) = elim (valid_string (drop (length value - suc tail) value)) [
  | true ↦ suc tail
  | false ↦ shrink_tail value tail
]

unfoldable pub head_of : Bytes → ℕ → ℕ
head_of value limit = shrink_head value (limit * 65 / 100)

unfoldable pub tail_of : Bytes → ℕ → ℕ
tail_of value limit = shrink_tail value (limit - limit * 65 / 100)

abbrev pub marker_open : Bytes
marker_open = codes "\n\n[older tool result trimmed: "

abbrev pub marker_close : Bytes
marker_close = codes " bytes total]\n\n"

unfoldable pub marker : ℕ → Bytes
marker total = marker_open ++ (itoa total ++ marker_close)

unfoldable pub compact_tool_result_text : Bytes → ℕ → Bytes
compact_tool_result_text value limit =
    if leb (length value) limit
    then value
    else take (head_of value limit) value
      ++ (marker (length value) ++ drop (length value - tail_of value limit) value)

unfoldable pub compact_tool_result_length : Bytes → ℕ → ℕ
compact_tool_result_length value limit =
    if leb (length value) limit
    then length value
    else head_of value limit
      + length marker_open
      + length (itoa (length value))
      + length marker_close
      + tail_of value limit

-- The limit for the result that is the `seen`-th from the end.
unfoldable pub result_limit : ℕ → ℕ
result_limit seen =
    if leb seen recent_tool_results_to_keep
    then max_recent_tool_result_bytes
    else max_old_tool_result_bytes

unfoldable pub is_tool_result : Block → Bool
is_tool_result b = str_eq b.type "tool_result"

-- `seen` results stand behind the blocks; both loops of `contextMessages` run from the end.
unfoldable pub trim_blocks : List Block → ℕ → List Block × ℕ
trim_blocks [] seen = ([], seen)
trim_blocks (b ∷ bs) seen =
    let (bs', s) = trim_blocks bs seen in
    if is_tool_result b
    then (record b { text = compact_tool_result_text b.text (result_limit (suc s)) } ∷ bs', suc s)
    else (b ∷ bs', s)

unfoldable pub trim_messages : List Message → List Message × ℕ
trim_messages [] = ([], 0)
trim_messages (m ∷ ms) =
    let (ms', s) = trim_messages ms in
    let (content, s') = trim_blocks m.content s in (record m { content = content } ∷ ms', s')
