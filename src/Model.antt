-- ===== src/Model.antt =====
-- internal/model/types.go: the conversation's blocks and messages, and the cleaning of the
-- arguments of tool calls. A slice is a list (nil is the empty one). A tag, an ID and a name is a
-- whole text; `text` and `arguments` are bytes.
pub mod Normalize
pub mod Repair
pub mod ProviderError
mod Tests
use notch.Prelude.{
  ℕ, ◌+◌, ◌-◌, ◌≡◌, refl, Bool, true, false, not, ◌&&◌, ◌||◌, String, List, [], ◌∷◌, map, str_eq,
  ltb, ◌==◌, if◌then◌else◌, length, get_or,
}
use notch.Go.Bytes.{Bytes, codes}
use notch.Go.Space.{trim_space}
use notch.Go.Json.{valid}

pub record Block : Type 0 where
  pub type : String
  pub text : Bytes
  pub id : String
  pub name : String
  pub arguments : Bytes
  pub tool_use_id : String
  pub signature : String
  pub is_error : Bool

pub record Message : Type 0 where
  pub role : String
  pub content : List Block

abbrev pub empty_block : Block
empty_block = record {
  type = "";
  text = [];
  id = "";
  name = "";
  arguments = [];
  tool_use_id = "";
  signature = "";
  is_error = false;
}

unfoldable pub text_message : String → Bytes → Message
text_message role text = record {
  role = role;
  content = record empty_block { type = "text"; text = text } ∷ [];
}

-- A tool call, under either of its two tags, and the result of one.
unfoldable pub is_call : Block → Bool
is_call b = str_eq b.type "tool_use" || str_eq b.type "function_call"

unfoldable pub is_result : Block → Bool
is_result b = str_eq b.type "tool_result" || str_eq b.type "function_call_output"

-- What `NormalizeToolCallArguments` refuses of the trimmed arguments.
unfoldable pub is_bad_object : Bytes → Bool
is_bad_object t =
    not (valid t)
    || ltb (length t) 2
    || not (get_or t 0 0 == b'{')
    || not (get_or t (length t - 1) 0 == b'}')

abbrev pub empty_object : Bytes
empty_object = codes "{}"

-- The loop's body: the block as it is left, and what is added to `invalid`.
unfoldable pub normalize_block : Block → Block × ℕ
normalize_block b =
    if not (is_call b)
    then (b, 0)
    else if length b.arguments == 0
    then (record b { arguments = empty_object }, 0)
    else if is_bad_object (trim_space b.arguments)
    then (record b { arguments = empty_object; is_error = true }, 1)
    else (b, 0)

unfoldable pub normalize_tool_call_arguments : List Block → List Block × ℕ
normalize_tool_call_arguments [] = ([], 0)
normalize_tool_call_arguments (b ∷ bs) =
    let (b', k) = normalize_block b in
    let (bs', n) = normalize_tool_call_arguments bs in (b' ∷ bs', k + n)

unfoldable pub clean_messages : List Message → List Message × ℕ
clean_messages [] = ([], 0)
clean_messages (m ∷ ms) =
    let (content, k) = normalize_tool_call_arguments m.content in
    let (ms', n) = clean_messages ms in (record m { content = content } ∷ ms', k + n)
