-- ===== src/Model/Normalize.antt =====
-- What cleaning the arguments of tool calls gives (internal/model/types.go).
use notch.Prelude.{◌-◌, ◌≡◌, refl, true, false, List, [], ◌∷◌, arith, length, get_or, All}
use notch.Go.Bytes.{Bytes}
use notch.Go.Space.{trim_space}
use notch.Go.Json.{valid}
use notch.Model.{
  Block, Message, is_call, is_bad_object, empty_object, normalize_block,
  normalize_tool_call_arguments, clean_messages,
}

-- Behind its surrounding space the text is valid JSON that opens and closes as an object.
abbrev pub IsObject : Bytes → Type 0
IsObject a =
    let t = trim_space a in
    (valid t ≡ true) × (get_or t 0 0 ≡ b'{') × (get_or t (length t - 1) 0 ≡ b'}')

empty_object-IsObject : IsObject empty_object
unfolding trim_space valid
empty_object-IsObject = (refl, refl, refl)

IsObject-of_not_bad : (a : Bytes) → is_bad_object (trim_space a) ≡ false → IsObject a
unfolding is_bad_object
IsObject-of_not_bad a h = (ground arith, ground arith, ground arith)

abbrev pub IsSafe : Block → Type 0
IsSafe b = is_call b ≡ true → IsObject b.arguments

normalize_block-IsSafe : (b : Block) → IsSafe (normalize_block b).0
unfolding normalize_block is_call
normalize_block-IsSafe b h = ground (arith, empty_object-IsObject, IsObject-of_not_bad b.arguments)

blocks-IsSafe : (bs : List Block) → All IsSafe (normalize_tool_call_arguments bs).0
unfolding normalize_tool_call_arguments
blocks-IsSafe [] = tt
blocks-IsSafe (b ∷ bs) = (normalize_block-IsSafe b, blocks-IsSafe bs)

-- After cleaning, the arguments of every tool call of every message are a JSON object.
pub clean_messages-IsSafe :
    (ms : List Message) → All (λ m. All IsSafe m.content) (clean_messages ms).0
unfolding clean_messages
clean_messages-IsSafe [] = tt
clean_messages-IsSafe (m ∷ ms) = (blocks-IsSafe m.content, clean_messages-IsSafe ms)

empty_object_good : is_bad_object (trim_space empty_object) ≡ false
unfolding is_bad_object trim_space valid
empty_object_good = refl

normalize_block_twice :
    (b : Block) → normalize_block (normalize_block b).0 ≡ ((normalize_block b).0, 0)
unfolding normalize_block is_call
normalize_block_twice b = ground (arith, empty_object_good)

blocks_twice :
    (bs : List Block)
    → let out = (normalize_tool_call_arguments bs).0 in normalize_tool_call_arguments out ≡ (out, 0)
unfolding normalize_tool_call_arguments
blocks_twice [] = refl
blocks_twice (b ∷ bs) = rw (normalize_block_twice b, blocks_twice bs)

-- A second cleaning leaves the cleaned messages as they are and counts nothing.
pub clean_messages_twice :
    (ms : List Message) → clean_messages (clean_messages ms).0 ≡ ((clean_messages ms).0, 0)
unfolding clean_messages
clean_messages_twice [] = refl
clean_messages_twice (m ∷ ms) = rw (blocks_twice m.content, clean_messages_twice ms)

-- After cleaning, the arguments of every tool call of every message are a JSON object, and a
-- second cleaning leaves the messages as they are and counts nothing.
pub clean_messages_lem :
    (ms : List Message)
    → All (λ m. All IsSafe m.content) (clean_messages ms).0
      × (clean_messages (clean_messages ms).0 ≡ ((clean_messages ms).0, 0))
clean_messages_lem ms = (clean_messages-IsSafe ms, clean_messages_twice ms)
