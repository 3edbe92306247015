-- ===== src/Context/Window.antt =====
-- The request of a summary in internal/agent/context.go: `compactCompactionText` and
-- `compactionConversationJSON`. `json.Marshal` of one message and of the excerpt of a call's
-- arguments are parameters; of a list of messages it is the JSON array of them.
pub mod Sizes
pub mod Fits
mod Tests
use notch.Prelude.{
  ℕ, zero, suc, ◌+◌, ◌-◌, ◌*◌, ◌/◌, Bool, Option, none, some, String, List, [], ◌∷◌, ◌++◌, map, leb,
  ltb, ◌>>=◌, if◌then◌else◌, length, take, drop, get_or,
}
use notch.Go.Bytes.{Bytes, codes}
use notch.Go.Strconv.{itoa}
use notch.Model.{Block, Message, text_message}
use notch.Context.Trim.{shrink_head, shrink_tail}
use notch.Context.Interrupted.{context_messages}

abbrev pub max_compaction_block_bytes : ℕ
max_compaction_block_bytes = 65536

abbrev pub max_compaction_conversation_bytes : ℕ
max_compaction_conversation_bytes = 524288

abbrev pub marker_reserve : ℕ
marker_reserve = 256

unfoldable pub compact_compaction_text : Bytes → ℕ → Bytes → Bytes
compact_compaction_text value limit label =
    let head = limit * 65 / 100 in
    let h = shrink_head value head in
    let t = shrink_tail value (limit - head) in
    if leb (length value) limit
    then value
    else take h value
      ++ (codes "\n\n[notch compaction "
          ++ (label
              ++ (codes " trimmed: "
                  ++ (itoa (length value)
                      ++ (codes " bytes total]\n\n" ++ drop (length value - t) value)))))

-- `encode` is `json.Marshal` of a message, `none` where it fails, and `object` that of the object
-- with the keys `_notch_compaction` and `excerpt`.
pub record Marshal : Type 0 where
  pub encode : Message → Option Bytes
  pub object : Bytes → Bytes → Bytes

unfoldable pub trim_arguments : Marshal → Bytes → Bytes
unfolding compact_compaction_text
trim_arguments j arguments =
    if ltb max_compaction_block_bytes (length arguments)
    then j.object
        (codes "tool arguments trimmed from " ++ (itoa (length arguments) ++ codes " bytes"))
        (compact_compaction_text arguments (max_compaction_block_bytes / 2)
          (codes "tool arguments"))
    else arguments

unfoldable pub trim_block : Marshal → Block → Block
unfolding trim_arguments compact_compaction_text
trim_block j b = record b {
  signature = "";
  text = compact_compaction_text b.text max_compaction_block_bytes (codes "block text");
  arguments = trim_arguments j b.arguments;
}

unfoldable pub trim_message : Marshal → Message → Message
unfolding trim_block
trim_message j m = record m { content = map (trim_block j) m.content }

unfoldable pub trim_all : Marshal → List Message → List Message
unfolding trim_message
trim_all j ms = map (trim_message j) ms

unfoldable pub elements : Marshal → List Message → Option Bytes
elements j [] = some (codes "]")
elements j (m ∷ ms) = do x ← j.encode m; rest ← elements j ms; some (codes "," ++ (x ++ rest))

unfoldable pub marshal_messages : Marshal → List Message → Option Bytes
unfolding elements
marshal_messages j [] = some (codes "[]")
marshal_messages j (m ∷ ms) = do
  x ← j.encode m
  rest ← elements j ms
  some (codes "[" ++ (x ++ rest))

unfoldable pub sizes : Marshal → List Message → Option (List ℕ)
sizes j [] = some []
sizes j (m ∷ ms) = do x ← j.encode m; rest ← sizes j ms; some (length x ∷ rest)

-- The first loop: `prefixEnd`, and `used` behind it.
unfoldable pub prefix_end : List ℕ → ℕ → ℕ → ℕ × ℕ
prefix_end [] budget used = (0, used)
prefix_end (z ∷ zs) budget used =
    let next = used + z + 1 in
    let (end, total) = prefix_end zs budget next in
    if leb next budget then (suc end, total) else (0, used)

-- The second loop, from `suffixStart = start + k` down to `start`.
unfoldable pub suffix_start : ℕ → List ℕ → ℕ → ℕ → ℕ → ℕ
suffix_start limit zs start zero used = start
suffix_start limit zs start (suc k) used =
    let next = used + get_or zs (start + k) 0 + 1 in
    let rest = suffix_start limit zs start k next in if leb next limit then rest else start + suc k

unfoldable pub omission : ℕ → Message
omission omitted = text_message "user" (
    codes "[notch compaction omitted "
    ++ (itoa omitted ++ codes " middle messages to stay within the provider request-size limit]"))

unfoldable pub build : List Message → ℕ → ℕ → List Message
unfolding omission
build ms start end = take start ms ++ (omission (end - start) ∷ drop end ms)

pub data Serialized : Type 0 where
  encoded : Bytes → Serialized
  marshal_failed marker_too_large : Serialized

unfoldable pub if_within : ℕ → Option Bytes → Serialized → Serialized
if_within limit none next = marshal_failed
if_within limit (some s) next = if leb (length s) limit then encoded s else next

-- The last loop, where the prefix is gone: `kept` messages are left behind `suffixStart`.
unfoldable pub shrink_suffix : Marshal → ℕ → List Message → ℕ → Serialized
unfolding if_within marshal_messages build
shrink_suffix j limit ms zero =
    if_within limit (marshal_messages j (build ms 0 (length ms))) marker_too_large
shrink_suffix j limit ms (suc kept) =
    if_within limit (marshal_messages j (build ms 0 (length ms - suc kept)))
      (shrink_suffix j limit ms kept)

unfoldable pub shrink : Marshal → ℕ → List Message → ℕ → ℕ → Serialized
unfolding if_within marshal_messages build shrink_suffix
shrink j limit ms zero kept = shrink_suffix j limit ms kept
shrink j limit ms (suc start) kept =
    if_within limit (marshal_messages j (build ms (suc start) (length ms - kept)))
      (shrink j limit ms start kept)

unfoldable pub cut_middle : Marshal → ℕ → List Message → List ℕ → Serialized
unfolding prefix_end suffix_start shrink
cut_middle j limit ms zs =
    let (start, used) = prefix_end zs (limit / 3) (2 + marker_reserve) in
    let end = suffix_start limit zs start (length ms - start) used in
    shrink j limit ms start (length ms - end)

unfoldable pub cut_sized : Marshal → ℕ → List Message → Option (List ℕ) → Serialized
unfolding cut_middle
cut_sized j limit ms none = marshal_failed
cut_sized j limit ms (some zs) = cut_middle j limit ms zs

-- Behind the trimming of the blocks.
unfoldable pub fit_conversation : Marshal → ℕ → List Message → Serialized
unfolding if_within marshal_messages cut_sized sizes
fit_conversation j limit ms =
    if_within limit (marshal_messages j ms) (cut_sized j limit ms (sizes j ms))

unfoldable pub compaction_conversation_json : Marshal → List Message → Serialized
unfolding fit_conversation trim_all context_messages
compaction_conversation_json j ms =
    fit_conversation j max_compaction_conversation_bytes (trim_all j (context_messages ms))
