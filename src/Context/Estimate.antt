-- ===== src/Context/Estimate.antt =====
-- The token estimates of internal/agent/context.go. A field that the model keeps as a whole text
-- counts its UTF-8 bytes, `len`; the sums are unbounded.
use Prim.Native.String.{len}
use notch.Prelude.{
  ℕ, suc, ◌+◌, ◌/◌, ◌≡◌, refl, String, List, [], ◌∷◌, arith, ◌==◌, if◌then◌else◌, Bool-cases, inl,
  inr, length,
}
use notch.Go.Bytes.{Bytes}
use notch.Model.{Block, Message}
use notch.Context.Trim.{
  compact_tool_result_length, compact_tool_result_text, result_limit, is_tool_result, trim_blocks,
  trim_messages,
}
use notch.Context.Trim.Laws.{length-compact_tool_result_text}

unfoldable pub estimated_tokens_for_length : ℕ → ℕ
estimated_tokens_for_length length = if length == 0 then 0 else (length + 2) / 3

unfoldable pub estimated_tokens : Bytes → ℕ
unfolding estimated_tokens_for_length
estimated_tokens s = if length s == 0 then 0 else (length s + 2) / 3

unfoldable pub estimated_text : String → ℕ
estimated_text s = estimated_tokens_for_length (len s)

-- The block's fields but `type` and `text`.
unfoldable pub estimate_fields : Block → ℕ
unfolding estimated_text
estimate_fields b =
    estimated_text b.id
    + estimated_text b.name
    + estimated_text b.tool_use_id
    + estimated_text b.signature
    + estimated_tokens b.arguments

unfoldable pub estimate_blocks : List Block → ℕ
estimate_blocks [] = 0
estimate_blocks (b ∷ bs) =
    5 + estimated_text b.type + estimated_tokens b.text + estimate_fields b + estimate_blocks bs

unfoldable pub estimate_message : Message → ℕ
estimate_message m = 6 + estimated_text m.role + estimate_blocks m.content

unfoldable pub estimate_messages : List Message → ℕ
estimate_messages [] = 0
estimate_messages (m ∷ ms) = estimate_message m + estimate_messages ms

-- The inner loop of `estimateContextMessages`, with the results seen so far.
unfoldable pub estimate_context_blocks : List Block → ℕ → ℕ × ℕ
estimate_context_blocks [] seen = (0, seen)
estimate_context_blocks (b ∷ bs) seen =
    let (total, s) = estimate_context_blocks bs seen in
    if is_tool_result b
    then (
      5
          + estimated_text b.type
          + estimated_tokens_for_length (compact_tool_result_length b.text (result_limit (suc s)))
          + estimate_fields b
          + total,
      suc s,
    )
    else (5 + estimated_text b.type + estimated_tokens b.text + estimate_fields b + total, s)

unfoldable pub estimate_context_from : List Message → ℕ × ℕ
estimate_context_from [] = (0, 0)
estimate_context_from (m ∷ ms) =
    let (total, s) = estimate_context_from ms in
    let (inner, s') = estimate_context_blocks m.content s in
    (6 + estimated_text m.role + inner + total, s')

unfoldable pub estimate_context_messages : List Message → ℕ
unfolding estimate_context_from
estimate_context_messages ms = (estimate_context_from ms).0

estimated-compact :
    (value : Bytes) (limit : ℕ)
    → estimated_tokens (compact_tool_result_text value limit)
      ≡ estimated_tokens_for_length (compact_tool_result_length value limit)
unfolding estimated_tokens
estimated-compact value limit = rw (length-compact_tool_result_text value limit)

blocks_exact :
    (bs : List Block) (seen : ℕ)
    → (estimate_blocks (trim_blocks bs seen).0 ≡ (estimate_context_blocks bs seen).0)
      × ((trim_blocks bs seen).1 ≡ (estimate_context_blocks bs seen).1)
unfolding estimate_blocks trim_blocks estimate_context_blocks estimate_fields
blocks_exact [] seen = (refl, refl)
blocks_exact (b ∷ bs) seen =
    let s = (trim_blocks bs seen).1 in
    let (totals, counts) = blocks_exact bs seen in
    elim (Bool-cases (is_tool_result b)) [
      | inl e ↦
          rw (e, ← counts, ← totals)
            (omega (arith, estimated-compact b.text (result_limit (suc s))), refl)
      | inr e ↦ rw (e, ← counts, ← totals) (refl, refl)
    ]

context_exact :
    (ms : List Message)
    → (estimate_messages (trim_messages ms).0 ≡ (estimate_context_from ms).0)
      × ((trim_messages ms).1 ≡ (estimate_context_from ms).1)
unfolding estimate_messages estimate_message trim_messages estimate_context_from
context_exact [] = (refl, refl)
context_exact (m ∷ ms) =
    let (totals, counts) = context_exact ms in
    let (inner, counts') = blocks_exact m.content (estimate_context_from ms).1 in
    rw (counts, totals) (rw (inner, counts') (omega arith, refl))

-- The estimate that is made without building the trimmed messages is that of the trimmed
-- messages.
pub estimate_context_exact :
    (ms : List Message) → estimate_messages (trim_messages ms).0 ≡ estimate_context_messages ms
unfolding estimate_context_messages
estimate_context_exact ms = (context_exact ms).0
