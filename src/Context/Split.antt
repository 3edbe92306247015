-- ===== src/Context/Split.antt =====
-- Where a compaction cuts: `compactionSplitLocked`, `normalUserPrompt` and the messages that
-- `applyCompactionLocked` leaves, in internal/agent/context.go. -1 is `none`.
pub mod Boundary
pub mod Pairing
use notch.Prelude.{
  ℕ, suc, ◌+◌, ◌≡◌, refl, Bool, true, false, ◌&&◌, not, Option, none, some, List, [], ◌∷◌, ◌++◌,
  str_eq, ltb, leb, ◌==◌, if◌then◌else◌, length,
}
use notch.Go.Bytes.{Bytes, codes}
use notch.Go.Space.{trim_space}
use notch.Model.{Block, Message, text_message}
use notch.Context.Trim.{is_tool_result}
use notch.Context.Estimate.{estimate_message}

unfoldable pub has_text : Block → Bool
has_text b = str_eq b.type "text" && not (length (trim_space b.text) == 0)

-- The loop of `normalUserPrompt`: a tool result ends it.
unfoldable pub is_prompt_content : Bool → List Block → Bool
is_prompt_content seen [] = seen
is_prompt_content seen (b ∷ bs) =
    let rest = is_prompt_content (if has_text b then true else seen) bs in
    if is_tool_result b then false else rest

unfoldable pub normal_user_prompt : Message → Bool
normal_user_prompt m = if str_eq m.role "user" then is_prompt_content false m.content else false

pub record Scan : Type 0 where
  pub suffix_tokens : ℕ
  pub split : Option ℕ
  pub last_normal : Option ℕ

abbrev pub or_else : Option ℕ → Option ℕ → Option ℕ
or_else none o = o
or_else (some i) o = some i

-- The loop's body at message number `i`.
unfoldable pub scan_step : ℕ → ℕ → Message → Scan → Scan
scan_step keep i m s =
    let tokens = s.suffix_tokens + estimate_message m in
    if not (normal_user_prompt m) then record s { suffix_tokens = tokens } else record {
      suffix_tokens = tokens;
      split = if ltb 0 i && leb tokens keep then some i else s.split;
      last_normal = or_else s.last_normal (some i);
    }

-- The messages from number `i` on.
unfoldable pub scan : ℕ → ℕ → List Message → Scan
scan keep i [] = record { suffix_tokens = 0; split = none; last_normal = none }
scan keep i (m ∷ ms) = scan_step keep i m (scan keep (suc i) ms)

-- `if split <= 0 && lastNormal > 0`; a split that was found is positive.
unfoldable pub choose : Option ℕ → Option ℕ → Option ℕ
choose (some i) last = some i
choose none none = none
choose none (some l) = if ltb 0 l then some l else none

unfoldable pub compaction_split : ℕ → List Message → Option ℕ
unfolding scan choose
compaction_split keep ms =
    if ltb (length ms) 2 then none else choose (scan keep 0 ms).split (scan keep 0 ms).last_normal

-- What `applyCompactionLocked` keeps as the conversation.
unfoldable pub compacted_messages : Bytes → List Message → List Message
compacted_messages summary recent =
    text_message "user" (codes "[Conversation summary]\n\n" ++ summary) ∷ recent
