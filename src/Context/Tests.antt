-- ===== src/Context/Tests.antt =====
-- A conversation that was stopped while a tool ran (internal/agent/context.go).
use notch.Prelude.{
  ℕ, ◌+◌, ◌-◌, ◌≤◌, ◌≡◌, refl, true, none, some, String, List, [], ◌∷◌, ◌++◌, length, take, drop,
  ◌<◌,
}
use notch.Go.Bytes.{Bytes, codes}
use notch.Go.Space.{trim_space}
use notch.Go.Utf8.{valid_string}
use notch.Model.{Message, empty_block, text_message, is_call, is_result}
use notch.Model.Repair.{recovery, answers}
use notch.Context.Trim.{
  marker, compact_tool_result_text, compact_tool_result_length, head_of, tail_of, shrink_head,
  shrink_tail, trim_messages, is_tool_result,
}
use notch.Context.Trim.Laws.{compact_tool_result_text_bound, compact_tool_result_text_lem}
use notch.Context.Estimate.{
  estimate_message, estimate_messages, estimate_context_messages, estimate_blocks, estimated_text,
  estimated_tokens, estimated_tokens_for_length, estimate_fields,
}
use notch.Context.Interrupted.{
  context_messages, add_interrupted, interrupted_result, is_unanswered, missing,
}
use notch.Context.Interrupted.Answered.{Complete}
use notch.Context.Interrupted.Complete.{context_messages-Complete, context_messages_nothing_missing}
use notch.Context.Split.{
  has_text, is_prompt_content, normal_user_prompt, scan_step, compaction_split, compacted_messages,
}
use notch.Context.Split.Boundary.{IsSplit, compaction_split-IsSplit}
use notch.Context.Split.Pairing.{AllTagged, Paired, compacted_messages-Paired}

abbrev euros : Bytes
euros = 0xE2 ∷ 0x82 ∷ 0xAC ∷ 0xE2 ∷ 0x82 ∷ 0xAC ∷ 0xE2 ∷ 0x82 ∷ 0xAC ∷ []

-- Of nine bytes the limit 7 keeps one sign at each end.
trims_euros :
    compact_tool_result_text euros 7 ≡ 0xE2 ∷ 0x82 ∷ 0xAC ∷ (marker 9 ++ 0xE2 ∷ 0x82 ∷ 0xAC ∷ [])
unfolding compact_tool_result_text head_of tail_of shrink_head shrink_tail valid_string
trims_euros = refl

compact_tool_result_text_bound_example :
    length (compact_tool_result_text euros 7) ≤ 7 + length (marker 9)
compact_tool_result_text_bound_example = compact_tool_result_text_bound euros 7

abbrev prompt : String → Message
prompt s = text_message "user" (codes s)

abbrev calling : String → Message
calling id = record {
  role = "assistant";
  content = record empty_block { type = "tool_use"; id = id; name = "ls" } ∷ [];
}

abbrev result : String → Message
result id = record {
  role = "user";
  content = record empty_block { type = "tool_result"; tool_use_id = id; text = codes "a.go" } ∷ [];
}

-- The second call has no result.
abbrev stopped : List Message
stopped = prompt "list" ∷ calling "t1" ∷ result "t1" ∷ prompt "again" ∷ calling "t2" ∷ []

adds_one :
    add_interrupted stopped
    ≡ stopped ++ record { role = "user"; content = interrupted_result "t2" ∷ [] } ∷ []
unfolding add_interrupted is_call is_result text_message recovery missing is_unanswered
adds_one = refl

context_messages-Complete_example : Complete (context_messages stopped)
context_messages-Complete_example = context_messages-Complete stopped

abbrev finished : List Message
finished = prompt "list" ∷ calling "t1" ∷ result "t1" ∷ prompt "again" ∷ []

finished-Complete : Complete finished
unfolding is_call is_result text_message answers
finished-Complete =
    (((λ e. cc), tt), (((λ e id. refl), tt), (((λ e. cc), tt), (((λ e. cc), tt), tt))))

context_messages_nothing_missing_example :
    (context_messages finished ≡ (trim_messages finished).0)
    × (estimate_messages (context_messages finished) ≡ estimate_context_messages finished)
context_messages_nothing_missing_example =
    context_messages_nothing_missing finished finished-Complete

splits_at_again : compaction_split 20 finished ≡ some 3
unfolding compaction_split scan_step normal_user_prompt is_prompt_content has_text is_tool_result
    trim_space text_message estimate_message estimated_text estimated_tokens_for_length
    estimate_blocks estimated_tokens estimate_fields
splits_at_again = refl

abbrev single : List Message
single = prompt "list" ∷ calling "t1" ∷ result "t1" ∷ []

no_split : compaction_split 20 single ≡ none
unfolding compaction_split scan_step normal_user_prompt is_prompt_content has_text is_tool_result
    trim_space text_message estimate_message estimated_text estimated_tokens_for_length
    estimate_blocks estimated_tokens estimate_fields
no_split = refl

finished-AllTagged : AllTagged finished
unfolding is_result is_tool_result text_message
finished-AllTagged =
    (((λ e. cc), tt), (((λ e. cc), tt), (((λ e. refl), tt), (((λ e. cc), tt), tt))))

finished-Paired : Paired [] finished
unfolding is_call is_result text_message
finished-Paired = (((λ e. cc), tt), (((λ e. cc), tt), (((λ e. refl), tt), (((λ e. cc), tt), tt))))

compacted_messages-Paired_example :
    Paired [] (compacted_messages (codes "done: list") (drop 3 finished))
compacted_messages-Paired_example =
    compacted_messages-Paired 20 finished 3 (codes "done: list") finished-AllTagged finished-Paired
      splits_at_again

compaction_split-IsSplit_example : IsSplit 20 finished (compaction_split 20 finished)
compaction_split-IsSplit_example = compaction_split-IsSplit 20 finished

compact_tool_result_text_lem_example :
    (length (compact_tool_result_text euros 7) ≡ compact_tool_result_length euros 7)
    × (7 < 9
        → (head : ℕ) × (tail : ℕ) × (compact_tool_result_text euros 7
            ≡ take head euros ++ (marker 9 ++ drop (9 - tail) euros))
          × (valid_string (take head euros) ≡ true)
          × (valid_string (drop (9 - tail) euros) ≡ true)
          × (head + tail ≤ 7))
compact_tool_result_text_lem_example = compact_tool_result_text_lem euros 7
