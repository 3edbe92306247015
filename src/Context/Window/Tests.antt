-- ===== src/Context/Window/Tests.antt =====
-- Concrete requests of a summary.
use notch.Prelude.{
  ℕ, ◌≤◌, ◌<◌, ◌≡◌, refl, ◌⊎◌, some, List, [], ◌∷◌, ◌++◌, str_eq, if◌then◌else◌, length, take, drop,
  replicate, arith,
}
use notch.Go.Bytes.{Bytes, codes}
use notch.Model.{Message, text_message}
use notch.Go.Utf8.{valid_string}
use notch.Go.Strconv.{itoa}
use notch.Context.Trim.{shrink_head, shrink_tail}
use notch.Context.Window.{
  Marshal, marshal_messages, elements, sizes, build, omission, if_within, shrink, shrink_suffix,
  prefix_end, suffix_start, cut_sized, cut_middle, encoded, marker_too_large, fit_conversation,
  compact_compaction_text,
}
use notch.Context.Window.Fits.{IsWindow, Markers, fit_conversation_lem}

-- 10 bytes for each message of the user, and 200 for another.
abbrev toy : Marshal
toy = record {
  encode = λ m. some (replicate (if str_eq m.role "user" then 10 else 200) b'x');
  object = λ note excerpt. excerpt;
}

abbrev talk : List Message
talk =
    text_message "user" (codes "go")
    ∷ text_message "assistant" (codes "a")
    ∷ text_message "assistant" (codes "b")
    ∷ text_message "assistant" (codes "c")
    ∷ text_message "assistant" (codes "d")
    ∷ text_message "assistant" (codes "e")
    ∷ []

toy-Markers : (limit : ℕ) → Markers toy limit talk
unfolding Markers omission text_message
toy-Markers limit omitted h = (replicate 10 b'x', refl, omega arith)

sizes_of_talk : sizes toy talk ≡ some (10 ∷ 200 ∷ 200 ∷ 200 ∷ 200 ∷ 200 ∷ [])
unfolding sizes text_message
sizes_of_talk = refl

-- The goal and the two newest messages stay.
keeps_both_ends :
    fit_conversation toy 810 talk
    ≡ if_within 810
        (marshal_messages toy (take 1 talk ++ (omission 3 ∷ drop 4 talk)))
        marker_too_large
unfolding fit_conversation if_within marshal_messages elements cut_sized cut_middle prefix_end
    suffix_start shrink shrink_suffix build omission text_message sizes
keeps_both_ends = refl

no_room : fit_conversation toy 10 talk ≡ marker_too_large
unfolding fit_conversation if_within marshal_messages elements cut_sized cut_middle prefix_end
    suffix_start shrink shrink_suffix build omission text_message sizes
no_room = refl

trims_text :
    compact_compaction_text (codes "abcdefghij") 4 (codes "t")
    ≡ codes "ab\n\n[notch compaction t trimmed: 10 bytes total]\n\nij"
unfolding compact_compaction_text shrink_head shrink_tail valid_string itoa
trims_text = refl

fit_conversation_lem_example :
    (s : Bytes) × (fit_conversation toy 810 talk ≡ encoded s)
    × (length s ≤ 810)
    × ((marshal_messages toy talk ≡ some s)
        ⊎ ((t : Bytes) × (marshal_messages toy talk ≡ some t)
            × (810 < length t)
            × IsWindow toy 810 talk (10 ∷ 200 ∷ 200 ∷ 200 ∷ 200 ∷ 200 ∷ []) s))
fit_conversation_lem_example =
    fit_conversation_lem toy 810 talk (10 ∷ 200 ∷ 200 ∷ 200 ∷ 200 ∷ 200 ∷ []) sizes_of_talk
      (omega arith) (toy-Markers 810)
