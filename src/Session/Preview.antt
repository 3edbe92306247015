-- ===== src/Session/Preview.antt =====
-- internal/session/session.go: `sessionPreview`.
pub mod Laws
use notch.Prelude.{
  ℕ, ◌≡◌, refl, Option, none, some, Bool, List, [], ◌∷◌, ◌++◌, map, str_eq, not, ltb, ◌==◌,
  if◌then◌else◌, length, take,
}
use notch.Go.Bytes.{Bytes, codes, bytes_eq}
use notch.Go.Space.{is_ascii_space}
use notch.Go.Runes.{pieces, concat, rune, fields, join_spaces}
use notch.Model.{Block, Message, text_message}

abbrev pub empty_session : Bytes
empty_session = codes "(empty session)"

-- At most 80 runes.
unfoldable pub clipped : Bytes → Bytes
unfolding pieces concat rune
clipped preview =
    let runes = pieces preview in
    if ltb 80 (length runes)
    then concat (map rune (take 79 runes)) ++ 0xE2 ∷ 0x80 ∷ 0xA6 ∷ []
    else preview

unfoldable pub text_preview : Bytes → Option Bytes
unfolding clipped fields join_spaces
text_preview text =
    let preview = join_spaces (fields text) in
    if length preview == 0 then none else some (clipped preview)

-- The loops return the first preview.
abbrev pub or_preview : Option Bytes → Option Bytes → Option Bytes
or_preview (some p) rest = some p
or_preview none rest = rest

-- The inner loop; `none` goes on with the next message.
unfoldable pub content_preview : List Block → Option Bytes
unfolding text_preview
content_preview [] = none
content_preview (b ∷ bs) =
    let rest = content_preview bs in
    if not (str_eq b.type "text") then rest else or_preview (text_preview b.text) rest

unfoldable pub message_preview : Message → Option Bytes
unfolding content_preview
message_preview m = if not (str_eq m.role "user") then none else content_preview m.content

unfoldable pub first_preview : List Message → Option Bytes
unfolding message_preview
first_preview [] = none
first_preview (m ∷ ms) = or_preview (message_preview m) (first_preview ms)

unfoldable pub session_preview : List Message → Bytes
unfolding first_preview
session_preview ms = elim (first_preview ms) [ some p ↦ p | none ↦ empty_session ]

abbrev talk : List Message
talk =
    text_message "assistant" (codes "hi")
    ∷ text_message "user" (codes " \n")
    ∷ text_message "user" (codes " fix  the\nbug ")
    ∷ []

previews : session_preview talk ≡ codes "fix the bug"
unfolding session_preview text_message is_ascii_space
previews = refl
