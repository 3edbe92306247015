-- ===== src/Session/Preview/Laws.antt =====
-- The preview of a conversation: it is not empty, and a message behind others or the cleaning of
-- arguments leaves it as it is.
use notch.Prelude.{
  ◌≤◌, ◌≡◌, refl, ap, ◌∙◌, Option, none, some, false, List, [], ◌∷◌, ◌++◌, arith, str_eq, not, ltb,
  ◌==◌, length, length-append, map, take, if_split,
}
use notch.Go.Bytes.{Bytes}
use notch.Go.Runes.{pieces, concat, rune, fields, join_spaces}
use notch.Model.{Block, Message, normalize_block, normalize_tool_call_arguments, clean_messages}
use notch.Session.Preview.{
  or_preview, clipped, text_preview, content_preview, message_preview, first_preview,
}

-- Whatever it shows is a text.
abbrev pub IsShown : Option Bytes → Type 0
IsShown none = Unit
IsShown (some p) = 1 ≤ length p

clipped-IsShown : (s : Bytes) → (length s == 0) ≡ false → 1 ≤ length (clipped s)
unfolding clipped
clipped-IsShown s h =
    let start = concat (map rune (take 79 (pieces s))) in
    let dots : Bytes = 0xE2 ∷ 0x80 ∷ 0xA6 ∷ [] in
    if_split (λ p. 1 ≤ length p) (ltb 80 (length (pieces s))) (start ++ dots) s
      (λ e. omega (arith, length-append start dots)) (λ e. ground (arith, h))

text_preview-IsShown : (s : Bytes) → IsShown (text_preview s)
unfolding text_preview
text_preview-IsShown s =
    if_split IsShown (length (join_spaces (fields s)) == 0) _ _ (λ e. tt)
      (clipped-IsShown (join_spaces (fields s)))

or_preview-IsShown :
    (o rest : Option Bytes) → IsShown o → IsShown rest → IsShown (or_preview o rest)
or_preview-IsShown (some p) rest h k = h
or_preview-IsShown none rest h k = k

content_preview-IsShown : (bs : List Block) → IsShown (content_preview bs)
unfolding content_preview
content_preview-IsShown [] = tt
content_preview-IsShown (b ∷ bs) =
    if_split IsShown (not (str_eq b.type "text")) _ _ (λ e. content_preview-IsShown bs)
      (λ e.
        or_preview-IsShown (text_preview b.text) _ (text_preview-IsShown b.text)
          (content_preview-IsShown bs))

message_preview-IsShown : (m : Message) → IsShown (message_preview m)
unfolding message_preview
message_preview-IsShown m =
    if_split IsShown (not (str_eq m.role "user")) _ _ (λ e. tt)
      (λ e. content_preview-IsShown m.content)

pub first_preview-IsShown : (ms : List Message) → IsShown (first_preview ms)
unfolding first_preview
first_preview-IsShown [] = tt
first_preview-IsShown (m ∷ ms) =
    or_preview-IsShown (message_preview m) _ (message_preview-IsShown m) (first_preview-IsShown ms)

or_preview_assoc :
    (a b c : Option Bytes) → or_preview a (or_preview b c) ≡ or_preview (or_preview a b) c
or_preview_assoc (some p) b c = refl
or_preview_assoc none b c = refl

pub first_preview-append :
    (ms ns : List Message)
    → first_preview (ms ++ ns) ≡ or_preview (first_preview ms) (first_preview ns)
unfolding first_preview
first_preview-append [] ns = refl
first_preview-append (m ∷ ms) ns =
    ap (or_preview (message_preview m)) (first_preview-append ms ns)
    ∙ or_preview_assoc (message_preview m) (first_preview ms) (first_preview ns)

normalize_block-text :
    (b : Block) → ((normalize_block b).0.type ≡ b.type) × ((normalize_block b).0.text ≡ b.text)
unfolding normalize_block
normalize_block-text b = (ground arith, ground arith)

content_preview-normalize :
    (bs : List Block) → content_preview (normalize_tool_call_arguments bs).0 ≡ content_preview bs
unfolding content_preview normalize_tool_call_arguments
content_preview-normalize [] = refl
content_preview-normalize (b ∷ bs) =
    let (t, x) = normalize_block-text b in rw (t, x, content_preview-normalize bs) refl

-- Cleaning changes neither the number of the messages nor their preview.
pub first_preview-clean :
    (ms : List Message) → first_preview (clean_messages ms).0 ≡ first_preview ms
unfolding first_preview message_preview clean_messages
first_preview-clean [] = refl
first_preview-clean (m ∷ ms) = rw (content_preview-normalize m.content, first_preview-clean ms) refl

pub length-clean_messages : (ms : List Message) → length (clean_messages ms).0 ≡ length ms
unfolding clean_messages
length-clean_messages [] = refl
length-clean_messages (m ∷ ms) = omega (arith, length-clean_messages ms)
