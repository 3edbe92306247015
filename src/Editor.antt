-- ===== src/Editor.antt =====
-- internal/tui/editor.go: the multiline line editor of the terminal interface. Text is a list of
-- runes; `nil` positions of the source, -1, are `none`.
pub mod State
pub mod Edits
pub mod Moves
pub mod History
pub mod Step
pub mod Loops
pub mod Lines
pub mod Inverse
pub mod Recall
mod Tests
