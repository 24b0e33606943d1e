-- ===== src/Prompt.antt =====
-- core/execution/prompt.go: the name that a new session gets.
use codex_link_clawbot.Prelude.{
  ltb, ◌==◌, if◌then◌else◌, ℕ, Bool, true, false, not, Option, none, some, [], ◌∷◌, ◌++◌,
}
use codex_link_clawbot.Text.{Text, text, is_empty, trim_space}
use codex_link_clawbot.Presentation.Lines.{squeeze, truncate}
pub mod Names

-- The text before its first line feed.
unfoldable pub first_line : Text → Text
first_line [] = []
first_line (c ∷ s) = let rest = first_line s in if c == 10 then [] else c ∷ rest

-- `suggestedSessionName`, on the text, the number of images and the name of the first file.
unfoldable pub suggested_session_name : Text → ℕ → Option Text → Text
unfolding trim_space first_line squeeze truncate is_empty text
suggested_session_name body images file =
    let line = trim_space body in
    let name : Text = elim file [ none ↦ [] | some n ↦ trim_space n ] in
    let has_file : Bool = elim file [ none ↦ false | some n ↦ true ] in
    if not (is_empty line)
    then truncate (squeeze (first_line line)) 36
    else if ltb 0 images
    then text "图片分析"
    else if not has_file
    then []
    else if is_empty name
    then text "文件分析"
    else truncate (text "文件分析 · " ++ name) 36
