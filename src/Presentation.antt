-- ===== src/Presentation.antt =====
-- core/presentation: the response modes (mode.go) and the visual styles (style.go).
pub mod Lines
pub mod Activity
pub mod Shown
pub mod Drives
pub mod Numbers
use codex_link_clawbot.Prelude.{Bool, true, false, if◌then◌else◌}
use codex_link_clawbot.Text.{Text, text_eq}

-- A string type of Go: its constants, and any other text.
pub data ResponseMode : Type 0 where
  plain adaptive reading voice : ResponseMode
  other : Text → ResponseMode

pub data Style : Type 0 where
  editorial atelier noir cute minimal : Style
  other : Text → Style

-- `ResponseMode.Valid`
unfoldable pub valid_mode : ResponseMode → Bool
valid_mode (ResponseMode.other t) = false
valid_mode _ = true

-- `Style.Valid`
unfoldable pub valid_style : Style → Bool
valid_style (Style.other t) = false
valid_style _ = true

unfoldable pub mode_eq : ResponseMode → ResponseMode → Bool
unfolding text_eq
mode_eq plain plain = true
mode_eq adaptive adaptive = true
mode_eq reading reading = true
mode_eq voice voice = true
mode_eq (ResponseMode.other s) (ResponseMode.other t) = text_eq s t
mode_eq _ _ = false

unfoldable pub style_eq : Style → Style → Bool
unfolding text_eq
style_eq editorial editorial = true
style_eq atelier atelier = true
style_eq noir noir = true
style_eq cute cute = true
style_eq minimal minimal = true
style_eq (Style.other s) (Style.other t) = text_eq s t
style_eq _ _ = false

abbrev pub default_style : Style
default_style = atelier

unfoldable pub normalize_style : Style → Style
unfolding valid_style
normalize_style s = if valid_style s then s else default_style
