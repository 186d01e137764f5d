-- ===== src/Sys/Logger.antt =====
-- kernel/sys/logger.cpp: what a message prints. The formatted text is a list of fragments: what
-- printf makes of an argument is left to printf.
use ice.Prelude.{ℕ, List, [], ◌∷◌, ◌++◌}
use Prim.Native.String.{String}

-- A piece of text, or an argument: a text at an address, or a number in a base.
pub data Fragment : Type 0 where
  text : String → Fragment
  text_at : ℕ → Fragment
  number : ℕ → ℕ → Fragment

pub data LogLevel : Type 0 where
  info warn error : LogLevel

-- With the colours for the level and their reset.
unfoldable pub level_str : LogLevel → String
level_str LogLevel.info = "\u{1b}[1;34minfo\u{1b}[0m"
level_str LogLevel.warn = "\u{1b}[0;33mwarn\u{1b}[0m"
level_str LogLevel.error = "\u{1b}[0;31merror\u{1b}[0m"

unfoldable pub vlog : LogLevel → List Fragment → List Fragment
unfolding level_str
vlog level formatted = text (level_str level) ∷ text ": " ∷ (formatted ++ (text "\n" ∷ []))

abbrev pub log_info : List Fragment → List Fragment
log_info formatted = vlog LogLevel.info formatted

abbrev pub log_warn : List Fragment → List Fragment
log_warn formatted = vlog LogLevel.warn formatted

abbrev pub log_error : List Fragment → List Fragment
log_error formatted = vlog LogLevel.error formatted
