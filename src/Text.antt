-- ===== src/Text.antt =====
-- Go strings (Strings), and the regular expressions and path tests on them (Patterns).
mod Strings
mod Patterns
unfoldable pub use Strings.*
unfoldable pub use Patterns.*
