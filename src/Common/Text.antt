-- ===== src/Common/Text.antt =====
-- Equality of texts.
pub use text.Mathlib.Text.{◌==◌ as str_eq}
pub use text.Mathlib.TextEquality.{eq_iff}
