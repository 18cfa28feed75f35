-- ===== src/Title.antt =====
-- apps/api/app/title_validation.py: canonical titles, as lists of code points.
mod Strip
pub mod Canonical
use expo_fastapi_todo.Prelude.{ℕ, ◌≡◌, List, [], ◌∷◌, Bool, any, leb, ◌&&◌, not, length, Text, ◌==◌}
use expo_fastapi_todo.Result.{Result, ok, value_error, raise_if, ◌>>=◌, ◌>>◌}
pub use Strip.*
unfoldable pub use Strip.{is_trim, lstrip, rstrip, strip_by, strip, rjoin}

-- `"\x00" in title`
unfoldable pub has_nul : Text → Bool
has_nul title = any (λ c. c == 0) title

-- `any(0xD800 <= ord(character) <= 0xDFFF for character in title)`
unfoldable pub has_surrogate : Text → Bool
has_surrogate title = any (λ c. leb 0xD800 c && leb c 0xDFFF) title

-- The checks after the trimming, with the longest text that is accepted; the titles and the
-- clarification values of the suggestion service go through the same three.
unfoldable pub check_text : ℕ → Text → Result Text
check_text most title = do
  raise_if (has_nul title) value_error
  raise_if (has_surrogate title) value_error
  raise_if (not (leb 1 (length title) && leb (length title) most)) value_error
  ok title

abbrev pub max_title : ℕ
max_title = 120

unfoldable pub canonicalize_title : Text → Result Text
unfolding check_text
canonicalize_title title = check_text max_title (strip title)
