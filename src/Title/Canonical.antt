-- ===== src/Title/Canonical.antt =====
-- What a canonical title is, and that `canonicalize_title` accepts exactly what trims to one.
use expo_fastapi_todo.Prelude.{ℕ, ◌≡◌, ◌≤◌, false, length, Text, arith}
use expo_fastapi_todo.Result.{Error, ok, err, value_error}
use expo_fastapi_todo.Title.{
  strip, strip_idem, has_nul, has_surrogate, check_text, max_title, canonicalize_title,
}

-- A text that needs no trimming, has no NUL and no surrogate, and fits `most` code points.
pub record IsCanonical (most : ℕ) (t : Text) : Type 0 where
  pub trimmed : strip t ≡ t
  pub no_nul : has_nul t ≡ false
  pub no_surrogate : has_surrogate t ≡ false
  pub not_blank : 1 ≤ length t
  pub short : length t ≤ most

abbrev pub Title : Text → Type 0
Title = IsCanonical max_title

pub check_text-IsCanonical :
    (most : ℕ) (t : Text) {s : Text}
    → check_text most (strip t) ≡ ok s
    → (s ≡ strip t) × IsCanonical most s
unfolding check_text
check_text-IsCanonical most t {s} h = ground (arith, strip_idem t)

pub check_text_canonical : (most : ℕ) (t : Text) → IsCanonical most t → check_text most t ≡ ok t
unfolding check_text
check_text_canonical most t c = ground arith

pub check_text_error :
    (most : ℕ) (t : Text) {e : Error} → check_text most t ≡ err e → e ≡ value_error
unfolding check_text
check_text_error most t h = ground arith

-- An accepted title is the trimmed input, and canonical.
pub canonicalize_title_sound :
    (t : Text) {s : Text} → canonicalize_title t ≡ ok s → (s ≡ strip t) × Title s
unfolding canonicalize_title
canonicalize_title_sound t h = check_text-IsCanonical max_title t h

-- A text whose trimmed form is canonical is accepted, and the trimmed form is returned.
pub canonicalize_title_complete : (t : Text) → Title (strip t) → canonicalize_title t ≡ ok (strip t)
unfolding canonicalize_title
canonicalize_title_complete t c = check_text_canonical max_title (strip t) c

-- A canonical title is its own canonical form.
pub canonicalize_title_fixed : (t : Text) → Title t → canonicalize_title t ≡ ok t
unfolding canonicalize_title
canonicalize_title_fixed t c = rw c.trimmed (check_text_canonical max_title t c)
