-- ===== src/Suggestion/Trace.antt =====
-- The stored trace parent: `canonical_trace_parent` of apps/api/app/suggestion_service.py and
-- `extract_stored_context` of apps/api/app/tracing.py.
use expo_fastapi_todo.Prelude.{
  ℕ, zero, suc, Bool, not, ◌&&◌, ◌||◌, Option, none, some, [], ◌∷◌, length, leb, ◌==◌, Text, codes,
  text_eq, if◌then◌else◌, is_empty, any, all, take,
}
use expo_fastapi_todo.Title.{strip_by}
use expo_fastapi_todo.Platform.{Platform, is_hex}

-- `str.isspace`, the characters that `str.strip()` removes
unfoldable pub is_space : ℕ → Bool
is_space c =
    (leb 0x9 c && leb c 0xd)
    || (leb 0x1c c && leb c 0x20)
    || any (λ s. s == c) (0x85 ∷ 0xa0 ∷ 0x1680 ∷ 0x2028 ∷ 0x2029 ∷ 0x202f ∷ 0x205f ∷ 0x3000 ∷ [])
    || (leb 0x2000 c && leb c 0x200a)

unfoldable pub extract_stored_context : Platform → Text → Bool
extract_stored_context p traceparent =
    let text = strip_by is_space traceparent in
    not (is_empty traceparent) && leb (length text) 55 && p.propagates text

abbrev pub drop : ℕ → Text → Text
drop zero t = t
drop (suc n) [] = []
drop (suc n) (c ∷ cs) = drop n cs

-- `text[at:at + size]`
abbrev pub slice : ℕ → ℕ → Text → Text
slice at size t = take size (drop at t)

-- the pattern `^00-[0-9a-f]{32}-[0-9a-f]{16}-[0-9a-f]{2}$`, on a text that is stripped
unfoldable pub matches_trace_parent : Text → Bool
matches_trace_parent t =
    length t == 55
    && text_eq (slice 0 3 t) (codes "00-")
    && all is_hex (slice 3 32 t)
    && text_eq (slice 35 1 t) (codes "-")
    && all is_hex (slice 36 16 t)
    && text_eq (slice 52 1 t) (codes "-")
    && all is_hex (slice 53 2 t)

abbrev pub all_zero : Text → Bool
all_zero t = all (λ c. c == b'0') t

-- An argument that is no `str` is `none`.
unfoldable pub canonical_trace_parent : Platform → Option Text → Option Text
canonical_trace_parent p none = none
canonical_trace_parent p (some value) =
    let text = strip_by is_space value in
    if not (leb (length text) 55 && matches_trace_parent text)
    then none
    else if not (extract_stored_context p text)
    then none
    else if all_zero (slice 3 32 text) || all_zero (slice 36 16 text)
    then none
    else some text
