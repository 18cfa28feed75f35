-- ===== src/Title/Strip.antt =====
-- `str.strip` with the characters that ECMAScript trims (title_validation.py).
use expo_fastapi_todo.Prelude.{
  ℕ, ◌≡◌, refl, ap, ◌∙◌, [], ◌∷◌, ◌++◌, Bool, true, false, any, Text, ◌==◌, if◌then◌else◌, All,
  arith, Bool-cases, inl, inr,
}

abbrev pub ecmascript_trim_chars : Text
ecmascript_trim_chars =
    0x9 ∷ 0xa ∷ 0xb ∷ 0xc ∷ 0xd ∷ 0x20 ∷ 0xa0 ∷ 0x1680 ∷ 0x2000 ∷ 0x2001 ∷ 0x2002 ∷ 0x2003 ∷ 0x2004
    ∷ 0x2005 ∷ 0x2006 ∷ 0x2007 ∷ 0x2008 ∷ 0x2009 ∷ 0x200a ∷ 0x2028 ∷ 0x2029 ∷ 0x202f ∷ 0x205f
    ∷ 0x3000 ∷ 0xfeff ∷ []

unfoldable pub is_trim : ℕ → Bool
is_trim c = any (λ t. t == c) ecmascript_trim_chars

-- `str.strip` of the characters that pass a test
module _ (test : ℕ → Bool) where
  unfoldable pub lstrip : Text → Text
  lstrip [] = []
  lstrip (c ∷ cs) = if test c then lstrip cs else c ∷ cs

  -- `c` in front of a text that is already stripped on the right
  unfoldable pub rjoin : ℕ → Text → Text
  rjoin c [] = if test c then [] else c ∷ []
  rjoin c (d ∷ ds) = c ∷ d ∷ ds

  unfoldable pub rstrip : Text → Text
  unfolding rjoin
  rstrip [] = []
  rstrip (c ∷ cs) = rjoin c (rstrip cs)

  unfoldable pub strip_by : Text → Text
  unfolding lstrip rstrip
  strip_by text = rstrip (lstrip text)

  -- No trimmed character stands at the front.
  abbrev pub FrontClean : Text → Type 0
  FrontClean [] = Unit
  FrontClean (c ∷ cs) = test c ≡ false

  lstrip-FrontClean : (s : Text) → FrontClean (lstrip s)
  unfolding lstrip
  lstrip-FrontClean [] = tt
  lstrip-FrontClean (c ∷ cs) = ground (arith, lstrip-FrontClean cs)

  lstrip_clean : (s : Text) → FrontClean s → lstrip s ≡ s
  unfolding lstrip
  lstrip_clean [] h = refl
  lstrip_clean (c ∷ cs) h = ground arith

  rjoin-FrontClean : (c : ℕ) (s : Text) → test c ≡ false → FrontClean (rjoin c s)
  unfolding rjoin
  rjoin-FrontClean c [] h = ground arith
  rjoin-FrontClean c (d ∷ ds) h = h

  rstrip-FrontClean : (s : Text) → FrontClean s → FrontClean (rstrip s)
  unfolding rstrip
  rstrip-FrontClean [] h = tt
  rstrip-FrontClean (c ∷ cs) h = rjoin-FrontClean c (rstrip cs) h

  -- What `rjoin` makes of a stripped rest is stripped.
  rstrip-rjoin : (c : ℕ) (r : Text) → rstrip r ≡ r → rstrip (rjoin c r) ≡ rjoin c r
  unfolding rstrip rjoin
  rstrip-rjoin c [] h = elim (Bool-cases (test c)) [ inl e ↦ rw e | inr e ↦ rw e (rw e) ]
  rstrip-rjoin c (d ∷ ds) h = rw h

  rstrip_idem : (s : Text) → rstrip (rstrip s) ≡ rstrip s
  unfolding rstrip
  rstrip_idem [] = refl
  rstrip_idem (c ∷ cs) = rstrip-rjoin c (rstrip cs) (rstrip_idem cs)

  -- Stripping a stripped text changes nothing.
  pub strip_by_idem : (s : Text) → strip_by (strip_by s) ≡ strip_by s
  unfolding strip_by
  strip_by_idem s =
      rw (lstrip_clean (rstrip (lstrip s)) (rstrip-FrontClean (lstrip s) (lstrip-FrontClean s)))
        (rstrip_idem (lstrip s))

  abbrev pub AllTrim : Text → Type 0
  AllTrim s = All (λ c. test c ≡ true) s

  lstrip_split : (s : Text) → (pre : Text) × (s ≡ pre ++ lstrip s) × AllTrim pre
  unfolding lstrip
  lstrip_split [] = ([], refl, tt)
  lstrip_split (c ∷ cs) = elim (Bool-cases (test c)) [
    | inl e ↦
        let (pre, same, trimmed) = lstrip_split cs in
        (c ∷ pre, rw e (ap (λ t. c ∷ t) same), (e, trimmed))
    | inr e ↦ ([], rw e, tt)
  ]

  rjoin_split :
      (c : ℕ) (r post : Text)
      → AllTrim post
      → (post' : Text) × (c ∷ r ++ post ≡ rjoin c r ++ post') × AllTrim post'
  unfolding rjoin
  rjoin_split c [] post h = elim (Bool-cases (test c)) [
    | inl e ↦ (c ∷ post, rw e, (e, h))
    | inr e ↦ (post, rw e, h)
  ]
  rjoin_split c (d ∷ ds) post h = (post, refl, h)

  rstrip_split : (s : Text) → (post : Text) × (s ≡ rstrip s ++ post) × AllTrim post
  unfolding rstrip
  rstrip_split [] = ([], refl, tt)
  rstrip_split (c ∷ cs) =
      let (post, same, trimmed) = rstrip_split cs in
      let (post', same', trimmed') = rjoin_split c (rstrip cs) post trimmed in
      (post', ap (λ t. c ∷ t) same ∙ same', trimmed')

  -- Stripping removes trimmed characters at the two ends and nothing else.
  pub strip_by_split :
      (s : Text)
      → (pre : Text) × (post : Text) × (s ≡ pre ++ (strip_by s ++ post))
        × AllTrim pre
        × AllTrim post
  unfolding strip_by
  strip_by_split s =
      let (pre, left, pre_trim) = lstrip_split s in
      let (post, right, post_trim) = rstrip_split (lstrip s) in
      (pre, post, left ∙ ap (λ t. pre ++ t) right, pre_trim, post_trim)

-- `title.strip(ECMASCRIPT_TRIM_CHARS)`
unfoldable pub strip : Text → Text
strip text = strip_by is_trim text

-- Stripping a stripped text changes nothing.
pub strip_idem : (s : Text) → strip (strip s) ≡ strip s
unfolding strip
strip_idem s = strip_by_idem is_trim s

-- Stripping removes trimmed characters at the two ends and nothing else.
pub strip_split :
    (s : Text)
    → (pre : Text) × (post : Text) × (s ≡ pre ++ (strip s ++ post))
      × All (λ c. is_trim c ≡ true) pre
      × All (λ c. is_trim c ≡ true) post
unfolding strip
strip_split s = strip_by_split is_trim s
