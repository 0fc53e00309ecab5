-- ===== src/Requests/Filename.antt =====
-- `downloadFilename` of frontend/lib/admin-api.ts. The regular expression
-- `/filename="?([^";]+)"?/i` is written out: the leftmost match, with the case of ASCII letters
-- ignored and a quotation mark before the value skipped.
use Prim.Native.Char.{Char, code}
use Prim.Native.String
use text.Mathlib.TextLemmas.{cons-append, nil-append}
use charge_api.Prelude.{
  ℕ, ◌+◌, ◌==◌, ◌≡◌, refl, ap, ◌∙◌, arith, Bool, true, not, ◌&&◌, ◌||◌, Option, none, some, String,
  [], ◌∷◌, str_eq, leb, concat, Bool-cases, inl, inr, if◌then◌else◌,
}

-- `AdminTrendRange`.
pub data AdminTrendRange : Type 0 where
  day week month : AdminTrendRange

abbrev pub range_name : AdminTrendRange → String
range_name day = "24h"
range_name week = "7d"
range_name month = "30d"

abbrev is_upper : ℕ → Bool
is_upper c = leb b'A' c && leb c b'Z'

abbrev is_lower : ℕ → Bool
is_lower c = leb b'a' c && leb c b'z'

abbrev is_digit : ℕ → Bool
is_digit c = leb b'0' c && leb c b'9'

-- The case of an ASCII letter, removed.
abbrev fold : ℕ → ℕ
fold c = if is_upper c then c + 32 else c

-- What stands after a key, whatever the case of its letters.
after : String → String → Option String
after String.[] s = some s
after (String.◌∷◌ k key) String.[] = none
after (String.◌∷◌ k key) (String.◌∷◌ c s) =
    let rest = after key s in if fold (code k) == fold (code c) then rest else none

-- `"?`.
abbrev skip_quote : String → String
skip_quote String.[] = ""
skip_quote (String.◌∷◌ c s) = if code c == b'"' then s else String.◌∷◌ c s

-- `[^";]`.
abbrev is_value : ℕ → Bool
is_value c = not (c == b'"' || c == b';')

unfoldable pub value_of : String → String
value_of String.[] = ""
value_of (String.◌∷◌ c s) =
    let rest = value_of s in if is_value (code c) then String.◌∷◌ c rest else ""

abbrev non_empty : String → Option String
non_empty s = if str_eq s "" then none else some s

abbrev value_after : Option String → Option String
value_after none = none
value_after (some rest) = non_empty (value_of (skip_quote rest))

-- The match at one position.
unfoldable pub match_at : String → Option String
unfolding after value_of
match_at s = value_after (after "filename=" s)

abbrev first_of : Option String → Option String → Option String
first_of none later = later
first_of (some value) later = some value

unfoldable pub candidate_of : String → Option String
candidate_of String.[] = none
candidate_of (String.◌∷◌ c s) = first_of (match_at (String.◌∷◌ c s)) (candidate_of s)

-- `[A-Za-z0-9._-]`.
abbrev is_plain : ℕ → Bool
is_plain c = is_upper c || is_lower c || is_digit c || c == b'.' || c == b'_' || c == b'-'

unfoldable pub is_plain_text : String → Bool
is_plain_text String.[] = true
is_plain_text (String.◌∷◌ c s) = is_plain (code c) && is_plain_text s

-- `/^[A-Za-z0-9._-]+$/`.
abbrev pub is_plain_name : String → Bool
is_plain_name s = not (str_eq s "") && is_plain_text s

abbrev fallback_name : AdminTrendRange → String
fallback_name range = concat ("charge-trends-" ∷ range_name range ∷ ".csv" ∷ [])

abbrev name_of : Option String → AdminTrendRange → String
name_of none range = fallback_name range
name_of (some candidate) range = if is_plain_name candidate then candidate else fallback_name range

unfoldable pub download_filename : Option String → AdminTrendRange → String
unfolding candidate_of is_plain_text
download_filename none range = fallback_name range
download_filename (some disposition) range = name_of (candidate_of disposition) range

choice-is_plain_name :
    (c d : String)
    → is_plain_name d ≡ true
    → is_plain_name (if is_plain_name c then c else d) ≡ true
choice-is_plain_name c d h = elim (Bool-cases (is_plain_name c)) [
  | inl plain ↦ rw plain plain
  | inr other ↦ rw other h
]

fallback_name-is_plain_name : (range : AdminTrendRange) → is_plain_name (fallback_name range) ≡ true
unfolding is_plain_text
fallback_name-is_plain_name day = refl
fallback_name-is_plain_name week = refl
fallback_name-is_plain_name month = refl

name_of-is_plain_name :
    (candidate : Option String) (range : AdminTrendRange)
    → is_plain_name (name_of candidate range) ≡ true
name_of-is_plain_name none range = fallback_name-is_plain_name range
name_of-is_plain_name (some c) range =
    choice-is_plain_name c (fallback_name range) (fallback_name-is_plain_name range)

-- Whatever the header says, the file has a name, of letters, digits, ".", "_" and "-" alone.
pub download_filename-is_plain_name :
    (disposition : Option String) (range : AdminTrendRange)
    → is_plain_name (download_filename disposition range) ≡ true
unfolding download_filename
download_filename-is_plain_name none range = fallback_name-is_plain_name range
download_filename-is_plain_name (some d) range = name_of-is_plain_name (candidate_of d) range

split : (a b : Bool) → (a && b) ≡ true → (a ≡ true) × (b ≡ true)
split a b h = ground arith

is_value_of_plain : (c : ℕ) → is_plain c ≡ true → is_value c ≡ true
is_value_of_plain c h = ground arith

value_of_quoted :
    (name rest : String)
    → is_plain_text name ≡ true
    → value_of (String.◌++◌ name (String.◌++◌ "\"" rest)) ≡ name
unfolding value_of is_plain_text
value_of_quoted String.[] rest h =
    rw (nil-append (String.◌++◌ "\"" rest), cons-append "\"" "" rest) refl
value_of_quoted (String.◌∷◌ c s) rest h =
    let (plain, more) = split (is_plain (code c)) (is_plain_text s) h in
    rw (
      cons-append c s (String.◌++◌ "\"" rest),
      is_value_of_plain (code c) plain,
      value_of_quoted s rest more,
    )

after_append : (key s : String) → after key (String.◌++◌ key s) ≡ some s
unfolding after
after_append String.[] s = rw (nil-append s)
after_append (String.◌∷◌ k key) s =
    rw (cons-append k key s) (rw (after_append key s) (ground arith))

candidate_of_match : (s v : String) → match_at s ≡ some v → candidate_of s ≡ some v
unfolding candidate_of
candidate_of_match String.[] v h = unfold match_at after in ground arith
candidate_of_match (String.◌∷◌ c s) v h = ap (λ m. first_of m (candidate_of s)) h

-- No "f" stands in the text, in either case.
unfoldable pub is_without_f : String → Bool
is_without_f String.[] = true
is_without_f (String.◌∷◌ c s) = not (fold (code c) == b'f') && is_without_f s

no_match :
    (c : Char) (s : String) → not (fold (code c) == b'f') ≡ true → match_at (String.◌∷◌ c s) ≡ none
unfolding match_at after
no_match c s h = ground arith

candidate_of_skip :
    (before s : String)
    → is_without_f before ≡ true
    → candidate_of (String.◌++◌ before s) ≡ candidate_of s
unfolding is_without_f candidate_of
candidate_of_skip String.[] s h = rw (nil-append s)
candidate_of_skip (String.◌∷◌ c before) s h =
    let (other, more) = split (not (fold (code c) == b'f')) (is_without_f before) h in
    ap candidate_of (cons-append c before s)
    ∙ ap (λ m. first_of m (candidate_of (String.◌++◌ before s)))
        (no_match c (String.◌++◌ before s) other)
    ∙ candidate_of_skip before s more

abbrev quoted : String → String → String
quoted name rest = concat ("filename=" ∷ "\"" ∷ name ∷ "\"" ∷ rest ∷ [])

skip_quote_quoted : (s : String) → skip_quote (String.◌++◌ "\"" s) ≡ s
skip_quote_quoted s = ap skip_quote (cons-append "\"" "" s) ∙ nil-append s

match_at-quoted :
    (name rest : String) → is_plain_name name ≡ true → match_at (quoted name rest) ≡ some name
unfolding match_at
match_at-quoted name rest h =
    let (given, plain) = split (not (str_eq name "")) (is_plain_text name) h in
    let more = concat (name ∷ "\"" ∷ rest ∷ []) in
    ap value_after (after_append "filename=" (String.◌++◌ "\"" more))
    ∙ ap (λ s. non_empty (value_of s)) (skip_quote_quoted more)
    ∙ ap non_empty (value_of_quoted name (concat (rest ∷ [])) plain)
    ∙ non_empty_some name given
  where
    non_empty_some : (name : String) → not (str_eq name "") ≡ true → non_empty name ≡ some name
    non_empty_some name given = ground arith

candidate_of-quoted :
    (name rest : String) → is_plain_name name ≡ true → candidate_of (quoted name rest) ≡ some name
candidate_of-quoted name rest h =
    candidate_of_match (quoted name rest) name (match_at-quoted name rest h)

-- A plain name that the header gives in quotes is the name of the file.
download_filename_quoted :
    (before name rest : String) (range : AdminTrendRange)
    → is_without_f before ≡ true
    → is_plain_name name ≡ true
    → download_filename
        (some (concat (before ∷ "filename=" ∷ "\"" ∷ name ∷ "\"" ∷ rest ∷ [])))
        range
      ≡ name
unfolding download_filename
download_filename_quoted before name rest range b h =
    rw (candidate_of_skip before (quoted name rest) b, candidate_of-quoted name rest h, h)
