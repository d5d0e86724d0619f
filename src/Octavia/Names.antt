-- ===== src/Octavia/Names.antt =====
-- The names of members (internal/octavia/plan/plan.go). A string is a list of characters here, and
-- of strings.LastIndex only what comes before the occurrence is kept.
pub mod RoundTrip
use Prim.Native.Char.{Char, code}
use Prim.Native.String.{String, ◌++◌}
use dizzy.Prelude.{
  ℕ, Bool, true, false, ◌&&◌, ◌==◌, if◌then◌else◌, Option, some, none, ltb, leb, decimal, ℤ, pos,
  negsuc, str_eq,
}

abbrev pub member_separator : String
member_separator = "-member-"

-- `%02d`
abbrev pub two_digits : ℕ → String
two_digits n = if ltb n 10 then "0" ++ decimal n else decimal n

unfoldable pub member_name : String → ℕ → String
member_name pool n = pool ++ (member_separator ++ two_digits n)

unfoldable pub has_prefix : String → String → Bool
has_prefix s String.[] = true
has_prefix String.[] (String.◌∷◌ d p) = false
has_prefix (String.◌∷◌ c s) (String.◌∷◌ d p) = (code c == code d) && has_prefix s p

-- What comes before the last occurrence of the separator.
unfoldable pub before_last : String → String → Option String
before_last sep String.[] = if has_prefix "" sep then some "" else none
before_last sep (String.◌∷◌ c s) =
    let later = before_last sep s in
    let here = if has_prefix (String.◌∷◌ c s) sep then some "" else none in
    elim later [ some front ↦ some (String.◌∷◌ c front) | none ↦ here ]

-- The occurrence must not be at the start.
unfoldable pub member_pool : String → Option String
member_pool member = elim (before_last member_separator member) [
  | none ↦ none
  | some String.[] ↦ none
  | some (String.◌∷◌ c front) ↦ some (String.◌∷◌ c front)
]

-- strings.CutPrefix
unfoldable pub cut_prefix : String → String → Option String
cut_prefix s String.[] = some s
cut_prefix String.[] (String.◌∷◌ d p) = none
cut_prefix (String.◌∷◌ c s) (String.◌∷◌ d p) =
    let rest = cut_prefix s p in if code c == code d then rest else none

-- `atoi` is strconv.Atoi.
unfoldable pub is_member_name : (String → Option ℤ) → String → String → Bool
unfolding cut_prefix member_name
is_member_name atoi member pool = elim (cut_prefix member (pool ++ member_separator)) [
  | none ↦ false
  | some number ↦ elim (atoi number) [
    | none ↦ false
    | some (negsuc n) ↦ false
    | some (pos n) ↦ leb 1 n && str_eq (member_name pool n) member
  ]
]
