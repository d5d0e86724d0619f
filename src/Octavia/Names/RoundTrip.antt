-- ===== src/Octavia/Names/RoundTrip.antt =====
-- A member's name gives its pool back (internal/octavia/plan/plan.go).
use Prim.Native.Char.{Char, code}
use Prim.Native.String.{String, ◌++◌}
use Prim.Native.String.append
use text.Mathlib.TextLemmas.{append-nil}
use dizzy.Prelude.{
  ℕ, zero, suc, ◌≤◌, ◌≡◌, ◌≢◌, refl, ap, ◌∙◌, false, ◌==◌, if_both, some, none, ltb, ◌/◌, decimal,
  arith, digit, digits, All-at, [], ◌∷◌, ◌%◌,
}
use dizzy.Octavia.Names.{
  member_separator, two_digits, member_name, has_prefix, before_last, member_pool,
}

-- Every character is a digit.
abbrev Digits : String → Type 0
Digits String.[] = Unit
Digits (String.◌∷◌ c s) = ((48 ≤ code c) × (code c ≤ 57)) × Digits s

Digits-append : (s t : String) → Digits s → Digits t → Digits (s ++ t)
Digits-append String.[] t a b = rw (append.nil t) b
Digits-append (String.◌∷◌ c s) t a b = rw (append.cons c s t) (a.0, Digits-append s t a.1 b)

digit-Digits : (n : ℕ) → Digits (digit n)
digit-Digits n =
    All-at Digits ("0" ∷ "1" ∷ "2" ∷ "3" ∷ "4" ∷ "5" ∷ "6" ∷ "7" ∷ "8" ∷ "9" ∷ []) n ""
      (ground arith) tt

digits-Digits : (fuel n : ℕ) → Digits (digits fuel n)
digits-Digits zero n = tt
digits-Digits (suc fuel) n = if_both Digits (ltb n 10) (digit-Digits n) (
    Digits-append (digits fuel (n / 10)) (digit (n % 10)) (digits-Digits fuel (n / 10))
      (digit-Digits (n % 10)))

two_digits-Digits : (n : ℕ) → Digits (two_digits n)
two_digits-Digits n =
    if_both Digits (ltb n 10)
      (Digits-append "0" (decimal n) (ground arith) (digits-Digits (suc n) n))
      (digits-Digits (suc n) n)

-- A text of digits holds no separator.
before_last-Digits : (s : String) → Digits s → before_last member_separator s ≡ none
unfolding before_last has_prefix
before_last-Digits String.[] d = refl
before_last-Digits (String.◌∷◌ c s) d =
    let rest = before_last-Digits s d.1 in ground (arith, rest, d.0)

before_last-skip :
    (c : Char) (s : String)
    → (code c == 45) ≡ false
    → before_last member_separator s ≡ none
    → before_last member_separator (String.◌∷◌ c s) ≡ none
unfolding before_last has_prefix
before_last-skip c s h rest = ground (arith, h, rest)

before_last-dash : (s : String) → Digits s → before_last member_separator (String.◌∷◌ "-" s) ≡ none
unfolding before_last has_prefix
before_last-dash String.[] d = refl
before_last-dash (String.◌∷◌ c s) d =
    let rest = before_last-Digits (String.◌∷◌ c s) d in ground (arith, rest, d.0)

-- The separator in front of a text, character by character.
abbrev letters : String → String
letters s = String.◌∷◌ "m" (
    String.◌∷◌ "e"
      (String.◌∷◌ "m" (String.◌∷◌ "b" (String.◌∷◌ "e" (String.◌∷◌ "r" (String.◌∷◌ "-" s))))))

append-letters : (s : String) → member_separator ++ s ≡ String.◌∷◌ "-" (letters s)
append-letters s =
    append.cons "-" "member-" s
    ∙ ap (String.◌∷◌ "-") (
        append.cons "m" "ember-" s
        ∙ ap (String.◌∷◌ "m") (
            append.cons "e" "mber-" s
            ∙ ap (String.◌∷◌ "e") (
                append.cons "m" "ber-" s
                ∙ ap (String.◌∷◌ "m") (
                    append.cons "b" "er-" s
                    ∙ ap (String.◌∷◌ "b") (
                        append.cons "e" "r-" s
                        ∙ ap (String.◌∷◌ "e") (
                            append.cons "r" "-" s
                            ∙ ap (String.◌∷◌ "r")
                                (append.cons "-" "" s ∙ ap (String.◌∷◌ "-") (append.nil s))))))))

letters-none : (s : String) → Digits s → before_last member_separator (letters s) ≡ none
letters-none s d = before_last-skip "m" _ refl (
    before_last-skip "e" _ refl (
      before_last-skip "m" _ refl (
        before_last-skip "b" _ refl
          (before_last-skip "e" _ refl (before_last-skip "r" _ refl (before_last-dash s d))))))

-- The text of digits behind a separator hides none of it.
before_last-separator :
    (s : String) → Digits s → before_last member_separator (member_separator ++ s) ≡ some ""
unfolding before_last has_prefix
before_last-separator s d =
    rw (append-letters s) (let rest = letters-none s d in ground (arith, rest))

before_last-append :
    (sep pool s front : String)
    → before_last sep s ≡ some front
    → before_last sep (pool ++ s) ≡ some (pool ++ front)
unfolding before_last
before_last-append sep String.[] s front h = rw (append.nil s, append.nil front) h
before_last-append sep (String.◌∷◌ c pool) s front h =
    let rest = before_last-append sep pool s front h in
    rw (append.cons c pool s, append.cons c pool front) (ground (arith, rest))

set_pool :
    (pool member : String)
    → pool ≢ ""
    → before_last member_separator member ≡ some pool
    → member_pool member ≡ some pool
unfolding member_pool
set_pool String.[] member h e = absurd (h refl)
set_pool (String.◌∷◌ c front) member h e = rw (e, member_pool) refl

-- The pool that a member's name is made with, not the empty one, is found in the name again,
-- whatever its number and also where the pool's own name holds a separator.
pub member_pool-member_name :
    (pool : String) (n : ℕ) → pool ≢ "" → member_pool (member_name pool n) ≡ some pool
unfolding member_pool member_name
member_pool-member_name pool n h =
    let found =
      before_last-append member_separator pool (member_separator ++ two_digits n) ""
        (before_last-separator (two_digits n) (two_digits-Digits n))
      ∙ ap some (append-nil pool) in
    set_pool pool (member_name pool n) h found
