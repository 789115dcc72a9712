-- ===== src/Prelude/Text.antt =====
-- Python's string operations on native texts, and membership in lists of texts.
use Prim.Native.Nat.{ℕ, zero, suc, ◌+◌, ◌-◌, ◌≤◌}
use Prim.Native.Char.{code}
use Prim.Native.String.{String, [], ◌∷◌}
use mathlib.Core.Path.{◌≡◌, refl}
use mathlib.Core.Bool.{Bool, true, false, ◌&&◌, ◌||◌}
use mathlib.Core.Option.{Option, none, some}
use mathlib.Core.List.{List, ◌++◌}
use native.Mathlib.Omega.{arith}
use text.Mathlib.Text.{◌==◌}
use text.Mathlib.TextEquality.{eq_iff}
use text.Mathlib.TextPositions.{eq_refl}
use seyal_run.Prelude.Tests.{leb, eqb, if◌then◌else◌}
use seyal_run.Prelude.Lists.{keep, any, all}

-- `x in xs`
unfoldable pub mem : String → List String → Bool
mem x List.[] = false
mem x (List.◌∷◌ y ys) = x == y || mem x ys

-- `path.split("/", 1)[0]`
unfoldable pub first_segment : String → String
first_segment [] = ""
first_segment (c ∷ s) = let rest = first_segment s in if eqb (code c) b'/' then "" else c ∷ rest

-- `s.endswith(t)`
unfoldable pub ends_with : String → String → Bool
ends_with [] t = "" == t
ends_with (c ∷ s) t = (c ∷ s) == t || ends_with s t

-- `s.rstrip("/")`
unfoldable pub strip_slashes : String → String
strip_slashes [] = ""
strip_slashes (c ∷ s) =
    let rest = strip_slashes s in if eqb (code c) b'/' && rest == "" then "" else c ∷ rest

abbrev pub codes : String → List ℕ
codes [] = List.[]
codes (c ∷ s) = List.◌∷◌ (code c) (codes s)

-- One ASCII character of `str.upper` and `str.lower`; others stay.
unfoldable pub upper_code : ℕ → ℕ
upper_code c = if leb b'a' c && leb c b'z' then c - 32 else c

pub mem-append : (x : String) (xs ys : List String) → mem x (xs ++ ys) ≡ (mem x xs || mem x ys)
unfolding mem
mem-append x List.[] ys = refl
mem-append x (List.◌∷◌ y xs) ys = ground (arith, mem-append x xs ys)

pub mem-cons_self : (x : String) (xs : List String) → mem x (List.◌∷◌ x xs) ≡ true
unfolding mem
mem-cons_self x xs = ground (arith, eq_refl x)

pub mem-keep :
    (p : String → Bool) (x : String) (xs : List String) → mem x (keep p xs) ≡ (p x && mem x xs)
unfolding mem
mem-keep p x List.[] = ground arith
mem-keep p x (List.◌∷◌ y ys) = ground (arith, mem-keep p x ys, eq_iff x y)

-- Two lists with one name in common.
pub any_of_mem :
    (p : String → Bool) (x : String) (xs : List String)
    → mem x xs ≡ true
    → p x ≡ true
    → any p xs ≡ true
unfolding mem
any_of_mem p x List.[] h k = ground arith
any_of_mem p x (List.◌∷◌ y ys) h k = ground (arith, any_of_mem p x ys, eq_iff x y)

-- A check of a list by evaluation, used at one of its members.
pub all_of_mem :
    (p : String → Bool) (x : String) (xs : List String)
    → all p xs ≡ true
    → mem x xs ≡ true
    → p x ≡ true
unfolding mem
all_of_mem p x List.[] h k = ground arith
all_of_mem p x (List.◌∷◌ y ys) h k = ground (arith, all_of_mem p x ys, eq_iff x y)

-- What an empty comprehension says of the members that it read.
pub keep_nil :
    (p : String → Bool) (x : String) (xs : List String)
    → keep p xs ≡ List.[]
    → mem x xs ≡ true
    → p x ≡ false
unfolding mem
keep_nil p x List.[] e h = ground arith
keep_nil p x (List.◌∷◌ y ys) e h = ground (arith, keep_nil p x ys, eq_iff x y)

-- `s.removeprefix(t)` where `s` starts with `t`.
unfoldable pub after_prefix : String → String → Option String
after_prefix s [] = some s
after_prefix [] (d ∷ t) = none
after_prefix (c ∷ s) (d ∷ t) =
    let rest = after_prefix s t in if eqb (code c) (code d) then rest else none

-- The white space of `str.strip`, as far as a header in Latin-1 can hold it.
unfoldable pub is_space : ℕ → Bool
is_space c = leb 9 c && leb c 13 || (leb 28 c && leb c 32 || (eqb c 133 || eqb c 160))

unfoldable pub strip_left : String → String
unfolding is_space
strip_left [] = ""
strip_left (c ∷ s) = let rest = strip_left s in if is_space (code c) then rest else c ∷ s

unfoldable pub strip_right : String → String
unfolding is_space
strip_right [] = ""
strip_right (c ∷ s) =
    let rest = strip_right s in if is_space (code c) && rest == "" then "" else c ∷ rest

unfoldable pub strip : String → String
unfolding strip_left strip_right
strip s = strip_right (strip_left s)

-- One ASCII character of `str.lower`.
unfoldable pub lower_code : ℕ → ℕ
lower_code c = if leb b'A' c && leb c b'Z' then c + 32 else c

-- `s.lower() == t`
unfoldable pub lower_is : String → String → Bool
unfolding lower_code
lower_is [] [] = true
lower_is (c ∷ s) (d ∷ t) = eqb (lower_code (code c)) (code d) && lower_is s t
lower_is _ _ = false

abbrev pub text_length : String → ℕ
text_length [] = 0
text_length (c ∷ s) = suc (text_length s)

abbrev pub append : String → String → String
append [] t = t
append (c ∷ s) t = c ∷ append s t

-- `s[:n]` and `s[n:]`
abbrev pub cut : ℕ → String → String
cut zero s = ""
cut (suc n) [] = ""
cut (suc n) (c ∷ s) = c ∷ cut n s

abbrev pub cut_off : ℕ → String → String
cut_off zero s = s
cut_off (suc n) [] = ""
cut_off (suc n) (c ∷ s) = cut_off n s

pub text_length-append : (s t : String) → text_length (append s t) ≡ text_length s + text_length t
text_length-append [] t = omega arith
text_length-append (c ∷ s) t = omega (arith, text_length-append s t)

pub text_length-cut : (n : ℕ) (s : String) → text_length (cut n s) ≤ n
text_length-cut zero s = omega arith
text_length-cut (suc n) [] = omega arith
text_length-cut (suc n) (c ∷ s) = omega (arith, text_length-cut n s)

pub text_length-cut_off : (n : ℕ) (s : String) → text_length (cut_off n s) ≡ text_length s - n
text_length-cut_off zero s = omega arith
text_length-cut_off (suc n) [] = omega arith
text_length-cut_off (suc n) (c ∷ s) = omega (arith, text_length-cut_off n s)
