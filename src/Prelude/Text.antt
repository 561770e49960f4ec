-- ===== src/Prelude/Text.antt =====
-- Byte strings: Go's `string` and `[]byte`, as lists of numbers. What `strings.Contains`,
-- `strings.LastIndex`, `strings.Index` and `==` compute of them.
use mathlib.Core.Logic.{◌≢◌}
use Prim.Native.Char.{code}
use Prim.Native.Nat.{ℕ, suc, ◌<◌}
use Prim.Native.String.{String}
use mathlib.Core.Bool.{Bool, true, false, ◌&&◌, ◌||◌}
use mathlib.Core.List.{List, [], ◌∷◌, ◌++◌}
use mathlib.Core.Logic.{◌↔◌, inl, inr}
use mathlib.Core.Option.{Option, none, some}
use mathlib.Core.Path.{◌≡◌, refl}
use native.Mathlib.Omega.{arith}
use wirez.Prelude.Lists.{length, All}
use wirez.Prelude.Tests.{Bool-cases, Option-cases, ◌==◌, if◌then◌else◌}

abbrev pub Bytes : Type 0
Bytes = List ℕ

abbrev pub IsByte : ℕ → Type 0
IsByte b = b < 256

abbrev pub AreBytes : Bytes → Type 0
AreBytes = All IsByte

-- The bytes of an ASCII literal.
abbrev pub bytes : String → Bytes
bytes String.[] = []
bytes (String.◌∷◌ c s) = code c ∷ bytes s

-- `a == b` on strings.
unfoldable pub equal : Bytes → Bytes → Bool
equal [] [] = true
equal (x ∷ xs) (y ∷ ys) = x == y && equal xs ys
equal _ _ = false

pub equal_iff : (s t : Bytes) → (equal s t ≡ true) ↔ (s ≡ t)
unfolding equal
equal_iff [] [] = ground arith
equal_iff [] (c ∷ t) = ground arith
equal_iff (c ∷ s) [] = ground arith
equal_iff (c ∷ s) (d ∷ t) = ground (arith, equal_iff s t)

pub equal_refl : (a : Bytes) → equal a a ≡ true
equal_refl a = (equal_iff a a).1 refl

pub equal_differs : (s t : Bytes) → s ≢ t → equal s t ≡ false
equal_differs s t d = elim (Bool-cases (equal s t)) [
  | inl e ↦ absurd (d ((equal_iff s t).0 e))
  | inr e ↦ e
]

-- `strings.IndexByte(s, c) >= 0`.
abbrev pub has : ℕ → Bytes → Bool
has c [] = false
has c (x ∷ xs) = x == c || has c xs

pub has-append : (c : ℕ) (xs ys : Bytes) → has c (xs ++ ys) ≡ (has c xs || has c ys)
has-append c [] ys = refl
has-append c (x ∷ xs) ys = ground (arith, has-append c xs ys)

abbrev up : Option ℕ → Option ℕ
up none = none
up (some i) = some (suc i)

-- `strings.Index(s, c)` for one byte; `none` for -1.
unfoldable pub index : ℕ → Bytes → Option ℕ
index c [] = none
index c (x ∷ xs) = if x == c then some 0 else up (index c xs)

abbrev first_or : Option ℕ → Option ℕ → Option ℕ
first_or none d = d
first_or (some i) d = some (suc i)

-- `strings.LastIndex(s, c)` for one byte; `none` for -1.
unfoldable pub last_index : ℕ → Bytes → Option ℕ
last_index c [] = none
last_index c (x ∷ xs) = first_or (last_index c xs) (if x == c then some 0 else none)

pub last_index_absent : (c : ℕ) (xs : Bytes) → has c xs ≡ false → last_index c xs ≡ none
unfolding last_index
last_index_absent c [] h = refl
last_index_absent c (x ∷ xs) h = ground (arith, last_index_absent c xs)

-- The last occurrence is the one with none behind it.
pub last_index-append :
    (c : ℕ) (xs ys : Bytes) → has c ys ≡ false → last_index c (xs ++ c ∷ ys) ≡ some (length xs)
unfolding last_index
last_index-append c [] ys h = ground (arith, last_index_absent c ys)
last_index-append c (x ∷ xs) ys h = ground (arith, last_index-append c xs ys h)

pub index-append :
    (c : ℕ) (xs ys : Bytes) → has c xs ≡ false → index c (xs ++ c ∷ ys) ≡ some (length xs)
unfolding index
index-append c [] ys h = ground arith
index-append c (x ∷ xs) ys h = ground (arith, index-append c xs ys)

-- An occurrence is in the text, and stays where it is when something is appended.
pub index-lt_length : (c : ℕ) (xs : Bytes) (i : ℕ) → index c xs ≡ some i → i < length xs
unfolding index
index-lt_length c [] i e = absurd (cc)
index-lt_length c (x ∷ xs) i e = elim (Bool-cases (x == c)) [
  | inl h ↦ ground arith
  | inr h ↦ elim (Option-cases (index c xs)) [
    | inl n ↦ absurd (ground (arith, n))
    | inr (j, m) ↦ ground (arith, index-lt_length c xs j m)
  ]
]

pub index-append_left :
    (c : ℕ) (xs ys : Bytes) (i : ℕ) → index c xs ≡ some i → index c (xs ++ ys) ≡ some i
unfolding index
index-append_left c [] ys i e = absurd (cc)
index-append_left c (x ∷ xs) ys i e = elim (Bool-cases (x == c)) [
  | inl h ↦ ground arith
  | inr h ↦ elim (Option-cases (index c xs)) [
    | inl n ↦ absurd (ground (arith, n))
    | inr (j, m) ↦ ground (arith, m, index-append_left c xs ys j m)
  ]
]
