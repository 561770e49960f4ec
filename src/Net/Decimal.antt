-- ===== src/Net/Decimal.antt =====
-- strconv.ParseUint in base 10 and strconv.Itoa of a number that is not negative.
use wirez.Prelude.{
  ℕ, zero, suc, ◌+◌, ◌*◌, ◌-◌, ◌/◌, ◌%◌, ◌≤◌, ◌<◌, ◌≡◌, refl, ◌∙◌, ap, inl, inr, Bool, false, ◌&&◌,
  Option, none, some, [], ◌∷◌, arith, Bytes, has, ltb, leb, if◌then◌else◌, Bool-cases, Option-cases,
}

abbrev pub is_digit : ℕ → Bool
is_digit c = leb b'0' c && leb c b'9'

-- The value of the digits, read from the left; `none` at any other byte.
unfoldable pub digits_value : ℕ → Bytes → Option ℕ
digits_value acc [] = some acc
digits_value acc (c ∷ cs) =
    let rest = digits_value (acc * 10 + (c - b'0')) cs in if is_digit c then rest else none

abbrev at_most : ℕ → Option ℕ → Option ℕ
at_most top none = none
at_most top (some n) = if leb n top then some n else none

-- strconv.ParseUint(s, 10, bits) where `top` is 2^bits - 1; `none` for any error.
unfoldable pub parse_uint : ℕ → Bytes → Option ℕ
parse_uint top [] = none
parse_uint top (c ∷ cs) = at_most top (digits_value 0 (c ∷ cs))

-- The digits of `n` put in front of `acc`; the fuel is more than the number of digits.
unfoldable pub digits : ℕ → ℕ → Bytes → Bytes
digits zero n acc = acc
digits (suc f) n acc =
    let d : Bytes = (n % 10 + b'0') ∷ acc in
    let rest = digits f (n / 10) d in if ltb n 10 then d else rest

-- strconv.Itoa(n) for n ≥ 0.
unfoldable pub itoa : ℕ → Bytes
unfolding digits
itoa n = digits (suc n) n []

step_value :
    (n : ℕ) (s : Bytes) (m : ℕ)
    → m * 10 + n % 10 ≡ n
    → digits_value m ((n % 10 + b'0') ∷ s) ≡ digits_value n s
unfolding digits_value
step_value n s m e = ground (arith, ap (λ (v : ℕ). digits_value v s) e)

-- Reading the digits of `n` is having read `n`.
pub digits_value-digits :
    (f n : ℕ) (s : Bytes) → n < f → digits_value 0 (digits f n s) ≡ digits_value n s
unfolding digits
digits_value-digits zero n s h = absurd (omega arith)
digits_value-digits (suc f) n s h = elim (Bool-cases (ltb n 10)) [
  | inl small ↦ rw small (step_value n s 0 (ground arith))
  | inr large ↦ rw large (
      digits_value-digits f (n / 10) ((n % 10 + b'0') ∷ s) (ground arith)
      ∙ step_value n s (n / 10) (omega arith))
]

-- The first byte of `digits` exists.
digits-ne-nil :
    (f n : ℕ) (c : ℕ) (s : Bytes) → (d : ℕ) × (ds : Bytes) × (digits f n (c ∷ s) ≡ d ∷ ds)
unfolding digits
digits-ne-nil zero n c s = (c, s, refl)
digits-ne-nil (suc f) n c s = elim (Bool-cases (ltb n 10)) [
  | inl small ↦ (n % 10 + b'0', c ∷ s, rw small)
  | inr large ↦
      let (d, ds, e) = digits-ne-nil f (n / 10) (n % 10 + b'0') (c ∷ s) in (d, ds, rw large e)
]

itoa_cons : (n : ℕ) → (d : ℕ) × (ds : Bytes) × (itoa n ≡ d ∷ ds)
unfolding itoa
itoa_cons n = elim (Bool-cases (ltb n 10)) [
  | inl small ↦ (n % 10 + b'0', [], rw small)
  | inr large ↦ let (d, ds, e) = digits-ne-nil n (n / 10) (n % 10 + b'0') [] in (d, ds, rw large e)
]

digits_value-itoa : (n : ℕ) → digits_value 0 (itoa n) ≡ some n
unfolding itoa digits_value
digits_value-itoa n = digits_value-digits (suc n) n [] (omega arith)

-- Reading back a printed number that fits the width gives it again.
pub parse_uint-itoa : (top n : ℕ) → n ≤ top → parse_uint top (itoa n) ≡ some n
unfolding parse_uint
parse_uint-itoa top n h =
    let (d, ds, e) = itoa_cons n in
    let v : digits_value 0 (d ∷ ds) ≡ some n = rw e at (digits_value-itoa n) in rw e (ground arith)

-- What is read fits the width.
pub parse_uint-le : (top : ℕ) (s : Bytes) {n : ℕ} → parse_uint top s ≡ some n → n ≤ top
unfolding parse_uint
parse_uint-le top [] h = cc
parse_uint-le top (c ∷ cs) h = ground arith

has-digits : (c f n : ℕ) (s : Bytes) → is_digit c ≡ false → has c (digits f n s) ≡ has c s
unfolding digits
has-digits c zero n s h = refl
has-digits c (suc f) n s h = elim (Bool-cases (ltb n 10)) [
  | inl small ↦ rw small (ground arith)
  | inr large ↦ rw large (has-digits c f (n / 10) _ h ∙ ground arith)
]

-- A printed number holds digits alone.
pub has-itoa : (c n : ℕ) → is_digit c ≡ false → has c (itoa n) ≡ false
unfolding itoa
has-itoa c n h = has-digits c (suc n) n [] h

digits_value-has :
    (c acc : ℕ) (s : Bytes) {n : ℕ}
    → is_digit c ≡ false
    → digits_value acc s ≡ some n
    → has c s ≡ false
unfolding digits_value
digits_value-has c acc [] h e = refl
digits_value-has c acc (x ∷ xs) {n} h e =
    ground (arith, digits_value-has c (acc * 10 + (x - b'0')) xs {n = n} h)

-- So does a text that is read as a number.
pub has-parse_uint :
    (c top : ℕ) (s : Bytes) {n : ℕ}
    → is_digit c ≡ false
    → parse_uint top s ≡ some n
    → has c s ≡ false
unfolding parse_uint
has-parse_uint c top [] h e = refl
has-parse_uint c top (x ∷ xs) h e = elim (Option-cases (digits_value 0 (x ∷ xs))) [
  | inl none' ↦ absurd (ground (arith, none'))
  | inr (v, some') ↦ digits_value-has c 0 (x ∷ xs) h some'
]
