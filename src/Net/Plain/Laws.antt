-- ===== src/Net/Plain/Laws.antt =====
-- About the concrete spelling: the laws of the interface Net/IpText.
use wirez.Net.Decimal.{is_digit, itoa, parse_uint, parse_uint-itoa, parse_uint-le, has-itoa}
use wirez.Net.Ip.{v4_in_v6, to4, is_nil, starts_with, starts_with-drop}
use wirez.Net.IpText.{IpTextLaws}
use wirez.Net.Plain.{fields, cons?, cut, read_fields, or_nil, mapped, read_ip, write_ip, plain}
use mathlib.Core.Path.{subst}
use wirez.Prelude.{
  ℕ, zero, suc, ◌≡◌, refl, sym, ap, ◌∙◌, ◌⊎◌, inl, inr, true, false, Option, some, [], ◌∷◌, ◌++◌,
  arith, Bytes, IsByte, AreBytes, length, drop, take-length, drop-suc-length, length-drop, All-drop,
  All-append, has, has-append, index, index-append, ◌==◌, Bool-cases, Option-cases,
}

read_field :
    (sep n b : ℕ) (rest : Bytes)
    → is_digit sep ≡ false
    → IsByte b
    → read_fields sep (suc n) (itoa b ++ (sep ∷ rest)) ≡ cons? (some b) (read_fields sep n rest)
unfolding read_fields
read_field sep n b rest d h =
    rw
      (
        index-append sep (itoa b) rest (has-itoa sep b d),
        take-length (itoa b) (sep ∷ rest),
        drop-suc-length (itoa b) sep rest,
        parse_uint-itoa 255 b (omega arith),
      )
      refl

-- Reading as many fields as were written gives the bytes again.
read_fields-fields :
    (sep b : ℕ) (bs : Bytes)
    → is_digit sep ≡ false
    → AreBytes (b ∷ bs)
    → read_fields sep (length bs) (fields sep (b ∷ bs)) ≡ some (b ∷ bs)
read_fields-fields sep b [] d h =
    unfold read_fields in rw (parse_uint-itoa 255 b (omega arith)) refl
read_fields-fields sep b (c ∷ cs) d h =
    read_field sep (length cs) b (fields sep (c ∷ cs)) d h.0
    ∙ ap (cons? (some b)) (read_fields-fields sep c cs d h.1)

-- What is written holds digits and the separator alone.
has-fields :
    (sep c : ℕ) (bs : Bytes)
    → is_digit c ≡ false
    → (sep == c) ≡ false
    → has c (fields sep bs) ≡ false
has-fields sep c [] d h = refl
has-fields sep c (b ∷ []) d h = has-itoa c b d
has-fields sep c (b ∷ b' ∷ bs) d h =
    has-append c (itoa b) _ ∙ rw (has-itoa c b d, h) (has-fields sep c (b' ∷ bs) d h)

has_sep : (sep b c : ℕ) (bs : Bytes) → has sep (fields sep (b ∷ c ∷ bs)) ≡ true
has_sep sep b c bs = has-append sep (itoa b) _ ∙ ground arith

read_length :
    (sep n : ℕ) (s : Bytes) {bs : Bytes} → read_fields sep n s ≡ some bs → length bs ≡ suc n
unfolding read_fields
read_length sep zero s h = ground arith
read_length sep (suc n) s {bs} h = elim (Option-cases (index sep s)) [
  | inl e ↦ elim (Option-cases (read_fields sep n [])) [
    | inl r ↦ absurd (ground (arith, e, r))
    | inr (rs, r) ↦ ground (arith, e, r, read_length sep n [] r)
  ]
  | inr (i, e) ↦ elim (Option-cases (read_fields sep n (drop (suc i) s))) [
    | inl r ↦ absurd (ground (arith, e, r))
    | inr (rs, r) ↦ ground (arith, e, r, read_length sep n (drop (suc i) s) r)
  ]
]

read_ip-length : (s : Bytes) → (read_ip s ≡ []) ⊎ (length (read_ip s) ≡ 16)
unfolding read_ip
read_ip-length s = elim (Bool-cases (has b':' s)) [
  | inl c ↦ elim (Option-cases (read_fields b':' 15 s)) [
    | inl r ↦ inl (rw (c, r) refl)
    | inr (bs, r) ↦ inr (rw (c, r) (read_length b':' 15 s r))
  ]
  | inr c ↦ elim (Option-cases (read_fields b'.' 3 s)) [
    | inl r ↦ inl (rw (c, r) refl)
    | inr (bs, r) ↦ inr (rw (c, r) (omega (arith, read_length b'.' 3 s r)))
  ]
]

cons?-AreBytes :
    (s : Bytes) (r : Option Bytes) {bs : Bytes}
    → ((cs : Bytes) → r ≡ some cs → AreBytes cs)
    → cons? (parse_uint 255 s) r ≡ some bs
    → AreBytes bs
cons?-AreBytes s r {bs} all h = elim (Option-cases (parse_uint 255 s)) [
  | inl e ↦ absurd (ground (arith, e))
  | inr (b, e) ↦ elim (Option-cases r) [
    | inl f ↦ absurd (ground (arith, e, f))
    | inr (cs, f) ↦ ground (arith, e, f, parse_uint-le 255 s e, all cs f)
  ]
]

read_bytes : (sep n : ℕ) (s : Bytes) {bs : Bytes} → read_fields sep n s ≡ some bs → AreBytes bs
unfolding read_fields
read_bytes sep zero s h = cons?-AreBytes s (some []) (λ cs e. ground arith) h
read_bytes sep (suc n) s h =
    let (field, rest) = cut sep (index sep s) s in
    cons?-AreBytes field (read_fields sep n rest) (λ cs e. read_bytes sep n rest e) h

read_ip_bytes : (s : Bytes) → AreBytes (read_ip s)
unfolding read_ip
read_ip_bytes s = elim (Bool-cases (has b':' s)) [
  | inl c ↦ elim (Option-cases (read_fields b':' 15 s)) [
    | inl r ↦ rw (c, r) tt
    | inr (bs, r) ↦ rw (c, r) (read_bytes b':' 15 s r)
  ]
  | inr c ↦ elim (Option-cases (read_fields b'.' 3 s)) [
    | inl r ↦ rw (c, r) tt
    | inr (bs, r) ↦ rw (c, r) (All-append IsByte v4_in_v6 bs (omega arith) (read_bytes b'.' 3 s r))
  ]
]

read_dotted : (ip : Bytes) → AreBytes ip → length ip ≡ 4 → read_ip (fields b'.' ip) ≡ v4_in_v6 ++ ip
unfolding read_ip
read_dotted (a ∷ b ∷ c ∷ d ∷ []) h l =
    rw (has-fields b'.' b':' (a ∷ b ∷ c ∷ d ∷ []) refl refl)
      (ap mapped (read_fields-fields b'.' a (b ∷ c ∷ d ∷ []) refl h))
read_dotted _ h l = absurd (omega arith)

write_short : (ip : Bytes) → length ip ≡ 4 → write_ip ip ≡ fields b'.' ip
unfolding write_ip
write_short (a ∷ b ∷ c ∷ d ∷ []) l = refl
write_short _ l = absurd (omega arith)

write_mapped : (ip : Bytes) → length ip ≡ 4 → write_ip (v4_in_v6 ++ ip) ≡ fields b'.' ip
unfolding write_ip
write_mapped (a ∷ b ∷ c ∷ d ∷ []) l = refl
write_mapped _ l = absurd (omega arith)

-- Sixteen bytes that are not an IPv4 address are written with colons.
write_long :
    (ip : Bytes) → length ip ≡ 16 → starts_with v4_in_v6 ip ≡ false → write_ip ip ≡ fields b':' ip
unfolding write_ip
write_long ip l h = rw l (rw h refl)

read_colons : (ip : Bytes) → AreBytes ip → length ip ≡ 16 → read_ip (fields b':' ip) ≡ ip
unfolding read_ip
read_colons [] h l = absurd (omega arith)
read_colons (a ∷ []) h l = absurd (omega arith)
read_colons (a ∷ b ∷ bs) h l =
    let n : length (b ∷ bs) ≡ 15 = omega arith in
    rw (has_sep b':' a b bs) (
      subst (λ (k : ℕ). or_nil (read_fields b':' k (fields b':' (a ∷ b ∷ bs))) ≡ a ∷ b ∷ bs) n
        (ap or_nil (read_fields-fields b':' a (b ∷ bs) refl h)))

read_write16 : (ip : Bytes) → AreBytes ip → length ip ≡ 16 → read_ip (write_ip ip) ≡ ip
read_write16 ip h l = elim (Bool-cases (starts_with v4_in_v6 ip)) [
  | inl m ↦
      let e = starts_with-drop v4_in_v6 ip m in
      let short : length (drop 12 ip) ≡ 4 = omega (arith, length-drop 12 ip) in
      ap (λ (s : Bytes). read_ip (write_ip s)) e
      ∙ ap read_ip (write_mapped (drop 12 ip) short)
      ∙ read_dotted (drop 12 ip) (All-drop IsByte 12 ip h) short
      ∙ sym e
  | inr m ↦ ap read_ip (write_long ip l m) ∙ read_colons ip h l
]

write_host :
    (ip : Bytes) (c : ℕ)
    → is_digit c ≡ false
    → (b'.' == c) ≡ false
    → (b':' == c) ≡ false
    → has c (write_ip ip) ≡ false
unfolding write_ip
write_host ip c d p q = elim (Bool-cases (is_nil (to4 ip))) [
  | inl e ↦ rw e (has-fields b':' c ip d q)
  | inr e ↦ rw e (has-fields b'.' c (to4 ip) d p)
]

pub plain-IpTextLaws : IpTextLaws plain
plain-IpTextLaws = record {
  parse_length = read_ip-length;
  parse_bytes = read_ip_bytes;
  parse_string4 = λ ip h l. ap read_ip (write_short ip l) ∙ read_dotted ip h l;
  parse_string16 = read_write16;
  string_mapped = λ ip l. write_mapped ip l ∙ sym (write_short ip l);
  string_host = λ ip. record {
    no_open = write_host ip b'[' refl refl refl;
    no_close = write_host ip b']' refl refl refl;
  };
}
