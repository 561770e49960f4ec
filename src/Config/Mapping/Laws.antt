-- ===== src/Config/Mapping/Laws.antt =====
-- About takeLastPort, takeLastHost and takeLastIPv6Host of config.go, and strings.Split.
use wirez.Config.Mapping.{
  split, cut, take_last_port, take_last_host, take_last_ipv6_host, bracketed,
}
use wirez.Net.Decimal.{itoa, parse_uint-itoa, has-itoa}
use wirez.Net.HostPort.{parse_port, port_max}
use wirez.Net.HostPort.Laws.{drop_two}
use wirez.Net.Ip.{is_nil}
use wirez.Net.IpText.{IpText}
use wirez.Prelude.{
  ℕ, zero, suc, ◌+◌, ◌-◌, ◌<◌, ◌≤◌, ◌≡◌, refl, sym, ap, ◌∙◌, inl, inr, true, false, some, [], ◌∷◌,
  ◌++◌, append_assoc, arith, Bytes, length, length-append, take, drop, take-length, drop-suc-length,
  get_or, has, has-append, last_index, last_index_absent, last_index-append, ==_iff, ◌==◌,
  if◌then◌else◌, Bool-cases,
}
use wirez.Throw.{ok}

-- A host as it is written in a mapping.
abbrev pub spell : Bytes → Bytes
spell host = if has b':' host then b'[' ∷ (host ++ (b']' ∷ [])) else host

-- What may stand in a mapping: no bracket, no slash, and a colon only in an address literal.
pub record IsMappable (t : IpText) (host : Bytes) : Type 0 where
  pub no_open : has b'[' host ≡ false
  pub no_close : has b']' host ≡ false
  pub no_slash : has b'/' host ≡ false
  pub literal : has b':' host ≡ true → is_nil (t.parse_ip host) ≡ false

pub split_absent : (c : ℕ) (xs : Bytes) → has c xs ≡ false → split c xs ≡ xs ∷ []
unfolding split
split_absent c [] h = refl
split_absent c (x ∷ xs) h = elim (Bool-cases (x == c)) [
  | inl e ↦ absurd (ground arith)
  | inr e ↦ rw (e, split_absent c xs (ground arith)) refl
]

pub split-append :
    (c : ℕ) (xs ys : Bytes) → has c xs ≡ false → split c (xs ++ c ∷ ys) ≡ xs ∷ split c ys
unfolding split
split-append c [] ys h = rw ((==_iff c c).1 refl) refl
split-append c (x ∷ xs) ys h = elim (Bool-cases (x == c)) [
  | inl e ↦ absurd (ground arith)
  | inr e ↦ rw (e, split-append c xs ys (ground arith)) refl
]

-- Cutting at the last colon: what is behind it has none.
cut-append :
    (s h : Bytes)
    → has b':' h ≡ false
    → cut (s ++ b':' ∷ h) (last_index b':' (s ++ b':' ∷ h)) ≡ (h, s)
cut-append s h n =
    rw (last_index-append b':' s h n, drop-suc-length s b':' h)
      (ap (λ (r : Bytes). (h, r)) (rest s))
  where
    rest : (s : Bytes) → (if length s == 0 then [] else take (length s) (s ++ b':' ∷ h)) ≡ s
    rest [] = refl
    rest (x ∷ xs) = ground (arith, take-length xs (b':' ∷ h))

pub take_last_port-append :
    (s : Bytes) (port : ℕ)
    → port ≤ port_max
    → take_last_port (s ++ b':' ∷ itoa port) ≡ ok (itoa port, s)
unfolding take_last_port parse_port
take_last_port-append s port le =
    rw (cut-append s (itoa port) (has-itoa b':' port refl), parse_uint-itoa port_max port le) refl

get_or-has : (c i : ℕ) (xs : Bytes) → 0 < c → has c xs ≡ false → (get_or xs i 0 == c) ≡ false
get_or-has c i [] p h = ground arith
get_or-has c zero (x ∷ xs) p h = ground arith
get_or-has c (suc i) (x ∷ xs) p h = get_or-has c i xs p (ground arith)

get_or-append : (xs ys : Bytes) (i : ℕ) → get_or (xs ++ ys) (length xs + i) 0 ≡ get_or ys i 0
get_or-append [] ys i =
    let n : length {A = ℕ} [] + i ≡ i = omega arith in ap (λ (k : ℕ). get_or ys k 0) n
get_or-append (x ∷ xs) ys i =
    let n : length (x ∷ xs) + i ≡ suc (length xs + i) = omega arith in
    ap (λ (k : ℕ). get_or (x ∷ (xs ++ ys)) k 0) n ∙ get_or-append xs ys i

-- The last byte of a text is that of its end.
last_byte :
    (s ys : Bytes) (y : ℕ)
    → get_or (s ++ y ∷ ys) (length (s ++ y ∷ ys) - 1) 0 ≡ get_or (y ∷ ys) (length ys) 0
last_byte s ys y =
    let n : length (s ++ y ∷ ys) - 1 ≡ length s + length ys =
      omega (arith, length-append s (y ∷ ys)) in
    ap (λ (k : ℕ). get_or (s ++ y ∷ ys) k 0) n ∙ get_or-append s (y ∷ ys) (length ys)

take_init : (xs : Bytes) (c : ℕ) → take (length (xs ++ c ∷ []) - 1) (xs ++ c ∷ []) ≡ xs
take_init xs c =
    let n : length (xs ++ c ∷ []) - 1 ≡ length xs = omega (arith, length-append xs (c ∷ [])) in
    ap (λ (k : ℕ). take k (xs ++ c ∷ [])) n ∙ take-length xs (c ∷ [])

last_open :
    (c : ℕ) (h : Bytes)
    → 0 < c
    → has c h ≡ false
    → (c == b':') ≡ false
    → (get_or (b':' ∷ h) (length h) 0 == c) ≡ false
last_open c [] p n d = ground arith
last_open c (x ∷ xs) p n d = get_or-has c (length xs) (x ∷ xs) p n

module _ (t : IpText) where
  take_last_host_lem :
      (xs : Bytes)
      → take_last_host t xs ≡ (
          if get_or xs (length xs - 1) 0 == b']'
          then take_last_ipv6_host t xs
          else ok (cut xs (last_index b':' xs)))
  unfolding take_last_host last_index
  take_last_host_lem [] = refl
  take_last_host_lem (x ∷ xs) =
      let n : length xs ≡ length (x ∷ xs) - 1 = omega arith in
      ap
        (λ (k : ℕ).
          if get_or (x ∷ xs) k 0 == b']'
          then take_last_ipv6_host t (x ∷ xs)
          else ok (cut (x ∷ xs) (last_index b':' (x ∷ xs))))
        n

  -- A host with no colon, behind one or alone.
  plain_behind :
      (s h : Bytes)
      → IsMappable t h
      → has b':' h ≡ false
      → take_last_host t (s ++ b':' ∷ h) ≡ ok (h, s)
  plain_behind s h m n =
      take_last_host_lem (s ++ b':' ∷ h)
      ∙ rw (last_byte s h b':', last_open b']' h (omega arith) m.no_close refl, cut-append s h n)
          refl

  plain_alone : (h : Bytes) → IsMappable t h → has b':' h ≡ false → take_last_host t h ≡ ok (h, [])
  plain_alone h m n =
      take_last_host_lem h
      ∙ rw (get_or-has b']' (length h - 1) h (omega arith) m.no_close, last_index_absent b':' h n)
          refl

  -- Which brackets are found, and what is then left.
  closed_at :
      (input h : Bytes)
      → get_or input (length input - 1) 0 ≡ b']'
      → take_last_host t input ≡ bracketed t input (last_index b'[' input)
  unfolding take_last_ipv6_host
  closed_at input h last = take_last_host_lem input ∙ rw last refl

  no_open_in : (h : Bytes) → IsMappable t h → has b'[' (h ++ b']' ∷ []) ≡ false
  no_open_in h m = rw (has-append b'[' h (b']' ∷ []), m.no_open) refl

  -- A literal in brackets, behind a colon or alone.
  bracketed_behind :
      (s h : Bytes)
      → IsMappable t h
      → has b':' h ≡ true
      → take_last_host t (s ++ b':' ∷ b'[' ∷ (h ++ b']' ∷ [])) ≡ ok (h, s)
  bracketed_behind s h m n =
      let input = s ++ b':' ∷ b'[' ∷ (h ++ b']' ∷ []) in
      let whole = sym (append_assoc s (b':' ∷ b'[' ∷ h) (b']' ∷ [])) in
      let opened : last_index b'[' input ≡ some (suc (length s)) =
        ap (last_index b'[') (sym (append_assoc s (b':' ∷ []) (b'[' ∷ (h ++ b']' ∷ []))))
        ∙ last_index-append b'[' (s ++ b':' ∷ []) (h ++ b']' ∷ []) (no_open_in h m)
        ∙ ap some (length-append s (b':' ∷ []) ∙ omega arith) in
      let last : get_or input (length input - 1) 0 ≡ b']' =
        rw whole (last_byte (s ++ b':' ∷ b'[' ∷ h) [] b']') in
      let colon : get_or input (length s) 0 ≡ b':' =
        let z : length s ≡ length s + 0 = omega arith in
        ap (λ (k : ℕ). get_or input k 0) z ∙ get_or-append s (b':' ∷ b'[' ∷ (h ++ b']' ∷ [])) 0 in
      let inner : drop (suc (suc (length s))) (take (length input - 1) input) ≡ h =
        ap (λ (xs : Bytes). drop (suc (suc (length s))) (take (length xs - 1) xs)) whole
        ∙ ap (drop (suc (suc (length s)))) (take_init (s ++ b':' ∷ b'[' ∷ h) b']')
        ∙ drop_two s b':' b'[' h in
      closed_at input h last
      ∙ rw (opened, colon, inner, m.literal n, take-length s (b':' ∷ b'[' ∷ (h ++ b']' ∷ []))) refl

  bracketed_alone :
      (h : Bytes)
      → IsMappable t h
      → has b':' h ≡ true
      → take_last_host t (b'[' ∷ (h ++ b']' ∷ [])) ≡ ok (h, [])
  bracketed_alone h m n =
      let input : Bytes = b'[' ∷ (h ++ b']' ∷ []) in
      let opened : last_index b'[' input ≡ some 0 =
        last_index-append b'[' [] (h ++ b']' ∷ []) (no_open_in h m) in
      let last : get_or input (length input - 1) 0 ≡ b']' = last_byte (b'[' ∷ h) [] b']' in
      let inner : drop 1 (take (length input - 1) input) ≡ h =
        ap (drop 1) (take_init (b'[' ∷ h) b']') in
      closed_at input h last ∙ rw (opened, inner, m.literal n) refl

  pub take_last_host-behind :
      (s h : Bytes) → IsMappable t h → take_last_host t (s ++ b':' ∷ spell h) ≡ ok (h, s)
  take_last_host-behind s h m = elim (Bool-cases (has b':' h)) [
    | inl c ↦ rw c (bracketed_behind s h m c)
    | inr c ↦ rw c (plain_behind s h m c)
  ]

  pub take_last_host-spell : (h : Bytes) → IsMappable t h → take_last_host t (spell h) ≡ ok (h, [])
  take_last_host-spell h m = elim (Bool-cases (has b':' h)) [
    | inl c ↦ rw c (bracketed_alone h m c)
    | inr c ↦ rw c (plain_alone h m c)
  ]
