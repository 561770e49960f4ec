-- ===== src/Net/Ip.antt =====
-- net.IP and net.IPNet. An address is its bytes, 4 or 16 of them; the empty list is Go's nil.
use Prim.Native.Nat.{bit_and}
use wirez.Prelude.{
  ◌≡◌, refl, ◌⊎◌, inl, inr, Bool, true, false, ◌&&◌, ◌||◌, List, [], ◌∷◌, ◌++◌, arith, Bytes,
  length, length-drop, drop, ◌==◌, if◌then◌else◌, Bool-cases,
}

-- The first twelve bytes of an IPv4 address in its 16 byte form.
abbrev pub v4_in_v6 : Bytes
v4_in_v6 = 0 ∷ 0 ∷ 0 ∷ 0 ∷ 0 ∷ 0 ∷ 0 ∷ 0 ∷ 0 ∷ 0 ∷ 255 ∷ 255 ∷ []

abbrev pub starts_with : Bytes → Bytes → Bool
starts_with [] s = true
starts_with (p ∷ ps) [] = false
starts_with (p ∷ ps) (c ∷ cs) = p == c && starts_with ps cs

-- IP.To4: the 4 bytes of an IPv4 address in either form, nil for any other.
unfoldable pub to4 : Bytes → Bytes
to4 ip =
    if length ip == 4
    then ip
    else if length ip == 16 && starts_with v4_in_v6 ip
    then drop 12 ip
    else []

-- IP.To16.
unfoldable pub to16 : Bytes → Bytes
to16 ip = if length ip == 4 then v4_in_v6 ++ ip else if length ip == 16 then ip else []

-- `ip == nil`.
abbrev pub is_nil : Bytes → Bool
is_nil [] = true
is_nil (b ∷ bs) = false

-- IP.IsUnspecified: 0.0.0.0 in either form, or ::.
abbrev pub all_zero : Bytes → Bool
all_zero [] = true
all_zero (b ∷ bs) = b == 0 && all_zero bs

unfoldable pub is_unspecified : Bytes → Bool
unfolding to4
is_unspecified ip = (length (to4 ip) == 4 && all_zero (to4 ip)) || (length ip == 16 && all_zero ip)

pub record IpNet : Type 0 where
  pub ip : Bytes
  pub mask : Bytes

-- IPNet.Contains compares the bytes under the mask; a pair of different lengths does not match.
unfoldable pub masked_equal : Bytes → Bytes → Bytes → Bool
masked_equal [] m [] = true
masked_equal (a ∷ as') (m ∷ ms) (b ∷ bs) = bit_and a m == bit_and b m && masked_equal as' ms bs
masked_equal _ _ _ = false

-- The network number with its mask in the same length; nil where the two do not fit.
unfoldable pub network_number : IpNet → Bytes × Bytes
unfolding to4
network_number n =
    let ip : Bytes = if is_nil (to4 n.ip) then n.ip else to4 n.ip in
    if length n.mask == 4 && length ip == 4
    then (ip, n.mask)
    else if length n.mask == 16 && length ip == 4
    then (ip, drop 12 n.mask)
    else if length n.mask == 16 && length ip == 16
    then (ip, n.mask)
    else ([], [])

-- `x := ip.To4(); if x != nil { ip = x }`
abbrev pub shortest : Bytes → Bytes
shortest ip = if is_nil (to4 ip) then ip else to4 ip

unfoldable pub contains : IpNet → Bytes → Bool
unfolding masked_equal network_number to4
contains n ip = let (nn, m) = network_number n in masked_equal nn m (shortest ip)

-- Some network of the list contains the address.
unfoldable pub any_contains : List IpNet → Bytes → Bool
any_contains [] ip = false
any_contains (n ∷ ns) ip = contains n ip || any_contains ns ip

-- Both forms of an address lie in the same networks.
pub contains-to4 :
    (n : IpNet) (ip : Bytes) → length ip ≡ 4 → contains n (v4_in_v6 ++ ip) ≡ contains n ip
unfolding contains
contains-to4 n (a ∷ b ∷ c ∷ d ∷ []) h = refl
contains-to4 n _ h = absurd (omega arith)

pub starts_with-drop : (p s : Bytes) → starts_with p s ≡ true → s ≡ p ++ drop (length p) s
starts_with-drop [] s h = refl
starts_with-drop (x ∷ xs) [] h = cc
starts_with-drop (x ∷ xs) (c ∷ cs) h = ground (arith, starts_with-drop xs cs)

-- An address of 16 bytes is an IPv4 address behind its prefix, or no IPv4 address.
pub to4_long :
    (ip : Bytes)
    → length ip ≡ 16
    → (to4 ip ≡ []) ⊎ ((length (to4 ip) ≡ 4) × (ip ≡ v4_in_v6 ++ to4 ip))
unfolding to4
to4_long ip l = elim (Bool-cases (starts_with v4_in_v6 ip)) [
  | inl m ↦
      inr (rw (l, m) (omega (arith, length-drop 12 ip)), rw (l, m) (starts_with-drop v4_in_v6 ip m))
  | inr m ↦ inl (rw (l, m) refl)
]

pub to4_short : (ip : Bytes) → length ip ≡ 4 → to4 ip ≡ ip
unfolding to4
to4_short ip l = rw l refl

pub to4_mapped : (ip : Bytes) → length ip ≡ 4 → to4 (v4_in_v6 ++ ip) ≡ ip
unfolding to4
to4_mapped (a ∷ b ∷ c ∷ d ∷ []) l = refl
to4_mapped _ l = absurd (omega arith)

pub to16_long : (ip : Bytes) → length ip ≡ 16 → to16 ip ≡ ip
unfolding to16
to16_long ip l = rw l refl
