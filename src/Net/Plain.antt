-- ===== src/Net/Plain.antt =====
-- A concrete spelling of addresses, at which the examples are evaluated: an IPv4 address is its
-- four bytes in decimal with dots, any other address its bytes in decimal with colons.
pub mod Laws
use wirez.Net.Decimal.{itoa, parse_uint}
use wirez.Net.Ip.{v4_in_v6, to4, is_nil}
use wirez.Net.IpText.{IpText}
use wirez.Prelude.{
  ℕ, zero, suc, Bool, Option, none, some, [], ◌∷◌, ◌++◌, Bytes, has, index, take, drop,
  if◌then◌else◌,
}

abbrev pub fields : ℕ → Bytes → Bytes
fields sep [] = []
fields sep (b ∷ []) = itoa b
fields sep (b ∷ c ∷ cs) = itoa b ++ (sep ∷ fields sep (c ∷ cs))

-- A wrong field makes the whole text wrong.
abbrev pub cons? : Option ℕ → Option Bytes → Option Bytes
cons? none r = none
cons? (some b) none = none
cons? (some b) (some bs) = some (b ∷ bs)

abbrev pub cut : ℕ → Option ℕ → Bytes → Bytes × Bytes
cut n none s = (s, [])
cut n (some i) s = (take i s, drop (suc i) s)

-- `n` fields and one more.
unfoldable pub read_fields : ℕ → ℕ → Bytes → Option Bytes
unfolding parse_uint index itoa
read_fields sep zero s = cons? (parse_uint 255 s) (some [])
read_fields sep (suc n) s =
    let (field, rest) = cut sep (index sep s) s in
    cons? (parse_uint 255 field) (read_fields sep n rest)

abbrev pub or_nil : Option Bytes → Bytes
or_nil none = []
or_nil (some bs) = bs

abbrev pub mapped : Option Bytes → Bytes
mapped none = []
mapped (some bs) = v4_in_v6 ++ bs

unfoldable pub read_ip : Bytes → Bytes
unfolding read_fields
read_ip s = if has b':' s then or_nil (read_fields b':' 15 s) else mapped (read_fields b'.' 3 s)

unfoldable pub write_ip : Bytes → Bytes
unfolding itoa to4
write_ip ip = if is_nil (to4 ip) then fields b':' ip else fields b'.' (to4 ip)

abbrev pub plain : IpText
plain = record { parse_ip = read_ip; ip_string = write_ip }
