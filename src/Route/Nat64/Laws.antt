-- ===== src/Route/Nat64/Laws.antt =====
-- About nat64Map and nat64Unmap of connect.go, one after the other.
use Prim.Native.Nat.{bit_and}
use mathlib.Core.Path.{subst}
use wirez.Net.HostPort.{join_host_port, split_host_port}
use wirez.Net.HostPort.Laws.{IsPort, split_host_port-join_host_port}
use wirez.Net.Ip.{
  IpNet, contains, masked_equal, network_number, to4, to16, is_nil, v4_in_v6, starts_with,
  to4_mapped, to16_long,
}
use wirez.Net.IpText.{IpText, IpTextLaws}
use wirez.Prelude.{
  ℕ, zero, suc, ◌≤◌, ◌≡◌, refl, sym, ap, ◌∙◌, inl, inr, Bool-cases, Bool, true, false, ◌&&◌, some,
  [], ◌∷◌, ◌++◌, arith, Bytes, IsByte, AreBytes, All-append, length, length-append, take, drop,
  take-length, drop-length, append_assoc, ◌==◌, ==_iff,
}
use wirez.Route.Nat64.{nat64_unmap, nat64_map, embed, low_bytes, zeros16}
use wirez.Throw.{value, ok, ◌>>=◌}

abbrev pub mask96 : Bytes
mask96 = 255 ∷ 255 ∷ 255 ∷ 255 ∷ 255 ∷ 255 ∷ 255 ∷ 255 ∷ 255 ∷ 255 ∷ 255 ∷ 255 ∷ 0 ∷ 0 ∷ 0 ∷ 0 ∷ []

-- A /96 of IPv6, as net.ParseCIDR returns it: twelve bytes and four zeros, under its mask. The
-- twelve bytes are not those of the IPv4 addresses in IPv6 form.
pub record IsNat64 (p : IpNet) : Type 0 where
  pub head : Bytes
  pub head_length : length head ≡ 12
  pub head_bytes : AreBytes head
  pub ip_is : p.ip ≡ head ++ 0 ∷ 0 ∷ 0 ∷ 0 ∷ []
  pub mask_is : p.mask ≡ mask96
  pub not_v4 : starts_with v4_in_v6 (head ++ 0 ∷ 0 ∷ 0 ∷ 0 ∷ []) ≡ false

-- A byte under an empty mask, found by trying every byte from `top` down.
clears : ℕ → Bool
clears zero = bit_and 0 0 == 0
clears (suc top) = (bit_and (suc top) 0 == 0) && clears top

clears_each : (top b : ℕ) → b ≤ top → clears top ≡ true → (bit_and b 0 == 0) ≡ true
unfolding clears
clears_each zero b le tried = let same : 0 ≡ b = omega arith in rw (sym same) refl
clears_each (suc top) b le tried = elim (Bool-cases (b == suc top)) [
  | inl last ↦ let same : b ≡ suc top = ground arith in rw same (ground arith)
  | inr other ↦ clears_each top b (ground arith) (ground arith)
]

clears_bytes : clears 255 ≡ true
unfolding clears
clears_bytes = refl

bit_and_zero : (b : ℕ) → IsByte b → bit_and b 0 ≡ 0
bit_and_zero b h = (==_iff (bit_and b 0) 0).0 (clears_each 255 b (omega arith) clears_bytes)

masked_equal_refl :
    (a m b c d : Bytes)
    → length m ≡ length a
    → masked_equal (a ++ b) (m ++ c) (a ++ d) ≡ masked_equal b c d
unfolding masked_equal
masked_equal_refl [] [] b c d h = refl
masked_equal_refl [] (x ∷ m) b c d h = absurd (omega arith)
masked_equal_refl (x ∷ a) [] b c d h = absurd (omega arith)
masked_equal_refl (x ∷ a) (y ∷ m) b c d h =
    rw ((==_iff (bit_and x y) (bit_and x y)).1 refl) (masked_equal_refl a m b c d (omega arith))

starts_with-append :
    (p a b c : Bytes) → length p ≡ length a → starts_with p (a ++ b) ≡ starts_with p (a ++ c)
starts_with-append [] a b c h = refl
starts_with-append (x ∷ p) [] b c h = absurd (omega arith)
starts_with-append (x ∷ p) (y ∷ a) b c h = ground (arith, starts_with-append p a b c)

masked_zero :
    (ip : Bytes)
    → length ip ≡ 4
    → AreBytes ip
    → masked_equal (0 ∷ 0 ∷ 0 ∷ 0 ∷ []) (0 ∷ 0 ∷ 0 ∷ 0 ∷ []) ip ≡ true
unfolding masked_equal
masked_zero (a ∷ b ∷ c ∷ d ∷ []) l h =
    rw (bit_and_zero a h.0, bit_and_zero b h.1.0, bit_and_zero c h.1.1.0, bit_and_zero d h.1.1.1.0)
      refl
masked_zero _ l h = absurd (omega arith)

-- Sixteen bytes that do not begin like an IPv4 address are none.
to4_none : (ip : Bytes) → length ip ≡ 16 → starts_with v4_in_v6 ip ≡ false → to4 ip ≡ []
unfolding to4
to4_none ip l h = rw l (rw h refl)

module _ (p : IpNet) (v : IsNat64 p) (ip4 : Bytes) (l : length ip4 ≡ 4) where
  prefix_length : length (v.head ++ 0 ∷ 0 ∷ 0 ∷ 0 ∷ []) ≡ 16
  prefix_length = omega (arith, length-append v.head (0 ∷ 0 ∷ 0 ∷ 0 ∷ []), v.head_length)

  embedded_length : length (v.head ++ ip4) ≡ 16
  embedded_length = omega (arith, length-append v.head ip4, v.head_length)

  take_head : (xs : Bytes) → take 12 (v.head ++ xs) ≡ v.head
  take_head xs =
      subst (λ (n : ℕ). take n (v.head ++ xs) ≡ v.head) v.head_length (take-length v.head xs)

  drop_head : (xs : Bytes) → drop 12 (v.head ++ xs) ≡ xs
  drop_head xs = subst (λ (n : ℕ). drop n (v.head ++ xs) ≡ xs) v.head_length (drop-length v.head xs)

  pub embed-head : embed p ip4 ≡ v.head ++ ip4
  embed-head =
      ap (λ (s : Bytes). take 12 (s ++ zeros16) ++ ip4)
        (ap to16 v.ip_is ∙ to16_long _ prefix_length)
      ∙ ap (λ (s : Bytes). take 12 s ++ ip4) (append_assoc v.head (0 ∷ 0 ∷ 0 ∷ 0 ∷ []) zeros16)
      ∙ ap (λ (s : Bytes). s ++ ip4) (take_head _)

  embedded_not_v4 : to4 (v.head ++ ip4) ≡ []
  embedded_not_v4 = to4_none (v.head ++ ip4) embedded_length (
      starts_with-append v4_in_v6 v.head ip4 (0 ∷ 0 ∷ 0 ∷ 0 ∷ []) (omega (arith, v.head_length))
      ∙ v.not_v4)

  number_is : network_number p ≡ (v.head ++ 0 ∷ 0 ∷ 0 ∷ 0 ∷ [], mask96)
  unfolding network_number
  number_is = rw (v.mask_is, v.ip_is, to4_none _ prefix_length v.not_v4) (rw prefix_length refl)

  -- The prefix contains every IPv4 address that is embedded in it.
  pub contains-embedded : AreBytes ip4 → contains p (v.head ++ ip4) ≡ true
  unfolding contains
  contains-embedded h =
      rw (number_is, embedded_not_v4)
        (masked_equal_refl v.head (take 12 mask96) (0 ∷ 0 ∷ 0 ∷ 0 ∷ []) (0 ∷ 0 ∷ 0 ∷ 0 ∷ []) ip4
            (omega (arith, v.head_length))
          ∙ masked_zero ip4 l h)

  low_bytes-embedded : low_bytes (v.head ++ ip4) ≡ ok ip4
  low_bytes-embedded = rw (embedded_length, drop_head ip4) (ap ok (whole ip4 l))
    where
      whole : (xs : Bytes) → length xs ≡ 4 → take 4 xs ≡ xs
      whole (a ∷ b ∷ c ∷ d ∷ []) e = refl
      whole _ e = absurd (omega arith)

not_nil : (ip : Bytes) → length ip ≡ 4 → is_nil ip ≡ false
not_nil [] l = absurd (omega arith)
not_nil (x ∷ xs) l = refl

module _ (t : IpText) (laws : IpTextLaws t) (p : IpNet) (v : IsNat64 p) (ip4 : Bytes)
    (l : length ip4 ≡ 4) (h : AreBytes ip4) (port : Bytes) (q : IsPort port) where
  open t use {ip_string}

  -- The IPv4 destination, and the one that NAT64 synthesizes for it.
  abbrev pub v4_address : Bytes
  v4_address = join_host_port (ip_string ip4) port

  abbrev pub synthesized : Bytes
  synthesized = join_host_port (ip_string (v.head ++ ip4)) port

  split_v4 : split_host_port v4_address ≡ value (ip_string ip4, port)
  split_v4 = split_host_port-join_host_port (ip_string ip4) port (laws.string_host ip4) q

  split_synthesized : split_host_port synthesized ≡ value (ip_string (v.head ++ ip4), port)
  split_synthesized =
      split_host_port-join_host_port (ip_string (v.head ++ ip4)) port
        (laws.string_host (v.head ++ ip4)) q

  parsed_v4 : to4 (t.parse_ip (ip_string ip4)) ≡ ip4
  parsed_v4 = ap to4 (laws.parse_string4 ip4 h l) ∙ to4_mapped ip4 l

  parsed_synthesized : t.parse_ip (ip_string (v.head ++ ip4)) ≡ v.head ++ ip4
  parsed_synthesized =
      laws.parse_string16 (v.head ++ ip4) (All-append IsByte v.head ip4 v.head_bytes h)
        (embedded_length p v ip4 l)

  -- An IPv4 destination is not unmapped.
  pub nat64_unmap-v4 : nat64_unmap t (some p) v4_address ≡ ok v4_address
  unfolding nat64_unmap
  nat64_unmap-v4 = rw split_v4 (rw parsed_v4 (rw (not_nil ip4 l) refl))

  -- A synthesized destination is unmapped to the IPv4 destination that is embedded in it.
  pub nat64_unmap-synthesized : nat64_unmap t (some p) synthesized ≡ ok v4_address
  unfolding nat64_unmap
  nat64_unmap-synthesized = rw split_synthesized (
      rw parsed_synthesized (
        rw (embedded_not_v4 p v ip4 l, contains-embedded p v ip4 l h, low_bytes-embedded p v ip4 l)
          refl))

  pub nat64_map-v4 : nat64_map t (some p) v4_address ≡ ok synthesized
  unfolding nat64_map
  nat64_map-v4 = rw split_v4 (rw parsed_v4 (rw (not_nil ip4 l, embed-head p v ip4 l) refl))

  -- Mapping an IPv4 destination into the prefix and unmapping the result gives it back.
  pub nat64_unmap-nat64_map :
      (nat64_map t (some p) v4_address >>= nat64_unmap t (some p)) ≡ ok v4_address
  nat64_unmap-nat64_map = rw nat64_map-v4 nat64_unmap-synthesized
