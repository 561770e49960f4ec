-- ===== src/Net/IpText.antt =====
-- net.ParseIP and IP.String as an interface: wirez calls both, and relies on no more than the laws
-- below. nil is the empty list, and every other result of ParseIP has 16 bytes.
use wirez.Net.HostPort.Laws.{IsHost}
use wirez.Net.Ip.{v4_in_v6}
use wirez.Prelude.{◌≡◌, ◌⊎◌, [], ◌++◌, Bytes, AreBytes, length}

pub record IpText : Type 0 where
  pub parse_ip : Bytes → Bytes
  pub ip_string : Bytes → Bytes

-- The documented behaviour. An IPv4 address is printed alike in both its forms.
pub record IpTextLaws (t : IpText) : Type 0 where
  pub parse_length : (s : Bytes) → (t.parse_ip s ≡ []) ⊎ (length (t.parse_ip s) ≡ 16)
  pub parse_bytes : (s : Bytes) → AreBytes (t.parse_ip s)
  pub parse_string4 :
      (ip : Bytes) → AreBytes ip → length ip ≡ 4 → t.parse_ip (t.ip_string ip) ≡ v4_in_v6 ++ ip
  pub parse_string16 :
      (ip : Bytes) → AreBytes ip → length ip ≡ 16 → t.parse_ip (t.ip_string ip) ≡ ip
  pub string_mapped : (ip : Bytes) → length ip ≡ 4 → t.ip_string (v4_in_v6 ++ ip) ≡ t.ip_string ip
  pub string_host : (ip : Bytes) → IsHost (t.ip_string ip)
