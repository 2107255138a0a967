-- ===== src/Socks/Header.antt =====
-- `Socks4Header` of socks4_util.hpp: eight packed bytes, read and written in place on a
-- little-endian machine.
pub mod Order
use nycu_np.Prelude.{ℕ, ◌+◌, ◌*◌, ◌/◌, ◌%◌, List, [], ◌∷◌, Option, none, some, Bytes}

abbrev pub socks4_version : ℕ
socks4_version = 0

abbrev pub socks4_cmd_connect : ℕ
socks4_cmd_connect = 1

abbrev pub socks4_cmd_bind : ℕ
socks4_cmd_bind = 2

abbrev pub socks4_reply_granted : ℕ
socks4_reply_granted = 90

abbrev pub socks4_reply_rejected : ℕ
socks4_reply_rejected = 91

pub record Socks4Header : Type 0 where
  pub version : ℕ
  pub command : ℕ
  pub dstport : ℕ
  pub dstaddr : ℕ

-- `*reinterpret_cast<Socks4Header*>(data)`; `none` where there are fewer than eight bytes.
unfoldable pub load : Bytes → Option Socks4Header
load (v ∷ c ∷ p₀ ∷ p₁ ∷ a₀ ∷ a₁ ∷ a₂ ∷ a₃ ∷ rest) = some (record {
  version = v;
  command = c;
  dstport = p₀ + 256 * p₁;
  dstaddr = a₀ + 256 * (a₁ + 256 * (a₂ + 256 * a₃));
})
load _ = none

-- The bytes of a header, `asio::buffer(&hdr, sizeof(Socks4Header))`.
unfoldable pub store : Socks4Header → Bytes
store h =
    h.version
    ∷ h.command
    ∷ h.dstport % 256
    ∷ h.dstport / 256 % 256
    ∷ h.dstaddr % 256
    ∷ h.dstaddr / 256 % 256
    ∷ h.dstaddr / 65536 % 256
    ∷ h.dstaddr / 16777216 % 256
    ∷ []

-- `ntohs` and `htons`, `ntohl` and `htonl`: they reverse the bytes.
unfoldable pub swap16 : ℕ → ℕ
swap16 n = n % 256 * 256 + n / 256 % 256

unfoldable pub swap32 : ℕ → ℕ
swap32 n = n % 256 * 16777216 + n / 256 % 256 * 65536 + n / 65536 % 256 * 256 + n / 16777216 % 256
