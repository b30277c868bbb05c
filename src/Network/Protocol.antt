-- ===== src/Network/Protocol.antt =====
-- Src/Network/Protocol.hpp: message types, messages, and the packed headers as bytes.
use with_boost.Common.{ℕ, ◌+◌, ◌*◌, ◌/◌, ◌%◌, ◌^◌, ◌<◌, ◌≡◌, List, [], ◌∷◌, arith}

pub data MessageType : Type 0 where
  login success fail device available ai camera assign meta image tls_handshake : MessageType

-- The value of the enumerator.
unfoldable pub type_code : MessageType → ℕ
type_code login = 0x01
type_code success = 0x02
type_code fail = 0x03
type_code device = 0x04
type_code available = 0x05
type_code ai = 0x06
type_code camera = 0x07
type_code assign = 0x08
type_code meta = 0x09
type_code image = 0x0a
type_code tls_handshake = 0x0b

-- The type is a raw byte: any value may arrive.
pub record Message : Type 0 where
  pub type : ℕ
  pub length : ℕ
  pub payload : List ℕ

-- A `uint32_t` as it lies in memory, the low byte first.
unfoldable pub le32 : ℕ → List ℕ
le32 n = n % 256 ∷ n / 256 % 256 ∷ n / 65536 % 256 ∷ n / 16777216 % 256 ∷ []

unfoldable pub read_le32 : ℕ → ℕ → ℕ → ℕ → ℕ
read_le32 a b c d = a + 256 * b + 65536 * c + 16777216 * d

pub read_le32-le32 :
    (n : ℕ)
    → n < 2 ^ 32
    → read_le32 (n % 256) (n / 256 % 256) (n / 65536 % 256) (n / 16777216 % 256) ≡ n
unfolding read_le32
read_le32-le32 n h = omega arith

-- `sizeof` of the packed headers.
abbrev pub packet_header_size : ℕ
packet_header_size = 5

abbrev pub image_header_size : ℕ
image_header_size = 8
