-- ===== src/Network/Packet.antt =====
-- boost_network/common.hpp and message.hpp: the head of a packet and a message. A packet's head is
-- packed, and its two 16-bit fields are little-endian, as on the machines the server runs on.
use integration_server.Prelude.{ℕ, ◌+◌, ◌-◌, ◌*◌, ◌/◌, ◌%◌, ◌^◌, Bool, List, [], ◌∷◌, length}

pub record MsgHead : Type 0 where
  pub cmd : ℕ
  pub len : ℕ
  pub index : ℕ
  pub flag : ℕ

abbrev pub packet_flag_zip : ℕ
packet_flag_zip = 2

abbrev pub dynamic_buff_base_size : ℕ
dynamic_buff_base_size = 64 * 1024

-- DYNAMIC_BUFF_EXPAND_TIMES, on uint32.
unfoldable pub dynamic_buff_expand_times : ℕ → ℕ
dynamic_buff_expand_times size =
    (size + dynamic_buff_base_size + 2 ^ 32 - 1) % 2 ^ 32 / dynamic_buff_base_size

abbrev pub packet_max_size : ℕ
packet_max_size = 64 * 1024 - 1

abbrev pub packet_head_size : ℕ
packet_head_size = 6

abbrev pub packet_body_max_size : ℕ
packet_body_max_size = packet_max_size - packet_head_size

abbrev pub packet_compress_min_size : ℕ
packet_compress_min_size = 128

-- The bytes of a head in memory.
unfoldable pub head_bytes : MsgHead → List ℕ
head_bytes h =
    h.cmd % 256
    ∷ h.cmd / 256 % 256
    ∷ h.len % 256
    ∷ h.len / 256 % 256
    ∷ h.index % 256
    ∷ h.flag % 256
    ∷ []

-- A message and its bytes.
pub record MsgBuf : Type 0 where
  pub bytes : List ℕ
  pub is_compress : Bool

abbrev pub size : MsgBuf → ℕ
size buf = length buf.bytes
