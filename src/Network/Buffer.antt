-- ===== src/Network/Buffer.antt =====
-- boost_network/buffer.hpp and buffer.cpp: the dynamic buffer. Its memory is a function from
-- positions to bytes, and the writes go through `write_at`. Indices are uint32.
pub mod Contents
use integration_server.Prelude.{
  ℕ, zero, suc, ◌+◌, ◌-◌, ◌*◌, ◌%◌, ◌^◌, Bool, true, false, ◌&&◌, List, [], ◌∷◌, length, get_or,
  ltb, leb, if◌then◌else◌,
}
use integration_server.Network.Packet.{dynamic_buff_base_size, dynamic_buff_expand_times}

pub record Buffer : Type 0 where
  pub max_size : ℕ
  pub rear_index : ℕ
  pub cur_index : ℕ
  pub buffer : ℕ → ℕ

abbrev pub new_buffer : Buffer
new_buffer = record {
  max_size = dynamic_buff_base_size;
  rear_index = 0;
  cur_index = 0;
  buffer = λ i. 0;
}

-- The bytes from a position on.
unfoldable pub bytes_at : (ℕ → ℕ) → ℕ → ℕ → List ℕ
bytes_at mem pos zero = []
bytes_at mem pos (suc n) = mem pos ∷ bytes_at mem (pos + 1) n

-- memcpy to a position.
unfoldable pub write_at : ℕ → List ℕ → (ℕ → ℕ) → ℕ → ℕ
write_at pos bytes mem i =
    if leb pos i && ltb i (pos + length bytes) then get_or bytes (i - pos) 0 else mem i

unfoldable pub get_write_size : Buffer → ℕ
get_write_size b = (b.max_size + 2 ^ 32 - b.rear_index) % 2 ^ 32

unfoldable pub get_read_size : Buffer → ℕ
get_read_size b = (b.rear_index + 2 ^ 32 - b.cur_index) % 2 ^ 32

unfoldable pub is_read_over : Buffer → Bool
is_read_over b = leb b.rear_index b.cur_index

unfoldable pub add_read_len : ℕ → Buffer → Buffer
add_read_len len b = record b { cur_index = (b.cur_index + len) % 2 ^ 32 }

-- Bytes put at getWritePos, and addWirteLen.
unfoldable pub write_bytes : List ℕ → Buffer → Buffer
write_bytes bytes b = record b {
  buffer = write_at b.rear_index bytes b.buffer;
  rear_index = (b.rear_index + length bytes) % 2 ^ 32;
}

-- memmove to the start.
unfoldable pub move_down : ℕ → ℕ → (ℕ → ℕ) → ℕ → ℕ
move_down from diff mem i = if ltb i diff then mem (from + i) else mem i

unfoldable pub refit_buffer : Buffer → Buffer
refit_buffer b = if is_read_over b then record b { cur_index = 0; rear_index = 0 } else record b {
  buffer = move_down b.cur_index (get_read_size b) b.buffer;
  cur_index = 0;
  rear_index = get_read_size b;
}

-- std::vector::resize to a larger size.
unfoldable pub resize : ℕ → (ℕ → ℕ) → ℕ → ℕ
resize old mem i = if ltb i old then mem i else 0

unfoldable pub reserve : ℕ → Buffer → Buffer
reserve size b =
    if ltb (get_write_size b) size
    then record b {
      max_size = (b.max_size + dynamic_buff_base_size * dynamic_buff_expand_times size) % 2 ^ 32;
      buffer = resize b.max_size b.buffer;
    }
    else b
