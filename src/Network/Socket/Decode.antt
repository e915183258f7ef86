-- ===== src/Network/Socket/Decode.antt =====
-- The packets of a byte stream: what readParse's loop does, on a list instead of a buffer.
pub mod Chunks
pub mod RoundTrip
use integration_server.Prelude.{
  ℕ, zero, suc, ◌+◌, ◌-◌, ◌*◌, ◌%◌, ◌^◌, ◌≤◌, ◌<◌, ◌≡◌, refl, sym, ap, subst, ◌∙◌, ◌⊎◌, inl, inr,
  Bool, true, false, List, [], ◌∷◌, ◌++◌, Option, none, some, length, length-append, get_or, take,
  drop, ltb, ◌==◌, if◌then◌else◌, arith, Bool-cases, ◌&&◌, leb,
}
use integration_server.Network.Packet.{MsgHead, MsgBuf, size, packet_head_size, packet_max_size}
use integration_server.Network.Socket.{IoCall, on_new_msg, has_zip, first_index, next_index}

pub data Decoded : Type 0 where
  more : Decoded
  bad : ℕ → Decoded
  got : ℕ → MsgBuf → ℕ → Decoded

abbrev pub head_of : List ℕ → MsgHead
head_of bytes = record {
  cmd = get_or bytes 0 0 + 256 * get_or bytes 1 0;
  len = get_or bytes 2 0 + 256 * get_or bytes 3 0;
  index = get_or bytes 4 0;
  flag = get_or bytes 5 0;
}

unfoldable pub decode_index : MsgHead → MsgBuf → ℕ → Decoded
decode_index head buf index =
    if index == 0
    then got head.cmd buf 0
    else if head.index == index
    then got head.cmd buf (next_index index)
    else bad index

-- With the number of bytes there are, and the body.
unfoldable pub decode_head : MsgHead → ℕ → List ℕ → ℕ → Decoded
decode_head head total body index =
    if ltb packet_max_size (packet_head_size + head.len)
    then bad index
    else if ltb total (packet_head_size + head.len)
    then more
    else decode_index head (record { bytes = body; is_compress = has_zip head.flag })
        (first_index index head.index)

unfoldable pub decode_one : ℕ → List ℕ → Decoded
decode_one index bytes =
    if ltb (length bytes) packet_head_size
    then more
    else decode_head (head_of bytes) (length bytes)
        (take (head_of bytes).len (drop packet_head_size bytes)) index

pub record Decoding : Type 0 where
  pub ok : Bool
  pub calls : List IoCall
  pub rest : List ℕ
  pub index : ℕ

abbrev pub prepend : List IoCall → Decoding → Decoding
prepend cs d = record d { calls = cs ++ d.calls }

unfoldable pub decode : ℕ → ℕ → List ℕ → Decoding
decode zero index bytes = record { ok = true; calls = []; rest = bytes; index = index }
decode (suc fuel) index bytes = elim (decode_one index bytes) [
  | more ↦ record { ok = true; calls = []; rest = bytes; index = index }
  | bad i ↦ record { ok = false; calls = []; rest = bytes; index = i }
  | got cmd buf i ↦
      prepend (on_new_msg cmd buf ∷ []) (decode fuel i (drop (packet_head_size + size buf) bytes))
]

-- All packets of the bytes.
abbrev pub decode_all : ℕ → List ℕ → Decoding
decode_all index bytes = decode (length bytes + 1) index bytes
