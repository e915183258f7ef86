-- ===== src/Network/Socket/Parse.antt =====
-- readParse on a buffer against the decoding of the bytes that the buffer holds.
pub mod Loop
pub mod Receive
use integration_server.Prelude.{
  ℕ, zero, suc, ◌+◌, ◌-◌, ◌*◌, ◌%◌, ◌^◌, ◌≤◌, ◌<◌, ◌≡◌, refl, sym, ap, subst, ◌∙◌, ◌⊎◌, inl, inr,
  Bool, true, false, List, [], ◌∷◌, ◌++◌, Option, none, some, length, length-append, get_or, take,
  drop, ltb, ◌==◌, if◌then◌else◌, arith, Bool-cases, ◌&&◌, leb,
}
use integration_server.Network.Packet.{
  MsgHead, MsgBuf, size, packet_head_size, packet_max_size, dynamic_buff_base_size,
}
use integration_server.Network.Buffer.{
  Buffer, bytes_at, get_read_size, get_write_size, add_read_len, write_bytes, refit_buffer,
}
use integration_server.Network.Buffer.Contents.{
  IsBuffer, contents, length-bytes_at, bytes_at_cong, drop-bytes_at, bytes_at-add,
  get_read_size_lem, get_write_size_lem, contents-add_read_len, contents-write_bytes,
  contents-refit_buffer,
}
use integration_server.Network.Socket.{
  TcpSocket, IoCall, on_new_msg, has_zip, first_index, next_index, read_head, Round, stop, broken,
  next, deliver, check_index, parse_packet, parse_one, parse_loop, refit, read_parse,
}
use integration_server.Network.Socket.Decode.{
  Decoded, more, bad, got, head_of, decode_index, decode_head, decode_one, Decoding, prepend,
  decode, decode_all,
}
use integration_server.Network.Socket.Decode.Chunks.{
  decode_one-Decides, decode-suc-more, decode-suc-bad, decode-suc-got, decode-fuel, length-drop,
}

get_or-bytes_at :
    (mem : ℕ → ℕ) (pos n i : ℕ) → i < n → get_or (bytes_at mem pos n) i 0 ≡ mem (pos + i)
unfolding bytes_at
get_or-bytes_at mem pos zero i h = absurd (omega (arith, h))
get_or-bytes_at mem pos (suc n) zero h = ap mem same
  where
    same : pos ≡ pos + 0
    same = omega arith
get_or-bytes_at mem pos (suc n) (suc i) h =
    get_or-bytes_at mem (pos + 1) n i (omega (arith, h)) ∙ ap mem same
  where
    same : pos + 1 + i ≡ pos + suc i
    same = omega arith

take-bytes_at :
    (mem : ℕ → ℕ) (pos n m : ℕ) → m ≤ n → take m (bytes_at mem pos n) ≡ bytes_at mem pos m
unfolding bytes_at
take-bytes_at mem pos n zero h = refl
take-bytes_at mem pos zero (suc m) h = absurd (omega (arith, h))
take-bytes_at mem pos (suc n) (suc m) h =
    ap (λ (xs : List ℕ). mem pos ∷ xs) (take-bytes_at mem (pos + 1) n m (omega (arith, h)))

head_of-bytes_at :
    (mem : ℕ → ℕ) (pos n : ℕ) → 6 ≤ n → head_of (bytes_at mem pos n) ≡ read_head mem pos
unfolding read_head
head_of-bytes_at mem pos n h =
    rw
      (
        get_or-bytes_at mem pos n 0 (omega (arith, h)),
        get_or-bytes_at mem pos n 1 (omega (arith, h)),
        get_or-bytes_at mem pos n 2 (omega (arith, h)),
        get_or-bytes_at mem pos n 3 (omega (arith, h)),
        get_or-bytes_at mem pos n 4 (omega (arith, h)),
        get_or-bytes_at mem pos n 5 (omega (arith, h)),
      )
      (ap
        (λ (p : ℕ). record {
          cmd = mem p + 256 * mem (pos + 1);
          len = mem (pos + 2) + 256 * mem (pos + 3);
          index = mem (pos + 4);
          flag = mem (pos + 5);
        })
        same)
  where
    same : pos + 0 ≡ pos
    same = omega arith

body-bytes_at :
    (mem : ℕ → ℕ) (pos n len : ℕ)
    → 6 + len ≤ n
    → take len (drop 6 (bytes_at mem pos n)) ≡ bytes_at mem (pos + 6) len
body-bytes_at mem pos n len h =
    ap (λ (xs : List ℕ). take len (drop 6 xs))
      (bytes_at_cong mem {p = pos} {q = pos} {m = n} {n = 6 + (n - 6)} refl (omega (arith, h)))
    ∙ ap (λ (xs : List ℕ). take len xs) (drop-bytes_at mem pos 6 (n - 6))
    ∙ take-bytes_at mem (pos + 6) (n - 6) len (omega (arith, h))

-- A decision, as a round of the loop.
unfoldable pub round_of : TcpSocket → Decoded → Round
round_of s more = stop
round_of s (bad i) = broken (record s { msg_index = i })
round_of s (got cmd buf i) = deliver cmd buf i s

check_index_lem :
    (head : MsgHead) (buf : MsgBuf) (index : ℕ) (s : TcpSocket)
    → check_index head buf index s ≡ round_of s (decode_index head buf index)
unfolding check_index decode_index round_of
check_index_lem head buf index s = elim (Bool-cases (index == 0)) [
  | inl e ↦ rw e refl
  | inr e ↦ elim (Bool-cases (head.index == index)) [
    | inl same ↦ rw (e, same) refl
    | inr other ↦ rw (e, other) refl
  ]
]

parse_packet_lem :
    (head : MsgHead) (s : TcpSocket)
    → IsBuffer s.recv_buffer
    → parse_packet head s
      ≡ round_of s (
          decode_head head
            (length (contents s.recv_buffer))
            (take head.len (drop 6 (contents s.recv_buffer)))
            s.msg_index)
unfolding parse_packet decode_head round_of
parse_packet_lem head s w =
    let b = s.recv_buffer in
    let n = b.rear_index - b.cur_index in
    let total : length (contents b) ≡ n = length-bytes_at b.buffer b.cur_index n in
    elim (Bool-cases (ltb packet_max_size (6 + head.len))) [
      | inl big ↦ rw big refl
      | inr fits ↦ elim (Bool-cases (ltb n (6 + head.len))) [
        | inl short ↦ rw (fits, total, get_read_size_lem b w, short) refl
        | inr there ↦
            rw (fits, total, get_read_size_lem b w, there)
              (rw (body-bytes_at b.buffer b.cur_index n head.len (ground (arith, there)))
                (check_index_lem head _ (first_index s.msg_index head.index) s))
      ]
    ]

pub parse_one_lem :
    (s : TcpSocket)
    → IsBuffer s.recv_buffer
    → parse_one s ≡ round_of s (decode_one s.msg_index (contents s.recv_buffer))
unfolding parse_one decode_one round_of
parse_one_lem s w =
    let b = s.recv_buffer in
    let n = b.rear_index - b.cur_index in
    let total : length (contents b) ≡ n = length-bytes_at b.buffer b.cur_index n in
    elim (Bool-cases (ltb n 6)) [
      | inl e ↦ rw (total, get_read_size_lem b w, e) refl
      | inr e ↦
          (let some_head : ltb (get_read_size b) 6 ≡ false =
              ground (arith, e, get_read_size_lem b w) in
            let some_head' : ltb (length (contents b)) 6 ≡ false = ground (arith, e, total) in
            rw (some_head, some_head')
              (parse_packet_lem (read_head b.buffer b.cur_index) s w
                ∙ ap
                    (λ g. round_of s (
                      decode_head g (length (contents b)) (take g.len (drop 6 (contents b)))
                        s.msg_index))
                    (sym (head_of-bytes_at b.buffer b.cur_index n (ground (arith, e))))))
    ]
