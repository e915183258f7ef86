-- ===== src/Network/Socket/Send.antt =====
-- The sending side of a socket: two buffers that take turns, and what they send in the end.
pub mod Order
use integration_server.Prelude.{
  ℕ, zero, suc, ◌+◌, ◌-◌, ◌*◌, ◌%◌, ◌^◌, ◌≤◌, ◌<◌, ◌≡◌, refl, sym, ap, subst, ◌∙◌, ◌⊎◌, inl, inr,
  Bool, true, false, List, [], ◌∷◌, ◌++◌, Option, none, some, length, length-append, append_nil,
  append_assoc, drop, ltb, leb, ◌==◌, if◌then◌else◌, arith, Bool-cases,
}
use integration_server.Network.Packet.{
  MsgBuf, size, packet_head_size, packet_body_max_size, dynamic_buff_base_size, head_bytes,
}
use integration_server.Network.Buffer.{
  Buffer, bytes_at, get_read_size, get_write_size, is_read_over, add_read_len, write_bytes,
  refit_buffer, reserve,
}
use integration_server.Network.Buffer.Contents.{
  IsBuffer, contents, length-bytes_at, get_read_size_lem, get_write_size_lem, contents-add_read_len,
  contents-write_bytes, contents-refit_buffer, contents-reserve,
}
use integration_server.Network.Socket.{
  TcpSocket, IoCall, get_idle_index, send_buffer, set_send_buffer, start_send, do_write, sent,
  on_sent, put_packet, write, packet, is_need_compress,
}
use integration_server.Network.Socket.Decode.RoundTrip.{Sendable}

abbrev pub concat : List (List ℕ) → List ℕ
concat [] = []
concat (xs ∷ xss) = xs ++ concat xss

concat-snoc : (xss : List (List ℕ)) (xs : List ℕ) → concat (xss ++ xs ∷ []) ≡ concat xss ++ xs
concat-snoc [] xs = append_nil xs
concat-snoc (ys ∷ xss) xs =
    ap (λ zs. ys ++ zs) (concat-snoc xss xs) ∙ sym (append_assoc ys (concat xss) xs)

-- The other buffer.
abbrev pub other : TcpSocket → Buffer
other s = send_buffer (get_idle_index s.idle_index) s

-- The buffers are in order, and the one that is not idle is empty unless it is being sent.
pub record CanSend (s : TcpSocket) : Type 0 where
  pub index : s.idle_index < 2
  pub buffer0 : IsBuffer s.send_buffer0
  pub buffer1 : IsBuffer s.send_buffer1
  pub empty : s.async_writing ≡ false → contents (other s) ≡ []

-- All bytes that were ever written: those handed to async_send, and those that wait.
abbrev pub stream : TcpSocket → List ℕ
stream s = concat s.sends ++ contents (send_buffer s.idle_index s)

pub IsBuffer-send_buffer : (i : ℕ) (s : TcpSocket) → CanSend s → IsBuffer (send_buffer i s)
unfolding send_buffer
IsBuffer-send_buffer i s c = elim (Bool-cases (i == 0)) [
  | inl e ↦ rw e (c.buffer0)
  | inr e ↦ rw e (c.buffer1)
]

pub flip_small : (i : ℕ) → i < 2 → get_idle_index i < 2
unfolding get_idle_index
flip_small i h = ground (arith, h)

-- One index is the first buffer's, and the other is not.
pub flip_cases :
    (i : ℕ)
    → i < 2
    → (((i == 0) ≡ true) × ((get_idle_index i == 0) ≡ false))
      ⊎ (((i == 0) ≡ false) × ((get_idle_index i == 0) ≡ true))
unfolding get_idle_index
flip_cases i h = ground (arith, h)

start_send-stream :
    (s : TcpSocket)
    → CanSend s
    → s.async_writing ≡ false
    → CanSend (start_send s) × (stream (start_send s) ≡ stream s)
unfolding start_send send_buffer
start_send-stream s c e =
    let b = send_buffer s.idle_index s in
    let w = IsBuffer-send_buffer s.idle_index s c in
    let xs = bytes_at b.buffer b.cur_index (get_read_size b) in
    (
      record {
        index = flip_small s.idle_index c.index;
        buffer0 = c.buffer0;
        buffer1 = c.buffer1;
        empty = λ never. absurd (cc);
      },
      ap (λ (zs : List ℕ). concat (s.sends ++ xs ∷ []) ++ zs) (c.empty e)
          ∙ append_nil (concat (s.sends ++ xs ∷ []))
          ∙ concat-snoc s.sends xs
          ∙ ap (λ (n : ℕ). concat s.sends ++ bytes_at b.buffer b.cur_index n)
              (get_read_size_lem b w),
    )

do_write_busy : (s : TcpSocket) → s.async_writing ≡ true → do_write s ≡ s
unfolding do_write
do_write_busy s a = ground (arith, a)

do_write_start :
    (s : TcpSocket)
    → s.async_writing ≡ false
    → is_read_over (send_buffer s.idle_index s) ≡ false
    → do_write s ≡ start_send s
unfolding do_write
do_write_start s a r = ground (arith, a, r)

do_write_closing :
    (s : TcpSocket)
    → s.async_writing ≡ false
    → is_read_over (send_buffer s.idle_index s) ≡ true
    → s.close_flag ≡ true
    → do_write s ≡ record s { posted_closes = s.posted_closes + 1 }
unfolding do_write
do_write_closing s a r f = ground (arith, a, r, f)

do_write_done :
    (s : TcpSocket)
    → s.async_writing ≡ false
    → is_read_over (send_buffer s.idle_index s) ≡ true
    → s.close_flag ≡ false
    → do_write s ≡ s
unfolding do_write
do_write_done s a r f = ground (arith, a, r, f)

pub do_write-stream :
    (s : TcpSocket) → CanSend s → CanSend (do_write s) × (stream (do_write s) ≡ stream s)
unfolding do_write send_buffer
do_write-stream s c = elim (Bool-cases s.async_writing) [
  | inl a ↦ subst (λ t. CanSend t × (stream t ≡ stream s)) (sym (do_write_busy s a)) (c, refl)
  | inr a ↦ elim (Bool-cases (is_read_over (send_buffer s.idle_index s))) [
    | inr r ↦
        subst (λ t. CanSend t × (stream t ≡ stream s)) (sym (do_write_start s a r))
          (start_send-stream s c a)
    | inl r ↦ elim (Bool-cases s.close_flag) [
      | inl f ↦
          subst (λ t. CanSend t × (stream t ≡ stream s)) (sym (do_write_closing s a r f))
            (
              record { index = c.index; buffer0 = c.buffer0; buffer1 = c.buffer1; empty = c.empty },
              refl,
            )
      | inr f ↦
          subst (λ t. CanSend t × (stream t ≡ stream s)) (sym (do_write_done s a r f)) (c, refl)
    ]
  ]
]
