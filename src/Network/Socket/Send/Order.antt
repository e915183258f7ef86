-- ===== src/Network/Socket/Send/Order.antt =====
-- The bytes of a socket go out in the order in which they were written.
use integration_server.Prelude.{
  ℕ, zero, suc, ◌+◌, ◌-◌, ◌^◌, ◌≤◌, ◌<◌, ◌≡◌, refl, sym, ap, subst, ◌∙◌, ◌⊎◌, inl, inr, Bool, true,
  false, List, [], ◌∷◌, ◌++◌, none, length, append_assoc, drop, ltb, ◌==◌, arith, Bool-cases,
}
use integration_server.Network.Packet.{
  MsgBuf, size, packet_body_max_size, dynamic_buff_base_size, head_bytes,
}
use integration_server.Network.Buffer.{
  Buffer, get_read_size, get_write_size, add_read_len, write_bytes, refit_buffer, reserve,
}
use integration_server.Network.Buffer.Contents.{
  IsBuffer, contents, length-bytes_at, get_read_size_lem, get_write_size_lem, contents-add_read_len,
  contents-write_bytes, contents-refit_buffer, contents-reserve,
}
use integration_server.Network.Socket.{
  TcpSocket, get_idle_index, send_buffer, set_send_buffer, sent, on_sent, put_packet, write, packet,
  is_need_compress,
}
use integration_server.Network.Socket.Send.{
  concat, CanSend, stream, IsBuffer-send_buffer, flip_cases, do_write-stream,
}

drop_all : {A : Type 0} (xs : List A) (n : ℕ) → length xs ≤ n → drop n xs ≡ []
drop_all [] zero h = refl
drop_all [] (suc n) h = refl
drop_all (x ∷ xs) zero h = absurd (omega (arith, h))
drop_all (x ∷ xs) (suc n) h = drop_all xs n (omega (arith, h))

emptied :
    (b : Buffer)
    → IsBuffer b
    → let b' = refit_buffer (add_read_len (get_read_size b) b) in IsBuffer b' × (contents b' ≡ [])
emptied b w =
    let n = b.rear_index - b.cur_index in
    let (w', left) =
      contents-add_read_len (get_read_size b) b w (omega (arith, get_read_size_lem b w)) in
    let (w'', same, _) = contents-refit_buffer (add_read_len (get_read_size b) b) w' in
    (
      w'',
      same
          ∙ left
          ∙ drop_all (contents b) (get_read_size b)
              (omega (arith, length-bytes_at b.buffer b.cur_index n, get_read_size_lem b w)),
    )

set_other :
    (i : ℕ) (b : Buffer) (s : TcpSocket)
    → i < 2
    → (send_buffer i (set_send_buffer (get_idle_index i) b s) ≡ send_buffer i s)
      × (send_buffer (get_idle_index i) (set_send_buffer (get_idle_index i) b s) ≡ b)
unfolding send_buffer set_send_buffer
set_other i b s h = elim (flip_cases i h) [
  | inl (x, y) ↦ (rw (x, y) refl, rw y refl)
  | inr (x, y) ↦ (rw (x, y) refl, rw y refl)
]

set_here :
    (i : ℕ) (b : Buffer) (s : TcpSocket)
    → i < 2
    → (send_buffer i (set_send_buffer i b s) ≡ b)
      × (send_buffer (get_idle_index i) (set_send_buffer i b s) ≡ send_buffer (get_idle_index i) s)
unfolding send_buffer set_send_buffer
set_here i b s h = elim (flip_cases i h) [
  | inl (x, y) ↦ (rw x refl, rw (x, y) refl)
  | inr (x, y) ↦ (rw x refl, rw (x, y) refl)
]

set-IsBuffer :
    (i : ℕ) (b : Buffer) (s : TcpSocket)
    → CanSend s
    → IsBuffer b
    → IsBuffer (set_send_buffer i b s).send_buffer0 × IsBuffer (set_send_buffer i b s).send_buffer1
unfolding set_send_buffer
set-IsBuffer i b s c w = elim (Bool-cases (i == 0)) [
  | inl e ↦ rw e (w, c.buffer1)
  | inr e ↦ rw e (c.buffer0, w)
]

set-frame :
    (i : ℕ) (b : Buffer) (s : TcpSocket)
    → set_send_buffer i b s ≡ record s {
      send_buffer0 = (set_send_buffer i b s).send_buffer0;
      send_buffer1 = (set_send_buffer i b s).send_buffer1;
    }
unfolding set_send_buffer
set-frame i b s = ground arith

sent-stream : (s : TcpSocket) → CanSend s → CanSend (sent s) × (stream (sent s) ≡ stream s)
unfolding sent send_buffer
sent-stream s c =
    let i = get_idle_index s.idle_index in
    let b = send_buffer i s in
    let (w, none_left) = emptied b (IsBuffer-send_buffer i s c) in
    let b' = refit_buffer (add_read_len (get_read_size b) b) in
    let frame = set-frame i b' s in
    let idle : (sent s).idle_index ≡ s.idle_index = ap (λ x. x.idle_index) frame in
    let kept = set_other s.idle_index b' s c.index in
    (
      record {
        index = omega (arith, idle, c.index);
        buffer0 = (set-IsBuffer i b' s c w).0;
        buffer1 = (set-IsBuffer i b' s c w).1;
        empty = λ _.
            ap contents (ap (λ (k : ℕ). send_buffer (get_idle_index k) (sent s)) idle ∙ kept.1)
            ∙ none_left;
      },
      ap
            (λ (xss : List (List ℕ)).
              concat xss ++ contents (send_buffer (sent s).idle_index (sent s)))
            (ap (λ x. x.sends) frame)
          ∙ ap (λ y. concat s.sends ++ contents y)
              (ap (λ (k : ℕ). send_buffer k (sent s)) idle ∙ kept.0),
    )

-- The handler of a completed async_send, followed by the doWrite that it makes, keeps the send
-- buffers in order and leaves the stream of the socket as it was, whatever length was reported.
pub on_sent-stream :
    (n : ℕ) (s : TcpSocket)
    → CanSend s
    → CanSend (on_sent none n s) × (stream (on_sent none n s) ≡ stream s)
unfolding on_sent
on_sent-stream n s c =
    let (c', e) = sent-stream s c in let (c'', e') = do_write-stream (sent s) c' in (c'', e' ∙ e)

-- The idle buffer with other contents.
put-stream :
    (s : TcpSocket) (b : Buffer) (xs : List ℕ)
    → CanSend s
    → IsBuffer b
    → contents b ≡ contents (send_buffer s.idle_index s) ++ xs
    → CanSend (set_send_buffer s.idle_index b s)
      × (stream (set_send_buffer s.idle_index b s) ≡ stream s ++ xs)
put-stream s b xs c w e =
    let t = set_send_buffer s.idle_index b s in
    let frame = set-frame s.idle_index b s in
    let idle : t.idle_index ≡ s.idle_index = ap (λ x. x.idle_index) frame in
    let kept = set_here s.idle_index b s c.index in
    (
      record {
        index = omega (arith, idle, c.index);
        buffer0 = (set-IsBuffer s.idle_index b s c w).0;
        buffer1 = (set-IsBuffer s.idle_index b s c w).1;
        empty = λ a.
            ap contents (ap (λ (k : ℕ). send_buffer (get_idle_index k) t) idle ∙ kept.1)
            ∙ c.empty (sym (ap (λ x. x.async_writing) frame) ∙ a);
      },
      ap (λ (xss : List (List ℕ)). concat xss ++ contents (send_buffer t.idle_index t))
            (ap (λ x. x.sends) frame)
          ∙ ap (λ y. concat s.sends ++ contents y) (ap (λ (k : ℕ). send_buffer k t) idle ∙ kept.0)
          ∙ ap (λ (zs : List ℕ). concat s.sends ++ zs) e
          ∙ sym (append_assoc (concat s.sends) (contents (send_buffer s.idle_index s)) xs),
    )

length-packet : (cmd index : ℕ) (buf : MsgBuf) → length (packet cmd index buf) ≡ 6 + size buf
unfolding packet head_bytes
length-packet cmd index buf = omega arith

put_packet-stream :
    (cmd : ℕ) (buf : MsgBuf) (s : TcpSocket)
    → CanSend s
    → (send_buffer s.idle_index s).max_size + (6 + size buf) + dynamic_buff_base_size < 2 ^ 32
    → CanSend (put_packet cmd buf s)
      × (stream (put_packet cmd buf s) ≡ stream s ++ packet cmd s.msg_index buf)
unfolding put_packet
put_packet-stream cmd buf s c room =
    let b = send_buffer s.idle_index s in
    let xs = packet cmd s.msg_index buf in
    let (w, same, fits) =
      contents-reserve (6 + size buf) b (IsBuffer-send_buffer s.idle_index s c) room in
    let b' = reserve (6 + size buf) b in
    let enough : ltb (get_write_size b') (6 + size buf) ≡ false =
      ground (arith, fits, get_write_size_lem b' w) in
    let (w', more) =
      contents-write_bytes xs b' w (omega (arith, fits, length-packet cmd s.msg_index buf)) in
    let (c', e) =
      put-stream s (write_bytes xs b') xs c w' (more ∙ ap (λ (zs : List ℕ). zs ++ xs) same) in
    let (c'', e') = do_write-stream (set_send_buffer s.idle_index (write_bytes xs b') s) c' in
    rw enough (c'', e' ∙ e)

write_accepted :
    (cmd : ℕ) (buf : MsgBuf) (z : Bool) (s : TcpSocket)
    → s.close_flag ≡ false
    → size buf ≤ packet_body_max_size
    → write cmd buf z s ≡ put_packet cmd buf s
unfolding write is_need_compress
write_accepted cmd buf z s opened small = ground (arith, opened, small)

-- A write on a socket that is not closing, of a message of at most 65529 bytes, with the two send
-- buffers in order and the idle one below 2^32 bytes after a reserve, appends the packet to the
-- stream of the socket, and keeps the buffers in order. The stream is what was handed to async_send
-- so far, followed by what waits in the idle buffer.
pub write-stream :
    (cmd : ℕ) (buf : MsgBuf) (z : Bool) (s : TcpSocket)
    → CanSend s
    → s.close_flag ≡ false
    → size buf ≤ packet_body_max_size
    → (send_buffer s.idle_index s).max_size + (6 + size buf) + dynamic_buff_base_size < 2 ^ 32
    → CanSend (write cmd buf z s)
      × (stream (write cmd buf z s) ≡ stream s ++ packet cmd s.msg_index buf)
write-stream cmd buf z s c opened small room =
    subst (λ t. CanSend t × (stream t ≡ stream s ++ packet cmd s.msg_index buf))
      (sym (write_accepted cmd buf z s opened small)) (put_packet-stream cmd buf s c room)

-- What is refused leaves the socket as it was.
pub write-refused :
    (cmd : ℕ) (buf : MsgBuf) (z : Bool) (s : TcpSocket)
    → (s.close_flag ≡ true) ⊎ (packet_body_max_size < size buf)
    → write cmd buf z s ≡ s
unfolding write is_need_compress
write-refused cmd buf z s h = ground (arith, h)
