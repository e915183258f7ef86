-- ===== src/Network/Socket/Parse/Loop.antt =====
-- readParse as a whole.
use integration_server.Prelude.{
  ℕ, zero, suc, ◌+◌, ◌-◌, ◌<◌, ◌≡◌, refl, sym, ap, subst, ◌∙◌, inl, inr, Bool, true, false, List,
  [], ◌∷◌, ◌++◌, Option, some, length, append_nil, append_assoc, drop, arith,
}
use integration_server.Network.Packet.{MsgBuf, size, packet_head_size}
use integration_server.Network.Buffer.{add_read_len}
use integration_server.Network.Buffer.Contents.{
  IsBuffer, contents, length-bytes_at, contents-add_read_len,
}
use integration_server.Network.Socket.{
  TcpSocket, IoCall, on_new_msg, stop, broken, next, deliver, parse_one, parse_loop,
}
use integration_server.Network.Socket.Decode.{Decoding, prepend, decode}
use integration_server.Network.Socket.Decode.Chunks.{
  decode_one-Decides, decode-suc-more, decode-suc-bad, decode-suc-got, length-drop,
}
use integration_server.Network.Socket.Parse.{round_of, parse_one_lem}

-- The socket after a loop that decoded `d` from the bytes of `s`.
pub record Parsed (s : TcpSocket) (d : Decoding) (t : TcpSocket) : Type 0 where
  pub frame :
      t ≡ record s { recv_buffer = t.recv_buffer; msg_index = d.index; calls = s.calls ++ d.calls }
  pub buffer : IsBuffer t.recv_buffer
  pub rest : contents t.recv_buffer ≡ d.rest
  pub size : t.recv_buffer.max_size ≡ s.recv_buffer.max_size
  pub untouched : d.calls ≡ [] → t.recv_buffer.cur_index ≡ s.recv_buffer.cur_index

nothing-Parsed :
    (s : TcpSocket) (ok : Bool) (i : ℕ)
    → IsBuffer s.recv_buffer
    → Parsed s
        (record { ok = ok; calls = []; rest = contents s.recv_buffer; index = i })
        (record s { msg_index = i })
nothing-Parsed s ok i w = record {
  frame =
      ap {A = List IoCall} {B = TcpSocket} (λ cs. record s { msg_index = i; calls = cs })
        (sym (append_nil s.calls));
  buffer = w;
  rest = refl;
  size = refl;
  untouched = λ _. refl;
}

-- What the loop returns, with the count of packets from `n` on.
abbrev pub Loops : TcpSocket → ℕ → Decoding → Option (Bool × ℕ × TcpSocket) → Type 0
Loops s n d r = (t : TcpSocket) × (r ≡ some (d.ok, n + length d.calls, t)) × Parsed s d t

delivered : ℕ → MsgBuf → ℕ → TcpSocket → TcpSocket
delivered cmd buf i s = record s {
  msg_index = i;
  calls = s.calls ++ on_new_msg cmd buf ∷ [];
  recv_buffer = add_read_len (packet_head_size + size buf) s.recv_buffer;
}

parse_loop-stop :
    (fuel n : ℕ) (s : TcpSocket)
    → parse_one s ≡ stop
    → parse_loop (suc fuel) n s ≡ some (true, n, s)
unfolding parse_loop
parse_loop-stop fuel n s e = rw (e, parse_loop) refl

parse_loop_broken :
    (fuel n : ℕ) (s t : TcpSocket)
    → parse_one s ≡ broken t
    → parse_loop (suc fuel) n s ≡ some (false, n, t)
unfolding parse_loop
parse_loop_broken fuel n s t e = rw (e, parse_loop) refl

parse_loop_next :
    (fuel n : ℕ) (s t : TcpSocket)
    → parse_one s ≡ next t
    → parse_loop (suc fuel) n s ≡ parse_loop fuel (n + 1) t
unfolding parse_loop
parse_loop_next fuel n s t e = rw (e, parse_loop) refl

-- A first packet, and the rest of the loop.
next-Loops :
    (s : TcpSocket) (n cmd i : ℕ) (buf : MsgBuf) (d : Decoding) (r : Option (Bool × ℕ × TcpSocket))
    → Loops (delivered cmd buf i s) (n + 1) d r
    → Loops s n (prepend (on_new_msg cmd buf ∷ []) d) r
unfolding delivered add_read_len
next-Loops s n cmd i buf d r (t, e, p) =
    let count : n + 1 + length d.calls ≡ n + length (on_new_msg cmd buf ∷ d.calls) = omega arith in
    (
      t,
      e ∙ ap (λ (k : ℕ). some (d.ok, k, t)) count,
      record {
        frame =
            p.frame
            ∙ ap {A = List IoCall} {B = TcpSocket}
                (λ cs. record s { recv_buffer = t.recv_buffer; msg_index = d.index; calls = cs })
                (append_assoc s.calls (on_new_msg cmd buf ∷ []) d.calls);
        buffer = p.buffer;
        rest = p.rest;
        size = p.size;
        untouched = λ never. absurd (cc);
      },
    )

pub parse_loop-Loops :
    (fuel n : ℕ) (s : TcpSocket)
    → IsBuffer s.recv_buffer
    → length (contents s.recv_buffer) < fuel
    → Loops s n (decode fuel s.msg_index (contents s.recv_buffer)) (parse_loop fuel n s)
unfolding round_of deliver delivered
parse_loop-Loops zero n s w h = absurd (omega (arith, h))
parse_loop-Loops (suc fuel) n s w h =
    let xs = contents s.recv_buffer in
    let round = parse_one_lem s w in
    let same : n ≡ n + 0 = omega arith in
    elim (decode_one-Decides s.msg_index xs) [
      | inl e ↦
          subst (λ d. Loops s n d (parse_loop (suc fuel) n s))
            (sym (decode-suc-more fuel s.msg_index xs e))
            (
              s,
              parse_loop-stop fuel n s (round ∙ ap (round_of s) e)
                  ∙ ap (λ (k : ℕ). some (true, k, s)) same,
              nothing-Parsed s true s.msg_index w,
            )
      | inr (inl (i, e, _)) ↦
          subst (λ d. Loops s n d (parse_loop (suc fuel) n s))
            (sym (decode-suc-bad fuel s.msg_index i xs e))
            (
              record s { msg_index = i },
              parse_loop_broken fuel n s (record s { msg_index = i }) (round ∙ ap (round_of s) e)
                  ∙ ap (λ (k : ℕ). some (false, k, record s { msg_index = i })) same,
              nothing-Parsed s false i w,
            )
      | inr (inr (cmd, buf, i, e, room, _)) ↦
          (let t = delivered cmd buf i s in
            let n' = s.recv_buffer.rear_index - s.recv_buffer.cur_index in
            let total : length xs ≡ n' =
              length-bytes_at s.recv_buffer.buffer s.recv_buffer.cur_index n' in
            let (w', left) =
              contents-add_read_len (6 + size buf) s.recv_buffer w (omega (arith, total, room)) in
            let shorter : length (contents t.recv_buffer) < fuel =
              subst (λ zs. length zs < fuel) (sym left)
                (omega (arith, length-drop (6 + size buf) xs, room, h)) in
            subst (λ d. Loops s n d (parse_loop (suc fuel) n s))
              (sym (decode-suc-got fuel s.msg_index cmd i buf xs e))
              (subst
                (Loops s n
                  (prepend (on_new_msg cmd buf ∷ []) (decode fuel i (drop (6 + size buf) xs))))
                (sym (parse_loop_next fuel n s t (round ∙ ap (round_of s) e)))
                (next-Loops s n cmd i buf (decode fuel i (drop (6 + size buf) xs))
                  (parse_loop fuel (n + 1) t)
                  (subst (λ zs. Loops t (n + 1) (decode fuel i zs) (parse_loop fuel (n + 1) t)) left
                    (parse_loop-Loops fuel (n + 1) t w' shorter)))))
    ]
