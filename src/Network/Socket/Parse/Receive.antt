-- ===== src/Network/Socket/Parse/Receive.antt =====
-- What arrives on a socket, in whatever pieces.
use integration_server.Prelude.{
  ℕ, ◌+◌, ◌-◌, ◌≤◌, ◌<◌, ◌≡◌, refl, sym, ap, subst, ◌∙◌, inl, inr, Bool, true, false, List, [], ◌∷◌,
  ◌++◌, Option, none, some, length, append_assoc, ltb, arith, Bool-cases,
}
use integration_server.Network.Buffer.{
  Buffer, get_read_size, get_write_size, write_bytes, refit_buffer,
}
use integration_server.Network.Buffer.Contents.{
  IsBuffer, contents, length-bytes_at, get_read_size_lem, get_write_size_lem, contents-write_bytes,
  contents-refit_buffer,
}
use integration_server.Network.Socket.{TcpSocket, IoCall, refit, read_parse}
use integration_server.Network.Socket.Decode.{Decoding, prepend, decode, decode_all}
use integration_server.Network.Socket.Decode.Chunks.{decode-fuel}
use integration_server.Network.Socket.Decode.Chunks.{decode_all-append}
use integration_server.Network.Socket.Parse.Loop.{Parsed, parse_loop-Loops}

-- A socket that can receive: its buffer starts at its first position.
pub record CanReceive (s : TcpSocket) : Type 0 where
  pub buffer : IsBuffer s.recv_buffer
  pub refitted : s.recv_buffer.cur_index ≡ 0

-- What a call of readParse leaves: the rest of the bytes in the buffer, and a call for each packet.
pub record Receives (s : TcpSocket) (d : Decoding) (t : TcpSocket) : Type 0 where
  pub frame :
      t ≡ record s { recv_buffer = t.recv_buffer; msg_index = d.index; calls = s.calls ++ d.calls }
  pub ready : CanReceive t
  pub rest : contents t.recv_buffer ≡ d.rest
  pub size : t.recv_buffer.max_size ≡ s.recv_buffer.max_size

max_size-refit_buffer : (b : Buffer) → (refit_buffer b).max_size ≡ b.max_size
unfolding refit_buffer
max_size-refit_buffer b = ground arith

no_member : {A : Type 0} (xs : List A) → ltb 0 (length xs) ≡ false → xs ≡ []
no_member [] h = refl
no_member (x ∷ xs) h = absurd (ground (arith, h))

refit-Receives :
    (s t : TcpSocket) (d : Decoding)
    → s.recv_buffer.cur_index ≡ 0
    → Parsed s d t
    → Receives s d (refit (length d.calls) t)
refit-Receives s t d start p = elim (Bool-cases (ltb 0 (length d.calls))) [
  | inr none_there ↦ rw none_there (record {
    frame = p.frame;
    ready = record {
      buffer = p.buffer;
      refitted = p.untouched (no_member d.calls none_there) ∙ start;
    };
    rest = p.rest;
    size = p.size;
  })
  | inl some_there ↦
      (let (w, same, zero_cur) = contents-refit_buffer t.recv_buffer p.buffer in
        rw some_there (record {
          frame =
              ap {A = TcpSocket} {B = TcpSocket}
                (λ x. record x { recv_buffer = refit_buffer t.recv_buffer }) p.frame;
          ready = record { buffer = w; refitted = zero_cur };
          rest = same ∙ p.rest;
          size = max_size-refit_buffer t.recv_buffer ∙ p.size;
        }))
]

-- The end of readParse.
finish : Option (Bool × ℕ × TcpSocket) → Option (Bool × TcpSocket)
finish none = none
finish (some (ok, recv_count, t)) = some (ok, refit recv_count t)

-- For a socket whose receive buffer is in order and starts at its first position, and bytes that
-- fit in its free space, readParse terminates and returns whether the decoding of the unread and
-- the new bytes meets no error; the socket then has that decoding's calls, index and rest, and its
-- buffer starts at its first position again.
pub read_parse-Receives :
    (bytes : List ℕ) (s : TcpSocket)
    → CanReceive s
    → length bytes ≤ get_write_size s.recv_buffer
    → let d = decode_all s.msg_index (contents s.recv_buffer ++ bytes) in
      (t : TcpSocket) × (read_parse bytes s ≡ some (d.ok, t)) × Receives s d t
unfolding read_parse finish write_bytes
read_parse-Receives bytes s ready room =
    let b = s.recv_buffer in
    let (w, whole) =
      contents-write_bytes bytes b ready.buffer
        (omega (arith, room, get_write_size_lem b ready.buffer)) in
    let s' : TcpSocket = record s { recv_buffer = write_bytes bytes b } in
    let xs = contents s'.recv_buffer in
    let n = s'.recv_buffer.rear_index - s'.recv_buffer.cur_index in
    let total : length xs ≡ n = length-bytes_at s'.recv_buffer.buffer s'.recv_buffer.cur_index n in
    let fuel = get_read_size s'.recv_buffer + 1 in
    let d = decode fuel s.msg_index xs in
    let enough : length xs < fuel = omega (arith, total, get_read_size_lem s'.recv_buffer w) in
    let (t, e, p) = parse_loop-Loops fuel 0 s' w enough in
    let count : 0 + length d.calls ≡ length d.calls = omega arith in
    let same : d ≡ decode_all s.msg_index (contents b ++ bytes) =
      decode-fuel fuel (length xs + 1) s.msg_index xs enough (omega arith)
      ∙ ap (λ ys. decode_all s.msg_index ys) whole in
    let r = refit-Receives s' t d ready.refitted p in
    subst (λ d. (t : TcpSocket) × (read_parse bytes s ≡ some (d.ok, t)) × Receives s d t) same
      (
        refit (length d.calls) t,
        ap finish e ∙ ap (λ (k : ℕ). some (d.ok, refit k t)) count,
        record { frame = r.frame; ready = r.ready; rest = r.rest; size = r.size },
      )

-- Pieces that arrive one after another, each parsed without an error.
pub data Pieces : TcpSocket → List ℕ → TcpSocket → Type 0 where
  last_piece :
      (s t : TcpSocket) (xs : List ℕ)
      → length xs ≤ get_write_size s.recv_buffer
      → read_parse xs s ≡ some (true, t)
      → Pieces s xs t
  more_pieces :
      (s t u : TcpSocket) (xs ys : List ℕ)
      → length xs ≤ get_write_size s.recv_buffer
      → read_parse xs s ≡ some (true, t)
      → Pieces t ys u
      → Pieces s (xs ++ ys) u

parsed_socket : TcpSocket → Option (Bool × TcpSocket) → TcpSocket
parsed_socket s none = s
parsed_socket s (some (ok, t)) = t

parsed_ok : Option (Bool × TcpSocket) → Bool
parsed_ok none = false
parsed_ok (some (ok, t)) = ok

good-Receives :
    (xs : List ℕ) (s t : TcpSocket)
    → CanReceive s
    → length xs ≤ get_write_size s.recv_buffer
    → read_parse xs s ≡ some (true, t)
    → let d = decode_all s.msg_index (contents s.recv_buffer ++ xs) in
      (d.ok ≡ true) × Receives s d t
unfolding parsed_socket parsed_ok
good-Receives xs s t ready room e =
    let (u, f, r) = read_parse-Receives xs s ready room in
    let d = decode_all s.msg_index (contents s.recv_buffer ++ xs) in
    (ap parsed_ok (sym f ∙ e), subst (Receives s d) (ap (parsed_socket s) (sym f ∙ e)) r)

-- When bytes arrive in any number of pieces, each of which fits in the free space and is parsed
-- without an error, the socket has made one onNewMsg call for each packet that decoding the whole
-- stream at once gives, in that order, and its message index and the unread bytes in its buffer are
-- those of that decoding.
pub Pieces-decode_all :
    (s u : TcpSocket) (xs : List ℕ)
    → CanReceive s
    → Pieces s xs u
    → let d = decode_all s.msg_index (contents s.recv_buffer ++ xs) in
      (u.calls ≡ s.calls ++ d.calls) × (u.msg_index ≡ d.index) × (contents u.recv_buffer ≡ d.rest)
Pieces-decode_all s u _ ready (last_piece _ _ xs room e) =
    let (ok, r) = good-Receives xs s u ready room e in
    (ap (λ x. x.calls) r.frame, ap (λ x. x.msg_index) r.frame, r.rest)
Pieces-decode_all s u _ ready (more_pieces _ t _ xs ys room e later) =
    let (ok, r) = good-Receives xs s t ready room e in
    let (calls, index, rest) = Pieces-decode_all t u ys r.ready later in
    let d = decode_all s.msg_index (contents s.recv_buffer ++ xs) in
    let d' = decode_all t.msg_index (contents t.recv_buffer ++ ys) in
    let here : d' ≡ decode_all d.index (d.rest ++ ys) =
      ap (λ (i : ℕ). decode_all i (contents t.recv_buffer ++ ys)) (ap (λ x. x.msg_index) r.frame)
      ∙ ap (λ (zs : List ℕ). decode_all d.index (zs ++ ys)) r.rest in
    let whole : decode_all s.msg_index (contents s.recv_buffer ++ (xs ++ ys)) ≡ prepend d.calls d' =
      ap (λ zs. decode_all s.msg_index zs) (sym (append_assoc (contents s.recv_buffer) xs ys))
      ∙ decode_all-append s.msg_index (contents s.recv_buffer ++ xs) ys ok
      ∙ ap (λ e. prepend d.calls e) (sym here) in
    (
      calls
          ∙ ap (λ (cs : List IoCall). cs ++ d'.calls) (ap (λ x. x.calls) r.frame)
          ∙ append_assoc s.calls d.calls d'.calls
          ∙ ap (λ e. s.calls ++ e.calls) (sym whole),
      index ∙ ap (λ e. e.index) (sym whole),
      rest ∙ ap (λ e. e.rest) (sym whole),
    )
