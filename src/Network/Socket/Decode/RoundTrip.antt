-- ===== src/Network/Socket/Decode/RoundTrip.antt =====
-- The packets that `write` puts in a buffer, decoded again.
use integration_server.Prelude.{
  ℕ, ◌+◌, ◌*◌, ◌/◌, ◌%◌, ◌^◌, ◌≤◌, ◌<◌, ◌≡◌, refl, sym, ap, ◌∙◌, inl, inr, Bool, true, false, List,
  [], ◌∷◌, ◌++◌, length, length-append, append_nil, take, drop, ltb, ◌==◌, if◌then◌else◌, arith,
  Bool-cases, All,
}
use integration_server.Network.Packet.{
  MsgHead, MsgBuf, size, packet_max_size, packet_body_max_size, head_bytes, packet_flag_zip,
}
use integration_server.Network.Socket.{IoCall, on_new_msg, has_zip, first_index, next_index, packet}
use integration_server.Network.Socket.Decode.{
  got, head_of, decode_index, decode_head, decode_one, prepend, decode, decode_all,
}
use integration_server.Network.Socket.Decode.Chunks.{Settled, decode_one-Decides, decode_all-got}

-- What fits in a packet.
abbrev pub Sendable : ℕ → MsgBuf → Type 0
Sendable cmd buf = (cmd < 2 ^ 16) × (size buf ≤ packet_body_max_size)

-- The index after a packet.
abbrev pub index_after : ℕ → ℕ
index_after index = if index == 0 then 0 else next_index index

two_bytes : (n : ℕ) → n < 2 ^ 16 → n % 256 + 256 * (n / 256 % 256) ≡ n
two_bytes n h = omega (arith, h)

flag_of : MsgBuf → ℕ
flag_of buf = if buf.is_compress then packet_flag_zip else 0

has_zip-flag_of : (buf : MsgBuf) → has_zip (flag_of buf % 256) ≡ buf.is_compress
unfolding has_zip flag_of
has_zip-flag_of buf = elim (Bool-cases buf.is_compress) [ inl e ↦ rw e refl | inr e ↦ rw e refl ]

take-length : {A : Type 0} (xs ys : List A) → take (length xs) (xs ++ ys) ≡ xs
take-length [] ys = refl
take-length (x ∷ xs) ys = ap (λ zs. x ∷ zs) (take-length xs ys)

drop-length : {A : Type 0} (xs : List A) → drop (length xs) xs ≡ []
drop-length [] = refl
drop-length (x ∷ xs) = drop-length xs

length-packet : (cmd index : ℕ) (buf : MsgBuf) → length (packet cmd index buf) ≡ 6 + size buf
unfolding packet head_bytes
length-packet cmd index buf = omega arith

first_index_same : (index : ℕ) → first_index index index ≡ index
unfolding first_index
first_index_same index = ground arith

decode_index_same :
    (head : MsgHead) (buf : MsgBuf) (index : ℕ)
    → head.index ≡ index
    → decode_index head buf index ≡ got head.cmd buf (index_after index)
unfolding decode_index
decode_index_same head buf index e = ground (arith, e)

decode_head-packet :
    (head : MsgHead) (total index : ℕ) (body : List ℕ) (buf : MsgBuf)
    → size buf ≤ packet_body_max_size
    → 6 + size buf ≤ total
    → head.len ≡ size buf
    → head.index ≡ index
    → has_zip head.flag ≡ buf.is_compress
    → body ≡ buf.bytes
    → decode_head head total body index ≡ got head.cmd buf (index_after index)
unfolding decode_head
decode_head-packet head total index body buf small room e_len e_index e_zip e_body =
    let fits : ltb packet_max_size (6 + head.len) ≡ false = ground (arith, small, e_len) in
    let there : ltb total (6 + head.len) ≡ false = ground (arith, room, e_len) in
    let whole : record { bytes = body; is_compress = has_zip head.flag } ≡ buf =
      ap (λ (xs : List ℕ). record { bytes = xs; is_compress = has_zip head.flag }) e_body
      ∙ ap {A = Bool} {B = MsgBuf} (λ z. record { bytes = buf.bytes; is_compress = z }) e_zip in
    rw (fits, there)
      (ap (λ b. decode_index head b (first_index index head.index)) whole
        ∙ ap (λ (i : ℕ). decode_index head buf i)
            (ap (λ (i : ℕ). first_index index i) e_index ∙ first_index_same index)
        ∙ decode_index_same head buf index e_index)

pub decode_one-packet :
    (cmd index : ℕ) (buf : MsgBuf) (ys : List ℕ)
    → Sendable cmd buf
    → index < 256
    → decode_one index (packet cmd index buf ++ ys) ≡ got cmd buf (index_after index)
unfolding decode_one packet head_bytes flag_of
decode_one-packet cmd index buf ys (hc, hs) hi =
    let bytes = packet cmd index buf ++ ys in
    let long : ltb (length bytes) 6 ≡ false = ground arith in
    let len : (head_of bytes).len ≡ size buf = two_bytes (size buf) (omega (arith, hs)) in
    let body : take (head_of bytes).len (buf.bytes ++ ys) ≡ buf.bytes =
      ap (λ (n : ℕ). take n (buf.bytes ++ ys)) len ∙ take-length buf.bytes ys in
    rw long (
      decode_head-packet (head_of bytes) (length bytes) index
        (take (head_of bytes).len (buf.bytes ++ ys)) buf hs
        (omega (arith, length-append buf.bytes ys)) len (omega (arith, hi)) (has_zip-flag_of buf)
        body
      ∙ ap (λ (c : ℕ). got c buf (index_after index)) (two_bytes cmd hc))

-- A sequence of packets, each with the index that the receiver expects.
unfoldable pub packets : ℕ → List (ℕ × MsgBuf) → List ℕ
packets index [] = []
packets index ((cmd, buf) ∷ ms) = packet cmd index buf ++ packets (index_after index) ms

abbrev pub delivered : List (ℕ × MsgBuf) → List IoCall
delivered [] = []
delivered ((cmd, buf) ∷ ms) = on_new_msg cmd buf ∷ delivered ms

unfoldable pub last_index : ℕ → List (ℕ × MsgBuf) → ℕ
last_index index [] = index
last_index index (m ∷ ms) = last_index (index_after index) ms

index_after_small : (index : ℕ) → index < 255 → index_after index < 255
unfolding next_index
index_after_small index h = ground (arith, h)

Settled-packet :
    (cmd index : ℕ) (buf : MsgBuf)
    → decode_one index (packet cmd index buf) ≡ got cmd buf (index_after index)
    → Settled (packet cmd index buf)
Settled-packet cmd index buf e = elim (decode_one-Decides index (packet cmd index buf)) [
  | inl h ↦ absurd (cc (e, h))
  | inr (inl (i, h, s)) ↦ s
  | inr (inr (c, b, i, h, room, s)) ↦ s
]

-- Packets in the layout that write gives them, with commands below 2^16, bodies of at most 65529
-- bytes and the indices that a receiver starting at an index below 255 expects, are decoded to the
-- same messages in the same order, with nothing left over.
pub decode_all-packets :
    (index : ℕ) (ms : List (ℕ × MsgBuf))
    → index < 255
    → All (λ m. Sendable m.0 m.1) ms
    → decode_all index (packets index ms)
      ≡ record { ok = true; calls = delivered ms; rest = []; index = last_index index ms }
unfolding packets last_index
decode_all-packets index [] hi sendable = unfold decode decode_one in refl
decode_all-packets index ((cmd, buf) ∷ ms) hi (here, later) =
    let xs = packet cmd index buf in
    let e : decode_one index xs ≡ got cmd buf (index_after index) =
      ap (λ zs. decode_one index zs) (sym (append_nil xs))
      ∙ decode_one-packet cmd index buf [] here (omega (arith, hi)) in
    let done : drop (6 + size buf) xs ≡ [] =
      ap (λ (n : ℕ). drop n xs) (sym (length-packet cmd index buf)) ∙ drop-length xs in
    decode_all-got index cmd (index_after index) buf xs (packets (index_after index) ms) e
      (omega (arith, length-packet cmd index buf)) (Settled-packet cmd index buf e)
    ∙ ap
        (λ zs.
          prepend (on_new_msg cmd buf ∷ [])
            (decode_all (index_after index) (zs ++ packets (index_after index) ms)))
        done
    ∙ ap (λ d. prepend (on_new_msg cmd buf ∷ []) d)
        (decode_all-packets (index_after index) ms (index_after_small index hi) later)
