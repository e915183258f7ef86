-- ===== src/Network/Socket/Decode/Chunks.antt =====
-- Decoding a stream in pieces.
use integration_server.Prelude.{
  ℕ, zero, suc, ◌+◌, ◌-◌, ◌≤◌, ◌<◌, ◌≡◌, refl, sym, ap, subst, ◌∙◌, ◌⊎◌, inl, inr, true, false,
  List, [], ◌∷◌, ◌++◌, length, length-append, get_or, take, drop, ltb, ◌==◌, arith, Bool-cases,
}
use integration_server.Network.Packet.{MsgHead, MsgBuf, size, packet_head_size, packet_max_size}
use integration_server.Network.Socket.{on_new_msg, has_zip, first_index, next_index}
use integration_server.Network.Socket.Decode.{
  more, bad, got, head_of, decode_index, decode_head, decode_one, Decoding, prepend, decode,
  decode_all,
}

pub length-drop : {A : Type 0} (n : ℕ) (xs : List A) → length (drop n xs) ≡ length xs - n
length-drop zero xs = omega arith
length-drop (suc n) [] = omega arith
length-drop (suc n) (x ∷ xs) = omega (arith, length-drop n xs)

length-take : {A : Type 0} (n : ℕ) (xs : List A) → n ≤ length xs → length (take n xs) ≡ n
length-take zero xs h = refl
length-take (suc n) [] h = absurd (omega (arith, h))
length-take (suc n) (x ∷ xs) h = omega (arith, length-take n xs (omega (arith, h)))

pub drop-append :
    {A : Type 0} (n : ℕ) (xs ys : List A) → n ≤ length xs → drop n (xs ++ ys) ≡ drop n xs ++ ys
drop-append zero xs ys h = refl
drop-append (suc n) [] ys h = absurd (omega (arith, h))
drop-append (suc n) (x ∷ xs) ys h = drop-append n xs ys (omega (arith, h))

pub take-append :
    {A : Type 0} (n : ℕ) (xs ys : List A) → n ≤ length xs → take n (xs ++ ys) ≡ take n xs
take-append zero xs ys h = refl
take-append (suc n) [] ys h = absurd (omega (arith, h))
take-append (suc n) (x ∷ xs) ys h = ap (λ zs. x ∷ zs) (take-append n xs ys (omega (arith, h)))

get_or-append : (xs ys : List ℕ) (i d : ℕ) → i < length xs → get_or (xs ++ ys) i d ≡ get_or xs i d
get_or-append [] ys i d h = absurd (omega (arith, h))
get_or-append (x ∷ xs) ys zero d h = refl
get_or-append (x ∷ xs) ys (suc i) d h = get_or-append xs ys i d (omega (arith, h))

head_of-append : (xs ys : List ℕ) → 6 ≤ length xs → head_of (xs ++ ys) ≡ head_of xs
head_of-append xs ys h =
    rw
      (
        get_or-append xs ys 0 0 (omega (arith, h)),
        get_or-append xs ys 1 0 (omega (arith, h)),
        get_or-append xs ys 2 0 (omega (arith, h)),
        get_or-append xs ys 3 0 (omega (arith, h)),
        get_or-append xs ys 4 0 (omega (arith, h)),
        get_or-append xs ys 5 0 (omega (arith, h)),
      )
      refl

-- The head and the packet that it announces are there, or it announces too much.
abbrev pub Settled : List ℕ → Type 0
Settled xs =
    (6 ≤ length xs)
    × ((ltb packet_max_size (6 + (head_of xs).len) ≡ true) ⊎ (6 + (head_of xs).len ≤ length xs))

decode_head-append :
    (head : MsgHead) (xs ys : List ℕ) (index : ℕ)
    → 6 ≤ length xs
    → (ltb packet_max_size (6 + head.len) ≡ true) ⊎ (6 + head.len ≤ length xs)
    → decode_head head (length (xs ++ ys)) (take head.len (drop 6 (xs ++ ys))) index
      ≡ decode_head head (length xs) (take head.len (drop 6 xs)) index
unfolding decode_head
decode_head-append head xs ys index h (inl big) = rw big refl
decode_head-append head xs ys index h (inr there) =
    let body : take head.len (drop 6 (xs ++ ys)) ≡ take head.len (drop 6 xs) =
      ap (λ zs. take head.len zs) (drop-append 6 xs ys h)
      ∙ take-append head.len (drop 6 xs) ys (omega (arith, length-drop 6 xs, there)) in
    let enough : ltb (length xs) (6 + head.len) ≡ false = ground (arith, there) in
    let enough' : ltb (length (xs ++ ys)) (6 + head.len) ≡ false =
      ground (arith, there, length-append xs ys) in
    rw (body, enough, enough') refl

-- A decision, once made, stands whatever follows.
decode_one-append :
    (index : ℕ) (xs ys : List ℕ) → Settled xs → decode_one index (xs ++ ys) ≡ decode_one index xs
unfolding decode_one
decode_one-append index xs ys (h, settled) =
    let there : ltb (length xs) 6 ≡ false = ground (arith, h) in
    let there' : ltb (length (xs ++ ys)) 6 ≡ false = ground (arith, h, length-append xs ys) in
    rw (there, there')
      (ap (λ g. decode_head g (length (xs ++ ys)) (take g.len (drop 6 (xs ++ ys))) index)
          (head_of-append xs ys h)
        ∙ decode_head-append (head_of xs) xs ys index h settled)

decode_index_cases :
    (head : MsgHead) (buf : MsgBuf) (index : ℕ)
    → ((i : ℕ) × (decode_index head buf index ≡ bad i))
      ⊎ ((i : ℕ) × (decode_index head buf index ≡ got head.cmd buf i))
unfolding decode_index
decode_index_cases head buf index = elim (Bool-cases (index == 0)) [
  | inl e ↦ inr (0, rw e refl)
  | inr e ↦ elim (Bool-cases (head.index == index)) [
    | inl same ↦ inr (next_index index, rw (e, same) refl)
    | inr other ↦ inl (index, rw (e, other) refl)
  ]
]

-- What a decision says of the bytes.
abbrev pub Decides : ℕ → List ℕ → Type 0
Decides index xs =
    (decode_one index xs ≡ more)
    ⊎ ((i : ℕ) × (decode_one index xs ≡ bad i) × Settled xs)
    ⊎ ((cmd : ℕ) × (buf : MsgBuf) × (i : ℕ) × (decode_one index xs ≡ got cmd buf i)
        × (packet_head_size + size buf ≤ length xs)
        × Settled xs)

pub decode_one-Decides : (index : ℕ) (xs : List ℕ) → Decides index xs
unfolding decode_one decode_head
decode_one-Decides index xs = elim (Bool-cases (ltb (length xs) 6)) [
  | inl e ↦ inl (rw e refl)
  | inr e ↦ elim (Bool-cases (ltb packet_max_size (6 + (head_of xs).len))) [
    | inl big ↦ inr (inl (index, rw (e, big) refl, (ground (arith, e), inl big)))
    | inr fits ↦ elim (Bool-cases (ltb (length xs) (6 + (head_of xs).len))) [
      | inl short ↦ inl (rw (e, fits, short) refl)
      | inr there ↦
          elim (decode_index_cases (head_of xs)
            (record {
              bytes = take (head_of xs).len (drop 6 xs);
              is_compress = has_zip (head_of xs).flag;
            })
            (first_index index (head_of xs).index)) [
              | inl (i, d) ↦
                  inr (
                    inl
                      (i, rw (e, fits, there) d, (ground (arith, e), inr (ground (arith, there)))))
              | inr (i, d) ↦ inr (
                  inr (
                    (head_of xs).cmd,
                    record {
                      bytes = take (head_of xs).len (drop 6 xs);
                      is_compress = has_zip (head_of xs).flag;
                    },
                    i,
                    rw (e, fits, there) d,
                    body_fits there,
                    (ground (arith, e), inr (ground (arith, there))),
                  ))
            ]
    ]
  ]
]
  where
    body_fits :
        ltb (length xs) (6 + (head_of xs).len) ≡ false
        → 6 + length (take (head_of xs).len (drop 6 xs)) ≤ length xs
    body_fits there =
        let enough : 6 + (head_of xs).len ≤ length xs = ground (arith, there) in
        omega (
          arith,
          enough,
          length-take (head_of xs).len (drop 6 xs) (omega (arith, enough, length-drop 6 xs)),
        )

pub decode-suc-more :
    (f index : ℕ) (xs : List ℕ)
    → decode_one index xs ≡ more
    → decode (suc f) index xs ≡ record { ok = true; calls = []; rest = xs; index = index }
unfolding decode
decode-suc-more f index xs e = rw (e, decode) refl

pub decode-suc-bad :
    (f index i : ℕ) (xs : List ℕ)
    → decode_one index xs ≡ bad i
    → decode (suc f) index xs ≡ record { ok = false; calls = []; rest = xs; index = i }
unfolding decode
decode-suc-bad f index i xs e = rw (e, decode) refl

pub decode-suc-got :
    (f index cmd i : ℕ) (buf : MsgBuf) (xs : List ℕ)
    → decode_one index xs ≡ got cmd buf i
    → decode (suc f) index xs
      ≡ prepend (on_new_msg cmd buf ∷ []) (decode f i (drop (packet_head_size + size buf) xs))
unfolding decode
decode-suc-got f index cmd i buf xs e = rw (e, decode) refl

-- More fuel changes nothing.
pub decode-fuel :
    (f g index : ℕ) (xs : List ℕ)
    → length xs < f
    → length xs < g
    → decode f index xs ≡ decode g index xs
decode-fuel zero g index xs h k = absurd (omega (arith, h))
decode-fuel (suc f) zero index xs h k = absurd (omega (arith, k))
decode-fuel (suc f) (suc g) index xs h k = elim (decode_one-Decides index xs) [
  | inl e ↦ decode-suc-more f index xs e ∙ sym (decode-suc-more g index xs e)
  | inr (inl (i, e, _)) ↦ decode-suc-bad f index i xs e ∙ sym (decode-suc-bad g index i xs e)
  | inr (inr (cmd, buf, i, e, room, _)) ↦
      decode-suc-got f index cmd i buf xs e
      ∙ ap (λ d. prepend (on_new_msg cmd buf ∷ []) d)
          (decode-fuel f g i (drop (6 + size buf) xs)
            (omega (arith, length-drop (6 + size buf) xs, room, h))
            (omega (arith, length-drop (6 + size buf) xs, room, k)))
      ∙ sym (decode-suc-got g index cmd i buf xs e)
]

-- After a good first part, decoding goes on where it stopped.
abbrev Chunked : ℕ → List ℕ → List ℕ → Decoding → Type 0
Chunked index xs ys d =
    d.ok ≡ true → decode_all index (xs ++ ys) ≡ prepend d.calls (decode_all d.index (d.rest ++ ys))

-- The first packet of a longer stream.
pub decode_all-got :
    (index cmd i : ℕ) (buf : MsgBuf) (xs ys : List ℕ)
    → decode_one index xs ≡ got cmd buf i
    → packet_head_size + size buf ≤ length xs
    → Settled xs
    → decode_all index (xs ++ ys)
      ≡ prepend
          (on_new_msg cmd buf ∷ [])
          (decode_all i (drop (packet_head_size + size buf) xs ++ ys))
decode_all-got index cmd i buf xs ys e room settled =
    let zs = drop (6 + size buf) xs ++ ys in
    let shorter : length zs < length (xs ++ ys) = omega (
      arith,
      length-append xs ys,
      length-append (drop (6 + size buf) xs) ys,
      length-drop (6 + size buf) xs,
      room,
    ) in
    decode-fuel (length (xs ++ ys) + 1) (suc (length (xs ++ ys))) index (xs ++ ys) (omega arith)
      (omega arith)
    ∙ decode-suc-got (length (xs ++ ys)) index cmd i buf (xs ++ ys)
        (decode_one-append index xs ys settled ∙ e)
    ∙ ap (λ ws. prepend (on_new_msg cmd buf ∷ []) (decode (length (xs ++ ys)) i ws))
        (drop-append (6 + size buf) xs ys room)
    ∙ ap (λ d. prepend (on_new_msg cmd buf ∷ []) d)
        (decode-fuel (length (xs ++ ys)) (length zs + 1) i zs shorter (omega arith))

decode-Chunked :
    (f index : ℕ) (xs ys : List ℕ) → length xs < f → Chunked index xs ys (decode f index xs)
decode-Chunked zero index xs ys h = absurd (omega (arith, h))
decode-Chunked (suc f) index xs ys h = elim (decode_one-Decides index xs) [
  | inl e ↦ subst (Chunked index xs ys) (sym (decode-suc-more f index xs e)) (λ _. refl)
  | inr (inl (i, e, _)) ↦
      subst (Chunked index xs ys) (sym (decode-suc-bad f index i xs e)) (λ never. absurd (cc))
  | inr (inr (cmd, buf, i, e, room, settled)) ↦
      subst (Chunked index xs ys) (sym (decode-suc-got f index cmd i buf xs e)) (λ ok.
        decode_all-got index cmd i buf xs ys e room settled
        ∙ ap (λ d. prepend (on_new_msg cmd buf ∷ []) d)
            (decode-Chunked f i (drop (6 + size buf) xs) ys
              (omega (arith, length-drop (6 + size buf) xs, room, h)) ok))
]

pub decode_all-append :
    (index : ℕ) (xs ys : List ℕ)
    → (decode_all index xs).ok ≡ true
    → let d = decode_all index xs in
      decode_all index (xs ++ ys) ≡ prepend d.calls (decode_all d.index (d.rest ++ ys))
decode_all-append index xs ys ok = decode-Chunked (length xs + 1) index xs ys (omega arith) ok
