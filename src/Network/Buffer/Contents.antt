-- ===== src/Network/Buffer/Contents.antt =====
-- The unread bytes of a buffer: a queue, whatever the positions.
use integration_server.Prelude.{
  ℕ, zero, suc, ◌+◌, ◌-◌, ◌*◌, ◌%◌, ◌^◌, ◌≤◌, ◌<◌, ◌≡◌, refl, sym, ap, ◌∙◌, List, [], ◌∷◌, ◌++◌,
  length, get_or, drop, ltb, leb, arith, Bool-cases, inl, inr,
}
use integration_server.Network.Packet.{dynamic_buff_base_size, dynamic_buff_expand_times}
use integration_server.Network.Buffer.{
  Buffer, bytes_at, write_at, get_write_size, get_read_size, is_read_over, add_read_len,
  write_bytes, move_down, refit_buffer, resize, reserve,
}

-- The positions are in order.
pub record IsBuffer (b : Buffer) : Type 0 where
  pub cur : b.cur_index ≤ b.rear_index
  pub rear : b.rear_index ≤ b.max_size
  pub max : b.max_size < 2 ^ 32

-- The unread bytes.
abbrev pub contents : Buffer → List ℕ
contents b = bytes_at b.buffer b.cur_index (b.rear_index - b.cur_index)

pub length-bytes_at : (mem : ℕ → ℕ) (pos n : ℕ) → length (bytes_at mem pos n) ≡ n
unfolding bytes_at
length-bytes_at mem pos zero = refl
length-bytes_at mem pos (suc n) = omega (arith, length-bytes_at mem (pos + 1) n)

-- Only the bytes read matter.
bytes_at_same :
    (mem mem' : ℕ → ℕ) (pos pos' n : ℕ)
    → ((i : ℕ) → i < n → mem' (pos' + i) ≡ mem (pos + i))
    → bytes_at mem' pos' n ≡ bytes_at mem pos n
unfolding bytes_at
bytes_at_same mem mem' pos pos' zero h = refl
bytes_at_same mem mem' pos pos' (suc n) h =
    let rest =
      bytes_at_same mem mem' (pos + 1) (pos' + 1) n
        (λ i l. ap mem' (omega arith) ∙ h (i + 1) (omega (arith, l)) ∙ ap mem (omega arith)) in
    let here : mem' pos' ≡ mem pos =
      ap mem' (omega arith) ∙ h 0 (omega arith) ∙ ap mem (omega arith) in
    ap (λ (x : ℕ). x ∷ bytes_at mem' (pos' + 1) n) here ∙ ap (λ (xs : List ℕ). mem pos ∷ xs) rest

pub bytes_at_cong :
    (mem : ℕ → ℕ) {p q m n : ℕ} → p ≡ q → m ≡ n → bytes_at mem p m ≡ bytes_at mem q n
bytes_at_cong mem {p} {q} {m} {n} e f =
    ap (λ (k : ℕ). bytes_at mem k m) e ∙ ap (λ (k : ℕ). bytes_at mem q k) f

pub bytes_at-add :
    (mem : ℕ → ℕ) (pos m n : ℕ)
    → bytes_at mem pos (m + n) ≡ bytes_at mem pos m ++ bytes_at mem (pos + m) n
unfolding bytes_at
bytes_at-add mem pos zero n =
    bytes_at_cong mem {p = pos} {q = pos + 0} {m = 0 + n} {n = n} (omega arith) (omega arith)
bytes_at-add mem pos (suc m) n =
    bytes_at_cong mem {p = pos} {q = pos} {m = suc m + n} {n = suc (m + n)} refl (omega arith)
    ∙ ap (λ (xs : List ℕ). mem pos ∷ xs)
        (bytes_at-add mem (pos + 1) m n
          ∙ ap (λ (xs : List ℕ). bytes_at mem (pos + 1) m ++ xs)
              (bytes_at_cong mem {p = pos + 1 + m} {q = pos + suc m} {m = n} {n = n} (omega arith)
                refl))

pub drop-bytes_at :
    (mem : ℕ → ℕ) (pos m n : ℕ) → drop m (bytes_at mem pos (m + n)) ≡ bytes_at mem (pos + m) n
unfolding bytes_at
drop-bytes_at mem pos zero n =
    bytes_at_cong mem {p = pos} {q = pos + 0} {m = 0 + n} {n = n} (omega arith) (omega arith)
drop-bytes_at mem pos (suc m) n =
    ap (λ (xs : List ℕ). drop (suc m) xs)
      (bytes_at_cong mem {p = pos} {q = pos} {m = suc m + n} {n = suc (m + n)} refl (omega arith))
    ∙ drop-bytes_at mem (pos + 1) m n
    ∙ bytes_at_cong mem {p = pos + 1 + m} {q = pos + suc m} {m = n} {n = n} (omega arith) refl

-- What is written is read back.
write_at-new :
    (mem : ℕ → ℕ) (bytes : List ℕ) (pos i : ℕ)
    → i < length bytes
    → write_at pos bytes mem (pos + i) ≡ get_or bytes i 0
unfolding write_at
write_at-new mem bytes pos i l =
    let e : pos + i - pos ≡ i = omega arith in ground (arith, l, ap (λ (k : ℕ). get_or bytes k 0) e)

write_at-old :
    (mem : ℕ → ℕ) (bytes : List ℕ) (pos i : ℕ) → i < pos → write_at pos bytes mem i ≡ mem i
unfolding write_at
write_at-old mem bytes pos i l = ground (arith, l)

bytes_at-list :
    (mem : ℕ → ℕ) (bytes : List ℕ) (pos : ℕ)
    → ((i : ℕ) → i < length bytes → mem (pos + i) ≡ get_or bytes i 0)
    → bytes_at mem pos (length bytes) ≡ bytes
unfolding bytes_at
bytes_at-list mem [] pos h = refl
bytes_at-list mem (x ∷ bytes) pos h =
    let here : mem pos ≡ x = ap mem (omega arith) ∙ h 0 (omega arith) in
    let rest =
      bytes_at-list mem bytes (pos + 1)
        (λ i l. ap mem (omega arith) ∙ h (suc i) (omega (arith, l))) in
    ap (λ (y : ℕ). y ∷ bytes_at mem (pos + 1) (length bytes)) here
    ∙ ap (λ (ys : List ℕ). x ∷ ys) rest

-- The operations on the queue.
pub contents-write_bytes :
    (bytes : List ℕ) (b : Buffer)
    → IsBuffer b
    → length bytes ≤ b.max_size - b.rear_index
    → IsBuffer (write_bytes bytes b) × (contents (write_bytes bytes b) ≡ contents b ++ bytes)
unfolding write_bytes
contents-write_bytes bytes b w h = (
  record { cur = omega (arith, wraps, w.cur); rear = omega (arith, wraps, w.rear, h); max = w.max },
  bytes_at_cong mem {p = b.cur_index} {q = b.cur_index}
        {m = (b.rear_index + length bytes) % 2 ^ 32 - b.cur_index}
        {n = b.rear_index - b.cur_index + length bytes} refl (omega (arith, wraps, w.cur))
      ∙ bytes_at-add mem b.cur_index (b.rear_index - b.cur_index) (length bytes)
      ∙ ap
          (λ (xs : List ℕ).
            xs ++ bytes_at mem (b.cur_index + (b.rear_index - b.cur_index)) (length bytes))
          old
      ∙ ap (λ (xs : List ℕ). contents b ++ xs) new,
)
  where
    mem : ℕ → ℕ
    mem = write_at b.rear_index bytes b.buffer

    wraps : (b.rear_index + length bytes) % 2 ^ 32 ≡ b.rear_index + length bytes
    wraps = omega (arith, w.rear, w.max, h)

    old : bytes_at mem b.cur_index (b.rear_index - b.cur_index) ≡ contents b
    old =
        bytes_at_same b.buffer mem b.cur_index b.cur_index (b.rear_index - b.cur_index)
          (λ i l. write_at-old b.buffer bytes b.rear_index (b.cur_index + i) (omega (arith, l)))

    new : bytes_at mem (b.cur_index + (b.rear_index - b.cur_index)) (length bytes) ≡ bytes
    new =
        bytes_at_cong mem {p = b.cur_index + (b.rear_index - b.cur_index)} {q = b.rear_index}
          {m = length bytes} {n = length bytes} (omega (arith, w.cur)) refl
        ∙ bytes_at-list mem bytes b.rear_index (λ i l. write_at-new b.buffer bytes b.rear_index i l)

pub get_read_size_lem : (b : Buffer) → IsBuffer b → get_read_size b ≡ b.rear_index - b.cur_index
unfolding get_read_size
get_read_size_lem b w = omega (arith, w.cur, w.rear, w.max)

pub get_write_size_lem : (b : Buffer) → IsBuffer b → get_write_size b ≡ b.max_size - b.rear_index
unfolding get_write_size
get_write_size_lem b w = omega (arith, w.cur, w.rear, w.max)

pub contents-add_read_len :
    (len : ℕ) (b : Buffer)
    → IsBuffer b
    → len ≤ b.rear_index - b.cur_index
    → IsBuffer (add_read_len len b) × (contents (add_read_len len b) ≡ drop len (contents b))
unfolding add_read_len
contents-add_read_len len b w h = (
  record { cur = omega (arith, w.cur, h); rear = w.rear; max = w.max },
  bytes_at_cong b.buffer {p = (b.cur_index + len) % 2 ^ 32} {q = b.cur_index + len}
        {m = b.rear_index - (b.cur_index + len) % 2 ^ 32} {n = b.rear_index - b.cur_index - len}
        (omega (arith, w.cur, w.rear, w.max, h)) (omega (arith, w.cur, w.rear, w.max, h))
      ∙ sym (drop-bytes_at b.buffer b.cur_index len (b.rear_index - b.cur_index - len))
      ∙ ap (λ (k : ℕ). drop len (bytes_at b.buffer b.cur_index k)) whole,
)
  where
    whole : len + (b.rear_index - b.cur_index - len) ≡ b.rear_index - b.cur_index
    whole = omega (arith, h)

bytes_at_none : (mem : ℕ → ℕ) (pos n : ℕ) → n ≡ 0 → bytes_at mem pos n ≡ []
unfolding bytes_at
bytes_at_none mem pos zero h = refl
bytes_at_none mem pos (suc n) h = absurd (omega (arith, h))

move_down-contents :
    (b : Buffer)
    → IsBuffer b
    → bytes_at (move_down b.cur_index (get_read_size b) b.buffer) 0 (get_read_size b - 0)
      ≡ contents b
unfolding move_down
move_down-contents b w =
    bytes_at_cong mem {p = 0} {q = 0} {m = get_read_size b - 0} {n = n} refl (omega (arith, size))
    ∙ bytes_at_same b.buffer mem b.cur_index 0 n
        (λ i l. let e : 0 + i ≡ i = omega arith in ap mem e ∙ moved i l)
  where
    mem : ℕ → ℕ
    mem = move_down b.cur_index (get_read_size b) b.buffer

    n : ℕ
    n = b.rear_index - b.cur_index

    size : get_read_size b ≡ n
    size = get_read_size_lem b w

    moved :
        (i : ℕ)
        → i < b.rear_index - b.cur_index
        → move_down b.cur_index (get_read_size b) b.buffer i ≡ b.buffer (b.cur_index + i)
    moved i l = ground (arith, l, get_read_size_lem b w)

-- On a buffer whose positions are in order, refitBuffer keeps them in order, keeps the unread
-- bytes, and moves them to the first position.
pub contents-refit_buffer :
    (b : Buffer)
    → IsBuffer b
    → IsBuffer (refit_buffer b)
      × (contents (refit_buffer b) ≡ contents b)
      × ((refit_buffer b).cur_index ≡ 0)
unfolding refit_buffer is_read_over
contents-refit_buffer b w = elim (Bool-cases (leb b.rear_index b.cur_index)) [
  | inl e ↦ rw e (
    record { cur = omega arith; rear = omega arith; max = w.max },
    bytes_at_none b.buffer 0 (0 - 0) (omega arith)
        ∙ sym (bytes_at_none b.buffer b.cur_index (b.rear_index - b.cur_index) (ground (arith, e))),
    refl,
  )
  | inr e ↦ rw e (
    record {
      cur = omega arith;
      rear = omega (arith, w.cur, w.rear, get_read_size_lem b w);
      max = w.max;
    },
    move_down-contents b w,
    refl,
  )
]

reserve_room :
    (max size : ℕ)
    → max + size + dynamic_buff_base_size < 2 ^ 32
    → let more = (max + dynamic_buff_base_size * dynamic_buff_expand_times size) % 2 ^ 32 in
      (max + size ≤ more) × (more < 2 ^ 32)
unfolding dynamic_buff_expand_times
reserve_room max size h = (omega (arith, h), omega (arith, h))

-- On a buffer whose positions are in order, with its size, the asked size and 64 KiB together below
-- 2^32, reserve keeps the positions in order and the unread bytes, and makes room for the asked
-- size.
pub contents-reserve :
    (size : ℕ) (b : Buffer)
    → IsBuffer b
    → b.max_size + size + dynamic_buff_base_size < 2 ^ 32
    → IsBuffer (reserve size b)
      × (contents (reserve size b) ≡ contents b)
      × (size ≤ (reserve size b).max_size - (reserve size b).rear_index)
unfolding reserve resize
contents-reserve size b w h = elim (Bool-cases (ltb (get_write_size b) size)) [
  | inl e ↦ rw e (
    record {
      cur = w.cur;
      rear = omega (arith, w.rear, (reserve_room b.max_size size h).0);
      max = (reserve_room b.max_size size h).1;
    },
    bytes_at_same b.buffer (resize b.max_size b.buffer) b.cur_index b.cur_index
        (b.rear_index - b.cur_index) (λ i l. ground (arith, l, w.rear, w.cur)),
    omega (arith, w.rear, (reserve_room b.max_size size h).0),
  )
  | inr e ↦ rw e (w, refl, ground (arith, e, get_write_size_lem b w))
]
