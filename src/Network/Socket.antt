-- ===== src/Network/Socket.antt =====
-- boost_network/tcp_socket.cpp. What a socket asks of boost.asio and of its IoInterface is kept in
-- lists: the calls of the interface, and the bytes of each async_send. The bodies posted to the
-- strand run one at a time, so each is one function; a doClose that doWrite posts is counted until
-- `run_posted_close` runs it. A completed async_read_some or async_send is a call of its handler,
-- with what boost.asio reports as arguments.
pub mod Decode
pub mod Parse
pub mod Send
use integration_server.Prelude.{
  ℕ, zero, suc, ◌+◌, ◌-◌, ◌*◌, ◌%◌, ◌^◌, Bool, true, false, ◌&&◌, not, List, [], ◌∷◌, ◌++◌, Option,
  none, some, length, ltb, leb, ◌==◌, if◌then◌else◌,
}
use integration_server.Network.Packet.{
  MsgHead, MsgBuf, size, packet_flag_zip, packet_head_size, packet_max_size, packet_body_max_size,
  packet_compress_min_size, head_bytes,
}
use integration_server.Network.Buffer.{
  Buffer, new_buffer, bytes_at, get_write_size, get_read_size, is_read_over, add_read_len,
  write_bytes, refit_buffer, reserve,
}

pub data ErrorCode : Type 0 where
  operation_aborted bad_message : ErrorCode
  other_error : ℕ → ErrorCode

pub data IoCall : Type 0 where
  on_new_msg : ℕ → MsgBuf → IoCall
  read_failed : ErrorCode → IoCall
  write_failed : ErrorCode → IoCall
  on_passive_socket_close : IoCall

pub record TcpSocket : Type 0 where
  pub recv_buffer : Buffer
  pub send_buffer0 : Buffer
  pub send_buffer1 : Buffer
  pub idle_index : ℕ
  pub async_writing : Bool
  pub notify_callback : Bool
  pub msg_index : ℕ
  pub close_flag : Bool
  pub is_open : Bool
  pub calls : List IoCall
  pub sends : List (List ℕ)
  pub posted_closes : ℕ

abbrev pub new_socket : ℕ → TcpSocket
new_socket index = record {
  recv_buffer = new_buffer;
  send_buffer0 = new_buffer;
  send_buffer1 = new_buffer;
  idle_index = 0;
  async_writing = false;
  notify_callback = true;
  msg_index = index;
  close_flag = false;
  is_open = true;
  calls = [];
  sends = [];
  posted_closes = 0;
}

-- index ^= 1
unfoldable pub get_idle_index : ℕ → ℕ
get_idle_index index = if index % 2 == 0 then index + 1 else index - 1

unfoldable pub send_buffer : ℕ → TcpSocket → Buffer
send_buffer i s = if i == 0 then s.send_buffer0 else s.send_buffer1

unfoldable pub set_send_buffer : ℕ → Buffer → TcpSocket → TcpSocket
set_send_buffer i b s =
    if i == 0 then record s { send_buffer0 = b } else record s { send_buffer1 = b }

abbrev pub call : IoCall → TcpSocket → TcpSocket
call c s = record s { calls = s.calls ++ c ∷ [] }

-- The first return of isNeedCompress.
unfoldable pub is_need_compress : Bool → Bool → ℕ → Bool
is_need_compress is_compressed is_compress msg_size = false

unfoldable pub do_close : TcpSocket → TcpSocket
do_close s =
    if s.is_open
    then if s.notify_callback
      then call on_passive_socket_close (record s { is_open = false })
      else record s { is_open = false }
    else s

unfoldable pub run_posted_close : TcpSocket → TcpSocket
run_posted_close s =
    do_close (record s { posted_closes = s.posted_closes - 1; notify_callback = false })

unfoldable pub close : TcpSocket → TcpSocket
close s =
    if s.async_writing
    then record s { close_flag = true }
    else do_close (record s { close_flag = true; notify_callback = false })

unfoldable pub start_send : TcpSocket → TcpSocket
start_send s = record s {
  async_writing = true;
  idle_index = get_idle_index s.idle_index;
  sends =
      s.sends
      ++ (let b = send_buffer s.idle_index s in bytes_at b.buffer b.cur_index (get_read_size b))
        ∷ [];
}

unfoldable pub do_write : TcpSocket → TcpSocket
do_write s =
    if s.async_writing
    then s
    else if is_read_over (send_buffer s.idle_index s)
    then if s.close_flag then record s { posted_closes = s.posted_closes + 1 } else s
    else start_send s

unfoldable pub on_write_error : ErrorCode → TcpSocket → TcpSocket
on_write_error operation_aborted s = s
on_write_error ec s = do_close (call (write_failed ec) s)

unfoldable pub on_read_error : ErrorCode → TcpSocket → TcpSocket
on_read_error operation_aborted s = s
on_read_error ec s = do_close (call (read_failed ec) s)

-- The handler of async_send, which does not read the length that was sent.
unfoldable pub sent : TcpSocket → TcpSocket
sent s =
    let i = get_idle_index s.idle_index in
    let b = send_buffer i s in
    record (set_send_buffer i (refit_buffer (add_read_len (get_read_size b) b)) s) {
      async_writing = false;
    }

unfoldable pub on_sent : Option ErrorCode → ℕ → TcpSocket → TcpSocket
on_sent none send_length s = do_write (sent s)
on_sent (some ec) send_length s = on_write_error ec s

-- A packet in the buffer: its head and its body.
unfoldable pub packet : ℕ → ℕ → MsgBuf → List ℕ
packet cmd index buf =
    head_bytes (record {
      cmd = cmd;
      len = size buf;
      index = index;
      flag = if buf.is_compress then packet_flag_zip else 0;
    })
    ++ buf.bytes

unfoldable pub put_packet : ℕ → MsgBuf → TcpSocket → TcpSocket
put_packet cmd buf s =
    let b = reserve (packet_head_size + size buf) (send_buffer s.idle_index s) in
    if ltb (get_write_size b) (packet_head_size + size buf)
    then set_send_buffer s.idle_index b s
    else do_write (set_send_buffer s.idle_index (write_bytes (packet cmd s.msg_index buf) b) s)

unfoldable pub write : ℕ → MsgBuf → Bool → TcpSocket → TcpSocket
write cmd buf is_compress s =
    if s.close_flag
    then s
    else if is_need_compress buf.is_compress is_compress (size buf)
    then do_write s
    else if ltb packet_body_max_size (size buf)
    then s
    else put_packet cmd buf s

unfoldable pub read_head : (ℕ → ℕ) → ℕ → MsgHead
read_head mem pos = record {
  cmd = mem pos + 256 * mem (pos + 1);
  len = mem (pos + 2) + 256 * mem (pos + 3);
  index = mem (pos + 4);
  flag = mem (pos + 5);
}

-- PACKET_FLAG_ZIP == (flag & PACKET_FLAG_ZIP)
unfoldable pub has_zip : ℕ → Bool
has_zip flag = leb 2 (flag % 4)

unfoldable pub next_index : ℕ → ℕ
next_index index = if (index + 1) % 2 ^ 32 == 255 then 1 else (index + 1) % 2 ^ 32

unfoldable pub first_index : ℕ → ℕ → ℕ
first_index index head_index = if ltb 0 head_index && index == 0 then head_index else index

-- What a round of readParse's loop does: leave it, return false, or go on.
pub data Round : Type 0 where
  stop : Round
  broken : TcpSocket → Round
  next : TcpSocket → Round

unfoldable pub deliver : ℕ → MsgBuf → ℕ → TcpSocket → Round
deliver cmd buf index s = next (record s {
  msg_index = index;
  calls = s.calls ++ on_new_msg cmd buf ∷ [];
  recv_buffer = add_read_len (packet_head_size + size buf) s.recv_buffer;
})

unfoldable pub check_index : MsgHead → MsgBuf → ℕ → TcpSocket → Round
check_index head buf index s =
    if index == 0
    then deliver head.cmd buf 0 s
    else if head.index == index
    then deliver head.cmd buf (next_index index) s
    else broken (record s { msg_index = index })

unfoldable pub parse_packet : MsgHead → TcpSocket → Round
parse_packet head s =
    if ltb packet_max_size (packet_head_size + head.len)
    then broken s
    else if ltb (get_read_size s.recv_buffer) (packet_head_size + head.len)
    then stop
    else check_index head
        (record {
          bytes =
              bytes_at s.recv_buffer.buffer (s.recv_buffer.cur_index + packet_head_size) head.len;
          is_compress = has_zip head.flag;
        })
        (first_index s.msg_index head.index) s

unfoldable pub parse_one : TcpSocket → Round
parse_one s =
    if ltb (get_read_size s.recv_buffer) packet_head_size
    then stop
    else parse_packet (read_head s.recv_buffer.buffer s.recv_buffer.cur_index) s

-- The loop, with the count of packets; `none` for want of fuel.
unfoldable pub parse_loop : ℕ → ℕ → TcpSocket → Option (Bool × ℕ × TcpSocket)
parse_loop zero recv_count s = none
parse_loop (suc fuel) recv_count s = elim (parse_one s) [
  | stop ↦ some (true, recv_count, s)
  | broken s' ↦ some (false, recv_count, s')
  | next s' ↦ parse_loop fuel (recv_count + 1) s'
]

-- The scope guard.
abbrev pub refit : ℕ → TcpSocket → TcpSocket
refit recv_count s =
    if ltb 0 recv_count then record s { recv_buffer = refit_buffer s.recv_buffer } else s

-- Every packet takes a byte at least.
unfoldable pub read_parse : List ℕ → TcpSocket → Option (Bool × TcpSocket)
read_parse bytes s =
    let s' : TcpSocket = record s { recv_buffer = write_bytes bytes s.recv_buffer } in
    elim (parse_loop (get_read_size s'.recv_buffer + 1) 0 s') [
      | none ↦ none
      | some (ok, recv_count, t) ↦ some (ok, refit recv_count t)
    ]

-- The handler of async_read_some, with the bytes that were received.
unfoldable pub on_read : Option ErrorCode → List ℕ → TcpSocket → TcpSocket
on_read ec bytes s = if s.close_flag then s else elim ec [
  | some e ↦ on_read_error e s
  | none ↦ elim (read_parse bytes s) [
    | none ↦ s
    | some (ok, t) ↦ if ok then t else on_read_error bad_message t
  ]
]
