-- ===== src/Network/Tests.antt =====
-- A packet of three bytes on a socket, an acceptor and a network, and the theorems at concrete inputs.
use integration_server.Prelude.{
  ℕ, ◌+◌, ◌-◌, ◌^◌, ◌≤◌, ◌<◌, ◌≡◌, ◌≢◌, ◌⊎◌, refl, arith, ltb, ◌==◌, if◌then◌else◌, count, All,
  Bool, true, false, List, [], ◌∷◌, ◌++◌, Option, none, some, length,
}
use integration_server.Network.Packet.{MsgBuf, size, dynamic_buff_base_size}
use integration_server.Network.Buffer.{
  Buffer, new_buffer, bytes_at, write_bytes, refit_buffer, reserve, get_write_size, add_read_len,
  get_read_size, write_at,
}
use integration_server.Network.Buffer.Contents.{
  IsBuffer, contents, contents-write_bytes, contents-add_read_len, contents-refit_buffer,
  contents-reserve,
}
use integration_server.Network.Socket.{
  TcpSocket, new_socket, write, on_sent, read_parse, packet, send_buffer, get_idle_index,
  parse_loop, parse_one, parse_packet, check_index, read_head, first_index, deliver, has_zip,
}
use integration_server.Network.Socket.Decode.{decode_all}
use integration_server.Network.Socket.Decode.RoundTrip.{
  packets, delivered, last_index, decode_all-packets,
}
use integration_server.Network.Socket.Send.{CanSend, stream}
use integration_server.Network.Socket.Send.Order.{write-stream, on_sent-stream}
use integration_server.Network.Socket.Parse.Receive.{
  CanReceive, Receives, Pieces, last_piece, more_pieces, read_parse-Receives, Pieces-decode_all,
}
use integration_server.Network.Connector.{
  new_connector, handle, connect_done, other_error, is_enabled, connect,
}
use integration_server.Prelude.Map.{find, IsOrdered}
use integration_server.Network.Connector.{no_error}
use integration_server.Network.Acceptor
use integration_server.Network.Acceptor.{Acceptor}
use integration_server.Network.Acceptor.Owned
use integration_server.Network.Acceptor.Owned.{shown, gone, numbers, Reaches-owned}
use integration_server.Network.BoostNetwork
use integration_server.Network.BoostNetwork.{BoostNetwork, new_network}
use integration_server.Network.BoostNetwork.Listen.{listen_at_lem}
use integration_server.Network.BoostNetwork.Close
use integration_server.Network.Connector.Reach.{next, started, OneTry, Reaches-OneTry}

abbrev hello : MsgBuf
hello = record { bytes = 1 ∷ 2 ∷ 3 ∷ []; is_compress = false }

abbrev fresh : TcpSocket
fresh = new_socket 0

fresh-IsBuffer : IsBuffer new_buffer
fresh-IsBuffer = record { cur = omega arith; rear = omega arith; max = omega arith }

fresh_send : CanSend fresh
unfolding send_buffer get_idle_index bytes_at
fresh_send = record {
  index = omega arith;
  buffer0 = fresh-IsBuffer;
  buffer1 = fresh-IsBuffer;
  empty = λ _. refl;
}

fresh_receive : CanReceive fresh
fresh_receive = record { buffer = fresh-IsBuffer; refitted = refl }

-- The bytes of a packet with command 7, in two pieces.
abbrev first_piece : List ℕ
first_piece = 7 ∷ 0 ∷ 3 ∷ 0 ∷ []

abbrev second_piece : List ℕ
second_piece = 0 ∷ 0 ∷ 1 ∷ 2 ∷ 3 ∷ []

abbrev socket_of : Option (Bool × TcpSocket) → TcpSocket
socket_of none = fresh
socket_of (some (ok, t)) = t

abbrev half : TcpSocket
half = socket_of (read_parse first_piece fresh)

abbrev whole : TcpSocket
whole = socket_of (read_parse second_piece half)

room0 : length first_piece ≤ get_write_size fresh.recv_buffer
unfolding get_write_size
room0 = omega arith

decode_all-packets_example : decode_all 1 (packets 1 ((7, hello) ∷ (8, hello) ∷ [])) ≡ record {
  ok = true;
  calls = delivered ((7, hello) ∷ (8, hello) ∷ []);
  rest = [];
  index = last_index 1 ((7, hello) ∷ (8, hello) ∷ []);
}
decode_all-packets_example =
    decode_all-packets 1 ((7, hello) ∷ (8, hello) ∷ []) (omega arith)
      ((omega arith, omega arith), ((omega arith, omega arith), tt))

read_parse-Receives_example :
    (t : TcpSocket) × (read_parse first_piece fresh
      ≡ some ((decode_all 0 (contents fresh.recv_buffer ++ first_piece)).ok, t))
    × Receives fresh (decode_all 0 (contents fresh.recv_buffer ++ first_piece)) t
read_parse-Receives_example = read_parse-Receives first_piece fresh fresh_receive room0

fresh_room : (send_buffer 0 fresh).max_size + (6 + size hello) + dynamic_buff_base_size < 2 ^ 32
unfolding send_buffer
fresh_room = omega arith

write-stream_example :
    CanSend (write 7 hello false fresh)
    × (stream (write 7 hello false fresh) ≡ stream fresh ++ packet 7 0 hello)
write-stream_example = write-stream 7 hello false fresh fresh_send refl (omega arith) fresh_room

abbrev writing : TcpSocket
writing = write 7 hello false fresh

writing_send : CanSend writing
writing_send = (write-stream 7 hello false fresh fresh_send refl (omega arith) fresh_room).0

on_sent-stream_example :
    CanSend (on_sent none 9 writing) × (stream (on_sent none 9 writing) ≡ stream writing)
on_sent-stream_example = on_sent-stream 9 writing writing_send

abbrev filled : Buffer
filled = write_bytes (1 ∷ 2 ∷ 3 ∷ []) new_buffer

filled-IsBuffer : IsBuffer filled
filled-IsBuffer = (contents-write_bytes (1 ∷ 2 ∷ 3 ∷ []) new_buffer fresh-IsBuffer (omega arith)).0

abbrev advanced : Buffer
advanced = add_read_len 2 filled

advanced-IsBuffer : IsBuffer advanced
unfolding write_bytes
advanced-IsBuffer = (contents-add_read_len 2 filled filled-IsBuffer (omega arith)).0

contents-refit_buffer_example :
    IsBuffer (refit_buffer advanced)
    × (contents (refit_buffer advanced) ≡ contents advanced)
    × ((refit_buffer advanced).cur_index ≡ 0)
contents-refit_buffer_example = contents-refit_buffer advanced advanced-IsBuffer

contents-reserve_example :
    IsBuffer (reserve 100000 new_buffer)
    × (contents (reserve 100000 new_buffer) ≡ contents new_buffer)
    × (100000 ≤ (reserve 100000 new_buffer).max_size - (reserve 100000 new_buffer).rear_index)
contents-reserve_example = contents-reserve 100000 new_buffer fresh-IsBuffer (omega arith)

first_read : read_parse first_piece fresh ≡ some (true, half)
unfolding read_parse parse_loop get_read_size write_bytes parse_one
first_read = refl

second_read : read_parse second_piece half ≡ some (true, whole)
unfolding read_parse parse_loop get_read_size write_bytes parse_one parse_packet check_index
    read_head first_index deliver bytes_at add_read_len write_at has_zip
second_read = refl

room1 : length second_piece ≤ get_write_size half.recv_buffer
unfolding read_parse parse_loop get_read_size write_bytes parse_one get_write_size
room1 = omega arith

in-Pieces : Pieces fresh (first_piece ++ second_piece) whole
in-Pieces =
    more_pieces fresh half whole first_piece second_piece room0 first_read
      (last_piece half whole second_piece room1 second_read)

Pieces-decode_all_example :
    (whole.calls
      ≡ fresh.calls
        ++ (decode_all 0 (contents fresh.recv_buffer ++ (first_piece ++ second_piece))).calls)
    × (whole.msg_index
        ≡ (decode_all 0 (contents fresh.recv_buffer ++ (first_piece ++ second_piece))).index)
    × (contents whole.recv_buffer
        ≡ (decode_all 0 (contents fresh.recv_buffer ++ (first_piece ++ second_piece))).rest)
Pieces-decode_all_example =
    Pieces-decode_all fresh whole (first_piece ++ second_piece) fresh_receive in-Pieces

-- The first connection fails.
Reaches-OneTry_example : OneTry (handle (connect_done other_error) (new_connector 5))
unfolding is_enabled connect new_connector
Reaches-OneTry_example =
    Reaches-OneTry 5 (handle (connect_done other_error) (new_connector 5))
      (next (connect_done other_error) (new_connector 5) refl started)

abbrev accepted_one : Acceptor
accepted_one =
    Acceptor.handle (Acceptor.accept_done no_error)
      (Acceptor.listen Acceptor.listening Acceptor.new_acceptor).1

Reaches-owned_example :
    (shown accepted_one.calls ≡ numbers accepted_one.made)
    × ((s : ℕ)
        → count s accepted_one.socket_vec + count s (gone accepted_one.calls)
          ≡ (if ltb s accepted_one.made then 1 else 0))
    × (accepted_one.accepting ≤ 1)
unfolding Acceptor.listen Acceptor.new_acceptor Acceptor.is_enabled Acceptor.accept
Reaches-owned_example = Reaches-owned Acceptor.listening accepted_one (
    Owned.next (Acceptor.accept_done no_error)
      (Acceptor.listen Acceptor.listening Acceptor.new_acceptor).1 refl Owned.listened)

listen_at_lem_example :
    let m = BoostNetwork.listen_at 23333 true Acceptor.listening new_network in
    ((m.0 ≡ false)
      × (m.1 ≡ new_network)
      × ((find 23333 new_network.listen_map ≢ none)
          ⊎ (true ≡ false)
          ⊎ (Acceptor.listening ≢ Acceptor.listening)))
    ⊎ ((m.0 ≡ true)
        × (find 23333 new_network.listen_map ≡ none)
        × (true ≡ true)
        × (Acceptor.listening ≡ Acceptor.listening)
        × IsOrdered m.1.listen_map
        × ((k : ℕ)
            → find k m.1.listen_map ≡ (
                if k == 23333
                then some (Acceptor.listen Acceptor.listening Acceptor.new_acceptor).1
                else find k new_network.listen_map)))
unfolding new_network
listen_at_lem_example = listen_at_lem 23333 true Acceptor.listening new_network tt

abbrev listening_network : BoostNetwork
listening_network =
    (BoostNetwork.listen_at 23333 true Acceptor.listening (BoostNetwork.init 1 new_network).1).1

Reaches-drain_example :
    Close.AllValues Close.Drained
      (BoostNetwork.drain (BoostNetwork.stop listening_network)).listen_map
    × All Close.Cut (BoostNetwork.drain (BoostNetwork.stop listening_network)).connect_vec
Reaches-drain_example = Close.Reaches-drain listening_network (
    Close.listens 23333 true Acceptor.listening (BoostNetwork.init 1 new_network).1
      (Close.initialises 1 new_network Close.fresh))
