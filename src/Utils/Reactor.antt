-- ===== src/Utils/Reactor.antt =====
-- utils/reactor_epoll*.cpp and utils/stream_socket.hpp: sockets whose operations wait for epoll.
pub mod Mount
pub mod Epoll
pub mod StreamSocket
