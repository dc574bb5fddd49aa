-- ===== src/Lib.antt =====
-- simple_network, a C++ reactor library (lib/simple, lib/asio_reactor): buffers, packets with a length
-- in front, connections, and sockets over asio.
--
-- Base: machine words (size_t, uint32 and int arithmetic wraps as in C++; a uint32 in memory is four
-- bytes, the lowest first), blocks of memory as lists of bytes, and the results of a run: a value, a
-- thrown error, a fault (an access outside a block), or no end within the fuel.
-- Buffer: lib/simple/reactor/buffer. Data is struct data and Buffer the template buffer<circle>, both
-- of buffer.h. Circle is class circle of circle.h, with its modules: Index (the arithmetic of the two
-- indices), Valid (the invariant, the bytes held), Moves (reset, remove, written, remove_from_back),
-- Reading (read), Placing and Writing (the copying part of write), Growing (expand, get_space),
-- Regrowing and Appending (write at the offset -1), Defects (appends that fail).
-- Packet: lib/simple/reactor/packet.h, packet::reader and packet::writer over a shared buffer. Frames
-- describes a packet in memory; Writing, Closing and Reading prove what the two classes do.
-- Connection: lib/simple/reactor/connection.h and the members of lib/simple/reactor/socket.h. The
-- virtual functions of the socket and of the application are a record of parameters, Hooks. First and
-- Reading are about on_read, Sending about send, Defects about inputs on which on_read goes wrong.
-- Buffer/Array and Buffer/Bip: classes array and bip of array.h and bip.h, the other two containers;
-- their modules Defects are about a write, a read and a space that go wrong.
-- Event: the interfaces of lib/simple/reactor/event.h, which Connection and Kcp/Connector fill.
-- Tcp: lib/asio_reactor/tcp, socket.h and connector.h. The environment of the connection's world holds
-- the socket's flag, the waits that asio has not answered, and the bytes that send has taken; asio's
-- answers are lists, and the loops end with them; receive gives bytes only without an error.
-- Udp: lib/asio_reactor/udp, socket.h and acceptor.h; an endpoint is a number. Each module tree has
-- the socket's handlers in the module of that name, and Acceptor and Connector beside it;
-- Tcp/Receiving, Tcp/Sending, Tcp/Accepting and Udp/Sending, Udp/Receiving, Udp/Accepting and
-- Udp/Connecting are about them. Tcp/RoundTrip and Udp/RoundTrip are about two ends, Tcp/Session,
-- Tcp/Lifecycle and Tcp/Reconnecting about a connection over several events.
-- Kcp: lib/asio_reactor/kcp. The functions of kcp are a record of parameters, Ikcp. Socket, Acceptor
-- and Connector are the classes of socket.h, acceptor.h and connector.h, Conv and Sending about
-- get_conv and do_write, Hubs about the acceptor's maps, Updating about update, Receiving about the
-- receiving handler and an update in which send fails, Starting about the first datagram of a
-- conversation, Session about the acceptor over several datagrams and sockets, Walking about its
-- on_time.
-- Timer: lib/asio_reactor/timer, base.h and timer.h; a wait that is over stays queued until asio
-- calls its handler, and cannot be canceled. Mgr: lib/asio_reactor/mgr.h and listen and connect of
-- lib/simple/reactor/mgr.h; a timer is a number. Programs: src/client.cc and src/server.cc, over a
-- kcp socket, and SquareRoot for src/test.cc, where a double is its 64 bits and single precision a
-- parameter. Programs/Sending is about send_value,
-- Programs/Server/Echo, Serving and Starting about the server, Programs/Client/Counting
-- and Programs/Client/Answered about the client before and after it has a kcp object.
-- Packet/Forwarding and Packet/Nesting are about readers that are inserted and packets inside packets,
-- Connection/Forwarding about send of a reader.
-- Buffer/Container: the class buffer of buffer.h as the functions that it passes on, with the three
-- containers as instances; Queue is the specification, Queues that the three implement it.
--
-- A member function is a function that returns the new object; names are those of the source. The
-- recursive functions of circle.h and the loop of on_read take fuel: one for each call or round. The
-- theorems say how much is enough: more than the number of bytes, and one for each time that the
-- buffer grows. A new block holds zeros, where C++ leaves its bytes unspecified; the theorems speak of
-- the bytes held only.
-- kcp objects, sockets and timers are numbers or type parameters. The constructors that only pass
-- asio's objects on and the handler of SIGINT have no definition.
-- Not modelled: asio, kcp and googletest, which are not this repository's code; buffer::operator==,
-- which compares addresses and enters connection::send as a flag, and buffer::operator>>, which does
-- not compile for any type; printing; src/room.h, which is empty.
pub mod Base
pub mod Buffer
pub mod Packet
pub mod Event
pub mod Connection
pub mod Tcp
pub mod Udp
pub mod Kcp
pub mod Timer
pub mod Mgr
pub mod Programs
