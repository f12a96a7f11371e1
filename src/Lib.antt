-- ===== src/Lib.antt =====
-- libirpc: libusb's calls made over a TCP connection. A client (irpc_client.c,
-- irpc_find_idevice.c) calls `irpc_call` (libirpc.c), which packs the function's number and its
-- arguments with the tpl library and sends them; the server (irpc_server.c) reads a number, calls
-- the same `irpc_call` in the server's context, which reads the arguments, calls libusb, and sends
-- the answer. The question of this development is whether a remote call is the call that a program
-- on the server's host would make, and when a conversation ends well.
--
-- Which file models what:
--   Types          libirpc.h: enumerations, structures and `struct irpc_info`; Types/Bounds says
--                  which values the C types hold, Types/Zero is `bzero` of the info.
--   Tpl, Usb       tpl (tpl/tpl.c) and libusb (libusb/), which are not modelled: records of their
--                  operations with the laws that the code relies on, parameters of all that
--                  follows. Tpl/Formats holds the `IRPC_*_FMT` macros of libirpc.c, Tpl/Equality
--                  compares formats.
--   Proc           a process that talks over sockets, as a tree of sends and reads (`tpl_write` for
--                  map, pack, dump, free; `tpl_read` for map, load, unpack, free), each with the
--                  socket that the code names; Proc/Run runs a client and a server with the packets
--                  on their way, Proc/Ensures says what a process does whatever its peer sends,
--                  Proc/Sockets which socket it uses, Proc/Overrun whether it runs past an
--                  array; Proc/Steps has the two processes in any order of their steps,
--                  Proc/Ends that the schedule of `run` is such an order, Proc/Diamond that the
--                  order makes no difference, and Proc/Settles how every such schedule ends.
--   Rpc            libirpc.c, under its own names: `irpc_recv_usb_x` (client), `irpc_send_usb_x`
--                  (server) and `irpc_usb_x` for each function x, in Context, Devices, Open,
--                  Interface, Configure and Transfer; Base has the globals `irpc_ctx` and
--                  `irpc_handle` and the function numbers on the wire, Call has `irpc_call`.
--   Net            the socket calls and the standard output, which are not modelled: a record, a
--                  parameter of the set-up.
--   Server         irpc_server.c: the loop of `server_loop`; Server/Main is the set-up and `main`,
--                  Server/Sockets is about the sockets it opens, Server/Answers and Server/Clients
--                  about clients that send what they like, Server/Overrun about the lengths
--                  of their transfers; Server/Program is the program as a whole,
--                  Server/Serves about its port and its client's socket.
--   Local          the contract of `irpc_call`: each function as one step of the host that has the
--                  devices. Local/Table and Local/Lookup describe the device list and the search
--                  for a device; Local/Keeps is about the values that a call leaves, Local/Handles
--                  about the handles of libusb that are open, Local/Lists and Local/Leaks about
--                  its device lists, Local/Contexts about its contexts, Local/Counts about all
--                  three,
--                  Local/Reached about the states that calls can lead to, Local/Order about the
--                  order of the list, Local/Names about what its entries stand for, Local/Opens
--                  about the answers to an open; Local/Steady is a host whose devices do not change.
--   Remote         one call over the socket against its contract, and the values that it leaves.
--   Session        whole client programs over the socket and on the host; Session/Blind is about
--                  programs to which uninitialised memory makes no difference, Session/Sockets
--                  about the socket of a conversation, Session/Calls about what the calls of a
--                  program leave as it was, Session/Fails about a client that gives up.
--   IrpcClient, FindIdevice   the two clients, as such programs; Connect is how they connect,
--                  Program is `main` as a whole, from its arguments on, Talks is about its socket,
--                  Whole (and WholeReport) about a conversation of two whole programs.
--                  FindIdevice/First and `client_report` in IrpcClient/Outcome say what they report
--                  about a host, without a network; Leaks, and Calls and Completes in FindIdevice,
--                  are about what they leave behind in libusb on the server's host.
--   Tests          a concrete tpl, concrete hosts and a concrete system of sockets, and the theorems
--                  at concrete inputs.
--
-- Conventions and bounds. `int` has 32 bits, `char` is signed with 8 bits, `unsigned long` has 64
-- bits; conversions wrap modulo a power of 2, and client and server agree on the order of bytes in
-- a word. An image is one packet, sent and read as a whole; a send does not fail. In `run` the
-- server goes first whenever it can; Proc/Steps has the other orders, as sequences of steps. `run`
-- connects the two processes whatever sockets they name.
-- Uninitialised local variables are an argument, `Uninit`. The list of such memories that
-- `server_loop` takes is also its fuel, one for each round; where it ends, the server stops with
-- `out_of_rounds`, and the termination theorems say how many rounds are enough.
-- Behaviour that C leaves undefined stops a process with the reason (`Stop`): an unpack of an image
-- that never came or that is too short, and an access past an array. The C code has no such stop: it
-- goes on with what it has destroyed. One access past an array is not stopped, since every bulk
-- transfer makes it: the read of 4096 bytes from the 1024 of `data`, whose rest is `beyond` of
-- `Uninit`. An image that `tpl_load` refuses for its format is unpacked all the same, as the code
-- does not look at the result; what the variables hold then is left to `load` of Tpl.
--
-- Not modelled: debugging output, the build files, and the vendored tpl, libusb and libirecovery,
-- of which the constants for vendor and product ids alone are used.
pub mod Prelude
pub mod Types
pub mod Tpl
pub mod Usb
pub mod Net
pub mod Proc
pub mod Rpc
pub mod Server
pub mod Local
pub mod Remote
pub mod Session
pub mod IrpcClient
pub mod FindIdevice
pub mod Tests
