-- ===== src/Rpc.antt =====
-- libirpc.c: the remote procedure calls. Each call has a client half (`irpc_recv_*` in C), a server
-- half (`irpc_send_*`), and a function that chooses between them; `irpc_call` chooses the call.
pub mod Base
pub mod Context
pub mod Devices
pub mod Open
pub mod Interface
pub mod Configure
pub mod Transfer
pub mod Call
