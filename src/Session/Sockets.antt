-- ===== src/Session/Sockets.antt =====
-- The socket of a whole conversation: a client program and the server's loop each use one.
use libirpc.Prelude.{
  ◌≡◌, ◌∙◌, ap, subst, List, [], ◌∷◌, ℤ, pos, eq_ℤ, Bool, true, false, if◌then◌else◌,
}
use libirpc.Types.{IrpcInfo, usb_exit, func_code, context_client, context_server}
use libirpc.Usb.{Libusb}
use libirpc.Proc.{done, ◌>>=◌}
use libirpc.Proc.Sockets.{Over, Over-bind, Over-if}
use libirpc.Rpc.Base.{Globals, Uninit, Called, irpc_read_func}
use libirpc.Rpc.Call.{irpc_call}
use libirpc.Remote.Sockets.{SameSockets, irpc_call-asks, irpc_call-answers}
use libirpc.Server.{rounds, server_loop}
use libirpc.Session.{Script, leave, fault, exit, call, remote}

module _ (L : Libusb) (sock : ℤ) where
  -- Every call passes an info with this `server_sock`, as long as the calls before it left it so.
  abbrev pub Through : {A : Type 0} → Script L A → Type 0
  Through (leave a) = Unit
  Through (fault e) = Unit
  Through (exit i a) = i.ci.server_sock ≡ sock
  Through (call f i k) =
      (i.ci.server_sock ≡ sock) × ((c : Called L) → c.info.ci.server_sock ≡ sock → Through (k c))

  pub Through-if :
      {A : Type 0} (b : Bool) (p q : Script L A)
      → Through p
      → Through q
      → Through (if b then p else q)
  Through-if true p q hp hq = hp
  Through-if false p q hp hq = hq

  pub remote-Over :
      {A : Type 0} (u : Uninit) (g : Globals L) (s : Script L A)
      → Through s
      → Over sock (λ _. Unit) (remote L u g s)
  unfolding remote
  remote-Over u g (leave a) h = tt
  remote-Over u g (fault e) h = tt
  remote-Over u g (exit i a) h =
      Over-bind sock (SameSockets L u g i) (λ _. Unit)
        (irpc_call L (pos (func_code usb_exit)) context_client u g i) (λ c. done a)
        (subst
          (λ x.
            Over x (SameSockets L u g i)
              (irpc_call L (pos (func_code usb_exit)) context_client u g i))
          h (irpc_call-asks L u g i usb_exit))
        (λ c same. tt)
  remote-Over u g (call f i k) (h, next) =
      Over-bind sock (SameSockets L u g i) (λ _. Unit)
        (irpc_call L (pos (func_code f)) context_client u g i) (λ c. remote L u c.globals (k c))
        (subst
          (λ x. Over x (SameSockets L u g i) (irpc_call L (pos (func_code f)) context_client u g i))
          h (irpc_call-asks L u g i f))
        (λ c same. remote-Over u c.globals (k c) (next c (ap (λ ci. ci.server_sock) same ∙ h)))

  rounds-Over :
      (us : List Uninit) (func : ℤ) (g : Globals L) (i : IrpcInfo)
      → i.ci.client_sock ≡ sock
      → Over sock (λ _. Unit) (rounds L us func g i)
  unfolding rounds
  rounds-Over [] func g i h = tt
  rounds-Over (u ∷ us) func g i h =
      Over-bind sock (SameSockets L u g i) (λ _. Unit) (irpc_call L func context_server u g i) _
        (subst (λ x. Over x (SameSockets L u g i) (irpc_call L func context_server u g i)) h
          (irpc_call-answers L u g i func))
        (λ c same.
          Over-if sock (λ _. Unit) (eq_ℤ func (pos (func_code usb_exit))) (done c.globals)
            (irpc_read_func c.info.ci.client_sock >>= λ next. rounds L us next c.globals c.info) tt
            (let e = ap (λ ci. ci.client_sock) same ∙ h in
              (e, λ v. rounds-Over us v.0 c.globals c.info e)))

  -- The server's loop reads and writes the client's socket alone.
  pub server_loop-Over :
      (us : List Uninit) (g : Globals L) (i : IrpcInfo)
      → i.ci.client_sock ≡ sock
      → Over sock (λ _. Unit) (server_loop L us g i)
  unfolding server_loop
  server_loop-Over us g i h = (h, λ v. rounds-Over us v.0 g i h)
