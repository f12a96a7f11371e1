-- ===== src/Server/Overrun.antt =====
-- irpc_server.c and the local arrays of libirpc.c that a transfer fills: they are long enough for
-- every client that keeps the lengths of its transfers within `IRPC_MAX_DATA`.
use libirpc.Prelude.{
  ℕ, ◌≡◌, ◌≢◌, ◌≤◌, refl, inl, inr, List, [], ◌∷◌, All, ℤ, pos, Option-cases, length, eq_ℤ, le→leb,
  to_unsigned, pos_part, arith,
}
use libirpc.Types.{
  IrpcFunc, usb_init, usb_exit, usb_get_device_list, usb_close, usb_control_transfer,
  usb_bulk_transfer, usb_get_string_descriptor_ascii, IrpcInfo, context_server, func_of,
  irpc_max_data, func_code,
}
use libirpc.Tpl.{Tpl, Format, Values, int, char, device_handle}
use libirpc.Usb.{Libusb, IsTyped, Transferred, IsTransferred}
use libirpc.Proc.{Proc, done, buffer_overflow, ◌>>=◌}
use libirpc.Proc.Run.{run, server_stopped}
use libirpc.Proc.Overrun.{Sends, Survives, Survives-bind, Survives-if, run-Survives}
use libirpc.Rpc.Base.{Globals, Uninit, IsUninit, irpc_read_func}
use libirpc.Rpc.Transfer.{overwrite}
use libirpc.Rpc.Call.{irpc_call, irpc_dispatch}
use libirpc.Local.{overlay, control, bulk, string}
use libirpc.Server.{rounds, server_loop}

-- The length in a packet of a format that asks for a transfer is within `IRPC_MAX_DATA`. The
-- arguments of `usb_set_interface_alt_setting` travel under the format of those of
-- `usb_get_string_descriptor_ascii`, and are held to the same bound.
abbrev pub Modest : (f : Format) → Values f → Type 0
Modest (device_handle ∷ int ∷ int ∷ int ∷ int ∷ int ∷ int ∷ []) v =
    to_unsigned 16 v.1.1.1.1.1.0 ≤ irpc_max_data
Modest (device_handle ∷ char ∷ int ∷ int ∷ int ∷ []) v = pos_part v.1.1.0 ≤ irpc_max_data
Modest (device_handle ∷ int ∷ int ∷ []) v = pos_part v.1.1.0 ≤ irpc_max_data
Modest f v = Unit

-- A transfer of at most the length of the buffer goes on.
overwritten :
    (u : Uninit) (n : ℕ) (t : Transferred)
    → IsUninit u
    → IsTransferred n t
    → n ≤ irpc_max_data
    → overwrite t.written u.buffer ≡ done (overlay t.written u.buffer)
unfolding overwrite
overwritten u n t memory it fits =
    rw
      (le→leb (length t.written) (length u.buffer)
        (omega (arith, fits, it.size, memory.buffer.size)))
      refl

module _ (L : Libusb) (typed : IsTyped L) where
  dispatch-Survives :
      (f : IrpcFunc) (u : Uninit) (g : Globals L) (i : IrpcInfo)
      → IsUninit u
      → Survives Modest (irpc_dispatch L f context_server u g i)
  unfolding irpc_dispatch func_code
  dispatch-Survives usb_init u g i memory = tt
  dispatch-Survives usb_exit u g i memory = tt
  dispatch-Survives usb_get_device_list u g i memory = tt
  dispatch-Survives usb_close u g i memory = tt
  dispatch-Survives usb_control_transfer u g i memory = λ v fits modest.
      let i' : IrpcInfo = record i {
        req_type = v.1.0;
        req = v.1.1.0;
        val = v.1.1.1.0;
        idx = v.1.1.1.1.0;
        length = v.1.1.1.1.1.0;
        timeout = v.1.1.1.1.1.1.0;
      } in
      let r = (control L u g i').0 in
      let t : IsTransferred (to_unsigned 16 i'.length) r = typed.control _ _ _ _ _ _ _ _ _ in
      rw (overwritten u (to_unsigned 16 i'.length) r memory t modest) tt
  dispatch-Survives usb_bulk_transfer u g i memory = λ v fits modest.
      let i' : IrpcInfo = record i { endpoint = v.1.0; length = v.1.1.0; timeout = v.1.1.1.1.0 } in
      let r = (bulk L u g i').0 in
      let t : IsTransferred (pos_part i'.length) r = typed.bulk _ _ _ _ _ _ in
      rw (overwritten u (pos_part i'.length) r memory t modest) tt
  dispatch-Survives usb_get_string_descriptor_ascii u g i memory = λ v fits modest.
      let i' : IrpcInfo = record i { idx = v.1.0; length = v.1.1.0 } in
      let r = (string L u g i').0 in
      let t : IsTransferred (pos_part i'.length) r = typed.string _ _ _ _ _ in
      rw (overwritten u (pos_part i'.length) r memory t modest) tt
  dispatch-Survives _ u g i memory = λ v fits modest. tt

  call-Survives :
      (func : ℤ) (u : Uninit) (g : Globals L) (i : IrpcInfo)
      → IsUninit u
      → Survives Modest (irpc_call L func context_server u g i)
  unfolding irpc_call
  call-Survives func u g i memory = elim (Option-cases (func_of func)) [
    | inl unknown ↦ rw unknown tt
    | inr (f, named) ↦ rw named (dispatch-Survives f u g i memory)
  ]

  rounds-Survives :
      (us : List Uninit) (func : ℤ) (g : Globals L) (i : IrpcInfo)
      → All IsUninit us
      → Survives Modest (rounds L us func g i)
  unfolding rounds
  rounds-Survives [] func g i memory = λ e. cc
  rounds-Survives (u ∷ us) func g i memory =
      Survives-bind Modest (irpc_call L func context_server u g i) _
        (call-Survives func u g i memory.0)
        λ c.
          Survives-if Modest (eq_ℤ func (pos (func_code usb_exit))) (done c.globals)
            (irpc_read_func c.info.ci.client_sock >>= λ next. rounds L us next c.globals c.info) tt
            (λ v fits modest. rounds-Survives us v.0 c.globals c.info memory.1)

  -- Whatever a client does, as long as every packet that it sends asks for at most
  -- `IRPC_MAX_DATA` bytes under every format of the arguments of a control transfer, a bulk
  -- transfer or a string descriptor with which the server may unpack it, also one that it was not
  -- written with: the server never stops because libusb has written past the end of a local
  -- array. Assumed: libusb keeps to its types, and the uninitialised memory holds values of its
  -- types.
  pub server_loop_fits :
      {A : Type 0} (T : Tpl) (c : Proc A) (us : List Uninit) (g : Globals L) (si : IrpcInfo)
      → All IsUninit us
      → Sends T Modest c
      → run T c [] (server_loop L us g si) [] ≢ server_stopped buffer_overflow
  unfolding server_loop
  server_loop_fits T c us g si memory modest =
      run-Survives Modest T c [] (server_loop L us g si) [] modest tt
        (λ v fits h. rounds-Survives us v.0 g si memory)
