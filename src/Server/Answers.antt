-- ===== src/Server/Answers.antt =====
-- irpc_server.c against any client: the rounds of its loop, and the packets that it sends.
use libirpc.Prelude.{
  ℕ, ◌≡◌, ◌⊎◌, refl, Bool-cases, inl, inr, List, [], ◌∷◌, All, ℤ, pos, Option-cases, length, leb,
  leb→le, eq_ℤ, to_unsigned, pos_part, arith,
}
use libirpc.Types.{
  IrpcFunc, usb_init, usb_exit, usb_get_device_list, usb_get_device_descriptor,
  usb_open_device_with_vid_pid, usb_close, usb_open, usb_claim_interface, usb_release_interface,
  usb_get_configuration, usb_set_configuration, usb_set_interface_alt_setting, usb_reset_device,
  usb_control_transfer, usb_bulk_transfer, usb_clear_halt, usb_get_string_descriptor_ascii,
  IrpcInfo, context_server, func_of, irpc_max_data, func_code,
}
use libirpc.Types.Bounds.{IsBytes}
use libirpc.Usb.{Libusb, IsTyped, Transferred, IsTransferred}
use libirpc.Proc.{done, stop, buffer_overflow, ◌>>=◌}
use libirpc.Proc.Ensures.{Ensures, Ensures-mono, Ensures-bind, Ensures-if}
use libirpc.Rpc.Base.{Globals, Uninit, IsUninit, Called, irpc_read_func}
use libirpc.Rpc.Transfer.{overwrite}
use libirpc.Rpc.Call.{irpc_call, irpc_dispatch}
use libirpc.Local.{local_call, overlay, control, bulk, string}
use libirpc.Local.Table.{copy_devices-device_table}
use libirpc.Remote.Fits.{
  zero_or_failure-IsInt, device_table-n_devs, device_table-IsDevices, describe-Fits,
  handle_or_zero-IsDevice, open_found-Fits, overlay-IsBytes, status_of-IsInt,
}
use libirpc.Remote.Transfer.{or_keep-IsInt, words-IsBytes}
use libirpc.Server.{rounds, server_loop}

-- The server goes on from a transfer with a full buffer, or stops.
overwrite_cases :
    (u : Uninit) (n : ℕ) (t : Transferred)
    → IsUninit u
    → IsTransferred n t
    → (overwrite t.written u.buffer ≡ stop buffer_overflow)
      ⊎ ((bytes : List ℤ) × (overwrite t.written u.buffer ≡ done bytes)
          × IsBytes irpc_max_data bytes)
unfolding overwrite
overwrite_cases u n t memory it = elim (Bool-cases (leb (length t.written) (length u.buffer))) [
  | inl fits ↦ inr (
    overlay t.written u.buffer,
    rw fits,
    overlay-IsBytes irpc_max_data t.written u.buffer
        (omega (arith, leb→le (length t.written) (length u.buffer) fits, memory.buffer.size))
        it.chars memory.buffer,
  )
  | inr long ↦ inl (rw long)
]

module _ (L : Libusb) (typed : IsTyped L) (u : Uninit) (memory : IsUninit u) (g : Globals L) where
  -- What a round does to the host is what a local call of the function does, with some arguments.
  abbrev pub Served : IrpcFunc → Called L → Type 0
  Served f c = (i : IrpcInfo) × (c.globals ≡ (local_call L f u g i).globals)

  pub dispatch-Served :
      (f : IrpcFunc) (i : IrpcInfo) → Ensures (Served f) (irpc_dispatch L f context_server u g i)
  unfolding irpc_dispatch local_call func_code
  dispatch-Served usb_init i = ((typed.init g.irpc_ctx g.usb, tt), (i, refl))
  dispatch-Served usb_exit i = (i, refl)
  dispatch-Served usb_get_device_list i =
      rw copy_devices-device_table
        ((device_table-n_devs L typed _, (device_table-IsDevices L typed _, tt)), (i, refl))
  dispatch-Served usb_get_device_descriptor i = λ v fits.
      let d = describe-Fits L typed _ _ _ in ((d.0, (d.1, tt)), (record i { dev = v.0 }, refl))
  dispatch-Served usb_open_device_with_vid_pid i = λ v fits. (
    (handle_or_zero-IsDevice L typed _, tt),
    (record i { vendor_id = v.0; product_id = v.1.0 }, refl),
  )
  dispatch-Served usb_close i = (i, refl)
  dispatch-Served usb_open i = λ v fits.
      let o = open_found-Fits L typed _ _ _ _ _ memory in
      ((o.0, (o.1, tt)), (record i { dev = v.0 }, refl))
  dispatch-Served usb_claim_interface i =
      λ v fits. ((zero_or_failure-IsInt _, tt), (record i { intf = v.1.0 }, refl))
  dispatch-Served usb_release_interface i =
      λ v fits. ((zero_or_failure-IsInt _, tt), (record i { intf = v.1.0 }, refl))
  dispatch-Served usb_get_configuration i = λ v fits. ((zero_or_failure-IsInt _, tt), (i, refl))
  dispatch-Served usb_set_configuration i =
      λ v fits. ((zero_or_failure-IsInt _, tt), (record i { config = v.1.0 }, refl))
  dispatch-Served usb_set_interface_alt_setting i = λ v fits.
      ((zero_or_failure-IsInt _, tt), (record i { intf = v.1.0; alt_setting = v.1.1.0 }, refl))
  dispatch-Served usb_reset_device i = λ v fits. ((zero_or_failure-IsInt _, tt), (i, refl))
  dispatch-Served usb_clear_halt i =
      λ v fits. ((zero_or_failure-IsInt _, tt), (record i { endpoint = v.1.0 }, refl))
  dispatch-Served usb_control_transfer i = λ v fits.
      let i' : IrpcInfo = record i {
        req_type = v.1.0;
        req = v.1.1.0;
        val = v.1.1.1.0;
        idx = v.1.1.1.1.0;
        length = v.1.1.1.1.1.0;
        timeout = v.1.1.1.1.1.1.0;
      } in
      let r = (control L u g i').0 in
      let t : IsTransferred (to_unsigned 16 i'.length) r = typed.control _ _ _ _ _ _ _ _ _ in
      elim (overwrite_cases u (to_unsigned 16 i'.length) r memory t) [
        | inl long ↦ rw long tt
        | inr (bytes, e, b) ↦
            rw e ((t.code, (status_of-IsInt _ irpc_max_data _ b, (b, tt))), (i', refl))
      ]
  dispatch-Served usb_bulk_transfer i = λ v fits.
      let i' : IrpcInfo = record i { endpoint = v.1.0; length = v.1.1.0; timeout = v.1.1.1.1.0 } in
      let r = (bulk L u g i').0 in
      let t : IsTransferred (pos_part i'.length) r = typed.bulk _ _ _ _ _ _ in
      elim (overwrite_cases u (pos_part i'.length) r memory t) [
        | inl long ↦ rw long tt
        | inr (bytes, e, b) ↦ rw e (
          (
            t.code,
            (or_keep-IsInt _ _ t.count fits.1.1.1.0, (words-IsBytes _ _ b memory.beyond, tt)),
          ),
          (i', refl),
        )
      ]
  dispatch-Served usb_get_string_descriptor_ascii i = λ v fits.
      let i' : IrpcInfo = record i { idx = v.1.0; length = v.1.1.0 } in
      let r = (string L u g i').0 in
      let t : IsTransferred (pos_part i'.length) r = typed.string _ _ _ _ _ in
      elim (overwrite_cases u (pos_part i'.length) r memory t) [
        | inl long ↦ rw long tt
        | inr (bytes, e, b) ↦ rw e ((t.code, (b, tt)), (i', refl))
      ]

module _ (L : Libusb) (typed : IsTyped L) (P : Globals L → Type 0)
    (keeps : (f : IrpcFunc) (u : Uninit) (g : Globals L) (i : IrpcInfo)
      → P g
      → P (local_call L f u g i).globals) where
  call-Ensures :
      (func : ℤ) (u : Uninit) (g : Globals L) (i : IrpcInfo)
      → IsUninit u
      → P g
      → Ensures (λ (c : Called L). P c.globals) (irpc_call L func context_server u g i)
  unfolding irpc_call
  call-Ensures func u g i memory h = elim (Option-cases (func_of func)) [
    | inl unknown ↦ rw unknown h
    | inr (f, named) ↦ rw named (
        Ensures-mono (Served L typed u memory g f) (λ c. P c.globals) _
          (dispatch-Served L typed u memory g f i) (λ c (j, e). rw e (keeps f u g j h)))
  ]

  rounds-Ensures :
      (us : List Uninit) (func : ℤ) (g : Globals L) (i : IrpcInfo)
      → All IsUninit us
      → P g
      → Ensures P (rounds L us func g i)
  unfolding rounds
  rounds-Ensures [] func g i memory h = tt
  rounds-Ensures (u ∷ us) func g i memory h =
      Ensures-bind (λ (c : Called L). P c.globals) P (irpc_call L func context_server u g i) _
        (call-Ensures func u g i memory.0 h)
        (λ c hc.
          Ensures-if P (eq_ℤ func (pos (func_code usb_exit))) (done c.globals)
            (irpc_read_func c.info.ci.client_sock >>= λ next. rounds L us next c.globals c.info)
            (λ e. hc) (λ e v fits. rounds-Ensures us v.0 c.globals c.info memory.1 hc))

  -- Whatever packets a client sends, as long as they hold values of the types in the format under
  -- which the server loads them: every packet that the server's loop sends holds values of the
  -- types in its format, and where the loop is left, the globals have any property that every
  -- local call keeps and that they had before. Assumed: libusb keeps to its types, and the
  -- uninitialised memory holds values of its types.
  pub server_loop-Ensures :
      (us : List Uninit) (g : Globals L) (si : IrpcInfo)
      → All IsUninit us
      → P g
      → Ensures P (server_loop L us g si)
  unfolding server_loop
  server_loop-Ensures us g si memory h = λ v fits. rounds-Ensures us v.0 g si memory h
