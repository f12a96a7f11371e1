-- ===== src/Remote/Sockets.antt =====
-- The sockets of `irpc_call` (libirpc.c): a client's packets go over `server_sock` of its info, a
-- server's over `client_sock`, and no call changes either.
use libirpc.Prelude.{
  ◌⊎◌, ◌≡◌, refl, Bool-cases, inl, inr, List, ℤ, pos, leb, length, ◌++◌, drop, Option-cases,
}
use libirpc.Types.{
  IrpcFunc, func_code, func_of, usb_init, usb_exit, usb_get_device_list, usb_close,
  usb_control_transfer, usb_bulk_transfer, usb_get_string_descriptor_ascii, IrpcInfo,
  context_client, context_server,
}
use libirpc.Types.Codes.{func_of-func_code}
use libirpc.Usb.{Libusb}
use libirpc.Proc.{done, stop, buffer_overflow}
use libirpc.Proc.Sockets.{Over}
use libirpc.Rpc.Base.{Globals, Uninit, Called}
use libirpc.Rpc.Transfer.{overwrite}
use libirpc.Local.{control, bulk, string}
use libirpc.Rpc.Call.{irpc_call, irpc_dispatch}

overwrite_cases :
    (written buffer : List ℤ)
    → (overwrite written buffer ≡ stop buffer_overflow)
      ⊎ ((bytes : List ℤ) × (overwrite written buffer ≡ done bytes))
unfolding overwrite
overwrite_cases written buffer = elim (Bool-cases (leb (length written) (length buffer))) [
  | inl fits ↦ inr (written ++ drop (length written) buffer, rw fits refl)
  | inr long ↦ inl (rw long refl)
]

module _ (L : Libusb) (u : Uninit) (g : Globals L) (i : IrpcInfo) where
  -- The sockets of the info are what they were.
  abbrev pub SameSockets : Called L → Type 0
  SameSockets c = c.info.ci ≡ i.ci

  asks-Over :
      (f : IrpcFunc) → Over i.ci.server_sock SameSockets (irpc_dispatch L f context_client u g i)
  unfolding irpc_dispatch
  asks-Over usb_init = (refl, (refl, λ v. refl))
  asks-Over usb_exit = (refl, refl)
  asks-Over usb_get_device_list = (refl, (refl, λ v. refl))
  asks-Over usb_close = (refl, refl)
  asks-Over _ = (refl, (refl, (refl, λ v. refl)))

  answers-Over :
      (f : IrpcFunc) → Over i.ci.client_sock SameSockets (irpc_dispatch L f context_server u g i)
  unfolding irpc_dispatch
  answers-Over usb_init = (refl, refl)
  answers-Over usb_exit = refl
  answers-Over usb_get_device_list = (refl, refl)
  answers-Over usb_close = refl
  answers-Over usb_control_transfer = (
    refl,
    λ v.
        let i' : IrpcInfo = record i {
          req_type = v.1.0;
          req = v.1.1.0;
          val = v.1.1.1.0;
          idx = v.1.1.1.1.0;
          length = v.1.1.1.1.1.0;
          timeout = v.1.1.1.1.1.1.0;
        } in
        elim (overwrite_cases (control L u g i').0.written u.buffer) [
          | inl e ↦ rw e tt
          | inr (bytes, e) ↦ rw e (refl, refl)
        ],
  )
  answers-Over usb_bulk_transfer = (
    refl,
    λ v.
        let i' : IrpcInfo = record i {
          endpoint = v.1.0;
          length = v.1.1.0;
          timeout = v.1.1.1.1.0;
        } in
        elim (overwrite_cases (bulk L u g i').0.written u.buffer) [
          | inl e ↦ rw e tt
          | inr (bytes, e) ↦ rw e (refl, refl)
        ],
  )
  answers-Over usb_get_string_descriptor_ascii = (
    refl,
    λ v.
        let i' : IrpcInfo = record i { idx = v.1.0; length = v.1.1.0 } in
        elim (overwrite_cases (string L u g i').0.written u.buffer) [
          | inl e ↦ rw e tt
          | inr (bytes, e) ↦ rw e (refl, refl)
        ],
  )
  answers-Over _ = (refl, λ v. (refl, refl))

  pub irpc_call-asks :
      (f : IrpcFunc)
      → Over i.ci.server_sock SameSockets (irpc_call L (pos (func_code f)) context_client u g i)
  unfolding irpc_call
  irpc_call-asks f = rw func_of-func_code (asks-Over f)

  pub irpc_call-answers :
      (func : ℤ) → Over i.ci.client_sock SameSockets (irpc_call L func context_server u g i)
  unfolding irpc_call
  irpc_call-answers func = elim (Option-cases (func_of func)) [
    | inl unknown ↦ rw unknown refl
    | inr (f, named) ↦ rw named (answers-Over f)
  ]
