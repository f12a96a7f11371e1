-- ===== src/IrpcClient/Answers.antt =====
-- irpc_client.c against any server.
use libirpc.Prelude.{
  ℕ, zero, suc, ◌+◌, ◌≤◌, ◌<◌, ◌≡◌, ◌↔◌, refl, none, some, ltb, ltb→lt, Bool-cases, ◌≢◌, inl, inr,
  List, [], ◌∷◌, pos_part, length, get_elem?, get_elem?-some, arith,
}
use libirpc.Types.{IrpcDevice, IrpcInfo, irpc_max_devs}
use libirpc.Types.Bounds.{IsInfo}
use libirpc.Usb.{Libusb}
use libirpc.Proc.{buffer_overflow}
use libirpc.Rpc.Base.{Called}
use libirpc.Session.{Script, call, leave, exit, fault}
use libirpc.IrpcClient.{
  Line, device_lines, printed, print_ids_and_open, usb_print_device_list, main,
}
use libirpc.IrpcClient.Finish.{device_lines-some}

get_elem?-none {ℓ} : {A : Type ℓ} (xs : List A) (n : ℕ) → length xs ≤ n → get_elem? xs n ≡ none
get_elem?-none [] n h = refl
get_elem?-none (x ∷ xs) zero h = absurd (omega arith)
get_elem?-none (x ∷ xs) (suc n) h = get_elem?-none xs n (omega arith)

device_lines-none :
    (left i : ℕ) (devs : List IrpcDevice)
    → i ≤ length devs
    → length devs < i + left
    → device_lines left i devs ≡ none
unfolding device_lines
device_lines-none zero i devs h long = absurd (omega arith)
device_lines-none (suc left) i devs h long = elim (Bool-cases (ltb i (length devs))) [
  | inl inside ↦
      let (d, at) = get_elem?-some devs i (ltb→lt i (length devs) inside) in
      rw (
        device_lines,
        at,
        device_lines-none left (suc i) devs (ltb→lt i (length devs) inside) (omega arith),
      )
  | inr past ↦ rw (device_lines, get_elem?-none devs i (ground arith))
]

module _ (L : Libusb) where
  -- What a program does next, once its call is answered so.
  abbrev pub answer : {A : Type 0} → Script L A → Called L → Script L A
  answer (call f i k) c = k c
  answer (leave a) c = leave a
  answer (fault e) c = fault e
  answer (exit i a) c = exit i a

  printed-ne-fault :
      (c : Called L) (ls : List Line)
      → printed L c (some ls) (print_ids_and_open L) ≢ fault buffer_overflow
  unfolding main
  printed-ne-fault c ls = λ e. cc

  -- After any answer to the request that `usb_print_device_list` of irpc_client.c makes, the
  -- client reads past the end of the array while it prints the list exactly if the answer's
  -- `n_devs` is above `IRPC_MAX_DEVS`. Assumed: the info after the call holds values of its
  -- members' types and arrays of their sizes.
  pub usb_print_device_list-overrun :
      (i : IrpcInfo) (c : Called L)
      → IsInfo c.info
      → (answer (usb_print_device_list L i (print_ids_and_open L)) c ≡ fault buffer_overflow)
        ↔ (irpc_max_devs < pos_part c.info.devlist.n_devs)
  unfolding main
  usb_print_device_list-overrun i c h = (
    λ e. elim (Bool-cases (ltb irpc_max_devs (pos_part c.info.devlist.n_devs))) [
      | inl more ↦ ltb→lt _ _ more
      | inr fits ↦
          let (ls, all) =
            device_lines-some (pos_part c.info.devlist.n_devs) 0 c.info.devlist.devs
              (ground (arith, h.devs.size)) in
          absurd (printed-ne-fault c ls (rw all at e))
    ],
    λ more.
        rw
          (device_lines-none (pos_part c.info.devlist.n_devs) 0 c.info.devlist.devs (omega arith)
            (omega (arith, h.devs.size)))
          refl,
  )
