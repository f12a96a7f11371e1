-- ===== src/FindIdevice/Ready.antt =====
-- The arguments that irpc_find_idevice.c passes to its calls of `irpc_call`.
use Prim.Native.String.{String}
use libirpc.Prelude.{
  ℕ, zero, suc, ◌≡◌, refl, subst, Option, none, some, List, [], ◌∷◌, All, pos_part, eq_ℤ,
  is_negative, get_elem?,
}
use libirpc.Types.{IrpcDevice, IrpcInfo, irpc_failure}
use libirpc.Types.Bounds.{IsInfo, IsDevice}
use libirpc.Types.Updates.{IsInfo-dev}
use libirpc.Usb.{Libusb}
use libirpc.Rpc.Base.{Called}
use libirpc.Session.{Script, Ready}
use libirpc.Session.Ready.{Ready-if}
use libirpc.FindIdevice.{
  Report, apple_vendor_id, is_recovery_product, inspect, visit, find_loop, report, main,
}

All-get_elem? :
    (devs : List IrpcDevice) (n : ℕ) (d : IrpcDevice)
    → All IsDevice devs
    → get_elem? devs n ≡ some d
    → IsDevice d
All-get_elem? [] n d h e = absurd (cc)
All-get_elem? (x ∷ devs) zero d h e = subst IsDevice (cc) h.0
All-get_elem? (x ∷ devs) (suc n) d h e = All-get_elem? devs n d h.1 e

module _ (L : Libusb) (ip : String) where
  inspect-Ready :
      (c : Called L) (rest : IrpcInfo → Script L Report)
      → IsInfo c.info
      → ((i : IrpcInfo) → IsInfo i → Ready L (rest i))
      → Ready L (inspect L c rest (report L ip))
  unfolding main
  inspect-Ready c rest h next = Ready-if L (eq_ℤ c.retval irpc_failure) _ _ h (
      Ready-if L (eq_ℤ c.info.desc.id_vendor apple_vendor_id) _ _
        (Ready-if L (is_recovery_product c.info.desc.id_product) _ _ h (next c.info h))
        (next c.info h))

  visit-Ready :
      (o : Option IrpcDevice) (i : IrpcInfo) (rest : IrpcInfo → Script L Report)
      → IsInfo i
      → ((d : IrpcDevice) → o ≡ some d → IsDevice d)
      → ((j : IrpcInfo) → IsInfo j → Ready L (rest j))
      → Ready L (visit L o i rest (report L ip))
  visit-Ready none i rest h dev next = tt
  visit-Ready (some d) i rest h dev next =
      ((λ e. cc), IsInfo-dev h (dev d refl), tt, λ c kept. inspect-Ready c rest kept.info next)

  find_loop-Ready :
      (left n : ℕ) (devs : List IrpcDevice) (i : IrpcInfo)
      → All IsDevice devs
      → IsInfo i
      → Ready L (find_loop L left n devs i (report L ip))
  unfolding find_loop main
  find_loop-Ready zero n devs i all h = h
  find_loop-Ready (suc left) n devs i all h =
      visit-Ready (get_elem? devs n) i _ h (λ d e. All-get_elem? devs n d all e)
        (λ j hj. find_loop-Ready left (suc n) devs j all hj)

  pub main-Ready : (i : IrpcInfo) → IsInfo i → Ready L (main L ip i)
  unfolding main
  main-Ready i h = (
    (λ e. cc),
    h,
    tt,
    λ c kept. Ready-if L (is_negative c.retval) _ _ tt (
      (λ e. cc),
      kept.info,
      tt,
      λ d kept'.
          find_loop-Ready (pos_part d.info.devlist.n_devs) 0 d.info.devlist.devs d.info
            kept'.info.devs.each kept'.info,
    ),
  )
