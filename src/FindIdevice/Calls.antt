-- ===== src/FindIdevice/Calls.antt =====
-- Which functions irpc_find_idevice.c calls, and what its search leaves behind on the server's
-- host.
use Prim.Native.String.{String}
use libirpc.Prelude.{
  ℕ, zero, suc, ◌≡◌, refl, sym, ◌∙◌, Option, none, some, List, [], ◌∷◌, All, pos, eq_ℤ, is_negative,
  get_elem?,
}
use libirpc.Types.{
  IrpcFunc, usb_init, usb_get_device_list, usb_get_device_descriptor, IrpcDevice, IrpcInfo,
  irpc_failure,
}
use libirpc.Types.Bounds.{IsInfo}
use libirpc.Tpl.{Tpl}
use libirpc.Usb.{Libusb, IsTyped}
use libirpc.Proc.Run.{run, finished}
use libirpc.Rpc.Base.{Globals, Uninit, IsUninit, Called}
use libirpc.Server.{server_loop}
use libirpc.Local.{local_call}
use libirpc.Local.Contexts.{IsContextCount}
use libirpc.Session.{Script, remote}
use libirpc.Session.Refines.{session-local}
use libirpc.Session.Calls.{Calls, Calls-if, Calls-Leads, Leads-usb_init, KeepsContexts}
use libirpc.FindIdevice.{
  usb_init_failed, Report, apple_vendor_id, is_recovery_product, inspect, visit, find_loop,
  try_to_find_idevice, report, main,
}
use libirpc.FindIdevice.Ready.{main-Ready}

module _ (L : Libusb) (ip : String) (F : IrpcFunc → Type 0)
    (describes : F usb_get_device_descriptor) where
  inspect-Calls :
      (c : Called L) (rest : IrpcInfo → Script L Report)
      → ((i : IrpcInfo) → Calls L F (rest i))
      → Calls L F (inspect L c rest (report L ip))
  unfolding main
  inspect-Calls c rest next = Calls-if L F (eq_ℤ c.retval irpc_failure) _ _ tt (
      Calls-if L F (eq_ℤ c.info.desc.id_vendor apple_vendor_id) _ _
        (Calls-if L F (is_recovery_product c.info.desc.id_product) _ _ tt (next c.info))
        (next c.info))

  visit-Calls :
      (o : Option IrpcDevice) (i : IrpcInfo) (rest : IrpcInfo → Script L Report)
      → ((j : IrpcInfo) → Calls L F (rest j))
      → Calls L F (visit L o i rest (report L ip))
  visit-Calls none i rest next = tt
  visit-Calls (some d) i rest next = (describes, λ c. inspect-Calls c rest next)

  find_loop-Calls :
      (left k : ℕ) (devs : List IrpcDevice) (i : IrpcInfo)
      → Calls L F (find_loop L left k devs i (report L ip))
  unfolding find_loop main
  find_loop-Calls zero k devs i = tt
  find_loop-Calls (suc left) k devs i =
      visit-Calls (get_elem? devs k) i _ (λ j. find_loop-Calls left (suc k) devs j)

  search-Calls :
      F usb_get_device_list → (i : IrpcInfo) → Calls L F (try_to_find_idevice L i (report L ip))
  unfolding main
  search-Calls lists i = (lists, λ c. find_loop-Calls _ 0 c.info.devlist.devs c.info)

  main-Calls : F usb_init → F usb_get_device_list → (i : IrpcInfo) → Calls L F (main L ip i)
  unfolding main
  main-Calls begins lists i =
      (begins, λ c. Calls-if L F (is_negative c.retval) _ _ tt (search-Calls lists c.info))

module _ (T : Tpl) (L : Libusb) (ip : String) (typed : IsTyped L) (u : Uninit) (si i : IrpcInfo)
    (info : IsInfo i) (us : List Uninit) (h g : Globals L) (memory : All IsUninit us) (r : Report)
    (h' : Globals L)
    (ended : run T (remote L u g (main L ip i)) [] (server_loop L us h si) [] ≡ finished r h') where
  -- The search opens no device.
  pub search-irpc_handle : h'.irpc_handle ≡ h.irpc_handle
  unfolding local_call
  search-irpc_handle =
      Calls-Leads L g
        (λ f.
          (v : Uninit) (k : Globals L) (j : IrpcInfo)
          → (local_call L f v k j).globals.irpc_handle ≡ k.irpc_handle)
        (λ k. k.irpc_handle ≡ h.irpc_handle) (λ k. k.irpc_handle ≡ h.irpc_handle)
        (λ f keeps v k j e. keeps v k j ∙ e) (λ v k j e. e) (main L ip i)
        (main-Calls L ip _ (λ v k j. refl) (λ v k j. refl) (λ v k j. refl) i) us h r h' refl
        (sym (session-local T L typed u si (main L ip i) us h g (main-Ready L ip i info) memory)
          ∙ ended)

  -- The search ends the context that it begins.
  pub search-contexts :
      (contexts : L.State → ℕ) → IsContextCount L contexts → contexts h'.usb ≡ contexts h.usb
  unfolding main
  search-contexts contexts count =
      Leads-usb_init L g (contexts h.usb) contexts count i
        (λ c. record { retval = pos 1; lines = usb_init_failed ∷ [] }) _
        (λ c. search-Calls L ip KeepsContexts (λ v n. refl) (λ v n. refl) c.info) us h r h' refl
        (sym (session-local T L typed u si (main L ip i) us h g (main-Ready L ip i info) memory)
          ∙ ended)
