-- ===== src/FindIdevice/Recovery.antt =====
-- What irpc_find_idevice.c reports.
use Prim.Native.String.{String}
use libirpc.Prelude.{
  ℕ, zero, suc, ◌≤◌, ◌⊎◌, ◌≡◌, ap, sym, subst, ◌∙◌, Bool-cases, inl, inr, true, Option, none, some,
  List, [], ◌∷◌, All, ℤ, pos, negsuc, pos_part, eq_ℤ, is_negative, get_elem?, arith,
}
use libirpc.Types.{IrpcDevice, IrpcInfo, irpc_failure}
use libirpc.Types.Bounds.{IsInfo}
use libirpc.Tpl.{Tpl}
use libirpc.Usb.{Libusb, IsTyped}
use libirpc.Proc.Ensures.{Ensures}
use libirpc.Session.Answers.{remote-Ensures}
use libirpc.Proc.Run.{run, finished}
use libirpc.Rpc.Base.{Globals, Uninit, IsUninit, Called}
use libirpc.Server.{server_loop}
use libirpc.Session.{Script, remote}
use libirpc.Session.Refines.{session-local}
use libirpc.Session.Finish.{Results, Results-if, Results-local}
use libirpc.FindIdevice.{
  Report, found, looking, apple_vendor_id, is_recovery_product, inspect, visit, find_loop, report,
  main,
}
use libirpc.FindIdevice.Ready.{main-Ready}

-- The product id of a recovery mode, 0x1280 to 0x1283, or of DFU mode, 0x1227.
abbrev pub IsModeId : ℤ → Type 0
IsModeId (pos n) = ((0x1280 ≤ n) × (n ≤ 0x1283)) ⊎ (n ≡ 0x1227)
IsModeId (negsuc n) = ⊥

-- A report that names a device names an Apple device in recovery or DFU mode.
abbrev pub Recovery : Report → Type 0
Recovery r =
    (ip : String) (v p : ℤ) → r.lines ≡ looking ip ∷ found v p ∷ [] → (v ≡ pos 0x05AC) × IsModeId p

is_recovery_product-IsModeId : (p : ℤ) → is_recovery_product p ≡ true → IsModeId p
unfolding is_recovery_product
is_recovery_product-IsModeId (pos n) h = ground arith
is_recovery_product-IsModeId (negsuc n) h = absurd (ground arith)

vendor : (x v : ℤ) → x ≡ v → eq_ℤ x apple_vendor_id ≡ true → v ≡ pos 0x05AC
vendor x v e h = sym e ∙ same x h
  where
    same : (y : ℤ) → eq_ℤ y apple_vendor_id ≡ true → y ≡ pos 0x05AC
    same (pos n) h = ap pos (ground arith)
    same (negsuc n) h = absurd (ground arith)

module _ (L : Libusb) (ip : String) where
  inspect-Recovery :
      (c : Called L) (rest : IrpcInfo → Script L Report)
      → ((i : IrpcInfo) → Results L Recovery (rest i))
      → Results L Recovery (inspect L c rest (report L ip))
  unfolding main
  inspect-Recovery c rest next =
      Results-if L Recovery (eq_ℤ c.retval irpc_failure) _ _ (λ at v p e. absurd (cc))
        (elim (Bool-cases (eq_ℤ c.info.desc.id_vendor apple_vendor_id)) [
          | inl apple ↦ rw apple (elim (Bool-cases (is_recovery_product c.info.desc.id_product)) [
            | inl mode ↦ rw mode (λ at v p e. (
              vendor c.info.desc.id_vendor v (cc) apple,
              subst IsModeId (cc) (is_recovery_product-IsModeId _ mode),
            ))
            | inr other ↦ rw other (next c.info)
          ])
          | inr other ↦ rw other (next c.info)
        ])

  visit-Recovery :
      (o : Option IrpcDevice) (i : IrpcInfo) (rest : IrpcInfo → Script L Report)
      → ((j : IrpcInfo) → Results L Recovery (rest j))
      → Results L Recovery (visit L o i rest (report L ip))
  visit-Recovery none i rest next = tt
  visit-Recovery (some d) i rest next = λ c. inspect-Recovery c rest next

  find_loop-Recovery :
      (left n : ℕ) (devs : List IrpcDevice) (i : IrpcInfo)
      → Results L Recovery (find_loop L left n devs i (report L ip))
  unfolding find_loop main
  find_loop-Recovery zero n devs i = λ at v p e. absurd (cc)
  find_loop-Recovery (suc left) n devs i =
      visit-Recovery (get_elem? devs n) i _ (λ j. find_loop-Recovery left (suc n) devs j)

  main-Results : (i : IrpcInfo) → Results L Recovery (main L ip i)
  unfolding main
  main-Results i = λ c.
      Results-if L Recovery (is_negative c.retval) _ _ (λ at v p e. absurd (cc))
        (λ d. find_loop-Recovery (pos_part d.info.devlist.n_devs) 0 d.info.devlist.devs d.info)

module _ (T : Tpl) (L : Libusb) (ip : String) (typed : IsTyped L) (u : Uninit) (si i : IrpcInfo)
    (info : IsInfo i) (us : List Uninit) (h g : Globals L) (memory : All IsUninit us) where
  -- Whatever devices the server has and whatever their answers: if irpc_find_idevice.c and the
  -- server both return and the output is that it looked and found vendor `v` and product `p`,
  -- then `v` is Apple's vendor id and `p` the product id of a recovery mode or of DFU mode.
  -- Assumed: libusb keeps to its types, and the client's info and the uninitialised memory hold
  -- values of their types.
  pub main-Recovery :
      (r : Report) (h' : Globals L)
      → run T (remote L u g (main L ip i)) [] (server_loop L us h si) [] ≡ finished r h'
      → Recovery r
  main-Recovery r h' e =
      Results-local L Recovery (main L ip i) us h g r h' (main-Results L ip i) (
        sym (session-local T L typed u si (main L ip i) us h g (main-Ready L ip i info) memory) ∙ e)

module _ (L : Libusb) (ip : String) (u : Uninit) (g : Globals L) (i : IrpcInfo)
    (info : IsInfo i) where
  -- Whatever packets a server answers, as long as they hold values of the types in the format
  -- under which the client loads them: every packet that irpc_find_idevice.c sends holds values
  -- of the types in its format, and where it returns and its output is that it looked and found
  -- vendor `v` and product `p`, then `v` is Apple's vendor id, 0x05AC, and `p` is from 0x1280 to
  -- 0x1283, the product ids of the recovery modes, or 0x1227, that of DFU mode. Assumed: the
  -- client's info holds values of its types.
  pub search-Ensures : Ensures Recovery (remote L u g (main L ip i))
  search-Ensures =
      remote-Ensures L Recovery u (main L ip i) g (main-Ready L ip i info) (main-Results L ip i)
