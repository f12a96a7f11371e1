-- ===== src/Local/Reached.antt =====
-- The states of the host that calls can lead to.
use libirpc.Prelude.{ℕ}
use libirpc.Types.{IrpcFunc, IrpcInfo}
use libirpc.Usb.{Libusb}
use libirpc.Rpc.Base.{Globals, Uninit}
use libirpc.Local.{local_call}
use libirpc.Local.Handles.{IsCount, HoldsAll, local_call-HoldsAll}

module _ (L : Libusb) where
  -- `Reached g h`: some sequence of local calls, with any arguments, leads from `g` to `h`.
  pub data Reached (g : Globals L) : Globals L → Type 0 where
    start : Reached g g
    step :
        {h : Globals L}
        → Reached g h
        → (f : IrpcFunc) (u : Uninit) (i : IrpcInfo) → Reached g (local_call L f u h i).globals

  pub Reached-keeps :
      (P : Globals L → Type 0) (g h : Globals L)
      → ((f : IrpcFunc) (u : Uninit) (k : Globals L) (i : IrpcInfo)
          → P k
          → P (local_call L f u k i).globals)
      → Reached g h
      → P g
      → P h
  Reached-keeps P g h keeps start p = p
  Reached-keeps P g h keeps (step before f u i) p =
      keeps f u _ i (Reached-keeps P g _ keeps before p)

  pub Reached-HoldsAll :
      (handles : L.State → ℕ) (count : IsCount L handles) (g h : Globals L)
      → Reached g h
      → HoldsAll L handles count g
      → HoldsAll L handles count h
  Reached-HoldsAll handles count g h =
      Reached-keeps (HoldsAll L handles count) g h (local_call-HoldsAll L handles count)
