-- ===== src/Session/Ready.antt =====
-- Rules for showing that a client program passes valid arguments to every call.
use libirpc.Prelude.{Bool, true, false, if◌then◌else◌}
use libirpc.Usb.{Libusb}
use libirpc.Rpc.Base.{Called}
use libirpc.Local.Keeps.{IsCalled}
use libirpc.Session.{Script, Ready}

module _ (L : Libusb) {A : Type 0} where
  -- A continuation that may rely on what a call leaves behind.
  abbrev pub Continues : (Called L → Script L A) → Type 0
  Continues k = (c : Called L) → IsCalled L c → Ready L (k c)

  pub Ready-if :
      (b : Bool) (s t : Script L A) → Ready L s → Ready L t → Ready L (if b then s else t)
  Ready-if true s t hs ht = hs
  Ready-if false s t hs ht = ht
