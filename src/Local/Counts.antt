-- ===== src/Local/Counts.antt =====
-- What libirpc.c holds of libusb on a host: handles, contexts and device lists.
use libirpc.Prelude.{ℕ, suc, ◌≤◌, ◌≡◌, none}
use libirpc.Usb.{Libusb}
use libirpc.Rpc.Base.{Globals}
use libirpc.Local.Handles.{IsCount}
use libirpc.Local.Contexts.{IsContextCount}
use libirpc.Local.Lists.{IsListCount}

-- The numbers of open handles, of contexts that are not ended and of lists that are not freed.
pub record Counts (L : Libusb) : Type 0 where
  pub handles : L.State → ℕ
  pub contexts : L.State → ℕ
  pub lists : L.State → ℕ
  pub handles-IsCount : IsCount L handles
  pub contexts-IsContextCount : IsContextCount L contexts
  pub lists-IsListCount : IsListCount L lists

-- From `h` to `h'` libirpc.c has given back what it got, but for one list at most: no handle is
-- open, and there are as many contexts as before.
pub record GivesBack (L : Libusb) (counts : Counts L) (h h' : Globals L) : Type 0 where
  pub irpc_handle : h'.irpc_handle ≡ none
  pub handles : counts.handles h'.usb ≡ 0
  pub contexts : counts.contexts h'.usb ≡ counts.contexts h.usb
  pub lists : counts.lists h'.usb ≤ suc (counts.lists h.usb)
