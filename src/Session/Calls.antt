-- ===== src/Session/Calls.antt =====
-- Client programs that make only calls of some functions, and what such calls leave as it is on the
-- server's host.
use libirpc.Prelude.{
  ℕ, ◌+◌, ◌≡◌, sym, ap, subst, ◌∙◌, Bool, true, false, Option, List, if◌then◌else◌, ℤ, is_negative,
  arith,
}
use libirpc.Types.{IrpcFunc, IrpcInfo, usb_init, usb_exit}
use libirpc.Usb.{Libusb}
use libirpc.Rpc.Base.{Globals, Uninit, Called}
use libirpc.Local.{local_call}
use libirpc.Local.Contexts.{IsContextCount, tally, local_call-contexts, usb_init-contexts}
use libirpc.Local.Lists.{IsListCount, leaked, local_call-lists}
use libirpc.Session.{Script, leave, fault, exit, call}
use libirpc.Session.Handles.{
  Leads, Leads-keep, Leads-call, Leads-if, Leads-exit, Leads-leave, Leads-fault,
}

module _ (L : Libusb) {A : Type 0} (F : IrpcFunc → Type 0) where
  -- Every call but the exit is of a function in `F`.
  abbrev pub Calls : Script L A → Type 0
  Calls (leave a) = Unit
  Calls (fault e) = Unit
  Calls (exit i a) = Unit
  Calls (call f i k) = F f × ((c : Called L) → Calls (k c))

  pub Calls-if : (b : Bool) (s t : Script L A) → Calls s → Calls t → Calls (if b then s else t)
  Calls-if true s t hs ht = hs
  Calls-if false s t hs ht = ht

module _ (L : Libusb) {A : Type 0} (g : Globals L) where
  pub Calls-Leads :
      (F : IrpcFunc → Type 0) (P Q : Globals L → Type 0)
      → ((f : IrpcFunc)
          → F f
          → (u : Uninit) (h : Globals L) (i : IrpcInfo) → P h
          → P (local_call L f u h i).globals)
      → ((u : Uninit) (h : Globals L) (i : IrpcInfo)
          → P h
          → Q (local_call L usb_exit u h i).globals)
      → (s : Script L A) → Calls L F s
      → Leads L g P Q s
  Calls-Leads F P Q keeps leaves (leave a) calls = Leads-leave L g P Q a
  Calls-Leads F P Q keeps leaves (fault e) calls = Leads-fault L g P Q e
  Calls-Leads F P Q keeps leaves (exit i a) calls = Leads-exit L g P Q i a (λ u h p. leaves u h i p)
  Calls-Leads F P Q keeps leaves (call f i k) (holds, calls) =
      Leads-keep L g P Q f i k (λ u h p. keeps f holds u h i p)
        λ c. Calls-Leads F P Q keeps leaves (k c) (calls c)

-- A function that neither begins nor ends a context.
abbrev pub KeepsContexts : IrpcFunc → Type 0
KeepsContexts f = (retval : ℤ) (n : ℕ) → tally f retval n ≡ n

-- A function that leaves no list unfreed.
abbrev pub KeepsLists : Libusb → IrpcFunc → Type 0
KeepsLists L f = (l : Option (List L.Device)) (retval : ℤ) → leaked f l retval ≡ 0

module _ (L : Libusb) {A : Type 0} (g : Globals L) (n : ℕ) (s : Script L A) where
  -- The exit ends the one context.
  pub Calls-contexts :
      (contexts : L.State → ℕ)
      → IsContextCount L contexts
      → Calls L KeepsContexts s
      → Leads L g (λ h. contexts h.usb ≡ n + 1) (λ h. contexts h.usb ≡ n) s
  Calls-contexts contexts count =
      Calls-Leads L g KeepsContexts _ _
        (λ f keeps u h i e. local_call-contexts L contexts count f u h i ∙ keeps _ _ ∙ e)
        (λ u h i e. omega (arith, local_call-contexts L contexts count usb_exit u h i, e)) s

  pub Calls-lists :
      (lists : L.State → ℕ)
      → IsListCount L lists
      → (P : ℕ → Type 0) → Calls L (KeepsLists L) s
      → Leads L g (λ h. P (lists h.usb)) (λ h. P (lists h.usb)) s
  Calls-lists lists count P =
      Calls-Leads L g (KeepsLists L) _ _
        (λ f keeps u h i p.
          subst P (sym (omega (arith, local_call-lists L lists count f u h i, keeps _ _))) p)
        (λ u h i p. subst P (sym (omega (arith, local_call-lists L lists count usb_exit u h i))) p)
        s

module _ (L : Libusb) {A : Type 0} (g : Globals L) (n : ℕ) (contexts : L.State → ℕ)
    (count : IsContextCount L contexts) where
  -- A program that begins with `usb_init`, leaves where that fails and goes on without it.
  pub Leads-usb_init :
      (i : IrpcInfo) (a : Called L → A) (k : Called L → Script L A)
      → ((c : Called L) → Calls L KeepsContexts (k c))
      → Leads L g
          (λ h. contexts h.usb ≡ n)
          (λ h. contexts h.usb ≡ n)
          (call usb_init i (λ c. if is_negative c.retval then leave (a c) else k c))
  Leads-usb_init i a k calls =
      Leads-call L g _ (λ h. contexts h.usb ≡ n) usb_init i _
        λ u h e.
          let c : Called L = record (local_call L usb_init u h i) { globals = g } in
          Leads-if L g _ (λ h. contexts h.usb ≡ n) (is_negative c.retval) _ _
            (λ failed. Leads-leave L g _ (λ h. contexts h.usb ≡ n) (a c))
            λ fine us h' b h'' same.
              Calls-contexts L g n (k c) contexts count (calls c) us h' b h'' (
                ap (λ (x : Globals L). contexts x.usb) same
                ∙ usb_init-contexts L contexts count u h i n fine e)
