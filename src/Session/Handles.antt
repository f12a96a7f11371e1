-- ===== src/Session/Handles.antt =====
-- The handle that the server (irpc_server.c) holds at the end of a conversation.
use libirpc.Prelude.{
  ℕ, ◌≡◌, refl, sym, subst, ◌∙◌, Bool, true, false, List, [], ◌∷◌, All, if◌then◌else◌,
}
use libirpc.Types.{IrpcFunc, usb_exit, IrpcInfo}
use libirpc.Tpl.{Tpl}
use libirpc.Usb.{Libusb, IsTyped}
use libirpc.Proc.{Stop}
use libirpc.Proc.Run.{run, finished}
use libirpc.Rpc.Base.{Globals, Uninit, IsUninit, Called}
use libirpc.Server.{server_loop}
use libirpc.Local.{local_call}
use libirpc.Local.Handles.{IsCount, HoldsAll, local_call-HoldsAll}
use libirpc.Session.{Script, leave, fault, exit, call, remote, local, Ready}
use libirpc.Session.Refines.{session-local}

module _ (L : Libusb) {A : Type 0} (g : Globals L) where
  -- Where the program finishes, the host's globals that it leaves satisfy `Q`, if those that it
  -- meets satisfy `P`.
  abbrev pub Leads : (Globals L → Type 0) → (Globals L → Type 0) → Script L A → Type 0
  Leads P Q s =
      (us : List Uninit) (h : Globals L) (a : A) (h' : Globals L)
      → P h
      → local L us h g s ≡ finished a h'
      → Q h'

  pub Leads-if :
      (P Q : Globals L → Type 0) (b : Bool) (s t : Script L A)
      → (b ≡ true → Leads P Q s)
      → (b ≡ false → Leads P Q t)
      → Leads P Q (if b then s else t)
  Leads-if P Q true s t hs ht = hs refl
  Leads-if P Q false s t hs ht = ht refl

  -- The rest of the program starts at what the call leaves.
  pub Leads-call :
      (P Q : Globals L → Type 0) (f : IrpcFunc) (i : IrpcInfo) (k : Called L → Script L A)
      → ((u : Uninit) (h : Globals L)
          → P h
          → Leads
              (λ h'. h' ≡ (local_call L f u h i).globals)
              Q
              (k (record (local_call L f u h i) { globals = g })))
      → Leads P Q (call f i k)
  unfolding local
  Leads-call P Q f i k next [] h a h' p e = absurd (cc)
  Leads-call P Q f i k next (u ∷ us) h a h' p e = next u h p us _ a h' refl e

  -- The rest of the program needs nothing of what the call leaves.
  pub Leads-any :
      (P Q : Globals L → Type 0) (f : IrpcFunc) (i : IrpcInfo) (k : Called L → Script L A)
      → ((c : Called L) (R : Globals L → Type 0) → Leads R Q (k c))
      → Leads P Q (call f i k)
  Leads-any P Q f i k next = Leads-call P Q f i k (λ u h p. next _ _)

  -- The call leaves a property of the host's globals as it is.
  pub Leads-keep :
      (P Q : Globals L → Type 0) (f : IrpcFunc) (i : IrpcInfo) (k : Called L → Script L A)
      → ((u : Uninit) (h : Globals L) → P h → P (local_call L f u h i).globals)
      → ((c : Called L) → Leads P Q (k c))
      → Leads P Q (call f i k)
  unfolding local
  Leads-keep P Q f i k keeps next [] h a h' p e = absurd (cc)
  Leads-keep P Q f i k keeps next (u ∷ us) h a h' p e =
      next (record (local_call L f u h i) { globals = g }) us _ a h' (keeps u h p) e

  pub Leads-exit :
      (P Q : Globals L → Type 0) (i : IrpcInfo) (a : A)
      → ((u : Uninit) (h : Globals L) → P h → Q (local_call L usb_exit u h i).globals)
      → Leads P Q (exit i a)
  unfolding local
  Leads-exit P Q i a leaves [] h b h' p e = absurd (cc)
  Leads-exit P Q i a leaves (u ∷ us) h b h' p e = subst Q (cc) (leaves u h p)

  pub Leads-leave : (P Q : Globals L → Type 0) (a : A) → Leads P Q (leave a)
  unfolding local
  Leads-leave P Q a us h b h' p e = absurd (cc)

  pub Leads-fault : (P Q : Globals L → Type 0) (x : Stop) → Leads P Q (fault x)
  unfolding local
  Leads-fault P Q x us h b h' p e = absurd (cc)

  Leads-always :
      (P : Globals L → Type 0)
      → ((f : IrpcFunc) (u : Uninit) (h : Globals L) (i : IrpcInfo)
          → P h
          → P (local_call L f u h i).globals)
      → (s : Script L A) → Leads P P s
  unfolding local
  Leads-always P keeps (leave b) us h a h' p e = absurd (cc)
  Leads-always P keeps (fault x) us h a h' p e = absurd (cc)
  Leads-always P keeps (exit i b) [] h a h' p e = absurd (cc)
  Leads-always P keeps (exit i b) (u ∷ us) h a h' p e = subst P (cc) (keeps usb_exit u h i p)
  Leads-always P keeps (call f i k) [] h a h' p e = absurd (cc)
  Leads-always P keeps (call f i k) (u ∷ us) h a h' p e =
      Leads-always P keeps (k (record (local_call L f u h i) { globals = g })) us _ a h'
        (keeps f u h i p) e

module _ (T : Tpl) (L : Libusb) (typed : IsTyped L) (handles : L.State → ℕ)
    (count : IsCount L handles) {A : Type 0} where
  -- A conversation after which client and server both return leaves no open handle but the one in
  -- the server's `irpc_handle`, if it was so before. Assumed: libusb keeps to its types and
  -- counts its handles, the client passes valid infos and lengths, and the uninitialised memory
  -- holds bytes.
  pub session-HoldsAll :
      (s : Script L A) (u : Uninit) (us : List Uninit) (si : IrpcInfo) (h g : Globals L) (a : A)
      (h' : Globals L)
      → Ready L s
      → All IsUninit us
      → HoldsAll L handles count h
      → run T (remote L u g s) [] (server_loop L us h si) [] ≡ finished a h'
      → HoldsAll L handles count h'
  session-HoldsAll s u us si h g a h' ready memory all e =
      Leads-always L g (HoldsAll L handles count) (local_call-HoldsAll L handles count) s us h a h'
        all (sym (session-local T L typed u si s us h g ready memory) ∙ e)
