-- ===== src/Session/Gives.antt =====
-- Rules for what a client program returns on the host (`local`), where its result is known.
use libirpc.Prelude.{ℕ, suc, ◌≤◌, ◌≡◌, refl, List, [], ◌∷◌, length, arith}
use libirpc.Types.{IrpcFunc, IrpcInfo}
use libirpc.Usb.{Libusb}
use libirpc.Proc.Run.{finished}
use libirpc.Rpc.Base.{Globals, Uninit, Called}
use libirpc.Local.{local_call}
use libirpc.Session.{Script, exit, call, local}

module _ (L : Libusb) {A : Type 0} (g : Globals L) where
  -- With `n` rounds, from any globals of the host, the program returns `r` and the server returns.
  abbrev pub GivesIn : ℕ → A → Script L A → Type 0
  GivesIn n r s =
      (us : List Uninit) (h : Globals L)
      → n ≤ length us
      → (h' : Globals L) × (local L us h g s ≡ finished r h')

  pub GivesIn-exit : (n : ℕ) (i : IrpcInfo) (a : A) → GivesIn (suc n) a (exit i a)
  unfolding local
  GivesIn-exit n i a [] h le = absurd (omega arith)
  GivesIn-exit n i a (u ∷ us) h le = (_, refl)

  -- The rest of the program has to give the result after what the call does on the host.
  pub GivesIn-local_call :
      (n : ℕ) (a : A) (f : IrpcFunc) (i : IrpcInfo) (k : Called L → Script L A)
      → ((u : Uninit) (h : Globals L)
          → GivesIn n a (k (record (local_call L f u h i) { globals = g })))
      → GivesIn (suc n) a (call f i k)
  unfolding local
  GivesIn-local_call n a f i k next [] h le = absurd (omega arith)
  GivesIn-local_call n a f i k next (u ∷ us) h le = next u h us _ (omega arith)
