-- ===== src/Session/Finish.antt =====
-- Rules for how a client program ends on the host (`local`): that it finishes within a number of
-- rounds, and what its result satisfies.
use libirpc.Prelude.{
  ℕ, suc, ◌≤◌, ◌≡◌, refl, subst, Bool, true, false, List, [], ◌∷◌, length, if◌then◌else◌, arith,
}
use libirpc.Types.{IrpcFunc, IrpcInfo}
use libirpc.Usb.{Libusb}
use libirpc.Proc.Run.{finished}
use libirpc.Rpc.Base.{Globals, Uninit, Called}
use libirpc.Local.{local_call}
use libirpc.Session.{Script, leave, fault, exit, call, local}

module _ (L : Libusb) {A : Type 0} (g : Globals L) where
  -- With `n` rounds, from any globals of the host, the program and the server both return.
  abbrev pub FinishesIn : ℕ → Script L A → Type 0
  FinishesIn n s =
      (us : List Uninit) (h : Globals L)
      → n ≤ length us
      → (r : A) × (h' : Globals L) × (local L us h g s ≡ finished r h')

  pub FinishesIn-exit : (i : IrpcInfo) (a : A) → FinishesIn 1 (exit i a)
  unfolding local
  FinishesIn-exit i a [] h le = absurd (omega arith)
  FinishesIn-exit i a (u ∷ us) h le = (a, _, refl)

  pub FinishesIn-mono : (m n : ℕ) (s : Script L A) → m ≤ n → FinishesIn m s → FinishesIn n s
  FinishesIn-mono m n s le fin us h long = fin us h (omega arith)

  pub FinishesIn-if :
      (n : ℕ) (b : Bool) (s t : Script L A)
      → FinishesIn n s
      → FinishesIn n t
      → FinishesIn n (if b then s else t)
  FinishesIn-if n true s t fs ft = fs
  FinishesIn-if n false s t fs ft = ft

  -- The rest of the program has to finish after what the call does on the host.
  pub FinishesIn-local_call :
      (n : ℕ) (f : IrpcFunc) (i : IrpcInfo) (k : Called L → Script L A)
      → ((u : Uninit) (h : Globals L)
          → FinishesIn n (k (record (local_call L f u h i) { globals = g })))
      → FinishesIn (suc n) (call f i k)
  unfolding local
  FinishesIn-local_call n f i k next [] h le = absurd (omega arith)
  FinishesIn-local_call n f i k next (u ∷ us) h le = next u h us _ (omega arith)

  pub FinishesIn-call :
      (n : ℕ) (f : IrpcFunc) (i : IrpcInfo) (k : Called L → Script L A)
      → ((c : Called L) → FinishesIn n (k c))
      → FinishesIn (suc n) (call f i k)
  FinishesIn-call n f i k next = FinishesIn-local_call n f i k (λ u h. next _)

module _ (L : Libusb) {A : Type 0} (P : A → Type 0) where
  -- Every result that the program can return satisfies `P`.
  abbrev pub Results : Script L A → Type 0
  Results (leave a) = P a
  Results (fault e) = Unit
  Results (exit i a) = P a
  Results (call f i k) = (c : Called L) → Results (k c)

  pub Results-if :
      (b : Bool) (s t : Script L A) → Results s → Results t → Results (if b then s else t)
  Results-if true s t hs ht = hs
  Results-if false s t hs ht = ht

  pub Results-cases :
      (b : Bool) (s t : Script L A)
      → (b ≡ true → Results s)
      → (b ≡ false → Results t)
      → Results (if b then s else t)
  Results-cases true s t hs ht = hs refl
  Results-cases false s t hs ht = ht refl

  pub Results-local :
      (s : Script L A) (us : List Uninit) (h g : Globals L) (a : A) (h' : Globals L)
      → Results s
      → local L us h g s ≡ finished a h'
      → P a
  unfolding local
  Results-local (leave b) us h g a h' r e = absurd (cc)
  Results-local (fault x) us h g a h' r e = absurd (cc)
  Results-local (exit i b) [] h g a h' r e = absurd (cc)
  Results-local (exit i b) (u ∷ us) h g a h' r e = subst P (cc) r
  Results-local (call f i k) [] h g a h' r e = absurd (cc)
  Results-local (call f i k) (u ∷ us) h g a h' r e = Results-local (k _) us _ g a h' (r _) e
