-- ===== src/Proc/Sockets.antt =====
-- The sockets that a process reads and writes: whatever its peer sends, it uses one socket and no
-- other, and what it returns satisfies a postcondition.
use libirpc.Prelude.{ℤ, ◌≡◌, Bool, true, false, if◌then◌else◌}
use libirpc.Tpl.{Values}
use libirpc.Proc.{Proc, done, send, recv, stop, ◌>>=◌}

module _ (sock : ℤ) where
  abbrev pub Over : {A : Type 0} → (A → Type 0) → Proc A → Type 0
  Over P (done a) = P a
  Over P (send s f v p) = (s ≡ sock) × Over P p
  Over P (recv s f k) = (s ≡ sock) × ((v : Values f) → Over P (k v))
  Over P (stop e) = Unit

  pub Over-bind :
      {A B : Type 0} (P : A → Type 0) (Q : B → Type 0) (p : Proc A) (k : A → Proc B)
      → Over P p
      → ((a : A) → P a → Over Q (k a))
      → Over Q (p >>= k)
  Over-bind P Q (done a) k h next = next a h
  Over-bind P Q (send s f v p) k h next = (h.0, Over-bind P Q p k h.1 next)
  Over-bind P Q (recv s f g) k h next = (h.0, λ v. Over-bind P Q (g v) k (h.1 v) next)
  Over-bind P Q (stop e) k h next = tt

  pub Over-if :
      {A : Type 0} (P : A → Type 0) (b : Bool) (p q : Proc A)
      → Over P p
      → Over P q
      → Over P (if b then p else q)
  Over-if P true p q hp hq = hp
  Over-if P false p q hp hq = hq
