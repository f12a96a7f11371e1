-- ===== src/Proc/Overrun.antt =====
-- A server that runs past no array as long as the packets that it reads satisfy a condition, and
-- the clients whose packets do.
use libirpc.Prelude.{
  ◌≢◌, Bool, true, false, if◌then◌else◌, Option-cases, inl, inr, List, [], ◌∷◌, All,
}
use libirpc.Tpl.{Tpl, Format, Values, FitsAll}
use libirpc.Tpl.Equality.{Holds}
use libirpc.Proc.{Proc, done, send, recv, stop, buffer_overflow, ◌>>=◌}
use libirpc.Proc.Run.{run, server_stopped}

module _ (T : Tpl) (R : (f : Format) → Values f → Type 0) {A : Type 0} where
  -- Every packet that the process sends satisfies the condition under every format that it can be
  -- read with, as long as the packets that the process reads hold values of the C types that their
  -- formats name.
  abbrev pub Sends : Proc A → Type 0
  Sends (done a) = Unit
  Sends (send s f v p) = Holds T R (T.dump f v) × Sends p
  Sends (recv s f k) = (v : Values f) → FitsAll f v → Sends (k v)
  Sends (stop e) = Unit

module _ (R : (f : Format) → Values f → Type 0) where
  -- The process runs past no array, as long as the packets that it reads satisfy the condition and
  -- hold values of the C types that their formats name.
  abbrev pub Survives : {A : Type 0} → Proc A → Type 0
  Survives (done a) = Unit
  Survives (send s f v p) = Survives p
  Survives (recv s f k) = (v : Values f) → FitsAll f v → R f v → Survives (k v)
  Survives (stop e) = e ≢ buffer_overflow

  pub Survives-bind :
      {A B : Type 0} (p : Proc A) (k : A → Proc B)
      → Survives p
      → ((a : A) → Survives (k a))
      → Survives (p >>= k)
  Survives-bind (done a) k h next = next a
  Survives-bind (send s f v p) k h next = Survives-bind p k h next
  Survives-bind (recv s f g) k h next = λ v fits r. Survives-bind (g v) k (h v fits r) next
  Survives-bind (stop e) k h next = h

  pub Survives-if :
      {A : Type 0} (b : Bool) (p q : Proc A)
      → Survives p
      → Survives q
      → Survives (if b then p else q)
  Survives-if true p q hp hq = hp
  Survives-if false p q hp hq = hq

  module _ (T : Tpl) {A B : Type 0} where
    -- With such a client, and such packets on their way to it, the server runs past no array.
    pub run-Survives :
        (c : Proc A) (up : List T.Image) (s : Proc B) (down : List T.Image)
        → Sends T R c
        → All (Holds T R) up
        → Survives s
        → run T c up s down ≢ server_stopped buffer_overflow
    unfolding run
    run-Survives c up (send ss f v s) down hc hu hs e = run-Survives c up s _ hc hu hs e
    run-Survives c (i ∷ up) (recv ss f k) down hc hu hs e = elim (Option-cases (T.load f i)) [
      | inl refused ↦ absurd (cc)
      | inr (v, loaded) ↦
          run-Survives c up (k v) down hc hu.1
            (hs v (T.load-FitsAll f i v loaded) (hu.0 f v loaded)) (rw (loaded, run) at e)
    ]
    run-Survives (send cs g w c) [] (recv ss f k) down hc hu hs e =
        run-Survives c (T.dump g w ∷ []) (recv ss f k) down hc.1 (hc.0, tt) hs e
    run-Survives (recv cs g r) [] (recv ss f k) (i ∷ down) hc hu hs e =
        elim (Option-cases (T.load g i)) [
          | inl refused ↦ absurd (cc)
          | inr (w, loaded) ↦
              run-Survives (r w) [] (recv ss f k) down (hc w (T.load-FitsAll g i w loaded)) tt hs
                (rw (loaded, run) at e)
        ]
    run-Survives (recv cs g r) [] (recv ss f k) [] hc hu hs e = cc
    run-Survives (done a') [] (recv ss f k) down hc hu hs e = cc
    run-Survives (stop x) [] (recv ss f k) down hc hu hs e = cc
    run-Survives (send cs g w c) up (done b') down hc hu hs e =
        run-Survives c up (done b') down hc.1 hu tt e
    run-Survives (recv cs g r) up (done b') (i ∷ down) hc hu hs e =
        elim (Option-cases (T.load g i)) [
          | inl refused ↦ absurd (cc)
          | inr (w, loaded) ↦
              run-Survives (r w) up (done b') down (hc w (T.load-FitsAll g i w loaded)) hu tt
                (rw (loaded, run) at e)
        ]
    run-Survives (recv cs g r) up (done b') [] hc hu hs e = cc
    run-Survives (done a') up (done b') down hc hu hs e = cc
    run-Survives (stop x) up (done b') down hc hu hs e = cc
    run-Survives c up (stop x) down hc hu hs e = hs (cc)
