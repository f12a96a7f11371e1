-- ===== src/Proc/Ensures.antt =====
-- What a process does whatever its peer sends: every packet that it sends holds values of the C
-- types that its format names, and what it returns satisfies a postcondition, as long as the
-- packets that it reads hold such values, as C variables do.
use libirpc.Prelude.{
  ◌≡◌, refl, subst, Bool, true, false, if◌then◌else◌, Option-cases, inl, inr, List, [], ◌∷◌,
}
use libirpc.Tpl.{Tpl, Values, FitsAll}
use libirpc.Proc.{Proc, done, send, recv, stop, ◌>>=◌}
use libirpc.Proc.Run.{run, finished}

module _ {A : Type 0} (P : A → Type 0) where
  abbrev pub Ensures : Proc A → Type 0
  Ensures (done a) = P a
  Ensures (send ss f v p) = FitsAll f v × Ensures p
  Ensures (recv ss f k) = (v : Values f) → FitsAll f v → Ensures (k v)
  Ensures (stop e) = Unit

  pub Ensures-if :
      (b : Bool) (p q : Proc A)
      → (b ≡ true → Ensures p)
      → (b ≡ false → Ensures q)
      → Ensures (if b then p else q)
  Ensures-if true p q hp hq = hp refl
  Ensures-if false p q hp hq = hq refl

pub Ensures-bind :
    {A B : Type 0} (P : A → Type 0) (Q : B → Type 0) (p : Proc A) (k : A → Proc B)
    → Ensures P p
    → ((a : A) → P a → Ensures Q (k a))
    → Ensures Q (p >>= k)
Ensures-bind P Q (done a) k h next = next a h
Ensures-bind P Q (send ss f v p) k h next = (h.0, Ensures-bind P Q p k h.1 next)
Ensures-bind P Q (recv n f g) k h next = λ v fits. Ensures-bind P Q (g v) k (h v fits) next
Ensures-bind P Q (stop e) k h next = tt

pub Ensures-mono :
    {A : Type 0} (P Q : A → Type 0) (p : Proc A) → Ensures P p → ((a : A) → P a → Q a) → Ensures Q p
Ensures-mono P Q (done a) h weaken = weaken a h
Ensures-mono P Q (send ss f v p) h weaken = (h.0, Ensures-mono P Q p h.1 weaken)
Ensures-mono P Q (recv n f g) h weaken = λ v fits. Ensures-mono P Q (g v) (h v fits) weaken
Ensures-mono P Q (stop e) h weaken = tt

module _ (T : Tpl) {A B : Type 0} (P : B → Type 0) where
  -- A server that returns, with any client process at all, returns what it ensures.
  pub run-Ensures :
      (c : Proc A) (up : List T.Image) (s : Proc B) (down : List T.Image) (a : A) (b : B)
      → Ensures P s
      → run T c up s down ≡ finished a b
      → P b
  unfolding run
  run-Ensures c up (send ss f v s) down a b h e = run-Ensures c up s _ a b h.1 e
  run-Ensures c (i ∷ up) (recv ss f k) down a b h e = elim (Option-cases (T.load f i)) [
    | inl refused ↦ absurd (cc)
    | inr (v, loaded) ↦
        run-Ensures c up (k v) down a b (h v (T.load-FitsAll f i v loaded)) (rw (loaded, run) at e)
  ]
  run-Ensures (send cs g w c) [] (recv ss f k) down a b h e =
      run-Ensures c (T.dump g w ∷ []) (recv ss f k) down a b h e
  run-Ensures (recv cs g r) [] (recv ss f k) (i ∷ down) a b h e = elim (Option-cases (T.load g i)) [
    | inl refused ↦ absurd (cc)
    | inr (w, loaded) ↦ run-Ensures (r w) [] (recv ss f k) down a b h (rw (loaded, run) at e)
  ]
  run-Ensures (recv cs g r) [] (recv ss f k) [] a b h e = absurd (cc)
  run-Ensures (done a') [] (recv ss f k) down a b h e = absurd (cc)
  run-Ensures (stop x) [] (recv ss f k) down a b h e = absurd (cc)
  run-Ensures (send cs g w c) up (done b') down a b h e = run-Ensures c up (done b') down a b h e
  run-Ensures (recv cs g r) up (done b') (i ∷ down) a b h e = elim (Option-cases (T.load g i)) [
    | inl refused ↦ absurd (cc)
    | inr (w, loaded) ↦ run-Ensures (r w) up (done b') down a b h (rw (loaded, run) at e)
  ]
  run-Ensures (recv cs g r) up (done b') [] a b h e = absurd (cc)
  run-Ensures (done a') up (done b') down a b h e = subst P (cc) h
  run-Ensures (stop x) up (done b') down a b h e = absurd (cc)
  run-Ensures c up (stop x) down a b h e = absurd (cc)
