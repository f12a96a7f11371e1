-- ===== src/Proc/Ends.antt =====
-- A conversation that ends well in `run` of Proc/Run has a schedule that ends so.
use libirpc.Prelude.{◌≡◌, subst, ◌∙◌, Option-cases, inl, inr, List, [], ◌∷◌, ◌++◌}
use libirpc.Tpl.{Tpl}
use libirpc.Proc.{Proc, done, send, recv, stop}
use libirpc.Proc.Run.{finished, run}
use libirpc.Proc.Steps.{
  Config, config, Step, server_sends, server_loads, client_sends, client_loads, Steps, here, step,
  run-done,
}

module _ (T : Tpl) {A B : Type 0} where
  -- There is a schedule that brings both processes to their ends, with these results.
  abbrev pub Ends : Config T A B → A → B → Type 0
  Ends x a b =
      (up : List T.Image) × (down : List T.Image) × Steps T x (config T (done a) up (done b) down)

  more : {x y : Config T A B} (a : A) (b : B) → Step T x y → Ends y a b → Ends x a b
  more a b s (up, down, rest) = (up, down, step s rest)

  ended :
      (a' : A) (b' : B) (a : A) (b : B) (up down : List T.Image)
      → a' ≡ a
      → b' ≡ b
      → Ends (config T (done a') up (done b') down) a b
  ended a' b' a b up down p q =
      subst (λ x. Ends (config T (done a') up (done b') down) x b) p
        (subst (λ y. Ends (config T (done a') up (done b') down) a' y) q (up, down, here))

  pub finished-Ends :
      (c : Proc A) (up : List T.Image) (s : Proc B) (down : List T.Image) (a : A) (b : B)
      → run T c up s down ≡ finished a b
      → Ends (config T c up s down) a b
  unfolding run
  finished-Ends c up (send ss f v s) down a b e =
      more a b (server_sends c up f v s down) (finished-Ends c up s _ a b e)
  finished-Ends c (i ∷ up) (recv ss f k) down a b e = elim (Option-cases (T.load f i)) [
    | inl refused ↦ absurd (cc)
    | inr (v, loaded) ↦
        more a b (server_loads T c i up f k v down loaded)
          (finished-Ends c up (k v) down a b (rw (loaded, run) at e))
  ]
  finished-Ends (send cs g w c) [] (recv ss f k) down a b e =
      more a b (client_sends g w c [] (recv ss f k) down)
        (finished-Ends c (T.dump g w ∷ []) (recv ss f k) down a b e)
  finished-Ends (recv cs g h) [] (recv ss f k) (i ∷ down) a b e = elim (Option-cases (T.load g i)) [
    | inl refused ↦ absurd (cc)
    | inr (w, loaded) ↦
        more a b (client_loads T g h w [] (recv ss f k) i down loaded)
          (finished-Ends (h w) [] (recv ss f k) down a b (rw (loaded, run) at e))
  ]
  finished-Ends (recv cs g h) [] (recv ss f k) [] a b e = absurd (cc)
  finished-Ends (done a') [] (recv ss f k) down a b e = absurd (cc)
  finished-Ends (stop x) [] (recv ss f k) down a b e = absurd (cc)
  finished-Ends (send cs g w c) up (done b') down a b e =
      more a b (client_sends g w c up (done b') down)
        (finished-Ends c (up ++ T.dump g w ∷ []) (done b') down a b (run-done T c _ up b' down ∙ e))
  finished-Ends (recv cs g h) up (done b') (i ∷ down) a b e = elim (Option-cases (T.load g i)) [
    | inl refused ↦ absurd (cc)
    | inr (w, loaded) ↦
        more a b (client_loads T g h w up (done b') i down loaded)
          (finished-Ends (h w) up (done b') down a b (rw (loaded, run) at e))
  ]
  finished-Ends (recv cs g h) up (done b') [] a b e = absurd (cc)
  finished-Ends (done a') up (done b') down a b e = ended a' b' a b up down (cc) (cc)
  finished-Ends (stop x) up (done b') down a b e = absurd (cc)
  finished-Ends c up (stop x) down a b e = absurd (cc)
