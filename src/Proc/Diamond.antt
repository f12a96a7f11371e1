-- ===== src/Proc/Diamond.antt =====
-- Steps of the two processes commute: whatever they did so far, they can still reach the end that
-- another schedule has come to.
use mathlib.Core.Option.{some-injective}
use libirpc.Prelude.{
  ℤ, ◌≡◌, ◌⊎◌, refl, sym, subst, ◌∙◌, Option, none, some, List, [], ◌∷◌, ◌++◌, inl, inr,
}
use libirpc.Tpl.{Tpl, Format, Values}
use libirpc.Proc.{Proc, done, send, recv, stop, bad_load}
use libirpc.Proc.Run.{finished}
use libirpc.Proc.Ends.{Ends, finished-Ends}
use libirpc.Proc.Steps.{
  IsGone, after_read, Config, config, outcome, Step, server_sends, server_reads, server_eof,
  client_sends, client_reads, client_eof, Steps, here, step,
}

module _ (T : Tpl) {A B : Type 0} where
  -- Neither process can take a step.
  abbrev pub Stuck : Config T A B → Type 0
  Stuck x = (y : Config T A B) → ¬ Step T x y

  pub Stuck-here : {x z : Config T A B} → Steps T x z → Stuck x → x ≡ z
  Stuck-here here stuck = refl
  Stuck-here (step s rest) stuck = absurd (stuck _ s)

  -- The step of the server, if it can take one.
  abbrev server_step : Proc A → List T.Image → Proc B → List T.Image → Option (Config T A B)
  server_step c up (send ss f v s) down = some (config T c up s (down ++ T.dump f v ∷ []))
  server_step c (i ∷ up) (recv ss f k) down = some (config T c up (after_read k (T.load f i)) down)
  server_step (done a) [] (recv ss f k) down = some (config T (done a) [] (stop bad_load) down)
  server_step (stop e) [] (recv ss f k) down = some (config T (stop e) [] (stop bad_load) down)
  server_step (send cs g w c) [] (recv ss f k) down = none
  server_step (recv cs g h) [] (recv ss f k) down = none
  server_step c up (done b) down = none
  server_step c up (stop e) down = none

  -- The step of the client, if it can take one.
  abbrev client_step : Proc A → List T.Image → Proc B → List T.Image → Option (Config T A B)
  client_step (send cs g w c) up s down = some (config T c (up ++ T.dump g w ∷ []) s down)
  client_step (recv cs g h) up s (i ∷ down) = some (config T (after_read h (T.load g i)) up s down)
  client_step (recv cs g h) up (done b) [] = some (config T (stop bad_load) up (done b) [])
  client_step (recv cs g h) up (stop e) [] = some (config T (stop bad_load) up (stop e) [])
  client_step (recv cs g h) up (send ss f v s) [] = none
  client_step (recv cs g h) up (recv ss f k) [] = none
  client_step (done a) up s down = none
  client_step (stop e) up s down = none

  abbrev ServerStep : Config T A B → Config T A B → Type 0
  ServerStep x y = server_step x.client x.up x.server x.down ≡ some y

  abbrev ClientStep : Config T A B → Config T A B → Type 0
  ClientStep x y = client_step x.client x.up x.server x.down ≡ some y

  Step-cases : {x y : Config T A B} → Step T x y → ServerStep x y ⊎ ClientStep x y
  Step-cases (server_sends c up f v s down) = inl refl
  Step-cases (server_reads c i up f k down) = inl refl
  Step-cases (server_eof (done a) f k down gone) = inl refl
  Step-cases (server_eof (stop e) f k down gone) = inl refl
  Step-cases (server_eof (send cs g w c) f k down gone) = absurd gone
  Step-cases (server_eof (recv cs g h) f k down gone) = absurd gone
  Step-cases (client_sends g w c up s down) = inr refl
  Step-cases (client_reads g h up s i down) = inr refl
  Step-cases (client_eof g h up (done b) gone) = inr refl
  Step-cases (client_eof g h up (stop e) gone) = inr refl
  Step-cases (client_eof g h up (send ss f v s) gone) = absurd gone
  Step-cases (client_eof g h up (recv ss f k) gone) = absurd gone

  -- Both come to one configuration by one step.
  abbrev Joins : Config T A B → Config T A B → Type 0
  Joins y z = (w : Config T A B) × Step T y w × Step T z w

  joined :
      (y' z' : Config T A B) {w y z : Config T A B}
      → y' ≡ y
      → z' ≡ z
      → Step T y' w
      → Step T z' w
      → Joins y z
  joined y' z' {w} p q r s = (w, subst (λ x. Step T x w) p r, subst (λ x. Step T x w) q s)

  sent-Joins :
      (ss : ℤ) (c : Proc A) (up : List T.Image) (f : Format) (v : Values f) (s : Proc B)
      (down : List T.Image) (z : Config T A B)
      → ClientStep (config T c up (send ss f v s) down) z
      → Joins (config T c up s (down ++ T.dump f v ∷ [])) z
  sent-Joins ss (send cs g w c) up f v s down z e =
      joined _ _ refl (some-injective _ _ e) (client_sends g w c up s _)
        (server_sends {ss = ss} c _ f v s down)
  sent-Joins ss (recv cs g h) up f v s (i ∷ down) z e =
      joined _ _ refl (some-injective _ _ e) (client_reads g h up s i _)
        (server_sends {ss = ss} (after_read h (T.load g i)) up f v s down)
  sent-Joins ss (recv cs g h) up f v s [] z e = absurd (cc)
  sent-Joins ss (done a) up f v s down z e = absurd (cc)
  sent-Joins ss (stop x) up f v s down z e = absurd (cc)

  read-Joins :
      (ss : ℤ) (c : Proc A) (i : T.Image) (up : List T.Image) (f : Format) (k : Values f → Proc B)
      (down : List T.Image) (z : Config T A B)
      → ClientStep (config T c (i ∷ up) (recv ss f k) down) z
      → Joins (config T c up (after_read k (T.load f i)) down) z
  read-Joins ss (send cs g w c) i up f k down z e =
      joined _ _ refl (some-injective _ _ e)
        (client_sends g w c up (after_read k (T.load f i)) down)
        (server_reads {ss = ss} c i _ f k down)
  read-Joins ss (recv cs g h) i up f k (j ∷ down) z e =
      joined _ _ refl (some-injective _ _ e)
        (client_reads g h up (after_read k (T.load f i)) j down)
        (server_reads {ss = ss} (after_read h (T.load g j)) i up f k down)
  read-Joins ss (recv cs g h) i up f k [] z e = absurd (cc)
  read-Joins ss (done a) i up f k down z e = absurd (cc)
  read-Joins ss (stop x) i up f k down z e = absurd (cc)

  steps-Joins :
      (c : Proc A) (up : List T.Image) (s : Proc B) (down : List T.Image) (y z : Config T A B)
      → server_step c up s down ≡ some y
      → client_step c up s down ≡ some z
      → Joins y z
  steps-Joins c up (send ss f v s) down y z e e' =
      subst (λ x. Joins x z) (some-injective _ _ e) (sent-Joins ss c up f v s down z e')
  steps-Joins c (i ∷ up) (recv ss f k) down y z e e' =
      subst (λ x. Joins x z) (some-injective _ _ e) (read-Joins ss c i up f k down z e')
  steps-Joins (done a) [] (recv ss f k) down y z e e' = absurd (cc)
  steps-Joins (stop x) [] (recv ss f k) down y z e e' = absurd (cc)
  steps-Joins (send cs g w c) [] (recv ss f k) down y z e e' = absurd (cc)
  steps-Joins (recv cs g h) [] (recv ss f k) down y z e e' = absurd (cc)
  steps-Joins c up (done b) down y z e e' = absurd (cc)
  steps-Joins c up (stop x) down y z e e' = absurd (cc)

  -- Two steps of one configuration lead to the same one, or can be joined.
  diamond : {x y z : Config T A B} → Step T x y → Step T x z → (y ≡ z) ⊎ Joins y z
  diamond {x} {y} {z} s t = elim (Step-cases s) [
    | inl e ↦ elim (Step-cases t) [
      | inl e' ↦ inl (some-injective _ _ (sym e ∙ e'))
      | inr e' ↦ inr (steps-Joins x.client x.up x.server x.down y z e e')
    ]
    | inr e ↦ elim (Step-cases t) [
      | inl e' ↦ let (w, p, q) = steps-Joins x.client x.up x.server x.down z y e' e in inr (w, q, p)
      | inr e' ↦ inl (some-injective _ _ (sym e ∙ e'))
    ]
  ]

  Step-Stuck : {x y z : Config T A B} → Step T x y → Steps T x z → Stuck z → Steps T y z
  Step-Stuck s here stuck = absurd (stuck _ s)
  Step-Stuck {y = y} {z} s (step t rest) stuck = elim (diamond s t) [
    | inl same ↦ subst (λ x. Steps T x z) (sym same) rest
    | inr (w, p, q) ↦ step p (Step-Stuck q rest stuck)
  ]

  -- Whatever the processes did so far, they can still come to the end of any schedule.
  pub Steps-Stuck : {x y z : Config T A B} → Steps T x y → Steps T x z → Stuck z → Steps T y z
  Steps-Stuck here q stuck = q
  Steps-Stuck (step s rest) q stuck = Steps-Stuck rest (Step-Stuck s q stuck) stuck

  -- Two processes that are gone take no step.
  pub gone-Stuck :
      (c : Proc A) (s : Proc B) (up down : List T.Image)
      → IsGone c
      → IsGone s
      → Stuck (config T c up s down)
  gone-Stuck (done a) (done b) up down c s y t = elim (Step-cases t) [
    | inl e ↦ absurd (cc)
    | inr e ↦ absurd (cc)
  ]
  gone-Stuck (done a) (stop x) up down c s y t = elim (Step-cases t) [
    | inl e ↦ absurd (cc)
    | inr e ↦ absurd (cc)
  ]
  gone-Stuck (stop x) (done b) up down c s y t = elim (Step-cases t) [
    | inl e ↦ absurd (cc)
    | inr e ↦ absurd (cc)
  ]
  gone-Stuck (stop x) (stop x') up down c s y t = elim (Step-cases t) [
    | inl e ↦ absurd (cc)
    | inr e ↦ absurd (cc)
  ]
  gone-Stuck (send n f v p) q up down c s y t = absurd c
  gone-Stuck (recv n f k) q up down c s y t = absurd c
  gone-Stuck (done a) (send n f v p) up down c s y t = absurd s
  gone-Stuck (done a) (recv n f k) up down c s y t = absurd s
  gone-Stuck (stop x) (send n f v p) up down c s y t = absurd s
  gone-Stuck (stop x) (recv n f k) up down c s y t = absurd s

  -- Whatever the processes did so far, a conversation that can end well still can.
  pub Steps-Ends :
      {x y : Config T A B} (a : A) (b : B) → outcome T x ≡ finished a b → Steps T x y → Ends T y a b
  Steps-Ends {x} a b e p =
      let (up, down, q) = finished-Ends T x.client x.up x.server x.down a b e in
      (up, down, Steps-Stuck p q (gone-Stuck (done a) (done b) up down tt tt))
