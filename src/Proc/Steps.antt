-- ===== src/Proc/Steps.antt =====
-- Every order in which the two processes of a connection can take their steps: `run` of Proc/Run
-- lets the server go first, and any other schedule is a sequence of these steps.
use libirpc.Prelude.{
  ℤ, ◌≢◌, Option, none, ◌≡◌, refl, sym, subst, ◌∙◌, some, Option-cases, inl, inr, List, [], ◌∷◌,
  ◌++◌,
}
use libirpc.Tpl.{Tpl, Format, Values}
use libirpc.Proc.{Stop, bad_load, Proc, done, send, recv, stop}
use libirpc.Proc.Run.{Outcome, finished, run}

-- A process that has returned or stopped: the system has closed its socket.
abbrev pub IsGone : {C : Type 0} → Proc C → Type 0
IsGone (done a) = Unit
IsGone (send ss f v p) = ⊥
IsGone (recv ss f k) = ⊥
IsGone (stop e) = Unit

-- A process after it has read an image, by what its variables hold then.
abbrev pub after_read : {V C : Type 0} → (V → Proc C) → Option V → Proc C
after_read k none = stop bad_load
after_read k (some v) = k v

-- The processes and the images on their way between them.
pub record Config (T : Tpl) (A B : Type 0) : Type 0 where
  pub client : Proc A
  pub up : List T.Image
  pub server : Proc B
  pub down : List T.Image

module _ (T : Tpl) {A B : Type 0} where
  abbrev pub config : Proc A → List T.Image → Proc B → List T.Image → Config T A B
  config c up s down = record { client = c; up = up; server = s; down = down }

  abbrev pub outcome : Config T A B → Outcome A B
  outcome x = run T x.client x.up x.server x.down

  -- One step of one of the two processes, whichever it is. A process that reads from a connection
  -- that its peer has closed, with nothing left on it, gets no image.
  pub data Step : Config T A B → Config T A B → Type 0 where
    server_sends :
        {ss : ℤ} (c : Proc A) (up : List T.Image) (f : Format) (v : Values f) (s : Proc B)
        (down : List T.Image)
        → Step (config c up (send ss f v s) down) (config c up s (down ++ T.dump f v ∷ []))
    server_reads :
        {ss : ℤ} (c : Proc A) (i : T.Image) (up : List T.Image) (f : Format) (k : Values f → Proc B)
        (down : List T.Image)
        → Step (config c (i ∷ up) (recv ss f k) down) (config c up (after_read k (T.load f i)) down)
    server_eof :
        {ss : ℤ} (c : Proc A) (f : Format) (k : Values f → Proc B) (down : List T.Image)
        → IsGone c
        → Step (config c [] (recv ss f k) down) (config c [] (stop bad_load) down)
    client_sends :
        {cs : ℤ} (g : Format) (w : Values g) (c : Proc A) (up : List T.Image) (s : Proc B)
        (down : List T.Image)
        → Step (config (send cs g w c) up s down) (config c (up ++ T.dump g w ∷ []) s down)
    client_reads :
        {cs : ℤ} (g : Format) (h : Values g → Proc A) (up : List T.Image) (s : Proc B) (i : T.Image)
        (down : List T.Image)
        → Step (config (recv cs g h) up s (i ∷ down)) (config (after_read h (T.load g i)) up s down)
    client_eof :
        {cs : ℤ} (g : Format) (h : Values g → Proc A) (up : List T.Image) (s : Proc B)
        → IsGone s
        → Step (config (recv cs g h) up s []) (config (stop bad_load) up s [])

  pub server_loads :
      {ss : ℤ} (c : Proc A) (i : T.Image) (up : List T.Image) (f : Format) (k : Values f → Proc B)
      (v : Values f) (down : List T.Image)
      → T.load f i ≡ some v
      → Step (config c (i ∷ up) (recv ss f k) down) (config c up (k v) down)
  server_loads {ss} c i up f k v down loaded =
      subst (λ o. Step (config c (i ∷ up) (recv ss f k) down) (config c up (after_read k o) down))
        loaded (server_reads c i up f k down)

  pub client_loads :
      {cs : ℤ} (g : Format) (h : Values g → Proc A) (w : Values g) (up : List T.Image) (s : Proc B)
      (i : T.Image) (down : List T.Image)
      → T.load g i ≡ some w
      → Step (config (recv cs g h) up s (i ∷ down)) (config (h w) up s down)
  client_loads {cs} g h w up s i down loaded =
      subst (λ o. Step (config (recv cs g h) up s (i ∷ down)) (config (after_read h o) up s down))
        loaded (client_reads g h up s i down)

  -- A server that has returned reads nothing more.
  pub run-done :
      (c : Proc A) (up up' : List T.Image) (b : B) (down : List T.Image)
      → run T c up (done b) down ≡ run T c up' (done b) down
  unfolding run
  run-done (done a) up up' b down = refl
  run-done (send cs g w c) up up' b down = run-done c up up' b down
  run-done (recv cs g h) up up' b [] = refl
  run-done (recv cs g h) up up' b (i ∷ down) = elim (Option-cases (T.load g i)) [
    | inl refused ↦ rw (refused, run) refl
    | inr (w, loaded) ↦ rw (loaded, run) (run-done (h w) up up' b down)
  ]
  run-done (stop e) up up' b down = refl

  run-client_sends :
      (cs : ℤ) (s : Proc B) (g : Format) (w : Values g) (c : Proc A) (up down : List T.Image)
      → run T (send cs g w c) up s down ≡ run T c (up ++ T.dump g w ∷ []) s down
  unfolding run
  run-client_sends cs (done b) g w c up down = run-done c up _ b down
  run-client_sends cs (send ss f v s) g w c up down = run-client_sends cs s g w c up _
  run-client_sends cs (recv ss f k) g w c [] down = refl
  run-client_sends cs (recv ss f k) g w c (i ∷ up) down = elim (Option-cases (T.load f i)) [
    | inl refused ↦ rw (refused, run) refl
    | inr (v, loaded) ↦ rw (loaded, run) (run-client_sends cs (k v) g w c up down)
  ]
  run-client_sends cs (stop e) g w c up down = refl

  run-client_reads :
      (cs : ℤ) (s : Proc B) (g : Format) (h : Values g → Proc A) (w : Values g) (up : List T.Image)
      (i : T.Image) (down : List T.Image)
      → T.load g i ≡ some w
      → run T (recv cs g h) up s (i ∷ down) ≡ run T (h w) up s down
  unfolding run
  run-client_reads cs (done b) g h w up i down loaded = rw (loaded, run) refl
  run-client_reads cs (send ss f v s) g h w up i down loaded =
      run-client_reads cs s g h w up i _ loaded
  run-client_reads cs (recv ss f k) g h w [] i down loaded = rw (loaded, run) refl
  run-client_reads cs (recv ss f k) g h w (j ∷ up) i down loaded =
      elim (Option-cases (T.load f j)) [
        | inl refused ↦ rw (refused, run) refl
        | inr (v, e) ↦ rw (e, run) (run-client_reads cs (k v) g h w up i down loaded)
      ]
  run-client_reads cs (stop e) g h w up i down loaded = refl

  -- A client that has stopped does not return.
  stopped_client :
      (e : Stop) (up : List T.Image) (s : Proc B) (down : List T.Image) (a : A) (b : B)
      → run T (stop e) up s down ≢ finished a b
  unfolding run
  stopped_client e up (done b') down a b h = cc
  stopped_client e up (send ss f v s) down a b h = stopped_client e up s _ a b h
  stopped_client e [] (recv ss f k) down a b h = cc
  stopped_client e (i ∷ up) (recv ss f k) down a b h = elim (Option-cases (T.load f i)) [
    | inl refused ↦ absurd (cc)
    | inr (v, loaded) ↦ stopped_client e up (k v) down a b (rw (loaded, run) at h)
  ]
  stopped_client e up (stop x) down a b h = cc

  stopped_server :
      (c : Proc A) (up : List T.Image) (e : Stop) (down : List T.Image) (a : A) (b : B)
      → run T c up (stop e) down ≢ finished a b
  unfolding run
  stopped_server c up e down a b h = cc

  -- A step that leads to a run that ends well is a step of such a run.
  Step-finished :
      {x y : Config T A B} (a : A) (b : B)
      → Step x y
      → outcome y ≡ finished a b
      → outcome x ≡ finished a b
  unfolding run
  Step-finished a b (server_sends c up f v s down) e = e
  Step-finished a b (server_reads c i up f k down) e = elim (Option-cases (T.load f i)) [
    | inl refused ↦ absurd (stopped_server c up bad_load down a b (rw refused at e))
    | inr (v, loaded) ↦ rw (loaded, run) (rw loaded at e)
  ]
  Step-finished a b (server_eof c f k down gone) e =
      absurd (stopped_server c [] bad_load down a b e)
  Step-finished a b (client_sends {cs = cs} g w c up s down) e =
      run-client_sends cs s g w c up down ∙ e
  Step-finished a b (client_reads {cs = cs} g h up s i down) e = elim (Option-cases (T.load g i)) [
    | inl refused ↦ absurd (stopped_client bad_load up s down a b (rw refused at e))
    | inr (w, loaded) ↦ run-client_reads cs s g h w up i down loaded ∙ (rw loaded at e)
  ]
  Step-finished a b (client_eof g h up s gone) e = absurd (stopped_client bad_load up s [] a b e)

  -- Any number of steps.
  pub data Steps : Config T A B → Config T A B → Type 0 where
    here : {x : Config T A B} → Steps x x
    step : {x y z : Config T A B} → Step x y → Steps y z → Steps x z

  -- A schedule that brings both processes to their ends brings them to the results of `run`.
  pub Steps-finished :
      {x y : Config T A B} (a : A) (b : B)
      → Steps x y
      → outcome y ≡ finished a b
      → outcome x ≡ finished a b
  Steps-finished a b here e = e
  Steps-finished a b (step s rest) e = Step-finished a b s (Steps-finished a b rest e)

  -- Two schedules from the same start that both bring both processes to an end bring them to the
  -- same results.
  pub Steps-agree :
      (x : Config T A B) (a a' : A) (b b' : B) (up up' down down' : List T.Image)
      → Steps x (config (done a) up (done b) down)
      → Steps x (config (done a') up' (done b') down')
      → (a ≡ a') × (b ≡ b')
  unfolding run
  Steps-agree x a a' b b' up up' down down' p q =
      let e = sym (Steps-finished a b p refl) ∙ Steps-finished a' b' q refl in (cc, cc)
