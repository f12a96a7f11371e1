-- ===== src/Proc/Run.antt =====
-- A client and a server, each a process, joined by two queues of images. The server goes first
-- whenever it can; the client's exit closes the connection. The sockets that the processes name do
-- not matter to a run. No caller looks at the result of
-- `tpl_load`, so a packet that never comes, or that is too short for the format, stops the reader
-- in `tpl_unpack`.
use libirpc.Prelude.{ℤ, ◌≡◌, refl, ◌∙◌, none, some, List, [], ◌∷◌, ◌++◌}
use libirpc.Tpl.{Tpl, Format, Values, FitsAll}
use libirpc.Proc.{Stop, Proc, done, send, recv, stop, bad_load}

-- How a run ends: both processes return, one stops, or both wait for ever.
pub data Outcome (A B : Type 0) : Type 0 where
  finished : A → B → Outcome A B
  client_stopped : Stop → Outcome A B
  server_stopped : Stop → Outcome A B
  deadlock : Outcome A B

module _ (T : Tpl) {A B : Type 0} where
  -- `up` holds the images on their way to the server, `down` those on their way to the client.
  unfoldable pub run : Proc A → List T.Image → Proc B → List T.Image → Outcome A B
  run c up (send ss f v s) down = run c up s (down ++ T.dump f v ∷ [])
  run c (i ∷ up) (recv ss f k) down = elim (T.load f i) [
    | some v ↦ run c up (k v) down
    | none ↦ server_stopped bad_load
  ]
  run (send cs g w c) [] (recv ss f k) down = run c (T.dump g w ∷ []) (recv ss f k) down
  run (recv cs g h) [] (recv ss f k) (i ∷ down) = elim (T.load g i) [
    | some w ↦ run (h w) [] (recv ss f k) down
    | none ↦ client_stopped bad_load
  ]
  run (recv cs g h) [] (recv ss f k) [] = deadlock
  run (done a) [] (recv ss f k) down = server_stopped bad_load
  run (stop e) [] (recv ss f k) down = client_stopped e
  run (send cs g w c) up (done b) down = run c up (done b) down
  run (recv cs g h) up (done b) (i ∷ down) = elim (T.load g i) [
    | some w ↦ run (h w) up (done b) down
    | none ↦ client_stopped bad_load
  ]
  run (recv cs g h) up (done b) [] = client_stopped bad_load
  run (done a) up (done b) down = finished a b
  run (stop e) up (done b) down = client_stopped e
  run c up (stop e) down = server_stopped e

  -- A packet from the client reaches a server that waits for it.
  pub run-send :
      (cs ss : ℤ) (f : Format) (v : Values f) (c : Proc A) (k : Values f → Proc B)
      → FitsAll f v
      → run (send cs f v c) [] (recv ss f k) [] ≡ run c [] (k v) []
  unfolding run
  run-send cs ss f v c k h = rw (T.load-dump f v h, run)

  -- A packet from the server reaches a client that waits for it, while the server waits again.
  pub run-reply :
      (cs ss next : ℤ) (f g : Format) (v : Values f) (h : Values f → Proc A) (k : Values g → Proc B)
      → FitsAll f v
      → run (recv cs f h) [] (send ss f v (recv next g k)) [] ≡ run (h v) [] (recv next g k) []
  unfolding run
  run-reply cs ss next f g v h k fits = rw (T.load-dump f v fits, run)

  -- A client that is gone leaves the server reading from a closed connection.
  pub run-leave :
      (ss : ℤ) (a : A) (f : Format) (k : Values f → Proc B)
      → run (done a) [] (recv ss f k) [] ≡ server_stopped bad_load
  unfolding run
  run-leave ss a f k = refl

  pub run-fail :
      (ss : ℤ) (e : Stop) (f : Format) (k : Values f → Proc B)
      → run (stop e) [] (recv ss f k) [] ≡ client_stopped e
  unfolding run
  run-fail ss e f k = refl

  pub run-finish : (a : A) (b : B) → run (done a) [] (done b) [] ≡ finished a b
  unfolding run
  run-finish a b = refl

  pub run-stop : (c : Proc A) (e : Stop) → run c [] (stop e) [] ≡ server_stopped e
  unfolding run
  run-stop (done a) e = refl
  run-stop _ e = refl

  -- A request in two packets, then the reply; the server ends up waiting for the next packet.
  pub run-request :
      (c₁ c₂ c₃ s₁ : ℤ) {s₂ s₃ s₄ : ℤ} {f g e : Format} (m : Format) (n : Values m) (v : Values f)
      {w : Values g} (h : Values g → Proc A) (k : Values m → Proc B) {k₁ : Values f → Proc B}
      {k₂ : Values e → Proc B}
      → k n ≡ recv s₂ f k₁
      → k₁ v ≡ send s₃ g w (recv s₄ e k₂)
      → FitsAll m n
      → FitsAll f v
      → FitsAll g w
      → run (send c₁ m n (send c₂ f v (recv c₃ g h))) [] (recv s₁ m k) []
        ≡ run (h w) [] (recv s₄ e k₂) []
  run-request c₁ c₂ c₃ s₁ {f = f} {g} {e} m n v {w} h k {k₁} {k₂} p q fits_n fits_v fits_w =
      run-send c₁ s₁ m n (send c₂ f v (recv c₃ g h)) k fits_n
      ∙ rw (p, run-send c₂ _ f v (recv c₃ g h) k₁ fits_v, q) (run-reply c₃ _ _ g e w h k₂ fits_w)

  -- A request in two packets that stops the server.
  pub run-fault :
      (c₁ c₂ c₃ s₁ : ℤ) {s₂ : ℤ} {f : Format} (m g : Format) (n : Values m) (v : Values f)
      (h : Values g → Proc A) (k : Values m → Proc B) {k₁ : Values f → Proc B} {e : Stop}
      → k n ≡ recv s₂ f k₁
      → k₁ v ≡ stop e
      → FitsAll m n
      → FitsAll f v
      → run (send c₁ m n (send c₂ f v (recv c₃ g h))) [] (recv s₁ m k) [] ≡ server_stopped e
  run-fault c₁ c₂ c₃ s₁ {f = f} m g n v h k {k₁} p q fits_n fits_v =
      run-send c₁ s₁ m n (send c₂ f v (recv c₃ g h)) k fits_n
      ∙ rw (p, run-send c₂ _ f v (recv c₃ g h) k₁ fits_v, q) (run-stop _ _)
