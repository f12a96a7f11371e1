-- ===== src/Proc/Settles.antt =====
-- Every schedule of two processes comes to an end, and to which one: the steps of Proc/Steps are
-- well founded, and a conversation that can end well ends so, however it is scheduled.
use mathlib.Core.WellFounded.{Acc}
use libirpc.Prelude.{ℤ, Option, none, some, List, ◌≡◌, ◌⊎◌, refl, sym, subst, ◌∙◌, inl, inr}
use libirpc.Tpl.{Tpl, Format, Values}
use libirpc.Proc.{Stop, bad_load, Proc, done, send, recv, stop}
use libirpc.Proc.Run.{finished}
use libirpc.Proc.Diamond.{Stuck, Stuck-here, Steps-Stuck, gone-Stuck, Steps-Ends}
use libirpc.Proc.Steps.{
  config, Config, outcome, Step, after_read, server_sends, server_reads, server_eof, client_sends,
  client_reads, client_eof, Steps, here,
}

-- What a process comes to by one send, by one read, or by a read from a closed connection.
abbrev Child : {A : Type 0} → Proc A → Proc A → Type 0
Child p (done a) = ⊥
Child p (send s f v q) = p ≡ q
Child p (recv s f k) = ((v : Values f) × (p ≡ k v)) ⊎ (p ≡ stop bad_load)
Child p (stop e) = ⊥

stopped-Acc : {A : Type 0} (e : Stop) → Acc (Child {A = A}) (stop e)
stopped-Acc e = Acc.intro (stop e) λ q h. absurd h

after_read-Child :
    {A : Type 0} (n : ℤ) (f : Format) (k : Values f → Proc A) (o : Option (Values f))
    → Child (after_read k o) (recv n f k)
after_read-Child n f k none = inr refl
after_read-Child n f k (some v) = inl (v, refl)

Child-Acc : {A : Type 0} (p : Proc A) → Acc Child p
Child-Acc (done a) = Acc.intro (done a) λ q h. absurd h
Child-Acc (send s f v p) = Acc.intro (send s f v p) λ q h. subst (Acc Child) (sym h) (Child-Acc p)
Child-Acc (recv s f k) = Acc.intro (recv s f k) λ q h. elim h [
  | inl (v, e) ↦ subst (Acc Child) (sym e) (Child-Acc (k v))
  | inr e ↦ subst (Acc Child) (sym e) (stopped-Acc bad_load)
]
Child-Acc (stop e) = Acc.intro (stop e) λ q h. absurd h

module _ (T : Tpl) {A B : Type 0} where
  -- A step is a send or a read of one process, and leaves the other as it is.
  Step-Child :
      {x y : Config T A B}
      → Step T x y
      → ((y.client ≡ x.client) × Child y.server x.server)
        ⊎ (Child y.client x.client × (y.server ≡ x.server))
  Step-Child (server_sends c up f v s down) = inl (refl, refl)
  Step-Child (server_reads {ss = ss} c i up f k down) =
      inl (refl, after_read-Child ss f k (T.load f i))
  Step-Child (server_eof c f k down gone) = inl (refl, inr refl)
  Step-Child (client_sends g w c up s down) = inr (refl, refl)
  Step-Child (client_reads {cs = cs} g h up s i down) =
      inr (after_read-Child cs g h (T.load g i), refl)
  Step-Child (client_eof g h up s gone) = inr (inr refl, refl)

  -- What a configuration can come to by one step.
  abbrev pub After : Config T A B → Config T A B → Type 0
  After y x = Step T x y

  After-Acc :
      (c : Proc A)
      → Acc Child c
      → (s : Proc B) → Acc Child s
      → (x : Config T A B) → x.client ≡ c
      → x.server ≡ s
      → Acc After x
  After-Acc c (Acc.intro _ f) s (Acc.intro _ g) x e e' = Acc.intro x λ y st. elim (Step-Child st) [
    | inl (same, child) ↦
        After-Acc c (Acc.intro c f) y.server (g y.server (subst (Child y.server) e' child)) y
          (same ∙ e) refl
    | inr (child, same) ↦
        After-Acc y.client (f y.client (subst (Child y.client) e child)) s (Acc.intro s g) y refl
          (same ∙ e')
  ]

  -- No schedule goes on for ever, whatever the two processes.
  pub Steps-Acc : (x : Config T A B) → Acc After x
  Steps-Acc x = After-Acc x.client (Child-Acc x.client) x.server (Child-Acc x.server) x refl refl

  -- Every schedule ends, in one and the same way.
  abbrev pub EndsAt : Config T A B → Config T A B → Type 0
  EndsAt x z =
      Acc After x × Steps T x z × Stuck T z × ((y : Config T A B) → Steps T x y → Stuck T y → y ≡ z)

  -- Where one schedule ends, every schedule does.
  pub Steps-EndsAt : {x z : Config T A B} → Steps T x z → Stuck T z → EndsAt x z
  Steps-EndsAt {x} q stuck =
      (Steps-Acc x, q, stuck, λ y p over. Stuck-here T (Steps-Stuck T p q stuck) over)

  -- Every schedule ends, with both processes at their ends and these results.
  abbrev pub Settles : Config T A B → A → B → Type 0
  Settles x a b =
      (up : List T.Image) × (down : List T.Image) × EndsAt x (config T (done a) up (done b) down)

  pub finished-Settles :
      (x : Config T A B) (a : A) (b : B) → outcome T x ≡ finished a b → Settles x a b
  finished-Settles x a b e =
      let (up, down, steps) = Steps-Ends T a b e here in
      (up, down, Steps-EndsAt steps (gone-Stuck T (done a) (done b) up down tt tt))
