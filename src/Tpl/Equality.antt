-- ===== src/Tpl/Equality.antt =====
-- Two format strings are the same or not, and what an image holds under any of them.
use mathlib.Core.HLevel.{Discrete}
use native.Mathlib.Decide.{ℕ_discrete}
use libirpc.Prelude.{◌≡◌, ◌≢◌, none, sym, subst, some}
use libirpc.Tpl.{Tpl, Field, Format, Values, FitsAll}

Field-discrete : Discrete Field
Field-discrete = hlevel ℕ_discrete

pub Format-discrete : Discrete Format
Format-discrete = hlevel Field-discrete

-- A library whose reads give nothing under another format than the one an image was written with.
abbrev pub Refuses : Tpl → Type 0
Refuses T = (f g : Format) (v : Values g) → f ≢ g → T.load f (T.dump g v) ≡ none

module _ (T : Tpl) (R : (f : Format) → Values f → Type 0) where
  -- What is loaded from an image, under whatever format, satisfies `R`.
  abbrev pub Holds : T.Image → Type 0
  Holds i = (f : Format) (v : Values f) → T.load f i ≡ some v → R f v

  pub Holds-dump :
      Refuses T → (g : Format) (w : Values g) → FitsAll g w → R g w → Holds (T.dump g w)
  Holds-dump refuses g w fits r f = elim (Format-discrete g f) [
    | yes e ↦
        subst (λ x. (v : Values x) → T.load x (T.dump g w) ≡ some v → R x v) e
          λ v h. subst (R g) (cc (T.load-dump g w fits)) r
    | no ne ↦ λ v h. absurd (cc (refuses f g w (λ e. ne (sym e))))
  ]
