-- ===== src/Types/Codes.antt =====
-- The function codes (`enum irpc_func`), and the functions that numbers on the wire select.
use mathlib.Core.Option.{some-injective}
use libirpc.Prelude.{
  ℕ, zero, suc, ◌+◌, ◌<◌, ◌≡◌, ◌↔◌, refl, ap, ◌∙◌, some, List, [], ◌∷◌, ℤ, pos, negsuc, get_elem?,
  arith,
}
use libirpc.Types.{IrpcFunc, func_code, func_of, all_funcs, usb_init}

-- The number that the enumeration gives to a function selects that function's branch of the
-- `switch` in `irpc_call`.
pub func_of-func_code : (f : IrpcFunc) → func_of (pos (func_code f)) ≡ some f
unfolding func_of func_code
func_of-func_code usb_init = refl
func_of-func_code _ = refl

pub func_code-lt : (f : IrpcFunc) → func_code f < 17
unfolding func_code
func_code-lt usb_init = omega arith
func_code-lt _ = omega arith

-- The functions stand in the order of their numbers, from `k` on.
abbrev InOrder : ℕ → List IrpcFunc → Type 0
InOrder k [] = Unit
InOrder k (f ∷ fs) = (func_code f ≡ k) × InOrder (suc k) fs

InOrder-at :
    (fs : List IrpcFunc) (k n : ℕ) (f : IrpcFunc)
    → InOrder k fs
    → get_elem? fs n ≡ some f
    → k + n ≡ func_code f
InOrder-at [] k n f order e = absurd (cc)
InOrder-at (g ∷ fs) k zero f order e = omega (arith, order.0, ap func_code (some-injective _ _ e))
InOrder-at (g ∷ fs) k (suc n) f order e = omega (arith, InOrder-at fs (suc k) n f order.1 e)

all_funcs-InOrder : InOrder 0 all_funcs
unfolding func_code
all_funcs-InOrder = omega arith

func_code_only : (x : ℤ) (f : IrpcFunc) → func_of x ≡ some f → x ≡ pos (func_code f)
unfolding func_of
func_code_only (pos n) f e = ap pos (omega (arith, InOrder-at all_funcs 0 n f all_funcs-InOrder e))
func_code_only (negsuc n) f e = absurd (cc)

-- A received number selects a function's branch of the `switch` in `irpc_call` exactly if it is
-- the number that the enumeration gives to that function.
pub func_of_iff : (x : ℤ) (f : IrpcFunc) → (func_of x ≡ some f) ↔ (x ≡ pos (func_code f))
func_of_iff x f = (func_code_only x f, λ e. ap func_of e ∙ func_of-func_code f)
