-- ===== src/Net.antt =====
-- The socket calls that the three programs make to set up their connection: an interface that
-- stands for the system, which is not modelled, and a monad of calls that may end the process.
use Prim.Native.String.{String}
use libirpc.Prelude.{
  ℕ, ◌≡◌, ◌⊎◌, Bool, true, false, Option, none, some, ℤ, negsuc, pos, is_negative, eq_ℤ,
  if◌then◌else◌,
}

-- A call returns -1 where it fails. `inet_aton` is pure, and so is `sscanf` with `%d`; each gives
-- `none` where it stores nothing; `print` writes a text to the standard output or to the standard
-- error. A port is what `htons` makes of it, an address is a number.
pub record Net : Type 1 where
  pub State : Type 0
  pub socket : State → ℤ × State
  pub bind : ℤ → ℕ → State → ℤ × State
  pub listen : ℤ → ℤ → State → ℤ × State
  pub setsockopt : ℤ → ℤ → State → ℤ × State
  pub select : ℤ → ℕ → State → ℤ × State
  pub accept : ℤ → State → ℤ × State
  pub connect : ℤ → ℕ → ℕ → State → ℤ × State
  pub close : ℤ → State → State
  pub inet_aton : String → Option ℕ
  pub scan_int : String → Option ℤ
  pub print : String → State → State

-- A set-up goes on with a value, or ends the process with a status.
pub data Ran (N : Net) (A : Type 0) : Type 0 where
  returns : A → N.State → Ran N A
  exits : ℤ → N.State → Ran N A

abbrev pub Sys : Net → Type 0 → Type 0
Sys N A = N.State → Ran N A

module _ (N : Net) where
  abbrev pub pure : {A : Type 0} → A → Sys N A
  pure a s = returns a s

  abbrev pub ask : (N.State → ℤ × N.State) → Sys N ℤ
  ask f s = let r = f s in returns r.0 r.1

  -- `printf(…);` and `fprintf(stderr, …);`
  abbrev pub say : String → Sys N (Unit {0})
  say text s = returns tt (N.print text s)

  -- `if (…) { fprintf(stderr, …); exit(1); }`
  abbrev pub die_saying : Bool → String → Sys N (Unit {0})
  die_saying true text s = exits (pos 1) (N.print text s)
  die_saying false text s = returns tt s

  -- `if (…) exit(1);`
  abbrev pub die_if : Bool → Sys N (Unit {0})
  die_if true s = exits (pos 1) s
  die_if false s = returns tt s

-- A set-up with this result, whatever it starts from.
abbrev pub ran : {N : Net} {A : Type 0} → Ran N A → Sys N A
ran r s = r

infixl 5 ◌>>=◌ ◌>>◌
abbrev pub ◌>>=◌ : {N : Net} {A B : Type 0} → Sys N A → (A → Sys N B) → Sys N B
◌>>=◌ m f s = elim (m s) [ returns a s' ↦ f a s' | exits n s' ↦ exits n s' ]

abbrev pub ◌>>◌ : {N : Net} {A B : Type 0} → Sys N A → Sys N B → Sys N B
m >> k = m >>= λ _. k

-- The port that a text names; where `sscanf` stores nothing the variable keeps what it held.
abbrev pub scanned : Option ℤ → ℤ → ℤ
scanned none before = before
scanned (some n) before = n

-- A call that opened the descriptor `k`, which was not open, and no other.
abbrev pub Opens : {S : Type 0} → (S → ℤ → Bool) → S → ℤ → S → Type 0
Opens is_open s k s' =
    (is_open s k ≡ false) × ((j : ℤ) → is_open s' j ≡ (if eq_ℤ j k then true else is_open s j))

-- A call that opened and closed no descriptor.
abbrev pub Keeps : {S : Type 0} → (S → ℤ → Bool) → S → S → Type 0
Keeps is_open s s' = (j : ℤ) → is_open s' j ≡ is_open s j

-- `is_open` says which descriptors are open: `socket` and `accept` fail with -1 or open a new one,
-- `close` closes the one that it is given, and no other call opens or closes any.
pub record IsTable (N : Net) (is_open : N.State → ℤ → Bool) : Type 0 where
  pub socket :
      (s : N.State)
      → (((N.socket s).0 ≡ negsuc 0) × Keeps is_open s (N.socket s).1)
        ⊎ ((is_negative (N.socket s).0 ≡ false) × Opens is_open s (N.socket s).0 (N.socket s).1)
  pub accept :
      (k : ℤ) (s : N.State)
      → (((N.accept k s).0 ≡ negsuc 0) × Keeps is_open s (N.accept k s).1)
        ⊎ ((is_negative (N.accept k s).0 ≡ false)
            × Opens is_open s (N.accept k s).0 (N.accept k s).1)
  pub close :
      (k : ℤ) (s : N.State) (j : ℤ)
      → is_open (N.close k s) j ≡ (if eq_ℤ j k then false else is_open s j)
  pub bind : (k : ℤ) (p : ℕ) (s : N.State) → Keeps is_open s (N.bind k p s).1
  pub listen : (k n : ℤ) (s : N.State) → Keeps is_open s (N.listen k n s).1
  pub setsockopt : (k v : ℤ) (s : N.State) → Keeps is_open s (N.setsockopt k v s).1
  pub select : (k : ℤ) (t : ℕ) (s : N.State) → Keeps is_open s (N.select k t s).1
  pub print : (text : String) (s : N.State) → Keeps is_open s (N.print text s)

-- `peer` is the address and the port that a socket is connected to: `connect` fails with -1, or
-- connects the socket as it was asked.
pub record IsPeer (N : Net) (peer : N.State → ℤ → Option (ℕ × ℕ)) : Type 0 where
  pub connect :
      (k : ℤ) (a p : ℕ) (s : N.State)
      → ((N.connect k a p s).0 ≡ negsuc 0) ⊎ (peer (N.connect k a p s).1 k ≡ some (a, p))

-- `bound` is the port that a socket is bound to: `bind` returns another value than 0, or binds the
-- socket as it was asked; a socket that `accept` gives has the port of the socket that listens; the
-- other calls bind no socket.
pub record IsBound (N : Net) (bound : N.State → ℤ → Option ℕ) : Type 0 where
  pub bind :
      (k : ℤ) (p : ℕ) (s : N.State)
      → (eq_ℤ (N.bind k p s).0 (pos 0) ≡ false) ⊎ (bound (N.bind k p s).1 k ≡ some p)
  pub accept :
      (k : ℤ) (s : N.State)
      → ((N.accept k s).0 ≡ negsuc 0) ⊎ (bound (N.accept k s).1 (N.accept k s).0 ≡ bound s k)
  pub listen : (k n : ℤ) (s : N.State) (j : ℤ) → bound (N.listen k n s).1 j ≡ bound s j
  pub setsockopt : (k v : ℤ) (s : N.State) (j : ℤ) → bound (N.setsockopt k v s).1 j ≡ bound s j
  pub select : (k : ℤ) (t : ℕ) (s : N.State) (j : ℤ) → bound (N.select k t s).1 j ≡ bound s j
