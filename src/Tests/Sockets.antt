-- ===== src/Tests/Sockets.antt =====
-- A concrete system that keeps a table of open descriptors, and the theorem on them applied to it.
use libirpc.Prelude.{
  ℕ, suc, ◌≡◌, refl, Bool, true, false, ◌&&◌, ◌==◌, ltb, some, [], ◌∷◌, inr, ℤ, pos, negsuc, eq_ℤ,
  if◌then◌else◌, arith,
}
use libirpc.Net.{Net, IsTable}
use libirpc.Server.Main.{main}
use libirpc.Server.Sockets.{Goes, Closes, main-Closes}

-- The descriptors that were given out are those below `next`; `is_open` says which are open still.
pub record Table : Type 0 where
  pub next : ℕ
  pub is_open : ℕ → Bool

abbrev shut : ℤ → Table → Table
shut (pos k) s = record s { is_open = λ n. if n == k then false else s.is_open n }
shut (negsuc k) s = s

abbrev give : Table → ℤ × Table
give s = (
  pos s.next,
  record { next = suc s.next; is_open = λ n. if n == s.next then true else s.is_open n },
)

-- Every call succeeds.
abbrev table_net : Net
table_net = record {
  State = Table;
  socket = give;
  bind = λ k p s. (pos 0, s);
  listen = λ k n s. (pos 0, s);
  setsockopt = λ k v s. (pos 0, s);
  select = λ k t s. (pos 1, s);
  accept = λ k s. give s;
  connect = λ k a p s. (pos 0, s);
  close = shut;
  inet_aton = λ ip. some 2130706433;
  scan_int = λ text. some (pos 4242);
  print = λ text s. s;
}

abbrev open_there : Table → ℤ → Bool
open_there s (pos n) = ltb n s.next && s.is_open n
open_there s (negsuc n) = false

given :
    (s : Table) (j : ℤ)
    → open_there (give s).1 j ≡ (if eq_ℤ j (pos s.next) then true else open_there s j)
given s (pos n) = ground arith
given s (negsuc n) = ground arith

fresh_there : (s : Table) → open_there s (pos s.next) ≡ false
fresh_there s = ground arith

shut-open_there :
    (k : ℤ) (s : Table) (j : ℤ)
    → open_there (shut k s) j ≡ (if eq_ℤ j k then false else open_there s j)
shut-open_there (pos k) s (pos n) = ground arith
shut-open_there (pos k) s (negsuc n) = ground arith
shut-open_there (negsuc k) s (pos n) = ground arith
shut-open_there (negsuc k) s (negsuc n) = ground arith

table_net-IsTable : IsTable table_net open_there
table_net-IsTable = record {
  socket = λ s. inr (refl, (fresh_there s, given s));
  accept = λ k s. inr (refl, (fresh_there s, given s));
  close = shut-open_there;
  bind = λ k p s j. refl;
  listen = λ k n s j. refl;
  setsockopt = λ k v s j. refl;
  select = λ k t s j. refl;
  print = λ text s j. refl;
}

-- Only the descriptors 0 to 2 are open.
abbrev standard : Table
standard = record { next = 3; is_open = λ n. true }

main-Closes_example :
    Goes table_net open_there table_net-IsTable
      (Closes table_net open_there table_net-IsTable standard)
      (main table_net (pos 0) (pos 0) ("4242" ∷ []) standard)
main-Closes_example =
    main-Closes table_net open_there table_net-IsTable (pos 0) (pos 0) ("4242" ∷ []) standard
