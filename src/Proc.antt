-- ===== src/Proc.antt =====
-- A process that talks over one connected socket: it returns, sends a packet, reads a packet, or
-- stops for good. A packet is sent and read under a format string.
pub mod Run
pub mod Steps
pub mod Ends
pub mod Settles
pub mod Diamond
pub mod Ensures
pub mod Sockets
pub mod Overrun
use libirpc.Prelude.{ℤ}
use libirpc.Tpl.{Format, Values}

-- Why a process has no further behaviour that the program defines: `tpl_unpack` without an image or
-- past the end of one, an access past the end of an array, or (in the model alone) the end of the
-- rounds granted to a loop.
pub data Stop : Type 0 where
  bad_load buffer_overflow out_of_rounds : Stop

pub data Proc (A : Type 0) : Type 0 where
  done : A → Proc A
  send : ℤ → (f : Format) → Values f → Proc A → Proc A
  recv : ℤ → (f : Format) → (Values f → Proc A) → Proc A
  stop : Stop → Proc A

infixl 5 ◌>>=◌ ◌>>◌
abbrev pub ◌>>=◌ : {A B : Type 0} → Proc A → (A → Proc B) → Proc B
done a >>= h = h a
send n f v p >>= h = send n f v (p >>= h)
recv n f k >>= h = recv n f (λ v. k v >>= h)
stop e >>= h = stop e

abbrev pub ◌>>◌ : {B : Type 0} → Proc (Unit {0}) → Proc B → Proc B
p >> q = p >>= λ _. q

-- `tpl_map`, `tpl_pack`, `tpl_dump`, `tpl_free`
abbrev pub tpl_write : ℤ → (f : Format) → Values f → Proc (Unit {0})
tpl_write sock f v = send sock f v (done tt)

-- `tpl_map`, `tpl_load`, `tpl_unpack`, `tpl_free`
abbrev pub tpl_read : ℤ → (f : Format) → Proc (Values f)
tpl_read sock f = recv sock f done

-- A program after its set-up: it has returned a status, or goes on as a process.
pub data Program (A : Type 0) : Type 0 where
  over : ℤ → Program A
  running : Proc A → Program A
