-- ===== src/Remote/Transfer.antt =====
-- Control and bulk transfers and string descriptors (libirpc.c), where the bytes that come back
-- fit the server's buffer.
use libirpc.Prelude.{
  ℕ, ◌≤◌, ◌≡◌, ◌∙◌, refl, Option, none, some, List, ◌++◌, ℤ, pos_part, IsInt, IsChar, length, drop,
  take, take-append, drop-append, All-append, length-append, to_unsigned, le→leb, arith,
}
use libirpc.Types.{
  func_code, irpc_max_data, usb_control_transfer, usb_bulk_transfer,
  usb_get_string_descriptor_ascii,
}
use libirpc.Types.Bounds.{IsInfo, IsBytes}
use libirpc.Tpl.{Tpl}
use libirpc.Usb.{Libusb, IsTyped, IsTransferred, Transferred}
use libirpc.Proc.{done}
use libirpc.Proc.Run.{run-request}
use libirpc.Rpc.Base.{Uninit, IsUninit, Called}
use libirpc.Rpc.Transfer.{overwrite, or_keep}
use libirpc.Rpc.Call.{irpc_call, irpc_dispatch}
use libirpc.Server.{server_loop}
use libirpc.Local.{local_call, overlay, control, bulk, string}
use libirpc.Remote.Setup.{Setting, before, after, Agrees}
use libirpc.Remote.Fits.{overlay-IsBytes, status_of-IsInt}

pub overwrite-overlay :
    (written buffer : List ℤ)
    → length written ≤ length buffer
    → overwrite written buffer ≡ done (overlay written buffer)
unfolding overwrite
overwrite-overlay written buffer h = rw (le→leb (length written) (length buffer) h)

pub or_keep-IsInt :
    (old : ℤ) (count : Option ℤ)
    → ((n : ℤ) → count ≡ some n → IsInt n)
    → IsInt old
    → IsInt (or_keep old count)
or_keep-IsInt old none fits h = h
or_keep-IsInt old (some n) fits h = fits n refl

pub words-IsBytes :
    (bytes beyond : List ℤ)
    → IsBytes irpc_max_data bytes
    → IsBytes 3072 beyond
    → IsBytes 4096 (bytes ++ beyond)
words-IsBytes bytes beyond b c = record {
  size = omega (arith, length-append bytes beyond, b.size, c.size);
  chars = All-append IsChar bytes beyond b.chars c.chars;
}

-- A transfer of at most `irpc_max_data` bytes into the server's buffer.
module _ (u : Uninit) (memory : IsUninit u) (n : ℕ) (t : Transferred) (it : IsTransferred n t)
    (small : n ≤ irpc_max_data) where
  overwrite_small : overwrite t.written u.buffer ≡ done (overlay t.written u.buffer)
  overwrite_small = overwrite-overlay t.written u.buffer (omega arith)

  overlay_small : IsBytes irpc_max_data (overlay t.written u.buffer)
  overlay_small =
      overlay-IsBytes irpc_max_data t.written u.buffer (omega arith) it.chars memory.buffer

module _ (T : Tpl) (L : Libusb) (typed : IsTyped L) {B : Type 0} (x : Setting L B)
    (info : IsInfo x.info) (memory : IsUninit x.memory) where
  pub control_transfer-Agrees :
      to_unsigned 16 x.info.length ≤ irpc_max_data → Agrees T L x usb_control_transfer
  unfolding irpc_call irpc_dispatch server_loop local_call func_code
  control_transfer-Agrees small =
      let r = (control L x.memory x.server x.info).0 in
      let t : IsTransferred (to_unsigned 16 x.info.length) r = typed.control _ _ _ _ _ _ _ _ _ in
      let bytes = overlay_small x.memory memory _ r t small in
      run-request T _ _ _ _ {s₃ = x.server_info.ci.client_sock} _ _ _ _ _ refl
        (rw (overwrite_small x.memory memory _ r t small)) (omega arith) (omega arith)
        (t.code, (status_of-IsInt _ irpc_max_data _ bytes, (bytes, tt)))

  pub get_string_descriptor_ascii-Agrees :
      pos_part x.info.length ≤ irpc_max_data → Agrees T L x usb_get_string_descriptor_ascii
  unfolding irpc_call irpc_dispatch server_loop local_call func_code
  get_string_descriptor_ascii-Agrees small =
      let r = (string L x.memory x.server x.info).0 in
      let t : IsTransferred (pos_part x.info.length) r = typed.string _ _ _ _ _ in
      run-request T _ _ _ _ {s₃ = x.server_info.ci.client_sock} _ _ _ _ _ refl
        (rw (overwrite_small x.memory memory _ r t small)) (omega arith) (omega arith)
        (t.code, (overlay_small x.memory memory _ r t small, tt))

  -- What the client unpacks: its `data` and `buf` in one piece.
  abbrev received : List ℤ → Called L
  received words = record {
    retval = (bulk L x.memory x.server x.info).0.code;
    globals = record x.server { usb = (bulk L x.memory x.server x.info).1 };
    info = record x.info {
      buffer = take irpc_max_data words;
      buf = drop irpc_max_data words ++ drop 3072 x.info.buf;
    };
  }

  bulk_transfer-received :
      pos_part x.info.length ≤ irpc_max_data
      → before T L x usb_bulk_transfer
        ≡ after T L x (
            received (
              overlay (bulk L x.memory x.server x.info).0.written x.memory.buffer
              ++ x.memory.beyond))
  unfolding irpc_call irpc_dispatch server_loop func_code
  bulk_transfer-received small =
      let r = (bulk L x.memory x.server x.info).0 in
      let t : IsTransferred (pos_part x.info.length) r = typed.bulk _ _ _ _ _ _ in
      let bytes = overlay_small x.memory memory _ r t small in
      run-request T _ _ _ _ {s₃ = x.server_info.ci.client_sock} _ _ _ _ _ refl
        (rw (overwrite_small x.memory memory _ r t small)) (omega arith) (omega arith)
        (
          t.code,
          (
            or_keep-IsInt _ r.count t.count info.transfered,
            (words-IsBytes _ _ bytes memory.beyond, tt),
          ),
        )

  -- The client's `data` gets the transfer's buffer, its `buf` the server's stack.
  pub bulk_transfer-Agrees : pos_part x.info.length ≤ irpc_max_data → Agrees T L x usb_bulk_transfer
  unfolding local_call
  bulk_transfer-Agrees small =
      let r = (bulk L x.memory x.server x.info).0 in
      let t : IsTransferred (pos_part x.info.length) r = typed.bulk _ _ _ _ _ _ in
      let bytes = overlay_small x.memory memory _ r t small in
      bulk_transfer-received small
      ∙ rw (
        take-append _ x.memory.beyond irpc_max_data bytes.size,
        drop-append _ x.memory.beyond irpc_max_data bytes.size,
      )
