-- ===== src/FindIdevice/Search.antt =====
-- The report of irpc_find_idevice.c about a host whose devices do not change.
use Prim.Native.String.{String}
use libirpc.Prelude.{
  ◌&&◌, ℕ, zero, suc, ◌+◌, ◌≤◌, ◌<◌, ◌≡◌, refl, sym, subst, ap, append_assoc, ◌∙◌, false,
  Bool-cases, inl, inr, Option, none, some, List, [], ◌∷◌, ◌++◌, map, All, ℤ, pos, pos_part, eq_ℤ,
  is_negative, get_elem?, take, replicate, min, length, length-append, arith,
}
use libirpc.Types.{usb_init, IrpcDevice, IrpcDeviceDescriptor, IrpcInfo, irpc_max_devs}
use libirpc.Types.Bounds.{IsInfo, zero_device}
use libirpc.Tpl.{Tpl}
use libirpc.Usb.{Libusb, LibusbDeviceDescriptor, IsTyped}
use libirpc.Proc.Run.{run, finished}
use libirpc.Rpc.Base.{Globals, Uninit, IsUninit}
use libirpc.Rpc.Devices.{reflect_device, listed, build_descriptor}
use libirpc.Server.{server_loop}
use libirpc.Local.{local_call}
use libirpc.Local.Table.{device_table}
use libirpc.Session.{Script, remote, local}
use libirpc.Session.Refines.{session-local}
use libirpc.Session.Gives.{GivesIn, GivesIn-exit, GivesIn-local_call}
use libirpc.FindIdevice.{
  Line, Report, apple_vendor_id, is_recovery_product, inspect, find_loop, try_to_find_idevice,
  report, main,
}
use libirpc.Local.Steady.{IsSteady, Distinct, answered, asked, relisted-IsSteady, relisted-Distinct}
use libirpc.FindIdevice.First.{known, first_of, first_found, reported}
use libirpc.FindIdevice.Ready.{main-Ready}

take-min {ℓ} : {A : Type ℓ} (n m : ℕ) (xs : List A) → m ≡ min (length xs) n → take m xs ≡ take n xs
take-min zero zero xs h = refl
take-min (suc n) zero [] h = refl
take-min zero (suc m) xs h = absurd (omega arith)
take-min (suc n) (suc m) [] h = refl
take-min (suc n) zero (x ∷ xs) h = absurd (omega arith)
take-min (suc n) (suc m) (x ∷ xs) h = ap (λ ys. x ∷ ys) (take-min n m xs (omega arith))

module _ (L : Libusb) where
  get_elem?-take :
      (xs ys : List L.Device) (d : L.Device) (k : ℕ) (zs : List IrpcDevice)
      → length xs < k
      → get_elem? (take k (map (reflect_device L) (xs ++ d ∷ ys) ++ zs)) (length xs)
        ≡ some (reflect_device L d)
  get_elem?-take xs ys d zero zs h = absurd (omega arith)
  get_elem?-take [] ys d (suc k) zs h = refl
  get_elem?-take (x ∷ xs) ys d (suc k) zs h = get_elem?-take xs ys d k zs (omega arith)

-- The tests of the search know the devices that they should.
known_lem : (v p : ℕ) → known v p ≡ (eq_ℤ (pos v) apple_vendor_id && is_recovery_product (pos p))
unfolding is_recovery_product
known_lem v p = ground arith

module _ (L : Libusb) (ip : String) (g : Globals L) (ds : List L.Device)
    (answer : L.Device → Option LibusbDeviceDescriptor) (steady : IsSteady L ds answer)
    (distinct : Distinct L ds) where
  report-GivesIn :
      (n : ℕ) (i : IrpcInfo) (lines : List Line)
      → GivesIn L g (suc n) (reported ip lines) (report L ip i lines)
  unfolding main
  report-GivesIn n i lines = GivesIn-exit L g n i _

  inspect-GivesIn :
      (n : ℕ) (a : Option LibusbDeviceDescriptor) (r : ℤ × IrpcDeviceDescriptor) (g' : Globals L)
      (i : IrpcInfo) (rest : IrpcInfo → Script L Report) (lines : List Line)
      → r ≡ answered L a
      → ((j : IrpcInfo) → GivesIn L g (suc n) (reported ip lines) (rest j))
      → GivesIn L g (suc n) (reported ip (first_of a lines)) (
          inspect L
            (record { retval = r.0; globals = g'; info = record i { desc = r.1 } })
            rest
            (report L ip))
  unfolding build_descriptor
  inspect-GivesIn n none r g' i rest lines e next = rw e (report-GivesIn n _ [])
  inspect-GivesIn n (some x) r g' i rest lines e next =
      rw (e, known_lem x.id_vendor x.id_product)
        (elim (Bool-cases (eq_ℤ (pos x.id_vendor) apple_vendor_id)) [
          | inl apple ↦ rw apple (elim (Bool-cases (is_recovery_product (pos x.id_product))) [
            | inl mode ↦ rw mode (report-GivesIn n _ _)
            | inr other ↦ rw other (next _)
          ])
          | inr other ↦ rw other (next _)
        ])

  at_index :
      (n : ℕ) (xs ys : List L.Device) (d : L.Device)
      → ds ≡ xs ++ d ∷ ys
      → length xs ≡ n
      → suc n ≤ 256
      → get_elem? (device_table L ds).devs n ≡ some (reflect_device L d)
  unfolding device_table
  at_index n xs ys d e here h =
      ap (λ l. get_elem? (device_table L l).devs n) e
      ∙ ap (λ m. get_elem? (device_table L (xs ++ d ∷ ys)).devs m) (sym here)
      ∙ get_elem?-take L xs ys d 256 (replicate irpc_max_devs zero_device) (omega arith)

  find_loop-GivesIn :
      (left n : ℕ) (xs ys : List L.Device) (i : IrpcInfo)
      → ds ≡ xs ++ ys
      → length xs ≡ n
      → n + left ≡ min (length ds) 256
      → GivesIn L g
          (suc left)
          (reported ip (first_found (map answer (take left ys))))
          (find_loop L left n (device_table L ds).devs i (report L ip))
  unfolding find_loop local_call
  find_loop-GivesIn zero n xs ys i e here h = report-GivesIn 0 i _
  find_loop-GivesIn (suc left) n xs [] i e here h =
      absurd (omega (arith, ap length e, length-append xs []))
  find_loop-GivesIn (suc left) n xs (d ∷ ys) i e here h =
      rw (at_index n xs ys d e here (omega arith)) (
        GivesIn-local_call L g (suc left) _ _ _ _ λ u h'.
          inspect-GivesIn left (answer d) _ g (record i { dev = reflect_device L d }) _ _
            (asked L ds answer steady distinct xs ys d h'.irpc_ctx h'.usb e)
            λ j.
              find_loop-GivesIn left (suc n) (xs ++ d ∷ []) ys j
                (e ∙ sym (append_assoc xs (d ∷ []) ys)) (omega (arith, length-append xs (d ∷ [])))
                (omega arith))

  after_list :
      (i : IrpcInfo) (o : Option (List L.Device))
      → o ≡ some ds
      → GivesIn L g 257 (reported ip (first_found (map answer (take 256 ds)))) (
          find_loop L
            (pos_part (device_table L (listed L o)).n_devs)
            0
            (device_table L (listed L o)).devs
            i
            (report L ip))
  unfolding device_table
  after_list i o e = rw e λ us h enough.
      subst
        (λ l.
          (h' : Globals L) × (local L us h g
              (find_loop L (min (length ds) 256) 0 (device_table L ds).devs i (report L ip))
            ≡ finished (reported ip (first_found (map answer l))) h'))
        (take-min 256 (min (length ds) 256) ds refl)
        (find_loop-GivesIn (min (length ds) 256) 0 [] ds i refl refl (omega arith) us h
          (omega arith))

  list-local :
      (i : IrpcInfo) (us : List Uninit) (h : Globals L)
      → (L.get_device_list h.irpc_ctx h.usb).0 ≡ some ds
      → 258 ≤ length us
      → (h' : Globals L) × (local L us h g (try_to_find_idevice L i (report L ip))
          ≡ finished (reported ip (first_found (map answer (take 256 ds)))) h')
  unfolding local local_call main
  list-local i [] h e enough = absurd (omega arith)
  list-local i (u ∷ us) h e enough = after_list _ _ e us _ (omega arith)

module _ (T : Tpl) (L : Libusb) (ip : String) (typed : IsTyped L) (u : Uninit) (si i : IrpcInfo)
    (info : IsInfo i) (m : Uninit) (us : List Uninit) (h g : Globals L)
    (memory : All IsUninit (m ∷ us)) (ds : List L.Device)
    (answer : L.Device → Option LibusbDeviceDescriptor) where
  -- What irpc_find_idevice.c reports about a host whose devices do not change is what a plain
  -- search reports of the answers to a read of a descriptor, for the first 256 devices `xs` in
  -- the order in which libusb lists them for the first call after its initialisation: the first
  -- device with Apple's vendor id, 0x05AC, and a product id from 0x1280 to 0x1283 or 0x1227
  -- (recovery and DFU mode), nothing where an unreadable descriptor comes before it, or that
  -- there is none. Client and server both return. Assumed: the initialisation succeeds, libusb
  -- lists the devices `ds` at every call, in whatever order, and a device always gives the same
  -- answer, the devices have session data of their own, below 2^31, the server's loop has 259
  -- rounds, libusb keeps to its types, and the client's info and the uninitialised memory hold
  -- values of their types.
  pub search-first_found :
      IsSteady L ds answer
      → Distinct L ds
      → is_negative (L.init h.irpc_ctx h.usb).0.0 ≡ false
      → 258 ≤ length us
      → (xs : List L.Device) × ((L.get_device_list
            (L.init h.irpc_ctx h.usb).0.1
            (L.init h.irpc_ctx h.usb).1).0
          ≡ some xs)
        × (h' : Globals L) × (run T (remote L u g (main L ip i)) [] (server_loop L (m ∷ us) h si) []
            ≡ finished (reported ip (first_found (map answer (take irpc_max_devs xs)))) h')
  unfolding main local local_call
  search-first_found steady distinct fine enough =
      let (xs, o, p) = steady.list (L.init h.irpc_ctx h.usb).0.1 (L.init h.irpc_ctx h.usb).1 in
      let (h', e) =
        list-local L ip g xs answer (relisted-IsSteady L ds answer steady distinct xs p)
          (relisted-Distinct L ds answer steady distinct xs p) i us
          (local_call L usb_init m h i).globals o enough in
      (
        xs,
        o,
        h',
        session-local T L typed u si (main L ip i) (m ∷ us) h g (main-Ready L ip i info) memory
            ∙ rw fine e,
      )
