-- ===== src/IrpcClient/Reports.antt =====
-- The value that `main` of irpc_client.c returns, and the failures that it prints.
use libirpc.Prelude.{
  ℕ, zero, suc, ◌≡◌, refl, sym, ◌∙◌, Bool, true, false, Option, none, some, List, [], ◌∷◌, ◌++◌, ℤ,
  eq_ℤ, is_negative, get_elem?, Option-cases, Bool-cases, inl, inr,
}
use mathlib.Core.Option
use libirpc.Types.{IrpcDevice, IrpcInfo, irpc_failure}
use libirpc.Usb.{Libusb}
use libirpc.Proc.Ensures.{Ensures}
use libirpc.Rpc.Base.{Called}
use libirpc.Session.Finish.{Results, Results-cases, Results-if}
use libirpc.IrpcClient.{
  Line, Report, usb_init_failed, usb_print_device_ids_failed, usb_open_failed,
  usb_claim_interface_failed, usb_release_interface_failed, n_devs, device, ids, opened_device,
  device_lines, printed, close_and_exit, claim_and_release, open_and_claim, after_ids,
  print_ids_and_open, main,
}

-- Some line of the output says that a call failed.
abbrev pub has_failure : List Line → Bool
has_failure [] = false
has_failure (usb_init_failed ∷ ls) = true
has_failure (usb_print_device_ids_failed ∷ ls) = true
has_failure (usb_open_failed ∷ ls) = true
has_failure (usb_claim_interface_failed ∷ ls) = true
has_failure (usb_release_interface_failed ∷ ls) = true
has_failure (n_devs n ∷ ls) = has_failure ls
has_failure (device i d ∷ ls) = has_failure ls
has_failure (ids v p ∷ ls) = has_failure ls
has_failure (opened_device b a ∷ ls) = has_failure ls

abbrev pub IsHonest : Report → Type 0
IsHonest r = is_negative r.retval ≡ has_failure r.lines

has_failure-append :
    (xs ys : List Line) → has_failure xs ≡ false → has_failure (xs ++ ys) ≡ has_failure ys
has_failure-append [] ys h = refl
has_failure-append (usb_init_failed ∷ xs) ys h = cc
has_failure-append (usb_print_device_ids_failed ∷ xs) ys h = cc
has_failure-append (usb_open_failed ∷ xs) ys h = cc
has_failure-append (usb_claim_interface_failed ∷ xs) ys h = cc
has_failure-append (usb_release_interface_failed ∷ xs) ys h = cc
has_failure-append (n_devs n ∷ xs) ys h = has_failure-append xs ys h
has_failure-append (device i d ∷ xs) ys h = has_failure-append xs ys h
has_failure-append (ids v p ∷ xs) ys h = has_failure-append xs ys h
has_failure-append (opened_device b a ∷ xs) ys h = has_failure-append xs ys h

-- A part of the output, if it is printed, reports no failure.
abbrev NoFailure : Option (List Line) → Type 0
NoFailure none = Unit
NoFailure (some ls) = has_failure ls ≡ false

device-NoFailure :
    (i : ℕ) (d : IrpcDevice) (o : Option (List Line))
    → NoFailure o
    → NoFailure (Option.map (λ ls. device i d ∷ ls) o)
device-NoFailure i d none h = tt
device-NoFailure i d (some ls) h = h

device_lines-NoFailure :
    (left i : ℕ) (devs : List IrpcDevice) → NoFailure (device_lines left i devs)
unfolding device_lines
device_lines-NoFailure zero i devs = refl
device_lines-NoFailure (suc left) i devs = elim (Option-cases (get_elem? devs i)) [
  | inl past ↦ rw (past, device_lines) tt
  | inr (d, at) ↦
      rw (at, device_lines) (device-NoFailure i d _ (device_lines-NoFailure left (suc i) devs))
]

module _ (L : Libusb) where
  close_and_exit-IsHonest :
      (retval : ℤ) (lines : List Line) (i : IrpcInfo)
      → is_negative retval ≡ has_failure lines
      → Results L IsHonest (close_and_exit L retval lines i)
  unfolding main
  close_and_exit-IsHonest retval lines i h = λ c. h

  claim_and_release-IsHonest :
      (lines : List Line) (i : IrpcInfo)
      → has_failure lines ≡ false
      → Results L IsHonest (claim_and_release L lines i)
  unfolding main
  claim_and_release-IsHonest lines i h = λ c.
      Results-cases L IsHonest (is_negative c.retval) _ _
        (λ failed d. failed ∙ sym (has_failure-append lines _ h))
        (λ fine d e. elim (Bool-cases (is_negative d.retval)) [
          | inl failed ↦ rw failed (sym (has_failure-append lines _ h))
          | inr fine' ↦ rw fine' (sym h)
        ])

  open_and_claim-IsHonest :
      (lines : List Line) (i : IrpcInfo)
      → has_failure lines ≡ false
      → Results L IsHonest (open_and_claim L lines i)
  unfolding main
  open_and_claim-IsHonest lines i h = λ c.
      Results-cases L IsHonest (is_negative c.retval) _ _
        (λ failed. failed ∙ sym (has_failure-append lines _ h))
        (λ fine. claim_and_release-IsHonest lines c.info h)

  after_ids-IsHonest :
      (lines : List Line) (c : Called L) (more : List Line)
      → has_failure lines ≡ false
      → has_failure more ≡ false
      → Results L IsHonest (after_ids L lines c more)
  unfolding main
  after_ids-IsHonest lines c more h hm =
      Results-cases L IsHonest (is_negative c.retval) _ _
        (λ failed. failed ∙ sym (has_failure-append lines _ h))
        (λ fine.
          open_and_claim-IsHonest (lines ++ more) c.info (has_failure-append lines more h ∙ hm))

  printed-IsHonest :
      (c : Called L) (o : Option (List Line))
      → NoFailure o
      → Results L IsHonest (printed L c o (print_ids_and_open L))
  unfolding main
  printed-IsHonest c none h = tt
  printed-IsHonest c (some ls) h = λ d.
      Results-if L IsHonest (eq_ℤ d.retval irpc_failure) _ _
        (after_ids-IsHonest (n_devs c.info.devlist.n_devs ∷ ls) d [] h refl)
        (after_ids-IsHonest (n_devs c.info.devlist.n_devs ∷ ls) d _ h refl)

  pub main-Results : (i : IrpcInfo) → Results L IsHonest (main L i)
  unfolding main
  main-Results i = λ c.
      Results-cases L IsHonest (is_negative c.retval) _ _ (λ failed. failed)
        (λ fine d. printed-IsHonest d _ (device_lines-NoFailure _ 0 d.info.devlist.devs))
