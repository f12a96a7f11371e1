-- ===== src/Server/Sockets.antt =====
-- The descriptors that irpc_server.c opens and closes.
use Prim.Native.String.{String}
use libirpc.Prelude.{
  ◌≡◌, refl, sym, ◌∙◌, ap, Bool, Bool-cases, true, false, Option, none, some, List, [], ◌∷◌, inl,
  inr, ℤ, pos, negsuc, eq_ℤ, is_negative, to_unsigned, if◌then◌else◌, arith,
}
use libirpc.Net.{Net, Ran, returns, exits, Sys, scanned, Opens, Keeps, IsTable, ◌>>=◌}
use libirpc.Server.Main.{
  init_connection_or_die, accept_client, Started, ended, serving, served_or_closed, main,
  select_failed, accept_failed, usage_line, hang_up,
}

eq_ℤ-true : (a b : ℤ) → eq_ℤ a b ≡ true → a ≡ b
eq_ℤ-true (pos m) (pos n) e = ap pos (ground arith)
eq_ℤ-true (pos m) (negsuc n) e = absurd (ground arith)
eq_ℤ-true (negsuc m) (pos n) e = absurd (ground arith)
eq_ℤ-true (negsuc m) (negsuc n) e = ap negsuc (ground arith)

module _ (N : Net) (is_open : N.State → ℤ → Bool) (table : IsTable N is_open) where
  -- What holds of a set-up that goes on; where it exits, the system closes the sockets.
  abbrev pub Goes : {A : Type 0} → (A → N.State → Type 0) → Ran N A → Type 0
  Goes P (returns a s) = P a s
  Goes P (exits n s) = Unit

  Goes-bind :
      {A B : Type 0} (P : A → N.State → Type 0) (Q : B → N.State → Type 0) (m : Sys N A)
      (k : A → Sys N B) (s : N.State)
      → Goes P (m s)
      → ((a : A) (s' : N.State) → P a s' → Goes Q (k a s'))
      → Goes Q ((m >>= k) s)
  Goes-bind P Q m k s h next =
      elim (m s)
          as (λ r. Goes P r → Goes Q (elim r [ returns a s' ↦ k a s' | exits n s' ↦ exits n s' ])) [
            | returns a s' ↦ λ h. next a s' h
            | exits n s' ↦ λ h. tt
          ]
        h

  -- What was opened and is closed leaves the descriptors as they were.
  closed-Keeps : (k : ℤ) (s t : N.State) → Opens is_open s k t → Keeps is_open s (N.close k t)
  closed-Keeps k s t (fresh, opened) j = elim (Bool-cases (eq_ℤ j k)) [
    | inl same ↦ table.close k t j ∙ rw same (sym (ap (is_open s) (eq_ℤ-true j k same) ∙ fresh))
    | inr other ↦ table.close k t j ∙ rw other (opened j ∙ rw other refl)
  ]

  Opens-Keeps :
      (k : ℤ) (s t u : N.State) → Opens is_open s k t → Keeps is_open t u → Opens is_open s k u
  Opens-Keeps k s t u (fresh, opened) kept = (fresh, λ j. kept j ∙ opened j)

  socket-Opens :
      (s : N.State)
      → is_negative (N.socket s).0 ≡ false
      → Opens is_open s (N.socket s).0 (N.socket s).1
  socket-Opens s e = elim (table.socket s) [
    | inl failed ↦ absurd (cc (failed.0))
    | inr opened ↦ opened.1
  ]

  init-Opens :
      (tmp port : ℤ) (s : N.State)
      → Goes (λ sock s'. Opens is_open s sock s') (init_connection_or_die N tmp port s)
  unfolding init_connection_or_die
  init-Opens tmp port s =
      let k : ℤ = (N.socket s).0 in
      let s1 : N.State = (N.socket s).1 in
      let bound : ℤ × N.State = N.bind k (to_unsigned 16 port) s1 in
      let listening : ℤ × N.State = N.listen k (pos 20) bound.1 in
      let set : ℤ × N.State = N.setsockopt k tmp listening.1 in
      elim (Bool-cases (is_negative k)) [
        | inl failed ↦ rw failed tt
        | inr fine ↦ rw fine (elim (Bool-cases (eq_ℤ bound.0 (pos 0))) [
          | inr failed ↦ rw failed tt
          | inl e ↦ rw e (elim (Bool-cases (eq_ℤ listening.0 (pos 0))) [
            | inr failed ↦ rw failed tt
            | inl e ↦ rw e (elim (Bool-cases (eq_ℤ set.0 (pos 0))) [
              | inr failed ↦ rw failed tt
              | inl e ↦ rw e (
                  Opens-Keeps k s s1 set.1 (socket-Opens s fine) λ j.
                    table.setsockopt k tmp listening.1 j
                    ∙ table.listen k (pos 20) bound.1 j
                    ∙ table.bind k (to_unsigned 16 port) s1 j)
            ])
          ])
        ])
      ]

  accept_failed-Keeps :
      (k : ℤ) (s : N.State)
      → eq_ℤ (N.accept k s).0 (negsuc 0) ≡ true
      → Keeps is_open s (N.accept k s).1
  accept_failed-Keeps k s e = elim (table.accept k s) [
    | inl failed ↦ failed.1
    | inr accepted ↦ absurd (ground (arith, accepted.0))
  ]

  accept-Opens :
      (k : ℤ) (s : N.State)
      → eq_ℤ (N.accept k s).0 (negsuc 0) ≡ false
      → Opens is_open s (N.accept k s).0 (N.accept k s).1
  accept-Opens k s e = elim (table.accept k s) [
    | inl failed ↦ absurd (ground (arith, failed.0))
    | inr accepted ↦ accepted.1
  ]

  -- The descriptors of a server that serves a client, or of one that does not.
  abbrev pub WithClient : N.State → Option ℤ → N.State → Type 0
  WithClient s none s' = Keeps is_open s s'
  WithClient s (some client_sock) s' = Opens is_open s client_sock s'

  after_Keeps :
      (s t : N.State) (c : Option ℤ) (u : N.State)
      → Keeps is_open s t
      → WithClient t c u
      → WithClient s c u
  after_Keeps s t none u kept h = λ j. h j ∙ kept j
  after_Keeps s t (some k) u kept (fresh, opened) =
      (sym (kept k) ∙ fresh, λ j. opened j ∙ ap (λ x. if eq_ℤ j k then true else x) (kept j))

  accept_client-WithClient :
      (sock : ℤ) (s : N.State) → Goes (λ c s'. WithClient s c s') (accept_client N sock s)
  unfolding accept_client
  accept_client-WithClient sock s =
      let s1 : N.State = (N.select sock 10 s).1 in
      let s2 : N.State = (N.accept sock s1).1 in
      let selected : Keeps is_open s s1 = table.select sock 10 s in
      elim (Bool-cases (eq_ℤ (N.select sock 10 s).0 (negsuc 0))) [
        | inl failed ↦ rw failed (λ j. table.print select_failed s1 j ∙ selected j)
        | inr ready ↦ rw ready (elim (Bool-cases (eq_ℤ (N.accept sock s1).0 (negsuc 0))) [
          | inl failed ↦ rw failed (
              after_Keeps s s1 none (N.print accept_failed s2) selected
                (λ j. table.print accept_failed s2 j ∙ accept_failed-Keeps sock s1 failed j))
          | inr accepted ↦ rw accepted (
              after_Keeps s s1 (some (N.accept sock s1).0) s2 selected
                (accept-Opens sock s1 accepted))
        ])
      ]

  -- Where `main` returns, at once or after it has served a client, the open descriptors are those
  -- from before.
  abbrev pub Closes : N.State → Started → N.State → Type 0
  Closes s (ended status) s' = Keeps is_open s s'
  Closes s (serving sock client_sock) s' = Keeps is_open s (hang_up N sock client_sock s')

  served-Closes :
      (s : N.State) (sock : ℤ) (t : N.State) (c : Option ℤ) (s' : N.State)
      → Opens is_open s sock t
      → WithClient t c s'
      → Goes (Closes s) (served_or_closed N sock c s')
  unfolding hang_up
  served-Closes s sock t none s' opened h =
      closed-Keeps sock s s' (Opens-Keeps sock s t s' opened h)
  served-Closes s sock t (some k) s' opened h =
      closed-Keeps sock s (N.close k s')
        (Opens-Keeps sock s t (N.close k s') opened (closed-Keeps k t s' h))

  -- Where `main` of irpc_server.c returns, at once, where no client could be accepted, or after
  -- it has served a client, the open descriptors are exactly those from before it started: it has
  -- closed its own socket and its client's and no other; nothing is said of a set-up that exits.
  -- Assumed: `socket` and `accept` fail with -1 or open one descriptor that was not open, `close`
  -- closes the one that it is given, and the other calls and printing open and close none.
  pub main-Closes :
      (tmp port : ℤ) (argv : List String) (s : N.State) → Goes (Closes s) (main N tmp port argv s)
  unfolding main
  main-Closes tmp port [] s = table.print usage_line s
  main-Closes tmp port (arg ∷ argv) s =
      Goes-bind (λ sock t. Opens is_open s sock t) (Closes s)
        (init_connection_or_die N tmp (scanned (N.scan_int arg) port)) _ s (init-Opens tmp _ s)
        λ sock t opened.
          Goes-bind (λ c u. WithClient t c u) (Closes s) (accept_client N sock) _ t
            (accept_client-WithClient sock t)
            λ c u accepted. served-Closes s sock t c u opened accepted
