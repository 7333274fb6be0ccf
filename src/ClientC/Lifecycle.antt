-- ===== src/ClientC/Lifecycle.antt =====
-- An invariant of client C between its operations: on the sockets that were opened and closed, on the
-- state `connected`, and on what the status callback has been told.
use smart_home_weather_monit.Base.{
  ◌⊎◌, if◌then◌else◌, ℕ, ◌≡◌, refl, arith, false, ap, sym, ◌∙◌, Bool, true, Option, none, some,
  List, [], ◌∷◌, ◌++◌, is_some, append-nil, Option-cases, inl, inr,
}
use smart_home_weather_monit.ClientC.{
  disconnected, connecting, error, closed, thread_created, client_c_start, client_c_stop,
  close_socket, tcp_disconnect, State, Errno, Event, status_called, opened, Client, connected, emit,
  update_state, is_state_connected,
}

-- The sockets that a trace opens and closes, in order.
abbrev pub opened_fds : List Event → List ℕ
opened_fds [] = []
opened_fds (opened fd ∷ es) = fd ∷ opened_fds es
opened_fds (_ ∷ es) = opened_fds es

abbrev pub closed_fds : List Event → List ℕ
closed_fds [] = []
closed_fds (closed fd ∷ es) = fd ∷ closed_fds es
closed_fds (_ ∷ es) = closed_fds es

-- The state that the callback was told last; before that, the one at the start.
abbrev pub told : State → List Event → State
told s [] = s
told s (status_called f s' ∷ es) = told s' es
told s (_ ∷ es) = told s es

abbrev pub in_use : Option ℕ → List ℕ
in_use none = []
in_use (some fd) = fd ∷ []

pub record Inv (c : Client) : Type 0 where
  pub sockets : opened_fds c.trace ≡ closed_fds c.trace ++ in_use c.tcp_socket
  pub online : is_state_connected c.state ≡ true → is_some c.tcp_socket ≡ true
  pub reported : (f : ℕ) → c.config.status_callback ≡ some f → told disconnected c.trace ≡ c.state

opened_fds-append : (xs ys : List Event) → opened_fds (xs ++ ys) ≡ opened_fds xs ++ opened_fds ys
opened_fds-append [] ys = refl
opened_fds-append (opened fd ∷ xs) ys = ap (◌∷◌ fd) (opened_fds-append xs ys)
opened_fds-append (_ ∷ xs) ys = opened_fds-append xs ys

closed_fds-append : (xs ys : List Event) → closed_fds (xs ++ ys) ≡ closed_fds xs ++ closed_fds ys
closed_fds-append [] ys = refl
closed_fds-append (closed fd ∷ xs) ys = ap (◌∷◌ fd) (closed_fds-append xs ys)
closed_fds-append (_ ∷ xs) ys = closed_fds-append xs ys

pub told-append : (s : State) (xs ys : List Event) → told s (xs ++ ys) ≡ told (told s xs) ys
told-append s [] ys = refl
told-append s (status_called f s' ∷ xs) ys = told-append s' xs ys
told-append s (_ ∷ xs) ys = told-append s xs ys

ruleset trace_laws = (opened_fds-append, closed_fds-append, told-append, append-nil)

-- The event is none that the invariant reads.
abbrev pub IsQuiet : Event → Type 0
IsQuiet (status_called f s) = ⊥
IsQuiet (opened fd) = ⊥
IsQuiet (closed fd) = ⊥
IsQuiet _ = Unit

emit_quiet :
    (es : List Event) (e : Event)
    → IsQuiet e
    → (opened_fds (es ++ e ∷ []) ≡ opened_fds es)
      × (closed_fds (es ++ e ∷ []) ≡ closed_fds es)
      × (told disconnected (es ++ e ∷ []) ≡ told disconnected es)
emit_quiet es (status_called f s) q = absurd q
emit_quiet es (opened fd) q = absurd q
emit_quiet es (closed fd) q = absurd q
emit_quiet es _ q = (simp trace_laws, simp trace_laws, simp trace_laws)

pub emit-Inv : {c : Client} (e : Event) → IsQuiet e → Inv c → Inv (emit c e)
emit-Inv {c} e q v =
    let (o, k, t) = emit_quiet c.trace e q in
    record {
      sockets = o ∙ v.sockets ∙ ap (λ xs. xs ++ in_use c.tcp_socket) (sym k);
      online = v.online;
      reported = λ f h. t ∙ v.reported f h;
    }

-- The invariant does not read these globals.
pub errno-Inv : {c : Client} (e : Errno) → Inv c → Inv (record c { errno = e })
errno-Inv e v = record { sockets = v.sockets; online = v.online; reported = v.reported }

pub running-Inv : {c : Client} (b : Bool) → Inv c → Inv (record c { tcp_running = b })
running-Inv b v = record { sockets = v.sockets; online = v.online; reported = v.reported }

pub update_state-Inv :
    (c : Client) (s : State)
    → opened_fds c.trace ≡ closed_fds c.trace ++ in_use c.tcp_socket
    → (is_state_connected s ≡ true → is_some c.tcp_socket ≡ true)
    → Inv (update_state c s)
unfolding update_state
update_state-Inv c s h on = elim (Option-cases c.config.status_callback) [
  | inl e ↦ rw (e, update_state) (record { sockets = h; online = on; reported = λ f g. cc })
  | inr (f, e) ↦
      rw (e, update_state)
        (record { sockets = simp trace_laws h; online = on; reported = λ f' g. simp trace_laws })
]

-- The socket in use is closed.
close_sockets :
    (es : List Event) (fd : ℕ)
    → opened_fds es ≡ closed_fds es ++ fd ∷ []
    → opened_fds (es ++ closed fd ∷ []) ≡ closed_fds (es ++ closed fd ∷ []) ++ []
close_sockets es fd h = simp trace_laws h

pub tcp_disconnect-Inv :
    {c : Client} → Inv c → Inv (tcp_disconnect c) × ((tcp_disconnect c).tcp_socket ≡ none)
unfolding tcp_disconnect update_state
tcp_disconnect-Inv {c} v = elim (Option-cases c.tcp_socket) [
  | inl e ↦ rw (e, tcp_disconnect) (v, e)
  | inr (fd, e) ↦
      rw (e, tcp_disconnect)
        (
          update_state-Inv (record c { tcp_socket = none; trace = c.trace ++ closed fd ∷ [] })
              disconnected (close_sockets c.trace fd (rw e at v.sockets)) (λ g. cc),
          ground arith,
        )
]

close_socket-sockets :
    (c : Client)
    → opened_fds c.trace ≡ closed_fds c.trace ++ in_use c.tcp_socket
    → (opened_fds (close_socket c).trace ≡ closed_fds (close_socket c).trace ++ in_use none)
      × ((close_socket c).tcp_socket ≡ none)
close_socket-sockets c h = elim (Option-cases c.tcp_socket) [
  | inl e ↦ rw (e, close_socket) (rw e at h, e)
  | inr (fd, e) ↦ rw (e, close_socket) (close_sockets c.trace fd (rw e at h), refl)
]

-- What holds on both branches.
pub on_both :
    {A : Type 0} (P : A → Type 0) (b : Bool) (x y : A) → P x → P y → P (if b then x else y)
on_both P true x y p q = p
on_both P false x y p q = q

pub client_c_stop-Inv : {c : Client} → Inv c → Inv (client_c_stop c)
unfolding client_c_stop
client_c_stop-Inv {c} v =
    let d = record c { tcp_running = false } in
    let (h, e) = close_socket-sockets d v.sockets in
    on_both Inv c.tcp_running _ _
      (update_state-Inv (close_socket d) disconnected
        (h ∙ ap (λ x. closed_fds (close_socket d).trace ++ in_use x) (sym e)) (λ g. cc))
      v

-- Only a running client C has its socket closed by a stop; one without a socket keeps none.
pub client_c_stop-socket :
    (c : Client)
    → (c.tcp_running ≡ true) ⊎ (c.tcp_socket ≡ none)
    → (client_c_stop c).tcp_socket ≡ none
unfolding client_c_stop update_state
client_c_stop-socket c h = ground arith

pub client_c_start-Inv : {c : Client} (created : Bool) → Inv c → Inv (client_c_start c created).0
unfolding client_c_start
client_c_start-Inv {c} created v =
    let d = running-Inv true (update_state-Inv c connecting v.sockets (λ g. cc)) in
    on_both {A = Client × Bool} (λ r. Inv r.0) c.tcp_running _ _ v
      (on_both {A = Client × Bool} (λ r. Inv r.0) created _ _ (emit-Inv thread_created tt d)
        (update_state-Inv (record (update_state c connecting) { tcp_running = false }) error
          d.sockets (λ g. cc)))

-- A socket is opened while none is in use.
open_sockets :
    (es : List Event) (fd : ℕ)
    → opened_fds es ≡ closed_fds es ++ []
    → opened_fds (es ++ opened fd ∷ []) ≡ closed_fds (es ++ opened fd ∷ []) ++ fd ∷ []
open_sockets es fd h = simp trace_laws (ap (λ xs. xs ++ fd ∷ []) (simp append-nil at h))

pub connected-Inv :
    {c : Client} (fd : ℕ)
    → Inv c
    → c.tcp_socket ≡ none
    → Inv (update_state (emit (record c { tcp_socket = some fd }) (opened fd)) connected)
connected-Inv {c} fd v e =
    update_state-Inv (emit (record c { tcp_socket = some fd }) (opened fd)) connected
      (open_sockets c.trace fd (rw e at v.sockets)) (λ g. refl)

-- An attempt that fails opens its socket and closes it.
pub failed-Inv :
    {c : Client} (fd : ℕ)
    → Inv c
    → c.tcp_socket ≡ none
    → Inv (emit (emit (record c { tcp_socket = none }) (opened fd)) (closed fd))
failed-Inv {c} fd v e = record {
  sockets =
      close_sockets (c.trace ++ opened fd ∷ []) fd (open_sockets c.trace fd (rw e at v.sockets));
  online = λ g. rw e at (v.online g);
  reported = λ f g. simp trace_laws (v.reported f g);
}

pub no_socket-Inv :
    {c : Client} → Inv c → c.tcp_socket ≡ none → Inv (record c { tcp_socket = none })
no_socket-Inv v e = record {
  sockets = rw e at v.sockets;
  online = λ g. rw e at (v.online g);
  reported = v.reported;
}
