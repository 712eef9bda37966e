-- ===== src/Apps/Program/ServerMain.antt =====
-- The server of apps/simple_server/main.cpp, whose `route_manager_` nothing sets, from `main` on.
use the_game.Base.{
  ℕ, ◌≡◌, ◌⊎◌, refl, sym, subst, ap, ◌∙◌, inl, inr, Bool, true, false, List, [], ◌∷◌, Option, none,
  some, find, nat_eq, length, list_tail, Result, ok, fault, Fault, arith, Option-cases, Afterwards,
  Text,
}
use the_game.Networking.Boost.{Boost, Endpoint}
use the_game.Networking.NetUtils.{Acceptors}
use the_game.Networking.Listener.{Listener, complete}
use the_game.Networking.Http.Session.{on_read_error}
use the_game.Networking.Http.Session.Flight as HttpFlight
use the_game.Apps.Connections.{Server}
use the_game.Apps.Connections.Events as Sockets
use the_game.Apps.Listeners.{Routes, serve}
use the_game.Apps.SimpleGame.{timer_at}
use the_game.Apps.Program.{
  Program, on_accept, settle, http_done, Completion, accept_done, http, socket, timer, step,
  run_all,
}
use the_game.Apps.Program.Started.{new_server}
use the_game.Apps.Program.Main.{
  server_main, serves, MainOutcome, Starts, invalid_port, not_listening, listening, programs-Start,
}
use the_game.Apps.Program.Happenings.{in_flight}
use the_game.Apps.Ports.{ℤ}
use the_game.Apps.Program.Unserved.{
  IsPending, IsAlive, is_request, has_request, IsNullAccess, AreBlank, blank_faults,
  assign-AreBlank, settle-AreBlank, failed_IsBlank,
}

module _ (b : Boost) (ac : Acceptors b Endpoint) where
  -- Each completion of the list is of an operation in flight when its turn comes.
  abbrev pub ArePending : List (Completion b) → Listener b ac (Program b) → Type 0
  ArePending [] l = Unit {0}
  ArePending (c ∷ cs) l = IsPending b c l.app × Afterwards (ArePending cs) (step b ac none c l)

  -- The listener runs, and no connection has been answered.
  record IsUnserving (l : Listener b ac (Program b)) : Type 0 where
    running : l.stopped ≡ false
    empty : l.app.server ≡ new_server b
    blank : AreBlank b l.app.connections

  -- A request faults, and all else returns.
  abbrev Does : Bool → Result (Listener b ac (Program b)) → Type 0
  Does asked r =
      ((asked ≡ true) × (f : Fault) × (r ≡ fault f) × IsNullAccess b f)
      ⊎ ((asked ≡ false) × (l : Listener b ac (Program b)) × (r ≡ ok l) × IsUnserving l)

  no_session : (id : ℕ) (l : Listener b ac (Program b)) → IsUnserving l → ¬ IsAlive b id l.app
  unfolding find
  no_session id l u (s, alive) =
      let gone : find id (new_server b).sessions ≡ some s =
        ap (λ (st : Server b). find id st.sessions) (sym u.empty) ∙ alive in
      cc gone

  accepted_lem :
      (ec : Option b.Error) (ends : Endpoint × Endpoint) (l : Listener b ac (Program b))
      → IsUnserving l
      → IsUnserving (complete b ac (on_accept b none) l (ec, ends))
  unfolding complete on_accept serve
  accepted_lem none (remote, local) l u = rw u.running (record {
    running = refl;
    empty = u.empty;
    blank = assign-AreBlank b l.app.next _ l.app.connections (refl, refl, refl, refl) u.blank;
  })
  accepted_lem (some e) ends l u =
      rw u.running (record { running = refl; empty = u.empty; blank = u.blank })

  step-Does :
      (c : Completion b) (l : Listener b ac (Program b))
      → IsUnserving l
      → IsPending b c l.app
      → Does (is_request b c) (step b ac none c l)
  unfolding step http_done HttpFlight.http_handler timer_at
  step-Does (accept_done ec ends) l u pending = inr (refl, _, refl, accepted_lem ec ends l u)
  step-Does (http k (HttpFlight.Event.read_failed e)) l u (c, found, h) =
      let s = record c.session { app = l.app.server; reading = list_tail c.session.reading } in
      let (blank, same) = failed_IsBlank b e s (u.blank k c found) in
      let (blanks, server) = settle-AreBlank b k c (on_read_error b e s) l.app blank u.blank in
      inr (
        refl,
        record l { app = settle b k c (on_read_error b e s) l.app },
        ground (arith, u.running, found),
        record { running = u.running; empty = server ∙ same ∙ u.empty; blank = blanks },
      )
  step-Does (http k (HttpFlight.Event.read_done request)) l u (c, found, h) =
      let s = record c.session { app = l.app.server; reading = list_tail c.session.reading } in
      let (null, none_yet, _, _) = u.blank k c found in
      let (f, faults, why) = blank_faults b request s null none_yet in
      inl (refl, f, ground (arith, u.running, found, faults), why)
  step-Does (http k (HttpFlight.Event.write_done ec)) l u (c, found, h) =
      absurd (omega (arith, h, ap length (u.blank k c found).2))
  step-Does (socket (Sockets.Event.upgraded request remote local)) l u pending = absurd pending
  step-Does (socket (Sockets.Event.accepted id ec)) l u pending = absurd (no_session id l u pending)
  step-Does (socket (Sockets.Event.received id got_text message)) l u pending =
      absurd (no_session id l u pending)
  step-Does (socket (Sockets.Event.read_failed id e)) l u pending =
      absurd (no_session id l u pending)
  step-Does (socket (Sockets.Event.sent id ec bytes)) l u pending =
      absurd (no_session id l u pending)
  step-Does (timer k) l u (t, set) =
      absurd (cc (ap (λ (st : Server b). timer_at k st.app.timers) (sym u.empty) ∙ set))

  run_all-Does :
      (cs : List (Completion b)) (l : Listener b ac (Program b))
      → IsUnserving l
      → ArePending cs l
      → Does (has_request b cs) (run_all b ac none cs l)
  unfolding run_all
  run_all-Does [] l u pending = inr (refl, l, refl, u)
  run_all-Does (c ∷ cs) l u pending = elim (step-Does c l u pending.0) [
    | inl (asked, f, faults, why) ↦ inl (rw asked refl, f, rw faults refl, why)
    | inr (quiet, l1, one, u1) ↦
        let rest = run_all-Does cs l1 u1 (subst (Afterwards (ArePending cs)) one pending.1) in
        rw (quiet, one) rest
  ]

  Starts-IsUnserving :
      {default : ℤ} {rm : Option (Routes b)} {v4 : ℕ → Endpoint} {a : ac.Acceptor}
      {args : List Text} {o : MainOutcome b ac} (l : Listener b ac (Program b))
      → Starts b ac default rm v4 a args o
      → o ≡ serves rm l
      → IsUnserving l
  unfolding find
  Starts-IsUnserving l (invalid_port read) ran = cc
  Starts-IsUnserving l (not_listening read runs) ran = cc
  Starts-IsUnserving l (listening read runs) ran =
      subst IsUnserving (same_listener ran)
        (record { running = refl; empty = refl; blank = λ k c h. absurd (cc h) })
    where
      same_listener :
          {r s : Option (Routes b)} {l1 l2 : Listener b ac (Program b)}
          → ◌≡◌ {A = MainOutcome b ac} (serves r l1) (serves s l2)
          → l1 ≡ l2
      same_listener e = cc

  -- The server of apps/simple_server/main.cpp gets as far as `io_context::run`, and any completions are
  -- handled there, each of an operation in flight. If none of them is a request that has been read, the
  -- run returns, with the listener's members as at the start and no response being written to any
  -- client; if one is, the run faults, by the null route manager or by the response that is not there.
  pub server_run_lem :
      (v4 : ℕ → Endpoint) (a : ac.Acceptor) (args : List Text) (l : Listener b ac (Program b))
      → server_main b ac v4 a args ≡ serves none l
      → (cs : List (Completion b)) → ArePending cs l
      → ((has_request b cs ≡ false)
          × (l' : Listener b ac (Program b)) × (run_all b ac none cs l ≡ ok l')
          × (l'.app.server ≡ new_server b)
          × ((k : ℕ) → in_flight b k l'.app ≡ []))
        ⊎ ((has_request b cs ≡ true)
            × (f : Fault) × (run_all b ac none cs l ≡ fault f)
            × IsNullAccess b f)
  server_run_lem v4 a args l ran cs pending =
      let (_, starts) = programs-Start b ac v4 a args in
      elim (run_all-Does cs l (Starts-IsUnserving l starts ran) pending) [
        | inl faulty ↦ inr faulty
        | inr (quiet, l', done, u) ↦ inl (
          quiet,
          l',
          done,
          u.empty,
          λ k. elim (Option-cases (find k l'.app.connections)) [
            | inl missing ↦ rw (in_flight, missing) refl
            | inr (c, found) ↦ rw (in_flight, found) (u.blank k c found).2
          ],
        )
      ]
