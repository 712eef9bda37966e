-- ===== src/Apps/Program/Happenings/Following.antt =====
-- A handler of the whole server (apps/simple_game/beast.cpp and apps/simple_server) does to the HTTP
-- session of a connection what the session's own completions do.
use the_game.Base.{
  ◌>>=◌, fault, ◌≡◌, refl, sym, subst, ap, ◌∙◌, true, false, List, [], ◌∷◌, ℕ, some, find,
  find-assign, find-erase, nat_eq, nat_beq, nat_beq_iff, eq_refl, Result, ok, arith, Bool-cases,
  inl, inr, some_injective, Afterwards,
}
use the_game.Networking.Boost.{Boost}
use the_game.Networking.Http.Session.{HttpSession}
use the_game.Networking.Http.Session.Flight as HttpFlight
use the_game.Networking.Http.Session.Order.{handle_all, IsDue}
use the_game.Networking.Http.Session.Handled.{Handled, nil-Handled}
use the_game.Apps.Connections.{Server}
use the_game.Apps.Listeners.{Routes, Handler}
use the_game.Apps.Program.{Connection, Program, is_idle, settle, http_done, http}
use the_game.Apps.Program.Tame.{IsTame}
use the_game.Apps.Program.Fit.{IsSafe, IsRegular, IsRegularHttp, IsGood, same_session}
use the_game.Apps.Program.Safety.{http_handler-Succeeds}
use the_game.Apps.Program.Happenings.{Tracks, own, Follows, alive, gone}

module _ (b : Boost) where
  idle-writing : (s : HttpSession b (Handler b) (Server b)) → is_idle b s ≡ true → s.writing ≡ []
  idle-writing s idle = ground (arith, idle)

  -- The end of a handler, for the session that it ran on and for the others.
  settle_self :
      (k : ℕ) (c : Connection b) (s : HttpSession b (Handler b) (Server b)) (p : Program b)
      → Follows b k (record s { launched = [] }) (settle b k c s p)
  unfolding settle
  settle_self k c s p = elim (Bool-cases (is_idle b s)) [
    | inl idle ↦
        gone (rw idle (ground (arith, find-erase k k p.connections, eq_refl k)))
          (idle-writing s idle)
    | inr busy ↦
        alive (record c { session = record s { launched = [] } })
          (rw busy (
            ground (
              arith,
              find-assign k k (record c { session = record s { launched = [] } }) p.connections,
              eq_refl k,
            )))
          refl
  ]

  settle_other :
      (j k : ℕ) (c : Connection b) (s : HttpSession b (Handler b) (Server b)) (p : Program b)
      → nat_beq j k ≡ false
      → find k (settle b j c s p).connections ≡ find k p.connections
  unfolding settle
  settle_other j k c s p other = elim (Bool-cases (is_idle b s)) [
    | inl idle ↦ rw idle (ground (arith, find-erase j k p.connections, other))
    | inr busy ↦ rw busy (
        ground (
          arith,
          find-assign j k (record c { session = record s { launched = [] } }) p.connections,
          other,
        ))
  ]

  settle-next :
      (k : ℕ) (c : Connection b) (s : HttpSession b (Handler b) (Server b)) (p : Program b)
      → (settle b k c s p).next ≡ p.next
  unfolding settle
  settle-next k c s p = refl

  pub same-Follows :
      {k : ℕ} {s : HttpSession b (Handler b) (Server b)} {p q : Program b}
      → find k q.connections ≡ find k p.connections
      → Follows b k s p
      → Follows b k s q
  same-Follows e (alive c found same) = alive c (e ∙ found) same
  same-Follows e (gone missing over) = gone (e ∙ missing) over

  -- What the completion asks of the HTTP session in the list of its own happenings.
  IsRegularHttp-IsDue :
      (e : HttpFlight.Event b) (s : HttpSession b (Handler b) (Server b)) (st : Server b)
      → IsRegularHttp b e s
      → IsDue b e s
  IsRegularHttp-IsDue (HttpFlight.Event.read_failed e) s st h = tt
  IsRegularHttp-IsDue (HttpFlight.Event.read_done request) s st h = tt
  IsRegularHttp-IsDue (HttpFlight.Event.write_done ec) s st h = h

  module _ (rm : Routes b) (tame : IsTame b rm) where
    -- The session goes on to `s1` by its own happenings, and the program has it so afterwards.
    abbrev pub GoesOn :
        ℕ
        → List (HttpFlight.Event b × Server b)
        → HttpSession b (Handler b) (Server b)
        → Result (Program b)
        → Type 0
    GoesOn k es s r =
        (s1 : HttpSession b (Handler b) (Server b)) × Handled b es s s1
        × Afterwards (Tracks b k s1) r

    http-run :
        (k : ℕ) (e : HttpFlight.Event b) (p : Program b) (c : Connection b)
        → IsSafe b rm p
        → find k p.connections ≡ some c
        → IsRegularHttp b e c.session
        → (t : HttpSession b (Handler b) (Server b)) × (HttpFlight.http_handler b e
              (record c.session { app = p.server })
            ≡ ok t)
          × (http_done b k e p ≡ ok (settle b k c t p))
    unfolding http_done
    http-run k e p c safe found h =
        let (fits, none_left, taken) = safe.fit k c found in
        let s = record c.session { app = p.server } in
        let good : IsGood b rm s = record { ready = safe.ready; fit = fits } in
        let (t, ran, _, _) =
          http_handler-Succeeds b rm tame e s good (same_session b e c.session p.server h) in
        (t, ran, ground (arith, found, ran))

    own-GoesOn :
        (k : ℕ) (e : HttpFlight.Event b) (p : Program b)
        → IsSafe b rm p
        → IsRegular b (http k e) p
        → (s : HttpSession b (Handler b) (Server b)) → Tracks b k s p
        → GoesOn k ((e, p.server) ∷ []) s (http_done b k e p)
    unfolding handle_all
    own-GoesOn k e p safe (c, found, h) s (gone missing over, numbered) =
        absurd (cc (sym missing ∙ found))
    own-GoesOn k e p safe (c, found, h) s (alive d there same, numbered) =
        let (t, ran, done) = http-run k e p c safe found h in
        let same_one : c.session ≡ s =
          ap (λ (x : Connection b). x.session) (some_injective (sym found ∙ there)) ∙ same in
        let handled : Handled b ((e, p.server) ∷ []) c.session (record t { launched = [] }) =
          record {
            ran = ground (arith, ran);
            due = (IsRegularHttp-IsDue e c.session p.server h, rw ran tt);
          } in
        (
          record t { launched = [] },
          subst
              (λ (x : HttpSession b (Handler b) (Server b)).
                Handled b ((e, p.server) ∷ []) x (record t { launched = [] }))
              same_one handled,
          subst (Afterwards (Tracks b k (record t { launched = [] }))) (sym done)
              (settle_self k c t p, omega (arith, settle-next k c t p, numbered)),
        )

    pub http-GoesOn :
        (j k : ℕ) (e : HttpFlight.Event b) (p : Program b)
        → IsSafe b rm p
        → IsRegular b (http j e) p
        → (s : HttpSession b (Handler b) (Server b)) → Tracks b k s p
        → GoesOn k (own b k (http j e) p.server) s (http_done b j e p)
    http-GoesOn j k e p safe (c, found, h) s follows = elim (Bool-cases (nat_beq j k)) [
      | inl here ↦
          let is_j : j ≡ k = (nat_beq_iff j k).0 here in
          rw here (
            subst (λ (i : ℕ). GoesOn k ((e, p.server) ∷ []) s (http_done b i e p)) (sym is_j)
              (own-GoesOn k e p safe
                (subst (λ (i : ℕ). IsRegular b (http i e) p) is_j (c, found, h)) s follows))
      | inr other ↦
          let (t, ran, done) = http-run j e p c safe found h in
          rw other (
            s,
            nil-Handled b s,
            subst (Afterwards (Tracks b k s)) (sym done) (
              same-Follows (settle_other j k c t p other) follows.0,
              omega (arith, settle-next j c t p, follows.1),
            ),
          )
    ]

    -- Nothing completes for the connection's own session.
    pub others-GoesOn :
        (k : ℕ) (s : HttpSession b (Handler b) (Server b)) (p : Program b) (r : Result (Server b))
        → Tracks b k s p
        → GoesOn k [] s (r >>= λ st. ok (record p { server = st }))
    others-GoesOn k s p (ok st) follows =
        (s, nil-Handled b s, (same-Follows refl follows.0, follows.1))
    others-GoesOn k s p (fault f) follows = (s, nil-Handled b s, tt)
