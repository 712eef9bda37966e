-- ===== src/Apps/Program/Safety.antt =====
-- That no handler of a whole server follows a pointer to what is gone, while what completes is
-- regular: a run of the program of Apps/Program never faults.
use the_game.Base.{
  list_tail, ℕ, ◌≤◌, ◌≡◌, refl, sym, subst, ◌∙◌, ◌⊎◌, inl, inr, Option, none, some, nat_eq, length,
  Result, ok, arith, some_injective,
}
use the_game.Networking.Boost.{Boost}
use the_game.Networking.Http.Method.{method_of_verb}
use the_game.Networking.Http.Session.{HttpSession, Callback, uri_of, on_read_error, on_write}
use the_game.Networking.Http.Session.Flight as HttpFlight
use the_game.Networking.Http.Session.Replies.{
  Handles, on_read-Handles, called, call_faults, upgraded, no_callback, no_handler, no_routes,
  bad_uri, bad_uri_first, callback_for,
}
use the_game.Apps.Connections.{Server}
use the_game.Apps.Connections.Continuing.{Continues, same-Continues, Continues-trans}
use the_game.Apps.SimpleGame.Ready.{IsReady}
use the_game.Apps.Listeners.{Routes, Handler}
use the_game.Apps.Program.{Program, settle, http_done, http}
use the_game.Apps.Program.Tame.{IsTame, IsTameCallback}
use the_game.Apps.Program.Fit.{
  IsRegularHttp, IsRegular, IsSafe, IsGood, Succeeds, same_session, settle-IsSafe, settle-Continues,
  error_IsGood, on_write-IsGood, called_state, ok_fault, replied_fit, one_done, few_left,
}

module _ (b : Boost) (rm : Routes b) (tame : IsTame b rm) where
  routed_callback :
      (request : b.Request) (url : b.Url) {rm' : Routes b} {callback : Callback b (Server b)}
      (s : HttpSession b (Handler b) (Server b))
      → s.route_manager ≡ some rm
      → s.route_manager ≡ some rm'
      → callback_for b request url rm' ≡ some callback
      → IsTameCallback b callback
  routed_callback request url {rm'} {callback} s routed m f =
      let same : rm' ≡ rm = some_injective (sym m ∙ routed) in
      tame (method_of_verb b.verbs (b.method request)) (b.path url) callback
        (subst (λ x. callback_for b request url x ≡ some callback) same f)

  on_read-Succeeds :
      (request : b.Request) (s : HttpSession b (Handler b) (Server b))
      {r : Result (HttpSession b (Handler b) (Server b))}
      → Handles b request s r
      → IsGood b rm s
      → length s.reading ≤ 0
      → ((url : b.Url) × (uri_of b request s ≡ some url))
        ⊎ ((r : b.Response) × (s.response ≡ some r))
      → Succeeds b rm s.app r
  on_read-Succeeds request s (called {url} {callback} e p m f c) g few h =
      let (res, st, ran, ready, goes_on) =
        routed_callback request url {callback = callback} s g.fit.0 m f request _ _ s.app g.ready in
      let same = called_state b rm (sym ran ∙ c) in
      (
        _,
        refl,
        record { ready = subst (IsReady b) same ready; fit = replied_fit b rm s _ g.fit.0 few },
        subst (Continues b s.app) same goes_on,
      )
  on_read-Succeeds request s (call_faults {url} {callback} e p m f c) g few h =
      let (res, st, ran, _, _) =
        routed_callback request url {callback = callback} s g.fit.0 m f request _ _ s.app g.ready in
      absurd (ok_fault b rm (sym ran ∙ c))
  on_read-Succeeds request s (upgraded e p m f) g few h =
      (_, refl, record { ready = g.ready; fit = g.fit }, same-Continues b _ _ refl refl refl)
  on_read-Succeeds request s (no_callback e p m f) g few h = (
    _,
    refl,
    record { ready = g.ready; fit = replied_fit b rm s _ g.fit.0 few },
    same-Continues b _ _ refl refl refl,
  )
  on_read-Succeeds request s (no_handler e p m f) g few h = (
    _,
    refl,
    record { ready = g.ready; fit = replied_fit b rm s _ g.fit.0 few },
    same-Continues b _ _ refl refl refl,
  )
  on_read-Succeeds request s (no_routes e m) g few h = absurd (cc (sym m ∙ g.fit.0))
  on_read-Succeeds request s (bad_uri e old) g few h = (
    _,
    refl,
    record { ready = g.ready; fit = replied_fit b rm s _ g.fit.0 few },
    same-Continues b _ _ refl refl refl,
  )
  on_read-Succeeds request s (bad_uri_first e old) g few (inl (url, parsed)) =
      absurd (cc (sym e ∙ parsed))
  on_read-Succeeds request s (bad_uri_first e old) g few (inr (r, some_response)) =
      absurd (cc (sym old ∙ some_response))

  on_read_error-Continues :
      (e : b.Error) (s : HttpSession b (Handler b) (Server b))
      → Continues b s.app (on_read_error b e s).app
  unfolding on_read_error
  on_read_error-Continues e s =
      same-Continues b s.app _ (ground arith) (ground arith) (ground arith)

  on_write-Continues :
      (ec : Option b.Error) (s : HttpSession b (Handler b) (Server b))
      → Continues b s.app (on_write b ec s).app
  unfolding on_write
  on_write-Continues (some e) s = same-Continues b s.app s.app refl refl refl
  on_write-Continues none s = same-Continues b s.app _ (ground arith) (ground arith) (ground arith)

  pub http_handler-Succeeds :
      (e : HttpFlight.Event b) (s : HttpSession b (Handler b) (Server b))
      → IsGood b rm s
      → IsRegularHttp b e s
      → Succeeds b rm s.app (HttpFlight.http_handler b e s)
  unfolding HttpFlight.http_handler uri_of
  http_handler-Succeeds (HttpFlight.Event.read_failed e) s g h = (
    _,
    refl,
    error_IsGood b rm e _
        (record { ready = g.ready; fit = (g.fit.0, few_left b s.reading 1 g.fit.1) }),
    on_read_error-Continues e _,
  )
  http_handler-Succeeds (HttpFlight.Event.read_done request) s g h =
      let s0 = record s { reading = list_tail s.reading } in
      on_read-Succeeds request s0 (on_read-Handles b request s0)
        (record { ready = g.ready; fit = (g.fit.0, few_left b s.reading 1 g.fit.1) })
        (one_done b s.reading g.fit.1) h.1
  http_handler-Succeeds (HttpFlight.Event.write_done ec) s g h = (
    _,
    refl,
    on_write-IsGood b rm ec _ (record { ready = g.ready; fit = g.fit }),
    on_write-Continues ec _,
  )

  pub http_done-IsSafe :
      (k : ℕ) (e : HttpFlight.Event b) (p : Program b)
      → IsSafe b rm p
      → IsRegular b (http k e) p
      → (p' : Program b) × (http_done b k e p ≡ ok p')
        × IsSafe b rm p'
        × Continues b p.server p'.server
  unfolding http_done uri_of
  http_done-IsSafe k e p safe (c, found, h) =
      let (fits, none_left, taken) = safe.fit k c found in
      let s = record c.session { app = p.server } in
      let good : IsGood b rm s = record { ready = safe.ready; fit = fits } in
      let (s', ran, good', goes_on) =
        http_handler-Succeeds e s good (same_session b e c.session p.server h) in
      (
        settle b k c s' p,
        ground (arith, found, ran),
        settle-IsSafe b rm k c s' p taken safe good',
        Continues-trans b goes_on (settle-Continues b rm k c s' p),
      )
