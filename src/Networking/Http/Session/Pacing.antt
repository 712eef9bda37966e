-- ===== src/Networking/Http/Session/Pacing.antt =====
-- In which order an `HttpSession` (networking/http/http_session.cpp) starts its reads and writes.
use the_game.Base.{
  zero, suc, ℕ, ◌+◌, ◌≡◌, refl, subst, ap, ◌∙◌, ◌⊎◌, List, [], ◌∷◌, ◌++◌, Option, none, some,
  length, length-append, Result, ok, arith, inl, inr, ok_injective,
}
use the_game.Networking.Boost.{Boost, Endpoint}
use the_game.Networking.Routes.{RouteManager}
use the_game.Networking.Http.Session.{
  HttpSession, Callback, Operation, read_begun, write_begun, make_session, run, on_read_error,
  on_write,
}
use the_game.Networking.Http.Session.Replies.{
  Handles, on_read-Handles, called, call_faults, upgraded, no_callback, no_handler, no_routes,
  bad_uri, bad_uri_first,
}
use the_game.Networking.Http.Session.Flight.{
  Event, read_failed, read_done, write_done, writes, Step, failing, reading, writing, Reach, here,
  next,
}

-- A read, and then as many times a write and a read.
abbrev pub rounds : ℕ → List Operation
rounds zero = read_begun ∷ []
rounds (suc n) = (rounds n ++ write_begun ∷ []) ++ read_begun ∷ []

module _ (b : Boost) {H W : Type 0} where
  -- What has been started is a round for every response.
  abbrev pub IsPaced : List (Event b) → HttpSession b H W → Type 0
  IsPaced es t = t.started ≡ rounds (length t.writing + writes b es)

  -- A request leads to a response, or to nothing that is started.
  abbrev Outcome : HttpSession b H W → HttpSession b H W → Type 0
  Outcome s t =
      ((r : b.Response) × (t.writing ≡ s.writing ++ r ∷ [])
        × (t.started ≡ (s.started ++ write_begun ∷ []) ++ read_begun ∷ []))
      ⊎ ((t.writing ≡ s.writing) × (t.started ≡ s.started))

  outcome :
      (request : b.Request) (s t : HttpSession b H W) {r : Result (HttpSession b H W)}
      → Handles b request s r
      → r ≡ ok t
      → Outcome s t
  outcome request s t (called e p m f c) q = rw (← ok_injective q) (inl (_, refl, refl))
  outcome request s t (call_faults e p m f c) q = cc
  outcome request s t (upgraded e p m f) q = rw (← ok_injective q) (inr (refl, refl))
  outcome request s t (no_callback e p m f) q = rw (← ok_injective q) (inl (_, refl, refl))
  outcome request s t (no_handler e p m f) q = rw (← ok_injective q) (inl (_, refl, refl))
  outcome request s t (no_routes e m) q = cc
  outcome request s t (bad_uri e old) q = rw (← ok_injective q) (inl (_, refl, refl))
  outcome request s t (bad_uri_first e none_yet) q = cc

  -- The handlers that start nothing.
  abbrev Waits : HttpSession b H W → HttpSession b H W → Type 0
  Waits s t = (t.started ≡ s.started) × (t.writing ≡ s.writing)

  failed-Waits : (e : b.Error) (s : HttpSession b H W) → Waits s (on_read_error b e s)
  unfolding on_read_error
  failed-Waits e s = ground arith

  written-Waits : (ec : Option b.Error) (s : HttpSession b H W) → Waits s (on_write b ec s)
  unfolding on_write
  written-Waits none s = ground arith
  written-Waits (some e) s = ground arith

  -- What has been started is a round for every response, of as many as there were.
  counted :
      (es : List (Event b)) (t : HttpSession b H W) (n : ℕ)
      → t.started ≡ rounds n
      → n ≡ length t.writing + writes b es
      → IsPaced es t
  counted es t n p e = p ∙ ap rounds e

  Step-IsPaced :
      (es : List (Event b)) {e : Event b} {s t : HttpSession b H W}
      → Step b e s t
      → IsPaced es s
      → IsPaced (e ∷ es) t
  Step-IsPaced es {s} {t} (failing {e} {rest = rest} busy q) paced =
      let (quiet, same) = failed-Waits e (record s { reading = rest }) in
      subst (IsPaced (read_failed e ∷ es)) q (
        counted (read_failed e ∷ es) (on_read_error b e (record s { reading = rest }))
          (length s.writing + writes b es) (quiet ∙ paced) (omega (arith, ap length same)))
  Step-IsPaced es {s} {t} (reading {request} {rest = rest} busy q) paced =
      elim (outcome request (record s { reading = rest }) t (on_read-Handles b request _) q) [
        | inl (r, behind, started) ↦
            counted (read_done request ∷ es) t (suc (length s.writing + writes b es))
              (started ∙ ap (λ ops. (ops ++ write_begun ∷ []) ++ read_begun ∷ []) paced)
              (omega (arith, ap length behind, length-append s.writing (r ∷ [])))
        | inr (same, quiet) ↦
            counted (read_done request ∷ es) t (length s.writing + writes b es) (quiet ∙ paced)
              (omega (arith, ap length same))
      ]
  Step-IsPaced es {s} {t} (writing {ec} {rest = rest} busy q) paced =
      let (quiet, same) = written-Waits ec (record s { writing = rest }) in
      subst (IsPaced (write_done ec ∷ es)) q (
        counted (write_done ec ∷ es) (on_write b ec (record s { writing = rest }))
          (length s.writing + writes b es) (quiet ∙ paced)
          (omega (arith, ap length same, ap length busy)))

  Reach-IsPaced :
      {s : HttpSession b H W} {es : List (Event b)} {t : HttpSession b H W}
      → IsPaced [] s
      → Reach b s es t
      → IsPaced es t
  Reach-IsPaced k here = k
  Reach-IsPaced k (next {es} r st) = Step-IsPaced es st (Reach-IsPaced k r)

  -- A new session that has been started, whatever completes and in whatever order, has started one
  -- read, and then a write and a read, in this order, for every response that has been written or is in
  -- flight, and nothing else.
  pub run-IsPaced :
      (endpoint : Endpoint) (rm : Option (RouteManager (Callback b W) H)) (w : W)
      {es : List (Event b)} {t : HttpSession b H W}
      → Reach b (run b (make_session b endpoint rm w)) es t
      → IsPaced es t
  unfolding run make_session
  run-IsPaced endpoint rm w r = Reach-IsPaced refl r
