-- ===== src/Networking/Http/Session/InOrder.antt =====
-- An `HttpSession` (networking/http/http_session.cpp) gives the answers of the server that takes the
-- requests one at a time, in their order.
use the_game.Base.{
  list_tail, map, suc, ℕ, ◌+◌, ◌≡◌, refl, sym, subst, ap, ◌∙◌, List, [], ◌∷◌, ◌++◌, append_assoc,
  append-nil, Option, none, some, length, drop, ◌⊎◌, Result, ok, fault, Fault, ◌>>=◌,
  empty_optional, null_pointer, arith, Afterwards, inl, inr,
}
use the_game.Networking.Boost.{Boost, Endpoint}
use the_game.Networking.Routes.{RouteManager}
use the_game.Networking.Http.Session.{
  HttpSession, Callback, uri_of, on_read_error, on_read, on_write,
}
use the_game.Networking.Http.Session.Flight.{Event, read_failed, read_done, write_done, writes}
use the_game.Networking.Http.Session.Replies.{
  Handles, on_read-Handles, called, call_faults, upgraded, no_callback, no_handler, no_routes,
  bad_uri, bad_uri_first,
}
use the_game.Networking.Http.Session.Order.{
  Answer, reply, hand_over, sent, left_over, handle_all, AreDue, answers, answer_to,
}

-- Answers behind others are answers in one line.
regroup {ℓ} :
    {A : Type ℓ} (m : Result (List A)) (ws xs : List A) (n : ℕ)
    → (m >>= λ rs. ok (drop n ((ws ++ xs) ++ rs)))
      ≡ (m >>= (λ rest. ok (xs ++ rest)) >>= λ rs. ok (drop n (ws ++ rs)))
regroup (ok rs) ws xs n = ap (λ l. ok (drop n l)) (append_assoc ws xs rs)
regroup (fault f) ws xs n = refl

module _ (b : Boost) {H W : Type 0} where
  module _ (local : Endpoint) (routes : Option (RouteManager (Callback b W) H)) where
    module _ (request : b.Request) (s : HttpSession b H W) (home : s.local_endpoint ≡ local)
        (routed : s.route_manager ≡ routes) where
      -- What the session does with a request is what the answer says.
      abbrev Agrees : Result (HttpSession b H W) → Result (Answer b) → Type 0
      Agrees r a =
          ((f : Fault) × (r ≡ fault f) × (a ≡ fault f))
          ⊎ ((t : HttpSession b H W) × (x : Answer b) × (r ≡ ok t)
              × (a ≡ ok x)
              × (t.writing ≡ s.writing ++ sent b x)
              × (t.response ≡ some (left_over b request x))
              × (t.local_endpoint ≡ local)
              × (t.route_manager ≡ routes))

      agrees :
          {r : Result (HttpSession b H W)}
          → Handles b request s r
          → Agrees r (answer_to b local routes request s.app s.response)
      unfolding answer_to uri_of
      agrees (called {r} {w} e p m f c) = inr (
        _,
        reply r,
        refl,
        rw (← home, ← routed) (ground (arith, e, p, m, f, c)),
        refl,
        refl,
        home,
        routed,
      )
      agrees (call_faults {f} e p m g c) =
          inl (f, refl, rw (← home, ← routed) (ground (arith, e, p, m, g, c)))
      agrees (upgraded e p m f) = inr (
        _,
        hand_over,
        refl,
        rw (← home, ← routed) (ground (arith, e, p, m, f)),
        sym (append-nil _),
        refl,
        home,
        routed,
      )
      agrees (no_callback e p m f) = inr (
        _,
        reply _,
        refl,
        rw (← home, ← routed) (ground (arith, e, p, m, f)),
        refl,
        refl,
        home,
        routed,
      )
      agrees (no_handler e p m f) = inr (
        _,
        reply _,
        refl,
        rw (← home, ← routed) (ground (arith, e, p, m, f)),
        refl,
        refl,
        home,
        routed,
      )
      agrees (no_routes e m) =
          inl (null_pointer, refl, rw (← home, ← routed) (ground (arith, e, m)))
      agrees (bad_uri e old) =
          inr (_, reply _, refl, rw (← home) (ground (arith, e, old)), refl, refl, home, routed)
      agrees (bad_uri_first e old) =
          inl (empty_optional, refl, rw (← home) (ground (arith, e, old)))

    -- What a handler that answers nothing leaves alone.
    abbrev IsQuiet : HttpSession b H W → HttpSession b H W → Type 0
    IsQuiet s t =
        (t.writing ≡ s.writing)
        × (t.response ≡ s.response)
        × (t.local_endpoint ≡ s.local_endpoint)
        × (t.route_manager ≡ s.route_manager)

    on_read_error-IsQuiet : (e : b.Error) (s : HttpSession b H W) → IsQuiet s (on_read_error b e s)
    unfolding on_read_error
    on_read_error-IsQuiet e s = ground arith

    on_write-IsQuiet : (ec : Option b.Error) (s : HttpSession b H W) → IsQuiet s (on_write b ec s)
    unfolding on_write
    on_write-IsQuiet (some e) s = ground arith
    on_write-IsQuiet none s = ground arith

    in_order :
        (es : List (Event b × W)) (s : HttpSession b H W) (ws : List b.Response)
        (previous : Option b.Response)
        → s.writing ≡ ws
        → s.response ≡ previous
        → s.local_endpoint ≡ local
        → s.route_manager ≡ routes
        → AreDue b es s
        → (handle_all b es s >>= λ t. ok t.writing) ≡ (
            answers b local routes es previous >>= λ rs.
            ok (drop (writes b (map (λ h. h.0) es)) (ws ++ rs)))
    unfolding handle_all answers
    in_order [] s ws previous busy last home routed due = ap ok (busy ∙ sym (append-nil ws))
    in_order ((read_failed e, w) ∷ es) s ws previous busy last home routed due =
        let s0 = record s { app = w; reading = list_tail s.reading } in
        let (same_writing, same_response, same_home, same_routes) = on_read_error-IsQuiet e s0 in
        in_order es (record (on_read_error b e s0) { launched = [] }) ws previous
          (same_writing ∙ busy) (same_response ∙ last) (same_home ∙ home) (same_routes ∙ routed)
          due.1
    in_order ((write_done ec, w) ∷ es) s [] previous busy last home routed due =
        absurd (omega (arith, ap length busy, due.0))
    in_order ((write_done ec, w) ∷ es) s (r ∷ rest) previous busy last home routed due =
        let s0 = record s { app = w; writing = list_tail s.writing } in
        let (same_writing, same_response, same_home, same_routes) = on_write-IsQuiet ec s0 in
        let one : writes b (map (λ h. h.0) es) + 1 ≡ suc (writes b (map (λ h. h.0) es)) =
          omega arith in
        rw one (
          in_order es (record (on_write b ec s0) { launched = [] }) rest previous
            (same_writing ∙ ap list_tail busy) (same_response ∙ last) (same_home ∙ home)
            (same_routes ∙ routed) due.1)
    in_order ((read_done request, w) ∷ es) s ws previous busy last home routed due =
        let s0 = record s { app = w; reading = list_tail s.reading } in
        let due1 : Afterwards (λ t. AreDue b es (record t { launched = [] }))
            (on_read b request s0) =
          due.1 in
        elim (agrees request s0 home routed (on_read-Handles b request s0)) [
          | inl (f, ran, said) ↦ rw (← last, ran, said) refl
          | inr (t, x, ran, said, behind, left, home', routed') ↦
              rw (← last, ran, said)
                (in_order es (record t { launched = [] }) (ws ++ sent b x)
                    (some (left_over b request x)) (behind ∙ ap (λ l. l ++ sent b x) busy) left
                    home' routed'
                    (subst (Afterwards (λ t. AreDue b es (record t { launched = [] }))) ran due1)
                  ∙ regroup _ ws (sent b x) _)
        ]

  -- Completions are handled by a session one after the other, whatever the application's state is by
  -- then, and a write completes only while one is in flight. The responses in flight at the end are
  -- those in flight at the start, followed by the answers to the requests, less as many at the front as
  -- writes have completed: requests are answered in the order in which they are read, each by one
  -- response or by a websocket session, and with what the routes make of the request, of the
  -- application's state by then and of the response that the answer before has left. The session faults
  -- exactly when these answers do, for the same reason.
  pub handle_all-answers :
      (es : List (Event b × W)) (s : HttpSession b H W)
      → AreDue b es s
      → (handle_all b es s >>= λ t. ok t.writing) ≡ (
          answers b s.local_endpoint s.route_manager es s.response >>= λ rs.
          ok (drop (writes b (map (λ h. h.0) es)) (s.writing ++ rs)))
  handle_all-answers es s due =
      in_order s.local_endpoint s.route_manager es s s.writing s.response refl refl refl refl due
