-- ===== src/Networking/Http/Session/Flight.antt =====
-- Whole runs of an `HttpSession` (networking/http/http_session.cpp): which operations are in flight
-- while completions arrive in any order that the operations allow.
use the_game.Base.{
  list_tail, ℕ, ◌+◌, ◌≤◌, ◌≡◌, refl, subst, ◌⊎◌, List, [], ◌∷◌, Option, none, some, length,
  length-append, Result, ok, arith, inl, ok_injective,
}
use the_game.Networking.Boost.{Boost, Endpoint}
use the_game.Networking.Http.Query.{parse_query}
use the_game.Networking.Routes.{RouteManager}
use the_game.Networking.Http.Session.{
  HttpSession, Callback, ReadOp, released, make_session, run, on_read, on_read_error, on_write,
}
use the_game.Networking.Http.Session.Replies.{
  Handles, on_read-Handles, replied, handed_over, called, call_faults, upgraded, no_callback,
  no_handler, no_routes, bad_uri, bad_uri_first,
}

module _ (b : Boost) where
  -- The completion of a read, with an error or a request, or of a write.
  pub data Event : Type 0 where
    read_failed : b.Error → Event
    read_done : b.Request → Event
    write_done : Option b.Error → Event

  abbrev pub requests : List Event → ℕ
  requests [] = 0
  requests (read_failed e ∷ es) = requests es
  requests (read_done r ∷ es) = requests es + 1
  requests (write_done ec ∷ es) = requests es

  abbrev pub writes : List Event → ℕ
  writes [] = 0
  writes (read_failed e ∷ es) = writes es
  writes (read_done r ∷ es) = writes es
  writes (write_done ec ∷ es) = writes es + 1

module _ (b : Boost) {H W : Type 0} where
  -- The handler of a completion; the operation is no longer in flight. Where several writes are, the
  -- oldest completes: an assumption, since Boost does not say in which order overlapping writes do.
  unfoldable pub http_handler : Event b → HttpSession b H W → Result (HttpSession b H W)
  unfolding on_read on_read_error on_write
  http_handler (read_failed e) s =
      ok (on_read_error b e (record s { reading = list_tail s.reading }))
  http_handler (read_done request) s =
      on_read b request (record s { reading = list_tail s.reading })
  http_handler (write_done ec) s = ok (on_write b ec (record s { writing = list_tail s.writing }))

  -- A completion takes an operation that is in flight, the oldest, and runs its handler.
  pub data Step : Event b → HttpSession b H W → HttpSession b H W → Type 0 where
    failing :
        {e : b.Error} {op : ReadOp} {rest : List ReadOp} {s t : HttpSession b H W}
        → s.reading ≡ op ∷ rest
        → on_read_error b e (record s { reading = rest }) ≡ t
        → Step (read_failed e) s t
    reading :
        {request : b.Request} {op : ReadOp} {rest : List ReadOp} {s t : HttpSession b H W}
        → s.reading ≡ op ∷ rest
        → on_read b request (record s { reading = rest }) ≡ ok t
        → Step (read_done request) s t
    writing :
        {ec : Option b.Error} {r : b.Response} {rest : List b.Response} {s t : HttpSession b H W}
        → s.writing ≡ r ∷ rest
        → on_write b ec (record s { writing = rest }) ≡ t
        → Step (write_done ec) s t

  -- The completions so far, latest first.
  pub data Reach (s : HttpSession b H W) : List (Event b) → HttpSession b H W → Type 0 where
    here : Reach s [] s
    next :
        {es : List (Event b)} {e : Event b} {t u : HttpSession b H W}
        → Reach s es t
        → Step e t u
        → Reach s (e ∷ es) u

  -- The session reads one request at a time, until it has launched a websocket session, which is the
  -- last thing that it does with its socket.
  pub record IsOrderly (s : HttpSession b H W) : Type 0 where
    pub one_read : length s.reading + length s.launched ≤ 1
    pub gave_up : s.launched ≡ [] ⊎ (s.socket ≡ released)

  -- Every request has led to one response, written or in flight, or to one websocket session.
  abbrev pub IsAnswered : List (Event b) → HttpSession b H W → Type 0
  IsAnswered es s = requests b es ≡ length s.writing + writes b es + length s.launched

  -- What a step keeps, at the session that it leads to.
  abbrev Keeps : List (Event b) → HttpSession b H W → Type 0
  Keeps es t = IsOrderly t × IsAnswered es t

  module _ (es : List (Event b)) (request : b.Request) {op : ReadOp} {rest : List ReadOp}
      (s : HttpSession b H W) (busy : s.reading ≡ op ∷ rest) (kept : Keeps es s) where
    replied_lem :
        (r : b.Response) (w : W)
        → Keeps (read_done request ∷ es) (replied b (record s { reading = rest }) r w)
    replied_lem r w = ground (
      arith,
      kept.0.one_read,
      kept.0.gave_up,
      length-append s.writing (b.prepare_payload r ∷ []),
      length-append rest (record { body_limit = 10000; expires_after = 30 } ∷ []),
    )

    handed_over_lem :
        (url : b.Url) (h : H)
        → Keeps (read_done request ∷ es) (handed_over b request url h (record s { reading = rest }))
    handed_over_lem url h = ground (
      arith,
      kept.0.one_read,
      length-append s.launched
          (record { request = request; params = parse_query b url; handler = h } ∷ []),
    )

    handled :
        {r : Result (HttpSession b H W)}
        → Handles b request (record s { reading = rest }) r
        → {t : HttpSession b H W} → r ≡ ok t
        → Keeps (read_done request ∷ es) t
    handled (called {r} {w} e p m f c) q =
        subst (Keeps (read_done request ∷ es)) (ok_injective q) (replied_lem r w)
    handled (call_faults e p m f c) q = cc
    handled (upgraded {url} {h} e p m f) q =
        subst (Keeps (read_done request ∷ es)) (ok_injective q) (handed_over_lem url h)
    handled (no_callback e p m f) q =
        subst (Keeps (read_done request ∷ es)) (ok_injective q) (replied_lem _ _)
    handled (no_handler e p m f) q =
        subst (Keeps (read_done request ∷ es)) (ok_injective q) (replied_lem _ _)
    handled (no_routes e m) q = cc
    handled (bad_uri e old) q =
        subst (Keeps (read_done request ∷ es)) (ok_injective q) (replied_lem _ _)
    handled (bad_uri_first e none_yet) q = cc

  failed_lem :
      (es : List (Event b)) (e : b.Error) {op : ReadOp} {rest : List ReadOp} (s : HttpSession b H W)
      → s.reading ≡ op ∷ rest
      → Keeps es s
      → Keeps (read_failed e ∷ es) (on_read_error b e (record s { reading = rest }))
  unfolding on_read_error
  failed_lem es e s busy kept = ground (arith, kept.0.one_read, kept.0.gave_up)

  written_lem :
      (es : List (Event b)) (ec : Option b.Error) {r : b.Response} {rest : List b.Response}
      (s : HttpSession b H W)
      → s.writing ≡ r ∷ rest
      → Keeps es s
      → Keeps (write_done ec ∷ es) (on_write b ec (record s { writing = rest }))
  unfolding on_write
  written_lem es none s busy kept = ground (arith, kept.0.one_read, kept.0.gave_up)
  written_lem es (some e) s busy kept = ground (arith, kept.0.one_read, kept.0.gave_up)

  Step-Keeps :
      (es : List (Event b)) {e : Event b} {s t : HttpSession b H W}
      → Step e s t
      → Keeps es s
      → Keeps (e ∷ es) t
  Step-Keeps es {s} (failing {e} busy q) kept = rw (← q) (failed_lem es e s busy kept)
  Step-Keeps es {s} (reading {request} busy q) kept =
      handled es request s busy kept (on_read-Handles b request _) q
  Step-Keeps es {s} (writing {ec} busy q) kept = rw (← q) (written_lem es ec s busy kept)

  Reach-Keeps :
      {s : HttpSession b H W} {es : List (Event b)} {t : HttpSession b H W}
      → Keeps [] s
      → Reach s es t
      → Keeps es t
  Reach-Keeps k here = k
  Reach-Keeps k (next {es} r st) = Step-Keeps es st (Reach-Keeps k r)

  -- A new session that has been started, whatever completes and in whatever order: at most one read
  -- is in flight; at most one websocket session has been launched, and then none is, and the socket
  -- has been given up; and the requests read so far are as many as the responses written or in
  -- flight and the websocket sessions launched.
  pub run-IsOrderly :
      (endpoint : Endpoint) (rm : Option (RouteManager (Callback b W) H)) (w : W)
      {es : List (Event b)} {t : HttpSession b H W}
      → Reach (run b (make_session b endpoint rm w)) es t
      → IsOrderly t × IsAnswered es t
  unfolding run make_session
  run-IsOrderly endpoint rm w r =
      Reach-Keeps (record { one_read = omega arith; gave_up = inl refl }, omega arith) r
