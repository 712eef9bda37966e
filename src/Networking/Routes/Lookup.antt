-- ===== src/Networking/Routes/Lookup.antt =====
-- What a route manager that was put together by the builder of
-- networking/route_manager_base.hpp answers.
use the_game.Base.{
  ◌≡◌, refl, sym, ◌∙◌, List, [], ◌∷◌, Option, none, some, Text, emplace, Dict, or_else,
  or_else_assoc, or_else-none, or_else_if, list_beq_iff, find, find-emplace, find-assign, Result,
  ok, fault, null_pointer, ◌==◌, nat_eq, list_eq, if◌then◌else◌, ◌>>=◌, arith, Bool-cases, inl, inr,
  ◌&&◌, Option-cases,
}
use the_game.Networking.Http.Method.{HttpMethod, get, method_eq, method_beq_iff}
use the_game.Networking.Routes.{
  RouteManager, Builder, no_routes, get_ws_handler, get_callback, entry, add_callback,
  add_callback_internal, add_ws_callback_internal, new_builder, add, add_websocket, build,
}

-- A call of the builder: `Add` or `AddWebsocket`.
pub data Registration {ℓ κ} (C : Type ℓ) (H : Type κ) : Type (ℓ ⊔ κ) where
  route : HttpMethod → Text → C → Registration C H
  websocket : Text → H → Registration C H

module _ {ℓ} {C : Type ℓ} where
  entry-add :
      (cs : Dict HttpMethod (Dict Text C)) (n m : HttpMethod) (q : Text) (c : C)
      → entry m (add_callback cs n q c) ≡ (if n == m then emplace q c (entry n cs) else entry m cs)
  unfolding entry add_callback
  entry-add cs n m q c = ground (arith, find-assign n m (emplace q c (entry n cs)) cs)

module _ {ℓ κ} {C : Type ℓ} {H : Type κ} where
  abbrev pub register : Registration C H → Builder C H → Result (Builder C H)
  register (route method path callback) b = add method path callback b
  register (websocket path handler) b = add_websocket path handler b

  abbrev pub register_all : List (Registration C H) → Builder C H → Result (Builder C H)
  register_all [] b = ok b
  register_all (r ∷ rs) b = register r b >>= register_all rs

  -- The first registration of the method and path.
  abbrev pub first_callback : HttpMethod → Text → List (Registration C H) → Option C
  first_callback m p [] = none
  first_callback m p (route n q c ∷ rs) =
      if (n == m) && (q == p) then some c else first_callback m p rs
  first_callback m p (websocket q h ∷ rs) = first_callback m p rs

  abbrev pub first_handler : Text → List (Registration C H) → Option H
  first_handler p [] = none
  first_handler p (route n q c ∷ rs) = first_handler p rs
  first_handler p (websocket q h ∷ rs) = if q == p then some h else first_handler p rs

  get_callback-entry :
      (rm : RouteManager C H) (m : HttpMethod) (p : Text)
      → get_callback rm m p ≡ find p (entry m rm.callbacks)
  unfolding get_callback entry find
  get_callback-entry rm m p = elim (Option-cases (find m rm.callbacks)) [
    | inl e ↦ rw (e, get_callback, entry)
    | inr (paths, e) ↦ rw (e, get_callback, entry)
  ]

  get_callback-add :
      (rm : RouteManager C H) (n m : HttpMethod) (q p : Text) (c : C)
      → get_callback (add_callback_internal rm n q c) m p
        ≡ or_else (get_callback rm m p) (if (n == m) && (q == p) then some c else none)
  unfolding add_callback_internal
  get_callback-add rm n m q p c =
      rw (get_callback-entry (add_callback_internal rm n q c) m p, get_callback-entry rm m p)
        (rw (entry-add rm.callbacks n m q c) (elim (Bool-cases (n == m)) [
          | inl same ↦ rw (same, find-emplace, (method_beq_iff n m).0 same)
          | inr other ↦ rw other (ground arith)
        ]))

  get_ws_handler-add :
      (rm : RouteManager C H) (m : HttpMethod) (q p : Text) (h : H)
      → get_ws_handler (add_ws_callback_internal rm q h) m p ≡ (
          if m == get
          then or_else (find p rm.ws_handlers) (if q == p then some h else none)
          else none)
  unfolding get_ws_handler add_ws_callback_internal
  get_ws_handler-add rm m q p h =
      ground (arith, list_beq_iff q p, find-emplace q p h rm.ws_handlers)

  -- What an existing manager answers after more registrations: what it answered before, or else the
  -- first registration that fits.
  record Extends (rm : RouteManager C H) (rs : List (Registration C H)) (out : RouteManager C H)
      : Type (ℓ ⊔ κ) where
    callback :
        (m : HttpMethod) (p : Text)
        → get_callback out m p ≡ or_else (get_callback rm m p) (first_callback m p rs)
    handler :
        (m : HttpMethod) (p : Text)
        → get_ws_handler out m p
          ≡ or_else (get_ws_handler rm m p) (if m == get then first_handler p rs else none)

  handler-add_callback :
      (rm : RouteManager C H) (n m : HttpMethod) (q p : Text) (c : C)
      → get_ws_handler (add_callback_internal rm n q c) m p ≡ get_ws_handler rm m p
  unfolding get_ws_handler add_callback_internal
  handler-add_callback rm n m q p c = refl

  callback-add_ws :
      (rm : RouteManager C H) (m : HttpMethod) (q p : Text) (h : H)
      → get_callback (add_ws_callback_internal rm q h) m p ≡ get_callback rm m p
  unfolding get_callback add_ws_callback_internal
  callback-add_ws rm m q p h = refl

  handler-add_ws :
      (rm : RouteManager C H) (m : HttpMethod) (q p : Text) (h : H) (o : Option H)
      → or_else
          (get_ws_handler (add_ws_callback_internal rm q h) m p)
          (if m == get then o else none)
        ≡ or_else
            (get_ws_handler rm m p)
            (if m == get then (if q == p then some h else o) else none)
  unfolding get_ws_handler add_ws_callback_internal
  handler-add_ws rm m q p h o = elim (Bool-cases (m == get)) [
    | inl is_get ↦ rw (is_get, find-emplace, or_else_assoc, or_else_if)
    | inr other ↦ rw other
  ]

  no_handler :
      (rm : RouteManager C H) (m : HttpMethod) (p : Text) (o : Option H)
      → rm.ws_handlers ≡ []
      → or_else (get_ws_handler rm m p) o ≡ o
  unfolding get_ws_handler find
  no_handler rm m p o e = ground arith

  no_callback :
      (rm : RouteManager C H) (m : HttpMethod) (p : Text) (o : Option C)
      → rm.callbacks ≡ []
      → or_else (get_callback rm m p) o ≡ o
  unfolding get_callback find
  no_callback rm m p o e = ground arith

  moved : (r : Registration C H) → register r (record { rm_ptr = none }) ≡ fault null_pointer
  unfolding add add_websocket
  moved (route n q c) = refl
  moved (websocket q h) = refl

  register_all-Extends :
      (rs : List (Registration C H)) (rm : RouteManager C H)
      → (out : RouteManager C H) × (register_all rs (record { rm_ptr = some rm })
          ≡ ok (record { rm_ptr = some out }))
        × Extends rm rs out
  unfolding add add_websocket
  register_all-Extends [] rm = (
    rm,
    refl,
    record {
      callback = λ m p. sym (or_else-none (get_callback rm m p));
      handler = λ m p. ground (arith, or_else-none (get_ws_handler rm m p));
    },
  )
  register_all-Extends (route n q c ∷ rs) rm =
      let (out, made, ext) = register_all-Extends rs (add_callback_internal rm n q c) in
      (
        out,
        made,
        record {
          callback = λ m p.
              rw (ext.callback m p, get_callback-add rm n m q p c, or_else_assoc, or_else_if);
          handler = λ m p. rw (ext.handler m p, handler-add_callback rm n m q p c);
        },
      )
  register_all-Extends (websocket q h ∷ rs) rm =
      let (out, made, ext) = register_all-Extends rs (add_ws_callback_internal rm q h) in
      (
        out,
        made,
        record {
          callback = λ m p. rw (ext.callback m p, callback-add_ws rm m q p h);
          handler = λ m p. ext.handler m p ∙ handler-add_ws rm m q p h (first_handler p rs);
        },
      )

  -- What a manager made from these registrations answers.
  pub record Answers (rs : List (Registration C H)) (rm : RouteManager C H) : Type (ℓ ⊔ κ) where
    pub callback : (m : HttpMethod) (p : Text) → get_callback rm m p ≡ first_callback m p rs
    pub handler :
        (m : HttpMethod) (p : Text)
        → get_ws_handler rm m p ≡ (if m == get then first_handler p rs else none)

  -- For any chain of `Add` and `AddWebsocket` calls on a new builder, `Build` yields a manager; it
  -- answers a method and path by the callback that was added first for them and by none if there is
  -- no such call; it answers GET on a path by the websocket handler that was added first for that
  -- path, and any other method by no handler. The builder is left with a null pointer, so that any
  -- later call on it faults.
  pub build-Answers :
      (rs : List (Registration C H))
      → (b : Builder C H) × (rm : RouteManager C H) × (register_all rs new_builder ≡ ok b)
        × ((build b).0 ≡ some rm)
        × Answers rs rm
        × ((r : Registration C H) → register r (build b).1 ≡ fault null_pointer)
  unfolding build
  build-Answers rs =
      let (out, made, ext) = register_all-Extends rs no_routes in
      (
        record { rm_ptr = some out },
        out,
        made,
        refl,
        record {
          callback = λ m p. ext.callback m p ∙ no_callback no_routes m p _ refl;
          handler = λ m p. ext.handler m p ∙ no_handler no_routes m p _ refl;
        },
        moved,
      )
