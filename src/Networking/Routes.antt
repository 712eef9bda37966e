-- ===== src/Networking/Routes.antt =====
-- networking/route_manager_base.hpp: `RouteManagerBase` and `RouteManagerBuilder`, over the types of
-- the HTTP callbacks and of the websocket handlers. The virtual `AddCallback` and `GetCallback` are
-- the defaults of the base class.
pub mod Lookup
use the_game.Base.{
  ◌≡◌, List, [], ◌∷◌, Option, none, some, Text, Dict, find, emplace, assign, Result, ok, fault,
  null_pointer, deref, ◌==◌, if◌then◌else◌, ◌>>=◌,
}
use the_game.Networking.Http.Method.{HttpMethod, get, method_eq}
use the_game.Base.{nat_eq, list_eq}

module _ {ℓ κ} (C : Type ℓ) (H : Type κ) where
  pub record RouteManager : Type (ℓ ⊔ κ) where
    pub callbacks : Dict HttpMethod (Dict Text C)
    pub ws_handlers : Dict Text H

  -- A null `rm_ptr_` is `none`.
  pub record Builder : Type (ℓ ⊔ κ) where
    pub rm_ptr : Option RouteManager

module _ {ℓ} {C : Type ℓ} where
  -- What `operator[]` refers to: the entry, or a new empty map.
  unfoldable pub entry : HttpMethod → Dict HttpMethod (Dict Text C) → Dict Text C
  entry method callbacks = elim (find method callbacks) [ none ↦ [] | some paths ↦ paths ]

  unfoldable pub add_callback :
      Dict HttpMethod (Dict Text C) → HttpMethod → Text → C → Dict HttpMethod (Dict Text C)
  unfolding entry
  add_callback callbacks method path callback =
      assign method (emplace path callback (entry method callbacks)) callbacks

module _ {ℓ κ} {C : Type ℓ} {H : Type κ} where
  abbrev pub no_routes : RouteManager C H
  no_routes = record { callbacks = []; ws_handlers = [] }

  unfoldable pub get_ws_handler : RouteManager C H → HttpMethod → Text → Option H
  get_ws_handler rm method path = if method == get then find path rm.ws_handlers else none

  unfoldable pub get_callback : RouteManager C H → HttpMethod → Text → Option C
  get_callback rm method path = elim (find method rm.callbacks) [
    | none ↦ none
    | some paths ↦ find path paths
  ]

  unfoldable pub add_callback_internal : RouteManager C H → HttpMethod → Text → C → RouteManager C H
  unfolding add_callback
  add_callback_internal rm method path callback = record rm {
    callbacks = add_callback rm.callbacks method path callback;
  }

  unfoldable pub add_ws_callback_internal : RouteManager C H → Text → H → RouteManager C H
  add_ws_callback_internal rm path handler = record rm {
    ws_handlers = emplace path handler rm.ws_handlers;
  }

  abbrev pub new_builder : Builder C H
  new_builder = record { rm_ptr = some no_routes }

  -- `WithRouteManagerType`: the instance that the constructor of the given class makes.
  unfoldable pub with_route_manager_type : RouteManager C H → Builder C H → Builder C H
  with_route_manager_type made b = record { rm_ptr = some made }

  unfoldable pub add : HttpMethod → Text → C → Builder C H → Result (Builder C H)
  unfolding add_callback_internal
  add method path callback b = do
    rm ← deref null_pointer b.rm_ptr
    ok (record { rm_ptr = some (add_callback_internal rm method path callback) })

  unfoldable pub add_websocket : Text → H → Builder C H → Result (Builder C H)
  unfolding add_ws_callback_internal
  add_websocket path handler b = do
    rm ← deref null_pointer b.rm_ptr
    ok (record { rm_ptr = some (add_ws_callback_internal rm path handler) })

  -- The pointer moves out of the builder, which keeps a null one.
  unfoldable pub build : Builder C H → Option (RouteManager C H) × Builder C H
  build b = (b.rm_ptr, record { rm_ptr = none })
