-- ===== src/Networking/Http/Session/Handled.antt =====
-- The completions of an `HttpSession` (networking/http/http_session.cpp) in two parts, one after the
-- other.
use the_game.Base.{
  drop, map, ◌∙◌, sym, ◌≡◌, refl, subst, List, [], ◌∷◌, ◌++◌, ok, arith, Afterwards, Result-cases,
  inl, inr, ok_injective,
}
use the_game.Networking.Boost.{Boost}
use the_game.Networking.Http.Session.{HttpSession}
use the_game.Networking.Http.Session.Flight.{Event, writes, http_handler}
use the_game.Networking.Http.Session.Order.{handle_all, AreDue, answers}
use the_game.Networking.Http.Session.InOrder.{handle_all-answers}

module _ (b : Boost) {H W : Type 0} where
  -- The session handles the first part, in which writes complete only when they are in flight, and is
  -- `t` then.
  pub record Handled (xs : List (Event b × W)) (s t : HttpSession b H W) : Type 0 where
    pub ran : handle_all b xs s ≡ ok t
    pub due : AreDue b xs s

  pub nil-Handled : (s : HttpSession b H W) → Handled [] s s
  unfolding handle_all
  nil-Handled s = record { ran = refl; due = tt }

  pub Handled-append :
      (xs ys : List (Event b × W)) (s t u : HttpSession b H W)
      → Handled xs s t
      → Handled ys t u
      → Handled (xs ++ ys) s u
  unfolding handle_all
  Handled-append [] ys s t u h k = subst (λ x. Handled ys x u) (ok_injective (sym h.ran)) k
  Handled-append ((e, w) ∷ xs) ys s t u h k =
      elim (Result-cases (http_handler b e (record s { app = w }))) [
        | inl (s1, one) ↦
            let rest : Handled (xs ++ ys) (record s1 { launched = [] }) u =
              Handled-append xs ys (record s1 { launched = [] }) t u
                (record {
                  ran = ground (arith, h.ran, one);
                  due =
                      subst (Afterwards (λ x. AreDue b xs (record x { launched = [] }))) one
                        h.due.1;
                })
                k in
            record {
              ran = ground (arith, rest.ran, one);
              due = (
                h.due.0,
                subst (Afterwards (λ x. AreDue b (xs ++ ys) (record x { launched = [] }))) (sym one)
                    rest.due,
              );
            }
        | inr (f, one) ↦ absurd (ground (arith, h.ran, one))
      ]

  -- The session gives the answers to its requests, in their order.
  pub Handled-answers :
      (es : List (Event b × W)) (s t : HttpSession b H W)
      → Handled es s t
      → (rs : List b.Response) × (answers b s.local_endpoint s.route_manager es s.response ≡ ok rs)
        × (t.writing ≡ drop (writes b (map (λ h. h.0) es)) (s.writing ++ rs))
  Handled-answers es s t h =
      let same = handle_all-answers b es s h.due in
      elim (Result-cases (answers b s.local_endpoint s.route_manager es s.response)) [
        | inl (rs, said) ↦ (rs, said, ok_injective (sym (rw h.ran refl) ∙ same ∙ rw said refl))
        | inr (f, said) ↦ absurd (ground (arith, h.ran, said, same))
      ]
