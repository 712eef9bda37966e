-- ===== src/Visit/Exits.antt =====
-- Visitors of libs/visit/visitor_base.hpp that have `visit_nested` but lack `exit_nested`.
use the_game.Base.{
  ◌≡◌, refl, ap, sym, if◌then◌else◌, ◌∙◌, List, [], ◌∷◌, ◌++◌, none, some, Text, Bool-cases, inl,
  inr, arith,
}
use the_game.Visit.{
  Members, done, field, nested, Visitor, Outcome, accept, hook, and_then, within, no_visit_nested,
  no_exit_nested,
}
use the_game.Visit.Walk.{
  Visit, visited, entered, exited, visits, shape, is_flat, told, hook-some, accept_nested,
}

module _ {T : Type 0} where
  -- What comes before the end of a nested instance.
  abbrev pub until_exit : List (Visit T) → List (Visit T)
  until_exit [] = []
  until_exit (visited name x ∷ es) = visited name x ∷ until_exit es
  until_exit (entered name ∷ es) = entered name ∷ until_exit es
  until_exit (exited name ∷ es) = []

  until_exit-append :
      (es fs : List (Visit T)) (name : Text) → until_exit (es ++ exited name ∷ fs) ≡ until_exit es
  until_exit-append [] fs name = refl
  until_exit-append (visited n x ∷ es) fs name =
      ap (◌∷◌ (visited n x)) (until_exit-append es fs name)
  until_exit-append (entered n ∷ es) fs name = ap (◌∷◌ (entered n)) (until_exit-append es fs name)
  until_exit-append (exited n ∷ es) fs name = refl

module _ {T S : Type 0} (v : Visitor T S) (enter : Text → S → S)
    (has_visit : v.visit_nested ≡ some enter) (no_exit : v.exit_nested ≡ none) where
  -- What such a visitor finds.
  abbrev pub Breaks : Members T → S → Outcome (Members T) S → Type 0
  Breaks ms s o =
      (o.thrown ≡ (if is_flat ms then none else some no_exit_nested))
      × (o.state ≡ told v enter (λ name s'. s') (until_exit (visits ms)) s)
      × (shape o.instance_after ≡ shape ms)

  -- After the members of a nested instance have been visited.
  abbrev leaving : Text → Members T → Outcome (Members T) S → Outcome (Members T) S
  leaving name ms o =
      and_then o (λ i. nested name i ms)
        λ i s2.
          hook v.exit_nested no_exit_nested name s2 (nested name i ms)
            λ s3. within (nested name i) (accept v ms s3)

  leaving_lem :
      (name : Text) (inner ms : Members T) (o : Outcome (Members T) S)
      → o.thrown ≡ (if is_flat inner then none else some no_exit_nested)
      → shape o.instance_after ≡ shape inner
      → ((leaving name ms o).thrown ≡ some no_exit_nested)
        × ((leaving name ms o).state ≡ o.state)
        × (shape (leaving name ms o).instance_after ≡ nested name (shape inner) (shape ms))
  unfolding and_then hook
  leaving_lem name inner ms o threw same = elim (Bool-cases (is_flat inner)) [
    | inl flat ↦ ground (arith, threw, same, flat, no_exit)
    | inr deep ↦ ground (arith, threw, same, deep)
  ]

  -- A visitor with `visit_nested` and without `exit_nested`: `accept` throws the text that says so
  -- exactly if some member is a nested instance; up to the first end of one, and through all members if there is
  -- none, it tells the visitor of each member once and in order, and it changes no more of the
  -- instance than the values of its fields.
  pub accept-no_exit_nested : (ms : Members T) (s : S) → Breaks ms s (accept v ms s)
  unfolding accept
  accept-no_exit_nested done s = (refl, refl, refl)
  accept-no_exit_nested (field name x ms) s =
      let (threw, state, same) = accept-no_exit_nested ms (v.visit name x s).1 in
      (threw, state, ap (field name tt) same)
  accept-no_exit_nested (nested name inner ms) s =
      let (threw, state, same) = accept-no_exit_nested inner (enter name s) in
      let (t1, s1, same1) = leaving_lem name inner ms (accept v inner (enter name s)) threw same in
      rw
        (accept_nested v name inner ms s
          ∙ hook-some v v.visit_nested enter no_visit_nested name s (nested name inner ms) _
              has_visit)
        (
          t1,
          s1
              ∙ state
              ∙ ap (λ es. told v enter (λ name' s'. s') es (enter name s))
                  (sym (until_exit-append (visits inner) (visits ms) name)),
          same1,
        )
