-- ===== src/Tests/Visits.antt =====
-- Visits of a small instance.
use the_game.Base.{ℕ, ◌+◌, ◌≡◌, refl, List, [], ◌∷◌, ◌++◌, none, some, codes, if◌then◌else◌}
use the_game.Visit.{Members, done, field, nested, Visitor, accept, no_visit_nested}
use the_game.Visit.Walk.{
  Completes, accept-Completes, accept-no_visit_nested, is_flat, before_nested, told, shape,
}
use the_game.Visit.Properties.{
  Property, property, Visitable, no_properties, with_value, with_nested, accept_instance, members,
}
use the_game.Visit.Apart.{IsLeft, AreApart, accept_instance_lem}

-- It notes every value, and adds one to it.
abbrev counting : Visitor ℕ (List ℕ)
counting = record {
  visit = λ name x s. (x + 1, s ++ x ∷ []);
  visit_nested = some (λ name s. s ++ 100 ∷ []);
  exit_nested = some (λ name s. s ++ 200 ∷ []);
}

abbrev flat_only : Visitor ℕ (List ℕ)
flat_only = record counting { visit_nested = none }

abbrev two_levels : Members ℕ
two_levels =
    field (codes "a") 1 (nested (codes "b") (field (codes "c") 2 done) (field (codes "d") 3 done))

accept-Completes_example :
    Completes counting
      (λ name s. s ++ 100 ∷ [])
      (λ name s. s ++ 200 ∷ [])
      refl
      refl
      two_levels
      []
      (accept counting two_levels [])
accept-Completes_example =
    accept-Completes counting (λ name s. s ++ 100 ∷ []) (λ name s. s ++ 200 ∷ []) refl refl
      two_levels []

accept-no_visit_nested_example :
    let o = accept flat_only two_levels [] in
    (o.thrown ≡ (if is_flat two_levels then none else some no_visit_nested))
    × (o.state ≡ told flat_only (λ name s. s) (λ name s. s) (before_nested two_levels) [])
    × (shape o.instance_after ≡ shape two_levels)
accept-no_visit_nested_example = accept-no_visit_nested flat_only two_levels [] refl

visited_in_order : (accept counting two_levels []).state ≡ 1 ∷ 100 ∷ 2 ∷ 200 ∷ 3 ∷ []
unfolding accept
visited_in_order = refl

-- A class with a number, an instance of another class, and a number that no property names.
record Inner : Type 0 where
  c : ℕ

record Outer : Type 0 where
  a : ℕ
  inner : Inner
  hidden : ℕ

abbrev inner_properties : Visitable ℕ Inner
inner_properties =
    with_value (property (codes "c") (λ (i : Inner). i.c) (λ x (i : Inner). record i { c = x }))
      no_properties

abbrev outer_properties : Visitable ℕ Outer
outer_properties =
    with_value (property (codes "a") (λ (o : Outer). o.a) (λ x (o : Outer). record o { a = x })) (
      with_nested
        (property (codes "inner") (λ (o : Outer). o.inner)
          (λ x (o : Outer). record o { inner = x }))
        inner_properties no_properties)

abbrev an_outer : Outer
an_outer = record { a = 1; inner = record { c = 2 }; hidden = 9 }

outer_properties-AreApart : AreApart outer_properties
outer_properties-AreApart = (
  (λ m c. refl),
  ((λ m c. refl), tt),
  ((λ m c. refl), tt),
  ((λ m c. refl), tt, tt, ((λ m c. refl), tt, tt, tt), tt),
)

accept_instance_lem_example :
    let o = accept_instance counting outer_properties an_outer [] in
    let t = accept counting (members outer_properties an_outer) [] in
    (members outer_properties o.instance_after ≡ t.instance_after)
    × (o.state ≡ t.state)
    × (o.thrown ≡ t.thrown)
    × ((M : Type 0) (p : Property Outer M)
        → IsLeft p outer_properties
        → p.get o.instance_after ≡ p.get an_outer)
accept_instance_lem_example =
    accept_instance_lem counting outer_properties an_outer [] outer_properties-AreApart

outer_visited :
    (accept_instance counting outer_properties an_outer []).instance_after
    ≡ record { a = 2; inner = record { c = 3 }; hidden = 9 }
unfolding accept_instance
outer_visited = refl
