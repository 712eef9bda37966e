-- ===== src/Networking/Http/Query.antt =====
-- `ParseUri` and `ParseQuery` of networking/http/http_session.cpp. What is printed to the console is
-- left out. `Params` is the map of networking/http/common.hpp.
use the_game.Base.{
  ℕ, zero, suc, ◌+◌, ◌/◌, ◌%◌, ◌≡◌, ◌∙◌, ◌≢◌, ◌↔◌, false, List, [], ◌∷◌, ◌++◌, Option, none, some,
  Text, Dict, find, emplace, codes, ltb, nat_eq, list_eq, list_beq_iff, ◌==◌, if◌then◌else◌,
  or_else, or_else_assoc, or_else-none, find-emplace, arith, Bool-cases, inl, inr,
}
use the_game.Networking.Boost.{Boost, QueryParam, Endpoint}

abbrev pub Params : Type 0
Params = Dict Text Text

-- `std::to_string` of a number; a digit for each round of fuel at most.
unfoldable pub to_string_from : ℕ → ℕ → Text
to_string_from zero n = []
to_string_from (suc fuel) n =
    let rest = to_string_from fuel (n / 10) in
    if ltb n 10 then (n + 48) ∷ [] else rest ++ (n % 10 + 48) ∷ []

unfoldable pub to_string : ℕ → Text
unfolding to_string_from
to_string n = to_string_from (suc n) n

-- The loop of `ParseQuery`.
unfoldable pub add_params : List QueryParam → Params → Params
add_params [] params = params
add_params (q ∷ qs) params =
    if q.key == []
    then add_params qs params
    else add_params qs (emplace q.key (if q.has_value then q.value else []) params)

module _ (b : Boost) where
  unfoldable pub full_path : Text → Endpoint → Text → Text
  unfolding to_string
  full_path protocol endpoint target =
      protocol
      ++ (codes "://" ++ (endpoint.address ++ (codes ":" ++ (to_string endpoint.port ++ target))))

  unfoldable pub parse_uri : Text → Endpoint → Text → Option b.Url
  unfolding full_path
  parse_uri protocol endpoint target = b.parse_uri (full_path protocol endpoint target)

  unfoldable pub parse_query : b.Url → Option Params
  unfolding add_params
  parse_query url =
      if b.parse_query_accepts (b.query url)
      then some (add_params (b.encoded_params url) [])
      else none

-- The value of the first parameter of this name; one that has no value counts as empty.
abbrev pub first_value : Text → List QueryParam → Option Text
first_value k [] = none
first_value k (q ∷ qs) =
    if q.key == k then some (if q.has_value then q.value else []) else first_value k qs

find-add_params :
    (k : Text) (qs : List QueryParam) (params : Params)
    → find k (add_params qs params)
      ≡ or_else (find k params) (if k == [] then none else first_value k qs)
unfolding add_params
find-add_params k [] params = ground (arith, or_else-none (find k params), Bool-cases (k == []))
find-add_params k (q ∷ qs) params =
    let v = if q.has_value then q.value else [] in
    elim (Bool-cases (q.key == [])) [
      | inl empty ↦
          rw (empty, find-add_params k qs params)
            (ground (arith, list_beq_iff q.key [], list_beq_iff k [], list_beq_iff q.key k))
      | inr key ↦
          rw (key, find-add_params k qs (emplace q.key v params), find-emplace q.key k v params)
            (rw or_else_assoc
              (ground (arith, list_beq_iff q.key [], list_beq_iff k [], list_beq_iff q.key k)))
    ]

-- `ParseQuery` yields parameters exactly when Boost accepts the decoded query; they have no empty
-- key, and every other key stands for the first parameter of that name, where one without a value
-- counts as empty.
pub parse_query_lem :
    (b : Boost) (url : b.Url)
    → ((parse_query b url ≡ none) ↔ (b.parse_query_accepts (b.query url) ≡ false))
      × ((params : Params)
          → parse_query b url ≡ some params
          → (find [] params ≡ none)
            × ((k : Text) → k ≢ [] → find k params ≡ first_value k (b.encoded_params url)))
unfolding parse_query find
parse_query_lem b url = (
  ground arith,
  λ params e.
      let made : params ≡ add_params (b.encoded_params url) [] = ground arith in
      let ps = b.encoded_params url in
      rw made (
        find-add_params [] ps [],
        λ k h. find-add_params k ps [] ∙ ground (arith, list_beq_iff k []),
      ),
)
