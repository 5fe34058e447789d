-- ===== src/Samples/Routing.antt =====
-- A search for a route that knows the paths without parameters.
use events_api.Common.{
  String, ◌≡◌, refl, subst, true, false, ◌&&◌, Option, none, some, List, [], ◌∷◌, ◌++◌, ◌==◌,
  if◌then◌else◌, arith, eq_iff, eq_refl, Bool-cases, inl, inr,
}
use Prim.Native.String.{◌++◌ as append}
use events_api.Common.Split.{
  has_char, starts_with, after_prefix, after_prefix-append, up_to, up_to-whole, departs,
}
use events_api.Common.Text.{any_char}
use events_api.App.Routes.{
  Route, Entry, mount, include_router, single, Found, found, mounted, nothing, Routing, RoutingLaws,
  Apart, is_reserved,
}

unfoldable pub search : List Route → String → String → Found
search [] method path = nothing
search (r ∷ rs) method path =
    let rest = search rs method path in
    if (r.method == method) && (r.path == path) then found r.endpoint [] else rest

abbrev or_else : Found → Found → Found
or_else nothing y = y
or_else x y = x

abbrev under : List Route → String → Option String → Found
under routes method none = nothing
under routes method (some path) = search routes method path

unfoldable pub find : List Entry → String → String → Found
find [] method path = nothing
find (mount files ∷ entries) method path =
    let rest = find entries method path in
    if starts_with (append files "/") path then mounted else rest
find (include_router prefix routes ∷ entries) method path =
    let rest = find entries method path in
    or_else (under routes method (after_prefix prefix path)) rest
find (single r ∷ entries) method path =
    let rest = find entries method path in or_else (search (r ∷ []) method path) rest

abbrev pub literal_routing : Routing
literal_routing = record { find = find }

departs_self : (s : String) → departs s s ≡ false
unfolding departs
departs_self String.[] = refl
departs_self (String.◌∷◌ c s) = ground (arith, departs_self s)

other_path :
    (r r' : Route)
    → has_char 123 r.path ≡ false
    → departs (up_to "{" r'.path) r.path ≡ true
    → (r'.path == r.path) ≡ false
unfolding any_char
other_path r r' whole apart = elim (Bool-cases (r'.path == r.path)) [
  | inr differs ↦ differs
  | inl same ↦
      let apart' : departs (up_to "{" r.path) r.path ≡ true =
        subst (λ s. departs (up_to "{" s) r.path ≡ true) ((eq_iff r'.path r.path).0 same) apart in
      ground (arith, rw (up_to-whole 123 "{" r.path refl whole, departs_self r.path) at apart')
]

search-found :
    (before after : List Route) (r : Route)
    → has_char 123 r.path ≡ false
    → Apart before r.path
    → search (before ++ (r ∷ after)) r.method r.path ≡ found r.endpoint []
unfolding search
search-found [] after r whole apart = rw (eq_refl r.method, eq_refl r.path) refl
search-found (r' ∷ before) after r whole (apart, others) =
    rw (other_path r r' whole apart, search-found before after r whole others) (ground arith)

pub literal_routing_laws : RoutingLaws literal_routing
unfolding find is_reserved
literal_routing_laws = record {
  literal = λ files prefix before after r entries plain whole free apart.
      elim (Bool-cases (starts_with (append files "/") (append prefix r.path))) [
        | inl reserved ↦ ground (arith, rw reserved at free)
        | inr others ↦
            rw (others, after_prefix-append prefix r.path, search-found before after r whole apart)
              refl
      ];
}
