-- ===== src/Prototype/Addresses.antt =====
-- A route of the preview that is written into the address is read back.
use Prim.Native.String
use Prim.Native.Char.{Char, code}
use text.Mathlib.TextLemmas.{cons-append, nil-append, append-nil}
use charge_api.Prelude.{
  ℕ, ◌==◌, ◌≡◌, refl, ap, ◌∙◌, arith, Bool, true, false, not, ◌&&◌, Option, none, some, String, [],
  ◌∷◌, to_number-decimal, lookup, is_truthy, is_nonzero, if◌then◌else◌,
}
use charge_api.Workbench.Query.{Params, set}
use charge_api.Prototype.Model.{
  View, piles, reminders, notifications, account, login, register, admin, users, incidents,
  operations, policies, invites, audit, Route,
}
use charge_api.Prototype.Routes.{
  view_name, view_of, up_to, past, second, without_hash, truthy, port_of, set_tab, set_port,
  route_params, path_text, params_of, parse_route, query_text, route_href,
}

-- A text without a mark.
unfoldable pub is_free : ℕ → String → Bool
is_free mark String.[] = true
is_free mark (String.◌∷◌ c s) = not (code c == mark) && is_free mark s

free-append :
    (mark : ℕ) (a b : String)
    → is_free mark a ≡ true
    → is_free mark b ≡ true
    → is_free mark (String.◌++◌ a b) ≡ true
unfolding is_free
free-append mark String.[] b h k = rw (nil-append b) k
free-append mark (String.◌∷◌ c a) b h k =
    rw (cons-append c a b) (ground (arith, free-append mark a b, h, k))

up_to-free : (mark : ℕ) (a : String) → is_free mark a ≡ true → up_to mark a ≡ a
unfolding is_free up_to
up_to-free mark String.[] h = refl
up_to-free mark (String.◌∷◌ c a) h = ground (arith, up_to-free mark a, h)

past-free : (mark : ℕ) (a : String) → is_free mark a ≡ true → past mark a ≡ none
unfolding is_free past
past-free mark String.[] h = refl
past-free mark (String.◌∷◌ c a) h = ground (arith, past-free mark a, h)

up_to_mark :
    (c : Char) (a b : String)
    → is_free (code c) a ≡ true
    → up_to (code c) (String.◌++◌ a (String.◌∷◌ c b)) ≡ a
unfolding is_free up_to
up_to_mark c String.[] b h = rw (nil-append (String.◌∷◌ c b)) (ground arith)
up_to_mark c (String.◌∷◌ d a) b h =
    rw (cons-append d a (String.◌∷◌ c b)) (ground (arith, up_to_mark c a b, h))

past_mark :
    (c : Char) (a b : String)
    → is_free (code c) a ≡ true
    → past (code c) (String.◌++◌ a (String.◌∷◌ c b)) ≡ some b
unfolding is_free past
past_mark c String.[] b h = rw (nil-append (String.◌∷◌ c b)) (ground arith)
past_mark c (String.◌∷◌ d a) b h =
    rw (cons-append d a (String.◌∷◌ c b)) (ground (arith, past_mark c a b, h))

view_of-view_name : (v : View) → view_of (view_name v) ≡ v
unfolding view_of
view_of-view_name piles = refl
view_of-view_name reminders = refl
view_of-view_name notifications = refl
view_of-view_name account = refl
view_of-view_name login = refl
view_of-view_name register = refl
view_of-view_name admin = refl
view_of-view_name users = refl
view_of-view_name incidents = refl
view_of-view_name operations = refl
view_of-view_name policies = refl
view_of-view_name invites = refl
view_of-view_name audit = refl

view_name-is_free :
    (v : View) → (is_free 47 (view_name v) ≡ true) × (is_free 63 (view_name v) ≡ true)
unfolding is_free
view_name-is_free piles = (refl, refl)
view_name-is_free reminders = (refl, refl)
view_name-is_free notifications = (refl, refl)
view_name-is_free account = (refl, refl)
view_name-is_free login = (refl, refl)
view_name-is_free register = (refl, refl)
view_name-is_free admin = (refl, refl)
view_name-is_free users = (refl, refl)
view_name-is_free incidents = (refl, refl)
view_name-is_free operations = (refl, refl)
view_name-is_free policies = (refl, refl)
view_name-is_free invites = (refl, refl)
view_name-is_free audit = (refl, refl)

slashed : (s : String) → String.◌++◌ "/" s ≡ String.◌∷◌ "/" s
slashed s = cons-append "/" "" s ∙ ap (String.◌∷◌ "/") (nil-append s)

asked_for : (s : String) → String.◌++◌ "?" s ≡ String.◌∷◌ "?" s
asked_for s = cons-append "?" "" s ∙ ap (String.◌∷◌ "?") (nil-append s)

hash_lem : (s : String) → without_hash (String.◌++◌ "#/" s) ≡ s
unfolding without_hash
hash_lem s = rw (cons-append "#" "/" s, slashed s) refl

-- The identifier of a route, where it has one, has no mark of an address.
abbrev id_is_free : Option String → Bool
id_is_free none = true
id_is_free (some id) = is_free 47 id && is_free 63 id

IsPart : View → Option String → String → Type 0
IsPart v id text =
    (is_free 63 text ≡ true)
    × (up_to 47 text ≡ view_name v)
    × (truthy (second 47 (past 47 text)) ≡ id)

-- The path without an identifier, and with one.
bare-IsPart : (v : View) → IsPart v none (String.◌++◌ (view_name v) "")
unfolding IsPart
bare-IsPart v =
    let (slash, question) = view_name-is_free v in
    rw (append-nil (view_name v))
      (question, up_to-free 47 (view_name v) slash, rw (past-free 47 (view_name v) slash) refl)

full-IsPart :
    (v : View) (id : String)
    → is_free 47 id ≡ true
    → is_free 63 id ≡ true
    → is_truthy (some id) ≡ true
    → IsPart v (some id) (String.◌++◌ (view_name v) (String.◌++◌ "/" id))
unfolding IsPart
full-IsPart v id no_slash no_question given =
    let (slash, question) = view_name-is_free v in
    rw (slashed id) (
      free-append 63 (view_name v) (String.◌∷◌ "/" id) question (unfold is_free in no_question),
      up_to_mark "/" (view_name v) id slash,
      ap (λ o. truthy (second 47 o)) (past_mark "/" (view_name v) id slash)
          ∙ ap (λ t. truthy (some t)) (up_to-free 47 id no_slash)
          ∙ rw (given) refl,
    )

id-IsPart :
    (v : View) (id : Option String) → id_is_free id ≡ true → IsPart v (truthy id) (path_text v id)
unfolding path_text IsPart
id-IsPart v none h = bare-IsPart v
id-IsPart v (some id) h = go (is_truthy (some id)) refl
  where
    go :
        (b : Bool)
        → is_truthy (some id) ≡ b
        → IsPart v
            (if b then some id else none)
            (String.◌++◌ (view_name v) (if b then String.◌++◌ "/" id else ""))
    go true given = full-IsPart v id (ground (arith, h)) (ground (arith, h)) given
    go false empty = bare-IsPart v

tab_lem :
    (tab : Option String) (port : Option ℕ)
    → truthy (lookup "tab" (set_port port (set_tab tab []))) ≡ truthy tab
unfolding lookup set
tab_lem none none = refl
tab_lem none (some n) = ground arith
tab_lem (some t) none = ground arith
tab_lem (some t) (some n) = ground arith

port_lem :
    (tab : Option String) (port : Option ℕ)
    → port_of (lookup "port" (set_port port (set_tab tab [])))
      ≡ (if is_nonzero port then port else none)
unfolding lookup set
port_lem none none = refl
port_lem none (some n) = ground (arith, to_number-decimal n)
port_lem (some t) none = ground arith
port_lem (some t) (some n) = ground (arith, to_number-decimal n)

-- The text after the path is nothing, or the parameters.
query_lem :
    (parse_params : String → Params) (to_string : Params → String) (path : String) (params : Params)
    → is_free 63 path ≡ true
    → is_free 63 (to_string params) ≡ true
    → parse_params (to_string params) ≡ params
    → parse_params "" ≡ []
    → (up_to 63 (String.◌++◌ path (query_text to_string params)) ≡ path)
      × (params_of parse_params (past 63 (String.◌++◌ path (query_text to_string params))) ≡ params)
query_lem parse_params to_string path [] free text law nothing =
    rw (append-nil path) (up_to-free 63 path free, rw (past-free 63 path free) nothing)
query_lem parse_params to_string path (p ∷ ps) free text law nothing =
    rw (asked_for (to_string (p ∷ ps))) (
      up_to_mark "?" path (to_string (p ∷ ps)) free,
      ap (params_of parse_params) (past_mark "?" path (to_string (p ∷ ps)) free)
          ∙ ap parse_params (up_to-free 63 (to_string (p ∷ ps)) text)
          ∙ law,
    )

-- A route that is written into the address is read back: its view and its port, and its identifier and its
-- tab, an empty one as none, a port 0 as none. Conditions: the identifier has no `/` and no `?`, the text of
-- the parameters no `?`, and the parser reads back what the printer wrote, and nothing from the empty text.
pub parse_route-route_href :
    (parse_params : String → Params) (to_string : Params → String) (route : Route)
    → id_is_free route.id ≡ true
    → is_free 63 (to_string (route_params route)) ≡ true
    → parse_params (to_string (route_params route)) ≡ route_params route
    → parse_params "" ≡ []
    → parse_route parse_params (route_href to_string route) ≡ record {
      view = route.view;
      id = truthy route.id;
      tab = truthy route.tab;
      port = if is_nonzero route.port then route.port else none;
    }
unfolding parse_route route_href IsPart
parse_route-route_href parse_params to_string route marks text law nothing =
    let params = route_params route in
    let path = path_text route.view route.id in
    let (free, view_part, id_of) = id-IsPart route.view route.id marks in
    let (path_of, params_read) =
      query_lem parse_params to_string path params free text law nothing in
    let whole = hash_lem (String.◌++◌ path (query_text to_string params)) in
    let read_path = ap (up_to 63) whole ∙ path_of in
    let read_params = ap (λ t. params_of parse_params (past 63 t)) whole ∙ params_read in
    λ i. record {
      view =
          (ap (λ p. view_of (up_to 47 p)) read_path
              ∙ ap view_of view_part
              ∙ view_of-view_name route.view)
            i;
      id = (ap (λ p. truthy (second 47 (past 47 p))) read_path ∙ id_of) i;
      tab = (ap (λ ps. truthy (lookup "tab" ps)) read_params ∙ tab_of) i;
      port = (ap (λ ps. port_of (lookup "port" ps)) read_params ∙ port_at) i;
    }
  where
    tab_of : truthy (lookup "tab" (route_params route)) ≡ truthy route.tab
    tab_of = unfold route_params in tab_lem route.tab route.port

    port_at :
        port_of (lookup "port" (route_params route))
        ≡ (if is_nonzero route.port then route.port else none)
    port_at = unfold route_params in port_lem route.tab route.port
