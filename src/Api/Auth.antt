-- ===== src/Api/Auth.antt =====
-- internal/api/server.go: who may call a handler (authenticate, require, requireSession), with the
-- sessions and API keys of internal/db/store.go.
pub mod Entitled
pub mod Revoked
use zent_proxy.Base.{
  ℕ, zero, suc, ◌+◌, ◌-◌, ◌*◌, ◌/◌, ◌%◌, ◌^◌, ◌≤◌, ◌<◌, String, ◌≡◌, refl, sym, ap, ◌∙◌, subst, ◌≢◌,
  ◌↔◌, ◌⊎◌, inl, inr, Bool, true, false, not, ◌&&◌, ◌||◌, Option, none, some, List, [], ◌∷◌, ◌++◌,
  map, reverse, append-nil, append_assoc, arith, ltb, leb, ◌==◌, if◌then◌else◌, ==_iff, ==_self,
  Bool-cases, Option-cases, length, length-append, In, In-append_left, In-append_right,
  In-append_split, All, All-append, All-append_left, All-append_right, All_weaken, Text, lit,
}
use zent_proxy.Strings.Equality.{text_eq, has}
use zent_proxy.Strings.Trim.{trim_space, to_lower}
use zent_proxy.Strings.Search.{has_prefix}
use zent_proxy.Store.Rows.{find, replace}
use zent_proxy.Proxy.Render.Pieces.{drop_same}

pub record Session : Type 0 where
  pub token_hash : Text
  pub user_id : ℕ
  pub csrf_token : Text
  -- none where the stored text is not a time
  pub expires_at : Option ℕ

pub record ApiKey : Type 0 where
  pub id : ℕ
  pub name : Text
  pub token_hash : Text
  pub scopes : List Text
  pub last_used : Option ℕ
  pub revoked_at : Option ℕ

pub record AuthState : Type 0 where
  pub sessions : List Session
  pub keys : List ApiKey

pub record HttpRequest : Type 0 where
  pub method : Text
  -- the headers Authorization and X-ZentProxy-CSRF, empty where they are missing
  pub authorization : Text
  pub csrf : Text
  -- the cookie zp_session
  pub cookie : Option Text
  pub now : ℕ
  -- the query of the store fails
  pub fails : Bool

pub data Principal : Type 0 where
  -- the name of the key, with its scopes
  api_key : Text → List Text → Principal
  -- the user, with the token that mutations are to bring along
  session : ℕ → Text → Principal

pub data Found (A : Type 0) : Type 0 where
  found : A → Found A
  absent broken : Found A

pub data Access : Type 0 where
  allowed : Principal → Access
  denied : ℕ → Access

unfoldable pub key_id : ApiKey → ℕ
key_id k = k.id

unfoldable pub find_session : Text → List Session → Option Session
find_session hash [] = none
find_session hash (s ∷ ss) =
    let rest = find_session hash ss in if text_eq s.token_hash hash then some s else rest

unfoldable pub find_key : Text → List ApiKey → Option ApiKey
find_key hash [] = none
find_key hash (k ∷ ks) =
    let rest = find_key hash ks in if text_eq k.token_hash hash then some k else rest

unfoldable pub drop_session : Text → List Session → List Session
drop_session hash [] = []
drop_session hash (s ∷ ss) =
    let rest = drop_session hash ss in if text_eq s.token_hash hash then rest else s ∷ rest

unfoldable pub delete_session : Text → AuthState → AuthState
delete_session hash st = record st { sessions = drop_session hash st.sessions }

abbrev pub is_revoked : ApiKey → Bool
is_revoked k = elim k.revoked_at [ none ↦ false | some t ↦ true ]

-- UPDATE … WHERE id=? AND revoked_at IS NULL, on one row
unfoldable pub revoked_row : ℕ → ApiKey → ApiKey
revoked_row now k = if is_revoked k then k else record k { revoked_at = some now }

abbrev pub revocable : Option ApiKey → Bool
revocable none = false
revocable (some k) = not (is_revoked k)

-- with whether there was a key to revoke
unfoldable pub revoke_api_key : Bool → ℕ → ℕ → AuthState → AuthState × Bool
revoke_api_key fails now id st = if fails then (st, false) else (
  record st { keys = replace key_id id (revoked_row now) st.keys },
  revocable (find key_id id st.keys),
)

-- is the time of the session over?
abbrev pub is_over : ℕ → Option ℕ → Bool
is_over now none = true
is_over now (some t) = ltb t now

abbrev pub session_found : ℕ → Text → AuthState → Option Session → AuthState × Found Session
session_found now hash st none = (st, absent)
session_found now hash st (some s) =
    if is_over now s.expires_at then (delete_session hash st, absent) else (st, found s)

unfoldable pub used_at : ℕ → ApiKey → ApiKey
used_at now k = record k { last_used = some now }

unfoldable pub touch_key : ℕ → ℕ → AuthState → AuthState
touch_key now id st = record st { keys = replace key_id id (used_at now) st.keys }

abbrev pub key_found : ℕ → AuthState → Option ApiKey → AuthState × Found ApiKey
key_found now st none = (st, absent)
key_found now st (some k) = if is_revoked k then (st, absent) else (touch_key now k.id st, found k)

-- The token of a request with a bearer token, whatever the case of the word.
unfoldable pub bearer_token : HttpRequest → Option Text
bearer_token rq =
    let h = trim_space rq.authorization in
    if has_prefix (lit "bearer ") (to_lower h)
    then some (trim_space (drop_same (lit "bearer ") h))
    else none

unfoldable pub is_mutation : Text → Bool
is_mutation m =
    not (text_eq m (lit "GET")) && not (text_eq m (lit "HEAD")) && not (text_eq m (lit "OPTIONS"))

abbrev pub is_session : Principal → Bool
is_session (api_key name scopes) = false
is_session (session user csrf) = true

abbrev pub has_scope : Text → Principal → Bool
has_scope scope (api_key name scopes) = has (lit "*") scopes || has scope scopes
has_scope scope (session user csrf) = true

-- a mutation in a session that does not bring its token along
abbrev pub lacks_csrf : HttpRequest → Principal → Bool
lacks_csrf rq (api_key name scopes) = false
lacks_csrf rq (session user csrf) = is_mutation rq.method && not (text_eq rq.csrf csrf)

unfoldable pub grant : Text → HttpRequest → Principal → Access
grant scope rq p =
    if not (has_scope scope p)
    then denied 403
    else if lacks_csrf rq p
    then denied 403
    else allowed p

unfoldable pub grant_session : HttpRequest → Principal → Access
grant_session rq p =
    if not (is_session p) then denied 403 else if lacks_csrf rq p then denied 403 else allowed p

abbrev pub decided : (Principal → Access) → AuthState × Found Principal → AuthState × Access
decided f (st, found p) = (st, f p)
decided f (st, absent) = (st, denied 401)
decided f (st, broken) = (st, denied 500)

abbrev pub as_key : AuthState × Found ApiKey → AuthState × Found Principal
as_key (st, found k) = (st, found (api_key k.name k.scopes))
as_key (st, absent) = (st, absent)
as_key (st, broken) = (st, broken)

abbrev pub as_session : AuthState × Found Session → AuthState × Found Principal
as_session (st, found s) = (st, found (session s.user_id s.csrf_token))
as_session (st, absent) = (st, absent)
as_session (st, broken) = (st, broken)

-- `token_hash` is the hash of tokens
module _ (token_hash : Text → Text) where
  unfoldable pub validate_session : Bool → ℕ → Text → AuthState → AuthState × Found Session
  validate_session fails now token st =
      if fails
      then (st, broken)
      else session_found now (token_hash token) st (find_session (token_hash token) st.sessions)

  unfoldable pub validate_api_key : Bool → ℕ → Text → AuthState → AuthState × Found ApiKey
  validate_api_key fails now token st =
      if fails then (st, broken) else key_found now st (find_key (token_hash token) st.keys)

  abbrev pub by_cookie : HttpRequest → AuthState → Option Text → AuthState × Found Principal
  by_cookie rq st none = (st, absent)
  by_cookie rq st (some c) = as_session (validate_session rq.fails rq.now c st)

  abbrev pub by_bearer : HttpRequest → AuthState → Option Text → AuthState × Found Principal
  by_bearer rq st none = by_cookie rq st rq.cookie
  by_bearer rq st (some token) = as_key (validate_api_key rq.fails rq.now token st)

  unfoldable pub authenticate : HttpRequest → AuthState → AuthState × Found Principal
  authenticate rq st = by_bearer rq st (bearer_token rq)

  unfoldable pub require : Text → HttpRequest → AuthState → AuthState × Access
  require scope rq st = decided (grant scope rq) (authenticate rq st)

  unfoldable pub require_session : HttpRequest → AuthState → AuthState × Access
  require_session rq st = decided (grant_session rq) (authenticate rq st)

-- Opens the component for a test.
unfoldable pub auth : Unit {0}
unfolding key_id find_session find_key drop_session delete_session used_at touch_key bearer_token
    is_mutation grant grant_session validate_session validate_api_key authenticate require
    require_session replace find drop_same revoked_row revoke_api_key
auth = tt
