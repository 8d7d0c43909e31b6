-- ===== src/Tests/Auth.antt =====
-- Sessions and API keys. The hash of a token is the token itself.
use zent_proxy.Base.{◌≡◌, refl, inl, inr, false, none, some, [], ◌∷◌, Text, lit}
use zent_proxy.Strings.{strings}
use zent_proxy.Api.Auth.{
  Session, ApiKey, AuthState, HttpRequest, api_key, session, allowed, denied, find_key,
  revoke_api_key, bearer_token, require, auth,
}
use zent_proxy.Api.Auth.Entitled.{Entitled, with_key, require-Entitled, Entitled-require}
use zent_proxy.Api.Auth.Revoked.{revoke_api_key-require}

-- Opens the component.
opened : Unit {0}
unfolding strings lit auth zent_proxy.Strings.Equality.has
opened = tt

abbrev plain : Text → Text
plain token = token

abbrev reader : ApiKey
reader = record {
  id = 3;
  name = lit "reader";
  token_hash = lit "abc";
  scopes = lit "hosts:read" ∷ [];
  last_used = none;
  revoked_at = none;
}

abbrev admin : Session
admin = record {
  token_hash = lit "cookie";
  user_id = 1;
  csrf_token = lit "csrf";
  expires_at = some 100;
}

abbrev stored : AuthState
stored = record { sessions = admin ∷ []; keys = reader ∷ [] }

abbrev by_reader : HttpRequest
by_reader = record {
  method = lit "GET";
  authorization = lit "Bearer abc";
  csrf = lit "";
  cookie = none;
  now = 50;
  fails = false;
}

abbrev by_admin : HttpRequest
by_admin = record {
  method = lit "POST";
  authorization = lit "";
  csrf = lit "csrf";
  cookie = some (lit "cookie");
  now = 50;
  fails = false;
}

abbrev forged : HttpRequest
forged = record by_admin { csrf = lit "guess" }

forged-denied : (require plain (lit "hosts:write") forged stored).1 ≡ denied 403
unfolding opened
forged-denied = refl

admin-allowed :
    (require plain (lit "hosts:write") by_admin stored).1 ≡ allowed (session 1 (lit "csrf"))
unfolding opened
admin-allowed = refl

require-Entitled_example :
    Entitled plain (lit "hosts:write") by_admin stored (session 1 (lit "csrf"))
require-Entitled_example =
    require-Entitled plain (lit "hosts:write") by_admin stored (session 1 (lit "csrf"))
      admin-allowed

reader-token : bearer_token by_reader ≡ some (lit "abc")
unfolding opened
reader-token = refl

reader-found : find_key (plain (lit "abc")) stored.keys ≡ some reader
unfolding opened
reader-found = refl

reader-Entitled :
    Entitled plain
      (lit "hosts:read")
      by_reader
      stored
      (api_key (lit "reader") (lit "hosts:read" ∷ []))
reader-Entitled = with_key (lit "abc") reader reader-token reader-found refl (inr (inl refl)) refl

Entitled-require_example :
    (require plain (lit "hosts:read") by_reader stored).1
    ≡ allowed (api_key (lit "reader") (lit "hosts:read" ∷ []))
Entitled-require_example =
    Entitled-require plain (lit "hosts:read") by_reader stored
      (api_key (lit "reader") (lit "hosts:read" ∷ [])) refl reader-Entitled

revoke_api_key-require_example :
    require plain (lit "hosts:read") by_reader (revoke_api_key false 40 3 stored).0
    ≡ ((revoke_api_key false 40 3 stored).0, denied 401)
revoke_api_key-require_example =
    revoke_api_key-require plain 3 40 (lit "hosts:read") by_reader stored (lit "abc") reader
      reader-found refl reader-token refl
