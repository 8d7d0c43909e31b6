-- ===== src/Api/Auth/Entitled.antt =====
-- internal/api/server.go: proofs on who is let through by `require`, with the conditions as data.
use zent_proxy.Base.{
  ℕ, ◌≤◌, ◌≡◌, refl, sym, ap, ◌⊎◌, inl, inr, Bool, true, false, not, ◌&&◌, ◌||◌, Option, none, some,
  arith, ltb, Bool-cases, Option-cases, In, Text, lit,
}
use zent_proxy.Strings.Equality.{text_eq, has, has_iff, text_eq_iff}
use zent_proxy.Api.Auth.{
  Session, ApiKey, AuthState, HttpRequest, Principal, api_key, session, allowed, find_session,
  find_key, session_found, key_found, bearer_token, is_mutation, grant, decided, as_key, as_session,
  validate_session, validate_api_key, by_cookie, by_bearer, authenticate, require,
}

module _ (token_hash : Text → Text) where
  -- The request comes with the token of a key that is not revoked and has the scope, or all scopes;
  -- or, without a bearer token, with the cookie of a session that is not over, and, if it changes
  -- something, with the session's token.
  pub data Entitled (scope : Text) (rq : HttpRequest) (st : AuthState) (p : Principal)
      : Type 0 where
    with_key :
        (token : Text) (k : ApiKey)
        → bearer_token rq ≡ some token
        → find_key (token_hash token) st.keys ≡ some k
        → k.revoked_at ≡ none
        → In (lit "*") k.scopes ⊎ In scope k.scopes
        → p ≡ api_key k.name k.scopes
        → Entitled scope rq st p
    with_session :
        (c : Text) (s : Session) (t : ℕ)
        → bearer_token rq ≡ none
        → rq.cookie ≡ some c
        → find_session (token_hash c) st.sessions ≡ some s
        → s.expires_at ≡ some t
        → rq.now ≤ t
        → (is_mutation rq.method ≡ true → rq.csrf ≡ s.csrf_token)
        → p ≡ session s.user_id s.csrf_token
        → Entitled scope rq st p

  key_case :
      (scope : Text) (rq : HttpRequest) (st : AuthState) (p : Principal) (token : Text) (k : ApiKey)
      → bearer_token rq ≡ some token
      → find_key (token_hash token) st.keys ≡ some k
      → (decided (grant scope rq) (as_key (key_found rq.now st (some k)))).1 ≡ allowed p
      → Entitled scope rq st p
  unfolding grant
  key_case scope rq st p token k b f h = elim (Option-cases k.revoked_at) [
    | inr (t, r) ↦ absurd (let q = rw r at h in cc)
    | inl r ↦ elim (Bool-cases (has (lit "*") k.scopes || has scope k.scopes)) [
      | inr e ↦ absurd (let q = rw e at (rw r at h) in cc)
      | inl e ↦
          let q : allowed (api_key k.name k.scopes) ≡ allowed p = rw e at (rw r at h) in
          with_key token k b f r
            (ground (arith, has_iff (lit "*") k.scopes, has_iff scope k.scopes)) (ground arith)
    ]
  ]

  session_case :
      (scope : Text) (rq : HttpRequest) (st : AuthState) (p : Principal) (c : Text) (s : Session)
      → bearer_token rq ≡ none
      → rq.cookie ≡ some c
      → find_session (token_hash c) st.sessions ≡ some s
      → (decided (grant scope rq) (as_session (session_found rq.now (token_hash c) st (some s)))).1
        ≡ allowed p
      → Entitled scope rq st p
  unfolding grant
  session_case scope rq st p c s b ck f h = elim (Option-cases s.expires_at) [
    | inl r ↦ absurd (let q = rw r at h in cc)
    | inr (t, r) ↦ elim (Bool-cases (ltb t rq.now)) [
      | inl e ↦ absurd (let q = rw e at (rw r at h) in cc)
      | inr e ↦ elim (Bool-cases (is_mutation rq.method && not (text_eq rq.csrf s.csrf_token))) [
        | inl m ↦ absurd (let q = rw m at (rw e at (rw r at h)) in cc)
        | inr m ↦
            let q : allowed (session s.user_id s.csrf_token) ≡ allowed p =
              rw m at (rw e at (rw r at h)) in
            with_session c s t b ck f r (ground arith)
              (λ x. ground (arith, text_eq_iff rq.csrf s.csrf_token)) (ground arith)
      ]
    ]
  ]

  key_validated :
      (scope : Text) (rq : HttpRequest) (st : AuthState) (p : Principal) (token : Text)
      (fails : Bool)
      → bearer_token rq ≡ some token
      → (decided (grant scope rq) (as_key (validate_api_key token_hash fails rq.now token st))).1
        ≡ allowed p
      → Entitled scope rq st p
  unfolding validate_api_key
  key_validated scope rq st p token true b h = absurd (cc)
  key_validated scope rq st p token false b h =
      elim (Option-cases (find_key (token_hash token) st.keys)) [
        | inl f ↦ absurd (let q = rw f at h in cc)
        | inr (k, f) ↦ key_case scope rq st p token k b f (rw f at h)
      ]

  session_validated :
      (scope : Text) (rq : HttpRequest) (st : AuthState) (p : Principal) (c : Text) (fails : Bool)
      → bearer_token rq ≡ none
      → rq.cookie ≡ some c
      → (decided (grant scope rq) (as_session (validate_session token_hash fails rq.now c st))).1
        ≡ allowed p
      → Entitled scope rq st p
  unfolding validate_session
  session_validated scope rq st p c true b e h = absurd (cc)
  session_validated scope rq st p c false b e h =
      elim (Option-cases (find_session (token_hash c) st.sessions)) [
        | inl f ↦ absurd (let q = rw f at h in cc)
        | inr (s, f) ↦ session_case scope rq st p c s b e f (rw f at h)
      ]

  by_cookie-Entitled :
      (scope : Text) (rq : HttpRequest) (st : AuthState) (p : Principal) (o : Option Text)
      → bearer_token rq ≡ none
      → rq.cookie ≡ o
      → (decided (grant scope rq) (by_cookie token_hash rq st o)).1 ≡ allowed p
      → Entitled scope rq st p
  by_cookie-Entitled scope rq st p none b e h = absurd (cc)
  by_cookie-Entitled scope rq st p (some c) b e h = session_validated scope rq st p c rq.fails b e h

  by_bearer-Entitled :
      (scope : Text) (rq : HttpRequest) (st : AuthState) (p : Principal) (o : Option Text)
      → bearer_token rq ≡ o
      → (decided (grant scope rq) (by_bearer token_hash rq st o)).1 ≡ allowed p
      → Entitled scope rq st p
  by_bearer-Entitled scope rq st p none b h = by_cookie-Entitled scope rq st p rq.cookie b refl h
  by_bearer-Entitled scope rq st p (some token) b h = key_validated scope rq st p token rq.fails b h

  -- Whoever is let through to a handler with a scope is entitled to it: by a key that is not revoked
  -- and has the scope, or by a session that is not over, whose token a request that changes something
  -- brings along.
  pub require-Entitled :
      (scope : Text) (rq : HttpRequest) (st : AuthState) (p : Principal)
      → (require token_hash scope rq st).1 ≡ allowed p
      → Entitled scope rq st p
  unfolding require authenticate
  require-Entitled scope rq st p h = by_bearer-Entitled scope rq st p (bearer_token rq) refl h

  -- If the store answers, whoever is entitled to a scope is let through.
  pub Entitled-require :
      (scope : Text) (rq : HttpRequest) (st : AuthState) (p : Principal)
      → rq.fails ≡ false
      → Entitled scope rq st p
      → (require token_hash scope rq st).1 ≡ allowed p
  unfolding require authenticate validate_api_key validate_session grant
  Entitled-require scope rq st p ok (with_key token k b f r g q) =
      let given : has (lit "*") k.scopes || has scope k.scopes ≡ true =
        ground (arith, has_iff (lit "*") k.scopes, has_iff scope k.scopes) in
      rw b (rw ok (rw f (rw r (rw given (ap allowed (sym q))))))
  Entitled-require scope rq st p ok (with_session c s t b ck f r le m q) =
      let early : ltb t rq.now ≡ false = ground arith in
      let brought : is_mutation rq.method && not (text_eq rq.csrf s.csrf_token) ≡ false =
        ground (arith, text_eq_iff rq.csrf s.csrf_token) in
      rw b (rw ck (rw ok (rw f (rw r (rw early (rw brought (ap allowed (sym q))))))))
