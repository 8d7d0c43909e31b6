-- ===== src/Api/Auth/Revoked.antt =====
-- internal/api/server.go: proofs on the revocation of API keys.
use zent_proxy.Base.{
  ℕ, ◌≡◌, refl, ap, ◌∙◌, subst, inl, inr, Bool, true, false, some, List, [], ◌∷◌, arith, ◌==◌,
  if◌then◌else◌, ==_self, Bool-cases, Option-cases, Text,
}
use zent_proxy.Strings.Equality.{text_eq}
use zent_proxy.Store.Rows.{replace}
use zent_proxy.Api.Auth.{
  absent, denied, ApiKey, AuthState, HttpRequest, key_id, find_key, is_revoked, revoked_row,
  revoke_api_key, bearer_token, grant, decided, as_key, validate_api_key, by_bearer, authenticate,
  require,
}

revoked_row-token_hash : (now : ℕ) (k : ApiKey) → (revoked_row now k).token_hash ≡ k.token_hash
unfolding revoked_row
revoked_row-token_hash now k = elim (Option-cases k.revoked_at) [
  | inl e ↦ rw e refl
  | inr (t, e) ↦ rw e refl
]

row-token_hash :
    (now : ℕ) (k : ApiKey) (c : Bool)
    → (if c then revoked_row now k else k).token_hash ≡ k.token_hash
row-token_hash now k true = revoked_row-token_hash now k
row-token_hash now k false = refl

is_revoked-revoked_row : (now : ℕ) (k : ApiKey) → is_revoked (revoked_row now k) ≡ true
unfolding revoked_row
is_revoked-revoked_row now k = elim (Option-cases k.revoked_at) [
  | inl e ↦ rw e refl
  | inr (t, e) ↦ rw e refl
]

-- the first row of a table in which a key was revoked, if it has the token, and if it has not
find_key-head :
    (hash : Text) (now id : ℕ) (j : ApiKey) (keys : List ApiKey)
    → text_eq j.token_hash hash ≡ true
    → find_key hash (replace key_id id (revoked_row now) (j ∷ keys))
      ≡ some (if key_id j == id then revoked_row now j else j)
unfolding find_key replace
find_key-head hash now id j keys e = rw (row-token_hash now j (key_id j == id)) (rw e refl)

find_key-tail :
    (hash : Text) (now id : ℕ) (j : ApiKey) (keys : List ApiKey)
    → text_eq j.token_hash hash ≡ false
    → find_key hash (replace key_id id (revoked_row now) (j ∷ keys))
      ≡ find_key hash (replace key_id id (revoked_row now) keys)
unfolding find_key replace
find_key-tail hash now id j keys e = rw (row-token_hash now j (key_id j == id)) (rw e refl)

same_id :
    (now : ℕ) (k : ApiKey) → (if key_id k == k.id then revoked_row now k else k) ≡ revoked_row now k
unfolding key_id
same_id now k = rw (==_self k.id) refl

-- The row of a token in the table in which its key was revoked.
find_key-revoked :
    (hash : Text) (now : ℕ) (keys : List ApiKey) (k : ApiKey)
    → find_key hash keys ≡ some k
    → find_key hash (replace key_id k.id (revoked_row now) keys) ≡ some (revoked_row now k)
unfolding find_key
find_key-revoked hash now [] k f = absurd (cc)
find_key-revoked hash now (j ∷ keys) k f = elim (Bool-cases (text_eq j.token_hash hash)) [
  | inl e ↦
      let same : j ≡ k = ground arith in
      find_key-head hash now k.id j keys e
      ∙ ap some (
          ap (λ (x : ApiKey). if key_id x == k.id then revoked_row now x else x) same
          ∙ same_id now k)
  | inr e ↦ find_key-tail hash now k.id j keys e ∙ find_key-revoked hash now keys k (rw e at f)
]

module _ (token_hash : Text → Text) where
  validate-revoked :
      (now : ℕ) (token : Text) (st : AuthState) (k : ApiKey)
      → find_key (token_hash token) st.keys ≡ some k
      → is_revoked k ≡ true
      → validate_api_key token_hash false now token st ≡ (st, absent)
  unfolding validate_api_key
  validate-revoked now token st k f r = rw f (rw r refl)

  keys_after :
      (id now : ℕ) (st : AuthState)
      → (revoke_api_key false now id st).0.keys ≡ replace key_id id (revoked_row now) st.keys
  unfolding revoke_api_key
  keys_after id now st = refl

  by_bearer-revoked :
      (scope : Text) (rq : HttpRequest) (token : Text) (st : AuthState) (fails : Bool)
      → fails ≡ false
      → validate_api_key token_hash false rq.now token st ≡ (st, absent)
      → decided (grant scope rq) (as_key (validate_api_key token_hash fails rq.now token st))
        ≡ (st, denied 401)
  by_bearer-revoked scope rq token st true e v = absurd (cc)
  by_bearer-revoked scope rq token st false e v = ap (λ x. decided (grant scope rq) (as_key x)) v

  -- After the key of a token was revoked, a request with that token gets 401 for every scope, if
  -- the store answers, and the state stays as it is.
  pub revoke_api_key-require :
      (id now : ℕ) (scope : Text) (rq : HttpRequest) (st : AuthState) (token : Text) (k : ApiKey)
      → find_key (token_hash token) st.keys ≡ some k
      → k.id ≡ id
      → bearer_token rq ≡ some token
      → rq.fails ≡ false
      → require token_hash scope rq (revoke_api_key false now id st).0
        ≡ ((revoke_api_key false now id st).0, denied 401)
  unfolding require authenticate
  revoke_api_key-require id now scope rq st token k f same b ok =
      let st2 = (revoke_api_key false now id st).0 in
      let row = find_key-revoked (token_hash token) now st.keys k f in
      let here : find_key (token_hash token) st2.keys ≡ some (revoked_row now k) =
        ap (find_key (token_hash token)) (keys_after id now st)
        ∙ subst
            (λ x.
              find_key (token_hash token) (replace key_id x (revoked_row now) st.keys)
              ≡ some (revoked_row now k))
            same row in
      let v =
        validate-revoked rq.now token st2 (revoked_row now k) here (is_revoked-revoked_row now k) in
      ap (λ o. decided (grant scope rq) (by_bearer token_hash rq st2 o)) b
      ∙ by_bearer-revoked scope rq token st2 rq.fails ok v
