-- ===== src/ZentLoop/Guarded.antt =====
-- internal/zentloop: proofs on the check of the integration as the guard of what is forwarded.
use zent_proxy.Base.{
  ℕ, ◌≡◌, refl, sym, ap, ◌≢◌, ◌⊎◌, inl, inr, Bool, true, false, not, ◌||◌, Option, none, some, List,
  [], ◌∷◌, arith, ◌==◌, if◌then◌else◌, Bool-cases, Text, lit,
}
use zent_proxy.Model.{ZentLoopConfig}
use zent_proxy.Net.{Net}
use zent_proxy.Strings.Equality.{text_eq, text_eq_iff}
use zent_proxy.Strings.Trim.{is_nil, trim_space}
use zent_proxy.ZentLoop.Handler.{
  Url, Packages, BridgeRequest, Header, Bridged, answered, forwarded, headers_out, unavailable,
  to_upstream, serve_http,
}
use zent_proxy.ZentLoop.Monitor.{
  Health, CheckReply, unreached, replied, Check, new_health, is_healthy, check_headers, offline,
  online, of_reply, is_web_url, of_url, of_config, check_now, health_after,
}

-- A check that the upstream passed: without a secret any reply does, with one it must not refuse the
-- signature, and must confirm it.
pub record IsPassed (pk : Packages) (k : Check) : Type 0 where
  pub config : ZentLoopConfig
  pub url : Url
  pub code : ℕ
  pub verified : Text
  pub loaded : k.config ≡ some config
  pub enabled : config.enabled ≡ true
  pub upstream : pk.parse_url (trim_space config.upstream) ≡ some url
  pub web : is_web_url url ≡ true
  pub reply : k.reply url (check_headers pk config url k.now) ≡ replied code verified
  pub confirmed :
      (is_nil config.secret ≡ true) ⊎ ((code ≢ 401) × (code ≢ 403) × (verified ≡ lit "1"))

-- a request that may be sent to a URL with headers
pub record IsGuarded (net : Net) (pk : Packages) (cfg : Option ZentLoopConfig) (ks : List Check)
    (now : ℕ) (r : BridgeRequest) (u : Url) (hs : List Header) : Type 0 where
  pub config : ZentLoopConfig
  pub loaded : cfg ≡ some config
  pub enabled : config.enabled ≡ true
  pub upstream : pk.parse_url config.upstream ≡ some u
  pub headers : hs ≡ headers_out net pk config.secret now r
  pub last : Check
  pub before : List Check
  pub checks : ks ≡ last ∷ before
  pub passed : IsPassed pk last

abbrev Healthy : Health → Type 0
Healthy h = is_healthy h ≡ true

module _ (pk : Packages) (k : Check) where
  of_reply-IsPassed :
      (config : ZentLoopConfig) (url : Url)
      → k.config ≡ some config
      → config.enabled ≡ true
      → pk.parse_url (trim_space config.upstream) ≡ some url
      → is_web_url url ≡ true
      → (r : CheckReply) → k.reply url (check_headers pk config url k.now) ≡ r
      → Healthy (of_reply k config r)
      → IsPassed pk k
  unfolding is_healthy offline online text_eq lit
  of_reply-IsPassed config url a b c d (unreached e) q = λ h. absurd (cc)
  of_reply-IsPassed config url a b c d (replied code verified) q =
      elim (Bool-cases (is_nil config.secret)) [
        | inl e ↦ rw e (λ h. record {
          config = config;
          url = url;
          code = code;
          verified = verified;
          loaded = a;
          enabled = b;
          upstream = c;
          web = d;
          reply = q;
          confirmed = inl e;
        })
        | inr e ↦ rw e (elim (Bool-cases (code == 401 || code == 403)) [
          | inl f ↦ rw f (λ h. absurd (cc))
          | inr f ↦ rw f (elim (Bool-cases (text_eq verified (lit "1"))) [
            | inl g ↦ rw g (λ h. record {
              config = config;
              url = url;
              code = code;
              verified = verified;
              loaded = a;
              enabled = b;
              upstream = c;
              web = d;
              reply = q;
              confirmed =
                  inr (λ p. ground arith, λ p. ground arith, (text_eq_iff verified (lit "1")).0 g);
            })
            | inr g ↦ rw g (λ h. absurd (cc))
          ])
        ])
      ]

  of_url-IsPassed :
      (config : ZentLoopConfig)
      → k.config ≡ some config
      → config.enabled ≡ true
      → (o : Option Url) → pk.parse_url (trim_space config.upstream) ≡ o
      → Healthy (of_url pk k config o)
      → IsPassed pk k
  unfolding is_healthy offline text_eq lit
  of_url-IsPassed config a b none c = λ h. absurd (cc)
  of_url-IsPassed config a b (some url) c = elim (Bool-cases (is_web_url url)) [
    | inl e ↦ rw e (
        of_reply-IsPassed config url a b c e (k.reply url (check_headers pk config url k.now)) refl)
    | inr e ↦ rw e (λ h. absurd (cc))
  ]

  of_config-IsPassed :
      (o : Option ZentLoopConfig) → k.config ≡ o → Healthy (of_config pk k o) → IsPassed pk k
  unfolding is_healthy offline text_eq lit check_headers
  of_config-IsPassed none a = λ h. absurd (cc)
  of_config-IsPassed (some config) a = elim (Bool-cases config.enabled) [
    | inl e ↦ rw e (of_url-IsPassed config a e (pk.parse_url (trim_space config.upstream)) refl)
    | inr e ↦ rw e (λ h. absurd (cc))
  ]

  check_now-IsPassed : Healthy (check_now pk k) → IsPassed pk k
  unfolding check_now
  check_now-IsPassed h = of_config-IsPassed k.config refl h

-- the check that the state is from
record IsChecked (pk : Packages) (ks : List Check) : Type 0 where
  pub last : Check
  pub before : List Check
  pub checks : ks ≡ last ∷ before
  pub passed : IsPassed pk last

Healthy-IsChecked :
    (pk : Packages) (ks : List Check) → Healthy (health_after pk ks) → IsChecked pk ks
unfolding is_healthy new_health text_eq lit
Healthy-IsChecked pk [] = λ h. absurd (cc)
Healthy-IsChecked pk (k ∷ ks) =
    λ h. record { last = k; before = ks; checks = refl; passed = check_now-IsPassed pk k h }

abbrev url_of : Url → Bridged → Url
url_of u (answered status message) = u
url_of u (forwarded v hs) = v

abbrev headers_of : List Header → Bridged → List Header
headers_of hs (answered status message) = hs
headers_of hs (forwarded v ks) = ks

to_upstream-inv :
    (net : Net) (pk : Packages) (secret : Text) (now : ℕ) (r : BridgeRequest) (u : Url)
    (hs : List Header) (o : Option Url)
    → to_upstream net pk secret now r o ≡ forwarded u hs
    → (o ≡ some u) × (hs ≡ headers_out net pk secret now r)
to_upstream-inv net pk secret now r u hs none = λ h. absurd (cc)
to_upstream-inv net pk secret now r u hs (some v) =
    elim (Bool-cases (is_nil v.scheme || is_nil v.host)) [
      | inl e ↦ rw e (λ h. absurd (cc))
      | inr e ↦ rw e (λ h. (ap (λ b. some (url_of u b)) h, sym (ap (headers_of hs) h)))
    ]

unavailable-answers :
    (fallback : Text) (u : Url) (hs : List Header) → unavailable fallback ≢ forwarded u hs
unfolding unavailable
unavailable-answers fallback u hs = elim (Bool-cases (text_eq fallback (lit "503"))) [
  | inl e ↦ rw e (λ h. cc)
  | inr e ↦ rw e (λ h. cc)
]

-- what a guard that answers lets through
passes :
    (b : Bool) (a rest : Bridged) (u : Url) (hs : List Header)
    → a ≢ forwarded u hs
    → (if not b then a else rest) ≡ forwarded u hs
    → (b ≡ true) × (rest ≡ forwarded u hs)
passes true a rest u hs n h = (refl, h)
passes false a rest u hs n h = absurd (n h)

-- An intercepted request is sent on only if the integration is enabled, to its upstream, with the
-- headers for it, and only if the last check of the integration was passed: it reached a web URL,
-- and where a secret was set, the upstream did not refuse the signature and confirmed it.
pub serve_http-IsGuarded :
    (net : Net) (pk : Packages) (cfg : Option ZentLoopConfig) (ks : List Check) (now : ℕ)
    (r : BridgeRequest) (u : Url) (hs : List Header)
    → serve_http net pk cfg (is_healthy (health_after pk ks)) now r ≡ forwarded u hs
    → IsGuarded net pk cfg ks now r u hs
unfolding serve_http
serve_http-IsGuarded net pk none ks now r u hs = λ h. absurd (cc)
serve_http-IsGuarded net pk (some config) ks now r u hs = λ h.
    let (e, g) = passes config.enabled _ _ u hs (λ q. cc) h in
    let (f, k) =
      passes (is_healthy (health_after pk ks)) _ _ u hs (unavailable-answers config.fallback u hs)
        g in
    let (p, q) = to_upstream-inv net pk config.secret now r u hs (pk.parse_url config.upstream) k in
    let c = Healthy-IsChecked pk ks f in
    record {
      config = config;
      loaded = refl;
      enabled = e;
      upstream = p;
      headers = q;
      last = c.last;
      before = c.before;
      checks = c.checks;
      passed = c.passed;
    }
