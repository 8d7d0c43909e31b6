-- ===== src/ZentLoop/Monitor.antt =====
-- internal/zentloop/monitor.go: the check of the integration, and the state that it leaves.
use zent_proxy.Base.{
  ℕ, Bool, true, false, not, ◌&&◌, ◌||◌, Option, none, some, List, [], ◌∷◌, ◌==◌, if◌then◌else◌,
  Text, lit,
}
use zent_proxy.Model.{ZentLoopConfig}
use zent_proxy.Strings.Equality.{text_eq}
use zent_proxy.Strings.Trim.{is_nil, trim_space}
use zent_proxy.ZentLoop.Handler.{
  Url, Packages, Header, before, canonical_target, first_forwarded_ip, header_ip,
  canonical_client_ip, payload, signature, target_of, catches_all, signed_headers, headers_out,
  unavailable, serve_http,
}

pub record Health : Type 0 where
  pub status : Text
  pub reachable : Bool
  pub verified : Bool
  pub verification : Text
  pub latency_ms : ℕ
  pub last_checked : Option ℕ
  pub last_success : Option ℕ
  pub error : Text

-- the reply to a check: none, with an error, or a status and the header
-- `X-ZentLoop-Integration-Verified`
pub data CheckReply : Type 0 where
  unreached : Text → CheckReply
  replied : ℕ → Text → CheckReply

pub record Check : Type 0 where
  -- `store.GetZentLoop`, where it gives no error
  pub config : Option ZentLoopConfig
  -- in seconds
  pub now : ℕ
  pub latency_ms : ℕ
  -- what the upstream replies to a request with these headers
  pub reply : Url → List Header → CheckReply

abbrev pub blank_health : Health
blank_health = record {
  status = [];
  reachable = false;
  verified = false;
  verification = [];
  latency_ms = 0;
  last_checked = none;
  last_success = none;
  error = [];
}

unfoldable pub new_health : Health
new_health = record blank_health { status = lit "disabled"; verification = lit "disabled" }

unfoldable pub is_healthy : Health → Bool
is_healthy h = text_eq h.status (lit "online")

abbrev pub check_target : Text
check_target = lit "zentproxy-health.invalid"

unfoldable pub check_headers : Packages → ZentLoopConfig → Url → ℕ → List Header
check_headers pk cfg u now =
    (record { name = lit "X-ZentLoop-Integration"; value = lit "zentproxy" })
    ∷ (record { name = lit "X-ZentLoop-Target"; value = check_target })
    ∷ (record { name = lit "X-ZentLoop-Catch-All"; value = lit "0" })
    ∷ signed_headers pk cfg.secret now check_target false (lit "GET") u.check_uri

unfoldable pub offline : Check → Text → Text → Health
offline k verification error = record blank_health {
  status = lit "offline";
  verification = verification;
  last_checked = some k.now;
  error = error;
}

unfoldable pub online : Check → Health
online k = record blank_health {
  status = lit "online";
  reachable = true;
  latency_ms = k.latency_ms;
  last_checked = some k.now;
  last_success = some k.now;
}

abbrev pub of_reply : Check → ZentLoopConfig → CheckReply → Health
of_reply k cfg (unreached e) = record (offline k (lit "unreachable") e) {
  latency_ms = k.latency_ms;
}
of_reply k cfg (replied status verified) =
    if is_nil cfg.secret
    then record (online k) { verification = lit "not_configured" }
    else if status == 401 || status == 403
    then record (online k) {
      status = lit "offline";
      verification = lit "secret_mismatch";
      error = lit "ZentLoop rejected the signed integration check";
    }
    else if text_eq verified (lit "1")
    then record (online k) { verified = true; verification = lit "verified" }
    else record (online k) {
      status = lit "degraded";
      verification = lit "unverified";
      error = lit "ZentLoop is reachable, but did not confirm the signed integration check";
    }

unfoldable pub is_web_url : Url → Bool
is_web_url u =
    not (is_nil u.host) && (text_eq u.scheme (lit "http") || text_eq u.scheme (lit "https"))

abbrev pub of_url : Packages → Check → ZentLoopConfig → Option Url → Health
of_url pk k cfg none = offline k (lit "invalid_config") (lit "invalid ZentLoop upstream URL")
of_url pk k cfg (some u) =
    if not (is_web_url u)
    then offline k (lit "invalid_config") (lit "invalid ZentLoop upstream URL")
    else of_reply k cfg (k.reply u (check_headers pk cfg u k.now))

abbrev pub of_config : Packages → Check → Option ZentLoopConfig → Health
of_config pk k none = offline k (lit "unknown") (lit "cannot load ZentLoop configuration")
of_config pk k (some cfg) =
    if not cfg.enabled
    then record blank_health {
      status = lit "disabled";
      verification = lit "disabled";
      last_checked = some k.now;
    }
    else of_url pk k cfg (pk.parse_url (trim_space cfg.upstream))

-- `CheckNow`: the state behind it does not depend on the one before
unfoldable pub check_now : Packages → Check → Health
check_now pk k = of_config pk k k.config

-- the state behind checks, the last of them first
abbrev pub health_after : Packages → List Check → Health
health_after pk [] = new_health
health_after pk (k ∷ ks) = check_now pk k

-- Opens the component for a test.
unfoldable pub bridge : Unit {0}
unfolding before canonical_target first_forwarded_ip header_ip canonical_client_ip payload signature
    target_of catches_all signed_headers headers_out unavailable serve_http new_health is_healthy
    check_headers offline online is_web_url check_now
bridge = tt
