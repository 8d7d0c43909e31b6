-- ===== src/Tests/ZentLoop.antt =====
-- Settings of ZentLoop, a check and a request that is sent on.
use zent_proxy.Base.{
  ℕ, ◌≡◌, refl, inr, true, false, Option, none, some, List, [], ◌∷◌, ◌==◌, if◌then◌else◌, Text, lit,
}
use zent_proxy.Model.{ZentLoopConfig, ZentLoopRule, ZentLoopIpList}
use zent_proxy.ZentLoop.Handler.{Packages, BridgeRequest, serve_http, headers_out, forwarded, Url}
use zent_proxy.ZentLoop.Monitor.{Check, replied, health_after, is_healthy, bridge}
use zent_proxy.ZentLoop.Guarded.{IsGuarded, serve_http-IsGuarded}
use zent_proxy.Api.ZentLoop.{
  UpstreamUrl, names_of, mask, ConfigRequest, Integration, zent_loop_set, zent_loop_sets,
  zent_loop_api,
}
use zent_proxy.Api.ZentLoop.Run.{IsValidState, zent_loop_sets-IsValid}
use zent_proxy.Api.State.{Outcome, activated, rejected}
use zent_proxy.Tests.{net, proxy}

abbrev upstream : Url
upstream = record { scheme = lit "http"; host = lit "zentloop:8080"; check_uri = lit "/check" }

abbrev packages : Packages
packages = record {
  parse_url = λ s. some upstream;
  split_host_port = λ s. none;
  hmac = λ key message. lit "00";
}

abbrev settings : ZentLoopConfig
settings = record {
  enabled = true;
  forward_unknown_hosts = false;
  upstream = lit "http://zentloop:8080";
  secret = lit "s3cret";
  fallback = lit "block";
  ip_lists = [];
  rules = [];
}

abbrev check : Check
check = record {
  config = some settings;
  now = 100;
  latency_ms = 3;
  reply = λ u hs. replied 204 (lit "1");
}

abbrev request : BridgeRequest
request = record {
  method = lit "get";
  host = lit "Example.com:443";
  request_uri = lit "/?a=1";
  remote_addr = [];
  real_ip = lit "10.0.0.9";
  forwarded_for = [];
  forwarded_host = [];
  forwarded_proto = lit "https";
  catch_all = [];
}

sent_on :
    serve_http net packages
      (some settings)
      (is_healthy (health_after packages (check ∷ [])))
      101
      request
    ≡ forwarded upstream (headers_out net packages settings.secret 101 request)
unfolding proxy bridge
sent_on = refl

serve_http-IsGuarded_example :
    IsGuarded net packages
      (some settings)
      (check ∷ [])
      101
      request
      upstream
      (headers_out net packages settings.secret 101 request)
serve_http-IsGuarded_example =
    serve_http-IsGuarded net packages (some settings) (check ∷ []) 101 request upstream
      (headers_out net packages settings.secret 101 request) sent_on

abbrev parse_url : Text → Option UpstreamUrl
parse_url s = some (record { scheme = lit "http"; host = lit "h"; has_user = false })

abbrev outcome : ℕ → ZentLoopConfig → Outcome
outcome n c = if n == 0 then activated else rejected

abbrev office : ZentLoopIpList
office = record { name = lit " Office "; entries = lit "10.0.0.1" ∷ lit " " ∷ [] }

abbrev from_office : ZentLoopRule
from_office = record {
  name = lit "office";
  enabled = true;
  match = lit "SOURCE_IP_LIST";
  value = lit "office";
  action = lit "block";
  host_ids = [];
}

abbrev save_office : ConfigRequest
save_office = record {
  body = some (record settings { ip_lists = office ∷ []; rules = from_office ∷ []; secret = mask });
  now = 7;
  actor = lit "session:admin";
  fails = λ c. false;
}

abbrev before : Integration
before = record { stored = settings; live = settings; activations = 0; audits = [] }

abbrev names : Integration → List Text
names st = names_of st.stored.ip_lists

save-names : names (zent_loop_set net parse_url outcome save_office before).0 ≡ lit "office" ∷ []
unfolding proxy zent_loop_api
save-names = refl

keeps_secret :
    (zent_loop_set net parse_url outcome save_office before).0.stored.secret ≡ lit "s3cret"
unfolding proxy zent_loop_api
keeps_secret = refl

before-IsValid : IsValidState net parse_url outcome before
unfolding proxy zent_loop_api
before-IsValid = record {
  stored = record { lists = tt; rules = tt; upstream = λ q. refl; fallback = inr refl };
  live = record { lists = tt; rules = tt; upstream = λ q. refl; fallback = inr refl };
}

zent_loop_sets-IsValid_example :
    IsValidState net parse_url outcome
      (zent_loop_sets net parse_url outcome (save_office ∷ save_office ∷ []) before)
zent_loop_sets-IsValid_example =
    zent_loop_sets-IsValid net parse_url outcome (save_office ∷ save_office ∷ []) before
      before-IsValid
