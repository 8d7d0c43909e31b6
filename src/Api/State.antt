-- ===== src/Api/State.antt =====
-- The state that the handlers of internal/api/server.go work on, what a request and a reply are, and
-- the calls of internal/db/store.go on hosts.
use zent_proxy.Base.{
  ℕ, suc, Bool, true, false, Option, none, some, List, [], ◌∷◌, ◌++◌, leb, if◌then◌else◌, Text, lit,
}
use zent_proxy.Model.{HostInput, Host}
use zent_proxy.Strings.Trim.{to_lower}
use zent_proxy.Strings.Sorting.{text_le}
use zent_proxy.Strings.Equality.{text_eq}
use zent_proxy.Proxy.Hosts.{HostError}
use zent_proxy.Store.Rows.{find, replace, remove}

-- the calls of the store that may fail
pub data Call : Type 0 where
  list_hosts read_host write_host read_back undo_write : Call

pub data Operation : Type 0 where
  create update delete : Operation

pub record Request : Type 0 where
  -- the id of the path, where there is one and it is at least 1
  pub path_id : Option ℕ
  -- the body, where it is decoded
  pub body : Option HostInput
  pub now : ℕ
  -- who makes the request
  pub actor : Text
  pub fails : Call → Bool

-- What an activation does: the configuration is refused and stays as it was, or it is replaced and
-- then the proxy runs it, or cannot be told to.
pub data Outcome : Type 0 where
  activated rejected broken : Outcome

pub record Env : Type 0 where
  -- `store.GetProvider` and `store.GetAccessList` give no error
  pub has_provider : ℕ → Bool
  pub has_access_list : ℕ → Bool
  -- what `store.GetCertificate` or `certificates.ValidateDomains` objects to
  pub certificate_error : ℕ → List Text → Option Text
  -- what the n-th activation does with the hosts of the store
  pub activation : ℕ → List Host → Outcome

pub record Audit : Type 0 where
  pub at : ℕ
  pub actor : Text
  pub action : Text
  pub object_type : Text
  pub object_id : ℕ
  pub detail : Text

pub record State : Type 0 where
  pub hosts : List Host
  pub next_id : ℕ
  -- the hosts of the configuration on disk
  pub live : List Host
  pub activations : ℕ
  pub audits : List Audit

pub data Reply : Type 0 where
  bad_request : Reply
  invalid : HostError → Reply
  -- the status and the message, without the text of an error that the code appends to it
  refused : ℕ → Text → Reply
  -- a domain that another host has
  conflict : Text → Text → Reply
  saved : ℕ → Host → Reply
  deleted : Reply

unfoldable pub id_of : Host → ℕ
id_of h = h.id

-- ORDER BY name COLLATE NOCASE, id
unfoldable pub listed_before : Host → Host → Bool
listed_before g h =
    if text_eq (to_lower g.name) (to_lower h.name)
    then leb g.id h.id
    else text_le (to_lower g.name) (to_lower h.name)

unfoldable pub host_of_input : ℕ → ℕ → ℕ → HostInput → Host
host_of_input id created updated in_ = record {
  id = id;
  name = in_.name;
  domains = in_.domains;
  scheme = in_.scheme;
  forward_host = in_.forward_host;
  forward_port = in_.forward_port;
  enabled = in_.enabled;
  web_sockets = in_.web_sockets;
  preserve_host = in_.preserve_host;
  statistics_enabled = in_.statistics_enabled;
  store_query_string = in_.store_query_string;
  trusted_proxy_provider_id = in_.trusted_proxy_provider_id;
  access_list_id = in_.access_list_id;
  block_common_exploits = in_.block_common_exploits;
  certificate_id = in_.certificate_id;
  ssl_forced = in_.ssl_forced;
  http2_support = in_.http2_support;
  hsts_enabled = in_.hsts_enabled;
  hsts_subdomains = in_.hsts_subdomains;
  caching_enabled = in_.caching_enabled;
  trust_forwarded_proto = in_.trust_forwarded_proto;
  advanced_config = in_.advanced_config;
  custom_locations = in_.custom_locations;
  created_at = created;
  updated_at = updated;
}

unfoldable pub insert_host : ℕ → HostInput → State → State
insert_host now in_ st = record st {
  hosts = st.hosts ++ (host_of_input st.next_id now now in_ ∷ []);
  next_id = suc st.next_id;
}

-- `store.CreateHost`: the row is inserted, and then read
unfoldable pub create_host : Request → HostInput → State → State × Option Host
create_host rq in_ st = if rq.fails write_host then (st, none) else (
  insert_host rq.now in_ st,
  if rq.fails read_back then none else find id_of st.next_id (insert_host rq.now in_ st).hosts,
)

unfoldable pub updated_host : ℕ → HostInput → Host → Host
updated_host now in_ h = host_of_input h.id h.created_at now in_

unfoldable pub write_row : ℕ → ℕ → HostInput → State → State
write_row id now in_ st = record st { hosts = replace id_of id (updated_host now in_) st.hosts }

unfoldable pub delete_row : ℕ → State → State
delete_row id st = record st { hosts = remove id_of id st.hosts }

unfoldable pub add_audit : Request → Text → ℕ → Text → State → State
add_audit rq action id detail st = record st {
  audits =
      (record {
        at = rq.now;
        actor = rq.actor;
        action = action;
        object_type = lit "host";
        object_id = id;
        detail = detail;
      })
      ∷ st.audits;
}

-- Either is what `store.UpdateHost` and `store.GetHost` give: a row, `sql.ErrNoRows`, another error.
pub data Row : Type 0 where
  row : Host → Row
  missing failed : Row

abbrev pub row_of : Option Host → Row
row_of none = missing
row_of (some h) = row h

unfoldable pub get_host : Bool → ℕ → State → Row
get_host fails id st = if fails then failed else row_of (find id_of id st.hosts)

abbrev pub is_missing : Option Host → Bool
is_missing none = true
is_missing (some h) = false

unfoldable pub update_host : Request → ℕ → HostInput → State → State × Row
update_host rq id in_ st =
    if rq.fails write_host
    then (st, failed)
    else if is_missing (find id_of id st.hosts)
    then (st, missing)
    else (write_row id rq.now in_ st, get_host (rq.fails read_back) id (write_row id rq.now in_ st))
