-- ===== src/Store/Providers.antt =====
-- internal/db/store.go: the rows of trusted proxy providers and what refers to them, with the
-- providers of the configuration on disk.
use zent_proxy.Base.{ℕ, suc, Bool, true, false, Option, none, some, List, if◌then◌else◌, Text}
use zent_proxy.Model.{TrustedProxyProvider}
use zent_proxy.Strings.Sorting.{text_le}
use zent_proxy.Store.Rows.{find, replace}
use zent_proxy.Api.State.{Audit, Outcome, activated, rejected, broken}

-- the calls that may fail
pub data Call : Type 0 where
  read_row write_row read_back : Call

pub record Registry : Type 0 where
  pub providers : List TrustedProxyProvider
  pub next_id : ℕ
  -- the column `trusted_proxy_provider_id` of the three tables
  pub hosts : List (Option ℕ)
  pub redirect_hosts : List (Option ℕ)
  pub dead_hosts : List (Option ℕ)
  -- the providers of the configuration on disk
  pub live : List TrustedProxyProvider
  pub activations : ℕ
  pub audits : List Audit

pub data Row : Type 0 where
  row : TrustedProxyProvider → Row
  missing failed : Row

unfoldable pub id_of : TrustedProxyProvider → ℕ
id_of p = p.id

-- ORDER BY name
unfoldable pub listed_before : TrustedProxyProvider → TrustedProxyProvider → Bool
listed_before p q = text_le p.name q.name

abbrev pub row_of : Option TrustedProxyProvider → Row
row_of none = missing
row_of (some p) = row p

unfoldable pub get_provider : Bool → ℕ → Registry → Row
get_provider fails id st = if fails then failed else row_of (find id_of id st.providers)

-- the statement of `store.UpdateProviderResult` that `changed` chooses, on a row
unfoldable pub write_result :
    List Text → ℕ → Bool → Text → TrustedProxyProvider → TrustedProxyProvider
write_result cidrs now true e p = record p {
  cidrs = cidrs;
  last_checked = some now;
  last_changed = some now;
  last_error = e;
}
write_result cidrs now false e p = record p { last_checked = some now; last_error = e }

unfoldable pub update_provider_result :
    Bool → ℕ → List Text → ℕ → Bool → Text → Registry → Registry × Bool
update_provider_result fails id cidrs now changed e st = if fails then (st, false) else (
  record st { providers = replace id_of id (write_result cidrs now changed e) st.providers },
  true,
)

abbrev pub activate_as : Outcome → Registry → Registry × Bool
activate_as activated st =
    (record st { live = st.providers; activations = suc st.activations }, true)
activate_as rejected st = (record st { activations = suc st.activations }, false)
activate_as broken st = (record st { live = st.providers; activations = suc st.activations }, false)

-- `proxy.Apply` on the providers of the store
unfoldable pub apply : (ℕ → List TrustedProxyProvider → Outcome) → Registry → Registry × Bool
apply outcome st = activate_as (outcome st.activations st.providers) st
