-- ===== src/Api/Providers.antt =====
-- internal/api/server.go: listing, creating, updating, deleting and refreshing trusted proxy
-- providers, with the rows of internal/db/store.go.
pub mod Normal
pub mod Sound
pub mod Run
use zent_proxy.Base.{
  ℕ, zero, suc, ◌+◌, ◌⊎◌, inl, inr, Bool, true, false, not, ◌&&◌, ◌||◌, Option, none, some, List,
  [], ◌∷◌, ◌++◌, map, ltb, leb, ◌==◌, if◌then◌else◌, length, Text, lit,
}
use zent_proxy.Model.{TrustedProxyProvider, TrustedProxyProviderInput}
use zent_proxy.Net.{Net}
use zent_proxy.Strings.Equality.{text_eq, has}
use zent_proxy.Strings.Trim.{is_nil, trim_space}
use zent_proxy.Strings.Sorting.{sort_by, sort_texts}
use zent_proxy.Strings.Search.{member}
use zent_proxy.Strings.Decimal.{itoa}
use zent_proxy.Store.Rows.{find, replace, remove}
use zent_proxy.Store.Providers.{
  Call, read_row, write_row, read_back, Registry, Row, row, missing, failed, id_of, listed_before,
  get_provider, apply,
}
use zent_proxy.Providers.{Trip, Result, refresh, refresh_all}
use zent_proxy.Api.State.{Outcome}

pub data ProviderError : Type 0 where
  name_is_required name_is_too_long header_is_invalid no_addresses too_many : ProviderError
  invalid_address : Text → ProviderError

unfoldable pub is_header_byte : ℕ → Bool
is_header_byte c =
    (leb 97 c && leb c 122)
    || (leb 65 c && leb c 90)
    || (leb 48 c && leb c 57)
    || member c (lit "!#$%&'*+-.^_`|~")

unfoldable pub all_header_bytes : Text → Bool
all_header_bytes [] = true
all_header_bytes (c ∷ s) = is_header_byte c && all_header_bytes s

unfoldable pub valid_header_name : Text → Bool
valid_header_name v = if is_nil v then false else all_header_bytes v

-- one entry of the list: blank, the value it stands for, or an error
pub data Entry : Type 0 where
  blank : Entry
  value : Text → Entry
  bad : Text → Entry

abbrev pub address_entry : Text → Option Text → Entry
address_entry raw (some v) = value v
address_entry raw none = bad raw

abbrev pub prefix_entry : Net → Text → Option Text → Entry
prefix_entry net raw (some v) = value v
prefix_entry net raw none = address_entry raw (net.parse_addr raw)

unfoldable pub entry_of : Net → Text → Entry
entry_of net raw =
    let line = trim_space raw in
    if is_nil line then blank else prefix_entry net line (net.parse_prefix line)

unfoldable pub add_value : Text → List Text → List Text
add_value v acc = if has v acc then acc else acc ++ (v ∷ [])

-- the loop over the list, with what it has collected
unfoldable pub collect : Net → List Text → List Text → List Text ⊎ ProviderError
collect net [] acc = inl acc
collect net (raw ∷ rest) acc = elim (entry_of net raw) [
  | blank ↦ collect net rest acc
  | value v ↦ collect net rest (add_value v acc)
  | bad line ↦ inr (invalid_address line)
]

abbrev pub max_addresses : ℕ
max_addresses = 5000

abbrev pub with_cidrs :
    TrustedProxyProviderInput
    → List Text ⊎ ProviderError
    → TrustedProxyProviderInput ⊎ ProviderError
with_cidrs in_ (inr e) = inr e
with_cidrs in_ (inl []) = inr no_addresses
with_cidrs in_ (inl (c ∷ cs)) =
    if ltb max_addresses (length (c ∷ cs))
    then inr too_many
    else inl (record in_ { cidrs = sort_texts (c ∷ cs) })

unfoldable pub normalize_provider_input :
    Net → TrustedProxyProviderInput → TrustedProxyProviderInput ⊎ ProviderError
normalize_provider_input net raw =
    let in_ : TrustedProxyProviderInput = record raw {
      name = trim_space raw.name;
      header = trim_space raw.header;
    } in
    if is_nil in_.name
    then inr name_is_required
    else if ltb 100 (length in_.name)
    then inr name_is_too_long
    else if is_nil in_.header || not (valid_header_name in_.header)
    then inr header_is_invalid
    else with_cidrs in_ (collect net in_.cidrs [])

pub record ProviderRequest : Type 0 where
  pub path_id : Option ℕ
  -- the body, where it is decoded
  pub body : Option TrustedProxyProviderInput
  pub now : ℕ
  pub actor : Text
  -- what follows "custom-", made of the time
  pub slug : Text
  pub fails : Call → Bool

pub data ProviderReply : Type 0 where
  bad_request : ProviderReply
  invalid : ProviderError → ProviderReply
  -- the status and the message, without the text of an error that the code appends to it
  rejected_with : ℕ → Text → ProviderReply
  saved : ℕ → TrustedProxyProvider → ProviderReply
  -- how many hosts were reset
  deleted : ℕ → ProviderReply
  listed : List TrustedProxyProvider → ProviderReply

unfoldable pub is_manual : TrustedProxyProvider → Bool
is_manual p = text_eq p.kind (lit "manual")

unfoldable pub new_provider : ℕ → Text → TrustedProxyProviderInput → TrustedProxyProvider
new_provider id slug in_ = record {
  id = id;
  slug = slug;
  name = in_.name;
  kind = lit "manual";
  header = in_.header;
  auto_update = false;
  source_ipv4 = [];
  source_ipv6 = [];
  cidrs = in_.cidrs;
  last_checked = none;
  next_check = none;
  last_changed = none;
  last_error = [];
}

unfoldable pub insert_provider : Text → TrustedProxyProviderInput → Registry → Registry
insert_provider slug in_ st = record st {
  providers = st.providers ++ (new_provider st.next_id slug in_ ∷ []);
  next_id = suc st.next_id;
}

unfoldable pub create_provider :
    ProviderRequest → Text → TrustedProxyProviderInput → Registry → Registry × Row
create_provider rq slug in_ st = if rq.fails write_row then (st, failed) else (
  insert_provider slug in_ st,
  get_provider (rq.fails read_back) st.next_id (insert_provider slug in_ st),
)

-- … WHERE id=? AND kind='manual'
unfoldable pub edited : TrustedProxyProviderInput → TrustedProxyProvider → TrustedProxyProvider
edited in_ p =
    if is_manual p
    then record p { name = in_.name; header = in_.header; cidrs = in_.cidrs; last_error = [] }
    else p

abbrev pub is_manual_row : Option TrustedProxyProvider → Bool
is_manual_row none = false
is_manual_row (some p) = is_manual p

unfoldable pub edit_provider : ℕ → TrustedProxyProviderInput → Registry → Registry
edit_provider id in_ st = record st { providers = replace id_of id (edited in_) st.providers }

unfoldable pub update_provider :
    ProviderRequest → ℕ → TrustedProxyProviderInput → Registry → Registry × Row
update_provider rq id in_ st =
    if rq.fails write_row
    then (st, failed)
    else if not (is_manual_row (find id_of id st.providers))
    then (st, missing)
    else (edit_provider id in_ st, get_provider (rq.fails read_back) id (edit_provider id in_ st))

abbrev pub refers : ℕ → Option ℕ → Bool
refers id none = false
refers id (some k) = k == id

unfoldable pub count_references : ℕ → List (Option ℕ) → ℕ
count_references id [] = 0
count_references id (r ∷ rs) = (if refers id r then 1 else 0) + count_references id rs

-- ON DELETE SET NULL
unfoldable pub drop_references : ℕ → List (Option ℕ) → List (Option ℕ)
drop_references id [] = []
drop_references id (r ∷ rs) = (if refers id r then none else r) ∷ drop_references id rs

unfoldable pub references_to : ℕ → Registry → ℕ
references_to id st =
    count_references id st.hosts
    + count_references id st.redirect_hosts
    + count_references id st.dead_hosts

unfoldable pub remove_provider : ℕ → Registry → Registry
remove_provider id st = record st {
  providers = remove id_of id st.providers;
  hosts = drop_references id st.hosts;
  redirect_hosts = drop_references id st.redirect_hosts;
  dead_hosts = drop_references id st.dead_hosts;
}

-- The row is looked for again, and its kind tested again, in one transaction.
unfoldable pub delete_provider : ProviderRequest → ℕ → Registry → Registry × Option ℕ
delete_provider rq id st =
    if rq.fails write_row || not (is_manual_row (find id_of id st.providers))
    then (st, none)
    else (remove_provider id st, some (references_to id st))

unfoldable pub log : ProviderRequest → Text → ℕ → Text → Registry → Registry
log rq action id detail st = record st {
  audits =
      (record {
        at = rq.now;
        actor = rq.actor;
        action = action;
        object_type = lit "trusted-proxy-provider";
        object_id = id;
        detail = detail;
      })
      ∷ st.audits;
}

abbrev pub with_next_check : Option ℕ → TrustedProxyProvider → TrustedProxyProvider
with_next_check next p = if p.auto_update then record p { next_check = next } else p

-- `next` is `NextCheck` of the manager of the downloads.
unfoldable pub providers_list : Bool → Option ℕ → Registry → ProviderReply
providers_list fails next st =
    if fails
    then rejected_with 500 (lit "cannot list providers")
    else listed (map (with_next_check next) (sort_by listed_before st.providers))

abbrev pub not_found : ProviderReply
not_found = rejected_with 404 (lit "provider not found")

-- the detail of the audit entry of a deletion
unfoldable pub delete_detail : Text → ℕ → Text
delete_detail name zero = name
delete_detail name (suc n) =
    name
    ++ (lit " "
        ++ ((194 ∷ 183 ∷ [])
            ++ (lit " " ++ (itoa (suc n) ++ lit " host(s) reset to Direct / None"))))

module _ (net : Net) where
  abbrev pub finish_create : ProviderRequest → Registry × Row → Registry × ProviderReply
  finish_create rq (st, row p) = (log rq (lit "create") p.id p.name st, saved 201 p)
  finish_create rq (st, missing) = (st, rejected_with 500 (lit "cannot create provider"))
  finish_create rq (st, failed) = (st, rejected_with 500 (lit "cannot create provider"))

  abbrev pub create_input :
      ProviderRequest
      → TrustedProxyProviderInput ⊎ ProviderError
      → Registry
      → Registry × ProviderReply
  create_input rq (inr e) st = (st, invalid e)
  create_input rq (inl in_) st =
      finish_create rq (create_provider rq (lit "custom-" ++ rq.slug) in_ st)

  abbrev pub create_body :
      ProviderRequest → Option TrustedProxyProviderInput → Registry → Registry × ProviderReply
  create_body rq none st = (st, bad_request)
  create_body rq (some raw) st = create_input rq (normalize_provider_input net raw) st

  unfoldable pub provider_create : ProviderRequest → Registry → Registry × ProviderReply
  provider_create rq st = create_body rq rq.body st

  module _ (outcome : ℕ → List TrustedProxyProvider → Outcome) where
    abbrev pub finish_update :
        ProviderRequest → ℕ → TrustedProxyProvider → Registry × Bool → Registry × ProviderReply
    finish_update rq id p (st, true) = (log rq (lit "update") id p.name st, saved 200 p)
    finish_update rq id p (st, false) =
        (st, rejected_with 500 (lit "provider saved but proxy reload failed: "))

    abbrev pub after_update : ProviderRequest → ℕ → Registry × Row → Registry × ProviderReply
    after_update rq id (st, row p) = finish_update rq id p (apply outcome st)
    after_update rq id (st, missing) = (st, rejected_with 500 (lit "cannot update provider"))
    after_update rq id (st, failed) = (st, rejected_with 500 (lit "cannot update provider"))

    abbrev pub update_input :
        ProviderRequest
        → ℕ
        → TrustedProxyProviderInput ⊎ ProviderError
        → Registry
        → Registry × ProviderReply
    update_input rq id (inr e) st = (st, invalid e)
    update_input rq id (inl in_) st = after_update rq id (update_provider rq id in_ st)

    abbrev pub update_body :
        ProviderRequest → ℕ → Option TrustedProxyProviderInput → Registry → Registry × ProviderReply
    update_body rq id none st = (st, bad_request)
    update_body rq id (some raw) st = update_input rq id (normalize_provider_input net raw) st

    abbrev pub update_row : ProviderRequest → ℕ → Row → Registry → Registry × ProviderReply
    update_row rq id missing st = (st, not_found)
    update_row rq id failed st = (st, rejected_with 500 (lit "cannot load provider"))
    update_row rq id (row p) st =
        if not (is_manual p)
        then (st, rejected_with 409 (lit "built-in provider cannot be edited"))
        else update_body rq id rq.body st

    abbrev pub update_id : ProviderRequest → Option ℕ → Registry → Registry × ProviderReply
    update_id rq none st = (st, rejected_with 400 (lit "invalid id"))
    update_id rq (some id) st = update_row rq id (get_provider (rq.fails read_row) id st) st

    unfoldable pub provider_update : ProviderRequest → Registry → Registry × ProviderReply
    provider_update rq st = update_id rq rq.path_id st

    abbrev pub finish_delete :
        ProviderRequest → ℕ → TrustedProxyProvider → ℕ → Registry × Bool → Registry × ProviderReply
    finish_delete rq id p n (st, true) =
        (log rq (lit "delete") id (delete_detail p.name n) st, deleted n)
    finish_delete rq id p n (st, false) =
        (st, rejected_with 500 (lit "provider deleted but proxy reload failed: "))

    abbrev pub after_delete :
        ProviderRequest → ℕ → TrustedProxyProvider → Registry × Option ℕ → Registry × ProviderReply
    after_delete rq id p (st, none) = (st, rejected_with 500 (lit "cannot delete provider"))
    after_delete rq id p (st, some n) = finish_delete rq id p n (apply outcome st)

    abbrev pub delete_row : ProviderRequest → ℕ → Row → Registry → Registry × ProviderReply
    delete_row rq id missing st = (st, not_found)
    delete_row rq id failed st = (st, rejected_with 500 (lit "cannot load provider"))
    delete_row rq id (row p) st =
        if not (is_manual p)
        then (st, rejected_with 409 (lit "built-in provider cannot be deleted"))
        else after_delete rq id p (delete_provider rq id st)

    abbrev pub delete_id : ProviderRequest → Option ℕ → Registry → Registry × ProviderReply
    delete_id rq none st = (st, rejected_with 400 (lit "invalid id"))
    delete_id rq (some id) st = delete_row rq id (get_provider (rq.fails read_row) id st) st

    unfoldable pub provider_delete : ProviderRequest → Registry → Registry × ProviderReply
    provider_delete rq st = delete_id rq rq.path_id st

    module _ (quote : Text → Text) where
      abbrev pub refreshed :
          ProviderRequest → ℕ → Registry × Result net quote → Registry × ProviderReply
      refreshed rq id (st, Result.found p) = (log rq (lit "refresh") id p.name st, saved 200 p)
      refreshed rq id (st, Result.no_row) = (st, not_found)
      refreshed rq id (st, r) = (st, rejected_with 502 [])

      abbrev pub refresh_id :
          ProviderRequest → Trip net quote → Option ℕ → Registry → Registry × ProviderReply
      refresh_id rq t none st = (st, rejected_with 400 (lit "invalid id"))
      refresh_id rq t (some id) st = refreshed rq id (refresh net quote outcome t id st)

      unfoldable pub provider_refresh :
          ProviderRequest → Trip net quote → Registry → Registry × ProviderReply
      provider_refresh rq t st = refresh_id rq t rq.path_id st

      -- the requests that change providers, and the refresh of all, which a timer starts
      pub data ProviderStep : Type 0 where
        create update delete : ProviderRequest → ProviderStep
        refresh_one : ProviderRequest → Trip net quote → ProviderStep
        refresh_every : Bool → (ℕ → Trip net quote) → ProviderStep

      unfoldable pub step : ProviderStep → Registry → Registry
      step (create rq) st = (provider_create rq st).0
      step (update rq) st = (provider_update rq st).0
      step (delete rq) st = (provider_delete rq st).0
      step (refresh_one rq t) st = (provider_refresh rq t st).0
      step (refresh_every fails trips) st = refresh_all net quote outcome fails trips st

      unfoldable pub steps : List ProviderStep → Registry → Registry
      steps [] st = st
      steps (s ∷ ss) st = steps ss (step s st)

-- Opens the component for a test.
unfoldable pub providers_api : Unit {0}
unfolding is_header_byte all_header_bytes valid_header_name entry_of add_value collect
    normalize_provider_input is_manual new_provider insert_provider create_provider edited
    edit_provider update_provider count_references drop_references references_to remove_provider
    delete_provider log providers_list delete_detail provider_create provider_update provider_delete
    provider_refresh step steps
providers_api = tt
