-- ===== src/Api/ZentLoop.antt =====
-- internal/api/server.go: saving the settings of ZentLoop, with the row of internal/db/store.go.
pub mod Valid
pub mod Run
use zent_proxy.Base.{
  ℕ, suc, ◌+◌, ◌-◌, ◌*◌, ◌/◌, ◌⊎◌, inl, inr, Bool, true, false, not, ◌&&◌, ◌||◌, Option, none, some,
  List, [], ◌∷◌, ◌++◌, map, if◌then◌else◌, Text, lit,
}
use zent_proxy.Model.{ZentLoopIpList, ZentLoopRule, ZentLoopConfig}
use zent_proxy.Net.{Net}
use zent_proxy.Strings.Equality.{text_eq, has}
use zent_proxy.Strings.Trim.{is_nil, trim_space, to_lower}
use zent_proxy.Strings.Search.{has_prefix, contains_any}
use zent_proxy.Api.State.{Outcome, activated, rejected, broken}

-- what the program uses of a parsed URL
pub record UpstreamUrl : Type 0 where
  pub scheme : Text
  pub host : Text
  pub has_user : Bool

pub data ZentLoopError : Type 0 where
  list_names rule_fields rule_match rule_action rule_path invalid_upstream : ZentLoopError
  invalid_entry : Text → ZentLoopError
  unknown_list : Text → ZentLoopError

-- an address or a prefix, or neither
abbrev pub or_address : Net → Text → Option Text → Bool
or_address net v (some p) = true
or_address net v none = elim (net.parse_addr v) [ none ↦ false | some a ↦ true ]

unfoldable pub is_address : Net → Text → Bool
is_address net v = or_address net v (net.parse_prefix v)

abbrev pub cons_entry : Text → List Text ⊎ ZentLoopError → List Text ⊎ ZentLoopError
cons_entry v (inr e) = inr e
cons_entry v (inl vs) = inl (v ∷ vs)

-- the entries of one list, trimmed, without blank ones
unfoldable pub clean_entries : Net → List Text → List Text ⊎ ZentLoopError
clean_entries net [] = inl []
clean_entries net (raw ∷ rest) =
    let cleaned = clean_entries net rest in
    let v = trim_space raw in
    if is_nil v
    then cleaned
    else if not (is_address net v)
    then inr (invalid_entry v)
    else cons_entry v cleaned

abbrev pub Lists : Type 0
Lists = List ZentLoopIpList

abbrev pub cons_list : ZentLoopIpList → Lists ⊎ ZentLoopError → Lists ⊎ ZentLoopError
cons_list l (inr e) = inr e
cons_list l (inl ls) = inl (l ∷ ls)

abbrev pub with_entries :
    Text → List Text ⊎ ZentLoopError → Lists ⊎ ZentLoopError → Lists ⊎ ZentLoopError
with_entries name (inr e) rest = inr e
with_entries name (inl entries) rest = cons_list (record { name = name; entries = entries }) rest

-- the lists, where `names` are the names of those before, in lower case
unfoldable pub clean_lists : Net → List Text → Lists → Lists ⊎ ZentLoopError
clean_lists net names [] = inl []
clean_lists net names (l ∷ ls) =
    let name = trim_space l.name in
    let rest = clean_lists net (to_lower name ∷ names) ls in
    if is_nil name || has (to_lower name) names
    then inr list_names
    else with_entries name (clean_entries net l.entries) rest

abbrev pub Rules : Type 0
Rules = List ZentLoopRule

-- blanks, ends of lines, braces and the semicolon
abbrev pub directive_bytes : Text
directive_bytes = lit " " ++ (9 ∷ 13 ∷ 10 ∷ lit "{};")

unfoldable pub is_list_rule : ZentLoopRule → Bool
is_list_rule r = text_eq r.match (lit "source_ip_list")

unfoldable pub normal_rule : ZentLoopRule → ZentLoopRule
normal_rule r = record r {
  name = trim_space r.name;
  match = to_lower (trim_space r.match);
  value = trim_space r.value;
  action = to_lower (trim_space r.action);
}

-- what is wrong with a rule, in the order of the tests
unfoldable pub rule_error : List Text → ZentLoopRule → Option ZentLoopError
rule_error names r =
    if is_nil r.name || is_nil r.value
    then some rule_fields
    else if not (
        is_list_rule r
        || (text_eq r.match (lit "path_exact") || text_eq r.match (lit "path_prefix")))
    then some rule_match
    else if not (text_eq r.action (lit "zentloop") || text_eq r.action (lit "block"))
    then some rule_action
    else if is_list_rule r && not (has (to_lower r.value) names)
    then some (unknown_list r.value)
    else if not (is_list_rule r)
        && (not (has_prefix (lit "/") r.value) || contains_any r.value directive_bytes)
    then some rule_path
    else none

abbrev pub cons_rule :
    Option ZentLoopError → ZentLoopRule → Rules ⊎ ZentLoopError → Rules ⊎ ZentLoopError
cons_rule (some e) r rest = inr e
cons_rule none r (inr e) = inr e
cons_rule none r (inl rs) = inl (r ∷ rs)

unfoldable pub clean_rules : List Text → Rules → Rules ⊎ ZentLoopError
clean_rules names [] = inl []
clean_rules names (r ∷ rs) =
    let rest = clean_rules names rs in
    cons_rule (rule_error names (normal_rule r)) (normal_rule r) rest

unfoldable pub names_of : Lists → List Text
names_of [] = []
names_of (l ∷ ls) = to_lower l.name ∷ names_of ls

abbrev pub mask : Text
mask = lit "********"

unfoldable pub normal_fallback : Text → Text
normal_fallback f = if text_eq f (lit "503") then f else lit "block"

abbrev pub is_empty : {A : Type 0} → List A → Bool
is_empty [] = true
is_empty (x ∷ xs) = false

-- What a disabled integration does not send is kept.
unfoldable pub with_old : ZentLoopConfig → ZentLoopConfig → ZentLoopConfig
with_old old in_ = if in_.enabled then in_ else record in_ {
  upstream = if is_nil in_.upstream then old.upstream else in_.upstream;
  ip_lists = if is_empty in_.ip_lists then old.ip_lists else in_.ip_lists;
  rules = if is_empty in_.rules then old.rules else in_.rules;
}

unfoldable pub trimmed : ZentLoopConfig → ZentLoopConfig
trimmed in_ = record in_ {
  upstream = trim_space in_.upstream;
  fallback = normal_fallback (to_lower (trim_space in_.fallback));
}

unfoldable pub with_default : Text → Text
with_default u = if is_nil u then lit "http://zentloop:8080" else u

abbrev pub is_usable : Option UpstreamUrl → Bool
is_usable none = false
is_usable (some u) =
    (text_eq u.scheme (lit "http") || text_eq u.scheme (lit "https"))
    && (not (is_nil u.host) && not u.has_user)

unfoldable pub unmasked : Text → Text → Text
unmasked old secret = if text_eq secret mask then old else secret

-- `parse_url` is `url.Parse`, where it gives no error.
module _ (net : Net) (parse_url : Text → Option UpstreamUrl) where
  abbrev pub with_rules :
      ZentLoopConfig
      → ZentLoopConfig
      → Lists
      → Rules ⊎ ZentLoopError
      → ZentLoopConfig ⊎ ZentLoopError
  with_rules old in_ lists (inr e) = inr e
  with_rules old in_ lists (inl rules) =
      if in_.enabled && not (is_usable (parse_url (with_default in_.upstream)))
      then inr invalid_upstream
      else inl (record in_ {
        ip_lists = lists;
        rules = rules;
        upstream = with_default in_.upstream;
        secret = unmasked old.secret in_.secret;
      })

  abbrev pub with_lists :
      ZentLoopConfig → ZentLoopConfig → Lists ⊎ ZentLoopError → ZentLoopConfig ⊎ ZentLoopError
  with_lists old in_ (inr e) = inr e
  with_lists old in_ (inl lists) = with_rules old in_ lists (clean_rules (names_of lists) in_.rules)

  unfoldable pub accept_config : ZentLoopConfig → ZentLoopConfig → ZentLoopConfig ⊎ ZentLoopError
  accept_config old raw =
      let in_ = with_old old (trimmed raw) in with_lists old in_ (clean_lists net [] in_.ip_lists)

pub data ConfigCall : Type 0 where
  read_config write_config undo_config : ConfigCall

pub record ConfigRequest : Type 0 where
  -- the body, where it is decoded
  pub body : Option ZentLoopConfig
  pub now : ℕ
  pub actor : Text
  pub fails : ConfigCall → Bool

pub data ConfigReply : Type 0 where
  bad_request : ConfigReply
  invalid : ZentLoopError → ConfigReply
  -- the status and the message, without the text of an error that the code appends to it
  failed : ℕ → Text → ConfigReply
  -- the settings as they are shown, the secret masked
  shown : ZentLoopConfig → ConfigReply

pub record ConfigAudit : Type 0 where
  pub at : ℕ
  pub actor : Text
  pub action : Text
  pub object_type : Text
  pub object_id : Text
  pub detail : Text

pub record Integration : Type 0 where
  pub stored : ZentLoopConfig
  -- the settings of the configuration on disk
  pub live : ZentLoopConfig
  pub activations : ℕ
  pub audits : List ConfigAudit

unfoldable pub loaded_rule : ZentLoopRule → ZentLoopRule
loaded_rule r = if text_eq r.action (lit "block") then r else record r { action = lit "zentloop" }

-- `store.GetZentLoop`
unfoldable pub loaded : ZentLoopConfig → ZentLoopConfig
loaded c = record c { rules = map loaded_rule c.rules; fallback = normal_fallback c.fallback }

unfoldable pub masked : ZentLoopConfig → ZentLoopConfig
masked c = record c { secret = if is_nil c.secret then [] else mask }

abbrev pub bool_text : Bool → Text
bool_text true = lit "true"
bool_text false = lit "false"

unfoldable pub audited : ConfigRequest → ZentLoopConfig → Integration → Integration
audited rq c st = record st {
  audits =
      (record {
        at = rq.now;
        actor = rq.actor;
        action = lit "update";
        object_type = lit "integration";
        object_id = lit "zentloop";
        detail =
            lit "enabled="
            ++ (bool_text c.enabled
                ++ (lit " forward_unknown_hosts="
                    ++ (bool_text c.forward_unknown_hosts ++ (lit " upstream=" ++ c.upstream))));
      })
      ∷ st.audits;
}

abbrev pub activate_as : Outcome → Integration → Integration × Bool
activate_as activated st = (record st { live = st.stored; activations = suc st.activations }, true)
activate_as rejected st = (record st { activations = suc st.activations }, false)
activate_as broken st = (record st { live = st.stored; activations = suc st.activations }, false)

module _ (net : Net) (parse_url : Text → Option UpstreamUrl)
    (outcome : ℕ → ZentLoopConfig → Outcome) where
  unfoldable pub apply_config : Integration → Integration × Bool
  apply_config st = activate_as (outcome st.activations st.stored) st

  unfoldable pub undo : ConfigRequest → ZentLoopConfig → Integration → Integration
  undo rq old st = if rq.fails undo_config then st else record st { stored = old }

  abbrev pub after_apply :
      ConfigRequest
      → ZentLoopConfig
      → ZentLoopConfig
      → Integration × Bool
      → Integration × ConfigReply
  after_apply rq old c (st, true) = (audited rq c st, shown (masked c))
  after_apply rq old c (st, false) = (
    (apply_config (undo rq old st)).0,
    failed 500 (lit "integration update was rolled back because proxy reload failed: "),
  )

  abbrev pub save :
      ConfigRequest
      → ZentLoopConfig
      → ZentLoopConfig ⊎ ZentLoopError
      → Integration
      → Integration × ConfigReply
  save rq old (inr e) st = (st, invalid e)
  save rq old (inl c) st =
      if rq.fails write_config
      then (st, failed 500 (lit "cannot save integration"))
      else after_apply rq old c (apply_config (record st { stored = c }))

  abbrev pub with_body :
      ConfigRequest
      → ZentLoopConfig
      → Option ZentLoopConfig
      → Integration
      → Integration × ConfigReply
  with_body rq old none st = (st, bad_request)
  with_body rq old (some raw) st = save rq old (accept_config net parse_url old raw) st

  unfoldable pub zent_loop_set : ConfigRequest → Integration → Integration × ConfigReply
  zent_loop_set rq st =
      if rq.fails read_config
      then (st, failed 500 (lit "cannot load integration"))
      else with_body rq (loaded st.stored) rq.body st

  unfoldable pub zent_loop_sets : List ConfigRequest → Integration → Integration
  zent_loop_sets [] st = st
  zent_loop_sets (rq ∷ rqs) st = zent_loop_sets rqs (zent_loop_set rq st).0

-- Opens the component for a test.
unfoldable pub zent_loop_api : Unit {0}
unfolding is_address clean_entries clean_lists is_list_rule normal_rule rule_error clean_rules
    names_of normal_fallback with_old trimmed with_default unmasked accept_config loaded_rule loaded
    masked audited apply_config undo zent_loop_set zent_loop_sets
zent_loop_api = tt
