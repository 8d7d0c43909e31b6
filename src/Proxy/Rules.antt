-- ===== src/Proxy/Rules.antt =====
-- internal/proxy/manager.go: the ZentLoop rules that a host gets: which sources and paths are sent to
-- ZentLoop, and which are blocked.
pub mod Added
pub mod Applied
use zent_proxy.Base.{
  ℕ, ◌+◌, ◌-◌, ◌/◌, Bool, true, false, not, ◌||◌, Option, none, some, List, [], ◌∷◌, ◌++◌, ◌==◌,
  if◌then◌else◌, Text, lit,
}
use zent_proxy.Model.{ZentLoopIpList, ZentLoopRule, ZentLoopConfig}
use zent_proxy.Strings.Equality.{text_eq, has}
use zent_proxy.Strings.Trim.{trim_space, to_lower}
use zent_proxy.Strings.Sorting.{sort_texts}

pub record HostRules : Type 0 where
  pub route_cidrs : List Text
  pub block_cidrs : List Text
  pub route_exact : List Text
  pub route_prefix : List Text
  pub block_exact : List Text
  pub block_prefix : List Text

unfoldable pub list_key : Text → Text
list_key name = to_lower (trim_space name)

-- `lists[key]`: of two lists with one key the later one counts; none has no entries
unfoldable pub list_entries : List ZentLoopIpList → Text → List Text → List Text
list_entries [] key found = found
list_entries (l ∷ ls) key found =
    list_entries ls key (if text_eq (list_key l.name) key then l.entries else found)

unfoldable pub has_id : ℕ → List ℕ → Bool
has_id k [] = false
has_id k (i ∷ is) = i == k || has_id k is

abbrev pub no_ids : List ℕ → Bool
no_ids [] = true
no_ids (i ∷ is) = false

-- a rule with no hosts is for all of them
unfoldable pub applies : ℕ → List ℕ → Bool
applies host_id ids = no_ids ids || has_id host_id ids

-- the local `add`: once in each list, in the order of the rules
unfoldable pub add_once : List Text → Text → List Text
add_once dst v = if has v dst then dst else dst ++ (v ∷ [])

unfoldable pub add_all : List Text → List Text → List Text
add_all dst [] = dst
add_all dst (v ∷ vs) = add_all (add_once dst v) vs

-- What a rule asks for: what it does, and to what. The action of a rule that is neither "block" nor
-- "zentloop" is nothing, and so is the match of one that is none of the three.
pub data Action : Type 0 where
  block zentloop : Action

pub data Kind : Type 0 where
  source_ip_list path_exact path_prefix : Kind

unfoldable pub action_of : Text → Option Action
action_of s =
    if text_eq s (lit "block")
    then some block
    else if text_eq s (lit "zentloop")
    then some zentloop
    else none

unfoldable pub kind_of : Text → Option Kind
kind_of s =
    if text_eq s (lit "source_ip_list")
    then some source_ip_list
    else if text_eq s (lit "path_exact")
    then some path_exact
    else if text_eq s (lit "path_prefix")
    then some path_prefix
    else none

-- the texts that a rule adds: the entries of its list, or its path
unfoldable pub rule_texts : List ZentLoopIpList → Kind → Text → List Text
rule_texts lists source_ip_list value = list_entries lists (to_lower value) []
rule_texts lists path_exact value = value ∷ []
rule_texts lists path_prefix value = value ∷ []

unfoldable pub add_to : Kind → Action → List Text → HostRules → HostRules
add_to source_ip_list block vs r = record r { block_cidrs = add_all r.block_cidrs vs }
add_to source_ip_list zentloop vs r = record r { route_cidrs = add_all r.route_cidrs vs }
add_to path_exact block vs r = record r { block_exact = add_all r.block_exact vs }
add_to path_exact zentloop vs r = record r { route_exact = add_all r.route_exact vs }
add_to path_prefix block vs r = record r { block_prefix = add_all r.block_prefix vs }
add_to path_prefix zentloop vs r = record r { route_prefix = add_all r.route_prefix vs }

abbrev pub add_found :
    List ZentLoopIpList → Option Kind → Option Action → Text → HostRules → HostRules
add_found lists none a value r = r
add_found lists (some k) none value r = r
add_found lists (some k) (some a) value r = add_to k a (rule_texts lists k value) r

-- one round of the loop over the rules
unfoldable pub add_rule : List ZentLoopIpList → ℕ → ZentLoopRule → HostRules → HostRules
add_rule lists host_id rule r =
    if not rule.enabled || not (applies host_id rule.host_ids)
    then r
    else add_found lists (kind_of (to_lower (trim_space rule.match)))
        (action_of (to_lower (trim_space rule.action))) (trim_space rule.value) r

unfoldable pub add_rules : List ZentLoopIpList → ℕ → List ZentLoopRule → HostRules → HostRules
add_rules lists host_id [] r = r
add_rules lists host_id (rule ∷ rules) r =
    add_rules lists host_id rules (add_rule lists host_id rule r)

abbrev pub no_rules : HostRules
no_rules = record {
  route_cidrs = [];
  block_cidrs = [];
  route_exact = [];
  route_prefix = [];
  block_exact = [];
  block_prefix = [];
}

unfoldable pub sort_rules : HostRules → HostRules
sort_rules r = record {
  route_cidrs = sort_texts r.route_cidrs;
  block_cidrs = sort_texts r.block_cidrs;
  route_exact = sort_texts r.route_exact;
  route_prefix = sort_texts r.route_prefix;
  block_exact = sort_texts r.block_exact;
  block_prefix = sort_texts r.block_prefix;
}

unfoldable pub zent_loop_rules_for_host : ZentLoopConfig → ℕ → HostRules
zent_loop_rules_for_host cfg host_id =
    sort_rules (add_rules cfg.ip_lists host_id cfg.rules no_rules)

-- The list of a kind and an action.
abbrev pub chosen : Kind → Action → HostRules → List Text
chosen source_ip_list block r = r.block_cidrs
chosen source_ip_list zentloop r = r.route_cidrs
chosen path_exact block r = r.block_exact
chosen path_exact zentloop r = r.route_exact
chosen path_prefix block r = r.block_prefix
chosen path_prefix zentloop r = r.route_prefix

-- Opens the component for a test.
unfoldable pub rules : Unit {0}
unfolding list_key list_entries has_id applies add_once add_all action_of kind_of rule_texts add_to
    add_rule add_rules sort_rules zent_loop_rules_for_host
rules = tt
