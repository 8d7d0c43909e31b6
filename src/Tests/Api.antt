-- ===== src/Tests/Api.antt =====
-- Requests on hosts.
use zent_proxy.Base.{
  ◌≡◌, refl, true, false, none, some, [], ◌∷◌, map, arith, ◌==◌, if◌then◌else◌, lit,
}
use zent_proxy.Api.Hosts.{hosts_create, host_update, serve, run, api_hosts}
use zent_proxy.Api.State.{create, update, Request, activated, rejected, Env, State}
use zent_proxy.Api.Hosts.Effects.{succeeded, serve-live}
use zent_proxy.Api.Hosts.Sound.{IsSound}
use zent_proxy.Api.Hosts.Invariant.{IsSoundState}
use zent_proxy.Api.Hosts.Invariant.Run.{run-IsSound, none_stored}
use zent_proxy.Api.Hosts.Rollback.{undated, hosts_create-rollback}
use zent_proxy.Api.Hosts.Rollback.Update.{host_update-rollback}
use zent_proxy.Tests.{net, proxy, blog}

-- The second activation fails.
abbrev env : Env
env = record {
  has_provider = λ k. false;
  has_access_list = λ k. false;
  certificate_error = λ k ds. none;
  activation = λ n hosts. if n == 1 then rejected else activated;
}

abbrev nothing : State
nothing = record { hosts = []; next_id = 1; live = []; activations = 0; audits = [] }

abbrev create_blog : Request
create_blog = record {
  path_id = none;
  body = some blog;
  now = 5;
  actor = lit "session:admin";
  fails = λ c. false;
}

abbrev rename_blog : Request
rename_blog = record {
  path_id = some 1;
  body = some (record blog { name = lit "diary" });
  now = 6;
  actor = lit "session:admin";
  fails = λ c. false;
}

abbrev with_blog : State
with_blog = run net env ((create, create_blog) ∷ []) nothing

create-succeeds : succeeded (serve net env create create_blog nothing).1 ≡ true
unfolding proxy api_hosts succeeded
create-succeeds = refl

serve-live_example :
    (serve net env create create_blog nothing).0.live
    ≡ (serve net env create create_blog nothing).0.hosts
serve-live_example = serve-live net env create create_blog nothing create-succeeds

run-IsSound_example :
    IsSoundState net env (run net env ((create, create_blog) ∷ (update, rename_blog) ∷ []) nothing)
run-IsSound_example =
    run-IsSound net env ((create, create_blog) ∷ (update, rename_blog) ∷ []) nothing refl
      (omega arith)

with_blog-IsSound : IsSound net with_blog.hosts with_blog.next_id
with_blog-IsSound = run-IsSound net env ((create, create_blog) ∷ []) nothing refl (omega arith)

rename-fails : succeeded (host_update net env rename_blog with_blog).1 ≡ false
unfolding proxy api_hosts succeeded
rename-fails = refl

host_update-rollback_example :
    map undated (host_update net env rename_blog with_blog).0.hosts ≡ map undated with_blog.hosts
host_update-rollback_example =
    host_update-rollback net env rename_blog with_blog with_blog-IsSound refl refl rename-fails

abbrev later : State
later = record nothing { activations = 1 }

create-fails : succeeded (hosts_create net env create_blog later).1 ≡ false
unfolding proxy api_hosts succeeded
create-fails = refl

hosts_create-rollback_example : (hosts_create net env create_blog later).0.hosts ≡ []
hosts_create-rollback_example =
    hosts_create-rollback net env create_blog later (none_stored net env later refl (omega arith))
      refl refl create-fails
