-- ===== src/Tests/Update.antt =====
-- Versions and checks for a newer release.
use zent_proxy.Base.{◌≡◌, refl, true, false, some, [], ◌∷◌, arith, lit}
use zent_proxy.Strings.{strings}
use zent_proxy.Strings.Trim.{trim_space}
use zent_proxy.Api.Update.{
  Semver, parse_semver, greater_than, show_semver, GithubReply, unreached, replied,
  new_release_checker, status, statuses, updates,
}
use zent_proxy.Api.Update.Versions.{parse_semver-show_semver}
use zent_proxy.Api.Update.Honest.{IsHonest, status-IsHonest}

abbrev newer : Semver
newer = record { major = 1; minor = 10; patch = 0 }

abbrev older : Semver
older = record { major = 1; minor = 9; patch = 12 }

parse-newer : parse_semver (lit " v1.10.0-rc1+build ") ≡ some newer
unfolding strings updates zent_proxy.Strings.Atoi.read_digits
parse-newer = refl

newer-greater : greater_than newer older ≡ true
unfolding updates
newer-greater = refl

parse_semver-show_semver_example : parse_semver (show_semver newer) ≡ some newer
parse_semver-show_semver_example =
    parse_semver-show_semver newer (omega arith, omega arith, omega arith)

abbrev release : GithubReply
release = replied 200 (
    some (record {
      tag_name = lit "v1.10.0";
      html_url = lit "https://example.com/";
      draft = false;
      prerelease = false;
    }))

announced : (status (new_release_checker (lit "1.9.12")) 5 release).1.update_available ≡ true
unfolding strings updates zent_proxy.Strings.Atoi.read_digits
announced = refl

status-IsHonest_example :
    IsHonest
      (trim_space (lit " 1.9.12"))
      (status (statuses ((5, unreached) ∷ []) (new_release_checker (lit " 1.9.12"))) 6 release).1
status-IsHonest_example = status-IsHonest (lit " 1.9.12") ((5, unreached) ∷ []) 6 release
