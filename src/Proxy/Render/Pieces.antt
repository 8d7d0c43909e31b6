-- ===== src/Proxy/Render/Pieces.antt =====
-- internal/proxy/manager.go: the texts of which the blocks of the configuration are made.
pub mod Directives
pub mod Stripped
use zent_proxy.Base.{
  ℕ, ◌+◌, ◌-◌, ◌*◌, ◌/◌, ◌^◌, Bool, true, false, ◌&&◌, ◌||◌, Option, none, some, List, [], ◌∷◌,
  ◌++◌, map, ◌==◌, if◌then◌else◌, Text, lit,
}
use zent_proxy.Strings.Trim.{is_nil, trim_space, to_lower}
use zent_proxy.Strings.Search.{has_prefix, has_suffix, contains, contains_any}
use zent_proxy.Strings.Split.{split, join}
use zent_proxy.Regex.{Regex, class, empty, seq, alt, star, opt, plus, full_match}

-- the texts in one, as a `strings.Builder` collects them
unfoldable pub cat : List Text → Text
cat [] = []
cat (s ∷ r) = s ++ cat r

-- a text that is written under a condition
unfoldable pub when : Bool → Text → Text
when true s = s
when false s = []

unfoldable pub line_stops : Text
line_stops = lit "\r\n;\""

unfoldable pub nginx_file_path : Text → Text → Text
nginx_file_path raw fallback =
    let v = trim_space raw in if is_nil v || contains_any v line_stops then fallback else v

unfoldable pub default_certificate : Text
default_certificate = lit "/data/certs/default/fullchain.pem"

unfoldable pub nginx_path : Text → Text
nginx_path v = nginx_file_path v default_certificate

unfoldable pub slash_for_backslash : ℕ → ℕ
slash_for_backslash c = if c == b'\\' then b'/' else c

unfoldable pub nginx_quote : Text → Text
nginx_quote raw =
    let v = map slash_for_backslash (trim_space raw) in
    if contains_any v (lit "\r\n;") then lit "/data" else v

unfoldable pub blank_for_break : ℕ → ℕ
blank_for_break c = if c == b'\n' || c == b'\r' then b' ' else c

unfoldable pub safe_comment : Text → Text
safe_comment v = map blank_for_break v

-- `strings.ReplaceAll(v, "\r\n", "\n")`
unfoldable pub unix_lines : Text → Text
unix_lines [] = []
unix_lines (c ∷ []) = c ∷ []
unix_lines (c ∷ d ∷ s) =
    let rest = unix_lines (d ∷ s) in if c == b'\r' && d == b'\n' then rest else c ∷ rest

unfoldable pub indent_line : Text → Text → Text
indent_line indent line = (if is_nil line then [] else indent ++ line) ++ (b'\n' ∷ [])

unfoldable pub indent_config : Text → Text → Text
indent_config v indent = cat (map (indent_line indent) (split b'\n' (unix_lines v)))

abbrev pub ends_directive : Option Text → Bool
ends_directive none = false
ends_directive (some s) =
    let rest = trim_space s in
    has_suffix (lit ";") rest || contains rest (lit "; #") || contains rest (lit ";#")

-- The text without as many bytes as another has.
unfoldable pub drop_same : Text → Text → Text
drop_same [] s = s
drop_same (p ∷ ps) [] = []
drop_same (p ∷ ps) (c ∷ s) = drop_same ps s

-- What stands behind the directive, whatever its case.
unfoldable pub strip_folded : Text → Text → Option Text
strip_folded directive line =
    if has_prefix directive (to_lower line) then some (drop_same directive line) else none

-- is the line one whole directive of the real IP module?
unfoldable pub is_managed_as : Text → Text → Bool
is_managed_as directive line = ends_directive (strip_folded directive (trim_space line))

unfoldable pub is_managed : Text → Bool
is_managed line =
    is_managed_as (lit "set_real_ip_from") line
    || is_managed_as (lit "real_ip_header") line
    || is_managed_as (lit "real_ip_recursive") line

unfoldable pub unmanaged : List Text → List Text
unmanaged [] = []
unmanaged (l ∷ ls) = if is_managed l then unmanaged ls else l ∷ unmanaged ls

unfoldable pub strip_managed_real_ip_directives : Text → Text
strip_managed_real_ip_directives v =
    if is_nil (trim_space v) then v else join b'\n' (unmanaged (split b'\n' v))

unfoldable pub is_blank : ℕ → Bool
is_blank c = c == 32 || c == 9 || c == 10 || c == 12 || c == 13

unfoldable pub is_byte : ℕ → ℕ → Bool
is_byte b c = c == b

unfoldable pub re_word : Text → Regex
re_word [] = empty
re_word (c ∷ s) = seq (class (is_byte c)) (re_word s)

unfoldable pub any_byte : ℕ → Bool
any_byte c = true

-- `(?m)^\s*location\s+(?:=|~\*?|\^~)?\s*/(?:\s|\{)` somewhere in the text
unfoldable pub default_location_re : Regex
default_location_re = seq (opt (seq (star (class any_byte)) (class (is_byte b'\n')))) (
    seq (star (class is_blank)) (
      seq (re_word (lit "location")) (
        seq (plus (class is_blank)) (
          seq
            (opt (
              alt (re_word (lit "="))
                (alt (seq (re_word (lit "~")) (opt (re_word (lit "*")))) (re_word (lit "^~")))))
            (seq (star (class is_blank)) (
              seq (class (is_byte b'/'))
                (seq (alt (class is_blank) (class (is_byte b'{'))) (star (class any_byte)))))))))

unfoldable pub without_comments : List Text → Text
without_comments [] = []
without_comments (l ∷ ls) =
    let rest = without_comments ls in
    if has_prefix (lit "#") (trim_space l) then rest else l ++ (b'\n' ∷ rest)

unfoldable pub advanced_has_default_location : Text → Bool
advanced_has_default_location v = full_match default_location_re (without_comments (split b'\n' v))

-- Opens the module for a test.
unfoldable pub pieces : Unit {0}
unfolding cat when line_stops nginx_file_path default_certificate nginx_path slash_for_backslash
    nginx_quote blank_for_break safe_comment unix_lines indent_line indent_config strip_folded
    drop_same is_managed_as is_managed unmanaged strip_managed_real_ip_directives is_blank is_byte
    re_word any_byte default_location_re without_comments advanced_has_default_location
pieces = tt
