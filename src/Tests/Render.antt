-- ===== src/Tests/Render.antt =====
-- The text of the configuration.
use zent_proxy.Base.{◌≡◌, refl, Bool, true, false, List, [], ◌∷◌, ◌++◌, Text, lit}
use zent_proxy.Tests.{net, proxy, blog_host, blog_host-IsAccepted}
use zent_proxy.Model.{AccessRule}
use zent_proxy.Strings.Trim.{is_nil, trim_space}
use zent_proxy.Strings.Search.{contains_any}
use zent_proxy.Strings.Equality.{text_eq}
use zent_proxy.Strings.Split.{split}
use zent_proxy.Strings.{strings}
use zent_proxy.Proxy.Render.Pieces.{pieces, strip_managed_real_ip_directives, nginx_file_path}
use zent_proxy.Proxy.Render.Pieces.Stripped.{AreStripped, strip_managed_real_ip_directives-lines}
use zent_proxy.Proxy.Render.Access.{access, valid_access_address, access_rules}
use zent_proxy.Proxy.Render.Access.Whitelist.{lets_in, first_match}
use zent_proxy.Proxy.Render.Server.{server_name_line}
use zent_proxy.Proxy.Render.Server.Names.{stops, server_name_line-stops}

server_name_line-stops_example :
    (names : Text) × (server_name_line blog_host.domains
      ≡ lit "        server_name " ++ (names ++ lit ";\n"))
    × (contains_any names stops ≡ false)
server_name_line-stops_example = server_name_line-stops net blog_host blog_host-IsAccepted

abbrev allow_lan : List AccessRule
allow_lan = (record { address = lit "10.0.0.7"; directive = lit "Allow" }) ∷ []

-- a client outside of every network
abbrev only_all : Text → Bool
only_all a = text_eq a (lit "all")

stranger-stays_out : lets_in only_all (access_rules net allow_lan) ≡ false
unfolding proxy access lets_in first_match
stranger-stays_out = refl

abbrev added : Text
added = lit "Real_IP_Header X-Real-IP;\ngzip on;"

added-is_nil : is_nil (trim_space added) ≡ false
unfolding strings lit
added-is_nil = refl

added-stripped : strip_managed_real_ip_directives added ≡ lit "gzip on;"
unfolding strings lit pieces
added-stripped = refl

strip_managed_real_ip_directives-lines_example :
    AreStripped (split b'\n' added) (split b'\n' (strip_managed_real_ip_directives added))
strip_managed_real_ip_directives-lines_example =
    strip_managed_real_ip_directives-lines added added-is_nil

path-replaced : nginx_file_path (lit "/a; root /;") (lit "/none") ≡ lit "/none"
unfolding strings lit pieces
path-replaced = refl

-- A rule whose address is none is not written; without it the list lets everyone in.
abbrev allow_mistyped : List AccessRule
allow_mistyped = (record { address = lit "10.0.0.300/8"; directive = lit "allow" }) ∷ []

mistyped-lets_in : lets_in only_all (access_rules net allow_mistyped) ≡ true
unfolding proxy access lets_in first_match
mistyped-lets_in = refl

-- ALL passes for the name of a host.
capitals-valid : valid_access_address net (lit "ALL") ≡ true
unfolding proxy access strings lit
capitals-valid = refl
