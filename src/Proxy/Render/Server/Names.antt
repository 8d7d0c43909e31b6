-- ===== src/Proxy/Render/Server/Names.antt =====
-- internal/proxy/manager.go: proofs on the line of the names of a server.
use zent_proxy.Base.{
  ℕ, ◌≡◌, refl, ap, subst, inl, inr, true, false, List, [], ◌∷◌, ◌++◌, append-nil, ◌==◌, ==_iff,
  Bool-cases, All, All-append, Text, lit,
}
use zent_proxy.Model.{Host}
use zent_proxy.Net.{Net}
use zent_proxy.Strings.Search.{contains_any, member, contains_any-eq-false_iff}
use zent_proxy.Strings.Split.{join}
use zent_proxy.Proxy.Names.Safe.{IsName, is_name_byte}
use zent_proxy.Proxy.Hosts.{input_of_host}
use zent_proxy.Proxy.Hosts.Accepted.{IsAccepted}
use zent_proxy.Proxy.Render.Pieces.{cat}
use zent_proxy.Proxy.Render.Server.{server_name_line}

-- what would end the line, or the block, or quote
unfoldable pub stops : Text
stops = lit "\r\n;{}\"'#$\\"

not-member :
    (c : ℕ) (set : Text)
    → is_name_byte c ≡ true
    → All (λ d. is_name_byte d ≡ false) set
    → member c set ≡ false
unfolding member
not-member c [] h n = refl
not-member c (d ∷ set) h (p, n) = elim (Bool-cases (c == d)) [
  | inl e ↦
      let q : is_name_byte c ≡ is_name_byte d = ap is_name_byte ((==_iff c d).0 e) in absurd (cc)
  | inr e ↦ rw e (not-member c set h n)
]

stops-is_name_byte : All (λ d. is_name_byte d ≡ false) stops
unfolding stops lit is_name_byte
stops-is_name_byte =
    (refl, (refl, (refl, (refl, (refl, (refl, (refl, (refl, (refl, (refl, tt))))))))))

blank-stops : member b' ' stops ≡ false
unfolding stops member lit
blank-stops = refl

IsName-stops : (s : Text) → All IsName s → All (λ c. member c stops ≡ false) s
IsName-stops [] h = tt
IsName-stops (c ∷ s) (p, h) = (not-member c stops p stops-is_name_byte, IsName-stops s h)

join-stops :
    (ds : List Text) → All (λ d. All IsName d) ds → All (λ c. member c stops ≡ false) (join b' ' ds)
unfolding join
join-stops [] h = tt
join-stops (d ∷ []) (p, h) = IsName-stops d p
join-stops (d ∷ e ∷ ds) (p, h) =
    All-append (λ c. member c stops ≡ false) d (b' ' ∷ join b' ' (e ∷ ds)) (IsName-stops d p)
      (blank-stops, join-stops (e ∷ ds) h)

input_of_host-domains : (h : Host) → (input_of_host h).domains ≡ h.domains
unfolding input_of_host
input_of_host-domains h = refl

-- The line of the names of a host that was accepted is the directive and its end, and between them no
-- byte that ends a line, a directive or a block, begins one, quotes, comments or names a variable.
pub server_name_line-stops :
    (net : Net) (h : Host)
    → IsAccepted net (input_of_host h)
    → (names : Text) × (server_name_line h.domains
        ≡ lit "        server_name " ++ (names ++ lit ";\n"))
      × (contains_any names stops ≡ false)
unfolding server_name_line cat
server_name_line-stops net h a = (
  join b' ' h.domains,
  cc (append-nil (lit ";\n")),
  (contains_any-eq-false_iff (join b' ' h.domains) stops).1
      (join-stops h.domains (subst (All (λ d. All IsName d)) (input_of_host-domains h) a.names)),
)
