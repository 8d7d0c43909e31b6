-- ===== src/Proxy/Hosts/Accepted.antt =====
-- internal/proxy/manager.go: proofs on inputs that were normalised and accepted.
use zent_proxy.Base.{
  ◌≡◌, refl, sym, ap, subst, inl, inr, true, Option, none, List, [], ◌∷◌, map, In, All, Text,
}
use zent_proxy.Model.{HostInput}
use zent_proxy.Net.{Net}
use zent_proxy.Strings.Equality.{Distinct}
use zent_proxy.Strings.Trim.{trim_space, trim_space_idem}
use zent_proxy.Strings.Sorting.{sort_texts, IsSorted, sort_texts-IsSorted, In-sort_texts}
use zent_proxy.Proxy.Names.{valid_forward_host, normalize_server_name, valid_server_name}
use zent_proxy.Proxy.Names.Normal.{normalize_server_name_idem}
use zent_proxy.Proxy.Names.Safe.{IsName, valid_forward_host-IsName, valid_server_name-IsName}
use zent_proxy.Proxy.Hosts.{normalize_host_input, validate_host, normalize_and_validate, HostError}
use zent_proxy.Proxy.Hosts.Valid.{IsValidHost, validate_host_iff}

module _ (net : Net) where
  -- Fixed by normalisation, as every member of a normalised list is.
  abbrev IsFixed : Text → Type 0
  IsFixed d = normalize_server_name net d ≡ d

  map_fixed : (xs : List Text) → All IsFixed xs → map (normalize_server_name net) xs ≡ xs
  map_fixed [] h = refl
  map_fixed (x ∷ xs) (p, h) = cc (p, map_fixed xs h)

  All_of_In : (P : Text → Type 0) (xs : List Text) → ((a : Text) → In a xs → P a) → All P xs
  All_of_In P [] f = tt
  All_of_In P (x ∷ xs) f = (f x (inl refl), All_of_In P xs (λ a i. f a (inr i)))

  In_All : (P : Text → Type 0) (a : Text) (xs : List Text) → All P xs → In a xs → P a
  In_All P a [] h i = elim i [ ]
  In_All P a (x ∷ xs) (p, h) (inl e) = subst P (sym e) p
  In_All P a (x ∷ xs) (p, h) (inr i) = In_All P a xs h i

  map-IsFixed : (ds : List Text) → All IsFixed (map (normalize_server_name net) ds)
  map-IsFixed [] = tt
  map-IsFixed (d ∷ ds) = (normalize_server_name_idem net d, map-IsFixed ds)

  sorted-IsFixed : (ds : List Text) → All IsFixed (sort_texts (map (normalize_server_name net) ds))
  sorted-IsFixed ds = All_of_In IsFixed (sort_texts (map (normalize_server_name net) ds)) λ a i.
      In_All IsFixed a (map (normalize_server_name net) ds) (map-IsFixed ds)
        ((In-sort_texts a (map (normalize_server_name net) ds)).0 i)

  -- What holds of an accepted input, for all that the configuration is made of.
  pub record IsAccepted (in_ : HostInput) : Type 0 where
    pub valid : IsValidHost net in_
    -- the names of the server, sorted and each once, in the bytes of names
    pub normal : map (normalize_server_name net) in_.domains ≡ in_.domains
    pub sorted : IsSorted in_.domains
    pub distinct : Distinct in_.domains
    pub names : All (λ d. All IsName d) in_.domains
    pub backend : All IsName (trim_space in_.forward_host)

  names_of_valid :
      (ds : List Text)
      → All (λ d. valid_server_name net (normalize_server_name net d) ≡ true) ds
      → All IsFixed ds
      → All (λ d. All IsName d) ds
  names_of_valid [] v f = tt
  names_of_valid (d ∷ ds) (v, vs) (f, fs) = (
    subst (All IsName) f (valid_server_name-IsName net (normalize_server_name net d) v),
    names_of_valid ds vs fs,
  )

  forward_host-trim :
      (raw : Text) → valid_forward_host net (trim_space raw) ≡ true → All IsName (trim_space raw)
  forward_host-trim raw h =
      subst (All IsName) (trim_space_idem raw) (valid_forward_host-IsName net (trim_space raw) h)

  accept :
      (raw : HostInput)
      → validate_host net (normalize_host_input net raw) ≡ none
      → IsAccepted (normalize_host_input net raw)
  accept raw h =
      let v = (validate_host_iff net (normalize_host_input net raw)).0 h in
      let fixed : All IsFixed (normalize_host_input net raw).domains =
        unfold normalize_host_input in sorted-IsFixed raw.domains in
      let same = map_fixed (normalize_host_input net raw).domains fixed in
      record {
        valid = v;
        normal = same;
        sorted =
            unfold normalize_host_input in
            sort_texts-IsSorted (map (normalize_server_name net) raw.domains);
        distinct = subst Distinct same v.distinct_domains;
        names = names_of_valid (normalize_host_input net raw).domains v.domains fixed;
        backend = forward_host-trim (normalize_host_input net raw).forward_host v.host;
      }

  -- An input that `normalize_and_validate` accepts is valid, and its domains are normal, sorted, each
  -- there once and written in the bytes of names. The host of its backend, without the blanks at its
  -- ends, is written in these bytes too.
  pub normalize_and_validate-IsAccepted :
      (raw in_ : HostInput) → normalize_and_validate net raw ≡ (in_, none) → IsAccepted in_
  unfolding normalize_and_validate
  normalize_and_validate-IsAccepted raw in_ h =
      subst IsAccepted (ap (λ (r : HostInput × Option HostError). r.0) h)
        (accept raw (ap (λ (r : HostInput × Option HostError). r.1) h))
