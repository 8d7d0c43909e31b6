-- ===== src/Api/ZentLoop/Run.antt =====
-- internal/api/server.go: proofs on sequences of requests that save the settings of ZentLoop.
use zent_proxy.Base.{
  ℕ, refl, ◌⊎◌, inl, inr, Bool, true, false, Option, none, some, List, [], ◌∷◌, map, Bool-cases,
  All, Text, lit,
}
use zent_proxy.Model.{ZentLoopRule, ZentLoopConfig}
use zent_proxy.Net.{Net}
use zent_proxy.Strings.Equality.{text_eq}
use zent_proxy.Api.State.{Outcome, activated, rejected, broken}
use zent_proxy.Api.ZentLoop.{
  UpstreamUrl, ZentLoopError, names_of, accept_config, read_config, write_config, undo_config,
  ConfigRequest, Integration, loaded_rule, loaded, audited, activate_as, apply_config, undo,
  after_apply, save, with_body, zent_loop_set, zent_loop_sets,
}
use zent_proxy.Api.ZentLoop.Valid.{
  IsValidRule, IsValidConfig, GoodConfig, accept_config-Good, normal_fallback-cases,
}

loaded_rule-IsValidRule :
    (names : List Text) (r : ZentLoopRule) → IsValidRule names r → IsValidRule names (loaded_rule r)
unfolding loaded_rule
loaded_rule-IsValidRule names r v = elim (Bool-cases (text_eq r.action (lit "block"))) [
  | inl e ↦ rw e v
  | inr e ↦ rw e (record { name = v.name; subject = v.subject; action = inl refl })
]

loaded_rules :
    (names : List Text) (rs : List ZentLoopRule)
    → All (IsValidRule names) rs
    → All (IsValidRule names) (map loaded_rule rs)
loaded_rules names [] h = tt
loaded_rules names (r ∷ rs) (v, h) = (loaded_rule-IsValidRule names r v, loaded_rules names rs h)

module _ (net : Net) (parse_url : Text → Option UpstreamUrl)
    (outcome : ℕ → ZentLoopConfig → Outcome) where
  loaded-IsValid :
      (c : ZentLoopConfig) → IsValidConfig net parse_url c → IsValidConfig net parse_url (loaded c)
  unfolding loaded
  loaded-IsValid c v = record {
    lists = v.lists;
    rules = loaded_rules (names_of c.ip_lists) c.rules v.rules;
    upstream = v.upstream;
    fallback = normal_fallback-cases net parse_url c.fallback;
  }

  -- The stored settings and those of the configuration on disk are valid.
  pub record IsValidState (st : Integration) : Type 0 where
    pub stored : IsValidConfig net parse_url st.stored
    pub live : IsValidConfig net parse_url st.live

  apply-IsValid :
      (st : Integration) → IsValidState st → IsValidState (apply_config net parse_url outcome st).0
  unfolding apply_config
  apply-IsValid st v = go (outcome st.activations st.stored)
    where
      go : (o : Outcome) → IsValidState (activate_as o st).0
      go activated = record { stored = v.stored; live = v.stored }
      go rejected = record { stored = v.stored; live = v.live }
      go broken = record { stored = v.stored; live = v.stored }

  undo-IsValid :
      (rq : ConfigRequest) (old : ZentLoopConfig) (st : Integration)
      → IsValidConfig net parse_url old
      → IsValidState st
      → IsValidState (undo net parse_url outcome rq old st)
  unfolding undo
  undo-IsValid rq old st w v = elim (Bool-cases (rq.fails undo_config)) [
    | inl e ↦ rw e v
    | inr e ↦ rw e (record { stored = w; live = v.live })
  ]

  after_apply-IsValid :
      (rq : ConfigRequest) (old c : ZentLoopConfig) (r : Integration × Bool)
      → IsValidConfig net parse_url old
      → IsValidState r.0
      → IsValidState (after_apply net parse_url outcome rq old c r).0
  unfolding audited
  after_apply-IsValid rq old c (st, true) w v = record { stored = v.stored; live = v.live }
  after_apply-IsValid rq old c (st, false) w v =
      apply-IsValid (undo net parse_url outcome rq old st) (undo-IsValid rq old st w v)

  save-IsValid :
      (rq : ConfigRequest) (old : ZentLoopConfig) (r : ZentLoopConfig ⊎ ZentLoopError)
      (st : Integration)
      → GoodConfig net parse_url r
      → IsValidConfig net parse_url old
      → IsValidState st
      → IsValidState (save net parse_url outcome rq old r st).0
  save-IsValid rq old (inr e) st g w v = v
  save-IsValid rq old (inl c) st g w v = elim (Bool-cases (rq.fails write_config)) [
    | inl e ↦ rw e v
    | inr e ↦ rw e (
        after_apply-IsValid rq old c (apply_config net parse_url outcome (record st { stored = c }))
          w (apply-IsValid (record st { stored = c }) (record { stored = g; live = v.live })))
  ]

  with_body-IsValid :
      (rq : ConfigRequest) (old : ZentLoopConfig) (b : Option ZentLoopConfig) (st : Integration)
      → IsValidConfig net parse_url old
      → IsValidState st
      → IsValidState (with_body net parse_url outcome rq old b st).0
  with_body-IsValid rq old none st w v = v
  with_body-IsValid rq old (some raw) st w v =
      save-IsValid rq old (accept_config net parse_url old raw) st
        (accept_config-Good net parse_url old raw) w v

  zent_loop_set-IsValid :
      (rq : ConfigRequest) (st : Integration)
      → IsValidState st
      → IsValidState (zent_loop_set net parse_url outcome rq st).0
  unfolding zent_loop_set
  zent_loop_set-IsValid rq st v = elim (Bool-cases (rq.fails read_config)) [
    | inl e ↦ rw e v
    | inr e ↦
        rw e
          (with_body-IsValid rq (loaded st.stored) rq.body st (loaded-IsValid st.stored v.stored) v)
  ]

  -- If the stored settings and those on disk are valid, they are after any sequence of requests that
  -- save settings, whatever the store and the activations do: the names of the lists differ, their
  -- entries are addresses, each rule is for an existing list or for a path that cannot end its
  -- directive, the fallback is one of the two, and an enabled integration has a usable URL.
  pub zent_loop_sets-IsValid :
      (rqs : List ConfigRequest) (st : Integration)
      → IsValidState st
      → IsValidState (zent_loop_sets net parse_url outcome rqs st)
  unfolding zent_loop_sets
  zent_loop_sets-IsValid [] st v = v
  zent_loop_sets-IsValid (rq ∷ rqs) st v =
      zent_loop_sets-IsValid rqs (zent_loop_set net parse_url outcome rq st).0
        (zent_loop_set-IsValid rq st v)
