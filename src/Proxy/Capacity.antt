-- ===== src/Proxy/Capacity.antt =====
-- internal/proxy/manager.go: worker connections and idle connections from the limit on open files.
-- The numbers of the code are far from overflow: each is at most the limit or 16384.
use zent_proxy.Base.{
  ℕ, zero, suc, ◌-◌, ◌*◌, ◌/◌, ◌≤◌, ◌<◌, ◌≡◌, subst, ◌↔◌, ◌⊎◌, inl, inr, arith, ltb, ◌==◌,
  if◌then◌else◌, Bool-cases,
}
use native.Mathlib.Nat.{mul-div-le}

pub record RuntimeCapacity : Type 0 where
  pub worker_connections : ℕ
  pub keepalive_per_upstream : ℕ
  pub zent_loop_keepalive : ℕ

unfoldable pub at_least : ℕ → ℕ → ℕ
at_least lo n = if ltb n lo then lo else n

unfoldable pub at_most : ℕ → ℕ → ℕ
at_most hi n = if ltb hi n then hi else n

-- the limit that is taken where none is known
unfoldable pub effective_nofile : ℕ → ℕ
effective_nofile nofile = if nofile == 0 then 1024 else nofile

unfoldable pub available_connections : ℕ → ℕ
unfolding at_least at_most
available_connections nofile =
    let reserve = at_least 64 (nofile / 16) in
    let available = at_most 16384 (if ltb reserve nofile then nofile - reserve else nofile / 2) in
    if ltb available 64 then nofile else available

unfoldable pub compute_runtime_capacity : ℕ → ℕ → RuntimeCapacity
unfolding at_least at_most effective_nofile available_connections
compute_runtime_capacity nofile upstream_pools =
    let worker = at_least 1 (available_connections (effective_nofile nofile)) in
    let keepalive = at_most 64 (at_least 1 (at_least 1 (worker / 4) / at_least 1 upstream_pools)) in
    record {
      worker_connections = worker;
      keepalive_per_upstream = keepalive;
      zent_loop_keepalive = at_most 16 keepalive;
    }

le-mul_of_le : (p d k w : ℕ) → p * d ≤ w → k ≤ d → p * k ≤ w
le-mul_of_le p d k w h e = grind arith

-- the share of a pool
share : ℕ → ℕ → ℕ
unfolding at_least at_most
share w p = at_most 64 (at_least 1 (at_least 1 (w / 4) / at_least 1 p))

share-le : (w p : ℕ) → (share w p ≡ 1) ⊎ (share w p ≤ at_least 1 (w / 4) / at_least 1 p)
unfolding share
share-le w p = ground arith

share-one : (w p : ℕ) → w < 4 → share w p ≡ 1
unfolding share
share-one w p h = ground arith

idle_share : (w p : ℕ) → 4 ≤ w → at_least 1 (w / 4) / at_least 1 (suc p) ≡ w / 4 / suc p
unfolding at_least
idle_share w p h = ground arith

share_budget : (w p : ℕ) → (share w p ≡ 1) ⊎ (p * share w p ≤ w / 4)
share_budget w zero = inr (grind arith)
share_budget w (suc p) = elim (Bool-cases (ltb w 4)) [
  | inl e ↦ inl (share-one w (suc p) (ground arith))
  | inr e ↦ elim (share-le w (suc p)) [
    | inl k ↦ inl k
    | inr k ↦ inr (
        le-mul_of_le (suc p) (w / 4 / suc p) (share w (suc p)) (w / 4) (mul-div-le (w / 4) (suc p))
          (subst (λ d. share w (suc p) ≤ d) (idle_share w p (ground arith)) k))
  ]
]

module _ (nofile pools : ℕ) where
  abbrev capacity : RuntimeCapacity
  capacity = compute_runtime_capacity nofile pools

  -- There is at least one worker connection, at most 16384, and no more than the limit on open
  -- files (1024 where none is known); each pool keeps 1 to 64 idle connections, and the ZentLoop
  -- pool 1 to 16, no more than the others.
  pub capacity_bounds :
      (1 ≤ capacity.worker_connections)
      × (capacity.worker_connections ≤ 16384)
      × (capacity.worker_connections ≤ effective_nofile nofile)
      × (1 ≤ capacity.keepalive_per_upstream)
      × (capacity.keepalive_per_upstream ≤ 64)
      × (1 ≤ capacity.zent_loop_keepalive)
      × (capacity.zent_loop_keepalive ≤ 16)
      × (capacity.zent_loop_keepalive ≤ capacity.keepalive_per_upstream)
  unfolding compute_runtime_capacity
  capacity_bounds = (
    ground arith,
    ground arith,
    ground arith,
    ground arith,
    ground arith,
    ground arith,
    ground arith,
    ground arith,
  )

  -- The worker connections are fewer than the open files that are allowed exactly if 128 or more
  -- are allowed; below that they are all of them.
  pub worker_connections-lt_iff :
      (capacity.worker_connections < effective_nofile nofile) ↔ (128 ≤ effective_nofile nofile)
  unfolding compute_runtime_capacity
  worker_connections-lt_iff = ground arith

  -- All pools together keep at most a quarter of the worker connections idle, unless each keeps one.
  pub keepalive_budget :
      (capacity.keepalive_per_upstream ≡ 1)
      ⊎ (pools * capacity.keepalive_per_upstream ≤ capacity.worker_connections / 4)
  unfolding compute_runtime_capacity share
  keepalive_budget =
      share_budget (at_least 1 (available_connections (effective_nofile nofile))) pools
