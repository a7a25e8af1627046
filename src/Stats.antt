-- ===== src/Stats.antt =====
-- stats/graphite.go: the names under which the counters of server/stats.go are registered, and what `Collect`
-- starts. The registry and the exporters are those of github.com/rcrowley/go-metrics.
pub mod Names
pub mod Register
use go_dnsmasq.Base.{ℕ, ◌+◌, ◌==◌, Bool, List, [], ◌∷◌, ◌++◌, Option, none, some, if◌then◌else◌}
use go_dnsmasq.Base.Text.{Bytes, lit}
use go_dnsmasq.Base.Map.{Map}
use go_dnsmasq.Server.Config.{is_nil}
use go_dnsmasq.Server.Tally.{index}
use go_dnsmasq.Server.World.{
  Counter, forward_count, stub_forward_count, lookup_count, request_count, dnssec_ok_count,
  name_error_count, refused_count, no_data_count, dnssec_cache_miss, cache_miss, cache_hit,
  stale_cache_hit, request_fail,
}

-- `counters`.
abbrev pub counters : Map Counter
counters =
    (lit "go-dnsmasq-forward-requests", forward_count)
    ∷ (lit "go-dnsmasq-stub-forward-requests", stub_forward_count)
    ∷ (lit "go-dnsmasq-dnssecok-requests", dnssec_ok_count)
    ∷ (lit "go-dnsmasq-dnssec-cache-miss", dnssec_cache_miss)
    ∷ (lit "go-dnsmasq-internal-lookups", lookup_count)
    ∷ (lit "go-dnsmasq-requests", request_count)
    ∷ (lit "go-dnsmasq-nameerror-responses", name_error_count)
    ∷ (lit "go-dnsmasq-refused", refused_count)
    ∷ (lit "go-dnsmasq-nodata-responses", no_data_count)
    ∷ (lit "go-dnsmasq-cache-miss", cache_miss)
    ∷ (lit "go-dnsmasq-cache-hit", cache_hit)
    ∷ (lit "go-dnsmasq-stale-cache-hit", stale_cache_hit)
    ∷ (lit "go-dnsmasq-stale-request-fail", request_fail)
    ∷ []

-- The environment variables that are read.
pub record Variables : Type 0 where
  pub graphite_server : Bytes
  pub graphite_prefix : Bytes
  pub stathat_user : Bytes

-- The prefix that `init` leaves.
unfoldable pub prefix : Variables → Bytes
prefix v = if is_nil v.graphite_prefix then lit "go-dnsmasq" else v.graphite_prefix

-- An exporter, started in a goroutine of its own.
pub data Exporter {ℓ} (Addr : Type ℓ) : Type ℓ where
  graphite : Bytes → Addr → Exporter Addr
  stathat : Bytes → Exporter Addr

-- `Collect`, with `net.ResolveTCPAddr`, which gives `none` with an error.
unfoldable pub collect {ℓ} :
    {Addr : Type ℓ} → (Bytes → Option Addr) → Variables → List (Exporter Addr)
unfolding prefix
collect {Addr} resolve v = to_graphite ++ to_stathat
  where
    to_graphite : List (Exporter Addr)
    to_graphite = if is_nil v.graphite_server then [] else elim (resolve v.graphite_server) [
      | none ↦ []
      | some addr ↦ graphite (prefix v) addr ∷ []
    ]

    to_stathat : List (Exporter Addr)
    to_stathat = if is_nil v.stathat_user then [] else stathat v.stathat_user ∷ []

-- What the variables of server/stats.go hold (`none` is a `nopCounter`, `some n` the counter that the call number
-- `n` of `NewCounter` made), how many counters are made, the registry, and the names that it refused.
pub record Registered (R : Type 0) : Type 0 where
  pub vars : Counter → Option ℕ
  pub made : ℕ
  pub registry : R
  pub failed : List Bytes

-- `metrics.Register`, which also returns whether there was no error, is an argument.
module _ {R : Type 0} (register : Bytes → ℕ → R → R × Bool) where
  -- The body of the loop of `init`.
  unfoldable pub register_counter : Bytes × Counter → Registered R → Registered R
  register_counter (k, v) s = record {
    vars = λ c. if index v == index c then some s.made else s.vars c;
    made = s.made + 1;
    registry = (register k s.made s.registry).0;
    failed = if (register k s.made s.registry).1 then s.failed else s.failed ++ k ∷ [];
  }

  -- The loop of `init`, which visits the entries of `counters` in any order.
  unfoldable pub register_all : Map Counter → Registered R → Registered R
  unfolding register_counter
  register_all [] s = s
  register_all (e ∷ es) s = register_all es (register_counter e s)

  -- `init`, before which no counter is made.
  unfoldable pub init : Map Counter → R → Registered R
  unfolding register_all
  init order r =
      register_all order (record { vars = λ c. none; made = 0; registry = r; failed = [] })
