-- ===== src/Hosts/Poll/Follow.antt =====
-- hostsfile/hostsfile.go: the polled hosts follow the file.
use go_dnsmasq.Base.{
  ℕ, ◌≡◌, refl, ◌∙◌, sym, subst, inl, inr, true, ◌&&◌, List, [], ◌∷◌, Option, none, some, arith,
  map, ◌==◌, Bool-cases,
}
use go_dnsmasq.Base.Int.{ℤ, pos, ltb_ℤ, eq_ℤ, eq_ℤ_iff}
use go_dnsmasq.Base.Text.{Bytes, split}
use go_dnsmasq.Hosts.Net.{Ip}
use go_dnsmasq.Hosts.{new_hostlist}
use go_dnsmasq.Hosts.Build.{IsHostlist, ReadsAll, new_hostlist-IsHostlist}
use go_dnsmasq.Hosts.Poll.{Hostsfile, Metadata, opened, tick, new_hostsfile, monitor_host_entries}

abbrev metadata_of : Hostsfile → Metadata
metadata_of h = (h.mtime, h.size)

-- The metadata that the last tick with any found, and else those given.
abbrev pub latest : Metadata → List (Option Metadata) → Metadata
latest s [] = s
latest s (none ∷ stats) = latest s stats
latest s (some s' ∷ stats) = latest s' stats

module _ (parse_ip : Bytes → Ip) (content_of : Metadata → Bytes)
    (reads : (s : Metadata) → ReadsAll parse_ip (split b'\n' (content_of s))) where
  -- What a tick meets where the metadata tell the content.
  abbrev pub at_tick : Option Metadata → Option Metadata × Option Bytes
  at_tick none = (none, none)
  at_tick (some s) = (some s, some (content_of s))

  -- The hosts are those of the file with these metadata, which were seen last.
  pub record Current (s : Metadata) (h : Hostsfile) : Type 0 where
    pub seen : metadata_of h ≡ s
    pub parsed : new_hostlist parse_ip (content_of s) ≡ some h.hosts
    pub well_formed : IsHostlist h.hosts

  same_seen :
      (h : Hostsfile) (mtime : ℤ) (size : ℕ)
      → (eq_ℤ h.mtime mtime && h.size == size) ≡ true
      → metadata_of h ≡ (mtime, size)
  same_seen h mtime size e =
      let t : h.mtime ≡ mtime = ground (arith, eq_ℤ_iff h.mtime mtime, e) in
      let z : h.size ≡ size = ground (arith, e) in rw (t, z) refl

  tick-Current :
      (s : Metadata) (h : Hostsfile) (mtime : ℤ) (size : ℕ)
      → Current s h
      → (h' : Hostsfile) × (tick parse_ip h (some (mtime, size)) (some (content_of (mtime, size)))
          ≡ some h')
        × Current (mtime, size) h'
  unfolding tick
  tick-Current s h mtime size c = elim (Bool-cases (eq_ℤ h.mtime mtime && h.size == size)) [
    | inl same ↦
        (h, rw same refl, subst (λ s. Current s h) (sym c.seen ∙ same_seen h mtime size same) c)
    | inr new ↦
        let (hs, e, i) =
          new_hostlist-IsHostlist parse_ip (content_of (mtime, size)) (reads (mtime, size)) in
        (
          record h { hosts = hs; mtime = mtime; size = size },
          rw new (rw e refl),
          record { seen = refl; parsed = e; well_formed = i },
        )
  ]

  monitor-Current :
      (stats : List (Option Metadata)) (s : Metadata) (h : Hostsfile)
      → Current s h
      → (h' : Hostsfile) × (monitor_host_entries parse_ip h (map at_tick stats) ≡ some h')
        × Current (latest s stats) h'
  unfolding monitor_host_entries
  monitor-Current [] s h c = (h, refl, c)
  monitor-Current (none ∷ stats) s h c =
      let (h', e, c') = monitor-Current stats s h c in (h', unfold tick in e, c')
  monitor-Current (some (mtime, size) ∷ stats) s h c =
      let (h₁, e₁, c₁) = tick-Current s h mtime size c in
      let (h', e, c') = monitor-Current stats (mtime, size) h₁ c₁ in
      (h', rw (e₁, monitor_host_entries) e, c')

  -- A hosts file that can be read when it is opened and at each tick that finds its metadata, whose metadata tell
  -- its content (those of the zero time and size stand for the content at the opening) and in which no line makes
  -- the parser fault, is opened, and after any number of ticks the hosts are those of its content at the last
  -- tick that found its metadata, without duplicates. It is polled where the interval is positive.
  pub new_hostsfile-Current :
      (x : ℕ) (path : Bytes) (poll : ℤ) (stats : List (Option Metadata))
      → (h h' : Hostsfile) × (new_hostsfile parse_ip (x ∷ path) poll (some (content_of (pos 0, 0)))
          ≡ some (opened h (ltb_ℤ (pos 0) poll)))
        × (monitor_host_entries parse_ip h (map at_tick stats) ≡ some h')
        × Current (latest (pos 0, 0) stats) h'
  unfolding new_hostsfile
  new_hostsfile-Current x path poll stats =
      let (hs, e, i) =
        new_hostlist-IsHostlist parse_ip (content_of (pos 0, 0)) (reads (pos 0, 0)) in
      let h : Hostsfile = record { hosts = hs; size = 0; mtime = pos 0 } in
      let (h', runs, c) =
        monitor-Current stats (pos 0, 0) h (record { seen = refl; parsed = e; well_formed = i }) in
      (h, h', rw e refl, runs, c)
