-- ===== src/Hosts/Poll.antt =====
-- hostsfile/hostsfile.go: `loadHostEntries` and the loop of `monitorHostEntries`. What the file system
-- answers at a tick is an argument: the result of `os.Stat` and the content that `os.ReadFile` gives.
pub mod Follow
use go_dnsmasq.Base.{
  ℕ, ◌≡◌, ◌≢◌, refl, ◌⊎◌, inl, inr, Bool, true, false, ◌&&◌, List, [], ◌∷◌, Option, none, some,
  arith, if◌then◌else◌, ◌==◌, Bool-cases, Option-cases,
}
use go_dnsmasq.Base.Int.{ℤ, pos, ltb_ℤ, eq_ℤ, eq_ℤ_iff}
use go_dnsmasq.Base.Text.{Bytes, split}
use go_dnsmasq.Hosts.Net.{Ip}
use go_dnsmasq.Hosts.{Hostlist, new_hostlist, ◌>>=◌}
use go_dnsmasq.Hosts.Build.{IsHostlist, ReadsAll, new_hostlist-IsHostlist}

-- `Hostsfile`, with its `file` flattened. The loop's own copy of `file` equals it at every tick. Instants are
-- counted from Go's zero time.
pub record Hostsfile : Type 0 where
  pub hosts : Hostlist
  pub size : ℕ
  pub mtime : ℤ

-- `(mtime, size)` as `hostsFileMetadata` returns them.
abbrev pub Metadata : Type 0
Metadata = ℤ × ℕ

-- What `NewHostsfile` returns: an error, or the hosts and whether they are polled.
pub data Opened : Type 0 where
  unreadable : Opened
  opened : Hostsfile → Bool → Opened

module _ (parse_ip : Bytes → Ip) where
  -- `loadHostEntries`: a file that cannot be read leaves the list as it is; the flag reports the error.
  unfoldable pub load_host_entries : Hostsfile → Option Bytes → Option (Hostsfile × Bool)
  load_host_entries h none = some (h, true)
  load_host_entries h (some text) = do
    hosts ← new_hostlist parse_ip text
    some (record h { hosts = hosts }, false)

  -- One tick of `monitorHostEntries`; `none` is a fault of the parser. An error of the reading is only
  -- logged.
  unfoldable pub tick : Hostsfile → Option Metadata → Option Bytes → Option Hostsfile
  unfolding load_host_entries
  tick h none content = some h
  tick h (some (mtime, size)) content =
      let reloaded = do
        (h', failed) ← load_host_entries h content
        some (record h' { mtime = mtime; size = size })
      in if eq_ℤ h.mtime mtime && h.size == size then some h else reloaded

  -- `NewHostsfile`; `none` is a fault of the parser. No file is read without a path.
  unfoldable pub new_hostsfile : Bytes → ℤ → Option Bytes → Option Opened
  unfolding load_host_entries
  new_hostsfile [] poll content =
      some (opened (record { hosts = []; size = 0; mtime = pos 0 }) false)
  new_hostsfile (x ∷ path) poll content = do
    (h, failed) ← load_host_entries (record { hosts = []; size = 0; mtime = pos 0 }) content
    if failed then some unreadable else some (opened h (ltb_ℤ (pos 0) poll))

  -- Ticks of `monitorHostEntries` one after another.
  unfoldable pub monitor_host_entries :
      Hostsfile → List (Option Metadata × Option Bytes) → Option Hostsfile
  unfolding tick
  monitor_host_entries h [] = some h
  monitor_host_entries h ((stat, content) ∷ ticks) = elim (tick h stat content) [
    | none ↦ none
    | some h' ↦ monitor_host_entries h' ticks
  ]

  same_metadata :
      (h : Hostsfile) (mtime : ℤ) (size : ℕ) (content : Option Bytes)
      → h.mtime ≡ mtime
      → h.size ≡ size
      → tick h (some (mtime, size)) content ≡ some h
  unfolding tick
  same_metadata h mtime size content e e' = ground (arith, eq_ℤ_iff h.mtime mtime)

  -- After a tick at which the file was changed and could not be read, the old entries stay, also at later
  -- ticks, whatever the file holds then, for as long as its metadata do not change again.
  pub tick_not_retried :
      (h : Hostsfile) (mtime : ℤ) (size : ℕ) (content : Option Bytes)
      → (h.mtime ≢ mtime) ⊎ (h.size ≢ size)
      → (h' : Hostsfile) × (tick h (some (mtime, size)) none ≡ some h')
        × (h'.hosts ≡ h.hosts)
        × (tick h' (some (mtime, size)) content ≡ some h')
  unfolding tick
  tick_not_retried h mtime size content new =
      let h' = record h { mtime = mtime; size = size } in
      (
        h',
        ground (arith, eq_ℤ_iff h.mtime mtime),
        refl,
        ground (arith, same_metadata h' mtime size content),
      )

  -- A tick keeps the invariant of the list, where no line of the content read makes the parser
  -- fault.
  pub tick-IsHostlist :
      (h : Hostsfile) (stat : Option Metadata) (content : Option Bytes)
      → IsHostlist h.hosts
      → ((text : Bytes) → content ≡ some text → ReadsAll parse_ip (split b'\n' text))
      → (h' : Hostsfile) × (tick h stat content ≡ some h') × IsHostlist h'.hosts
  unfolding tick
  tick-IsHostlist h none content i reads = (h, refl, i)
  tick-IsHostlist h (some (mtime, size)) content i reads =
      elim (Bool-cases (eq_ℤ h.mtime mtime && h.size == size)) [
        | inl same ↦ (h, rw same refl, i)
        | inr new ↦ elim (Option-cases content) [
          | inl unread ↦ (record h { mtime = mtime; size = size }, rw (new, unread) refl, i)
          | inr (text, read) ↦
              let (hs, e, i') = new_hostlist-IsHostlist parse_ip text (reads text read) in
              (record h { hosts = hs; mtime = mtime; size = size }, rw (new, read) (rw e refl), i')
        ]
      ]
