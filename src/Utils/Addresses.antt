-- ===== src/Utils/Addresses.antt =====
-- Utils/addr.go: the lookups of addresses. The environment, sciond, the file system and freeport
-- are parameters. The errors that fmt.Errorf wraps are passed on as they are.
use bittorrent_over_scion.Common.{
  ℕ, ◌/◌, ◌%◌, ◌^◌, List, [], ◌∷◌, Bool, not, ◌==◌, Option, none, some, if◌then◌else◌, ℤ,
  unsupported, ok, err, M, ◌>>=◌, ◌>>◌, pure, lift,
}

-- net.UDPAddr and snet.UDPAddr.
pub record HostAddr : Type 0 where
  pub ip : List ℕ
  pub port : ℤ

pub record SnetAddr (Ia : Type 0) : Type 0 where
  pub ia : Ia
  pub host : HostAddr

pub record SciondCalls : Type 1 where
  pub Net : Type 0
  pub Ia : Type 0
  pub Connector : Type 0
  pub lookup_env : List ℕ → Option (List ℕ)
  -- sciond.DefaultAPIAddress and reliable.DefaultDispPath
  pub default_api_address : List ℕ
  pub default_disp_path : List ℕ
  pub connect : List ℕ → M Net Connector
  pub underlay_anycast : Connector → M Net HostAddr
  pub local_ia : Connector → M Net Ia
  -- the port that GetFreePort returns, with an error or without
  pub get_free_port : Net → ℤ × Net
  -- the mode of a file
  pub stat : List ℕ → M Net ℕ

-- "SCION_DAEMON_ADDRESS" and "SCION_DISPATCHER_SOCKET"
abbrev pub daemon_variable : List ℕ
daemon_variable =
    83 ∷ 67 ∷ 73 ∷ 79 ∷ 78 ∷ 95 ∷ 68 ∷ 65 ∷ 69 ∷ 77 ∷ 79 ∷ 78 ∷ 95 ∷ 65 ∷ 68 ∷ 68 ∷ 82 ∷ 69 ∷ 83
    ∷ 83 ∷ []

abbrev pub dispatcher_variable : List ℕ
dispatcher_variable =
    83 ∷ 67 ∷ 73 ∷ 79 ∷ 78 ∷ 95 ∷ 68 ∷ 73 ∷ 83 ∷ 80 ∷ 65 ∷ 84 ∷ 67 ∷ 72 ∷ 69 ∷ 82 ∷ 95 ∷ 83 ∷ 79
    ∷ 67 ∷ 75 ∷ 69 ∷ 84 ∷ []

abbrev pub or_default : Option (List ℕ) → List ℕ → List ℕ
or_default none text = text
or_default (some given) text = given

-- os.ModeSocket is the bit 24.
unfoldable pub is_socket : ℕ → Bool
is_socket mode = not (mode / 2 ^ 24 % 2 == 0)

module _ (calls : SciondCalls) where
  unfoldable pub find_any_host_in_local_as : calls.Connector → M calls.Net HostAddr
  find_any_host_in_local_as conn = calls.underlay_anycast conn

  unfoldable pub find_sciond : M calls.Net calls.Connector
  find_sciond =
      calls.connect (or_default (calls.lookup_env daemon_variable) calls.default_api_address)

  unfoldable pub get_local_host : M calls.Net HostAddr
  get_local_host = do conn ← find_sciond; find_any_host_in_local_as conn

  with_free_port : HostAddr → M calls.Net HostAddr
  with_free_port host s =
      let (port, s') = calls.get_free_port s in (ok (record host { port = port }), s')

  local_addr : HostAddr → calls.Ia → M calls.Net (SnetAddr calls.Ia)
  local_addr host ia = pure (record { ia = ia; host = host })

  -- sciond is asked for twice.
  unfoldable pub get_default_local_addr : M calls.Net (SnetAddr calls.Ia)
  unfolding with_free_port local_addr
  get_default_local_addr = do
    found ← get_local_host
    host ← with_free_port found
    conn ← find_sciond
    ia ← calls.local_ia conn
    local_addr host ia

  checked : ℕ → M calls.Net (Unit {0})
  checked mode = lift (if not (is_socket mode) then err unsupported else ok tt)

  unfoldable pub stat_socket : List ℕ → M calls.Net (Unit {0})
  unfolding checked
  stat_socket path = do mode ← calls.stat path; checked mode

  unfoldable pub find_dispatcher_socket : M calls.Net (List ℕ)
  find_dispatcher_socket =
      let path = or_default (calls.lookup_env dispatcher_variable) calls.default_disp_path in
      (do stat_socket path; pure path)
