-- ===== src/ReplayMatrix.antt =====
-- scripts/toolchain/select-replay-matrix.py: the lanes of a compatibility replay.
pub mod Closed
pub mod Examples
use aros_toolchains.Prelude.{
  String, Bool, true, false, ◌&&◌, ◌||◌, List, [], ◌∷◌, ◌++◌, Result, ok, raise, value_error,
  require, ◌>>=◌, ◌>>◌, ◌==◌, ◌<>◌, contains, string_eq, map, keep,
}

-- A host and its runner
abbrev pub replay_hosts : List (String × String)
replay_hosts =
    ("linux-x86_64", "ubuntu-24.04")
    ∷ ("linux-aarch64", "ubuntu-24.04-arm")
    ∷ ("macos-aarch64", "macos-15")
    ∷ []

abbrev pub replay_profiles : List String
replay_profiles = "pc-x86_64" ∷ "arm-raspi" ∷ "rpi-aarch64" ∷ []

pub record Replay : Type 0 where
  pub host : String
  pub runner : String
  pub profile : String

abbrev pub host_choices : List String
host_choices = "all" ∷ map (λ (h : String × String). h.0) replay_hosts

abbrev pub profile_choices : List String
profile_choices = "all" ∷ replay_profiles

-- `itertools.product(HOSTS, PROFILES)`
abbrev pub product : List (String × String) → List String → List Replay
product [] profiles = []
product ((host, runner) ∷ hosts) profiles =
    map (λ profile. record { host = host; runner = runner; profile = profile }) profiles
    ++ product hosts profiles

abbrev pub is_chosen : String → String → Replay → Bool
is_chosen host profile r =
    (host == "all" || host == r.host) && (profile == "all" || profile == r.profile)

abbrev pub require_nonempty : List Replay → Result (List Replay)
require_nonempty [] = raise (value_error "replay selection is empty")
require_nonempty (r ∷ rs) = ok (r ∷ rs)

unfoldable pub select : String → String → Result (List Replay)
select host profile = do
  require (contains host_choices host) (value_error ("unsupported replay host: " <> host))
  require (contains profile_choices profile)
      (value_error ("unsupported replay profile: " <> profile))
  require_nonempty (keep (is_chosen host profile) (product replay_hosts replay_profiles))
