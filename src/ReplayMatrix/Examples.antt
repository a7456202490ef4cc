-- ===== src/ReplayMatrix/Examples.antt =====
-- Runs of select-replay-matrix.py.
use aros_toolchains.Prelude.{[], ◌∷◌, ok, raise, value_error, string_eq, ◌≡◌, refl}
use aros_toolchains.ReplayMatrix.{select, product}
use aros_toolchains.ReplayMatrix.Closed.{
  chosen_hosts, chosen_profiles, select_total, IsRefusal, select-IsRefusal,
}

one_selected :
    select "macos-aarch64" "arm-raspi"
    ≡ ok (record { host = "macos-aarch64"; runner = "macos-15"; profile = "arm-raspi" } ∷ [])
unfolding select string_eq
one_selected = refl

unknown_host : select "windows" "all" ≡ raise (value_error "unsupported replay host: windows")
unfolding select string_eq
unknown_host = refl

profile_unknown : select "all" "amiga" ≡ raise (value_error "unsupported replay profile: amiga")
unfolding select string_eq
profile_unknown = refl

select_total_example :
    select "all" "rpi-aarch64" ≡ ok (product (chosen_hosts "all") (chosen_profiles "rpi-aarch64"))
unfolding string_eq
select_total_example = select_total "all" "rpi-aarch64" refl refl

select-IsRefusal_example : IsRefusal "all" "amiga" (value_error "unsupported replay profile: amiga")
select-IsRefusal_example =
    select-IsRefusal "all" "amiga" (value_error "unsupported replay profile: amiga") profile_unknown
