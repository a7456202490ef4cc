-- ===== src/CacheArchive/Paths.antt =====
-- `_normalized_member_path`: what an accepted member path is.
use Prim.Native.Char.{code}
use mathlib.Core.Path.{subst}
use aros_toolchains.Prelude.{
  some_injective, ℕ, ◌≤◌, String, Bool, true, false, ◌&&◌, ◌||◌, not, if◌then◌else◌, Option, none,
  some, ok, ◌>>◌, require-ok, require, transport_error, ok-injective, ◌==◌, string_eq, nat_eq, all,
  length, leb, ◌≡◌, refl, arith, sym, Bool-cases, inl, inr, ◌⊎◌,
}
use aros_toolchains.Text.{any_char, first_char, last_char, strip_prefix}
use aros_toolchains.Text.Bytes.{encode}
use aros_toolchains.Text.Split.{split}
use aros_toolchains.CacheArchive.Records.{
  check_path, normalized_member_path, without_dot_slash, without_slash, drop_last_char, is_slash,
  is_unsafe_component, fits_component, max_path_bytes, re_drive_path,
}

-- A path below the directory that is restored to.
pub record IsSafePath (path : String) : Type 0 where
  pub no_zero : any_char (λ c. c == 0) path ≡ false
  pub no_backslash : any_char (λ c. c == 92) path ≡ false
  pub nonempty : (path == "") ≡ false
  pub closed : last_char is_slash path ≡ false
  pub components : all (λ part. not (is_unsafe_component part)) (split "/" path) ≡ true
  pub short_components : all fits_component (split "/" path) ≡ true
  pub short : length (encode path) ≤ max_path_bytes

step :
    (b : Bool) (o : Option String) {rest : String}
    → (if b then o else none) ≡ some rest
    → o ≡ some rest
step true o h = h
step false o h = cc

or_right : (a b : Bool) → (a || b) ≡ false → b ≡ false
or_right a b h = ground arith

module _ (p : ℕ → Bool) where
  any_char-drop_last_char :
      (s : String) → any_char p s ≡ false → any_char p (drop_last_char s) ≡ false
  any_char-drop_last_char String.[] h = refl
  any_char-drop_last_char (String.◌∷◌ c String.[]) h = refl
  any_char-drop_last_char (String.◌∷◌ c (String.◌∷◌ d s)) h =
      ground (arith, any_char-drop_last_char (String.◌∷◌ d s))

  any_char-without_slash :
      (b : Bool) (s : String) → any_char p s ≡ false → any_char p (without_slash b s) ≡ false
  any_char-without_slash true s h = elim (Bool-cases (last_char is_slash s)) [
    | inl e ↦ rw e (any_char-drop_last_char s h)
    | inr e ↦ rw e h
  ]
  any_char-without_slash false s h = h

  any_char-strip_prefix :
      (prefix s rest : String)
      → strip_prefix prefix s ≡ some rest
      → any_char p s ≡ false
      → any_char p rest ≡ false
  any_char-strip_prefix String.[] s rest h k =
      subst (λ t. any_char p t ≡ false) (some_injective h) k
  any_char-strip_prefix (String.◌∷◌ c prefix) String.[] rest h k = cc
  any_char-strip_prefix (String.◌∷◌ c prefix) (String.◌∷◌ d s) rest h k =
      let both = step (code c == code d) (strip_prefix prefix s) h in
      any_char-strip_prefix prefix s rest both (or_right (p (code d)) (any_char p s) k)

  any_char-without_dot_slash :
      (s : String) → any_char p s ≡ false → any_char p (without_dot_slash s) ≡ false
  any_char-without_dot_slash s h =
      elim (strip_prefix "./" s)
          as (λ o.
            strip_prefix "./" s ≡ o → any_char p (elim o [ none ↦ s | some rest ↦ rest ]) ≡ false) [
              | none ↦ λ e. h
              | some rest ↦ λ e. any_char-strip_prefix "./" s rest e h
            ]
        refl

both_false : (a b : Bool) → (not a && not b) ≡ true → (a ≡ false) × (b ≡ false)
both_false a b h = ground arith

check_path-IsSafePath :
    (path result : String)
    → any_char (λ c. c == 0) path ≡ false
    → any_char (λ c. c == 92) path ≡ false
    → check_path path ≡ ok result
    → IsSafePath result
unfolding check_path
check_path-IsSafePath path result z b h =
    require-ok (not (path == "") && not (last_char is_slash path)) _ _ h λ given h1.
      require-ok (all (λ part. not (is_unsafe_component part)) (split "/" path)) _ _ h1
        λ components h2. require-ok (all fits_component (split "/" path)) _ _ h2 λ small h3.
          require-ok (leb (length (encode path)) max_path_bytes) _ _ h3 λ short h4.
            let both = both_false (path == "") (last_char is_slash path) given in
            subst IsSafePath (ok-injective h4) (record {
              no_zero = z;
              no_backslash = b;
              nonempty = both.0;
              closed = both.1;
              components = components;
              short_components = small;
              short = leb_le (length (encode path)) max_path_bytes short;
            })
  where
    leb_le : (m n : ℕ) → leb m n ≡ true → m ≤ n
    leb_le m n h = ground arith

pub root_entry :
    (is_dir : Bool) (path : String)
    → (require is_dir (transport_error "archive root entry must be a directory") >> ok "") ≡ ok path
    → (path ≡ "") × (is_dir ≡ true)
root_entry is_dir path h = require-ok is_dir _ _ h λ d h1. (sym (ok-injective h1), d)

-- An accepted member path is the root, which only a directory has, or it is safe: not empty, of
-- components none of which is empty, `.` or `..` or longer than 255 bytes, at most 4096 bytes long,
-- and without a zero byte, a backslash or a slash at its end.
pub normalized_member_path-IsSafePath :
    (name : String) (is_dir : Bool) (path : String)
    → normalized_member_path name is_dir ≡ ok path
    → ((path ≡ "") × (is_dir ≡ true)) ⊎ IsSafePath path
unfolding normalized_member_path
normalized_member_path-IsSafePath name is_dir path h =
    require-ok (not (any_char (λ c. c == 0) name) && not (any_char (λ c. c == 92) name)) _ _ h
      λ plain h1. require-ok (leb (length (encode name)) max_path_bytes) _ _ h1 λ short h2.
        require-ok (not (first_char is_slash name) && not (re_drive_path name)) _ _ h2
          λ relative h3.
            let both =
              both_false (any_char (λ c. c == 0) name) (any_char (λ c. c == 92) name) plain in
            elim (Bool-cases (name == "." || name == "./")) [
              | inl root ↦ inl (root_entry is_dir path (rw root at h3))
              | inr other ↦ inr (
                  check_path-IsSafePath (without_slash is_dir (without_dot_slash name)) path
                    (any_char-without_slash (λ c. c == 0) is_dir _
                      (any_char-without_dot_slash (λ c. c == 0) name both.0))
                    (any_char-without_slash (λ c. c == 92) is_dir _
                      (any_char-without_dot_slash (λ c. c == 92) name both.1))
                    (rw other at h3))
            ]
