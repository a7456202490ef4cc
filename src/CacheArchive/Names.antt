-- ===== src/CacheArchive/Names.antt =====
-- `_normalized_member_path`: the names that are read, and as which path.
use mathlib.Core.Path.{subst}
use aros_toolchains.Prelude.{
  ℕ, ◌≤◌, String, Bool, true, false, ◌&&◌, ◌||◌, not, if◌then◌else◌, ok, ◌>>◌, require-ok, require,
  transport_error, ok-injective, ◌==◌, string_eq, nat_eq, all, length, leb, le_of_leb, both_true,
  not_held, eq_of_test, test_refl, ◌≡◌, ◌≢◌, refl, ap, sym, ◌∙◌, arith, Bool-cases, inl, inr, ◌⊎◌,
  ◌↔◌,
}
use aros_toolchains.Text.{any_char, first_char, last_char, strip_prefix}
use aros_toolchains.Text.Bytes.{encode}
use aros_toolchains.Text.Split.{split}
use aros_toolchains.CacheArchive.Records.{
  check_path, normalized_member_path, without_dot_slash, without_slash, is_slash,
  is_unsafe_component, fits_component, max_path_bytes, re_drive_path,
}
use aros_toolchains.CacheArchive.Paths.{IsSafePath, root_entry, normalized_member_path-IsSafePath}
use aros_toolchains.CacheArchive.Stripped.{
  IsReadAs, stripped-IsReadAs, without_slash_back, without_dot_slash_back, not_root,
}

-- A name with neither a zero nor a backslash, short, and relative.
pub record IsPlain (name : String) : Type 0 where
  pub no_zero : any_char (λ c. c == 0) name ≡ false
  pub no_backslash : any_char (λ c. c == 92) name ≡ false
  pub short : length (encode name) ≤ max_path_bytes
  pub relative : first_char is_slash name ≡ false
  pub driveless : re_drive_path name ≡ false

-- A safe path passes the checks that are made of it.
leb_of_le : (m n : ℕ) → m ≤ n → leb m n ≡ true
leb_of_le m n h = ground arith

check_path_safe : (path : String) → IsSafePath path → check_path path ≡ ok path
unfolding check_path
check_path_safe path safe =
    rw (safe.nonempty, safe.closed)
      (rw
        (
          safe.components,
          safe.short_components,
          leb_of_le (length (encode path)) max_path_bytes safe.short,
        )
        refl)

-- What a name is read as: the root, or a safe path.
pub data IsMember (name : String) (is_dir : Bool) (path : String) : Type 0 where
  root : (name ≡ ".") ⊎ (name ≡ "./") → is_dir ≡ true → path ≡ "" → IsMember name is_dir path
  below : IsPlain name → IsSafePath path → IsReadAs name is_dir path → IsMember name is_dir path

plain_read :
    (name : String) (is_dir : Bool) (path : String)
    → IsPlain name
    → normalized_member_path name is_dir ≡ (
        if name == "." || name == "./"
        then require is_dir (transport_error "archive root entry must be a directory") >> ok ""
        else check_path (without_slash is_dir (without_dot_slash name)))
unfolding normalized_member_path
plain_read name is_dir path p =
    rw (p.no_zero, p.no_backslash)
      (rw (leb_of_le (length (encode name)) max_path_bytes p.short)
        (rw (p.relative, p.driveless) refl))

read_below :
    (name : String) (is_dir : Bool) (path : String)
    → IsPlain name
    → IsSafePath path
    → IsReadAs name is_dir path
    → normalized_member_path name is_dir ≡ ok path
read_below name is_dir path plain safe r =
    plain_read name is_dir path plain
    ∙ subst
        (λ t.
          (if t == "." || t == "./"
            then require is_dir (transport_error "archive root entry must be a directory") >> ok ""
            else check_path (without_slash is_dir (without_dot_slash t)))
          ≡ ok path)
        (sym r.parts)
        (rw (not_root path r.end is_dir safe r.ends r.start r.starts) (
          ap (λ t. check_path (without_slash is_dir t))
            (without_dot_slash_back path r.end is_dir safe r.ends r.start r.starts)
          ∙ ap check_path (without_slash_back path r.end is_dir safe r.ends)
          ∙ check_path_safe path safe))

read_back :
    (name : String) (is_dir : Bool) (path : String)
    → IsMember name is_dir path
    → normalized_member_path name is_dir ≡ ok path
unfolding normalized_member_path string_eq nat_eq
read_back name is_dir path (IsMember.root named d e) = elim named [
  | inl f ↦ rw (f, d, e) refl
  | inr f ↦ rw (f, d, e) refl
]
read_back name is_dir path (IsMember.below plain safe r) = read_below name is_dir path plain safe r

check_path-eq : (p path : String) → check_path p ≡ ok path → (p ≡ path) × (path ≢ "")
unfolding check_path
check_path-eq p path h = require-ok (not (p == "") && not (last_char is_slash p)) _ _ h λ given h1.
    require-ok (all (λ part. not (is_unsafe_component part)) (split "/" p)) _ _ h1 λ _ h2.
      require-ok (all fits_component (split "/" p)) _ _ h2 λ _ h3.
        require-ok (leb (length (encode p)) max_path_bytes) _ _ h3 λ _ h4.
          let same : p ≡ path = ok-injective h4 in
          let some_text = not_held (p == "") (both_true (not (p == "")) _ given).0 in
          (
            same,
            λ e.
                true-ne-false
                  (sym (ap (λ t. t == "") (same ∙ e) ∙ test_refl {A = String} "") ∙ some_text),
          )
  where
    true-ne-false : true ≡ false → ⊥
    true-ne-false h = cc

named_root : (name : String) → (name == "." || name == "./") ≡ true → (name ≡ ".") ⊎ (name ≡ "./")
named_root name h = elim (Bool-cases (name == ".")) [
  | inl e ↦ inl (eq_of_test name "." e)
  | inr e ↦ inr (eq_of_test name "./" (rw e at h))
]

other_name :
    (name : String) (is_dir : Bool) (path : String)
    → IsPlain name
    → ((path ≡ "") × (is_dir ≡ true)) ⊎ IsSafePath path
    → check_path (without_slash is_dir (without_dot_slash name)) ≡ ok path
    → IsMember name is_dir path
other_name name is_dir path plain safe h =
    let p = check_path-eq (without_slash is_dir (without_dot_slash name)) path h in
    elim safe [
      | inl e ↦ absurd (p.1 e.0)
      | inr s ↦ IsMember.below plain s (
          subst (IsReadAs name is_dir) p.0
            (stripped-IsReadAs name is_dir (strip_prefix "./" name) refl))
    ]

read_forth :
    (name : String) (is_dir : Bool) (path : String)
    → normalized_member_path name is_dir ≡ ok path
    → ((path ≡ "") × (is_dir ≡ true)) ⊎ IsSafePath path
    → IsMember name is_dir path
unfolding normalized_member_path
read_forth name is_dir path h safe =
    require-ok (not (any_char (λ c. c == 0) name) && not (any_char (λ c. c == 92) name)) _ _ h
      λ whole h1. require-ok (leb (length (encode name)) max_path_bytes) _ _ h1 λ short h2.
        require-ok (not (first_char is_slash name) && not (re_drive_path name)) _ _ h2
          λ relative h3.
            let z =
              both_true (not (any_char (λ c. c == 0) name)) (not (any_char (λ c. c == 92) name))
                whole in
            let r =
              both_true (not (first_char is_slash name)) (not (re_drive_path name)) relative in
            let plain : IsPlain name = record {
              no_zero = not_held (any_char (λ c. c == 0) name) z.0;
              no_backslash = not_held (any_char (λ c. c == 92) name) z.1;
              short = le_of_leb (length (encode name)) max_path_bytes short;
              relative = not_held (first_char is_slash name) r.0;
              driveless = not_held (re_drive_path name) r.1;
            } in
            elim (Bool-cases (name == "." || name == "./")) [
              | inl at_root ↦
                  let e = root_entry is_dir path (rw at_root at h3) in
                  IsMember.root (named_root name at_root) e.1 e.0
              | inr other ↦ other_name name is_dir path plain safe (rw other at h3)
            ]

-- A member's name is read as a path exactly when one of two holds. It is `.` or `./` and the member is
-- a directory, and the path is empty, for the root. Or the name has no zero byte and no backslash,
-- at most 4096 bytes, does not start with a slash or with a letter and a colon, and is the path
-- after an optional `./` and, of a directory, before an optional slash; and the path is not empty,
-- has no zero byte, no backslash and no slash at its end, at most 4096 bytes, and no component that
-- is empty, `.` or `..` or longer than 255 bytes.
pub normalized_member_path_iff :
    (name : String) (is_dir : Bool) (path : String)
    → normalized_member_path name is_dir ≡ ok path ↔ IsMember name is_dir path
normalized_member_path_iff name is_dir path = (
  λ h. read_forth name is_dir path h (normalized_member_path-IsSafePath name is_dir path h),
  read_back name is_dir path,
)
