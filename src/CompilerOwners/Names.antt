-- ===== src/CompilerOwners/Names.antt =====
-- `_project_owners`: the texts of the plan, and how long the provider names made of them are.
use Prim.Native.Char.{code}
use aros_toolchains.Prelude.{
  ℕ, ◌+◌, ◌≤◌, ◌<◌, ◌^◌, String, Bool, true, ◌&&◌, ◌||◌, ltb, ◌≡◌, refl, arith, All-contains,
  contains, string_eq,
}
use aros_toolchains.Text.{char_count, all_chars, is_lower_alnum, is_alnum, one_of}
use aros_toolchains.Text.Bytes.{decimal, char_count-append, char_count-decimal}
use aros_toolchains.ReleaseMatrix.{active_hosts, is_safe_id, is_profile_id}
use aros_toolchains.CompilerOwners.{Key, fits, job_name_of, artifact_name}

abbrev pub is_plain_char : ℕ → Bool
is_plain_char c = ltb 0 c && ltb c 128

-- ASCII with no zero
abbrev pub is_plain : String → Bool
is_plain = all_chars is_plain_char

all_chars_mono :
    (p q : ℕ → Bool)
    → ((c : ℕ) → p c ≡ true → q c ≡ true)
    → (s : String) → all_chars p s ≡ true
    → all_chars q s ≡ true
all_chars_mono p q f String.[] h = refl
all_chars_mono p q f (String.◌∷◌ c s) h = ground (arith, f (code c), all_chars_mono p q f s)

safe_id_facts :
    (s : String)
    → is_safe_id s ≡ true
    → (all_chars (λ c. is_lower_alnum c || one_of "-" c) s ≡ true) × (char_count s ≤ 64)
unfolding is_safe_id
safe_id_facts s h = ground arith

profile_id_facts :
    (s : String)
    → is_profile_id s ≡ true
    → (all_chars (λ c. is_alnum c || one_of "._-" c) s ≡ true) × (char_count s ≤ 128)
unfolding is_profile_id
profile_id_facts s h = ground arith

plain_lower : (c : ℕ) → (is_lower_alnum c || one_of "-" c) ≡ true → is_plain_char c ≡ true
plain_lower c h = ground arith

plain_profile : (c : ℕ) → (is_alnum c || one_of "._-" c) ≡ true → is_plain_char c ≡ true
plain_profile c h = ground arith

-- What is known of the four texts of a build.
pub record IsPlainKey (k : Key) : Type 0 where
  pub plain_group : is_plain k.0 ≡ true
  pub plain_host : is_plain k.1.0 ≡ true
  pub plain_profile : is_plain k.1.1.0 ≡ true
  pub plain_copy : is_plain k.1.1.1 ≡ true
  pub group_length : char_count k.0 ≤ 64
  pub host_length : char_count k.1.0 ≤ 13
  pub profile_length : char_count k.1.1.0 ≤ 128
  pub copy_length : char_count k.1.1.1 ≤ 1

host_facts :
    (h : String) → contains active_hosts h ≡ true → (is_plain h ≡ true) × (char_count h ≤ 13)
host_facts h m =
    All-contains (λ h. (is_plain h ≡ true) × (char_count h ≤ 13)) active_hosts h
      ((refl, omega arith), ((refl, omega arith), ((refl, omega arith), tt))) m

pub IsPlainKey-intro :
    (g h p c : String)
    → is_safe_id g ≡ true
    → contains active_hosts h ≡ true
    → is_profile_id p ≡ true
    → (is_plain c ≡ true) × (char_count c ≤ 1)
    → IsPlainKey (g, (h, (p, c)))
IsPlainKey-intro g h p c sg mh sp pc =
    let fg = safe_id_facts g sg in
    let fp = profile_id_facts p sp in
    let fh = host_facts h mh in
    record {
      plain_group =
          all_chars_mono (λ c. is_lower_alnum c || one_of "-" c) is_plain_char plain_lower g fg.0;
      plain_host = fh.0;
      plain_profile =
          all_chars_mono (λ c. is_alnum c || one_of "._-" c) is_plain_char plain_profile p fp.0;
      plain_copy = pc.0;
      group_length = fg.1;
      host_length = fh.1;
      profile_length = fp.1;
      copy_length = pc.1;
    }

fits_of_bounds : (s : String) → 0 < char_count s → char_count s ≤ 256 → fits s ≡ true
fits_of_bounds s h k = ground arith

char_count-job_name_of :
    (g h p c : String)
    → char_count (job_name_of (g, (h, (p, c))))
      ≡ 24 + char_count g + char_count h + char_count p + char_count c
unfolding job_name_of
char_count-job_name_of g h p c = simp char_count-append (omega arith)

-- A job's name fits.
pub fits-job_name_of : (k : Key) → IsPlainKey k → fits (job_name_of k) ≡ true
fits-job_name_of (g, (h, (p, c))) f =
    fits_of_bounds (job_name_of (g, (h, (p, c)))) (omega (arith, char_count-job_name_of g h p c))
      (omega (arith, char_count-job_name_of g h p c))

char_count-artifact_name :
    (prefix id : String) (run_id run_attempt : ℕ)
    → char_count (artifact_name prefix id run_id run_attempt)
      ≡ 2
        + char_count prefix
        + char_count id
        + char_count (decimal run_id)
        + char_count (decimal run_attempt)
unfolding artifact_name
char_count-artifact_name prefix id run_id run_attempt = simp char_count-append (omega arith)

-- So does an artifact's name, for a digest of 64 characters and identities below 10^16.
pub fits-artifact_name :
    (prefix id : String) (run_id run_attempt : ℕ)
    → char_count prefix ≤ 16
    → char_count id ≡ 64
    → run_id < 10 ^ 16
    → run_attempt < 10 ^ 16
    → fits (artifact_name prefix id run_id run_attempt) ≡ true
fits-artifact_name prefix id run_id run_attempt short long small_id small_attempt =
    fits_of_bounds (artifact_name prefix id run_id run_attempt)
      (omega (arith, char_count-artifact_name prefix id run_id run_attempt))
      (omega (
        arith,
        char_count-artifact_name prefix id run_id run_attempt,
        char_count-decimal 15 run_id small_id,
        char_count-decimal 15 run_attempt small_attempt,
      ))
